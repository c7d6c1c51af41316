-- ===== src/Node/Publishing.antt =====
-- `NodePublishVolume` and `NodeUnpublishVolume`. `type_parameter` and `fstype_parameter` are the
-- names of the parameters that the driver's name prefixes.
pub mod Mounting
pub mod Table
pub mod Unpublish
pub mod Accepting
use csi_sharedhostpath.Base.{
  Bool, true, false, not, ◌&&◌, Option, none, some, List, [], ◌∷◌, ◌++◌, Text, ◌==◌, text_eq,
  if◌then◌else◌,
}
use csi_sharedhostpath.Base.Dict.{Dict, lookup}
use csi_sharedhostpath.Base.Run.{
  Result, ok, err, Run, ◌>>=◌, ◌>>◌, return, return_if, when, act, ignore, try, check, give, need,
  call,
}
use csi_sharedhostpath.Base.Strings.{codes, is_empty}
use csi_sharedhostpath.Controller.Requests.{
  Code, invalid_argument, not_found, internal, VolumeCapability, wants_block, wants_mount,
}
use csi_sharedhostpath.Host.Db.{Err, is_not_exist}
use csi_sharedhostpath.Host.Rows.{Volume}
use csi_sharedhostpath.Host.World.{World, Host, on_db, on_os}
use csi_sharedhostpath.Node.{Devices, NodePublishRequest, NodeUnpublishRequest}
use csi_sharedhostpath.Volumes.Infos.{
  create_node_publish_volume_info, delete_node_publish_volume_info,
}
use csi_sharedhostpath.Volumes.Store.{get_volume}

abbrev pub Answer : Type 0 → Type 0
Answer A = Result Code A

abbrev pub mount_options : Bool → List Text
mount_options readonly = if readonly then codes "ro" ∷ [] else []

module _ {D F : Type 0} (host : Host D F) (devices : Devices F) where
  abbrev W : Type 0
  W = World D F

  -- A step of the disk alone: its error becomes the answer.
  abbrev fails_internal : {R : Type 0} → Err → Answer R
  fails_internal e = err internal

  -- The target of a block volume is a file; it is made if it is not there.
  make_target : Text → W → Answer (Unit {0}) × W
  make_target path w =
      let (found, w') = on_os (host.os.lstat path) w in
      elim found [
        | ok info ↦ (ok tt, w')
        | err e ↦
            let made =
              call
                (do
                  check (on_os (host.os.open_file path)) (give fails_internal)
                  check (on_os (host.os.close_file path)) (give fails_internal)
                  return (ok tt))
                w' in
            if is_not_exist e then made else (err internal, w')
      ]

  -- The branch for a block device.
  unfoldable pub mount_raw : NodePublishRequest → Volume → W → Answer (Unit {0}) × W
  unfolding make_target
  mount_raw req vol = call (do
    return_if (not vol.is_block) (err invalid_argument)
    device ← try (on_os (devices.attach_file_device vol.vol_path)) (give fails_internal)
    target ← try (make_target req.target_path) (give err)
    mounted ← act (on_os (host.os.is_not_mount_point req.target_path))
    not_mount ←
        try
          (λ w.
            (elim mounted [ ok b ↦ ok b | err e ↦ if is_not_exist e then ok true else err e ], w))
          (give fails_internal)
    when not_mount (
        check
          (on_os (
            host.os.mount device req.target_path []
              (mount_options req.readonly ++ (codes "bind" ∷ []))))
          (give fails_internal))
    return (ok tt))

  -- Whether the target is no mount point; it is made as a directory if it is not there.
  unfoldable pub check_mount_point : Text → W → Answer Bool × W
  check_mount_point path w =
      let (mounted, w') = on_os (host.os.is_not_mount_point path) w in
      elim mounted [
        | ok b ↦ (ok b, w')
        | err e ↦
            let made =
              call
                (do check (on_os (host.os.mkdir_all path)) (give fails_internal); return (ok true))
                w' in
            if is_not_exist e then made else (err internal, w')
      ]

  mount_folder : NodePublishRequest → Volume → W → Answer (Unit {0}) × W
  mount_folder req vol = call (do
    check
        (on_os (
          host.os.mount vol.vol_path req.target_path []
            (mount_options req.readonly ++ (codes "bind" ∷ []))))
        (give fails_internal)
    return (ok tt))

  mount_disk : Text → NodePublishRequest → Volume → W → Answer (Unit {0}) × W
  mount_disk fstype_parameter req vol = call (do
    fstype ← need (lookup fstype_parameter req.volume_context) (err invalid_argument)
    let options =
        if fstype == codes "xfs"
        then mount_options req.readonly ++ (codes "nouuid" ∷ [])
        else mount_options req.readonly
    device ← try (on_os (devices.attach_file_device vol.vol_path)) (give fails_internal)
    check (on_os (host.os.format_and_mount device req.target_path fstype options))
        (give fails_internal)
    return (ok tt))

  -- The mount of a volume of a type.
  unfoldable pub mount_type : Text → Text → NodePublishRequest → Volume → W → Answer (Unit {0}) × W
  unfolding mount_folder mount_disk
  mount_type fstype_parameter vtype req vol w =
      if vtype == codes "folder"
      then mount_folder req vol w
      else if vtype == codes "disk"
      then mount_disk fstype_parameter req vol w
      else (err invalid_argument, w)

  -- The branch for a file system.
  unfoldable pub mount_file_system :
      Text → Text → NodePublishRequest → Volume → W → Answer (Unit {0}) × W
  unfolding check_mount_point mount_type
  mount_file_system type_parameter fstype_parameter req vol = call (do
    vtype ← need (lookup type_parameter req.volume_context) (err invalid_argument)
    return_if (vtype == codes "disk" && not vol.is_block) (err invalid_argument)
    return_if (vtype == codes "folder" && vol.is_block) (err invalid_argument)
    not_mount ← try (check_mount_point req.target_path) (give err)
    when not_mount (try (mount_type fstype_parameter vtype req vol) (give err))
    return (ok tt))

  -- The branch by the access type; the answer says whether the mount is raw.
  unfoldable pub mount_volume :
      Text → Text → NodePublishRequest → VolumeCapability → Volume → W → Answer Bool × W
  mount_volume type_parameter fstype_parameter req cap vol w =
      let (raw, raw_world) = mount_raw req vol w in
      let (mounted, mounted_world) = mount_file_system type_parameter fstype_parameter req vol w in
      if wants_block cap
      then (elim raw [ ok u ↦ ok true | err code ↦ err code ], raw_world)
      else if wants_mount cap
      then (elim mounted [ ok u ↦ ok false | err code ↦ err code ], mounted_world)
      else (ok false, w)

  -- `mounter.Unmount(targetPath)` and `os.RemoveAll(targetPath)`, whose errors are dropped.
  unfoldable pub undo_mount : Text → W → W
  undo_mount path w = (on_os (host.os.remove_all path) (on_os (host.os.unmount path) w).1).1

  -- The answer Internal after the target was cleaned up.
  abbrev give_up : {R : Type 0} → Text → Err → W → Answer R × W
  give_up path e w = (err internal, undo_mount path w)

  -- The change of the target's mode and the new row.
  unfoldable pub record_mount : Text → NodePublishRequest → Bool → W → Answer (Unit {0}) × W
  record_mount node req raw = call (do
    check (on_os (host.os.chmod req.target_path)) (give_up req.target_path)
    check (create_node_publish_volume_info host req.volume_id node req.target_path raw req.readonly)
        (give_up req.target_path)
    return (ok tt))

  -- `NodePublishVolume`
  unfoldable pub node_publish_volume :
      Text → Text → Text → NodePublishRequest → W → Answer (Unit {0}) × W
  node_publish_volume type_parameter fstype_parameter node req = call (do
    cap ← need req.volume_capability (err invalid_argument)
    return_if (is_empty req.volume_id) (err invalid_argument)
    return_if (is_empty req.target_path) (err invalid_argument)
    vol ← try (get_volume host req.volume_id) (give (λ e. err not_found))
    raw ← try (mount_volume type_parameter fstype_parameter req cap vol) (give err)
    act (record_mount node req raw))

  -- The detachment of a volume that is mounted.
  unmount_volume : NodeUnpublishRequest → Volume → W → Answer (Unit {0}) × W
  unmount_volume req vol = call (do
    check (on_os (host.os.unmount req.target_path)) (give fails_internal)
    when vol.is_block
        (check (on_os (devices.detach_file_device vol.vol_path)) (give fails_internal))
    return (ok tt))

  -- A target that is not there, or that is no mount point, is not unmounted.
  unfoldable pub unmount_if_mounted :
      NodeUnpublishRequest → Volume → Result Err Bool → W → Answer (Unit {0}) × W
  unfolding unmount_volume
  unmount_if_mounted req vol (err e) w = (if not (is_not_exist e) then err internal else ok tt, w)
  unmount_if_mounted req vol (ok not_mount) w =
      let unmounted = unmount_volume req vol w in if not not_mount then unmounted else (ok tt, w)

  -- `NodeUnpublishVolume`
  unfoldable pub node_unpublish_volume : Text → NodeUnpublishRequest → W → Answer (Unit {0}) × W
  node_unpublish_volume node req = call (do
    return_if (is_empty req.volume_id) (err invalid_argument)
    return_if (is_empty req.target_path) (err invalid_argument)
    vol ← try (get_volume host req.volume_id) (give (λ e. err not_found))
    mounted ← act (on_os (host.os.is_not_mount_point req.target_path))
    done ← try (unmount_if_mounted req vol mounted) (give err)
    check (on_os (host.os.remove_all req.target_path)) (give fails_internal)
    check (delete_node_publish_volume_info host req.volume_id node req.target_path)
        (give fails_internal)
    return (ok tt))
