-- ===== src/Node/Publishing/Accepting.antt =====
-- When a volume is published and unpublished on a node where nothing fails.
use csi_sharedhostpath.Base.{
  Bool, true, false, some, [], ◌∷◌, ◌++◌, ◌≡◌, ◌≢◌, ◌⊎◌, inl, inr, Bool-cases, arith, Text,
  Text-discrete, ◌==◌, text_eq, if◌then◌else◌,
}
use csi_sharedhostpath.Base.Dict.{lookup}
use csi_sharedhostpath.Base.Run.{Result, ok, err}
use csi_sharedhostpath.Base.Strings.{codes, is_empty-false}
use csi_sharedhostpath.Controller.Requests.{VolumeCapability, wants_block, wants_mount}
use csi_sharedhostpath.Host.Db.{Err, not_exist}
use csi_sharedhostpath.Host.Rows.{Volume}
use csi_sharedhostpath.Host.World.{World, Host}
use csi_sharedhostpath.Node.{Devices, NodePublishRequest, NodeUnpublishRequest}
use csi_sharedhostpath.Node.Working.{NodeWorks}
use csi_sharedhostpath.Node.Publishing.{
  mount_options, make_target, mount_raw, check_mount_point, mount_type, mount_file_system,
  mount_volume, record_mount, node_publish_volume, unmount_if_mounted, node_unpublish_volume,
}
use csi_sharedhostpath.Volumes.Infos.{
  create_node_publish_volume_info, delete_node_publish_volume_info,
}
use csi_sharedhostpath.Volumes.Store.{get_volume}

-- A block device is asked of a block volume; or a file system of a volume of type folder, or of a
-- block volume of type disk with a type of file system.
abbrev pub IsMountable : Text → Text → NodePublishRequest → VolumeCapability → Bool → Type 0
IsMountable tp fp req cap is_block =
    ((wants_block cap ≡ true) × (is_block ≡ true))
    ⊎ ((wants_block cap ≡ false)
        × (wants_mount cap ≡ true)
        × (((lookup tp req.volume_context ≡ some (codes "folder")) × (is_block ≡ false))
            ⊎ ((lookup tp req.volume_context ≡ some (codes "disk"))
                × (is_block ≡ true)
                × (fstype : Text) × (lookup fp req.volume_context ≡ some fstype))))

module _ {D F : Type 0} (host : Host D F) (devices : Devices F)
    (works : NodeWorks host devices) where
  record_mount_works :
      (node : Text) (req : NodePublishRequest) (raw : Bool) (w : World D F)
      → (record_mount host devices node req raw w).0 ≡ ok tt
  unfolding record_mount create_node_publish_volume_info
  record_mount_works node req raw w =
      let mode = works.changes_mode req.target_path w.os in
      let added =
        works.adds
          (record {
            vol_id = req.volume_id;
            node_id = node;
            mount_path = req.target_path;
            raw_mount = raw;
            read_only = req.readonly;
          })
          w.db in
      ground arith

  make_target_works : (path : Text) (w : World D F) → (make_target host devices path w).0 ≡ ok tt
  unfolding make_target
  make_target_works path w =
      let s = (host.os.lstat path w.os).1 in
      let opened = works.opens path s in
      let closed = works.closes path (host.os.open_file path s).1 in
      elim (works.looks path w.os) [
        | inl (info, there) ↦ ground arith
        | inr (text, missing) ↦ ground arith
      ]

  mount_raw_works :
      (req : NodePublishRequest) (vol : Volume) (w : World D F)
      → vol.is_block ≡ true
      → (mount_raw host devices req vol w).0 ≡ ok tt
  unfolding mount_raw
  mount_raw_works req vol w block =
      let (device, attached) = works.attaches vol.vol_path w.os in
      let w1 : World D F = record w { os = (devices.attach_file_device vol.vol_path w.os).1 } in
      let target = make_target_works req.target_path w1 in
      let s = (make_target host devices req.target_path w1).1.os in
      let mounted =
        works.mounts device req.target_path [] (mount_options req.readonly ++ (codes "bind" ∷ []))
          (host.os.is_not_mount_point req.target_path s).1 in
      elim (works.tests req.target_path s) [
        | inl (b, answered) ↦ ground arith
        | inr (text, missing) ↦ ground arith
      ]

  check_mount_point_works :
      (path : Text) (w : World D F)
      → (b : Bool) × ((check_mount_point host devices path w).0 ≡ ok b)
  unfolding check_mount_point
  check_mount_point_works path w =
      let made = works.makes path (host.os.is_not_mount_point path w.os).1 in
      elim (works.tests path w.os) [
        | inl (b, answered) ↦ (b, ground arith)
        | inr (text, missing) ↦ (true, ground arith)
      ]

  mount_folder_works :
      (fp : Text) (req : NodePublishRequest) (vol : Volume) (w : World D F)
      → (mount_type host devices fp (codes "folder") req vol w).0 ≡ ok tt
  unfolding mount_type Text-discrete
  mount_folder_works fp req vol w =
      let mounted =
        works.mounts vol.vol_path req.target_path []
          (mount_options req.readonly ++ (codes "bind" ∷ [])) w.os in
      ground arith

  mount_disk_works :
      (fp fstype : Text) (req : NodePublishRequest) (vol : Volume) (w : World D F)
      → lookup fp req.volume_context ≡ some fstype
      → (mount_type host devices fp (codes "disk") req vol w).0 ≡ ok tt
  unfolding mount_type Text-discrete
  mount_disk_works fp fstype req vol w given =
      let (device, attached) = works.attaches vol.vol_path w.os in
      let s = (devices.attach_file_device vol.vol_path w.os).1 in
      let options =
        if fstype == codes "xfs"
        then mount_options req.readonly ++ (codes "nouuid" ∷ [])
        else mount_options req.readonly in
      let mounted = works.formats device req.target_path fstype options s in ground arith

  mount_file_system_works :
      (tp fp : Text) (req : NodePublishRequest) (vol : Volume) (w : World D F)
      → ((lookup tp req.volume_context ≡ some (codes "folder")) × (vol.is_block ≡ false))
        ⊎ ((lookup tp req.volume_context ≡ some (codes "disk"))
            × (vol.is_block ≡ true)
            × (fstype : Text) × (lookup fp req.volume_context ≡ some fstype))
      → (mount_file_system host devices tp fp req vol w).0 ≡ ok tt
  unfolding mount_file_system Text-discrete
  mount_file_system_works tp fp req vol w (inl (folder, plain)) =
      let (b, tested) = check_mount_point_works req.target_path w in
      let mounted =
        mount_folder_works fp req vol (check_mount_point host devices req.target_path w).1 in
      elim (Bool-cases b) [ inl fresh ↦ ground arith | inr busy ↦ ground arith ]
  mount_file_system_works tp fp req vol w (inr (disk, block, fstype, given)) =
      let (b, tested) = check_mount_point_works req.target_path w in
      let mounted =
        mount_disk_works fp fstype req vol (check_mount_point host devices req.target_path w).1
          given in
      elim (Bool-cases b) [ inl fresh ↦ ground arith | inr busy ↦ ground arith ]

  mount_volume_works :
      (tp fp : Text) (req : NodePublishRequest) (cap : VolumeCapability) (vol : Volume)
      (w : World D F)
      → IsMountable tp fp req cap vol.is_block
      → (raw : Bool) × ((mount_volume host devices tp fp req cap vol w).0 ≡ ok raw)
  unfolding mount_volume
  mount_volume_works tp fp req cap vol w (inl (block, is_block)) =
      let mounted = mount_raw_works req vol w is_block in (true, ground arith)
  mount_volume_works tp fp req cap vol w (inr (no_block, mount, kind)) =
      let mounted = mount_file_system_works tp fp req vol w kind in (false, ground arith)

  unmount_if_mounted_works :
      (req : NodeUnpublishRequest) (vol : Volume) (r : Result Err Bool) (w : World D F)
      → ((b : Bool) × (r ≡ ok b)) ⊎ ((text : Text) × (r ≡ err (not_exist text)))
      → (unmount_if_mounted host devices req vol r w).0 ≡ ok tt
  unfolding unmount_if_mounted
  unmount_if_mounted_works req vol r w (inl (b, answered)) =
      let unmounted = works.unmounts req.target_path w.os in
      let detached = works.detaches vol.vol_path (host.os.unmount req.target_path w.os).1 in
      rw answered (ground arith)
  unmount_if_mounted_works req vol r w (inr (text, missing)) = rw missing (ground arith)

  module _ (vol : Volume) (w : World D F) where
    -- A request with an identifier and a target to publish a volume that the query finds, as it
    -- can be mounted, is accepted.
    pub node_publish_volume_works :
        (tp fp node : Text) (req : NodePublishRequest) (cap : VolumeCapability)
        → (host.db.first_volume_by_id req.volume_id w.db).0 ≡ ok vol
        → req.volume_capability ≡ some cap
        → req.volume_id ≢ []
        → req.target_path ≢ []
        → IsMountable tp fp req cap vol.is_block
        → (node_publish_volume host devices tp fp node req w).0 ≡ ok tt
    unfolding node_publish_volume get_volume
    node_publish_volume_works tp fp node req cap found given named targeted mountable =
        let read : World D F = record w {
          db = (host.db.first_volume_by_id req.volume_id w.db).1;
        } in
        let (raw, mounted) = mount_volume_works tp fp req cap vol read mountable in
        let recorded =
          record_mount_works node req raw (mount_volume host devices tp fp req cap vol read).1 in
        let id_there = is_empty-false req.volume_id named in
        let path_there = is_empty-false req.target_path targeted in ground arith

    -- A request with an identifier and a target to unpublish a volume that the query finds is
    -- accepted.
    pub node_unpublish_volume_works :
        (node : Text) (req : NodeUnpublishRequest)
        → (host.db.first_volume_by_id req.volume_id w.db).0 ≡ ok vol
        → req.volume_id ≢ []
        → req.target_path ≢ []
        → (node_unpublish_volume host devices node req w).0 ≡ ok tt
    unfolding node_unpublish_volume get_volume delete_node_publish_volume_info
    node_unpublish_volume_works node req found named targeted =
        let (point, looked) = host.os.is_not_mount_point req.target_path w.os in
        let asked : World D F = record {
          db = (host.db.first_volume_by_id req.volume_id w.db).1;
          os = looked;
        } in
        let unmounted =
          unmount_if_mounted_works req vol point asked (works.tests req.target_path w.os) in
        let v = (unmount_if_mounted host devices req vol point asked).1 in
        let removed = works.removes req.target_path v.os in
        let deleted =
          works.deletes req.volume_id node req.target_path
            (record v { os = (host.os.remove_all req.target_path v.os).1 }).db in
        let id_there = is_empty-false req.volume_id named in
        let path_there = is_empty-false req.target_path targeted in ground arith
