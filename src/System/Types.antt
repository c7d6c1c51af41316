-- ===== src/System/Types.antt =====
-- The type of a volume in `CreateVolume` and in `NodePublishVolume`.
use csi_sharedhostpath.Base.{
  true, false, not, some, List, [], ◌≡◌, ◌≢◌, refl, sym, ap, ◌∙◌, inl, inr, arith, Text, text_eq,
  ◌==◌, ◌&&◌, Bool,
}
use csi_sharedhostpath.Base.Dict.{lookup}
use csi_sharedhostpath.Base.Int.{◌≤ℤ◌}
use csi_sharedhostpath.Base.Run.{
  ◌>>=◌, ◌>>◌, return, when, ok, err, Result-cases, call, ok-ne-err, return_if, try, give,
}
use csi_sharedhostpath.Base.Strings.{codes}
use csi_sharedhostpath.Capacity.{fix_capacity, max_storage_capacity}
use csi_sharedhostpath.Controller.Provisioning.{check_request, Answer}
use csi_sharedhostpath.Controller.Provisioning.Guards.{any_capability, check_request_iff}
use csi_sharedhostpath.Controller.Requests.{
  invalid_argument, block, mount, no_access, VolumeCapability, wants_block, wants_mount,
  CreateVolumeRequest,
}
use csi_sharedhostpath.Host.Rows.{Volume}
use csi_sharedhostpath.Host.World.{World, Host}
use csi_sharedhostpath.Node.{Devices, NodePublishRequest}
use csi_sharedhostpath.Node.Publishing.{
  node_publish_volume, mount_volume, mount_file_system, mount_type, check_mount_point,
}
use csi_sharedhostpath.Volumes.Store.{get_volume}

module _ (type_parameter vtype : Text) (no_disk : vtype ≢ codes "disk")
    (no_folder : vtype ≢ codes "folder") where
  pub unknown_type-check_request :
      (req : CreateVolumeRequest) (caps : List VolumeCapability)
      → req.name ≢ []
      → req.volume_capabilities ≡ some caps
      → lookup type_parameter req.parameters ≡ some vtype
      → any_capability wants_block caps ≡ false
      → ¬ (max_storage_capacity ≤ℤ fix_capacity req.required_bytes)
      → check_request type_parameter req
        ≡ ok (record { capacity = fix_capacity req.required_bytes; is_block = false })
  unknown_type-check_request req caps named given typed only_mounts below =
      (check_request_iff type_parameter req
          (record { capacity = fix_capacity req.required_bytes; is_block = false })).1
        (record {
          caps = caps;
          vtype = vtype;
          named = named;
          given = given;
          typed = typed;
          one_kind = ground arith;
          not_folder = λ folder. only_mounts;
          capacity_is = refl;
          below_max = below;
          block_is = ground arith;
          one_writer = λ block. absurd (ground arith);
        })

  module _ {D F : Type 0} (host : Host D F) (devices : Devices F) (fstype_parameter : Text) where
    mount_type_refused :
        (req : NodePublishRequest) (vol : Volume) (w : World D F)
        → mount_type host devices fstype_parameter vtype req vol w ≡ (err invalid_argument, w)
    unfolding mount_type
    mount_type_refused req vol w = ground arith

    check_mount_point-true :
        (path : Text) (w : World D F)
        → (host.os.is_not_mount_point path w.os).0 ≡ ok true
        → (check_mount_point host devices path w).0 ≡ ok true
    unfolding check_mount_point
    check_mount_point-true path w here = ground arith

    -- The branch for a file system, where the type is known.
    mounting :
        (disk folder : Bool) (test : World D F → Answer Bool × World D F)
        (mounts : World D F → Answer (Unit {0}) × World D F)
        → World D F
        → Answer (Unit {0}) × World D F
    mounting disk folder test mounts = call (do
      return_if disk (err invalid_argument)
      return_if folder (err invalid_argument)
      not_mount ← try test (give err)
      when not_mount (try mounts (give err))
      return (ok tt))

    mounting_refused :
        (disk folder : Bool) (test : World D F → Answer Bool × World D F)
        (mounts : World D F → Answer (Unit {0}) × World D F) (w : World D F)
        → (test w).0 ≡ ok true
        → ((w' : World D F) → mounts w' ≡ (err invalid_argument, w'))
        → (mounting disk folder test mounts w).0 ≢ ok tt
    unfolding mounting
    mounting_refused disk folder test mounts w here refuses accepted =
        ground (arith, refuses (test w).1)

    mount_file_system-mounting :
        (req : NodePublishRequest) (vol : Volume) (w : World D F)
        → lookup type_parameter req.volume_context ≡ some vtype
        → mount_file_system host devices type_parameter fstype_parameter req vol w
          ≡ mounting
              (vtype == codes "disk" && not vol.is_block)
              (vtype == codes "folder" && vol.is_block)
              (check_mount_point host devices req.target_path)
              (mount_type host devices fstype_parameter vtype req vol)
              w
    unfolding mount_file_system mounting
    mount_file_system-mounting req vol w typed = rw typed refl

    mount_file_system_refused :
        (req : NodePublishRequest) (vol : Volume) (w : World D F)
        → lookup type_parameter req.volume_context ≡ some vtype
        → (host.os.is_not_mount_point req.target_path w.os).0 ≡ ok true
        → (mount_file_system host devices type_parameter fstype_parameter req vol w).0 ≢ ok tt
    mount_file_system_refused req vol w typed here accepted =
        mounting_refused _ _ (check_mount_point host devices req.target_path)
          (mount_type host devices fstype_parameter vtype req vol) w
          (check_mount_point-true req.target_path w here) (mount_type_refused req vol)
          (ap (λ x. x.0) (sym (mount_file_system-mounting req vol w typed)) ∙ accepted)

    mounts-no_block : (c : VolumeCapability) → wants_mount c ≡ true → wants_block c ≡ false
    mounts-no_block c mounts =
        elim c.access_type
            as (λ a.
              wants_mount (record c { access_type = a }) ≡ true
              → wants_block (record c { access_type = a }) ≡ false) [
                | block ↦ λ e. cc
                | mount ↦ λ e. refl
                | no_access ↦ λ e. cc
              ]
          mounts

    mount_volume_refused :
        (req : NodePublishRequest) (capability : VolumeCapability) (vol : Volume) (w : World D F)
        (raw : Bool)
        → wants_mount capability ≡ true
        → lookup type_parameter req.volume_context ≡ some vtype
        → (host.os.is_not_mount_point req.target_path w.os).0 ≡ ok true
        → (mount_volume host devices type_parameter fstype_parameter req capability vol w).0
          ≢ ok raw
    unfolding mount_volume
    mount_volume_refused req capability vol w raw mounts typed here accepted =
        let refused = mount_file_system_refused req vol w typed here in
        let none_raw = mounts-no_block capability mounts in
        elim (Result-cases
          (mount_file_system host devices type_parameter fstype_parameter req vol w).0) [
            | inl (u, mounted) ↦ refused mounted
            | inr (code, failed) ↦
                ok-ne-err {e = code} (sym accepted ∙ rw (none_raw, mounts, failed) refl)
          ]

    -- A request to mount a volume whose context has a type other than `disk` and `folder`, at a
    -- target that is no mount point, is not accepted.
    unknown_type-node_publish_volume :
        (node : Text) (req : NodePublishRequest) (capability : VolumeCapability) (w : World D F)
        → req.volume_capability ≡ some capability
        → wants_mount capability ≡ true
        → lookup type_parameter req.volume_context ≡ some vtype
        → (host.os.is_not_mount_point req.target_path w.os).0 ≡ ok true
        → (node_publish_volume host devices type_parameter fstype_parameter node req w).0 ≢ ok tt
    unfolding node_publish_volume get_volume
    unknown_type-node_publish_volume node req capability w given mounts typed here accepted =
        let (r, d) = host.db.first_volume_by_id req.volume_id w.db in
        elim (Result-cases r) [
          | inr (e, missing) ↦ absurd (ground arith)
          | inl (vol, found) ↦
              let read : World D F = record w { db = d } in
              elim (Result-cases
                (mount_volume host devices type_parameter fstype_parameter req capability vol
                  read).0) [
                    | inl (raw, mounted) ↦
                        mount_volume_refused req capability vol read raw mounts typed here mounted
                    | inr (code, failed) ↦ absurd (ground arith)
                  ]
        ]
