-- ===== src/Tests/Pure.antt =====
-- Runs of the pure functions.
use csi_sharedhostpath.Base.{
  ℕ, ◌-◌, ◌*◌, ◌^◌, ◌≤◌, ◌<◌, suc, Bool, true, false, not, Option, none, some, List, [], ◌∷◌, ◌++◌,
  length, ◌≡◌, ◌≢◌, ◌↔◌, ◌⊎◌, refl, inl, inr, arith, Text, Text-discrete,
}
use csi_sharedhostpath.Base.Int.{pos, negsuc, ◌≤ℤ◌, ℤ-discrete}
use csi_sharedhostpath.Base.Run.{ok}
use csi_sharedhostpath.Base.Strings.{codes}
use csi_sharedhostpath.Capacity.{mib, gib, fix_capacity}
use csi_sharedhostpath.Controller.Provisioning.{check_request}
use csi_sharedhostpath.Controller.Provisioning.Guards.{
  IsAccepted, check_request_iff, check_request_capacity, check_request_overflow,
}
use csi_sharedhostpath.Endpoint.{parsed, parse_endpoint}
use csi_sharedhostpath.Endpoint.Accepts.{IsScheme, parse_endpoint_iff}
use csi_sharedhostpath.FilePath.Laws.{AllParts, IsPart}
use csi_sharedhostpath.Volumes.Cleanup.{deleted_path}
use csi_sharedhostpath.Volumes.Cleanup.Dangling.{deleted_path-ne-volume_path}
use csi_sharedhostpath.Volumes.Paths.{volume_path}
use csi_sharedhostpath.Volumes.Paths.Layout.{shards, volume_path-injective}
use csi_sharedhostpath.Tests.Scene.{
  helper, first_id, first_volume, type_parameter, disk_request, disk_checked,
}

pure_checked : check_request type_parameter disk_request ≡ ok disk_checked
unfolding check_request csi_sharedhostpath.Controller.Provisioning.see_capabilities
    csi_sharedhostpath.Base.Dict.lookup Text-discrete fix_capacity ℤ-discrete
    csi_sharedhostpath.Controller.Provisioning.some_other_mode
pure_checked = refl

check_request_iff_example :
    (check_request type_parameter disk_request ≡ ok disk_checked)
    ↔ IsAccepted type_parameter disk_request disk_checked
check_request_iff_example = check_request_iff type_parameter disk_request disk_checked

check_request_capacity_example :
    (k : ℕ) × (disk_checked.capacity ≡ pos (k * mib))
    × (gib ≤ k * mib)
    × (k * mib < 2 ^ 40)
    × (pos 1_000 ≤ℤ pos (k * mib))
check_request_capacity_example =
    check_request_capacity type_parameter disk_request disk_checked (omega arith) pure_checked

check_request_overflow_example :
    check_request type_parameter (record disk_request { required_bytes = pos (2 ^ 63 - 1) })
    ≡ ok (record disk_checked { capacity = negsuc (2 ^ 63 - 1) })
check_request_overflow_example =
    check_request_overflow type_parameter disk_request disk_checked (2 ^ 63 - 1) pure_checked
      (omega arith) (omega arith)

parse_endpoint_iff_example :
    (parse_endpoint (codes "TCP://host:9000") ≡ parsed (codes "TCP") (codes "host:9000")) ↔ (
      IsScheme (codes "TCP")
      × (codes "host:9000" ≢ [])
      × (codes "TCP://host:9000" ≡ codes "TCP" ++ (codes "://" ++ codes "host:9000")))
parse_endpoint_iff_example =
    parse_endpoint_iff (codes "TCP://host:9000") (codes "TCP") (codes "host:9000")

abbrev layout : List Text
layout = codes "csi" ∷ codes "vols" ∷ []

layout_parts : AllParts layout
layout_parts = ground arith

first_parts : AllParts (shards first_id)
first_parts = ground arith

first_id-IsPart : IsPart first_id
first_id-IsPart = ground arith

volume_path-injective_example : first_id ≡ first_id
volume_path-injective_example =
    volume_path-injective (codes "csi") (codes "vols" ∷ []) first_id first_id layout_parts
      first_parts first_id-IsPart (omega arith) first_parts first_id-IsPart (omega arith) refl

deleted_path-ne-volume_path_example :
    deleted_path helper first_volume ≢ volume_path (codes "/csi/vols") first_id
deleted_path-ne-volume_path_example =
    deleted_path-ne-volume_path (codes "csi") (codes "vols" ∷ []) (codes "/csi/syms") first_volume
      layout_parts first_parts first_id-IsPart
