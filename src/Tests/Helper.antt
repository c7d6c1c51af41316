-- ===== src/Tests/Helper.antt =====
-- Runs of the volume helper.
use csi_sharedhostpath.Base.{
  Bool, true, false, none, some, List, [], ◌∷◌, ◌≡◌, ◌≢◌, refl, arith, Text, Text-discrete, subst,
  ◌==◌, text_eq, if◌then◌else◌,
}
use csi_sharedhostpath.Base.Int.{ℤ, pos}
use csi_sharedhostpath.Base.Run.{ok}
use csi_sharedhostpath.Base.Strings.{codes}
use csi_sharedhostpath.Host.Os.{FileInfo}
use csi_sharedhostpath.Volumes.Store.{update_volume_capacity}
use csi_sharedhostpath.Volumes.Store.Expand.{with_capacity, update_volume_capacity_not_rolled_back}
use csi_sharedhostpath.Volumes.Cleanup.{remove_all_dangling}
use csi_sharedhostpath.Volumes.Cleanup.Dangling.{remove_all_dangling_keeps, IsUsed}
use csi_sharedhostpath.Tests.Memory.{Disk, memory_laws, quiet_laws, quiet_host, host, disk}
use csi_sharedhostpath.Tests.Scene.{helper, first_volume, tables_of, one_world, stuck_world}

abbrev more : ℤ
more = pos 2_147_483_648

wrong_size :
    (fi : FileInfo)
    → (disk.stat first_volume.vol_path stuck_world.os).0 ≡ ok fi
    → fi.size ≢ first_volume.capacity
wrong_size fi e same = ground arith

update_volume_capacity_not_rolled_back_example :
    ((update_volume_capacity host first_volume more stuck_world).0 ≢ none)
    × ((update_volume_capacity host first_volume more stuck_world).1.db.stored
        ≡ with_capacity first_volume more (tables_of (first_volume ∷ [])))
update_volume_capacity_not_rolled_back_example =
    update_volume_capacity_not_rolled_back host memory_laws first_volume more stuck_world refl refl
      refl wrong_size

abbrev listed : Text → List Text → Bool
listed path [] = false
listed path (p ∷ ps) = if p == path then true else listed path ps

abbrev used_path : Text
used_path = first_volume.vol_path

abbrev dangling_path : Text
dangling_path = codes "/csi/vols/00/00/00/00000000"

used_path-IsUsed : IsUsed used_path (tables_of (first_volume ∷ []))
unfolding Text-discrete
used_path-IsUsed none_has = let e : some first_volume ≡ none = none_has in cc

listed-removal :
    (used path : Text) (s : Disk)
    → used ≢ path
    → listed used s.removed ≡ false
    → listed used (disk.remove_all path s).1.removed ≡ false
listed-removal used path s other kept = ground arith

removal_keeps_used :
    (path : Text) (s : Disk)
    → ¬ IsUsed path (tables_of (first_volume ∷ []))
    → listed used_path s.removed ≡ false
    → listed used_path (disk.remove_all path s).1.removed ≡ false
removal_keeps_used path s unused =
    listed-removal used_path path s
      (λ e. unused (subst (λ p. IsUsed p (tables_of (first_volume ∷ []))) e used_path-IsUsed))

remove_all_dangling_keeps_example :
    listed used_path
      (remove_all_dangling quiet_host helper (used_path ∷ dangling_path ∷ []) one_world).os.removed
    ≡ false
remove_all_dangling_keeps_example =
    remove_all_dangling_keeps quiet_host helper quiet_laws (λ path d. refl)
      (λ (s : Disk). listed used_path s.removed ≡ false) (tables_of (first_volume ∷ []))
      removal_keeps_used (used_path ∷ dangling_path ∷ []) one_world refl refl
