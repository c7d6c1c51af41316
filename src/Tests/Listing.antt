-- ===== src/Tests/Listing.antt =====
-- A client of `ListVolumes`.
use mathlib.Core.List.{Perm, Mem}
use mathlib.Core.List.Perm
use Prim.Native.Nat.{min}
use csi_sharedhostpath.Base.{
  ℕ, zero, suc, ◌-◌, ◌≤◌, none, some, List, [], ◌∷◌, ◌++◌, map, ◌≡◌, refl, ap, sym, subst, ◌⊎◌,
  arith, Text, false, length, take, drop, take-append-drop,
}
use csi_sharedhostpath.Base.Int.{ℤ, pos, negsuc}
use csi_sharedhostpath.Base.Strings.{codes}
use csi_sharedhostpath.Controller.Listing.Client.{PageLaws, told, kept, list_all}
use csi_sharedhostpath.Controller.Listing.Following.{list_all_ends}
use csi_sharedhostpath.Controller.Requests.{Entry}
use csi_sharedhostpath.Host.Db.{Db}
use csi_sharedhostpath.Host.Db.Laws.{DbLaws}
use csi_sharedhostpath.Host.Rows.{Volume}
use csi_sharedhostpath.Host.World.{World, Host}
use csi_sharedhostpath.Tests.Memory.{Memory, Disk, memory, memory_laws, disk}
use csi_sharedhostpath.Tests.Scene.{first_volume, one_world, memory_of, type_parameter}

-- A database that cuts every page out of the front of the rows.
abbrev front : ℤ → ℤ → List Volume → List Volume
front (pos start) (pos limit) rows = take (min limit (length rows - start)) rows
front (pos start) (negsuc limit) rows = rows
front (negsuc start) limit rows = rows

abbrev paged_memory : Db Memory
paged_memory = record memory {
  find_volumes_page = λ offset limit d. ((front offset limit d.stored.volumes, none), d);
}

abbrev paged_laws : DbLaws paged_memory
paged_laws = record {
  tables = memory_laws.tables;
  tx_rows = memory_laws.tx_rows;
  begin_lem = memory_laws.begin_lem;
  tx_create_tables = memory_laws.tx_create_tables;
  tx_create_rows = memory_laws.tx_create_rows;
  tx_create_unique = memory_laws.tx_create_unique;
  commit_lem = memory_laws.commit_lem;
  rollback_lem = memory_laws.rollback_lem;
  first_by_id = memory_laws.first_by_id;
  first_by_name = memory_laws.first_by_name;
  find_all = memory_laws.find_all;
  find_by_path = memory_laws.find_by_path;
  update_capacity = memory_laws.update_capacity;
  delete_by_id = memory_laws.delete_by_id;
  update_capacity_rows = memory_laws.update_capacity_rows;
  delete_by_id_rows = memory_laws.delete_by_id_rows;
  upsert_node_lem = memory_laws.upsert_node_lem;
  first_node_lem = memory_laws.first_node_lem;
  create_controller_info_lem = memory_laws.create_controller_info_lem;
  first_controller_info_lem = memory_laws.first_controller_info_lem;
  delete_controller_infos_lem = memory_laws.delete_controller_infos_lem;
  create_node_info_lem = memory_laws.create_node_info_lem;
  delete_node_infos_lem = memory_laws.delete_node_infos_lem;
  first_node_info_lem = memory_laws.first_node_info_lem;
  find_page_tables = memory_laws.find_page_tables;
  find_ids = memory_laws.find_ids;
  find_deleted_tables = memory_laws.find_deleted_tables;
  find_controller_infos_lem = memory_laws.find_controller_infos_lem;
}

length-map : (l : List Volume) → length (map (λ (v : Volume). v.vol_id) l) ≡ length l
length-map [] = refl
length-map (v ∷ l) = omega (arith, length-map l)

length-take : (n : ℕ) (l : List Volume) → n ≤ length l → length (take n l) ≡ n
length-take zero l h = refl
length-take (suc n) [] h = absurd (omega arith)
length-take (suc n) (v ∷ l) h = ap suc (length-take n l (omega arith))

front-pages :
    (start limit : ℕ) (rows : List Volume)
    → (length (front (pos start) (pos limit) rows) ≡ min limit (length rows - start))
      × ((others : List Volume) × Perm (front (pos start) (pos limit) rows ++ others) rows)
front-pages start limit rows =
    let n = min limit (length rows - start) in
    (
      length-take n rows (omega arith),
      (drop n rows, subst (λ l. Perm l rows) (sym (take-append-drop n rows)) (Perm.refl rows)),
    )

abbrev pages : PageLaws paged_memory paged_laws
pages = record {
  quiet = λ d. refl;
  find_page = λ offset limit d. front-pages offset limit d.stored.volumes;
  find_count = λ d. length-map d.stored.volumes;
}

abbrev paged_host : Host Memory Disk
paged_host = record { db = paged_memory; os = disk }

abbrev second_volume : Volume
second_volume = record first_volume { vol_id = codes "abcdef03"; vol_name = codes "second" }

abbrev both : List Volume
both = first_volume ∷ second_volume ∷ []

abbrev two_world : World Memory Disk
two_world = record { db = memory_of both false false; os = one_world.os }

list_all_ends_example :
    (es : List Entry) × ((list_all paged_host type_parameter 3 (pos 1) [] two_world).0 ≡ some es)
    × (length es ≡ 2)
    × ((x : Text × ℤ) → Mem x (map told es) → Mem x (map kept both))
    × ((◌≡◌ {A = ℕ} 1 0) ⊎ (2 ≤ 1) → Perm (map told es) (map kept both))
list_all_ends_example =
    list_all_ends paged_host type_parameter paged_laws pages 1 two_world (omega arith) (omega arith)
