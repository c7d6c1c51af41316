-- ===== src/Tests/Memory.antt =====
-- A database in memory and an operating system with one state of the disk, to run the code on.
use mathlib.Core.List.Perm
use csi_sharedhostpath.Base.{
  Bool, true, false, not, Option, none, some, List, [], ◌∷◌, ◌++◌, map, ◌≡◌, refl, arith, Text,
  ◌==◌, text_eq, if◌then◌else◌,
}
use csi_sharedhostpath.Base.Int.{ℤ, pos}
use csi_sharedhostpath.Base.Run.{Result, ok, err}
use csi_sharedhostpath.Base.Strings.{codes}
use csi_sharedhostpath.Host.Rows.{Volume, ControllerPublishVolumeInfo}
use csi_sharedhostpath.Host.Db.{Db, Err, Rows, record_not_found, not_exist, failed}
use csi_sharedhostpath.Host.Db.Laws.{
  DbLaws, Tables, Answers, IsAnswered, Finds, first, keep, has_id, has_name, has_path,
  is_controller_info, is_node_info, seen_since, set_capacity, put_node, after,
}
use csi_sharedhostpath.Host.Os.{Os, FileInfo}
use csi_sharedhostpath.Host.World.{Host}

-- The tables, the rows of the open transaction, and the statements that fail.
pub record Memory : Type 0 where
  pub stored : Tables
  pub pending : List Volume
  pub query_fails : Bool
  pub delete_fails : Bool

abbrev pub broken : Err
broken = failed (codes "connection lost")

abbrev answer : {A : Type 0} → Option A → Result Err A
answer none = err record_not_found
answer (some a) = ok a

pub answer-Answers : {A : Type 0} (o : Option A) → Answers (answer o) o
answer-Answers none = refl
answer-Answers (some a) = refl

pub answer-IsAnswered : {A : Type 0} (o : Option A) → IsAnswered (answer o)
answer-IsAnswered none = tt
answer-IsAnswered (some a) = tt

abbrev ask : {A : Type 0} → Bool → Option A → Result Err A
ask true o = err broken
ask false o = answer o

pub ask-Answers : {A : Type 0} (fails : Bool) (o : Option A) → Answers (ask fails o) o
ask-Answers true o = tt
ask-Answers false o = answer-Answers o

abbrev rows_of : {A : Type 0} → Bool → List A → Rows A
rows_of true l = ([], some broken)
rows_of false l = (l, none)

pub rows_of-Finds : {A : Type 0} (fails : Bool) (l : List A) → Finds (rows_of fails l) l
rows_of-Finds true l = tt
rows_of-Finds false l = Perm.refl l

abbrev set_volumes : List Volume → Memory → Memory
set_volumes l d = record d { stored = record d.stored { volumes = l } }

abbrev remove_rows : Bool → Text → Memory → Option Err × Memory
remove_rows true volid d = (some broken, d)
remove_rows false volid d =
    (none, set_volumes (keep (λ v. not (has_id volid v)) d.stored.volumes) d)

-- Under a unique index on the identifiers.
abbrev pub add_pending : Option Volume → Volume → Memory → Option Err × Memory
add_pending (some u) v d = (some broken, d)
add_pending none v d = (none, record d { pending = d.pending ++ (v ∷ []) })

pub add_pending-rows :
    (there : Option Volume) (v : Volume) (d : Memory)
    → let (e, d') = add_pending there v d in
      (d'.stored ≡ d.stored) × (d'.pending ≡ after e (d.pending ++ (v ∷ [])) d.pending)
add_pending-rows (some u) v d = (refl, refl)
add_pending-rows none v d = (refl, refl)

pub add_pending-none :
    (there : Option Volume) (v : Volume) (d : Memory)
    → (add_pending there v d).0 ≡ none
    → there ≡ none
add_pending-none (some u) v d done = cc
add_pending-none none v d done = refl

abbrev pub memory : Db Memory
memory = record {
  handle_error = λ d. none;
  begin = λ d. (0, record d { pending = [] });
  tx_create_volume = λ tx v d. add_pending (first (has_id v.vol_id) d.stored.volumes) v d;
  commit = λ tx d. (none, set_volumes (d.stored.volumes ++ d.pending) d);
  rollback = λ tx d. d;
  first_volume_by_id = λ volid d. (answer (first (has_id volid) d.stored.volumes), d);
  first_volume_by_name = λ name d. (ask d.query_fails (first (has_name name) d.stored.volumes), d);
  find_volumes = λ d. ((d.stored.volumes, none), d);
  find_volumes_page = λ offset limit d. ((d.stored.volumes, none), d);
  find_volume_ids = λ d. ((map (λ (v : Volume). v.vol_id) d.stored.volumes, none), d);
  find_deleted_volumes = λ d. (([], none), d);
  find_volumes_by_path =
      λ path d. (rows_of d.query_fails (keep (has_path path) d.stored.volumes), d);
  update_volume_capacity =
      λ volid capacity d. (none, set_volumes (set_capacity volid capacity d.stored.volumes) d);
  delete_volumes = λ volid d. remove_rows d.delete_fails volid d;
  upsert_node =
      λ i d. (none, record d { stored = record d.stored { nodes = put_node i d.stored.nodes } });
  first_node_since = λ node since d. (answer (first (seen_since node since) d.stored.nodes), d);
  create_controller_info = λ i d. (
    none,
    record d {
      stored = record d.stored { controller_infos = d.stored.controller_infos ++ (i ∷ []) };
    },
  );
  first_controller_info =
      λ volid node d. (answer (first (is_controller_info volid node) d.stored.controller_infos), d);
  find_controller_infos = λ volid d. (
    (keep (λ (i : ControllerPublishVolumeInfo). i.vol_id == volid) d.stored.controller_infos, none),
    d,
  );
  delete_controller_infos = λ volid node d. (
    none,
    record d {
      stored = record d.stored {
        controller_infos =
            keep (λ i. not (is_controller_info volid node i)) d.stored.controller_infos;
      };
    },
  );
  create_node_info = λ i d. (
    none,
    record d { stored = record d.stored { node_infos = d.stored.node_infos ++ (i ∷ []) } },
  );
  first_node_info =
      λ volid node path d. (answer (first (is_node_info volid node path) d.stored.node_infos), d);
  delete_node_infos = λ volid node path d. (
    none,
    record d {
      stored = record d.stored {
        node_infos = keep (λ i. not (is_node_info volid node path i)) d.stored.node_infos;
      };
    },
  );
}

pub remove_rows-tables :
    (fails : Bool) (volid : Text) (d : Memory)
    → let (e, d') = remove_rows fails volid d in
      (d'.stored ≡ elim e [
        | none ↦ record d.stored { volumes = keep (λ v. not (has_id volid v)) d.stored.volumes }
        | some x ↦ d.stored
      ])
      × (d'.pending ≡ d.pending)
remove_rows-tables true volid d = (refl, refl)
remove_rows-tables false volid d = (refl, refl)

abbrev pub memory_laws : DbLaws memory
memory_laws = record {
  tables = λ d. d.stored;
  tx_rows = λ tx d. d.pending;
  begin_lem = λ d. (refl, refl);
  tx_create_tables = λ tx v d. (add_pending-rows (first (has_id v.vol_id) d.stored.volumes) v d).0;
  tx_create_rows = λ tx v d. (add_pending-rows (first (has_id v.vol_id) d.stored.volumes) v d).1;
  tx_create_unique =
      λ tx v d done. add_pending-none (first (has_id v.vol_id) d.stored.volumes) v d done;
  commit_lem = λ tx d. refl;
  rollback_lem = λ tx d. refl;
  first_by_id = λ volid d. (answer-Answers _, refl);
  first_by_name = λ name d. (ask-Answers d.query_fails _, refl);
  find_all = λ d. (Perm.refl _, refl);
  find_by_path = λ path d. (rows_of-Finds d.query_fails _, refl);
  update_capacity = λ volid capacity d. refl;
  delete_by_id = λ volid d. ground (arith, remove_rows-tables d.delete_fails volid d);
  update_capacity_rows = λ tx volid capacity d. refl;
  delete_by_id_rows = λ tx volid d. (remove_rows-tables d.delete_fails volid d).1;
  upsert_node_lem = λ i d. refl;
  first_node_lem = λ node since d. (answer-Answers _, refl);
  create_controller_info_lem = λ i d. refl;
  first_controller_info_lem = λ volid node d. (answer-Answers _, refl);
  delete_controller_infos_lem = λ volid node d. refl;
  create_node_info_lem = λ i d. refl;
  delete_node_infos_lem = λ volid node path d. refl;
  first_node_info_lem = λ volid node path d. (answer-Answers _, refl);
  find_page_tables = λ offset limit d. refl;
  find_ids = λ d. (Perm.refl _, refl);
  find_deleted_tables = λ d. refl;
  find_controller_infos_lem = λ volid d. (Perm.refl _, refl);
}

-- The paths that have been removed, the size of every file, whether files are there, and whether
-- a removal of files fails.
pub record Disk : Type 0 where
  pub removed : List Text
  pub size : ℤ
  pub present : Bool
  pub stuck : Bool

abbrev pub info : Disk → Result Err FileInfo
info s =
    if s.present
    then ok
        (record { size = s.size; is_dir = false; is_symlink = false; is_device = false; name = [] })
    else err (not_exist (codes "no such file"))

abbrev remove_path : Text → Disk → Option Err × Disk
remove_path path s =
    if s.stuck then (some broken, s) else (none, record s { removed = path ∷ s.removed })

abbrev pub disk : Os Disk
disk = record {
  stat = λ path s. (info s, s);
  lstat = λ path s. (info s, s);
  mkdir_all = λ path s. (none, s);
  symlink = λ old new s. (none, s);
  remove = λ path s. (none, s);
  remove_all = remove_path;
  chmod = λ path s. (none, s);
  open_file = λ path s. (none, s);
  close_file = λ path s. (none, s);
  glob = λ pattern s. (([], none), s);
  read_dir = λ path s. (ok [], s);
  statfs = λ path s. (err broken, s);
  command = λ args s. (([], none), s);
  is_not_mount_point = λ path s. (ok true, s);
  mount = λ source target fstype options s. (none, s);
  unmount = λ target s. (none, s);
  format_and_mount = λ source target fstype options s. (none, s);
  get_disk_format = λ device s. (ok [], s);
  now = λ s. (pos 60_000_000_000, s);
  new_random = λ s. (ok (codes "abcdef01"), s);
}

abbrev pub host : Host Memory Disk
host = record { db = memory; os = disk }

-- A database whose queries by path and by name and whose deletions do not fail.
abbrev pub quiet_memory : Db Memory
quiet_memory = record memory {
  delete_volumes = λ volid d. remove_rows false volid d;
  find_volumes_by_path = λ path d. ((keep (has_path path) d.stored.volumes, none), d);
  first_volume_by_name = λ name d. (answer (first (has_name name) d.stored.volumes), d);
}

abbrev pub quiet_laws : DbLaws quiet_memory
quiet_laws = record {
  tables = memory_laws.tables;
  tx_rows = memory_laws.tx_rows;
  begin_lem = memory_laws.begin_lem;
  tx_create_tables = memory_laws.tx_create_tables;
  tx_create_rows = memory_laws.tx_create_rows;
  tx_create_unique = memory_laws.tx_create_unique;
  commit_lem = memory_laws.commit_lem;
  rollback_lem = memory_laws.rollback_lem;
  first_by_id = memory_laws.first_by_id;
  first_by_name = λ name d. (answer-Answers _, refl);
  find_all = memory_laws.find_all;
  find_by_path = λ path d. (Perm.refl _, refl);
  update_capacity = memory_laws.update_capacity;
  delete_by_id = λ volid d. refl;
  update_capacity_rows = memory_laws.update_capacity_rows;
  delete_by_id_rows = λ tx volid d. refl;
  upsert_node_lem = memory_laws.upsert_node_lem;
  first_node_lem = memory_laws.first_node_lem;
  create_controller_info_lem = memory_laws.create_controller_info_lem;
  first_controller_info_lem = memory_laws.first_controller_info_lem;
  delete_controller_infos_lem = memory_laws.delete_controller_infos_lem;
  create_node_info_lem = memory_laws.create_node_info_lem;
  delete_node_infos_lem = memory_laws.delete_node_infos_lem;
  first_node_info_lem = memory_laws.first_node_info_lem;
  find_page_tables = memory_laws.find_page_tables;
  find_ids = memory_laws.find_ids;
  find_deleted_tables = memory_laws.find_deleted_tables;
  find_controller_infos_lem = memory_laws.find_controller_infos_lem;
}

abbrev pub quiet_host : Host Memory Disk
quiet_host = record { db = quiet_memory; os = disk }
