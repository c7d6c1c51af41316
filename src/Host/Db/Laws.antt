-- ===== src/Host/Db/Laws.antt =====
-- What the code relies on of PostgreSQL behind gorm: the meaning of each query on the tables as
-- they are committed. A query that fails changes nothing; every query may fail.
use csi_sharedhostpath.Base.{
  ℕ, Bool, not, ◌&&◌, Option, none, some, List, [], ◌∷◌, ◌++◌, ◌≡◌, Text, ◌==◌, text_eq,
  if◌then◌else◌, map,
}
use mathlib.Core.List.{Perm}
use csi_sharedhostpath.Base.Int.{ℤ, leb_ℤ}
use csi_sharedhostpath.Base.Run.{Result, ok, err}
use csi_sharedhostpath.Host.Rows.{
  Volume, NodeInfo, ControllerPublishVolumeInfo, NodePublishVolumeInfo,
}
use csi_sharedhostpath.Host.Db.{Db, Err, record_not_found, not_exist, failed}

-- The first row that passes a test, and the rows that do, in order.
module _ {A : Type 0} where
  abbrev pub first : (A → Bool) → List A → Option A
  first p [] = none
  first p (x ∷ xs) = if p x then some x else first p xs

  abbrev pub keep : (A → Bool) → List A → List A
  keep p [] = []
  keep p (x ∷ xs) = if p x then x ∷ keep p xs else keep p xs

-- The conditions of the queries.
abbrev pub has_id : Text → Volume → Bool
has_id volid v = v.vol_id == volid

abbrev pub has_name : Text → Volume → Bool
has_name volname v = v.vol_name == volname

abbrev pub has_path : Text → Volume → Bool
has_path path v = v.vol_path == path

abbrev pub is_controller_info : Text → Text → ControllerPublishVolumeInfo → Bool
is_controller_info volid node i = i.vol_id == volid && i.node_id == node

abbrev pub is_node_info : Text → Text → Text → NodePublishVolumeInfo → Bool
is_node_info volid node path i = i.vol_id == volid && i.node_id == node && i.mount_path == path

abbrev pub seen_since : Text → ℤ → NodeInfo → Bool
seen_since node since i = i.id == node && leb_ℤ since i.last_seen

-- The capacity of the rows of one volume.
abbrev pub set_capacity : Text → ℤ → List Volume → List Volume
set_capacity volid capacity [] = []
set_capacity volid capacity (v ∷ vs) =
    (if v.vol_id == volid then record v { capacity = capacity } else v)
    ∷ set_capacity volid capacity vs

abbrev pub put_node : NodeInfo → List NodeInfo → List NodeInfo
put_node i [] = i ∷ []
put_node i (j ∷ js) = if j.id == i.id then i ∷ js else j ∷ put_node i js

-- The committed tables without the rows that are deleted softly, and the rows that an open
-- transaction has inserted.
pub record Tables : Type 0 where
  pub volumes : List Volume
  pub nodes : List NodeInfo
  pub controller_infos : List ControllerPublishVolumeInfo
  pub node_infos : List NodePublishVolumeInfo

-- What an answer says of the first matching row.
abbrev pub Answers : {A : Type 0} → Result Err A → Option A → Type 0
Answers (ok a) o = o ≡ some a
Answers (err record_not_found) o = o ≡ none
Answers (err (not_exist text)) o = Unit
Answers (err (failed text)) o = Unit

-- The query found its row, or that there is none.
abbrev pub IsAnswered : {A : Type 0} → Result Err A → Type 0
IsAnswered (ok a) = Unit
IsAnswered (err record_not_found) = Unit
IsAnswered (err (not_exist text)) = ⊥
IsAnswered (err (failed text)) = ⊥

-- What `Find` returns if it reports no error: the rows in some order.
abbrev pub Finds : {A : Type 0} → List A × Option Err → List A → Type 0
Finds (rows, none) l = Perm rows l
Finds (rows, some e) l = Unit

-- The tables after a statement: the new ones if it reports no error.
abbrev pub after : {A : Type 0} → Option Err → A → A → A
after none new old = new
after (some e) new old = old

pub record DbLaws {D : Type 0} (db : Db D) : Type 0 where
  pub tables : D → Tables
  pub tx_rows : ℕ → D → List Volume
  -- Transactions.
  pub begin_lem :
      (d : D) → (tables (db.begin d).1 ≡ tables d) × (tx_rows (db.begin d).0 (db.begin d).1 ≡ [])
  pub tx_create_tables :
      (tx : ℕ) (v : Volume) (d : D) → tables (db.tx_create_volume tx v d).1 ≡ tables d
  pub tx_create_rows :
      (tx : ℕ) (v : Volume) (d : D)
      → let (e, d') = db.tx_create_volume tx v d in
        tx_rows tx d' ≡ after e (tx_rows tx d ++ (v ∷ [])) (tx_rows tx d)
  -- The unique index on the identifiers.
  pub tx_create_unique :
      (tx : ℕ) (v : Volume) (d : D)
      → (db.tx_create_volume tx v d).0 ≡ none
      → first (has_id v.vol_id) (tables d).volumes ≡ none
  pub commit_lem :
      (tx : ℕ) (d : D)
      → let (e, d') = db.commit tx d in
        tables d'
        ≡ after e (record (tables d) { volumes = (tables d).volumes ++ tx_rows tx d }) (tables d)
  pub rollback_lem : (tx : ℕ) (d : D) → tables (db.rollback tx d) ≡ tables d
  -- Volumes.
  pub first_by_id :
      (volid : Text) (d : D)
      → let (r, d') = db.first_volume_by_id volid d in
        Answers r (first (has_id volid) (tables d).volumes) × (tables d' ≡ tables d)
  pub first_by_name :
      (volname : Text) (d : D)
      → let (r, d') = db.first_volume_by_name volname d in
        Answers r (first (has_name volname) (tables d).volumes) × (tables d' ≡ tables d)
  pub find_all :
      (d : D)
      → let (r, d') = db.find_volumes d in Finds r (tables d).volumes × (tables d' ≡ tables d)
  pub find_by_path :
      (path : Text) (d : D)
      → let (r, d') = db.find_volumes_by_path path d in
        Finds r (keep (has_path path) (tables d).volumes) × (tables d' ≡ tables d)
  pub update_capacity :
      (volid : Text) (capacity : ℤ) (d : D)
      → let (e, d') = db.update_volume_capacity volid capacity d in
        let t = tables d in
        tables d' ≡ after e (record t { volumes = set_capacity volid capacity t.volumes }) t
  pub delete_by_id :
      (volid : Text) (d : D)
      → let (e, d') = db.delete_volumes volid d in
        let t = tables d in
        tables d' ≡ after e (record t { volumes = keep (λ v. not (has_id volid v)) t.volumes }) t
  pub update_capacity_rows :
      (tx : ℕ) (volid : Text) (capacity : ℤ) (d : D)
      → tx_rows tx (db.update_volume_capacity volid capacity d).1 ≡ tx_rows tx d
  pub delete_by_id_rows :
      (tx : ℕ) (volid : Text) (d : D) → tx_rows tx (db.delete_volumes volid d).1 ≡ tx_rows tx d
  -- Nodes and publish infos.
  pub upsert_node_lem :
      (i : NodeInfo) (d : D)
      → let (e, d') = db.upsert_node i d in
        let t = tables d in tables d' ≡ after e (record t { nodes = put_node i t.nodes }) t
  pub first_node_lem :
      (node : Text) (since : ℤ) (d : D)
      → let (r, d') = db.first_node_since node since d in
        Answers r (first (seen_since node since) (tables d).nodes) × (tables d' ≡ tables d)
  pub create_controller_info_lem :
      (i : ControllerPublishVolumeInfo) (d : D)
      → let (e, d') = db.create_controller_info i d in
        let t = tables d in
        tables d' ≡ after e (record t { controller_infos = t.controller_infos ++ (i ∷ []) }) t
  pub first_controller_info_lem :
      (volid node : Text) (d : D)
      → let (r, d') = db.first_controller_info volid node d in
        Answers r (first (is_controller_info volid node) (tables d).controller_infos)
        × (tables d' ≡ tables d)
  pub delete_controller_infos_lem :
      (volid node : Text) (d : D)
      → let (e, d') = db.delete_controller_infos volid node d in
        let t = tables d in
        tables d'
        ≡ after e
            (record t {
              controller_infos =
                  keep (λ i. not (is_controller_info volid node i)) t.controller_infos;
            })
            t
  pub create_node_info_lem :
      (i : NodePublishVolumeInfo) (d : D)
      → let (e, d') = db.create_node_info i d in
        let t = tables d in
        tables d' ≡ after e (record t { node_infos = t.node_infos ++ (i ∷ []) }) t
  pub delete_node_infos_lem :
      (volid node path : Text) (d : D)
      → let (e, d') = db.delete_node_infos volid node path d in
        let t = tables d in
        tables d'
        ≡ after e
            (record t {
              node_infos = keep (λ i. not (is_node_info volid node path i)) t.node_infos;
            })
            t
  pub first_node_info_lem :
      (volid node path : Text) (d : D)
      → let (r, d') = db.first_node_info volid node path d in
        Answers r (first (is_node_info volid node path) (tables d).node_infos)
        × (tables d' ≡ tables d)
  -- The queries of the listings and of the cleanup. The order of the rows is open.
  pub find_page_tables :
      (offset limit : ℤ) (d : D) → tables (db.find_volumes_page offset limit d).1 ≡ tables d
  pub find_ids :
      (d : D)
      → let (r, d') = db.find_volume_ids d in
        Finds r (map (λ (v : Volume). v.vol_id) (tables d).volumes) × (tables d' ≡ tables d)
  pub find_deleted_tables : (d : D) → tables (db.find_deleted_volumes d).1 ≡ tables d
  pub find_controller_infos_lem :
      (volid : Text) (d : D)
      → let (r, d') = db.find_controller_infos volid d in
        Finds r (keep (λ i. i.vol_id == volid) (tables d).controller_infos) × (tables d' ≡ tables d)
