-- ===== src/Volumes/Store/Create.antt =====
-- What `create_volume` of the volume helper leaves in the table.
use csi_sharedhostpath.Base.{Bool, [], ◌∷◌, ◌++◌, ◌≡◌, Text, arith, none}
use csi_sharedhostpath.Base.Int.{ℤ}
use csi_sharedhostpath.Base.Run.{Result, ok, err}
use csi_sharedhostpath.Host.Rows.{Volume}
use csi_sharedhostpath.Host.Db.{Err}
use csi_sharedhostpath.Host.Db.Laws.{DbLaws, Tables, first, has_id}
use csi_sharedhostpath.Host.World.{World, Host}
use csi_sharedhostpath.Volumes.Paths.{VolumeHelper}
use csi_sharedhostpath.Volumes.Store.{new_volume, create_volume}

-- The tables with one more volume.
abbrev pub add_volume : Volume → Tables → Tables
add_volume v t = record t { volumes = t.volumes ++ (v ∷ []) }

-- A call that was to insert `v` has returned it and inserted it under an identifier that no row
-- had, or has left the tables alone.
abbrev pub Inserts : Volume → Tables → Result Err Volume → Tables → Type 0
Inserts v t (ok u) t' = (u ≡ v) × (first (has_id v.vol_id) t.volumes ≡ none) × (t' ≡ add_volume v t)
Inserts v t (err e) t' = t' ≡ t

module _ {D F : Type 0} (host : Host D F) (laws : DbLaws host.db) where
  open laws use {tables}

  -- A call of `create_volume`: if it succeeds, no row had the identifier, and it returns the row
  -- of its arguments and has added that row to the table; if it fails at any step, the tables are
  -- as before.
  pub create_volume-Inserts :
      (vh : VolumeHelper) (volid volname pvname pvcname nsname : Text) (capacity : ℤ)
      (isblock : Bool) (w : World D F)
      → let (r, w') =
          create_volume host vh volid volname pvname pvcname nsname capacity isblock w in
        Inserts
          (new_volume vh volid volname pvname pvcname nsname capacity isblock)
          (tables w.db)
          r
          (tables w'.db)
  unfolding create_volume
  create_volume-Inserts vh volid volname pvname pvcname nsname capacity isblock w =
      let vol = new_volume vh volid volname pvname pvcname nsname capacity isblock in
      let tx = (host.db.begin w.db).0 in
      let begun = (host.db.begin w.db).1 in
      let created = (host.db.tx_create_volume tx vol begun).1 in
      ground (
        arith,
        laws.begin_lem w.db,
        laws.tx_create_tables tx vol begun,
        laws.tx_create_rows tx vol begun,
        laws.tx_create_unique tx vol begun,
        laws.commit_lem tx created,
        laws.rollback_lem tx created,
        laws.rollback_lem tx (host.db.commit tx created).1,
      )
