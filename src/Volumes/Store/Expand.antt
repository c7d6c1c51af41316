-- ===== src/Volumes/Store/Expand.antt =====
-- What `update_volume_capacity` leaves in the table.
use mathlib.Core.List.{append-nil}
use csi_sharedhostpath.Base.{
  Bool-cases, ◌⊎◌, inl, inr, ◌∙◌, [], ℕ, true, false, Option, none, ◌≡◌, ◌≢◌, arith,
}
use csi_sharedhostpath.Base.Int.{ℤ, int_eq}
use csi_sharedhostpath.Base.Run.{Result-cases, ok}
use csi_sharedhostpath.Host.Rows.{Volume}
use csi_sharedhostpath.Host.Db.{Err}
use csi_sharedhostpath.Host.Os.{FileInfo}
use csi_sharedhostpath.Host.Db.Laws.{DbLaws, Tables, after, set_capacity}
use csi_sharedhostpath.Host.World.{World, Host}
use csi_sharedhostpath.Volumes.Store.{update_volume_capacity}

abbrev pub with_capacity : Volume → ℤ → Tables → Tables
with_capacity vol capacity t = record t { volumes = set_capacity vol.vol_id capacity t.volumes }

module _ {D F : Type 0} (host : Host D F) (laws : DbLaws host.db) where
  open laws use {tables}

  -- The error of the statement that writes the capacity.
  abbrev pub statement_error : Volume → ℤ → World D F → Option Err
  statement_error vol capacity w =
      (host.db.update_volume_capacity vol.vol_id capacity (host.db.begin w.db).1).0

  -- A transaction that has inserted nothing commits the tables as they are.
  pub commit_empty :
      (tx : ℕ) (d : D) → laws.tx_rows tx d ≡ [] → tables (host.db.commit tx d).1 ≡ tables d
  commit_empty tx d e = ground (arith, laws.commit_lem tx d, append-nil (tables d).volumes)

  -- If the handle has no error after Begin, then once the statement of the growth has run its
  -- effect on the table stays, whatever else the call meets and whatever it returns: a volume
  -- whose statement succeeded has the new capacity, and the tables are otherwise as before.
  pub update_volume_capacity-tables :
      (vol : Volume) (capacity : ℤ) (w : World D F)
      → host.db.handle_error (host.db.begin w.db).1 ≡ none
      → tables (update_volume_capacity host vol capacity w).1.db
        ≡ after
            (statement_error vol capacity w)
            (with_capacity vol capacity (tables w.db))
            (tables w.db)
  unfolding update_volume_capacity
  update_volume_capacity-tables vol capacity w quiet =
      let tx = (host.db.begin w.db).0 in
      let begun = (host.db.begin w.db).1 in
      let updated = (host.db.update_volume_capacity vol.vol_id capacity begun).1 in
      ground (
        arith,
        laws.begin_lem w.db,
        laws.update_capacity vol.vol_id capacity begun,
        laws.update_capacity_rows tx vol.vol_id capacity begun,
        commit_empty tx updated,
        laws.rollback_lem tx updated,
      )

  -- If the growth of a volume succeeds, the row has the new capacity and the tables are otherwise
  -- as before; and the volume is no block volume, or its file had the old capacity as its size
  -- before it was grown.
  pub update_volume_capacity_success :
      (vol : Volume) (capacity : ℤ) (w : World D F)
      → (update_volume_capacity host vol capacity w).0 ≡ none
      → (tables (update_volume_capacity host vol capacity w).1.db
          ≡ with_capacity vol capacity (tables w.db))
        × ((vol.is_block ≡ false)
            ⊎ ((fi : FileInfo) × ((host.os.stat vol.vol_path w.os).0 ≡ ok fi)
                × (fi.size ≡ vol.capacity)))
  unfolding update_volume_capacity
  update_volume_capacity_success vol capacity w done =
      let tx = (host.db.begin w.db).0 in
      let begun = (host.db.begin w.db).1 in
      let updated = (host.db.update_volume_capacity vol.vol_id capacity begun).1 in
      (
        ground (
          arith,
          laws.begin_lem w.db,
          laws.update_capacity vol.vol_id capacity begun,
          laws.update_capacity_rows tx vol.vol_id capacity begun,
          commit_empty tx updated,
        ),
        elim (Bool-cases vol.is_block) [
          | inr folder ↦ inl folder
          | inl block ↦ elim (Result-cases (host.os.stat vol.vol_path w.os).0) [
            | inl (fi, found) ↦ inr (fi, found, ground arith)
            | inr (e, missing) ↦ absurd (ground arith)
          ]
        ],
      )

  -- If the handle has no error after Begin and the statement succeeds, a block volume whose file
  -- cannot be examined, or has another size than the row says, is refused with an error after the
  -- row got its new capacity, which no rollback takes back.
  pub update_volume_capacity_not_rolled_back :
      (vol : Volume) (capacity : ℤ) (w : World D F)
      → host.db.handle_error (host.db.begin w.db).1 ≡ none
      → statement_error vol capacity w ≡ none
      → vol.is_block ≡ true
      → ((fi : FileInfo) → (host.os.stat vol.vol_path w.os).0 ≡ ok fi → fi.size ≢ vol.capacity)
      → ((update_volume_capacity host vol capacity w).0 ≢ none)
        × (tables (update_volume_capacity host vol capacity w).1.db
            ≡ with_capacity vol capacity (tables w.db))
  update_volume_capacity_not_rolled_back vol capacity w quiet written block other = (
    λ done. elim (update_volume_capacity_success vol capacity w done).1 [
      | inl folder ↦ ground arith
      | inr (fi, found, same) ↦ other fi found same
    ],
    update_volume_capacity-tables vol capacity w quiet ∙ rw written,
  )
