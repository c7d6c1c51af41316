-- ===== src/System/Effects.antt =====
-- What the requests that change volumes do to the tables, in the terms of the invariant.
use csi_sharedhostpath.Base.{
  true, false, none, some, Bool-cases, Option-cases, ◌≡◌, ap, ◌∙◌, ◌⊎◌, inl, inr, arith, Text, ◌||◌,
}
use csi_sharedhostpath.Base.Int.{ℤ, pos, leb_ℤ, ◌≤ℤ◌}
use csi_sharedhostpath.Base.Run.{Result-cases, ok}
use csi_sharedhostpath.Base.Strings.{is_empty}
use csi_sharedhostpath.Capacity.{fix_capacity, max_storage_capacity}
use csi_sharedhostpath.Capacity.Rounding.{roundable, fix_capacity_least}
use csi_sharedhostpath.Controller.Expansion.{controller_expand_volume}
use csi_sharedhostpath.Controller.Expansion.Growth.{leb_ℤ_total}
use csi_sharedhostpath.Controller.Provisioning
use csi_sharedhostpath.Controller.Provisioning.{delete_found, remove_volume}
use csi_sharedhostpath.Controller.Requests.{ExpandRequest}
use csi_sharedhostpath.Host.Db.{record_not_found, not_exist, failed}
use csi_sharedhostpath.Host.Db.Laws.{DbLaws, Tables, first, has_id}
use csi_sharedhostpath.Host.Rows.{Volume}
use csi_sharedhostpath.Host.World.{World, Host}
use csi_sharedhostpath.Volumes.Paths.{VolumeHelper}
use csi_sharedhostpath.Volumes.Store
use csi_sharedhostpath.Volumes.Store.{get_volume, update_volume_capacity}
use csi_sharedhostpath.Volumes.Store.Delete.{
  without_volume, statement_error, delete_volume-tables, delete_volume_missing,
}
use csi_sharedhostpath.Volumes.Store.Expand
use csi_sharedhostpath.Volumes.Store.Expand.{with_capacity, update_volume_capacity-tables}
use csi_sharedhostpath.System.Valid.{IsSize}

abbrev pub asked_bytes : ExpandRequest → ℤ
asked_bytes req = elim req.capacity_range [ none ↦ pos 0 | some required ↦ required ]

module _ {D F : Type 0} (host : Host D F) (laws : DbLaws host.db) where
  open laws use {tables}

  -- The tables are as before or without the volume.
  abbrev pub Deletes : Text → Tables → Tables → Type 0
  Deletes volid t t' = (t' ≡ t) ⊎ (t' ≡ without_volume volid t)

  -- The tables are as before or have a proper capacity for the volume, and no smaller one.
  abbrev pub Resizes : Text → Tables → Tables → Type 0
  Resizes volid t t' =
      (t' ≡ t)
      ⊎ ((vol : Volume) × (first (has_id volid) t.volumes ≡ some vol)
          × (c : ℤ) × IsSize c
          × (leb_ℤ vol.capacity c ≡ true)
          × (t' ≡ with_capacity vol c t))

  delete_found-Deletes :
      (vh : VolumeHelper) (volid : Text) (w : World D F)
      → Deletes volid (tables w.db) (tables (Store.delete_volume host vh volid w).1.db)
  unfolding Store.delete_volume get_volume
  delete_found-Deletes vh volid w = elim (Result-cases (host.db.first_volume_by_id volid w.db).0) [
    | inr (e, missing) ↦ inl (delete_volume_missing host laws vh volid w e missing).1
    | inl (vol, found) ↦
        let begun = (host.db.begin (host.db.first_volume_by_id volid w.db).1).1 in
        elim (Option-cases (host.db.handle_error begun)) [
          | inr (e, loud) ↦ inl (
              ground (
                arith,
                laws.first_by_id volid w.db,
                laws.begin_lem (host.db.first_volume_by_id volid w.db).1,
              ))
          | inl quiet ↦
              let left = delete_volume-tables host laws vh volid w found quiet in
              elim (Option-cases (statement_error host laws vh volid w found)) [
                | inl done ↦ inr (left ∙ rw done)
                | inr (e, broken) ↦ inl (left ∙ rw broken)
              ]
        ]
  ]

  -- The state after the request, by what it reached.
  delete_volume_reaches :
      (vh : VolumeHelper) (volid : Text) (w : World D F)
      → let end = (Provisioning.delete_volume host vh volid w).1 in
        let read : World D F = record w { db = (host.db.first_volume_by_id volid w.db).1 } in
        (end ≡ w) ⊎ (end ≡ read) ⊎ (end ≡ (Store.delete_volume host vh volid read).1)
  unfolding Provisioning.delete_volume delete_found remove_volume get_volume
  delete_volume_reaches vh volid w = elim (Bool-cases (is_empty volid)) [
    | inl empty ↦ inl (ground arith)
    | inr named ↦ elim (Result-cases (host.db.first_volume_by_id volid w.db).0) [
      | inl (vol, found) ↦ inr (inr (ground arith))
      | inr (record_not_found, missing) ↦ inr (inl (ground arith))
      | inr (not_exist text, missing) ↦ inr (inr (ground arith))
      | inr (failed text, missing) ↦ inr (inr (ground arith))
    ]
  ]

  pub delete_volume-Deletes :
      (vh : VolumeHelper) (volid : Text) (w : World D F)
      → Deletes volid (tables w.db) (tables (Provisioning.delete_volume host vh volid w).1.db)
  delete_volume-Deletes vh volid w =
      let read : World D F = record w { db = (host.db.first_volume_by_id volid w.db).1 } in
      let same : tables read.db ≡ tables w.db = (laws.first_by_id volid w.db).1 in
      elim (delete_volume_reaches vh volid w) [
        | inl at_start ↦ inl (ap (λ (v : World D F). tables v.db) at_start)
        | inr (inl at_read) ↦ inl (ap (λ (v : World D F). tables v.db) at_read ∙ same)
        | inr (inr at_end) ↦ elim (delete_found-Deletes vh volid read) [
          | inl kept ↦ inl (ap (λ (v : World D F). tables v.db) at_end ∙ kept ∙ same)
          | inr gone ↦
              inr
                (ap (λ (v : World D F). tables v.db) at_end ∙ gone ∙ ap (without_volume volid) same)
        ]
      ]

  update_volume_capacity-ends :
      (vol : Volume) (c : ℤ) (w : World D F)
      → let t' = tables (update_volume_capacity host vol c w).1.db in
        (t' ≡ tables w.db) ⊎ (t' ≡ with_capacity vol c (tables w.db))
  unfolding update_volume_capacity
  update_volume_capacity-ends vol c w =
      let begun = (host.db.begin w.db).1 in
      elim (Option-cases (host.db.handle_error begun)) [
        | inr (e, loud) ↦ inl (ground (arith, laws.begin_lem w.db))
        | inl quiet ↦
            let left = update_volume_capacity-tables host laws vol c w quiet in
            elim (Option-cases (Expand.statement_error host laws vol c w)) [
              | inl done ↦ inr (left ∙ rw done)
              | inr (e, broken) ↦ inl (left ∙ rw broken)
            ]
      ]

  -- The state after the request, by what it reached.
  expand_reaches :
      (req : ExpandRequest) (w : World D F)
      → let end = (controller_expand_volume host req w).1 in
        let read : World D F = record w {
          db = (host.db.first_volume_by_id req.volume_id w.db).1;
        } in
        let c = fix_capacity (asked_bytes req) in
        (end ≡ w)
        ⊎ (end ≡ read)
        ⊎ ((vol : Volume) × ((host.db.first_volume_by_id req.volume_id w.db).0 ≡ ok vol)
            × (leb_ℤ max_storage_capacity c ≡ false)
            × (leb_ℤ c vol.capacity ≡ false)
            × (end ≡ (update_volume_capacity host vol c read).1))
  unfolding controller_expand_volume get_volume
  expand_reaches req w = elim (Option-cases req.capacity_range) [
    | inl absent ↦ inl (ground arith)
    | inr (required, given) ↦
        elim (Bool-cases
          (is_empty req.volume_id || leb_ℤ max_storage_capacity (fix_capacity required))) [
            | inl refused ↦ inl (ground arith)
            | inr open_way ↦ elim (Result-cases (host.db.first_volume_by_id req.volume_id w.db).0) [
              | inr (e, missing) ↦ inr (inl (ground arith))
              | inl (vol, found) ↦ elim (Bool-cases (leb_ℤ (fix_capacity required) vol.capacity)) [
                | inl enough ↦ inr (inl (ground arith))
                | inr short ↦ inr (inr (vol, found, ground arith, ground arith, ground arith))
              ]
            ]
          ]
  ]

  pub controller_expand_volume-Resizes :
      (req : ExpandRequest) (w : World D F)
      → asked_bytes req ≤ℤ pos roundable
      → Resizes req.volume_id (tables w.db) (tables (controller_expand_volume host req w).1.db)
  controller_expand_volume-Resizes req w small =
      let read : World D F = record w { db = (host.db.first_volume_by_id req.volume_id w.db).1 } in
      let same : tables read.db ≡ tables w.db = (laws.first_by_id req.volume_id w.db).1 in
      let c = fix_capacity (asked_bytes req) in
      let (k, is_k, least, covers, minimal) = fix_capacity_least (asked_bytes req) small in
      elim (expand_reaches req w) [
        | inl at_start ↦ inl (ap (λ (v : World D F). tables v.db) at_start)
        | inr (inl at_read) ↦ inl (ap (λ (v : World D F). tables v.db) at_read ∙ same)
        | inr (inr (vol, found, below, short, at_end)) ↦
            elim (update_volume_capacity-ends vol c read) [
              | inl kept ↦ inl (ap (λ (v : World D F). tables v.db) at_end ∙ kept ∙ same)
              | inr grown ↦ inr (
                vol,
                rw found at (laws.first_by_id req.volume_id w.db).0,
                c,
                (k, is_k, least, ground arith),
                leb_ℤ_total c vol.capacity short,
                ap (λ (v : World D F). tables v.db) at_end ∙ grown ∙ ap (with_capacity vol c) same,
              )
            ]
      ]
