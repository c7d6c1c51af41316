-- ===== src/System/Creating.antt =====
-- What a request to create a volume does to the tables, in the terms of the invariant.
use csi_sharedhostpath.Base.{none, ◌≡◌, refl, ap, ◌∙◌, ◌⊎◌, inl, inr, arith, Text}
use csi_sharedhostpath.Base.Int.{pos, ◌≤ℤ◌}
use csi_sharedhostpath.Base.Run.{ok, err, Result-cases}
use csi_sharedhostpath.Capacity.Rounding.{roundable}
use csi_sharedhostpath.Controller.Requests.{CreateVolumeRequest, CreateVolumeResponse}
use csi_sharedhostpath.Controller.Provisioning.{
  Answer, Checked, check_request, existing_volume, missing_volume, by_name, create_volume,
  created_response,
}
use csi_sharedhostpath.Controller.Provisioning.Creation.{
  Grows, missing_volume-Grows, create_volume_at, create_volume_refused, query, query-tables,
  IsAsked, create_volume-Creates,
}
use csi_sharedhostpath.Controller.Provisioning.Guards.{check_request_capacity}
use csi_sharedhostpath.Controller.Provisioning.Retry.{query_missing}
use csi_sharedhostpath.Host.Db.Laws.{DbLaws, Tables, IsAnswered, first, has_id, has_name}
use csi_sharedhostpath.Host.Rows.{Volume}
use csi_sharedhostpath.Host.World.{World, Host}
use csi_sharedhostpath.Volumes.Paths.{VolumeHelper}
use csi_sharedhostpath.Volumes.Store.{get_volume}
use csi_sharedhostpath.Volumes.Store.Create.{add_volume}
use csi_sharedhostpath.System.Valid.{IsSized, IsPlaced}

-- The tables are as before, or have one more volume, of a new identifier and the name, which is
-- new, at its place and of a proper size.
abbrev pub Adds : VolumeHelper → Text → Tables → Tables → Type 0
Adds vh name t t' =
    (t' ≡ t)
    ⊎ ((v : Volume) × (first (has_id v.vol_id) t.volumes ≡ none)
        × (v.vol_name ≡ name)
        × (first (has_name name) t.volumes ≡ none)
        × IsPlaced vh v
        × IsSized v
        × (t' ≡ add_volume v t))

Grows-Adds :
    (vh : VolumeHelper) (req : CreateVolumeRequest) (c : Checked) (t : Tables)
    (answer : Answer CreateVolumeResponse) (t' : Tables)
    → ((v : Volume) → v.capacity ≡ c.capacity → IsSized v)
    → first (has_name req.name) t.volumes ≡ none
    → Grows vh req c t answer t'
    → Adds vh req.name t t'
Grows-Adds vh req c t (err code) t' size free same = inl same
Grows-Adds vh req c t (ok answer) t' size free (v, (named, sized, kind, here), fresh, is_v, grown) =
    inr (v, fresh, named, free, here, size v sized, grown)

module _ {D F : Type 0} (host : Host D F) (laws : DbLaws host.db) (vh : VolumeHelper) where
  open laws use {tables}

  existing_volume-tables :
      (req : CreateVolumeRequest) (c : Checked) (volid : Text) (w : World D F)
      → tables (existing_volume host vh req c volid w).1.db ≡ tables w.db
  unfolding existing_volume get_volume
  existing_volume-tables req c volid w = ground (arith, laws.first_by_id volid w.db)

  pub create_volume-Adds :
      (tp : Text) (req : CreateVolumeRequest) (w : World D F)
      → req.required_bytes ≤ℤ pos roundable
      → IsAnswered (host.db.first_volume_by_name req.name w.db).0
      → Adds vh req.name (tables w.db) (tables (create_volume host vh tp req w).1.db)
  unfolding by_name
  create_volume-Adds tp req w small answered = elim (Result-cases (check_request tp req)) [
    | inr (code, refused) ↦
        inl (ap (λ p. tables p.1.db) (create_volume_refused host laws vh tp req code w refused))
    | inl (c, checked) ↦
        let same = query-tables host laws vh req c w in
        let reached = create_volume_at host laws vh req c tp checked w in
        elim (Result-cases (query host laws vh req c w).0) [
          | inl (volid, found) ↦
              let end : create_volume host vh tp req w
                  ≡ existing_volume host vh req c volid (query host laws vh req c w).1 =
                reached ∙ ap (λ r. by_name host vh req c r (query host laws vh req c w).1) found in
              inl (
                ap (λ p. tables p.1.db) end
                ∙ existing_volume-tables req c volid (query host laws vh req c w).1
                ∙ same)
          | inr (e, missing) ↦
              let end : create_volume host vh tp req w
                  ≡ missing_volume host vh req c (query host laws vh req c w).1 =
                reached
                ∙ ap (λ r. by_name host vh req c r (query host laws vh req c w).1) missing in
              let (k, is_k, least, below, covers) = check_request_capacity tp req c small checked in
              rw (end, ← same)
                (Grows-Adds vh req c _ _ _ (λ v sized. (k, sized ∙ is_k, least, below))
                  (rw same (query_missing host laws vh req c e w answered missing))
                  (missing_volume-Grows host laws vh req c (query host laws vh req c w).1))
        ]
  ]

  -- What the acceptance of a request says where no row had the identifier of the answer.
  pub create_volume_anew :
      (tp : Text) (req : CreateVolumeRequest) (answer : CreateVolumeResponse) (w : World D F)
      → (create_volume host vh tp req w).0 ≡ ok answer
      → first (has_id answer.volume_id) (tables w.db).volumes ≡ none
      → (c : Checked) × (check_request tp req ≡ ok c)
        × (v : Volume) × IsAsked vh req c v
        × (v.vol_id ≡ answer.volume_id)
        × (tables (create_volume host vh tp req w).1.db ≡ add_volume v (tables w.db))
  unfolding created_response
  create_volume_anew tp req answer w accepted fresh = elim (Result-cases (check_request tp req)) [
    | inr (code, refused) ↦
        let rejected : (create_volume host vh tp req w).0 ≡ err code =
          ap (λ p. p.0) (create_volume_refused host laws vh tp req code w refused) in
        cc
    | inl (c, checked) ↦
        elim (rw accepted at (create_volume-Creates host laws vh req c tp checked w)) [
          | inl (v, there, is_v, same) ↦
              let named : answer.volume_id ≡ v.vol_id = rw is_v refl in
              let absent : first (has_id v.vol_id) (tables w.db).volumes ≡ none =
                rw (← named) fresh in
              cc
          | inr (v, asked, new_id, is_v, grown) ↦ (c, checked, v, asked, rw is_v refl, grown)
        ]
  ]
