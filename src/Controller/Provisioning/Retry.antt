-- ===== src/Controller/Provisioning/Retry.antt =====
-- A request to create a volume that is sent again.
use csi_sharedhostpath.Base.{
  none, some, List, [], ◌∷◌, ◌++◌, ◌≡◌, ◌∙◌, sym, ap, inl, inr, arith, Text, text_eq,
}
use csi_sharedhostpath.Base.Run.{ok, err, Result-cases}
use csi_sharedhostpath.Controller.Requests.{CreateVolumeRequest, CreateVolumeResponse}
use csi_sharedhostpath.Controller.Provisioning.{
  Checked, check_request, created_response, existing_volume, missing_volume, by_name, create_volume,
}
use csi_sharedhostpath.Controller.Provisioning.Creation.{
  create_volume_at, missing_volume-Grows, query, query-tables,
}
use csi_sharedhostpath.Host.Db.{Err, record_not_found, not_exist, failed}
use csi_sharedhostpath.Host.Db.Laws.{DbLaws, IsAnswered, Tables, first, has_id, has_name}
use csi_sharedhostpath.Host.Rows.{Volume}
use csi_sharedhostpath.Host.World.{World, Host}
use csi_sharedhostpath.Volumes.Store.Delete.{first-has_id}
use csi_sharedhostpath.Volumes.Paths.{VolumeHelper}
use csi_sharedhostpath.Volumes.Store.{get_volume, get_volume_id_by_name}

first-has_name_add :
    (name : Text) (l : List Volume) (v : Volume)
    → first (has_name name) l ≡ none
    → v.vol_name ≡ name
    → first (has_name name) (l ++ (v ∷ [])) ≡ some v
first-has_name_add name [] v none_there e = ground arith
first-has_name_add name (x ∷ l) v none_there e = ground (arith, first-has_name_add name l v)

-- The identifier of the volume of a name.
abbrev IsNamed : Text → Text → Tables → Type 0
IsNamed name volid t =
    (v : Volume) × (first (has_name name) t.volumes ≡ some v) × (v.vol_id ≡ volid)

module _ {D F : Type 0} (host : Host D F) (laws : DbLaws host.db) (vh : VolumeHelper)
    (req : CreateVolumeRequest) (c : Checked) where
  open laws use {tables}

  existing_volume_answer :
      (volid : Text) (w : World D F) (answer : CreateVolumeResponse)
      → (existing_volume host vh req c volid w).0 ≡ ok answer
      → (answer.volume_id ≡ volid)
        × (tables (existing_volume host vh req c volid w).1.db ≡ tables w.db)
  unfolding existing_volume get_volume created_response
  existing_volume_answer volid w answer accepted =
      let asked = laws.first_by_id volid w.db in
      elim (Result-cases (host.db.first_volume_by_id volid w.db).0) [
        | inr (e, missing) ↦ absurd (ground arith)
        | inl (v, found) ↦
            let there : first (has_id volid) (tables w.db).volumes ≡ some v = rw found at asked.0 in
            let same = first-has_id volid (tables w.db).volumes v there in
            (ground arith, ground arith)
      ]

  -- What the query for the name says.
  query_ok :
      (volid : Text) (w : World D F)
      → (query host laws vh req c w).0 ≡ ok volid
      → IsNamed req.name volid (tables w.db)
  unfolding get_volume_id_by_name
  query_ok volid w found = elim (Result-cases (host.db.first_volume_by_name req.name w.db).0) [
    | inl (v, is_v) ↦ (v, rw is_v at (laws.first_by_name req.name w.db).0, ground arith)
    | inr (e, broken) ↦ absurd (ground arith)
  ]

  -- A query that is answered finds the name that the table has.
  query_named :
      (volid : Text) (w : World D F)
      → IsAnswered (host.db.first_volume_by_name req.name w.db).0
      → IsNamed req.name volid (tables w.db)
      → (query host laws vh req c w).0 ≡ ok volid
  unfolding get_volume_id_by_name
  query_named volid w answered (v, there, same) =
      let asked = (laws.first_by_name req.name w.db).0 in
      elim (Result-cases (host.db.first_volume_by_name req.name w.db).0) [
        | inl (u, found) ↦
            let here : first (has_name req.name) (tables w.db).volumes ≡ some u =
              rw found at asked in
            ground arith
        | inr (record_not_found, found) ↦
            let here : first (has_name req.name) (tables w.db).volumes ≡ none = rw found at asked in
            absurd (ground arith)
        | inr (not_exist text, found) ↦ absurd (rw found at answered)
        | inr (failed text, found) ↦ absurd (rw found at answered)
      ]

  -- A query that is answered with an error found no such name.
  pub query_missing :
      (e : Err) (w : World D F)
      → IsAnswered (host.db.first_volume_by_name req.name w.db).0
      → (query host laws vh req c w).0 ≡ err e
      → first (has_name req.name) (tables w.db).volumes ≡ none
  unfolding get_volume_id_by_name
  query_missing e w answered missing =
      let asked = (laws.first_by_name req.name w.db).0 in
      elim (Result-cases (host.db.first_volume_by_name req.name w.db).0) [
        | inl (u, found) ↦ absurd (ground arith)
        | inr (record_not_found, found) ↦ rw found at asked
        | inr (not_exist text, found) ↦ absurd (rw found at answered)
        | inr (failed text, found) ↦ absurd (rw found at answered)
      ]

  module _ (tp : Text) (checked : check_request tp req ≡ ok c) where
    found_answer :
        (volid : Text) (w : World D F) (answer : CreateVolumeResponse)
        → (query host laws vh req c w).0 ≡ ok volid
        → (create_volume host vh tp req w).0 ≡ ok answer
        → (answer.volume_id ≡ volid) × (tables (create_volume host vh tp req w).1.db ≡ tables w.db)
    unfolding by_name
    found_answer volid w answer found accepted =
        let reached : create_volume host vh tp req w
            ≡ existing_volume host vh req c volid (query host laws vh req c w).1 =
          ground (arith, create_volume_at host laws vh req c tp checked w) in
        let answered =
          existing_volume_answer volid (query host laws vh req c w).1 answer
            (sym (ap (λ p. p.0) reached) ∙ accepted) in
        (
          answered.0,
          ap (λ p. tables p.1.db) reached ∙ answered.1 ∙ query-tables host laws vh req c w,
        )

    added_answer :
        (e : Err) (w : World D F) (answer : CreateVolumeResponse)
        → IsAnswered (host.db.first_volume_by_name req.name w.db).0
        → (query host laws vh req c w).0 ≡ err e
        → (create_volume host vh tp req w).0 ≡ ok answer
        → IsNamed req.name answer.volume_id (tables (create_volume host vh tp req w).1.db)
    unfolding by_name created_response
    added_answer e w answer answered missing accepted =
        let reached : create_volume host vh tp req w
            ≡ missing_volume host vh req c (query host laws vh req c w).1 =
          ground (arith, create_volume_at host laws vh req c tp checked w) in
        let grows =
          rw (← reached, accepted) at
            (missing_volume-Grows host laws vh req c (query host laws vh req c w).1) in
        let (v, asked, fresh, is_v, grown) = grows in
        (
          v,
          rw (grown, query-tables host laws vh req c w)
              (first-has_name_add req.name (tables w.db).volumes v
                (query_missing e w answered missing) asked.0),
          ap (λ (a : CreateVolumeResponse). a.volume_id) (sym is_v),
        )

    accepted-IsNamed :
        (w : World D F) (answer : CreateVolumeResponse)
        → IsAnswered (host.db.first_volume_by_name req.name w.db).0
        → (create_volume host vh tp req w).0 ≡ ok answer
        → IsNamed req.name answer.volume_id (tables (create_volume host vh tp req w).1.db)
    accepted-IsNamed w answer answered accepted =
        elim (Result-cases (query host laws vh req c w).0) [
          | inl (volid, found) ↦
              let kept = found_answer volid w answer found accepted in
              rw (kept.0, kept.1) (query_ok volid w found)
          | inr (e, missing) ↦ added_answer e w answer answered missing accepted
        ]

    -- If a request that passes the checks is accepted, and it is sent again while the tables are
    -- as the first one left them, and both queries for the name are answered, then a second
    -- acceptance names the same volume and changes no table.
    pub create_volume_retry :
        (w w' : World D F) (answer again : CreateVolumeResponse)
        → IsAnswered (host.db.first_volume_by_name req.name w.db).0
        → (create_volume host vh tp req w).0 ≡ ok answer
        → tables w'.db ≡ tables (create_volume host vh tp req w).1.db
        → IsAnswered (host.db.first_volume_by_name req.name w'.db).0
        → (create_volume host vh tp req w').0 ≡ ok again
        → (again.volume_id ≡ answer.volume_id)
          × (tables (create_volume host vh tp req w').1.db ≡ tables w'.db)
    create_volume_retry w w' answer again answered accepted same answered' accepted' =
        let named = accepted-IsNamed w answer answered accepted in
        found_answer answer.volume_id w' again
          (query_named answer.volume_id w' answered' (rw same named)) accepted'
