-- ===== src/Controller/Provisioning/Creation.antt =====
-- What a request to create a volume leaves in the table of volumes.
use csi_sharedhostpath.Base.{
  some, Option-cases, ◌≡◌, refl, ◌∙◌, sym, ap, subst, ◌⊎◌, inl, inr, arith, Text, text_eq, bool_eq,
  none,
}
use csi_sharedhostpath.Base.Dict.{lookup}
use csi_sharedhostpath.Base.Run.{Result, ok, err, Result-cases}
use csi_sharedhostpath.Controller.Requests.{Code, CreateVolumeRequest, CreateVolumeResponse}
use csi_sharedhostpath.Controller.Provisioning.{
  Answer, Checked, check_request, created_response, existing_volume, missing_volume, by_name,
  create_volume,
}
use csi_sharedhostpath.Host.Db.{Err, failed}
use csi_sharedhostpath.Host.Db.Laws.{DbLaws, Tables, first, has_id}
use csi_sharedhostpath.Host.Rows.{Volume}
use csi_sharedhostpath.Host.World.{World, Host}
use csi_sharedhostpath.Volumes.Details.{pv_name_key, pvc_name_key, pvc_namespace_key}
use csi_sharedhostpath.Volumes.Paths.{VolumeHelper, volume_path}
use csi_sharedhostpath.Volumes.Store
use csi_sharedhostpath.Volumes.Store.{get_volume, get_volume_id_by_name, new_volume}
use csi_sharedhostpath.Volumes.Store.Delete.{first-has_id}
use csi_sharedhostpath.Volumes.Store.Create.{add_volume, Inserts, create_volume-Inserts}

-- The volume is the one that was asked for.
abbrev pub IsAsked : VolumeHelper → CreateVolumeRequest → Checked → Volume → Type 0
IsAsked vh req c v =
    (v.vol_name ≡ req.name)
    × (v.capacity ≡ c.capacity)
    × (v.is_block ≡ c.is_block)
    × (v.vol_path ≡ volume_path vh.vols_path v.vol_id)

-- An accepted request has added the volume that was asked for; a refused one has changed no table.
abbrev pub Grows :
    VolumeHelper
    → CreateVolumeRequest
    → Checked
    → Tables
    → Answer CreateVolumeResponse
    → Tables
    → Type 0
Grows vh req c t (ok answer) t' =
    (v : Volume) × IsAsked vh req c v
    × (first (has_id v.vol_id) t.volumes ≡ none)
    × (answer ≡ created_response req v)
    × (t' ≡ add_volume v t)
Grows vh req c t (err code) t' = t' ≡ t

-- An accepted request answers with a volume that was there, and changes no table, or has added the
-- volume that was asked for; a refused one has changed no table.
abbrev pub Creates :
    VolumeHelper
    → CreateVolumeRequest
    → Checked
    → Tables
    → Answer CreateVolumeResponse
    → Tables
    → Type 0
Creates vh req c t (ok answer) t' =
    ((v : Volume) × (first (has_id v.vol_id) t.volumes ≡ some v)
      × (answer ≡ created_response req v)
      × (t' ≡ t))
    ⊎ ((v : Volume) × IsAsked vh req c v
        × (first (has_id v.vol_id) t.volumes ≡ none)
        × (answer ≡ created_response req v)
        × (t' ≡ add_volume v t))
Creates vh req c t (err code) t' = t' ≡ t

abbrev Refused : Answer CreateVolumeResponse → Type 0
Refused (ok answer) = ⊥
Refused (err code) = Unit

module _ (vh : VolumeHelper) (req : CreateVolumeRequest) (c : Checked) (t : Tables) where
  Creates-Refused :
      (a : Answer CreateVolumeResponse) (t' : Tables) → Refused a → t' ≡ t → Creates vh req c t a t'
  Creates-Refused (ok answer) t' refused same = absurd refused
  Creates-Refused (err code) t' refused same = same

  Creates-existing :
      (v : Volume) (a : Answer CreateVolumeResponse) (t' : Tables)
      → first (has_id v.vol_id) t.volumes ≡ some v
      → Refused a ⊎ (a ≡ ok (created_response req v))
      → t' ≡ t
      → Creates vh req c t a t'
  Creates-existing v a t' there (inl refused) same = Creates-Refused a t' refused same
  Creates-existing v a t' there (inr e) same = rw e (inl (v, there, refl, same))

  Grows-Refused :
      (a : Answer CreateVolumeResponse) (t' : Tables) → Refused a → t' ≡ t → Grows vh req c t a t'
  Grows-Refused (ok answer) t' refused same = absurd refused
  Grows-Refused (err code) t' refused same = same

  Grows-Creates :
      (a : Answer CreateVolumeResponse) (t' : Tables)
      → Grows vh req c t a t'
      → Creates vh req c t a t'
  Grows-Creates (ok answer) t' g = inr g
  Grows-Creates (err code) t' g = g

  Grows-new :
      (v : Volume) (r : Result Err Volume) (a : Answer CreateVolumeResponse) (t' : Tables)
      → IsAsked vh req c v
      → Inserts v t r t'
      → (r ≡ ok v → a ≡ ok (created_response req v)) × ((e : Err) → r ≡ err e → Refused a)
      → Grows vh req c t a t'
  Grows-new v (ok u) a t' asked (e, fresh, added) ends =
      rw (ends.0 (ap ok e)) (v, asked, fresh, refl, added)
  Grows-new v (err e) a t' asked same ends = Grows-Refused a t' (ends.1 e refl) same

module _ {D F : Type 0} (host : Host D F) (laws : DbLaws host.db) (vh : VolumeHelper) where
  open laws use {tables}

  module _ (req : CreateVolumeRequest) (c : Checked) where
    existing_volume-Creates :
        (volid : Text) (w : World D F)
        → let (answer, w') = existing_volume host vh req c volid w in
          Creates vh req c (tables w.db) answer (tables w'.db)
    unfolding existing_volume get_volume
    existing_volume-Creates volid w =
        let asked = laws.first_by_id volid w.db in
        elim (Result-cases (host.db.first_volume_by_id volid w.db).0) [
          | inr (e, missing) ↦
              Creates-Refused vh req c (tables w.db) _ _ (ground arith) (ground arith)
          | inl (v, found) ↦
              let there : first (has_id volid) (tables w.db).volumes ≡ some v =
                rw found at asked.0 in
              Creates-existing vh req c (tables w.db) v _ _
                (subst (λ id. first (has_id id) (tables w.db).volumes ≡ some v)
                  (sym (first-has_id volid (tables w.db).volumes v there)) there)
                (ground arith) (ground arith)
        ]

    new_volume-IsAsked :
        (volid pvname pvcname nsname : Text)
        → IsAsked vh req c
            (new_volume vh volid req.name pvname pvcname nsname c.capacity c.is_block)
    unfolding new_volume
    new_volume-IsAsked volid pvname pvcname nsname = (refl, refl, refl, refl)

    -- With all names and an identifier.
    named_volume-Grows :
        (ns pv pvc volid : Text) (w : World D F)
        → lookup pvc_namespace_key req.parameters ≡ some ns
        → lookup pv_name_key req.parameters ≡ some pv
        → lookup pvc_name_key req.parameters ≡ some pvc
        → (host.os.new_random w.os).0 ≡ ok volid
        → let (answer, w') = missing_volume host vh req c w in
          Grows vh req c (tables w.db) answer (tables w'.db)
    unfolding missing_volume
    named_volume-Grows ns pv pvc volid w ns_is pv_is pvc_is id_is =
        let drawn : World D F = record w { os = (host.os.new_random w.os).1 } in
        let made =
          Store.create_volume host vh volid req.name pv pvc ns c.capacity c.is_block drawn in
        Grows-new vh req c (tables w.db)
          (new_volume vh volid req.name pv pvc ns c.capacity c.is_block) made.0 _ _
          (new_volume-IsAsked volid pv pvc ns)
          (subst
            (λ (end : World D F).
              Inserts (new_volume vh volid req.name pv pvc ns c.capacity c.is_block) (tables w.db)
                made.0 (tables end.db))
            (let end : made.1 ≡ (missing_volume host vh req c w).1 = ground arith in end)
            (create_volume-Inserts host laws vh volid req.name pv pvc ns c.capacity c.is_block
              drawn))
          (λ e. ground arith, λ e broken. ground arith)

    pub missing_volume-Grows :
        (w : World D F)
        → let (answer, w') = missing_volume host vh req c w in
          Grows vh req c (tables w.db) answer (tables w'.db)
    unfolding missing_volume
    missing_volume-Grows w =
        let refuse =
          Grows-Refused vh req c (tables w.db) (missing_volume host vh req c w).0
            (tables (missing_volume host vh req c w).1.db) in
        elim (Option-cases (lookup pvc_namespace_key req.parameters)) [
          | inl absent ↦ refuse (ground arith) (ground arith)
          | inr (ns, ns_is) ↦ elim (Option-cases (lookup pv_name_key req.parameters)) [
            | inl absent ↦ refuse (ground arith) (ground arith)
            | inr (pv, pv_is) ↦ elim (Option-cases (lookup pvc_name_key req.parameters)) [
              | inl absent ↦ refuse (ground arith) (ground arith)
              | inr (pvc, pvc_is) ↦ elim (Result-cases (host.os.new_random w.os).0) [
                | inr (e, broken) ↦ refuse (ground arith) (ground arith)
                | inl (volid, id_is) ↦ named_volume-Grows ns pv pvc volid w ns_is pv_is pvc_is id_is
              ]
            ]
          ]
        ]

    by_name-Creates :
        (found : Result Err Text) (w : World D F)
        → let (answer, w') = by_name host vh req c found w in
          Creates vh req c (tables w.db) answer (tables w'.db)
    unfolding by_name
    by_name-Creates (ok volid) w = existing_volume-Creates volid w
    by_name-Creates (err e) w = Grows-Creates vh req c (tables w.db) _ _ (missing_volume-Grows w)

    -- The query for the name.
    abbrev pub query : World D F → Result Err Text × World D F
    query = get_volume_id_by_name host req.name

    pub query-tables : (w : World D F) → tables (query w).1.db ≡ tables w.db
    unfolding get_volume_id_by_name
    query-tables w = ground (arith, laws.first_by_name req.name w.db)

    module _ (tp : Text) (checked : check_request tp req ≡ ok c) (w : World D F) where
      pub create_volume_at :
          create_volume host vh tp req w ≡ by_name host vh req c (query w).0 (query w).1
      unfolding create_volume
      create_volume_at = ground arith

      -- A request to create a volume that passes the checks, on any state of the database and the
      -- disk: if it is accepted, it has answered with a volume of the table and changed no table,
      -- or it has added the volume that was asked for, with an identifier that no row had and its
      -- place in the layout, with the name, the rounded capacity and the kind, and answered with
      -- that one; if it is refused, it has changed no table.
      pub create_volume-Creates :
          let (answer, w') = create_volume host vh tp req w in
          Creates vh req c (tables w.db) answer (tables w'.db)
      create_volume-Creates =
          rw (create_volume_at, ← query-tables w) (by_name-Creates (query w).0 (query w).1)

      failed_query-Grows :
          (text : Text)
          → (host.db.first_volume_by_name req.name w.db).0 ≡ err (failed text)
          → let (answer, w') = create_volume host vh tp req w in
            Grows vh req c (tables (query w).1.db) answer (tables w'.db)
      unfolding by_name get_volume_id_by_name
      failed_query-Grows text broken =
          let reached : create_volume host vh tp req w ≡ missing_volume host vh req c (query w).1 =
            ground (arith, create_volume_at) in
          rw reached (missing_volume-Grows (query w).1)

      -- If the query for the name fails, a request that passes the checks and is accepted has
      -- added a volume of that name, whatever the table holds: there may be a volume of that name
      -- already.
      pub create_volume_after_failed_query :
          (text : Text) (answer : CreateVolumeResponse)
          → (host.db.first_volume_by_name req.name w.db).0 ≡ err (failed text)
          → (create_volume host vh tp req w).0 ≡ ok answer
          → (v : Volume) × (v.vol_name ≡ req.name)
            × (tables (create_volume host vh tp req w).1.db ≡ add_volume v (tables w.db))
      create_volume_after_failed_query text answer broken accepted =
          let grows = rw accepted at (failed_query-Grows text broken) in
          (grows.0, grows.1.0, grows.4 ∙ ap (add_volume grows.0) (query-tables w))

  -- A request to create a volume that does not pass the checks gets their error, and touches
  -- nothing.
  pub create_volume_refused :
      (tp : Text) (req : CreateVolumeRequest) (code : Code) (w : World D F)
      → check_request tp req ≡ err code
      → create_volume host vh tp req w ≡ (err code, w)
  unfolding create_volume
  create_volume_refused tp req code w refused = ground arith
