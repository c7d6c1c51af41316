-- ===== src/Controller/Provisioning/Accepting.antt =====
-- When volumes are created and deleted on a host where nothing fails.
use csi_sharedhostpath.Base.{
  Bool, true, false, Option, none, some, [], ◌≡◌, ◌≢◌, refl, ◌∙◌, ap, inl, inr, Option-cases, arith,
  Text,
}
use csi_sharedhostpath.Base.Int.{ℤ}
use csi_sharedhostpath.Base.Run.{ok, err}
use csi_sharedhostpath.Controller.Provisioning.{
  delete_volume, delete_found, remove_volume, Checked, check_request, missing_volume, by_name,
  create_volume, created_response,
}
use csi_sharedhostpath.Base.Dict.{lookup}
use csi_sharedhostpath.Controller.Requests.{CreateVolumeRequest, CreateVolumeResponse}
use csi_sharedhostpath.Volumes.Details.{pv_name_key, pvc_name_key, pvc_namespace_key}
use csi_sharedhostpath.Host.Db.{Err, record_not_found}
use csi_sharedhostpath.Host.Db.Laws.{DbLaws, first, has_id, has_name}
use csi_sharedhostpath.Host.Db.Matching.{answered_row, answered_none, first-keep-not}
use csi_sharedhostpath.Host.Rows.{Volume}
use csi_sharedhostpath.Host.Working.{Works}
use csi_sharedhostpath.Host.World.{World, Host}
use csi_sharedhostpath.Volumes.Files.{
  dd_command, resize_file, make_volume, populate_volume_if_required,
}
use csi_sharedhostpath.Volumes.Paths.{VolumeHelper, volume_prefix}
use csi_sharedhostpath.Volumes.Store
use csi_sharedhostpath.Volumes.Store.{get_volume, get_volume_id_by_name, new_volume}
use csi_sharedhostpath.Volumes.Store.Delete.{delete_volume-tables, delete_volume_result}

-- The three names that the parameters give.
abbrev pub HasNames : CreateVolumeRequest → Type 0
HasNames req =
    (ns_name : Text) × (lookup pvc_namespace_key req.parameters ≡ some ns_name)
    × (pv_name : Text) × (lookup pv_name_key req.parameters ≡ some pv_name)
    × (pvc_name : Text) × (lookup pvc_name_key req.parameters ≡ some pvc_name)

module _ {D F : Type 0} (host : Host D F) (laws : DbLaws host.db) (works : Works host laws)
    (vh : VolumeHelper) where
  open laws use {tables}

  -- A volume that the query finds is removed.
  found_removed :
      (volid : Text) (w : World D F) (vol : Volume)
      → (host.db.first_volume_by_id volid w.db).0 ≡ ok vol
      → let (e, w') = Store.delete_volume host vh volid w in
        (e ≡ none) × (first (has_id volid) (tables w'.db).volumes ≡ none)
  found_removed volid w vol found =
      let quiet = works.quiet (host.db.begin (host.db.first_volume_by_id volid w.db).1).1 in
      (
        (delete_volume_result host laws vh volid w found quiet).2 (works.removes _ _)
            ∙ works.commits _ _,
        rw
            (
              delete_volume-tables host laws vh volid w found quiet,
              works.deletes vol.vol_id (host.db.begin (host.db.first_volume_by_id volid w.db).1).1,
            )
            (first-keep-not (has_id volid) (tables w.db).volumes),
      )

  -- On a host where nothing fails, a request to delete a volume with an identifier that is not
  -- empty is accepted, and no row has the identifier afterwards, whether one had it before or
  -- not.
  pub delete_volume_works :
      (volid : Text) (w : World D F)
      → volid ≢ []
      → let (answer, w') = delete_volume host vh volid w in
        (answer ≡ ok tt) × (first (has_id volid) (tables w'.db).volumes ≡ none)
  unfolding delete_volume delete_found remove_volume get_volume
  delete_volume_works volid w named =
      let read : World D F = record w { db = (host.db.first_volume_by_id volid w.db).1 } in
      let (answers, same) = laws.first_by_id volid w.db in
      elim (Option-cases (first (has_id volid) (tables w.db).volumes)) [
        | inl absent ↦
            let missing : (host.db.first_volume_by_id volid w.db).0 ≡ err record_not_found =
              answered_none _ (rw absent at answers) (works.answers_id volid w.db) in
            (ground arith, ground arith)
        | inr (vol, there) ↦
            let found : (host.db.first_volume_by_id volid w.db).0 ≡ ok vol =
              answered_row _ vol (rw there at answers) (works.answers_id volid w.db) in
            let again : (host.db.first_volume_by_id volid read.db).0 ≡ ok vol =
              answered_row _ vol (rw (same, there) at (laws.first_by_id volid read.db).0)
                (works.answers_id volid read.db) in
            let (done, gone) = found_removed volid read vol again in
            let end : delete_volume host vh volid w
                ≡ (ok tt, (Store.delete_volume host vh volid read).1) =
              ground arith in
            (ap (λ r. r.0) end, rw end gone)
      ]

  module _ (volid volname pvname pvcname nsname : Text) (capacity : ℤ) (isblock : Bool)
      (w : World D F) (fresh : first (has_id volid) (tables w.db).volumes ≡ none) where
    abbrev vol : Volume
    vol = new_volume vh volid volname pvname pvcname nsname capacity isblock

    -- The disk after the directory was made, the transaction, and the database with the row in it.
    abbrev s1 : F
    s1 = (host.os.mkdir_all (volume_prefix vh.vols_path volid) w.os).1

    abbrev inserted : Option Err × D
    inserted = host.db.tx_create_volume (host.db.begin w.db).0 vol (host.db.begin w.db).1

    row_inserted : inserted.0 ≡ none
    unfolding new_volume
    row_inserted =
        works.inserts (host.db.begin w.db).0 vol (host.db.begin w.db).1
          (rw (laws.begin_lem w.db).0 fresh)

    populated : (s : F) → (b : Bool) × ((populate_volume_if_required host.os vol s).0 ≡ ok b)
    unfolding populate_volume_if_required make_volume resize_file
    populated s =
        let s' = (host.os.lstat vol.vol_path s).1 in
        elim (works.looks vol.vol_path s) [
          | inl (info, there) ↦ (false, ground arith)
          | inr (text, missing) ↦
              let made = works.makes vol.vol_path s' in
              let ran = works.runs (dd_command vol.capacity vol.vol_path) s' in (true, ground arith)
        ]

    store_creates :
        (Store.create_volume host vh volid volname pvname pvcname nsname capacity isblock w).0
        ≡ ok vol
    unfolding Store.create_volume
    store_creates =
        let made = works.makes (volume_prefix vh.vols_path volid) w.os in
        let quiet = works.quiet (host.db.begin w.db).1 in
        let row = row_inserted in
        let (b, ready) = populated s1 in
        let committed = works.commits (host.db.begin w.db).0 inserted.1 in ground arith

  missing_volume_works :
      (req : CreateVolumeRequest) (c : Checked) (volid : Text) (w : World D F)
      → HasNames req
      → (host.os.new_random w.os).0 ≡ ok volid
      → first (has_id volid) (tables w.db).volumes ≡ none
      → (answer : CreateVolumeResponse) × ((missing_volume host vh req c w).0 ≡ ok answer)
        × (answer.volume_id ≡ volid)
  unfolding missing_volume created_response new_volume
  missing_volume_works req c volid w (ns_name, has_ns, pv_name, has_pv, pvc_name, has_pvc) random
        fresh =
      let w' : World D F = record w { os = (host.os.new_random w.os).1 } in
      let done =
        store_creates volid req.name pv_name pvc_name ns_name c.capacity c.is_block w' fresh in
      (
        created_response req
            (vol volid req.name pv_name pvc_name ns_name c.capacity c.is_block w' fresh),
        ground arith,
        refl,
      )

  -- A request that passes the checks and gives the three names, for a name that no row has, is
  -- accepted with the identifier that was made at random, if no row has it.
  pub create_volume_works :
      (tp : Text) (req : CreateVolumeRequest) (c : Checked) (volid : Text) (w : World D F)
      → check_request tp req ≡ ok c
      → HasNames req
      → first (has_name req.name) (tables w.db).volumes ≡ none
      → (host.os.new_random w.os).0 ≡ ok volid
      → first (has_id volid) (tables w.db).volumes ≡ none
      → (answer : CreateVolumeResponse) × ((create_volume host vh tp req w).0 ≡ ok answer)
        × (answer.volume_id ≡ volid)
  unfolding create_volume by_name get_volume_id_by_name
  create_volume_works tp req c volid w checked names free random fresh =
      let (answers, same) = laws.first_by_name req.name w.db in
      let missing : (host.db.first_volume_by_name req.name w.db).0 ≡ err record_not_found =
        answered_none _ (rw free at answers) (works.answers_name req.name w.db) in
      let w' : World D F = record w { db = (host.db.first_volume_by_name req.name w.db).1 } in
      let (answer, done, named) =
        missing_volume_works req c volid w' names random (rw same fresh) in
      (answer, ground arith, named)
