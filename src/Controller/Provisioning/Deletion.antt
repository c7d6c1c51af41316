-- ===== src/Controller/Provisioning/Deletion.antt =====
-- What a request to delete a volume leaves, and what its repetition does.
use csi_sharedhostpath.Base.{false, none, some, ◌≡◌, inl, inr, arith, Text, text_eq}
use csi_sharedhostpath.Base.Run.{Result, ok, err, Result-cases}
use csi_sharedhostpath.Base.Strings.{is_empty}
use csi_sharedhostpath.Controller.Requests.{internal}
use csi_sharedhostpath.Controller.Provisioning.{delete_volume, delete_found, remove_volume}
use csi_sharedhostpath.Host.Db.{Err, record_not_found, not_exist, failed}
use csi_sharedhostpath.Host.Db.Laws.{DbLaws, IsAnswered, first, has_id}
use csi_sharedhostpath.Host.Rows.{Volume}
use csi_sharedhostpath.Host.World.{World, Host}
use csi_sharedhostpath.Volumes.Paths.{VolumeHelper}
use csi_sharedhostpath.Volumes.Store
use csi_sharedhostpath.Volumes.Store.{get_volume}
use csi_sharedhostpath.Volumes.Store.Delete.{
  statement_error, removal, delete_volume_not_rolled_back,
}

module _ {D F : Type 0} (host : Host D F) (laws : DbLaws host.db) (vh : VolumeHelper) (volid : Text)
    (named : is_empty volid ≡ false) where
  open laws use {tables}

  abbrev asked : World D F → Result Err Volume
  asked w = (host.db.first_volume_by_id volid w.db).0

  abbrev read : World D F → World D F
  read w = record w { db = (host.db.first_volume_by_id volid w.db).1 }

  -- A request to delete a volume whose identifier is in no row succeeds, if the query is
  -- answered, and leaves the tables and the files as they are.
  pub delete_volume_absent :
      (w : World D F)
      → IsAnswered (asked w)
      → first (has_id volid) (tables w.db).volumes ≡ none
      → ((delete_volume host vh volid w).0 ≡ ok tt)
        × (tables (delete_volume host vh volid w).1.db ≡ tables w.db)
        × ((delete_volume host vh volid w).1.os ≡ w.os)
  unfolding delete_volume delete_found get_volume
  delete_volume_absent w answered absent =
      let (says, same) = laws.first_by_id volid w.db in
      elim (Result-cases (asked w)) [
        | inl (v, found) ↦
            let there : first (has_id volid) (tables w.db).volumes ≡ some v = rw found at says in
            absurd (ground arith)
        | inr (record_not_found, found) ↦ (ground arith, ground arith, ground arith)
        | inr (not_exist text, found) ↦ absurd (rw found at answered)
        | inr (failed text, found) ↦ absurd (rw found at answered)
      ]

  -- With a volume found, the request removes it, from a state whose tables are the same.
  delete_volume_present :
      (w : World D F) (vol : Volume)
      → asked w ≡ ok vol
      → delete_volume host vh volid w ≡ remove_volume host vh volid (read w)
  unfolding delete_volume delete_found get_volume
  delete_volume_present w vol found = ground arith

  -- Let a request to delete a volume reach the removal of the files after the row was deleted,
  -- and let the removal fail: the request is answered with Internal. If it is sent again with the
  -- tables as they were left, and the query is answered, it succeeds and leaves the files alone.
  pub delete_volume_retry :
      (w w' : World D F) (vol : Volume) (e : Err) (first_found : asked w ≡ ok vol)
      (found : asked (read w) ≡ ok vol)
      → host.db.handle_error (host.db.begin (read (read w)).db).1 ≡ none
      → statement_error host laws vh volid (read w) found ≡ none
      → (removal host laws vh volid (read w) found).0 ≡ some e
      → tables w'.db ≡ tables (delete_volume host vh volid w).1.db
      → IsAnswered (asked w')
      → ((delete_volume host vh volid w).0 ≡ err internal)
        × ((delete_volume host vh volid w').0 ≡ ok tt)
        × ((delete_volume host vh volid w').1.os ≡ w'.os)
  unfolding remove_volume
  delete_volume_retry w w' vol e first_found found quiet done stuck same answered =
      let removed =
        delete_volume_not_rolled_back host laws vh volid (read w) found e quiet done stuck in
      let reached = delete_volume_present w vol first_found in
      let ends : (remove_volume host vh volid (read w)).1
          ≡ (Store.delete_volume host vh volid (read w)).1 =
        ground arith in
      let gone : first (has_id volid) (tables w'.db).volumes ≡ none =
        rw (same, reached, ends) removed.1 in
      let again = delete_volume_absent w' answered gone in (ground arith, again.0, again.2)
