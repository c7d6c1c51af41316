-- ===== src/Volumes/Store/Delete.antt =====
-- What `delete_volume` leaves in the table.
use csi_sharedhostpath.Base.{not, Option, none, some, List, [], ◌∷◌, ◌≡◌, ◌∙◌, arith, Text, text_eq}
use csi_sharedhostpath.Base.Run.{ok, err}
use csi_sharedhostpath.Host.Db.Matching.{first-keep-not}
use csi_sharedhostpath.Host.Rows.{Volume}
use csi_sharedhostpath.Host.Db.{Err}
use csi_sharedhostpath.Host.Db.Laws.{DbLaws, Tables, after, first, keep, has_id}
use csi_sharedhostpath.Host.World.{World, Host}
use csi_sharedhostpath.Volumes.Paths.{VolumeHelper, symlink_file}
use csi_sharedhostpath.Volumes.Store.{delete_volume}
use csi_sharedhostpath.Volumes.Store.Expand.{commit_empty}

abbrev pub without_volume : Text → Tables → Tables
without_volume volid t = record t { volumes = keep (λ v. not (has_id volid v)) t.volumes }

-- The first row of an identifier has it.
pub first-has_id :
    (volid : Text) (l : List Volume) (v : Volume)
    → first (has_id volid) l ≡ some v
    → v.vol_id ≡ volid
first-has_id volid [] v e = cc
first-has_id volid (x ∷ l) v e = ground (arith, first-has_id volid l v)

module _ {D F : Type 0} (host : Host D F) (laws : DbLaws host.db) where
  open laws use {tables}

  module _ (vh : VolumeHelper) (volid : Text) (w : World D F) {vol : Volume}
      (found : (host.db.first_volume_by_id volid w.db).0 ≡ ok vol) where
    abbrev read : D
    read = (host.db.first_volume_by_id volid w.db).1

    abbrev begun : D
    begun = (host.db.begin read).1

    abbrev deleted : D
    deleted = (host.db.delete_volumes vol.vol_id begun).1

    -- The error of the statement that deletes the row.
    abbrev pub statement_error : Option Err
    statement_error = (host.db.delete_volumes vol.vol_id begun).0

    -- The removal of the files, behind the removal of the link.
    abbrev pub removal : Option Err × F
    removal = host.os.remove_all vol.vol_path (host.os.remove (symlink_file vh vol) w.os).1

    -- For a volume that the query found, if the handle has no error after Begin: the row is gone
    -- if the statement that deletes it succeeded, also where the files could not be removed or
    -- the commit failed, and else the tables are as before.
    pub delete_volume-tables :
        host.db.handle_error begun ≡ none
        → tables (delete_volume host vh volid w).1.db
          ≡ after statement_error (without_volume volid (tables w.db)) (tables w.db)
    unfolding delete_volume
    delete_volume-tables quiet =
        let tx = (host.db.begin read).0 in
        ground (
          arith,
          laws.first_by_id volid w.db,
          first-has_id volid (tables w.db).volumes vol,
          laws.begin_lem read,
          laws.delete_by_id vol.vol_id begun,
          laws.delete_by_id_rows tx vol.vol_id begun,
          commit_empty host laws tx deleted,
          laws.rollback_lem tx deleted,
        )

    pub delete_volume_result :
        host.db.handle_error begun ≡ none
        → ((delete_volume host vh volid w).1.os ≡ removal.1)
          × ((e : Err) → removal.0 ≡ some e → (delete_volume host vh volid w).0 ≡ some e)
          × (removal.0 ≡ none
              → (delete_volume host vh volid w).0
                ≡ (host.db.commit (host.db.begin read).0 deleted).0)
    unfolding delete_volume
    delete_volume_result quiet = (ground arith, λ e failed. ground arith, λ clear. ground arith)

    -- For a volume that the query found, if the handle has no error after Begin: if the files
    -- cannot be removed after the row was deleted, the call reports the error and the volume is
    -- no longer in the table; the rollback takes nothing back.
    pub delete_volume_not_rolled_back :
        (e : Err)
        → host.db.handle_error begun ≡ none
        → statement_error ≡ none
        → removal.0 ≡ some e
        → ((delete_volume host vh volid w).0 ≡ some e)
          × (first (has_id volid) (tables (delete_volume host vh volid w).1.db).volumes ≡ none)
    delete_volume_not_rolled_back e quiet done stuck = (
      (delete_volume_result quiet).1 e stuck,
      rw (delete_volume-tables quiet, done) (first-keep-not (has_id volid) (tables w.db).volumes),
    )

    -- For a volume that the query found, if the handle has no error after Begin: if the statement
    -- that deletes the row fails, the files can be removed and the commit succeeds, then the call
    -- succeeds, the tables are as before, and the files have been removed.
    delete_volume_drops_error :
        (e : Err)
        → host.db.handle_error begun ≡ none
        → statement_error ≡ some e
        → removal.0 ≡ none
        → (host.db.commit (host.db.begin read).0 deleted).0 ≡ none
        → ((delete_volume host vh volid w).0 ≡ none)
          × (tables (delete_volume host vh volid w).1.db ≡ tables w.db)
          × ((delete_volume host vh volid w).1.os ≡ removal.1)
    delete_volume_drops_error e quiet broken clear committed = (
      (delete_volume_result quiet).2 clear ∙ committed,
      delete_volume-tables quiet ∙ rw broken,
      (delete_volume_result quiet).0,
    )

  -- If the query for the volume fails, the deletion returns its error, and neither the tables nor
  -- the files have changed.
  pub delete_volume_missing :
      (vh : VolumeHelper) (volid : Text) (w : World D F) (e : Err)
      → (host.db.first_volume_by_id volid w.db).0 ≡ err e
      → ((delete_volume host vh volid w).0 ≡ some e)
        × (tables (delete_volume host vh volid w).1.db ≡ tables w.db)
        × ((delete_volume host vh volid w).1.os ≡ w.os)
  unfolding delete_volume
  delete_volume_missing vh volid w e missing =
      (ground arith, ground (arith, laws.first_by_id volid w.db), ground arith)
