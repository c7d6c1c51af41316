-- ===== src/Volumes/Store.antt =====
-- Creating, reading, growing and deleting a volume.
pub mod Create
pub mod Expand
pub mod Delete
use csi_sharedhostpath.Base.{
  ℕ, Bool, true, false, not, Option, none, some, List, [], ◌∷◌, ◌++◌, Text, ◌==◌, if◌then◌else◌,
}
use csi_sharedhostpath.Base.Int.{ℤ, int_eq}
use csi_sharedhostpath.Base.Run.{
  Result, ok, err, Run, ◌>>=◌, ◌>>◌, return, act, ignore, try, check, give, when, return_if, call,
}
use csi_sharedhostpath.Base.Strings.{codes}
use csi_sharedhostpath.FilePath.{join}
use csi_sharedhostpath.Host.Rows.{Volume}
use csi_sharedhostpath.Host.Db.{Err, failed}
use csi_sharedhostpath.Host.World.{World, Host, on_db, on_os}
use csi_sharedhostpath.Volumes.Paths.{VolumeHelper, volume_prefix, volume_path, symlink_file}
use csi_sharedhostpath.Volumes.Files.{populate_volume_if_required, link_volume, resize_file}

-- The row that `CreateVolume` inserts.
unfoldable pub new_volume : VolumeHelper → Text → Text → Text → Text → Text → ℤ → Bool → Volume
unfolding volume_path
new_volume vh volid volname pvname pvcname nsname capacity isblock = record {
  vol_id = volid;
  vol_name = volname;
  pv_name = pvname;
  pvc_name = pvcname;
  ns_name = nsname;
  capacity = capacity;
  is_block = isblock;
  vol_path = volume_path vh.vols_path volid;
}

module _ {D F : Type 0} (host : Host D F) where
  abbrev W : Type 0
  W = World D F

  -- `vh.db.Error`, read after `Begin`.
  abbrev handle_error : W → Option Err × W
  handle_error w = (host.db.handle_error w.db, w)

  abbrev pub rollback : {A : Type 0} → ℕ → A → W → A × W
  rollback tx a w = (a, record w { db = host.db.rollback tx w.db })

  -- `tx.Rollback()`, then the removal of the volume and of its link.
  undo_create : VolumeHelper → ℕ → Volume → Err → W → Result Err Volume × W
  undo_create vh tx vol e w =
      let undone = (rollback tx tt w).1 in
      let removed = (on_os (host.os.remove_all vol.vol_path) undone).1 in
      (err e, (on_os (host.os.remove_all (symlink_file vh vol)) removed).1)

  unfoldable pub create_volume :
      VolumeHelper → Text → Text → Text → Text → Text → ℤ → Bool → W → Result Err Volume × W
  unfolding new_volume undo_create
  create_volume vh volid volname pvname pvcname nsname capacity isblock = call (do
    let vol = new_volume vh volid volname pvname pvcname nsname capacity isblock
    check (on_os (host.os.mkdir_all (volume_prefix vh.vols_path volid))) (give err)
    tx ← act (on_db host.db.begin)
    check handle_error (give err)
    check (on_db (host.db.tx_create_volume tx vol)) (λ e. rollback tx (err e))
    populated ← try (on_os (populate_volume_if_required host.os vol)) (λ e. rollback tx (err e))
    ignore (on_os (link_volume host.os vh vol))
    check (on_db (host.db.commit tx)) (undo_create vh tx vol)
    return (ok vol))

  -- `GetVolume`
  unfoldable pub get_volume : Text → W → Result Err Volume × W
  get_volume volid = on_db (host.db.first_volume_by_id volid)

  -- `GetVolumeIdByName`
  unfoldable pub get_volume_id_by_name : Text → W → Result Err Text × W
  get_volume_id_by_name volname = call (do
    vol ← try (on_db (host.db.first_volume_by_name volname)) (give err)
    return (ok vol.vol_id))

  -- The growth of a block volume's file, which must have the old capacity as its size.
  grow_file : ℕ → Volume → ℤ → Run W (Option Err) (Unit {0})
  grow_file tx vol capacity = do
    fi ←
        try (on_os (host.os.stat vol.vol_path))
          (λ e. rollback tx (some (failed (codes "cannot stat file"))))
    when (not (fi.size == vol.capacity)) (λ w.
        let (r, w') = rollback tx (some (failed (codes "file size dismatch"))) w in (return r w'))
    check (on_os (resize_file host.os capacity vol.vol_path))
        (λ e. rollback tx (some (failed (codes "cannot expand volume file"))))

  -- `UpdateVolumeCapacity`. The statement that writes the capacity runs on `vh.db`.
  unfoldable pub update_volume_capacity : Volume → ℤ → W → Option Err × W
  unfolding grow_file
  update_volume_capacity vol capacity = call (do
    tx ← act (on_db host.db.begin)
    check handle_error (give some)
    check (on_db (host.db.update_volume_capacity vol.vol_id capacity)) (λ e. rollback tx (some e))
    when vol.is_block (grow_file tx vol capacity)
    act (on_db (host.db.commit tx)))

  -- `DeleteVolume`. The statement that deletes the row runs on `vh.db`, and its error is dropped.
  unfoldable pub delete_volume : VolumeHelper → Text → W → Option Err × W
  unfolding get_volume
  delete_volume vh volid = call (do
    vol ← try (get_volume volid) (give some)
    tx ← act (on_db host.db.begin)
    check handle_error (give some)
    ignore (on_db (host.db.delete_volumes vol.vol_id))
    ignore (on_os (host.os.remove (symlink_file vh vol)))
    check (on_os (host.os.remove_all vol.vol_path)) (λ e. rollback tx (some e))
    act (on_db (host.db.commit tx)))
