-- ===== src/Volumes/Cleanup.antt =====
-- `ReBuildSymLinks` and `CleanUpDanglingVolumes`, the two jobs of the command line.
pub mod Dangling
pub mod Links
pub mod Tables
use csi_sharedhostpath.Base.{
  ℕ, Bool, true, false, Option, none, some, List, [], ◌∷◌, ◌++◌, Text, if◌then◌else◌,
}
use csi_sharedhostpath.Base.Run.{
  Result, ok, err, Run, ◌>>=◌, ◌>>◌, return, act, ignore, try, check, give, call,
}
use csi_sharedhostpath.Base.Strings.{codes}
use csi_sharedhostpath.FilePath.{join}
use csi_sharedhostpath.Host.Rows.{Volume}
use csi_sharedhostpath.Host.Db.{Err, Rows}
use csi_sharedhostpath.Host.Os.{Os}
use csi_sharedhostpath.Host.World.{World, Host, on_db, on_os, find, find_by_handle}
use csi_sharedhostpath.Volumes.Paths.{VolumeHelper}
use csi_sharedhostpath.Volumes.Files.{link_volume}

-- The pattern of the volumes' paths.
abbrev pub volumes_pattern : Text → Text
volumes_pattern vols_path = vols_path ++ codes "/*/*/*/*"

-- Phase 1 looks for a deleted volume here.
unfoldable pub deleted_path : VolumeHelper → Volume → Text
unfolding join
deleted_path vh vol = join vh.vols_path vol.vol_id

module _ {F : Type 0} (os : Os F) (vh : VolumeHelper) where
  -- The links of the volumes in turn; the error of the last, or the error before the loop.
  pub link_volumes : Option Err → List Volume → F → Option Err × F
  link_volumes last [] s = (last, s)
  link_volumes last (vol ∷ vols) s = let (e, s') = link_volume os vh vol s in link_volumes e vols s'

  -- Phase 1 for one volume; the error of the removal is logged only.
  remove_deleted : Volume → F → F
  unfolding deleted_path
  remove_deleted vol s =
      let (fi, s') = os.stat (deleted_path vh vol) s in
      elim fi [ ok info ↦ (os.remove_all (deleted_path vh vol) s').1 | err e ↦ s' ]

  unfoldable pub remove_all_deleted : List Volume → F → F
  unfolding remove_deleted
  remove_all_deleted [] s = s
  remove_all_deleted (vol ∷ vols) s = remove_all_deleted vols (remove_deleted vol s)

module _ {D F : Type 0} (host : Host D F) (vh : VolumeHelper) where
  abbrev W : Type 0
  W = World D F

  -- `ReBuildSymLinks`. Where the volumes cannot be read, the variable that is returned is nil.
  unfoldable pub rebuild_sym_links : W → Option Err × W
  unfolding link_volumes find
  rebuild_sym_links = call (do
    check (on_os (host.os.remove_all vh.syms_path)) (give some)
    check (on_os (host.os.mkdir_all vh.syms_path)) (give some)
    vols ← try (find (on_db host.db.find_volumes)) (give (λ e. none))
    act (on_os (link_volumes host.os vh none vols)))

  -- Phase 2 for one path: it is removed if no row has it. The number of the rows is looked at, and
  -- not the error.
  remove_dangling : Text → W → W
  remove_dangling path w =
      let ((rows, e), w') = on_db (host.db.find_volumes_by_path path) w in
      elim rows [ [] ↦ (on_os (host.os.remove_all path) w').1 | vol ∷ vols ↦ w' ]

  unfoldable pub remove_all_dangling : List Text → W → W
  unfolding remove_dangling
  remove_all_dangling [] w = w
  remove_all_dangling (path ∷ paths) w = remove_all_dangling paths (remove_dangling path w)

  -- A step that returns nothing.
  abbrev update : (W → W) → W → Unit {0} × W
  update f w = (tt, f w)

  -- `filepath.Glob`, or its error.
  abbrev globbed : Text → W → Result Err (List Text) × W
  globbed pattern w =
      let ((paths, e), w') = on_os (host.os.glob pattern) w in
      elim e [ none ↦ (ok paths, w') | some failure ↦ (err failure, w') ]

  -- `CleanUpDanglingVolumes`
  unfoldable pub clean_up_dangling_volumes : W → Option Err × W
  unfolding remove_all_deleted remove_all_dangling rebuild_sym_links find_by_handle
  clean_up_dangling_volumes = call (do
    vols ← try (find_by_handle host (on_db host.db.find_deleted_volumes)) (give some)
    act (update (λ w. record w { os = remove_all_deleted host.os vh vols w.os }))
    fs ← try (globbed (volumes_pattern vh.vols_path)) (give some)
    act (update (remove_all_dangling fs))
    act rebuild_sym_links)
