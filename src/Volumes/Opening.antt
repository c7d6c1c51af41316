-- ===== src/Volumes/Opening.antt =====
-- `NewVolumeHelper`: the two directories below the data root, and the database.
pub mod Apart
use csi_sharedhostpath.Base.{Option, Text}
use csi_sharedhostpath.Base.Run.{Result, ok, err, Run, ◌>>=◌, ◌>>◌, return, act, check, give, call}
use csi_sharedhostpath.Base.Strings.{codes}
use csi_sharedhostpath.FilePath.{join}
use csi_sharedhostpath.Host.Db.{Err}
use csi_sharedhostpath.Host.World.{World, Host, on_db, on_os}
use csi_sharedhostpath.Volumes.Paths.{VolumeHelper}

abbrev pub volume_base : Text
volume_base = codes "vols"

abbrev pub symlink_base : Text
symlink_base = codes "syms"

-- `filepath.Abs`, whose error is dropped, `gorm.Open` of a source, `AutoMigrate` of the four
-- tables, and `Close` of the connection.
pub record Opener (D F : Type 0) : Type 0 where
  pub abs : Text → F → Text × F
  pub open_db : Text → D → Option Err × D
  pub auto_migrate : D → Option Err × D
  pub close : D → Option Err × D

module _ {D F : Type 0} (host : Host D F) (opener : Opener D F) where
  abbrev W : Type 0
  W = World D F

  -- `NewVolumeHelper`
  unfoldable pub new_volume_helper : Text → Text → W → Result Err VolumeHelper × W
  unfolding join
  new_volume_helper data_root dsn = call (do
    root ← act (on_os (opener.abs data_root))
    check (on_os (host.os.mkdir_all (join root volume_base))) (give err)
    check (on_os (host.os.mkdir_all (join root symlink_base))) (give err)
    check (on_db (opener.open_db dsn)) (give err)
    check (on_db opener.auto_migrate) (give err)
    return (ok (record { vols_path = join root volume_base; syms_path = join root symlink_base })))
