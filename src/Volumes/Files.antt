-- ===== src/Volumes/Files.antt =====
-- The directory or the file behind a volume, and the link to it.
use csi_sharedhostpath.Base.{
  Bool, true, false, Option, none, some, List, [], ◌∷◌, ◌++◌, Text, if◌then◌else◌,
}
use csi_sharedhostpath.Base.Int.{ℤ}
use csi_sharedhostpath.Base.Decimal.{format_int}
use csi_sharedhostpath.Base.Run.{Result, ok, err}
use csi_sharedhostpath.Base.Strings.{codes}
use csi_sharedhostpath.Host.Rows.{Volume}
use csi_sharedhostpath.Host.Db.{Err, is_not_exist}
use csi_sharedhostpath.Host.Os.{Os}
use csi_sharedhostpath.Volumes.Paths.{VolumeHelper, symlink_dir, symlink_file}

-- The command that gives a sparse file its size.
unfoldable pub dd_command : ℤ → Text → List Text
unfolding format_int
dd_command size path =
    codes "dd"
    ∷ codes "if=/dev/null"
    ∷ codes "bs=1"
    ∷ codes "count=0"
    ∷ (codes "seek=" ++ format_int size)
    ∷ (codes "of=" ++ path)
    ∷ []

module _ {F : Type 0} (os : Os F) where
  unfoldable pub resize_file : ℤ → Text → F → Option Err × F
  resize_file size path s = let ((output, e), s') = os.command (dd_command size path) s in (e, s')

  -- The file or the directory of a volume that has none.
  unfoldable pub make_volume : Volume → F → Option Err × F
  make_volume vol =
      if vol.is_block then resize_file vol.capacity vol.vol_path else os.mkdir_all vol.vol_path

  abbrev made : Option Err → Result Err Bool
  made none = ok true
  made (some e) = err e

  -- `PopulateVolumeIfRequired`
  unfoldable pub populate_volume_if_required : Volume → F → Result Err Bool × F
  unfolding make_volume
  populate_volume_if_required vol s =
      let (found, s') = os.lstat vol.vol_path s in
      let (done, s'') = make_volume vol s' in
      elim found [
        | ok info ↦ (ok false, s')
        | err e ↦ if is_not_exist e then (made done, s'') else (err e, s')
      ]

  -- `os.MkdirAll(symlink_dir)`, and `os.Symlink` if that succeeds; the last error.
  unfoldable pub link_volume : VolumeHelper → Volume → F → Option Err × F
  link_volume vh vol s =
      let (e, s') = os.mkdir_all (symlink_dir vh vol) s in
      elim e [
        | none ↦ os.symlink vol.vol_path (symlink_file vh vol) s'
        | some failure ↦ (some failure, s')
      ]
