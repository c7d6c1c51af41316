-- ===== src/Volumes/Paths.antt =====
-- Where a volume and its link lie below the data root.
pub mod Layout
use csi_sharedhostpath.Base.{ℕ, ◌-◌, List, [], ◌∷◌, ◌++◌, Text, take, drop}
use csi_sharedhostpath.FilePath.{join}
use csi_sharedhostpath.Host.Rows.{Volume}

-- The fields of `VolumeHelper` but for the database, which is a parameter of the operations.
pub record VolumeHelper : Type 0 where
  pub vols_path : Text
  pub syms_path : Text

-- `s[lo:hi]`, which panics in Go where the text is shorter.
abbrev pub slice : Text → ℕ → ℕ → Text
slice s lo hi = take (hi - lo) (drop lo s)

-- The directory of a volume: `vols_path`, then three times two characters of the identifier.
unfoldable pub volume_prefix : Text → Text → Text
volume_prefix vols_path volid =
    vols_path
    ++ (b'/' ∷ (slice volid 0 2 ++ (b'/' ∷ (slice volid 2 4 ++ (b'/' ∷ slice volid 4 6)))))

unfoldable pub volume_path : Text → Text → Text
unfolding volume_prefix join
volume_path vols_path volid = join (volume_prefix vols_path volid) volid

unfoldable pub symlink_dir : VolumeHelper → Volume → Text
unfolding join
symlink_dir vh vol = join vh.syms_path vol.ns_name

unfoldable pub symlink_file : VolumeHelper → Volume → Text
unfolding symlink_dir
symlink_file vh vol = join (symlink_dir vh vol) vol.pvc_name
