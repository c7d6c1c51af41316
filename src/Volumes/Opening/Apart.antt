-- ===== src/Volumes/Opening/Apart.antt =====
-- The volumes and the links lie apart.
use mathlib.Core.List.{append_assoc}
use csi_sharedhostpath.Base.{◌≡◌, ◌≢◌, sym, ap, ◌∙◌, arith, List, [], ◌∷◌, ◌++◌, Text, ℕ}
use csi_sharedhostpath.Base.Run.{ok}
use csi_sharedhostpath.FilePath.{join}
use csi_sharedhostpath.FilePath.Laws.{
  IsPart, AllParts, AllParts-append, abs_path, abs_path_onto-append, abs_path_onto-text,
  abs_path_onto-cancel, join-abs_path,
}
use csi_sharedhostpath.Host.World.{World, Host}
use csi_sharedhostpath.Volumes.Paths.{VolumeHelper, volume_path}
use csi_sharedhostpath.Volumes.Paths.Layout.{shards, volume_path-abs_path}
use csi_sharedhostpath.Volumes.Opening.{Opener, new_volume_helper, volume_base, symlink_base}

volume_base-IsPart : IsPart volume_base
volume_base-IsPart = ground arith

symlink_base-IsPart : IsPart symlink_base
symlink_base-IsPart = ground arith

second : Text → ℕ
second (c ∷ d ∷ s) = d
second _ = 0

-- Below the directory of the volumes and at or below the directory of the links are different
-- texts.
below_base :
    (ps : List Text) (more : List Text) (rest : Text)
    → abs_path ((ps ++ (volume_base ∷ [])) ++ more) ≢ abs_path (ps ++ (symlink_base ∷ [])) ++ rest
unfolding second
below_base ps more rest same =
    let here : abs_path ((volume_base ∷ []) ++ more) ≡ abs_path (symlink_base ∷ []) ++ rest =
      abs_path_onto-cancel ps (
        sym (abs_path_onto-append ps ((volume_base ∷ []) ++ more) [])
        ∙ ap abs_path (sym (append_assoc ps (volume_base ∷ []) more))
        ∙ same
        ∙ ap (λ (s : Text). s ++ rest) (abs_path_onto-append ps (symlink_base ∷ []) [])
        ∙ abs_path_onto-text ps (abs_path (symlink_base ∷ [])) rest) in
    omega (arith, ap second here)

module _ {D F : Type 0} (host : Host D F) (opener : Opener D F) where
  pub new_volume_helper_opened :
      (data_root dsn : Text) (w : World D F) (vh : VolumeHelper)
      → (new_volume_helper host opener data_root dsn w).0 ≡ ok vh
      → vh ≡ (record {
        vols_path = join (opener.abs data_root w.os).0 volume_base;
        syms_path = join (opener.abs data_root w.os).0 symlink_base;
      })
  unfolding new_volume_helper
  new_volume_helper_opened data_root dsn w vh opened = ground arith

  -- Where a volume helper was opened at a clean absolute path, no volume whose identifier and its
  -- three directories are plain names has a path that begins with the path of the directory of
  -- the links.
  volume_path-off-links :
      (data_root dsn : Text) (w : World D F) (vh : VolumeHelper) (p : Text) (ps : List Text)
      → (new_volume_helper host opener data_root dsn w).0 ≡ ok vh
      → (opener.abs data_root w.os).0 ≡ abs_path (p ∷ ps)
      → AllParts (p ∷ ps)
      → (volid rest : Text) → AllParts (shards volid)
      → IsPart volid
      → volume_path vh.vols_path volid ≢ vh.syms_path ++ rest
  volume_path-off-links data_root dsn w vh p ps opened absolute parts volid rest dirs id same =
      let vols : vh.vols_path ≡ abs_path (p ∷ (ps ++ (volume_base ∷ []))) =
        ap (λ v. v.vols_path) (new_volume_helper_opened data_root dsn w vh opened)
        ∙ ap (λ (s : Text). join s volume_base) absolute
        ∙ join-abs_path p ps volume_base parts volume_base-IsPart in
      let syms : vh.syms_path ≡ abs_path (p ∷ (ps ++ (symlink_base ∷ []))) =
        ap (λ v. v.syms_path) (new_volume_helper_opened data_root dsn w vh opened)
        ∙ ap (λ (s : Text). join s symlink_base) absolute
        ∙ join-abs_path p ps symlink_base parts symlink_base-IsPart in
      let all : AllParts (p ∷ (ps ++ (volume_base ∷ []))) =
        AllParts-append (p ∷ ps) (volume_base ∷ []) parts (volume_base-IsPart, tt) in
      below_base (p ∷ ps) (shards volid ++ (volid ∷ [])) rest (
        sym (volume_path-abs_path p (ps ++ (volume_base ∷ [])) volid all dirs id)
        ∙ ap (λ (s : Text). volume_path s volid) (sym vols)
        ∙ same
        ∙ ap (λ (s : Text). s ++ rest) syms)
