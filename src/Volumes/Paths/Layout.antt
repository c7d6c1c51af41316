-- ===== src/Volumes/Paths/Layout.antt =====
-- The layout of the volumes below the data root.
use mathlib.Core.List.{append-nil, append_assoc}
use csi_sharedhostpath.Base.{◌≤◌, List, [], ◌∷◌, ◌++◌, ◌≡◌, refl, sym, ap, ◌∙◌, arith, Text, length}
use csi_sharedhostpath.FilePath.{join}
use csi_sharedhostpath.FilePath.Laws.{
  IsPart, AllParts, AllParts-append, abs_path, abs_path_onto-append, abs_path_onto-text,
  abs_path_onto-cancel, join-abs_path,
}
use csi_sharedhostpath.Volumes.Paths.{slice, volume_prefix, volume_path}

-- The three directories of an identifier.
abbrev pub shards : Text → List Text
shards volid = slice volid 0 2 ∷ slice volid 2 4 ∷ slice volid 4 6 ∷ []

volume_prefix-abs_path :
    (ps : List Text) (volid : Text)
    → volume_prefix (abs_path ps) volid ≡ abs_path (ps ++ shards volid)
unfolding volume_prefix
volume_prefix-abs_path ps volid = simp (abs_path_onto-text, abs_path_onto-append, append-nil)

volume_path-join :
    (vols volid : Text) → volume_path vols volid ≡ join (volume_prefix vols volid) volid
unfolding volume_path
volume_path-join vols volid = refl

-- A volume lies below the directory of the volumes, under three directories of two characters
-- each, at its identifier. The directory is a clean absolute path, and the identifier and the
-- three directories are plain names.
pub volume_path-abs_path :
    (p : Text) (ps : List Text) (volid : Text)
    → AllParts (p ∷ ps)
    → AllParts (shards volid)
    → IsPart volid
    → volume_path (abs_path (p ∷ ps)) volid ≡ abs_path (p ∷ (ps ++ (shards volid ++ (volid ∷ []))))
volume_path-abs_path p ps volid h k i =
    volume_path-join (abs_path (p ∷ ps)) volid
    ∙ ap (λ (s : Text). join s volid) (volume_prefix-abs_path (p ∷ ps) volid)
    ∙ join-abs_path p (ps ++ shards volid) volid (AllParts-append (p ∷ ps) (shards volid) h k) i
    ∙ rw append_assoc

same_tail :
    (a b : Text)
    → 6 ≤ length a
    → 6 ≤ length b
    → abs_path (shards a ++ (a ∷ [])) ≡ abs_path (shards b ++ (b ∷ []))
    → a ++ [] ≡ b ++ []
same_tail (a1 ∷ a2 ∷ a3 ∷ a4 ∷ a5 ∷ a6 ∷ a) (b1 ∷ b2 ∷ b3 ∷ b4 ∷ b5 ∷ b6 ∷ b) la lb e = cc
same_tail _ _ la lb e = absurd (omega arith)

-- Two volumes with one path below a directory have one identifier. The directory is a clean
-- absolute path; both identifiers have six characters or more, and they and their three
-- directories are plain names.
pub volume_path-injective :
    (p : Text) (ps : List Text) (a b : Text)
    → AllParts (p ∷ ps)
    → AllParts (shards a)
    → IsPart a
    → 6 ≤ length a
    → AllParts (shards b)
    → IsPart b
    → 6 ≤ length b
    → volume_path (abs_path (p ∷ ps)) a ≡ volume_path (abs_path (p ∷ ps)) b
    → a ≡ b
volume_path-injective p ps a b h ha ia la hb ib lb e =
    let tail = λ (x : Text). shards x ++ (x ∷ []) in
    let paths : abs_path ((p ∷ ps) ++ tail a) ≡ abs_path ((p ∷ ps) ++ tail b) =
      sym (volume_path-abs_path p ps a h ha ia) ∙ e ∙ volume_path-abs_path p ps b h hb ib in
    let same = same_tail a b la lb (
      abs_path_onto-cancel (p ∷ ps) (
        sym (abs_path_onto-append (p ∷ ps) (tail a) [])
        ∙ paths
        ∙ abs_path_onto-append (p ∷ ps) (tail b) [])) in
    sym (append-nil a) ∙ same ∙ append-nil b
