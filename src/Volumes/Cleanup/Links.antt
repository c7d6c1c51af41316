-- ===== src/Volumes/Cleanup/Links.antt =====
-- The links after `ReBuildSymLinks`: what is relied on of the calls that make them, and what the
-- loop over the volumes makes of the directory of the links.
pub mod Loop
pub mod Rebuilt
use mathlib.Core.List.{append_assoc}
use csi_sharedhostpath.Base.{
  Bool, true, false, Option, none, some, Option-cases, List, [], ◌∷◌, ◌++◌, ◌≡◌, ◌≢◌, ◌⊎◌, inl, inr,
  sym, ap, ◌∙◌, arith, Text,
}
use csi_sharedhostpath.FilePath.{join}
use csi_sharedhostpath.FilePath.Laws.{
  IsPart, AllParts, AllParts-append, abs_path, abs_path-append, join-abs_path,
}
use csi_sharedhostpath.Host.Db.{Err}
use csi_sharedhostpath.Host.Os.{Os}
use csi_sharedhostpath.Host.Rows.{Volume}
use csi_sharedhostpath.Volumes.Files.{link_volume}
use csi_sharedhostpath.Volumes.Paths.{VolumeHelper, symlink_dir, symlink_file}

-- What lies at a path: a link with its text, or something else.
pub data Entry : Type 0 where
  linked : Text → Entry
  other : Entry

-- The paths of a name in the directory of the links, and of a name below that.
abbrev pub at_name : Text → Text → Text
at_name root ns = root ++ (b'/' ∷ ns)

abbrev pub below_name : Text → Text → Text → Text
below_name root ns pvc = at_name root ns ++ (b'/' ∷ pvc)

-- The two levels below a directory. `IsPlain` says that no link lies on the first level, so that
-- different names lead to different places; `has_dir` and `taken` say whether a directory and
-- whether anything lies at a name of the first level; `entry` is what lies on the second. Every call
-- may fail. A call of `symlink` that succeeds made the link, and never takes the place of what is
-- there; a call of `mkdir_all` that succeeds made the directory or found it, and one that fails may
-- have made a part of the path.
pub record LinkLaws {F : Type 0} (os : Os F) (root : Text) : Type 1 where
  pub IsPlain : F → Type 0
  pub has_dir : F → Text → Bool
  pub taken : F → Text → Bool
  pub entry : F → Text → Text → Option Entry
  pub remove_all_lem :
      (s : F)
      → let (e, s') = os.remove_all root s in
        e ≡ none
        → IsPlain s'
          × ((ns : Text) → taken s' ns ≡ false)
          × ((ns pvc : Text) → entry s' ns pvc ≡ none)
  pub mkdir_root_lem :
      (s : F)
      → let s' = (os.mkdir_all root s).1 in
        IsPlain s
        → IsPlain s'
          × ((ns : Text) → taken s' ns ≡ taken s ns)
          × ((ns pvc : Text) → entry s' ns pvc ≡ entry s ns pvc)
  pub mkdir_all_plain :
      (ns : Text) (s : F) → IsPart ns → IsPlain s → IsPlain (os.mkdir_all (at_name root ns) s).1
  pub mkdir_all_done :
      (ns : Text) (s : F)
      → let (e, s') = os.mkdir_all (at_name root ns) s in
        IsPart ns → IsPlain s → e ≡ none → has_dir s' ns ≡ true
  pub mkdir_all_kept :
      (ns m n : Text) (s : F)
      → let s' = (os.mkdir_all (at_name root ns) s).1 in
        IsPart ns
        → IsPart m
        → IsPart n
        → IsPlain s
        → (entry s' m n ≡ entry s m n)
          × (has_dir s m ≡ true → has_dir s' m ≡ true)
          × ((taken s' m ≡ taken s m) ⊎ (has_dir s' m ≡ true))
  pub symlink_plain :
      (old ns pvc : Text) (s : F)
      → IsPart ns
      → IsPart pvc
      → IsPlain s
      → IsPlain (os.symlink old (below_name root ns pvc) s).1
  pub symlink_done :
      (old ns pvc : Text) (s : F)
      → let (e, s') = os.symlink old (below_name root ns pvc) s in
        IsPart ns → IsPart pvc → IsPlain s → e ≡ none → entry s' ns pvc ≡ some (linked old)
  pub symlink_kept :
      (old ns pvc m n : Text) (s : F)
      → let s' = (os.symlink old (below_name root ns pvc) s).1 in
        IsPart ns
        → IsPart pvc
        → IsPart m
        → IsPart n
        → IsPlain s
        → ((entry s' m n ≡ entry s m n)
            ⊎ ((ns ≡ m) × (pvc ≡ n) × (entry s m n ≡ none) × (entry s' m n ≡ some (linked old))))
          × (has_dir s' m ≡ has_dir s m)
          × (taken s' m ≡ taken s m)

-- The namespace and the claim of a volume are plain names.
abbrev pub HasPlainNames : Volume → Type 0
HasPlainNames v = IsPart v.ns_name × IsPart v.pvc_name

module _ (vh : VolumeHelper) (p : Text) (ps : List Text) (syms : vh.syms_path ≡ abs_path (p ∷ ps))
    (parts : AllParts (p ∷ ps)) (v : Volume) (names : HasPlainNames v) where
  dir_path : symlink_dir vh v ≡ abs_path (p ∷ (ps ++ (v.ns_name ∷ [])))
  unfolding symlink_dir
  dir_path = ap (λ (s : Text). join s v.ns_name) syms ∙ join-abs_path p ps v.ns_name parts names.0

  pub dir_at : symlink_dir vh v ≡ at_name vh.syms_path v.ns_name
  dir_at =
      dir_path
      ∙ sym (abs_path-append (p ∷ ps) v.ns_name)
      ∙ ap (λ (s : Text). s ++ (b'/' ∷ v.ns_name)) (sym syms)

  pub file_at : symlink_file vh v ≡ below_name vh.syms_path v.ns_name v.pvc_name
  unfolding symlink_file
  file_at =
      ap (λ (s : Text). join s v.pvc_name) dir_path
      ∙ join-abs_path p (ps ++ (v.ns_name ∷ [])) v.pvc_name
          (AllParts-append (p ∷ ps) (v.ns_name ∷ []) parts (names.0, tt)) names.1
      ∙ sym (abs_path-append (p ∷ (ps ++ (v.ns_name ∷ []))) v.pvc_name)
      ∙ ap (λ (s : Text). s ++ (b'/' ∷ v.pvc_name)) (sym dir_path ∙ dir_at)

module _ {F : Type 0} (os : Os F) (root : Text) where
  abbrev pub made : Volume → F → Option Err × F
  made u s = os.mkdir_all (at_name root u.ns_name) s

  abbrev pub link_made : Volume → F → Option Err × F
  link_made u s = os.symlink u.vol_path (below_name root u.ns_name u.pvc_name) s

-- One volume of the loop.
module _ {F : Type 0} (os : Os F) (vh : VolumeHelper) (laws : LinkLaws os vh.syms_path) (p : Text)
    (ps : List Text) (syms : vh.syms_path ≡ abs_path (p ∷ ps)) (parts : AllParts (p ∷ ps)) where
  open laws use {IsPlain, has_dir, taken, entry}

  pub link_volume_steps :
      (u : Volume) (s : F)
      → HasPlainNames u
      → (((made os vh.syms_path u s).0 ≡ none)
          × ((link_volume os vh u s).1
              ≡ (link_made os vh.syms_path u (made os vh.syms_path u s).1).1))
        ⊎ (((made os vh.syms_path u s).0 ≢ none)
            × ((link_volume os vh u s).1 ≡ (made os vh.syms_path u s).1))
  unfolding link_volume
  link_volume_steps u s names =
      let dir = dir_at vh p ps syms parts u names in
      let file = file_at vh p ps syms parts u names in
      elim (Option-cases (made os vh.syms_path u s).0) [
        | inl done ↦ inl (done, ground (arith, dir, file))
        | inr (e, fails) ↦ inr (λ h. cc, ground (arith, dir, file))
      ]
