-- ===== src/FilePath.antt =====
-- `filepath.Clean`, `filepath.Join` and `filepath.IsAbs` on Unix, which the helpers build the
-- paths of volumes and links with.
pub mod Laws
use csi_sharedhostpath.Base.{
  ℕ, Bool, true, false, ◌&&◌, ◌||◌, not, List, [], ◌∷◌, ◌++◌, Text, ◌==◌, nat_eq, text_eq,
  if◌then◌else◌,
}
use csi_sharedhostpath.Base.Strings.{codes, is_empty}

abbrev extend_first : ℕ → List Text → List Text
extend_first c [] = (c ∷ []) ∷ []
extend_first c (part ∷ rest) = (c ∷ part) ∷ rest

-- The parts between the slashes, empty ones included.
unfoldable pub split_parts : Text → List Text
split_parts [] = [] ∷ []
split_parts (c ∷ s) =
    let rest = split_parts s in if c == b'/' then [] ∷ rest else extend_first c rest

-- One part after the parts kept so far, the last of them first: an empty part and `.` are
-- dropped, `..` removes a part that is not `..` itself, and is dropped at the root.
unfoldable pub keep_part : Bool → List Text → Text → List Text
keep_part rooted kept part =
    if is_empty part || part == codes "."
    then kept
    else if not (part == codes "..")
    then part ∷ kept
    else elim kept [
      | [] ↦ if rooted then [] else part ∷ []
      | last ∷ before ↦ if last == codes ".." then part ∷ last ∷ before else before
    ]

unfoldable pub keep_parts : Bool → List Text → List Text → List Text
unfolding keep_part
keep_parts rooted kept [] = kept
keep_parts rooted kept (part ∷ parts) = keep_parts rooted (keep_part rooted kept part) parts

-- The kept parts, last first, in front of `rest`, with slashes between them.
unfoldable pub join_onto : List Text → Text → Text
join_onto [] rest = rest
join_onto (part ∷ []) rest = part ++ rest
join_onto (part ∷ before ∷ kept) rest = join_onto (before ∷ kept) (b'/' ∷ (part ++ rest))

unfoldable pub is_abs : Text → Bool
is_abs [] = false
is_abs (c ∷ s) = c == b'/'

finish_clean : Bool → Text → Text
finish_clean true path = b'/' ∷ path
finish_clean false [] = codes "."
finish_clean false (c ∷ path) = c ∷ path

-- `filepath.Clean`
unfoldable pub clean : Text → Text
unfolding is_abs split_parts keep_parts join_onto finish_clean
clean path =
    finish_clean (is_abs path) (join_onto (keep_parts (is_abs path) [] (split_parts path)) [])

-- `filepath.Join` of two elements.
unfoldable pub join : Text → Text → Text
unfolding clean
join [] [] = []
join [] (c ∷ b) = clean (c ∷ b)
join (c ∷ a) b = clean ((c ∷ a) ++ (b'/' ∷ b))
