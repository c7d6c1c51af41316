-- ===== src/Base/Strings.antt =====
-- What the code uses of Go's `strings` package and of `bufio.Scanner`, over the code points of a
-- text. A line is taken to fit the scanner's buffer of 64 KiB.
use Prim.Native.Nat.{ℕ, ◌+◌}
use Prim.Native.Char.{code}
use Prim.Native.String.{String}
use mathlib.Core.Path.{◌≡◌, refl}
use mathlib.Core.Logic.{◌≢◌}
use mathlib.Core.Bool.{Bool, true, false, ◌&&◌, ◌||◌}
use mathlib.Core.Option.{Option, none, some}
use mathlib.Core.List.{List, [], ◌∷◌, map}
use csi_sharedhostpath.Base.Tests.{Text, leb, ◌==◌, nat_eq, text_eq, if◌then◌else◌}

-- The code points of a literal.
abbrev pub codes : String → Text
codes String.[] = []
codes (String.◌∷◌ c s) = code c ∷ codes s

-- `len(s) == 0`, `s == ""`
abbrev pub is_empty : Text → Bool
is_empty [] = true
is_empty (c ∷ s) = false

pub is_empty-false : (s : Text) → s ≢ [] → is_empty s ≡ false
is_empty-false [] named = absurd (named refl)
is_empty-false (c ∷ s) named = refl

-- `strings.ToLower`, as far as a comparison with ASCII text sees it: two letters outside ASCII,
-- U+0130 and U+212A, have a lower case inside it, and the others are left as they are.
unfoldable pub lower : ℕ → ℕ
lower c =
    if leb b'A' c && leb c b'Z'
    then c + 32
    else if c == 0x130
    then b'i'
    else if c == 0x212a
    then b'k'
    else c

abbrev pub to_lower : Text → Text
to_lower = map lower

-- `strings.HasPrefix(s, p)`
unfoldable pub has_prefix : Text → Text → Bool
has_prefix s [] = true
has_prefix [] (c ∷ p) = false
has_prefix (d ∷ s) (c ∷ p) = d == c && has_prefix s p

-- `strings.HasSuffix(s, p)`: the text is `p`, or its tail has that suffix.
unfoldable pub has_suffix : Text → Text → Bool
has_suffix [] p = is_empty p
has_suffix (c ∷ s) p = (c ∷ s) == p || has_suffix s p

-- The text after a prefix of a known length.
abbrev skip : Text → Text → Text
skip s [] = s
skip [] (c ∷ p) = []
skip (d ∷ s) (c ∷ p) = skip s p

-- The texts before and after the first `sep`.
unfoldable pub cut : Text → Text → Option (Text × Text)
unfolding has_prefix
cut [] sep = if is_empty sep then some ([], []) else none
cut (c ∷ s) sep =
    let later = cut s sep in
    if has_prefix (c ∷ s) sep
    then some ([], skip (c ∷ s) sep)
    else elim later [ none ↦ none | some (before, after) ↦ some (c ∷ before, after) ]

-- `strings.SplitN(s, sep, 2)`
unfoldable pub split_n2 : Text → Text → List Text
unfolding cut
split_n2 s sep = elim (cut s sep) [ none ↦ s ∷ [] | some (before, after) ↦ before ∷ after ∷ [] ]

-- `unicode.IsSpace`
unfoldable pub is_space : ℕ → Bool
is_space c =
    (leb 9 c && leb c 13)
    || c == b' '
    || c == 0x85
    || c == 0xa0
    || c == 0x1680
    || (leb 0x2000 c && leb c 0x200a)
    || c == 0x2028
    || c == 0x2029
    || c == 0x202f
    || c == 0x205f
    || c == 0x3000

unfoldable pub trim_left : Text → Text
unfolding is_space
trim_left [] = []
trim_left (c ∷ s) = let rest = trim_left s in if is_space c then rest else c ∷ s

unfoldable pub trim_right : Text → Text
unfolding is_space
trim_right [] = []
trim_right (c ∷ s) = let rest = trim_right s in if is_empty rest && is_space c then [] else c ∷ rest

-- `strings.TrimSpace`
unfoldable pub trim_space : Text → Text
unfolding trim_left trim_right
trim_space s = trim_right (trim_left s)

-- One carriage return at the end of a line is dropped.
unfoldable pub drop_return : Text → Text
drop_return [] = []
drop_return (c ∷ []) = if c == b'\r' then [] else c ∷ []
drop_return (c ∷ d ∷ s) = c ∷ drop_return (d ∷ s)

-- Puts a character in front of the first line.
abbrev extend_first : ℕ → List Text → List Text
extend_first c [] = (c ∷ []) ∷ []
extend_first c (line ∷ rest) = (c ∷ line) ∷ rest

-- The lines, each without its newline. After the last newline a line follows only if it has
-- characters.
unfoldable pub raw_lines : Text → List Text
raw_lines [] = []
raw_lines (c ∷ s) = let rest = raw_lines s in if c == b'\n' then [] ∷ rest else extend_first c rest

-- The texts that `scanner.Scan` goes through.
unfoldable pub scan_lines : Text → List Text
unfolding raw_lines drop_return
scan_lines s = map drop_return (raw_lines s)
