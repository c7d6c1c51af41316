-- ===== src/Base/Decimal.antt =====
-- `strconv.FormatInt(n, 10)`, which `%d` prints too, and `strconv.ParseInt(s, 10, 32)`.
use Prim.Native.Nat.{ℕ, zero, suc, ◌+◌, ◌-◌, ◌*◌, ◌/◌, ◌%◌, ◌^◌, ◌<◌}
use mathlib.Core.Path.{◌≡◌, refl}
use mathlib.Core.Logic.{inl, inr}
use mathlib.Core.Bool.{Bool, true, false, ◌&&◌}
use mathlib.Core.Option.{Option, none, some}
use mathlib.Core.List.{[], ◌∷◌}
use native.Mathlib.Omega.{arith}
use csi_sharedhostpath.Base.Tests.{Bool-cases, Text, ltb, leb, ◌==◌, nat_eq, if◌then◌else◌}
use csi_sharedhostpath.Base.Int.{ℤ, pos, negsuc}
use csi_sharedhostpath.Base.Strings.{is_empty}

-- The digits of `n` in front of `rest`; fuel above `n` is enough.
unfoldable pub digits_onto : ℕ → ℕ → Text → Text
digits_onto zero n rest = rest
digits_onto (suc f) n rest =
    let more = digits_onto f (n / 10) ((b'0' + n % 10) ∷ rest) in
    if ltb n 10 then (b'0' + n % 10) ∷ rest else more

unfoldable pub format_nat : ℕ → Text
unfolding digits_onto
format_nat n = digits_onto (suc n) n []

unfoldable pub format_int : ℤ → Text
unfolding format_nat
format_int (pos n) = format_nat n
format_int (negsuc n) = b'-' ∷ format_nat (suc n)

abbrev is_digit : ℕ → Bool
is_digit c = leb b'0' c && leb c b'9'

-- The value of a text of digits, behind digits of the value `acc`.
unfoldable pub digits_value : ℕ → Text → Option ℕ
digits_value acc [] = some acc
digits_value acc (c ∷ s) =
    let rest = digits_value (acc * 10 + (c - b'0')) s in if is_digit c then rest else none

-- An error for the empty text.
unfoldable pub parse_nat : Text → Option ℕ
unfolding digits_value
parse_nat [] = none
parse_nat (c ∷ s) = digits_value 0 (c ∷ s)

-- The value with its sign, an error if it is no int32.
in_range : Bool → Option ℕ → Option ℤ
in_range negative none = none
in_range false (some n) = if ltb n (2 ^ 31) then some (pos n) else none
in_range true (some zero) = some (pos 0)
in_range true (some (suc n)) = if ltb n (2 ^ 31) then some (negsuc n) else none

unfoldable pub parse_int32 : Text → Option ℤ
unfolding parse_nat in_range
parse_int32 [] = none
parse_int32 (c ∷ s) =
    if c == b'-'
    then in_range true (parse_nat s)
    else if c == b'+'
    then in_range false (parse_nat s)
    else in_range false (parse_nat (c ∷ s))

digits_value-digits_onto :
    (f n : ℕ) (rest : Text) → n < f → digits_value 0 (digits_onto f n rest) ≡ digits_value n rest
unfolding digits_value digits_onto
digits_value-digits_onto zero n rest h = elim h [ ]
digits_value-digits_onto (suc f) n rest h =
    ground (arith, digits_value-digits_onto f (n / 10) ((b'0' + n % 10) ∷ rest))

-- The first digit.
digits_onto-head :
    (f n : ℕ) (rest : Text)
    → n < f
    → (c : ℕ) × (s : Text) × (digits_onto f n rest ≡ c ∷ s) × (is_digit c ≡ true)
unfolding digits_onto
digits_onto-head zero n rest h = elim h [ ]
digits_onto-head (suc f) n rest h = elim (Bool-cases (ltb n 10)) [
  | inl small ↦ (b'0' + n % 10, rest, rw small, ground arith)
  | inr large ↦ rw large (digits_onto-head f (n / 10) ((b'0' + n % 10) ∷ rest) (ground arith))
]

parse_digits :
    (c n : ℕ) (s : Text)
    → is_digit c ≡ true
    → digits_value 0 (c ∷ s) ≡ some n
    → n < 2 ^ 31
    → parse_int32 (c ∷ s) ≡ some (pos n)
unfolding parse_int32
parse_digits c n s digit value small = ground arith

-- Reading back what was printed, for a number that is an int32.
pub parse_int32-format_int : (n : ℕ) → n < 2 ^ 31 → parse_int32 (format_int (pos n)) ≡ some (pos n)
unfolding format_int digits_value
parse_int32-format_int n small =
    let (c, s, e, digit) = digits_onto-head (suc n) n [] (omega arith) in
    rw e (
      parse_digits c n s digit (rw e at (digits_value-digits_onto (suc n) n [] (omega arith)))
        small)

-- A number has a digit.
pub is_empty-format_int : (n : ℕ) → is_empty (format_int (pos n)) ≡ false
unfolding format_int
is_empty-format_int n =
    let (c, s, e, digit) = digits_onto-head (suc n) n [] (omega arith) in rw e refl

-- What `strconv.ParseInt(s, 10, 64)` returns beside its error: 0 where the text is no number, and
-- the nearest int64 where the number is out of range.
nearest64 : Bool → Option ℕ → ℤ
nearest64 negative none = pos 0
nearest64 false (some n) = if ltb n (2 ^ 63) then pos n else pos (2 ^ 63 - 1)
nearest64 true (some zero) = pos 0
nearest64 true (some (suc n)) = if ltb n (2 ^ 63) then negsuc n else negsuc (2 ^ 63 - 1)

unfoldable pub parsed_int64 : Text → ℤ
unfolding parse_nat nearest64
parsed_int64 [] = pos 0
parsed_int64 (c ∷ s) =
    if c == b'-'
    then nearest64 true (parse_nat s)
    else if c == b'+'
    then nearest64 false (parse_nat s)
    else nearest64 false (parse_nat (c ∷ s))

parsed_digits :
    (c n : ℕ) (s : Text)
    → is_digit c ≡ true
    → digits_value 0 (c ∷ s) ≡ some n
    → n < 2 ^ 63
    → parsed_int64 (c ∷ s) ≡ pos n
unfolding parsed_int64
parsed_digits c n s digit value small = ground arith

-- Reading back what was printed, for a number that is an int64.
pub parsed_int64-format_int : (n : ℕ) → n < 2 ^ 63 → parsed_int64 (format_int (pos n)) ≡ pos n
unfolding format_int digits_value
parsed_int64-format_int n small =
    let (c, s, e, digit) = digits_onto-head (suc n) n [] (omega arith) in
    rw e (
      parsed_digits c n s digit (rw e at (digits_value-digits_onto (suc n) n [] (omega arith)))
        small)
