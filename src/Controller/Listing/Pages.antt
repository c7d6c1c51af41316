-- ===== src/Controller/Listing/Pages.antt =====
-- The tokens of `ListVolumes` from page to page.
use csi_sharedhostpath.Base.{
  ℕ, ◌+◌, ◌-◌, ◌^◌, ◌≤◌, ◌<◌, true, false, some, ◌≡◌, ◌⊎◌, inl, inr, arith, nat_eq,
}
use csi_sharedhostpath.Base.Decimal.{is_empty-format_int, parse_int32-format_int}
use csi_sharedhostpath.Base.Int.{pos, int_eq, add64}
use csi_sharedhostpath.Base.Strings.{is_empty}
use csi_sharedhostpath.Controller.Listing.{starting_token, next_starting_token, token_text}

add64_small : (a b : ℕ) → a < 2 ^ 31 → b < 2 ^ 31 → add64 (pos a) (pos b) ≡ pos (a + b)
unfolding add64
add64_small a b ha hb = ground arith

-- The token of a further page is read back as its offset.
pub next_token :
    (start limit count : ℕ)
    → limit < 2 ^ 31 - 1
    → start + limit < count
    → count < 2 ^ 31
    → let token = token_text (next_starting_token (pos start) (pos limit) count) in
      (is_empty token ≡ false) × (starting_token token ≡ some (pos (start + limit)))
unfolding next_starting_token token_text starting_token
next_token start limit count small further bound =
    let next : next_starting_token (pos start) (pos limit) count ≡ pos (start + limit) =
      ground (arith, add64_small start limit) in
    let there = is_empty-format_int (start + limit) in
    let read = parse_int32-format_int (start + limit) (omega arith) in (ground arith, ground arith)

-- There is no further page behind the last row, or without a limit.
pub last_token :
    (start limit count : ℕ)
    → limit < 2 ^ 31
    → start < 2 ^ 31
    → (limit ≡ 2 ^ 31 - 1) ⊎ (count ≤ start + limit)
    → is_empty (token_text (next_starting_token (pos start) (pos limit) count)) ≡ true
unfolding next_starting_token token_text
last_token start limit count small early (inl e) = ground arith
last_token start limit count small early (inr h) = ground (arith, add64_small start limit)
