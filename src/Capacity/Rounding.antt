-- ===== src/Capacity/Rounding.antt =====
-- The rounding of `fix_capacity`.
use csi_sharedhostpath.Base.{
  ℕ, ◌+◌, ◌-◌, ◌*◌, ◌/◌, ◌^◌, ◌≤◌, ◌<◌, ◌≡◌, ◌∙◌, arith, ltb, if◌then◌else◌,
}
use csi_sharedhostpath.Base.Int.{ℤ, pos, negsuc, pos_part, ltb_ℤ, ◌≤ℤ◌}
use csi_sharedhostpath.Capacity.{mib, gib, round_up, fix_capacity}

-- The number of whole mebibytes that cover `n` bytes.
abbrev mebibytes : ℕ → ℕ
mebibytes n = (n + (mib - 1)) / mib

-- Below this bound the rounding stays within an int64.
abbrev pub roundable : ℕ
roundable = 2 ^ 63 - 2 ^ 20

round_up_pos : (n : ℕ) → n ≤ roundable → round_up (pos n) ≡ pos (mebibytes n * mib)
unfolding round_up
round_up_pos n h = ground arith

-- The bytes that the clamp leaves of a requested capacity.
abbrev clamped : ℤ → ℕ
clamped c = if ltb (pos_part c) gib then gib else pos_part c

clamp-clamped : (c : ℤ) → (if ltb_ℤ c (pos gib) then pos gib else c) ≡ pos (clamped c)
clamp-clamped (pos n) = ground arith
clamp-clamped (negsuc n) = ground arith

pub fix_capacity_lem :
    (c : ℤ) → c ≤ℤ pos roundable → fix_capacity c ≡ pos (mebibytes (clamped c) * mib)
unfolding fix_capacity
fix_capacity_lem c h = rw clamp-clamped (round_up_pos (clamped c) (ground arith))

-- For a request of at most 2^63 - 2^20 bytes the rounded capacity is a whole number of mebibytes,
-- at least one gibibyte and at least the request, and no smaller number of mebibytes is both.
pub fix_capacity_least :
    (c : ℤ)
    → c ≤ℤ pos roundable
    → (k : ℕ) × (fix_capacity c ≡ pos (k * mib))
      × (gib ≤ k * mib)
      × (c ≤ℤ pos (k * mib))
      × ((j : ℕ) → gib ≤ j * mib → c ≤ℤ pos (j * mib) → k ≤ j)
fix_capacity_least c h = (
  mebibytes (clamped c),
  fix_capacity_lem c h,
  ground arith,
  ground arith,
  λ j big covers. ground arith,
)

fix_capacity_multiple :
    (k : ℕ) → gib ≤ k * mib → k * mib ≤ roundable → fix_capacity (pos (k * mib)) ≡ pos (k * mib)
fix_capacity_multiple k big small = fix_capacity_lem (pos (k * mib)) (omega arith) ∙ ground arith

-- Rounding twice is rounding once, for a request of at most 2^63 - 2^20 bytes.
pub fix_capacity_idem :
    (c : ℤ) → c ≤ℤ pos roundable → fix_capacity (fix_capacity c) ≡ fix_capacity c
fix_capacity_idem c h =
    rw (fix_capacity_lem c h)
      (fix_capacity_multiple (mebibytes (clamped c)) (ground arith) (ground arith))

-- For each int64 request above 2^63 - 2^20 the shift back overflows, and the rounded capacity is
-- -2^63.
pub fix_capacity_overflow :
    (n : ℕ) → roundable < n → n < 2 ^ 63 → fix_capacity (pos n) ≡ negsuc (2 ^ 63 - 1)
unfolding fix_capacity
fix_capacity_overflow n low high = ground arith
