-- ===== src/Capacity.antt =====
-- `fixCapacity` of internal/sharedhostpath/utils.go and the size constants that it and the
-- controller use.
pub mod Rounding
use csi_sharedhostpath.Base.{ℕ, ◌^◌, not, ◌==◌, if◌then◌else◌}
use csi_sharedhostpath.Base.Int.{ℤ, pos, int_eq, ltb_ℤ, rem64, shr64, shl64, add64}

abbrev pub mib : ℕ
mib = 2 ^ 20

abbrev pub gib : ℕ
gib = 2 ^ 30

abbrev pub max_storage_capacity : ℤ
max_storage_capacity = pos (2 ^ 40)

-- The whole mebibyte above a capacity that is none.
round_up : ℤ → ℤ
unfolding rem64 shr64 shl64 add64
round_up capacity =
    if not (rem64 capacity mib == pos 0)
    then shl64 (add64 (shr64 capacity 20) (pos 1)) 20
    else capacity

unfoldable pub fix_capacity : ℤ → ℤ
unfolding round_up
fix_capacity capacity = round_up (if ltb_ℤ capacity (pos gib) then pos gib else capacity)
