-- ===== src/Prelude/Ints.antt =====
-- Go's `int` and `time.Duration`, integers of 64 bits. `negsuc n` is -(n + 1).
use Prim.Native.Nat.{ℕ, suc, ◌-◌, ◌*◌, ◌%◌, ◌^◌}
use mathlib.Core.Bool.{Bool}
use packer_qemu_mcp_server.Prelude.Tests.{ltb, if◌then◌else◌}

pub data ℤ : Type 0 where
  pos : ℕ → ℤ
  negsuc : ℕ → ℤ

-- What is left of a number when a negative one becomes 0.
abbrev pub pos_part : ℤ → ℕ
pos_part (pos n) = n
pos_part (negsuc n) = 0

-- `n > 0`
abbrev pub is_positive : ℤ → Bool
is_positive n = ltb 0 (pos_part n)

-- The number that 64 bits stand for.
unfoldable pub signed64 : ℕ → ℤ
signed64 w = if ltb w (2 ^ 63) then pos w else negsuc (2 ^ 64 - w - 1)

-- The product of a number of 64 bits and a positive constant, wrapped around.
unfoldable pub scale64 : ℕ → ℤ → ℤ
unfolding signed64
scale64 k (pos n) = signed64 (n * k % 2 ^ 64)
scale64 k (negsuc n) = signed64 ((2 ^ 64 - suc n * k % 2 ^ 64) % 2 ^ 64)
