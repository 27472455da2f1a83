-- ===== src/Base/Bits.antt =====
-- Bit operations on a byte as arithmetic. Each law is a table, checked by evaluation.
use Prim.Native.Nat.{ℕ, zero, suc, ◌*◌, ◌/◌, ◌%◌, ◌^◌, ◌<◌, bit_and, bit_or}
use mathlib.Core.Path.{◌≡◌, refl}
use mathlib.Core.Bool.{Bool, true, ◌&&◌}
use native.Mathlib.Omega.{arith}
use rtmp.Base.Tests.{◌==◌, ==_iff}

-- `x >> k`, and `x << k` on w bits.
abbrev pub shr : ℕ → ℕ → ℕ
shr x k = x / 2 ^ k

abbrev pub shl : ℕ → ℕ → ℕ → ℕ
shl w x k = x * 2 ^ k % 2 ^ w

-- `x & (2^k - 1)`.
abbrev pub low_bits : ℕ → ℕ → ℕ
low_bits x k = x % 2 ^ k

-- `f` and `g` have the same values below `bound`.
unfoldable pub same_table : ℕ → (f g : ℕ → ℕ) → Bool
same_table zero f g = true
same_table (suc bound) f g = f bound == g bound && same_table bound f g

pub same_table_lem :
    (f g : ℕ → ℕ) (bound i : ℕ) → i < bound → same_table bound f g ≡ true → f i ≡ g i
unfolding same_table
same_table_lem f g zero i below same = absurd (omega arith)
same_table_lem f g (suc bound) i below same =
    ground (arith, ==_iff (f bound) (g bound), same_table_lem f g bound i)

pub bit_and_3f : (x : ℕ) → x < 256 → bit_and x 0x3f ≡ x % 64
unfolding same_table
bit_and_3f x h = same_table_lem (λ b. bit_and b 0x3f) (λ b. b % 64) 256 x h refl

pub bit_or_format : (x : ℕ) → x < 256 → bit_or (x / 64 * 64) (x % 64) ≡ x
unfolding same_table
bit_or_format x h = same_table_lem (λ b. bit_or (b / 64 * 64) (b % 64)) (λ b. b) 256 x h refl
