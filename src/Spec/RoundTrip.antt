-- ===== src/Spec/RoundTrip.antt =====
-- What the writers of spec/binary.go put out is read back by its readers.
use rtmp.Base.{ℕ, ◌≤◌, ◌<◌, ◌≡◌, ◌^◌, arith, ok, ap}
use rtmp.Base.Int.{pos}
use rtmp.Spec.{uint16, uint32, little_endian_uint32, bytes16, bytes24, bytes32, bytes32_le, min}

pub uint32-bytes32 : (n : ℕ) → n < 2 ^ 32 → uint32 (bytes32 n) ≡ ok n
unfolding uint32
uint32-bytes32 n h = ap ok (omega arith)

pub uint32-bytes24 : (n : ℕ) → n < 2 ^ 24 → uint32 (bytes24 n) ≡ ok n
unfolding uint32
uint32-bytes24 n h = ap ok (omega arith)

pub uint16-bytes16 : (n : ℕ) → n < 2 ^ 16 → uint16 (bytes16 n) ≡ ok n
unfolding uint16
uint16-bytes16 n h = ap ok (omega arith)

pub uint32-bytes16 : (n : ℕ) → n < 2 ^ 16 → uint32 (bytes16 n) ≡ ok n
unfolding uint32
uint32-bytes16 n h = ap ok (omega arith)

pub little_endian_uint32-bytes32_le :
    (n : ℕ) → n < 2 ^ 32 → little_endian_uint32 (bytes32_le n) ≡ ok n
unfolding little_endian_uint32
little_endian_uint32-bytes32_le n h = ap ok (omega arith)

-- The smaller of two lengths.
pub min-pos : (a b : ℕ) → a ≤ b → (min (pos a) (pos b) ≡ pos a) × (min (pos b) (pos a) ≡ pos a)
unfolding min
min-pos a b h = ground arith
