-- ===== src/Spec.antt =====
-- spec/binary.go, spec/bytes.go and spec/math.go.
pub mod RoundTrip
use rtmp.Base.{
  ℕ, ◌+◌, ◌-◌, ◌*◌, ◌%◌, ◌^◌, List, [], ◌∷◌, ◌++◌, length, replicate, ltb, if◌then◌else◌, Result,
  ok, err, panicked,
}
use rtmp.Base.Bits.{shr}
use rtmp.Base.Int.{ℤ, ltb_ℤ}
use rtmp.Io.{Input, read_full, read_one, Output, write}

-- binary.BigEndian.Uint16, Uint32, Uint64 and LittleEndian.Uint32: the first bytes of the slice, and
-- a panic if it is too short.
abbrev pub be_uint16 : List ℕ → Result ℕ
be_uint16 (a ∷ b ∷ _) = ok (a * 2 ^ 8 + b)
be_uint16 _ = panicked

abbrev pub be_uint32 : List ℕ → Result ℕ
be_uint32 (a ∷ b ∷ c ∷ d ∷ _) = ok (a * 2 ^ 24 + b * 2 ^ 16 + c * 2 ^ 8 + d)
be_uint32 _ = panicked

abbrev pub le_uint32 : List ℕ → Result ℕ
le_uint32 (a ∷ b ∷ c ∷ d ∷ _) = ok (d * 2 ^ 24 + c * 2 ^ 16 + b * 2 ^ 8 + a)
le_uint32 _ = panicked

abbrev pub be_uint64 : List ℕ → Result ℕ
be_uint64 (a ∷ b ∷ c ∷ d ∷ e ∷ f ∷ g ∷ h ∷ _) =
    ok (
      (a * 2 ^ 24 + b * 2 ^ 16 + c * 2 ^ 8 + d) * 2 ^ 32
      + (e * 2 ^ 24 + f * 2 ^ 16 + g * 2 ^ 8 + h))
be_uint64 _ = panicked

-- `make([]byte, n-len(b))` panics on a negative length.
unfoldable pub pad : List ℕ → ℕ → Result (List ℕ)
pad b n = if ltb n (length b) then panicked else ok (replicate (n - length b) 0 ++ b)

unfoldable pub padl : List ℕ → ℕ → Result (List ℕ)
padl b n = if ltb n (length b) then panicked else ok (b ++ replicate (n - length b) 0)

abbrev decode_with : (List ℕ → Result ℕ) → Result (List ℕ) → Result ℕ
decode_with f (ok b) = f b
decode_with f (err e) = err e
decode_with f panicked = panicked

unfoldable pub uint16 : List ℕ → Result ℕ
unfolding pad
uint16 b = decode_with be_uint16 (pad b 2)

unfoldable pub uint32 : List ℕ → Result ℕ
unfolding pad
uint32 b = decode_with be_uint32 (pad b 4)

unfoldable pub little_endian_uint32 : List ℕ → Result ℕ
unfolding padl
little_endian_uint32 b = decode_with le_uint32 (padl b 4)

unfoldable pub uint64 : List ℕ → Result ℕ
unfolding pad
uint64 b = decode_with be_uint64 (pad b 8)

-- The bytes that the writers put out, `byte(x)` being `x % 256`.
abbrev pub bytes16 : ℕ → List ℕ
bytes16 n = (shr n 8 % 256) ∷ (n % 256) ∷ []

abbrev pub bytes24 : ℕ → List ℕ
bytes24 n = (shr n 16 % 256) ∷ (shr n 8 % 256) ∷ (shr n 0 % 256) ∷ []

abbrev pub bytes32 : ℕ → List ℕ
bytes32 n = (shr n 24 % 256) ∷ (shr n 16 % 256) ∷ (shr n 8 % 256) ∷ (n % 256) ∷ []

abbrev pub bytes32_le : ℕ → List ℕ
bytes32_le n = (n % 256) ∷ (shr n 8 % 256) ∷ (shr n 16 % 256) ∷ (shr n 24 % 256) ∷ []

unfoldable pub put_uint8 : ℕ → Output
unfolding write
put_uint8 n = write (n ∷ [])

unfoldable pub put_uint16 : ℕ → Output
unfolding write
put_uint16 n = write (bytes16 n)

unfoldable pub put_uint24 : ℕ → Output
unfolding write
put_uint24 n = write (bytes24 n)

unfoldable pub put_uint32 : ℕ → Output
unfolding write
put_uint32 n = write (bytes32 n)

unfoldable pub little_endian_put_uint32 : ℕ → Output
unfolding write
little_endian_put_uint32 n = write (bytes32_le n)

-- spec/bytes.go
unfoldable pub read_byte : Input ℕ
unfolding read_one
read_byte = read_one

unfoldable pub read_bytes : ℕ → Input (List ℕ)
unfolding read_full
read_bytes n = read_full n

-- spec/math.go
unfoldable pub min : ℤ → ℤ → ℤ
min a b = if ltb_ℤ a b then a else b

unfoldable pub max : ℤ → ℤ → ℤ
max a b = if ltb_ℤ b a then a else b
