-- ===== src/Chunk/BasicHeader.antt =====
-- chunk/basic_header.go
pub mod RoundTrip
use rtmp.Base.{
  ℕ, ◌+◌, ◌-◌, ◌%◌, ◌^◌, List, [], ◌∷◌, ltb, ◌==◌, if◌then◌else◌, pure, lift, ◌>>=◌, ◌>>◌,
}
use Prim.Native.Nat.{bit_and, bit_or}
use rtmp.Base.Bits.{shr, shl}
use rtmp.Io
use rtmp.Io.{Input, Output, buffer}
use rtmp.Spec.{uint32, put_uint16, read_byte, read_bytes}

pub record BasicHeader : Type 0 where
  pub format_id : ℕ
  pub stream_id : ℕ

-- The value before `Read` is the receiver of the method.
unfoldable pub read : BasicHeader → Input BasicHeader
unfolding read_byte read_bytes uint32
read h = do
  b ← read_byte
  let h' = record h { format_id = shr b 6 }
  if bit_and b 0x3f == 0x3f
      then (do
        tail ← read_bytes 2
        id ← lift (uint32 tail)
        pure (record h' { stream_id = (id + 64) % 2 ^ 32 }))
      else if bit_and b 0x3f == 0
      then (do
        tail ← read_bytes 1
        id ← lift (uint32 tail)
        pure (record h' { stream_id = (id + 64) % 2 ^ 32 }))
      else (do id ← lift (uint32 (bit_and b 0x3f ∷ [])); pure (record h' { stream_id = id }))

-- The buffer that `Write` fills before its one write. The `bytes.Buffer` of the last branch takes
-- every write, so the branch has no error.
unfoldable pub buf : BasicHeader → List ℕ
unfolding put_uint16
buf h =
    let first = shl 8 h.format_id 6 in
    if ltb h.stream_id 64
    then bit_or first (bit_and (h.stream_id % 256) 0x3f) ∷ []
    else if ltb h.stream_id 320
    then first ∷ ((h.stream_id - 64) % 256) ∷ []
    else bit_or first 63 ∷ (put_uint16 ((h.stream_id - 64) % 2 ^ 16) (buffer [])).1.written

unfoldable pub write : BasicHeader → Output
unfolding buf
write h = Io.write (buf h)
