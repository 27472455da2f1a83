-- ===== src/Chunk/Writer.antt =====
-- chunk/writer.go and chunk/default_writer.go. Nothing else changes the write size while a chunk is
-- written.
pub mod Pieces
use rtmp.Base.{
  ℕ, zero, suc, ◌+◌, ◌*◌, ◌%◌, ◌^◌, Option, none, some, List, [], ◌∷◌, ◌++◌, length, take, drop,
  Result,
}
use Prim.Native.Nat.{bit_or}
use rtmp.Base.Bits.{low_bits}
use rtmp.Base.Int.{ℤ, pos, negsuc}
use rtmp.Io
use rtmp.Io.{Sink, buffer}
use rtmp.Spec
use rtmp.Chunk.Header
use rtmp.Chunk.Header.{Header}
use rtmp.Chunk.Chunk.{Chunk, stream_id}

pub record DefaultWriter : Type 0 where
  pub dest : Sink
  pub write_size : ℤ

unfoldable pub new_writer : Sink → ℤ → DefaultWriter
new_writer dest size = record { dest = dest; write_size = size }

unfoldable pub set_write_size : ℤ → DefaultWriter → DefaultWriter
set_write_size size w = record w { write_size = size }

-- The byte in front of every part but the first, `byte((3 << 6) | (StreamId & 63))`.
unfoldable pub continuation : ℕ → ℕ
continuation id = bit_or (3 * 2 ^ 6) (low_bits id 6) % 256

-- How many bytes `io.CopyN` copies: none for a negative number.
abbrev copied : ℤ → ℕ
copied (pos n) = n
copied (negsuc n) = 0

abbrev with_continuation : ℕ → List ℕ → List ℕ → List ℕ
with_continuation id [] out = out
with_continuation id (b ∷ rest) out = out ++ continuation id ∷ []

-- The loop of `Write` over the payload that is left, on fuel: `none` when that has run out.
unfoldable pub write_parts : ℕ → ℤ → ℕ → List ℕ → List ℕ → Option (List ℕ)
write_parts fuel size id [] out = some out
write_parts zero size id (b ∷ payload) out = none
write_parts (suc fuel) size id (b ∷ payload) out =
    let n = copied (Spec.min (pos (length (b ∷ payload))) size) in
    let rest = drop n (b ∷ payload) in
    write_parts fuel size id rest (with_continuation id rest (out ++ take n (b ∷ payload)))

abbrev sent : DefaultWriter → Option (List ℕ) → Option (Result (Unit {0}) × DefaultWriter)
sent w none = none
sent w (some out) = let (r, dest) = Io.write out w.dest in some (r, record w { dest = dest })

-- The error of `Header.Write` is dropped, as in the source. A round of the loop takes a byte at
-- least if the write size is positive, so the fuel is enough then; if not, the loop does not end.
unfoldable pub write : Chunk → DefaultWriter → Option (Result (Unit {0}) × DefaultWriter)
write c w = sent w (
    write_parts (length c.contents) w.write_size c.header.basic_header.stream_id c.contents
      (Header.write c.header (buffer [])).1.written)
