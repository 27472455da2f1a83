-- ===== src/Chunk/Writer/Pieces.antt =====
-- What the writer puts out: the header, and the payload in pieces with a byte between them.
use rtmp.Base.{
  ℕ, zero, suc, ◌≤◌, ◌<◌, ◌≡◌, refl, ap, ◌∙◌, false, none, some, List, [], ◌∷◌, ◌++◌, append-nil,
  append_assoc, arith, length, take, drop, take-append-drop, length-drop, take_all, drop_all,
}
use rtmp.Base.Int.{ℤ, pos, negsuc, ltb_ℤ}
use rtmp.Io
use rtmp.Io.{Input, Output, Sink, buffer, read_full, read_one, read_all, split, filled}
use rtmp.Spec
use rtmp.Spec.{
  uint16, uint32, little_endian_uint32, bytes16, bytes24, bytes32, bytes32_le, put_uint8,
  put_uint16, put_uint24, put_uint32, little_endian_put_uint32, read_byte, read_bytes,
}
use rtmp.Spec.RoundTrip.{min-pos}
use rtmp.Chunk.Chunk.{Chunk}
use rtmp.Chunk.Header.RoundTrip.{encoding, write-encoding}
use native.Mathlib.Decide.{dec_le}
use rtmp.Chunk.Builder.{concat}
use rtmp.Chunk.Writer.{DefaultWriter, continuation, copied, with_continuation, write_parts, write}

-- A payload cut into pieces of `size` bytes, the last one perhaps shorter.
unfoldable pub pieces : ℕ → ℕ → List ℕ → List (List ℕ)
pieces fuel size [] = []
pieces zero size (b ∷ d) = []
pieces (suc fuel) size (b ∷ d) = take size (b ∷ d) ∷ pieces fuel size (drop size (b ∷ d))

-- The pieces of a stream, joined by its continuation byte.
unfoldable pub joined : ℕ → List (List ℕ) → List ℕ
joined id [] = []
joined id (p ∷ []) = p
joined id (p ∷ q ∷ ps) = p ++ continuation id ∷ joined id (q ∷ ps)

-- More payload follows the piece `p`.
joined_cons :
    (fuel size id : ℕ) (p rest : List ℕ)
    → 0 < length rest
    → length rest ≤ fuel
    → joined id (p ∷ pieces fuel size rest)
      ≡ p ++ continuation id ∷ joined id (pieces fuel size rest)
unfolding joined pieces
joined_cons fuel size id p [] h hf = absurd (omega arith)
joined_cons zero size id p (x ∷ xs) h hf = absurd (omega arith)
joined_cons (suc fuel) size id p (x ∷ xs) h hf = refl

with_continuation_more :
    (id : ℕ) (rest out : List ℕ)
    → 0 < length rest
    → with_continuation id rest out ≡ out ++ continuation id ∷ []
with_continuation_more id [] out h = absurd (omega arith)
with_continuation_more id (x ∷ xs) out h = refl

-- One round of the loop, for `n` bytes to copy.
write_parts_step :
    (fuel : ℕ) (size : ℤ) (id b n : ℕ) (d out : List ℕ)
    → copied (Spec.min (pos (length (b ∷ d))) size) ≡ n
    → write_parts (suc fuel) size id (b ∷ d) out
      ≡ write_parts fuel size id
          (drop n (b ∷ d))
          (with_continuation id (drop n (b ∷ d)) (out ++ take n (b ∷ d)))
unfolding write_parts
write_parts_step fuel size id b n d out e =
    ap
      (λ k.
        write_parts fuel size id (drop k (b ∷ d))
          (with_continuation id (drop k (b ∷ d)) (out ++ take k (b ∷ d))))
      e

-- The pieces of a payload that fits in one, and of a longer one.
module _ (fuel size id b : ℕ) (d : List ℕ) where
  pub joined_last : length (b ∷ d) ≤ size → joined id (pieces (suc fuel) size (b ∷ d)) ≡ b ∷ d
  unfolding joined pieces
  joined_last h = rw (take_all size (b ∷ d) h, drop_all size (b ∷ d) h)

  pub joined_more :
      size < length (b ∷ d)
      → length (b ∷ d) ≤ suc fuel
      → 0 < size
      → joined id (pieces (suc fuel) size (b ∷ d))
        ≡ take size (b ∷ d) ++ continuation id ∷ joined id (pieces fuel size (drop size (b ∷ d)))
  unfolding pieces
  joined_more h hf h0 =
      let n = length-drop size (b ∷ d) in
      joined_cons fuel size id (take size (b ∷ d)) (drop size (b ∷ d)) (omega (arith, n))
        (omega (arith, n))

  -- A round of the loop that ends the payload, and one that does not.
  write_parts_last :
      (out : List ℕ)
      → length (b ∷ d) ≤ size
      → write_parts (suc fuel) (pos size) id (b ∷ d) out ≡ some (out ++ b ∷ d)
  unfolding write_parts
  write_parts_last out h =
      write_parts_step fuel (pos size) id b (length (b ∷ d)) d out
        (ap copied (min-pos (length (b ∷ d)) size h).0)
      ∙ rw (
        take_all (length (b ∷ d)) (b ∷ d) (omega arith),
        drop_all (length (b ∷ d)) (b ∷ d) (omega arith),
      )

  write_parts_more :
      (out : List ℕ)
      → size < length (b ∷ d)
      → write_parts (suc fuel) (pos size) id (b ∷ d) out
        ≡ write_parts fuel
            (pos size)
            id
            (drop size (b ∷ d))
            ((out ++ take size (b ∷ d)) ++ continuation id ∷ [])
  write_parts_more out h =
      write_parts_step fuel (pos size) id b size d out
        (ap copied (min-pos size (length (b ∷ d)) (omega arith)).1)
      ∙ rw (
          with_continuation_more id (drop size (b ∷ d)) (out ++ take size (b ∷ d))
            (omega (arith, length-drop size (b ∷ d))))

-- How many pieces there are.
pub length-pieces_last :
    (fuel size b : ℕ) (d : List ℕ)
    → length (b ∷ d) ≤ size
    → length (pieces (suc fuel) size (b ∷ d)) ≡ 1
unfolding pieces
length-pieces_last fuel size b d h = rw (drop_all size (b ∷ d) h)

pub length-pieces_more :
    (fuel size b : ℕ) (d : List ℕ)
    → length (pieces (suc fuel) size (b ∷ d)) ≡ suc (length (pieces fuel size (drop size (b ∷ d))))
unfolding pieces
length-pieces_more fuel size b d = refl

-- A payload that fits in one piece, which may be empty.
pub joined_fits :
    (size id : ℕ) (d : List ℕ) → length d ≤ size → joined id (pieces (length d) size d) ≡ d
joined_fits size id [] h = unfold joined pieces in refl
joined_fits size id (x ∷ xs) h = joined_last (length xs) size id x xs h

-- With fuel for every byte the loop appends the pieces of the payload to what it has written.
pub write_parts-joined :
    (fuel size id : ℕ) (d out : List ℕ)
    → length d ≤ fuel
    → 0 < size
    → write_parts fuel (pos size) id d out ≡ some (out ++ joined id (pieces fuel size d))
write_parts-joined fuel size id [] out h h0 = unfold write_parts joined pieces in rw append-nil
write_parts-joined zero size id (b ∷ d) out h h0 = absurd (omega arith)
write_parts-joined (suc fuel) size id (b ∷ d) out h h0 = elim (dec_le (length (b ∷ d)) size) [
  | yes fits ↦ rw (write_parts_last fuel size id b d out fits, joined_last fuel size id b d fits)
  | no over ↦
      rw
        (
          write_parts_more fuel size id b d out (omega arith),
          joined_more fuel size id b d (omega arith) h h0,
        )
        (write_parts-joined fuel size id (drop size (b ∷ d))
            ((out ++ take size (b ∷ d)) ++ continuation id ∷ [])
            (omega (arith, length-drop size (b ∷ d))) h0
          ∙ simp append_assoc)
]

-- All the bytes that a chunk takes on the wire, for a write size.
unfoldable pub wire : ℕ → Chunk → List ℕ
wire size c =
    encoding c.header
    ++ joined c.header.basic_header.stream_id (pieces (length c.contents) size c.contents)

-- With a positive write size `Write` returns, and it writes the wire form of the chunk in one write;
-- its error is that of the destination.
pub write-wire :
    (c : Chunk) (w : DefaultWriter) (size : ℕ)
    → w.write_size ≡ pos size
    → 0 < size
    → write c w
      ≡ some
          ((Io.write (wire size c) w.dest).0, record w { dest = (Io.write (wire size c) w.dest).1 })
unfolding write wire
write-wire c w size e h0 = simp (
  e,
  write-encoding c.header [],
  write_parts-joined (length c.contents) size c.header.basic_header.stream_id c.contents
      (encoding c.header) (omega arith) h0,
)

copied-min_none :
    (n : ℕ) (size : ℤ) → ltb_ℤ (pos 0) size ≡ false → copied (Spec.min (pos (suc n)) size) ≡ 0
unfolding Spec.min
copied-min_none n (pos m) h = ground arith
copied-min_none n (negsuc m) h = refl

-- With a write size that is not positive the loop never gets through a payload, whatever the fuel.
pub write_parts_stuck :
    (fuel id b : ℕ) (d out : List ℕ) (size : ℤ)
    → ltb_ℤ (pos 0) size ≡ false
    → write_parts fuel size id (b ∷ d) out ≡ none
write_parts_stuck zero id b d out size h = unfold write_parts in refl
write_parts_stuck (suc fuel) id b d out size h =
    write_parts_step fuel size id b 0 d out (copied-min_none (length d) size h)
    ∙ write_parts_stuck fuel id b d _ size h

-- The pieces are the payload, and each is as long as the write size but for the last.
pub concat-pieces :
    (fuel size : ℕ) (d : List ℕ) → length d ≤ fuel → 0 < size → concat (pieces fuel size d) ≡ d
unfolding pieces
concat-pieces fuel size [] h h0 = refl
concat-pieces zero size (b ∷ d) h h0 = absurd (omega arith)
concat-pieces (suc fuel) size (b ∷ d) h h0 =
    ap (λ l. take size (b ∷ d) ++ l)
      (concat-pieces fuel size (drop size (b ∷ d)) (omega (arith, length-drop size (b ∷ d))) h0)
    ∙ take-append-drop size (b ∷ d)
