-- ===== src/Chunk/RoundTrip/ChunkSize.antt =====
-- Set Chunk Size messages: the reader takes them itself.
use rtmp.Base.{
  ℕ, ◌^◌, ◌≤◌, ◌<◌, ◌≡◌, refl, ap, ◌∙◌, none, List, [], ◌∷◌, ◌++◌, arith, ◌==◌, if◌then◌else◌,
  length, ok, panicked,
}
use rtmp.Base.Int.{pos}
use rtmp.Base.FinMap
use rtmp.Base.FinMap.{FinMap, map_laws, get-put, get-remove}
use rtmp.Spec.{bytes32}
use rtmp.Chunk.Header.{Header}
use rtmp.Chunk.Chunk.{Chunk, type_id}
use rtmp.Chunk.Builder.{new_builder}
use rtmp.Chunk.Reader.{DefaultReader, set_read_size, update_chunk_size, remove_builder, iterate}
use rtmp.Chunk.Writer.Pieces.{joined_fits, wire}
use rtmp.Chunk.Reader.Parts.{complete as complete_chunk, taken, part_last}
use rtmp.Chunk.RoundTrip.Single.{IsWhole, iterate_first, wants, first_part}
use rtmp.Spec.{be_uint32}

complete_resized :
    (id n : ℕ) (c : Chunk) (r : DefaultReader)
    → type_id c ≡ 1
    → be_uint32 c.contents ≡ ok n
    → complete_chunk id c r ≡ (ok [], remove_builder id (set_read_size (pos n) r))
unfolding update_chunk_size
complete_resized id n c r t e = rw (t, e)

complete_panicked :
    (id : ℕ) (c : Chunk) (r : DefaultReader)
    → type_id c ≡ 1
    → be_uint32 c.contents ≡ panicked
    → (complete_chunk id c r).0 ≡ panicked
unfolding update_chunk_size
complete_panicked id c r t e = rw (t, e)

module _ (size : ℕ) (c : Chunk) (rest : List ℕ) (r : DefaultReader) (v : IsWhole c)
    (is_chunk_size : c.header.message_header.type_id ≡ 1) (fits : length c.contents ≤ size)
    (rs : r.read_size ≡ pos size)
    (new : FinMap.get r.builders c.header.basic_header.stream_id ≡ none)
    (src : r.source ≡ wire size c ++ rest) where
  abbrev id : ℕ
  id = c.header.basic_header.stream_id

  abbrev done : DefaultReader
  done =
      taken id size (new_builder c.header) c.header [] rest (first_part size c rest r v rs new src)
        c.contents

  iterate-done : iterate r ≡ complete_chunk id c done
  iterate-done =
      iterate_first size c rest r v rs new src
      ∙ part_last id size (new_builder c.header) c.header [] rest
          (first_part size c rest r v rs new src) c.contents (wants size c rest r v rs new src) fits
          rs (ap (λ l. l ++ rest) (joined_fits size id c.contents fits))

  resized_by :
      (n : ℕ)
      → be_uint32 c.contents ≡ ok n
      → (r' : DefaultReader) × (iterate r ≡ (ok [], r'))
        × (r'.source ≡ rest)
        × (r'.read_size ≡ pos n)
        × ((j : ℕ) → FinMap.get r'.builders j ≡ (if id == j then none else FinMap.get r.builders j))
  unfolding remove_builder set_read_size
  resized_by n e = (
    remove_builder id (set_read_size (pos n) done),
    iterate-done ∙ complete_resized id n c done (unfold type_id in is_chunk_size) e,
    refl,
    refl,
    λ j. simp map_laws (ground arith),
  )

  panicked_by : be_uint32 c.contents ≡ panicked → (iterate r).0 ≡ panicked
  panicked_by e =
      ap (λ q. q.0) iterate-done ∙ complete_panicked id c done (unfold type_id in is_chunk_size) e

-- A Set Chunk Size message of four bytes is read in one round and not sent: the read size becomes the
-- number that the bytes stand for, big-endian, and the rest of the reader is behind the message.
pub iterate-set_chunk_size :
    (size n : ℕ) (h : Header) (rest : List ℕ) (r : DefaultReader)
    → IsWhole (record { header = h; contents = bytes32 n })
    → h.message_header.type_id ≡ 1
    → 4 ≤ size
    → n < 2 ^ 32
    → r.read_size ≡ pos size
    → FinMap.get r.builders h.basic_header.stream_id ≡ none
    → r.source ≡ wire size (record { header = h; contents = bytes32 n }) ++ rest
    → (r' : DefaultReader) × (iterate r ≡ (ok [], r'))
      × (r'.source ≡ rest)
      × (r'.read_size ≡ pos n)
      × ((j : ℕ)
          → FinMap.get r'.builders j
            ≡ (if h.basic_header.stream_id == j then none else FinMap.get r.builders j))
iterate-set_chunk_size size n h rest r v t fits hn rs new src =
    resized_by size (record { header = h; contents = bytes32 n }) rest r v t fits rs new src n
      (ap ok (omega arith))

be_uint32_short : (l : List ℕ) → length l < 4 → be_uint32 l ≡ panicked
be_uint32_short [] h = refl
be_uint32_short (a ∷ []) h = refl
be_uint32_short (a ∷ b ∷ []) h = refl
be_uint32_short (a ∷ b ∷ d ∷ []) h = refl
be_uint32_short (a ∷ b ∷ d ∷ e ∷ l) h = absurd (omega arith)

-- A Set Chunk Size message of fewer than four bytes ends the reader by a panic.
pub iterate_short_chunk_size :
    (size : ℕ) (c : Chunk) (rest : List ℕ) (r : DefaultReader)
    → IsWhole c
    → c.header.message_header.type_id ≡ 1
    → length c.contents < 4
    → length c.contents ≤ size
    → r.read_size ≡ pos size
    → FinMap.get r.builders c.header.basic_header.stream_id ≡ none
    → r.source ≡ wire size c ++ rest
    → (iterate r).0 ≡ panicked
iterate_short_chunk_size size c rest r v t short fits rs new src =
    panicked_by size c rest r v t fits rs new src (be_uint32_short c.contents short)
