-- ===== src/Chunk/RoundTrip/Single.antt =====
-- What the writer writes of one chunk, the reader reads.
use rtmp.Base.{
  ℕ, suc, ◌≤◌, ◌<◌, ◌≡◌, ◌≢◌, refl, sym, ap, ◌∙◌, false, none, List, [], ◌∷◌, ◌++◌, append_assoc,
  arith, ◌==◌, if◌then◌else◌, length, take, drop, length-drop, drop_all, ok,
}
use rtmp.Base.Int.{pos}
use rtmp.Base.FinMap
use rtmp.Base.FinMap.{FinMap, map_laws, get-put, get-remove}
use rtmp.Chunk.MessageHeader
use rtmp.Chunk.MessageHeader.{MessageHeader, has_extended_timestamp}
use rtmp.Chunk.Header
use rtmp.Chunk.Header.{Header}
use rtmp.Chunk.Chunk.{Chunk}
use rtmp.Chunk.Normalizer.{
  Normalizer, normalize, fill_partial_header, fill_empty_header, default, noop,
}
use rtmp.Chunk.Builder.{new_builder}
use rtmp.Chunk.Builder.Progress.{Holds, Holds-new_builder}
use rtmp.Chunk.Reader.{DefaultReader, chunk, iterate, recv}
use rtmp.Chunk.MessageHeader.RoundTrip.{carried}
use rtmp.Chunk.Header.RoundTrip.{
  encoding, write-encoding, received, read-encoding, read_continuation,
}
use rtmp.Chunk.Header.RoundTrip as HeaderLaws
use rtmp.Chunk.Writer.Pieces.{pieces, joined, joined_fits, wire}
use mathlib.Core.Path.{subst}
use native.Mathlib.Decide.{dec_le}
use rtmp.Chunk.Reader.Parts.{part, headed, iterate_new, with_new_builder}
use rtmp.Chunk.Reader.Continuation.{After, last_part, more_part, recv-pieces, recv_step, recv_one}

-- A chunk with a full header (format 0), an encodable stream ID, and the length of its payload.
pub record IsWhole (c : Chunk) : Type 0 where
  pub encodable : HeaderLaws.IsEncodable c.header
  pub full : c.header.basic_header.format_id ≡ 0
  pub absolute : c.header.message_header.timestamp_delta ≡ false
  pub extended :
      c.header.message_header.timestamp ≢ 0xffffff → c.header.extended_timestamp.delta ≡ 0
  pub length_is : c.header.message_header.length ≡ length c.contents

-- The chunks that the writer and the reader of this package agree on: those whole ones that have a
-- stream ID of one byte if they are cut, and are no Set Chunk Size messages (type 1), which the
-- reader keeps to itself.
pub record IsSendable (size : ℕ) (c : Chunk) : Type 0 where
  pub whole : IsWhole c
  pub not_chunk_size : c.header.message_header.type_id ≢ 1
  pub one_byte_id : size < length c.contents → c.header.basic_header.stream_id < 63

carried_full :
    (m m' : MessageHeader)
    → m.format_id ≡ 0
    → carried m.format_id m m' ≡ record m { format_id = m'.format_id; timestamp_delta = false }
unfolding carried
carried_full m m' e = simp e

received-full : (c : Chunk) → IsWhole c → received c.header ≡ c.header
unfolding received
received-full c v = ground (
  arith,
  carried_full c.header.message_header
      (record MessageHeader.empty { format_id = c.header.basic_header.format_id })
      (v.encodable.same_format ∙ v.full),
)

normalize-full :
    (h : Header) (n : Normalizer) → h.basic_header.format_id ≡ 0 → (normalize h n).0 ≡ h
unfolding normalize fill_partial_header fill_empty_header
normalize-full h noop e = refl
normalize-full h (default n) e = ground arith

-- The rounds that a payload takes: one for each piece, and one for an empty payload.
abbrev pub rounds_of : List (List ℕ) → ℕ
rounds_of [] = 1
rounds_of (p ∷ ps) = length (p ∷ ps)

unfoldable pub rounds : ℕ → List ℕ → ℕ
rounds size d = rounds_of (pieces (length d) size d)

rounds_fits : (size : ℕ) (d : List ℕ) → length d ≤ size → rounds size d ≡ 1
unfolding rounds pieces
rounds_fits size [] h = refl
rounds_fits size (x ∷ xs) h = rw (drop_all size (x ∷ xs) h)

rounds_more :
    (size x : ℕ) (xs : List ℕ)
    → rounds size (x ∷ xs) ≡ suc (length (pieces (length xs) size (drop size (x ∷ xs))))
unfolding rounds pieces
rounds_more size x xs = refl

-- A header that begins a chunk, with any bytes behind it.
pub iterate_start :
    (c : Chunk) (s : List ℕ) (r : DefaultReader)
    → IsWhole c
    → FinMap.get r.builders c.header.basic_header.stream_id ≡ none
    → r.source ≡ encoding c.header ++ s
    → iterate r
      ≡ part c.header.basic_header.stream_id
          (new_builder c.header)
          (with_new_builder c.header (headed r c.header s))
iterate_start c s r v new src =
    iterate_new r c.header c.header s
      (ap (Header.read Header.empty) src
        ∙ read-encoding c.header s v.encodable (omega (arith, v.full))
        ∙ ap (λ h. (ok h, s)) (received-full c v))
      (normalize-full c.header r.normalizer v.full) new

pub wants_all :
    (c : Chunk) → IsWhole c → Holds (new_builder c.header) c.header [] (length c.contents)
wants_all c v =
    subst (λ n. Holds (new_builder c.header) c.header [] n) v.length_is (Holds-new_builder c.header)

module _ (size : ℕ) (c : Chunk) (rest : List ℕ) (r : DefaultReader) (v : IsWhole c)
    (rs : r.read_size ≡ pos size)
    (new : FinMap.get r.builders c.header.basic_header.stream_id ≡ none)
    (src : r.source ≡ wire size c ++ rest) where
  abbrev pub id : ℕ
  id = c.header.basic_header.stream_id

  abbrev pub payload : List ℕ
  payload = joined id (pieces (length c.contents) size c.contents) ++ rest

  -- The reader after the header of the first part.
  abbrev pub first_part : DefaultReader
  first_part = with_new_builder c.header (headed r c.header payload)

  pub iterate_first : iterate r ≡ part id (new_builder c.header) first_part
  unfolding wire
  iterate_first = iterate_start c payload r v new (src ∙ append_assoc _ _ rest)

  pub wants : Holds (new_builder c.header) c.header [] (length c.contents)
  wants = wants_all c v

  -- The builder that the first part made is gone again.
  pub After-first :
      (r' : DefaultReader)
      → r'.source ≡ rest
      → r'.read_size ≡ r.read_size
      → ((j : ℕ)
          → FinMap.get r'.builders j ≡ (if id == j then none else FinMap.get first_part.builders j))
      → After id r r' rest
  After-first r' src' size' gone = record {
    source_is = src';
    size_is = size';
    builders_are = λ j. ground (arith, gone j, get-put r.builders id j (new_builder c.header));
  }

module _ (size : ℕ) (c : Chunk) (rest : List ℕ) (r : DefaultReader) (v : IsSendable size c)
    (pos_size : 0 < size) (rs : r.read_size ≡ pos size)
    (new : FinMap.get r.builders c.header.basic_header.stream_id ≡ none)
    (src : r.source ≡ wire size c ++ rest) where
  abbrev sid : ℕ
  sid = c.header.basic_header.stream_id

  abbrev first : DefaultReader
  first = first_part size c rest r v.whole rs new src

  start : iterate r ≡ part sid (new_builder c.header) first
  start = iterate_first size c rest r v.whole rs new src

  recv_single :
      length c.contents ≤ size
      → (r' : DefaultReader) × (recv 1 r ≡ (ok (chunk c ∷ []), r')) × After sid r r' rest
  recv_single fits =
      let (r', e, after) =
        last_part sid size c.header c.contents rest first (new_builder c.header) [] c.contents
          v.not_chunk_size (wants size c rest r v.whole rs new src) fits rs
          (ap (λ l. l ++ rest) (joined_fits size sid c.contents fits)) refl in
      (
        r',
        recv_one r r' _ (start ∙ e),
        After-first size c rest r v.whole rs new src r' after.source_is after.size_is
            after.builders_are,
      )

  recv_cut :
      (x : ℕ) (xs : List ℕ)
      → c.contents ≡ x ∷ xs
      → size < length (x ∷ xs)
      → (r' : DefaultReader) × (recv (rounds size c.contents) r ≡ (ok (chunk c ∷ []), r'))
        × After sid r r' rest
  recv_cut x xs e over =
      let d = x ∷ xs in
      let holds =
        subst (λ l. Holds (new_builder c.header) c.header [] (length l)) e
          (wants size c rest r v.whole rs new src) in
      let (r1, b1, begun, w, with_b1) =
        more_part sid size c.header c.contents rest first (new_builder c.header) [] (length xs) x xs
          pos_size holds over (omega arith) rs
          (ap (λ l. joined sid (pieces (length l) size l) ++ rest) e) (sym e) in
      let n = length-drop size d in
      let short = v.one_byte_id (rw e over) in
      let (r2, later, after) =
        recv-pieces sid size c.header c.contents rest v.whole.encodable.basic.positive short
          pos_size v.not_chunk_size (length xs) r1 b1 (take size d) (drop size d) w
          (omega (arith, n)) (omega (arith, n)) in
      (
        r2,
        ap (λ k. recv k r) (ap (rounds size) e ∙ rounds_more size x xs)
            ∙ recv_step _ r r1 r2 [] _ (start ∙ begun) later,
        record {
          source_is = after.source_is;
          size_is = after.size_is ∙ w.size_is ∙ sym rs;
          builders_are = λ j. ground (
            arith,
            after.builders_are j,
            with_b1 j,
            get-put r.builders sid j (new_builder c.header),
          );
        },
      )

  recv_by_payload :
      (d : List ℕ)
      → c.contents ≡ d
      → (r' : DefaultReader) × (recv (rounds size c.contents) r ≡ (ok (chunk c ∷ []), r'))
        × After sid r r' rest
  recv_by_payload [] e =
      let fits : length c.contents ≤ size = rw e (omega arith) in
      let (r', sent, after) = recv_single fits in
      (r', ap (λ k. recv k r) (rounds_fits size c.contents fits) ∙ sent, after)
  recv_by_payload (x ∷ xs) e = elim (dec_le (length (x ∷ xs)) size) [
    | yes fits ↦
        let fits' : length c.contents ≤ size = rw e fits in
        let (r', sent, after) = recv_single fits' in
        (r', ap (λ k. recv k r) (rounds_fits size c.contents fits') ∙ sent, after)
    | no over ↦ recv_cut x xs e (omega arith)
  ]

-- A reader of the writer's size that has no builder for the stream sends the chunk that was written,
-- and nothing else, after a round for each piece. It is then behind the chunk, with no builder for
-- the stream, the others as they were, and the same read size.
pub recv-wire :
    (size : ℕ) (c : Chunk) (rest : List ℕ) (r : DefaultReader)
    → IsSendable size c
    → 0 < size
    → r.read_size ≡ pos size
    → FinMap.get r.builders c.header.basic_header.stream_id ≡ none
    → r.source ≡ wire size c ++ rest
    → (r' : DefaultReader) × (recv (rounds size c.contents) r ≡ (ok (chunk c ∷ []), r'))
      × After c.header.basic_header.stream_id r r' rest
recv-wire size c rest r v pos_size rs new src =
    recv_by_payload size c rest r v pos_size rs new src c.contents refl
