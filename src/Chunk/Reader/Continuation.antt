-- ===== src/Chunk/Reader/Continuation.antt =====
-- The rounds of the reader that continue a chunk: headers of one byte, and parts of the payload.
use rtmp.Base.{
  ℕ, zero, suc, ◌+◌, ◌-◌, ◌*◌, ◌/◌, ◌%◌, ◌≤◌, ◌<◌, ◌≡◌, ◌≢◌, refl, sym, ap, ◌∙◌, none, some, List,
  [], ◌∷◌, ◌++◌, append-nil, append_assoc, arith, ◌==◌, if◌then◌else◌, ==_refl, ne→==, length, take,
  drop, take-append-drop, length-take_le, length-drop, ok,
}
use rtmp.Base.Bits.{bit_or_format}
use rtmp.Base.Int.{pos}
use rtmp.Base.FinMap
use rtmp.Base.FinMap.{FinMap, map_laws, get-put, get-remove}
use rtmp.Chunk.BasicHeader
use rtmp.Chunk.BasicHeader.{BasicHeader}
use rtmp.Chunk.MessageHeader
use rtmp.Chunk.MessageHeader.{MessageHeader, has_extended_timestamp}
use rtmp.Chunk.Header
use rtmp.Chunk.Header.{Header}
use rtmp.Chunk.Chunk.{Chunk, type_id}
use rtmp.Chunk.Normalizer.{
  Normalizer, normalize, fill_partial_header, fill_empty_header, default, noop,
}
use rtmp.Chunk.Builder
use rtmp.Chunk.Builder.{Builder, new_builder, build, bytes_left}
use rtmp.Chunk.Builder.Progress.{Holds, Holds-append}
use rtmp.Chunk.Reader.{
  DefaultReader, Event, chunk, update_chunk_size, remove_builder, iterate, recv,
}
use rtmp.Chunk.BasicHeader.RoundTrip as BasicLaws
use rtmp.Chunk.Header.RoundTrip.{read_continuation}
use rtmp.Chunk.Writer.{continuation}
use rtmp.Chunk.Writer.Pieces.{
  pieces, joined, joined_last, joined_more, length-pieces_last, length-pieces_more,
}
use mathlib.Core.Path.{subst}
use native.Mathlib.Decide.{dec_le}
use rtmp.Chunk.Reader.Parts.{
  part, complete as complete_chunk, taken, part_last, part_more, headed, iterate_old,
}

-- The header that the continuation byte stands for.
abbrev pub continuation_header : ℕ → Header
continuation_header id = record Header.empty {
  basic_header = record { format_id = 3; stream_id = id };
  message_header = record MessageHeader.empty { format_id = 3 };
}

buf-continuation :
    (id : ℕ)
    → id < 63
    → BasicHeader.buf (record { format_id = 3; stream_id = id }) ≡ continuation id ∷ []
unfolding continuation
buf-continuation id h =
    let e = bit_or_format (192 + id) (omega arith) in
    let hi : (192 + id) / 64 * 64 ≡ 192 = omega arith in
    let lo : (192 + id) % 64 ≡ id % 64 = omega arith in
    let whole = rw (hi, lo) at e in
    BasicLaws.buf_one_byte (record { format_id = 3; stream_id = id }) (omega arith) (omega arith)
    ∙ ap (λ b. b ∷ []) (omega (arith, whole))

-- The continuation byte of a stream between 1 and 62 is read as the header of a part of it.
pub read-continuation :
    (id : ℕ) (s : List ℕ)
    → 0 < id
    → id < 63
    → Header.read Header.empty (continuation id ∷ s) ≡ (ok (continuation_header id), s)
read-continuation id s h0 h =
    ap (λ l. Header.read Header.empty (l ++ s)) (sym (buf-continuation id h))
    ∙ read_continuation (record { format_id = 3; stream_id = id }) s
        (record {
          format = omega arith;
          positive = h0;
          not_marker = omega arith;
          bounded = omega arith;
        })
        refl

-- No normalizer changes a basic header.
pub basic_header-normalize :
    (h : Header) (n : Normalizer) → (normalize h n).0.basic_header ≡ h.basic_header
unfolding normalize fill_partial_header fill_empty_header
basic_header-normalize h noop = refl
basic_header-normalize h (default n) = ground arith

-- What the reader is when the chunk on stream `id` is done: at `rest`, with no builder for it.
pub record After (id : ℕ) (r r' : DefaultReader) (rest : List ℕ) : Type 0 where
  pub source_is : r'.source ≡ rest
  pub size_is : r'.read_size ≡ r.read_size
  pub builders_are :
      (j : ℕ) → FinMap.get r'.builders j ≡ (if id == j then none else FinMap.get r.builders j)

pub complete_sent :
    (id : ℕ) (c : Chunk) (r : DefaultReader)
    → type_id c ≢ 1
    → complete_chunk id c r ≡ (ok (chunk c ∷ []), remove_builder id r)
unfolding update_chunk_size
complete_sent id c r h = rw (ne→== _ _ h)

pub recv_step :
    (n : ℕ) (r r1 r2 : DefaultReader) (es es' : List Event)
    → iterate r ≡ (ok es, r1)
    → recv n r1 ≡ (ok es', r2)
    → recv (suc n) r ≡ (ok (es ++ es'), r2)
unfolding recv
recv_step n r r1 r2 es es' e e' = rw (e, e')

pub recv_one :
    (r r1 : DefaultReader) (es : List Event) → iterate r ≡ (ok es, r1) → recv 1 r ≡ (ok es, r1)
unfolding recv
recv_one r r1 es e = rw (e, append-nil)

-- One round at a continuation byte of a stream that has a builder.
pub iterate-continuation :
    (id : ℕ) (r : DefaultReader) (b : Builder) (s : List ℕ)
    → 0 < id
    → id < 63
    → FinMap.get r.builders id ≡ some b
    → r.source ≡ continuation id ∷ s
    → iterate r ≡ part id b (headed r (continuation_header id) s)
iterate-continuation id r b s h0 h old src =
    let h' = (normalize (continuation_header id) r.normalizer).0 in
    let q : h'.basic_header.stream_id ≡ id =
      ap (λ x. x.stream_id) (basic_header-normalize (continuation_header id) r.normalizer) in
    subst (λ k. iterate r ≡ part k b (headed r (continuation_header id) s)) q
      (iterate_old r (continuation_header id) h' s b
        (ap (Header.read Header.empty) src ∙ read-continuation id s h0 h) refl
        (ap (FinMap.get r.builders) q ∙ old))

module _ (id size : ℕ) (hd : Header) (all rest : List ℕ) where
  -- The reader that waits for the payload `d` of the chunk, cut into pieces.
  pub record Waits (fuel : ℕ) (r : DefaultReader) (b : Builder) (got d : List ℕ) : Type 0 where
    pub size_is : r.read_size ≡ pos size
    pub builder_is : FinMap.get r.builders id ≡ some b
    pub holds : Holds b hd got (length d)
    pub source_is : r.source ≡ continuation id ∷ (joined id (pieces fuel size d) ++ rest)
    pub whole : got ++ d ≡ all

-- The last part of a chunk, and one before it, once the header of the part has been read.
module _ (id size : ℕ) (hd : Header) (all rest : List ℕ) (r : DefaultReader) (b : Builder)
    (got : List ℕ) where
  pub last_part :
      (d : List ℕ)
      → hd.message_header.type_id ≢ 1
      → Holds b hd got (length d)
      → length d ≤ size
      → r.read_size ≡ pos size
      → r.source ≡ d ++ rest
      → got ++ d ≡ all
      → (r' : DefaultReader) × (part id b r
          ≡ (ok (chunk (record { header = hd; contents = all }) ∷ []), r'))
        × After id r r' rest
  unfolding remove_builder
  last_part d sent v fits rs e whole = (
    remove_builder id (taken id size b hd got rest r d),
    part_last id size b hd got rest r d v fits rs e
        ∙ ap
            (λ l.
              complete_chunk id (record { header = hd; contents = l })
                (taken id size b hd got rest r d))
            whole
        ∙ complete_sent id (record { header = hd; contents = all })
            (taken id size b hd got rest r d) (unfold type_id in sent),
    record { source_is = refl; size_is = refl; builders_are = λ j. simp map_laws (ground arith) },
  )

  pub more_part :
      (fuel x : ℕ) (xs : List ℕ)
      → 0 < size
      → Holds b hd got (length (x ∷ xs))
      → size < length (x ∷ xs)
      → length (x ∷ xs) ≤ suc fuel
      → r.read_size ≡ pos size
      → r.source ≡ joined id (pieces (suc fuel) size (x ∷ xs)) ++ rest
      → got ++ x ∷ xs ≡ all
      → (r' : DefaultReader) × (b' : Builder) × (part id b r ≡ (ok [], r'))
        × Waits id size hd all rest fuel r' b' (got ++ take size (x ∷ xs)) (drop size (x ∷ xs))
        × ((j : ℕ)
            → FinMap.get r'.builders j ≡ (if id == j then some b' else FinMap.get r.builders j))
  more_part fuel x xs pos_size v over hf rs e whole =
      let d = x ∷ xs in
      let tail = continuation id ∷ (joined id (pieces fuel size (drop size d)) ++ rest) in
      let n = length-take_le size d (omega arith) in
      let left : length d - length (take size d) ≡ length (drop size d) =
        omega (arith, n, length-drop size d) in
      (
        taken id size b hd got tail r (take size d),
        (Builder.append (take size d) b).1,
        part_more id size b hd got tail r d v over rs (
            e
            ∙ ap (λ l. l ++ rest) (joined_more fuel size id x xs over hf pos_size)
            ∙ append_assoc (take size d) _ rest),
        record {
          size_is = rs;
          builder_is = simp (get-put, ==_refl);
          holds =
              rw left at ((Holds-append b hd got (take size d) (length d) v (omega (arith, n))).1);
          source_is = refl;
          whole =
              append_assoc got (take size d) (drop size d)
              ∙ ap (λ l. got ++ l) (take-append-drop size d)
              ∙ whole;
        },
        λ j. get-put r.builders id j _,
      )

-- From the second part on, the rounds of the pieces send the chunk.
module _ (id size : ℕ) (hd : Header) (all rest : List ℕ) (h0 : 0 < id) (h63 : id < 63)
    (pos_size : 0 < size) (sent : hd.message_header.type_id ≢ 1) where
  pub recv-pieces :
      (fuel : ℕ) (r : DefaultReader) (b : Builder) (got d : List ℕ)
      → Waits id size hd all rest fuel r b got d
      → 0 < length d
      → length d ≤ fuel
      → (r' : DefaultReader) × (recv (length (pieces fuel size d)) r
          ≡ (ok (chunk (record { header = hd; contents = all }) ∷ []), r'))
        × After id r r' rest
  recv-pieces fuel r b got [] v some_left hf = absurd (omega arith)
  recv-pieces zero r b got (x ∷ xs) v some_left hf = absurd (omega arith)
  recv-pieces (suc fuel) r b got (x ∷ xs) v some_left hf = elim (dec_le (length (x ∷ xs)) size) [
    | yes fits ↦
        let s = joined id (pieces (suc fuel) size (x ∷ xs)) ++ rest in
        let (r', e, after) =
          last_part id size hd all rest (headed r (continuation_header id) s) b got (x ∷ xs) sent
            v.holds fits v.size_is (ap (λ l. l ++ rest) (joined_last fuel size id x xs fits))
            v.whole in
        (
          r',
          rw (length-pieces_last fuel size x xs fits)
              (recv_one r r' _ (iterate-continuation id r b s h0 h63 v.builder_is v.source_is ∙ e)),
          record {
            source_is = after.source_is;
            size_is = after.size_is;
            builders_are = after.builders_are;
          },
        )
    | no over ↦
        let s = joined id (pieces (suc fuel) size (x ∷ xs)) ++ rest in
        let (r1, b1, e, w, with_b1) =
          more_part id size hd all rest (headed r (continuation_header id) s) b got fuel x xs
            pos_size v.holds (omega arith) hf v.size_is refl v.whole in
        let n = length-drop size (x ∷ xs) in
        let (r2, later, after) =
          recv-pieces fuel r1 b1 (got ++ take size (x ∷ xs)) (drop size (x ∷ xs)) w
            (omega (arith, n)) (omega (arith, n)) in
        (
          r2,
          rw (length-pieces_more fuel size x xs) (
              recv_step _ r r1 r2 [] _
                (iterate-continuation id r b s h0 h63 v.builder_is v.source_is ∙ e) later),
          record {
            source_is = after.source_is;
            size_is = after.size_is ∙ w.size_is ∙ sym v.size_is;
            builders_are = λ j. ground (arith, after.builders_are j, with_b1 j);
          },
        )
  ]
