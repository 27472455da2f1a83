-- ===== src/Chunk/Reader/Parts.antt =====
-- One round of the reader: the part of a chunk that it reads, and what it does with it.
use rtmp.Base.{
  ℕ, ◌-◌, ◌≤◌, ◌<◌, ◌≡◌, refl, ap, ◌∙◌, none, some, List, [], ◌∷◌, ◌++◌, arith, if◌then◌else◌,
  ne→==, length, take, length-take_le, Result, ok, Exec, ◌>>=◌,
}
use rtmp.Base.Int.{pos}
use rtmp.Base.FinMap
use rtmp.Base.FinMap.{FinMap, map_laws, get-put, get-remove}
use rtmp.Spec
use rtmp.Spec.{
  uint16, uint32, little_endian_uint32, bytes16, bytes24, bytes32, bytes32_le, put_uint8,
  put_uint16, put_uint24, put_uint32, little_endian_put_uint32, read_byte, read_bytes,
}
use rtmp.Spec.RoundTrip.{min-pos}
use rtmp.Chunk.Header
use rtmp.Chunk.Header.{Header}
use rtmp.Chunk.Chunk.{Chunk}
use rtmp.Chunk.Normalizer.{normalize}
use rtmp.Chunk.Builder
use rtmp.Chunk.Builder.{Builder, new_builder, build, bytes_left}
use rtmp.Chunk.Builder.Progress.{Holds, Holds-append, read-part}
use rtmp.Chunk.Reader.{
  DefaultReader, Event, chunk, update_chunk_size, builder, remove_builder, deliver, after_read,
  iterate,
}

-- A part of the chunk that `b` builds.
abbrev pub part : ℕ → Builder → Exec DefaultReader (List Event)
part id b r = after_read id r (Builder.read (Spec.min (bytes_left b) r.read_size) b r.source)

-- What the round does with a complete chunk.
abbrev pub complete : ℕ → Chunk → Exec DefaultReader (List Event)
complete id c r =
    (do
      done ← update_chunk_size c
      λ r'. (ok (if done then [] else chunk c ∷ []), remove_builder id r'))
      r

module _ (id : ℕ) (b : Builder) (h : Header) (got : List ℕ) (r : DefaultReader) where
  deliver-complete :
      Holds b h got 0 → deliver id b r ≡ complete id (record { header = h; contents = got }) r
  unfolding deliver
  deliver-complete v =
      rw (v.left_is)
        (ap (λ c. complete id c r) (λ i. record { header = v.header_is i; contents = v.got_is i }))

  deliver_partial : (want : ℕ) → Holds b h got want → 0 < want → deliver id b r ≡ (ok [], r)
  unfolding deliver
  deliver_partial want v h0 = rw v.left_is (rw (ne→== want 0 (omega arith)))

bytes_left-Holds :
    (b : Builder) (h : Header) (got : List ℕ) (want : ℕ)
    → Holds b h got want
    → bytes_left b ≡ pos want
unfolding bytes_left
bytes_left-Holds b h got want v = v.left_is

module _ (id size : ℕ) (b : Builder) (h : Header) (got rest : List ℕ) (r : DefaultReader) where
  -- The reader after it has read `xs` into the builder.
  abbrev pub taken : List ℕ → DefaultReader
  taken xs = record r { builders = FinMap.put r.builders id (Builder.append xs b).1; source = rest }

  read_some :
      (d xs : List ℕ) (n : ℕ)
      → Holds b h got (length d)
      → r.read_size ≡ pos size
      → r.source ≡ xs ++ rest
      → Spec.min (pos (length d)) (pos size) ≡ pos n
      → length xs ≡ n
      → n ≤ length d
      → Builder.read (Spec.min (bytes_left b) r.read_size) b r.source
        ≡ (ok n, (Builder.append xs b).1, rest)
  read_some d xs n v rs e m len fits =
      simp (bytes_left-Holds b h got (length d) v, rs, e)
        (rw m (read-part b h got xs rest (length d) n v len fits))

  pub part_last :
      (d : List ℕ)
      → Holds b h got (length d)
      → length d ≤ size
      → r.read_size ≡ pos size
      → r.source ≡ d ++ rest
      → part id b r ≡ complete id (record { header = h; contents = got ++ d }) (taken d)
  part_last d v fits rs e =
      let z : length d - length d ≡ 0 = omega arith in
      let all = rw z at ((Holds-append b h got d (length d) v (omega arith)).1) in
      ap (after_read id r)
        (read_some d d (length d) v rs e (min-pos (length d) size fits).0 refl (omega arith))
      ∙ deliver-complete id (Builder.append d b).1 h (got ++ d) (taken d) all

  pub part_more :
      (d : List ℕ)
      → Holds b h got (length d)
      → size < length d
      → r.read_size ≡ pos size
      → r.source ≡ take size d ++ rest
      → part id b r ≡ (ok [], taken (take size d))
  part_more d v over rs e =
      let n = length-take_le size d (omega arith) in
      let more = (Holds-append b h got (take size d) (length d) v (omega (arith, n))).1 in
      ap (after_read id r) (
        read_some d (take size d) size v rs e (min-pos size (length d) (omega arith)).1 n
          (omega arith))
      ∙ deliver_partial id (Builder.append (take size d) b).1 h (got ++ take size d)
          (taken (take size d)) _ more (omega (arith, n))

-- The round goes on with the builder that it finds, or makes, for the stream.
abbrev with_builder : ℕ → Builder × DefaultReader → Result (List Event) × DefaultReader
with_builder id p = part id p.0 p.1

builder_old :
    (r : DefaultReader) (h : Header) (b : Builder)
    → FinMap.get r.builders h.basic_header.stream_id ≡ some b
    → builder h r ≡ (b, r)
unfolding builder
builder_old r h b e = rw (e, builder)

abbrev pub with_new_builder : Header → DefaultReader → DefaultReader
with_new_builder h r = record r {
  builders = FinMap.put r.builders h.basic_header.stream_id (new_builder h);
}

builder_new :
    (r : DefaultReader) (h : Header)
    → FinMap.get r.builders h.basic_header.stream_id ≡ none
    → builder h r ≡ (new_builder h, with_new_builder h r)
unfolding builder
builder_new r h e = rw (e, builder)

-- The reader when the header has been read and normalized.
abbrev pub headed : DefaultReader → Header → List ℕ → DefaultReader
headed r h s = record r { source = s; normalizer = (normalize h r.normalizer).1 }

iterate-headed :
    (r : DefaultReader) (h h' : Header) (s : List ℕ)
    → Header.read Header.empty r.source ≡ (ok h, s)
    → (normalize h r.normalizer).0 ≡ h'
    → iterate r ≡ with_builder h'.basic_header.stream_id (builder h' (headed r h s))
unfolding iterate
iterate-headed r h h' s e n = rw (e, n)

pub iterate_old :
    (r : DefaultReader) (h h' : Header) (s : List ℕ) (b : Builder)
    → Header.read Header.empty r.source ≡ (ok h, s)
    → (normalize h r.normalizer).0 ≡ h'
    → FinMap.get r.builders h'.basic_header.stream_id ≡ some b
    → iterate r ≡ part h'.basic_header.stream_id b (headed r h s)
iterate_old r h h' s b e n old =
    iterate-headed r h h' s e n
    ∙ ap (with_builder h'.basic_header.stream_id) (builder_old (headed r h s) h' b old)

pub iterate_new :
    (r : DefaultReader) (h h' : Header) (s : List ℕ)
    → Header.read Header.empty r.source ≡ (ok h, s)
    → (normalize h r.normalizer).0 ≡ h'
    → FinMap.get r.builders h'.basic_header.stream_id ≡ none
    → iterate r
      ≡ part h'.basic_header.stream_id (new_builder h') (with_new_builder h' (headed r h s))
iterate_new r h h' s e n new =
    iterate-headed r h h' s e n
    ∙ ap (with_builder h'.basic_header.stream_id) (builder_new (headed r h s) h' new)
