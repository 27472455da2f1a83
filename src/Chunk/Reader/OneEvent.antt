-- ===== src/Chunk/Reader/OneEvent.antt =====
-- What a round of the reader of chunk/default_reader.go sends at most.
use rtmp.Base.{
  ℕ, ◌≤◌, List, [], ◌∷◌, Bool, true, false, inl, inr, Bool-cases, if◌then◌else◌, arith, length,
  Result, ok, err, panicked, proceed,
}
use rtmp.Base.Int.{is_zero}
use rtmp.Chunk.Header
use rtmp.Chunk.Header.{Header}
use rtmp.Chunk.Chunk.{Chunk}
use rtmp.Spec
use rtmp.Chunk.Normalizer.{normalize}
use rtmp.Chunk.Builder
use rtmp.Chunk.Builder.{Builder, build, bytes_left}
use rtmp.Chunk.Reader.{
  DefaultReader, Event, chunk, update_chunk_size, builder, remove_builder, deliver, after_read,
  receive, after_header, iterate,
}

-- A round makes one event at most.
abbrev pub MakesOne : Result (List Event) × DefaultReader → Type 0
MakesOne (ok es, r) = length es ≤ 1
MakesOne (err e, r) = Unit {0}
MakesOne (panicked, r) = Unit {0}

MakesOne-updated :
    (id : ℕ) (c : Chunk) (q : Result Bool × DefaultReader)
    → MakesOne (proceed q (λ done r. (ok (if done then [] else chunk c ∷ []), remove_builder id r)))
MakesOne-updated id c (ok true, r) = omega arith
MakesOne-updated id c (ok false, r) = omega arith
MakesOne-updated id c (err e, r) = tt
MakesOne-updated id c (panicked, r) = tt

MakesOne-deliver : (id : ℕ) (b : Builder) (r : DefaultReader) → MakesOne (deliver id b r)
unfolding deliver
MakesOne-deliver id b r = elim (Bool-cases (is_zero (bytes_left b))) [
  | inl e ↦ rw e (MakesOne-updated id (build b) (update_chunk_size (build b) r))
  | inr e ↦ rw e (omega arith)
]

MakesOne-after_read :
    (id : ℕ) (r : DefaultReader) (q : Result ℕ × Builder × List ℕ) → MakesOne (after_read id r q)
MakesOne-after_read id r (ok n, b, s) = MakesOne-deliver id b _
MakesOne-after_read id r (err e, b, s) = omega arith
MakesOne-after_read id r (panicked, b, s) = tt

MakesOne-receive : (h : Header) (r : DefaultReader) → MakesOne (receive h r)
unfolding receive
MakesOne-receive h r =
    let p =
      builder (normalize h r.normalizer).0
        (record r { normalizer = (normalize h r.normalizer).1 }) in
    MakesOne-after_read (normalize h r.normalizer).0.basic_header.stream_id p.1
      (Builder.read (Spec.min (bytes_left p.0) p.1.read_size) p.0 p.1.source)

MakesOne-after_header :
    (r : DefaultReader) (q : Result Header × List ℕ) → MakesOne (after_header r q)
MakesOne-after_header r (ok h, s) = MakesOne-receive h (record r { source = s })
MakesOne-after_header r (err e, s) = omega arith
MakesOne-after_header r (panicked, s) = tt

pub MakesOne-iterate : (r : DefaultReader) → MakesOne (iterate r)
unfolding iterate
MakesOne-iterate r = MakesOne-after_header r (Header.read Header.empty r.source)
