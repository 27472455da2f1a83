-- ===== src/Chunk/Reader/Announced.antt =====
-- The rounds of the reader of chunk/default_reader.go keep no header that announces a long payload.
use rtmp.Base.{
  ℕ, zero, suc, ◌≡◌, refl, sym, inl, inr, Bool, List, [], ◌∷◌, ◌++◌, ◌==◌, if◌then◌else◌,
  Bool-cases, Option-cases, length, All, All-append, Result, ok, err, panicked, pure, proceed,
  ◌>>=◌,
}
use rtmp.Base.FinMap
use rtmp.Base.FinMap.{AllValues, AllValues-put, AllValues-remove}
use rtmp.Base.Int.{ℤ, pos, negsuc, ltb_ℤ, ◌-ℤ◌, is_zero}
use rtmp.Io.{read_full}
use rtmp.Io.Bytes.{IsByte, Ensures, Ensures-read_full}
use rtmp.Spec
use rtmp.Chunk.Header
use rtmp.Chunk.Header.{Header}
use rtmp.Chunk.Header.Bounds.{IsShort, Ensures-read-empty}
use rtmp.Chunk.Normalizer.{normalize}
use rtmp.Chunk.Normalizer.Bounds.{Remembers, IsShort-normalize}
use rtmp.Chunk.Builder
use rtmp.Chunk.Builder.{Builder, new_builder, build, bytes_left, concat, append_read}
use rtmp.Chunk.Reader.{
  DefaultReader, Event, chunk, error, update_chunk_size, set_read_size, resized, builder,
  remove_builder, deliver, receive, after_read, after_header, iterate, recv,
}
use mathlib.Core.Path.{subst}
use rtmp.Spec.{be_uint32}
use rtmp.Chunk.Chunk.{Chunk, type_id}

abbrev Wants : Builder → Type 0
Wants b = IsShort b.header

-- What comes in are bytes, and no header that is kept announces 2^24 bytes or more.
pub record IsBounded (r : DefaultReader) : Type 0 where
  pub bytes : All IsByte r.source
  pub wants : AllValues Wants r.builders
  pub remembers : Remembers r.normalizer

abbrev pub IsShortChunk : Event → Type 0
IsShortChunk (chunk c) = IsShort c.header
IsShortChunk (error e) = Unit {0}

-- A call that has come back with events of short chunks, or has panicked.
abbrev pub StaysBounded : Result (List Event) × DefaultReader → Type 0
StaysBounded (ok es, r) = All IsShortChunk es × IsBounded r
StaysBounded (err e, r) = Unit {0}
StaysBounded (panicked, r) = Unit {0}

-- The read of a part keeps the header of its builder.
abbrev KeepsHeader : Header → Result ℕ × Builder × List ℕ → Type 0
KeepsHeader h (ok n, b, s) = (b.header ≡ h) × All IsByte s
KeepsHeader h (err e, b, s) = (b.header ≡ h) × All IsByte s
KeepsHeader h (panicked, b, s) = Unit {0}

KeepsHeader-append_read :
    (b : Builder) (p : Result (List ℕ) × List ℕ)
    → Ensures (All IsByte) p
    → KeepsHeader b.header (append_read b p)
unfolding Builder.append
KeepsHeader-append_read b (ok buf, s) (h, hs) =
    elim (Bool-cases (ltb_ℤ (b.left -ℤ length buf) (pos 0))) [
      | inl e ↦ rw e (refl, hs)
      | inr e ↦ rw e (refl, hs)
    ]
KeepsHeader-append_read b (err e, s) hs = (refl, hs)
KeepsHeader-append_read b (panicked, s) h = tt

KeepsHeader-read :
    (n : ℤ) (b : Builder) (s : List ℕ) → All IsByte s → KeepsHeader b.header (Builder.read n b s)
unfolding Builder.read
KeepsHeader-read (negsuc n) b s hs = tt
KeepsHeader-read (pos n) b s hs =
    KeepsHeader-append_read b (read_full n s) (Ensures-read_full n s hs)

IsBounded-remove_builder :
    (id : ℕ) (r : DefaultReader) → IsBounded r → IsBounded (remove_builder id r)
unfolding remove_builder
IsBounded-remove_builder id r b = record {
  bytes = b.bytes;
  wants = AllValues-remove Wants r.builders id b.wants;
  remembers = b.remembers;
}

IsBounded-put_builder :
    (id : ℕ) (b : Builder) (s : List ℕ) (r : DefaultReader)
    → Wants b
    → All IsByte s
    → IsBounded r
    → IsBounded (record r { builders = FinMap.put r.builders id b; source = s })
IsBounded-put_builder id b s r w hs v = record {
  bytes = hs;
  wants = AllValues-put Wants r.builders id b v.wants w;
  remembers = v.remembers;
}

-- What follows the call for a chunk that may set the read size.
abbrev after_update : ℕ → Chunk → Result Bool × DefaultReader → Result (List Event) × DefaultReader
after_update id c p =
    proceed p (λ done r. (ok (if done then [] else chunk c ∷ []), remove_builder id r))

StaysBounded-resized :
    (id : ℕ) (c : Chunk) (r : DefaultReader) (n : Result ℕ)
    → IsBounded r
    → StaysBounded (after_update id c (resized r n))
unfolding set_read_size
StaysBounded-resized id c r (ok n) b = (
  tt,
  IsBounded-remove_builder id (record r { read_size = pos n })
      (record { bytes = b.bytes; wants = b.wants; remembers = b.remembers }),
)
StaysBounded-resized id c r (err e) b = tt
StaysBounded-resized id c r panicked b = tt

StaysBounded-complete :
    (id : ℕ) (c : Chunk) (r : DefaultReader)
    → IsShort c.header
    → IsBounded r
    → StaysBounded (after_update id c (update_chunk_size c r))
unfolding update_chunk_size
StaysBounded-complete id c r short b = elim (Bool-cases (type_id c == 1)) [
  | inl e ↦ rw e (StaysBounded-resized id c r (be_uint32 c.contents) b)
  | inr e ↦ rw e ((short, tt), IsBounded-remove_builder id r b)
]

StaysBounded-deliver :
    (id : ℕ) (b : Builder) (r : DefaultReader)
    → Wants b
    → IsBounded r
    → StaysBounded (deliver id b r)
unfolding deliver build
StaysBounded-deliver id b r w v = elim (Bool-cases (is_zero (bytes_left b))) [
  | inl e ↦ rw e (StaysBounded-complete id (build b) r w v)
  | inr e ↦ rw e (tt, v)
]

StaysBounded-after_read :
    (id : ℕ) (h : Header) (r : DefaultReader) (p : Result ℕ × Builder × List ℕ)
    → IsShort h
    → KeepsHeader h p
    → IsBounded r
    → StaysBounded (after_read id r p)
StaysBounded-after_read id h r (ok n, b, s) short (same, hs) v =
    let w = subst IsShort (sym same) short in
    StaysBounded-deliver id b (record r { builders = FinMap.put r.builders id b; source = s }) w
      (IsBounded-put_builder id b s r w hs v)
StaysBounded-after_read id h r (err e, b, s) short (same, hs) v =
    ((tt, tt), IsBounded-put_builder id b s r (subst IsShort (sym same) short) hs v)
StaysBounded-after_read id h r (panicked, b, s) short k v = tt

IsBounded-builder :
    (h : Header) (r : DefaultReader)
    → IsShort h
    → IsBounded r
    → Wants (builder h r).0 × IsBounded (builder h r).1
unfolding builder new_builder
IsBounded-builder h r short v =
    elim (Option-cases (FinMap.get r.builders h.basic_header.stream_id)) [
      | inl e ↦
          rw (e, builder)
            (
              short,
              IsBounded-put_builder h.basic_header.stream_id (new_builder h) r.source r short
                  v.bytes v,
            )
      | inr (b, e) ↦ rw (e, builder) (v.wants h.basic_header.stream_id b e, v)
    ]

StaysBounded-receive :
    (h : Header) (r : DefaultReader) → IsShort h → IsBounded r → StaysBounded (receive h r)
unfolding receive
StaysBounded-receive h r short v =
    let (short', remembers) = IsShort-normalize h r.normalizer short v.remembers in
    let h' = (normalize h r.normalizer).0 in
    let r' : DefaultReader = record r { normalizer = (normalize h r.normalizer).1 } in
    let (w, v') =
      IsBounded-builder h' r' short'
        (record { bytes = v.bytes; wants = v.wants; remembers = remembers }) in
    let b = (builder h' r').0 in
    let r2 = (builder h' r').1 in
    StaysBounded-after_read h'.basic_header.stream_id b.header r2 _ w
      (KeepsHeader-read (Spec.min (bytes_left b) r2.read_size) b r2.source v'.bytes) v'

StaysBounded-after_header :
    (r : DefaultReader) (p : Result Header × List ℕ)
    → Ensures IsShort p
    → IsBounded r
    → StaysBounded (after_header r p)
StaysBounded-after_header r (ok h, s) (short, hs) v =
    StaysBounded-receive h (record r { source = s }) short
      (record { bytes = hs; wants = v.wants; remembers = v.remembers })
StaysBounded-after_header r (err e, s) hs v =
    ((tt, tt), record { bytes = hs; wants = v.wants; remembers = v.remembers })
StaysBounded-after_header r (panicked, s) h v = tt

StaysBounded-iterate : (r : DefaultReader) → IsBounded r → StaysBounded (iterate r)
unfolding iterate
StaysBounded-iterate r v =
    StaysBounded-after_header r (Header.read Header.empty r.source)
      (Ensures-read-empty r.source v.bytes) v

StaysBounded-later :
    (es : List Event) (q : Result (List Event) × DefaultReader)
    → All IsShortChunk es
    → StaysBounded q
    → StaysBounded (proceed q (λ later. pure (es ++ later)))
StaysBounded-later es (ok es', r) h (h', v) = (All-append IsShortChunk es es' h h', v)
StaysBounded-later es (err e, r) h v = tt
StaysBounded-later es (panicked, r) h v = tt

StaysBounded-rounds :
    (n : ℕ) (p : Result (List Event) × DefaultReader)
    → StaysBounded p
    → ((r : DefaultReader) → IsBounded r → StaysBounded (recv n r))
    → StaysBounded (proceed p (λ sent. recv n >>= λ later. pure (sent ++ later)))
StaysBounded-rounds n (ok es, r) (h, v) next = StaysBounded-later es (recv n r) h (next r v)
StaysBounded-rounds n (err e, r) v next = tt
StaysBounded-rounds n (panicked, r) v next = tt

pub StaysBounded-recv : (n : ℕ) (r : DefaultReader) → IsBounded r → StaysBounded (recv n r)
unfolding recv
StaysBounded-recv zero r v = (tt, v)
StaysBounded-recv (suc n) r v =
    StaysBounded-rounds n (iterate r) (StaysBounded-iterate r v) (StaysBounded-recv n)
