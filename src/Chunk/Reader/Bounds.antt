-- ===== src/Chunk/Reader/Bounds.antt =====
-- How much the reader of chunk/default_reader.go holds of what a peer sends.
use rtmp.Base.{ℕ, ◌^◌, ◌<◌, List, [], ◌∷◌, arith, length, All, Result, ok, err, panicked}
use rtmp.Base.FinMap
use rtmp.Base.FinMap.{AllValues, AllValues-put, AllValues-remove}
use rtmp.Base.Int.{ℤ}
use rtmp.Io.Bytes.{IsByte}
use rtmp.Chunk.Normalizer.{new_normalizer}
use rtmp.Chunk.Builder.{concat}
use rtmp.Chunk.Reader.{DefaultReader, Event, chunk, error, new_reader, recv}
use rtmp.Chunk.Reader.Invariant.{IsConsistent, HasLength, IsSound, recv-IsSound}
use rtmp.Chunk.Reader.Announced.{IsBounded, IsShortChunk, StaysBounded, StaysBounded-recv}

-- A chunk that was sent has fewer than 2^24 bytes.
abbrev pub HasFewBytes : Event → Type 0
HasFewBytes (chunk c) = length c.contents < 2 ^ 24
HasFewBytes (error e) = Unit {0}

-- So have the chunks that were sent, and what each builder under way has received; a panic is possible.
abbrev pub HoldsLittle : Result (List Event) × DefaultReader → Type 0
HoldsLittle (ok es, r) =
    All HasFewBytes es × AllValues (λ b. length (concat b.payloads) < 2 ^ 24) r.builders
HoldsLittle (err e, r) = ⊥
HoldsLittle (panicked, r) = Unit {0}

few_bytes : (es : List Event) → All IsShortChunk es → All HasLength es → All HasFewBytes es
few_bytes [] short len = tt
few_bytes (chunk c ∷ es) (short, shorts) (len, lens) = (omega arith, few_bytes es shorts lens)
few_bytes (error e ∷ es) (short, shorts) (len, lens) = (tt, few_bytes es shorts lens)

holds_little :
    (p : Result (List Event) × DefaultReader) → StaysBounded p → IsSound p → HoldsLittle p
holds_little (ok es, r) (shorts, v) (lens, w) = (
  few_bytes es shorts lens,
  λ id b e. let wants = v.wants id b e in omega (arith, (w.balanced id b e).adds_up),
)
holds_little (err e, r) v w = w
holds_little (panicked, r) v w = tt

-- Whatever bytes a peer sends, and however many rounds a consistent reader makes that keeps no header
-- that announces 2^24 bytes or more: it does not end by an error, and unless it panics, every chunk
-- that it has sent and every chunk that it still gathers has fewer than 2^24 bytes.
pub recv-HoldsLittle :
    (n : ℕ) (r : DefaultReader) → IsConsistent r → IsBounded r → HoldsLittle (recv n r)
recv-HoldsLittle n r w v = holds_little (recv n r) (StaysBounded-recv n r v) (recv-IsSound n r w)

-- A new reader keeps no header.
pub IsBounded-new_reader :
    (s : List ℕ) (size : ℤ) → All IsByte s → IsBounded (new_reader s size new_normalizer)
unfolding new_reader FinMap.get
IsBounded-new_reader s size hs = record {
  bytes = hs;
  wants = λ id b e. absurd (cc e);
  remembers = (tt, λ id h e. absurd (cc e));
}
