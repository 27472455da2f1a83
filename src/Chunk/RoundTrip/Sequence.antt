-- ===== src/Chunk/RoundTrip/Sequence.antt =====
-- What the writer writes, the reader reads: whole chunks, in their order.
use rtmp.Base.{
  ℕ, zero, suc, ◌+◌, ◌<◌, ◌≡◌, refl, sym, ap, ◌∙◌, Option, none, some, List, [], ◌∷◌, ◌++◌,
  append-nil, append_assoc, map, arith, All, Result, ok, err, panicked, proceed-eq-ok, ok-injective,
}
use rtmp.Base.Int.{pos}
use rtmp.Base.FinMap
use rtmp.Base.FinMap.{FinMap, map_laws, get-put, get-remove}
use rtmp.Io
use rtmp.Io.{Input, Output, Sink, buffer, read_full, read_one, read_all, split, filled}
use rtmp.Chunk.Chunk.{Chunk}
use rtmp.Chunk.Normalizer.{Normalizer}
use rtmp.Chunk.Reader.{DefaultReader, Event, chunk, new_reader, iterate, recv}
use rtmp.Chunk.Writer.{DefaultWriter, continuation}
use rtmp.Chunk.Writer
use rtmp.Chunk.Writer.Pieces.{wire, write-wire}
use rtmp.Chunk.Reader.Continuation.{recv_step}
use rtmp.Chunk.RoundTrip.Single.{IsSendable, rounds, recv-wire}

-- A run of chunks on the wire, and the rounds that it takes.
unfoldable pub wires : ℕ → List Chunk → List ℕ
wires size [] = []
wires size (c ∷ cs) = wire size c ++ wires size cs

unfoldable pub total_rounds : ℕ → List Chunk → ℕ
total_rounds size [] = 0
total_rounds size (c ∷ cs) = rounds size c.contents + total_rounds size cs

-- Between chunks: no builder is under way.
pub record IsIdle (size : ℕ) (r : DefaultReader) (s : List ℕ) : Type 0 where
  pub source_is : r.source ≡ s
  pub size_is : r.read_size ≡ pos size
  pub no_builder : (id : ℕ) → FinMap.get r.builders id ≡ none

suc_add : (m n : ℕ) → suc m + n ≡ suc (m + n)
suc_add m n = omega arith

pub recv-suc_inv :
    (m : ℕ) (r r1 : DefaultReader) (es : List Event)
    → recv (suc m) r ≡ (ok es, r1)
    → (es0 es1 : List Event) × (r0 : DefaultReader) × (iterate r ≡ (ok es0, r0))
      × (recv m r0 ≡ (ok es1, r1))
      × (es ≡ es0 ++ es1)
unfolding recv
recv-suc_inv m r r1 es e =
    let (es0, r0, first, more) = proceed-eq-ok (iterate r) _ e in
    let (es1, r', later, last) = proceed-eq-ok (recv m r0) _ more in
    let (parts, same) = ok-injective last in
    (es0, es1, r0, first, later ∙ ap (λ q. (ok es1, q)) same, sym parts)

pub recv_zero_inv :
    (r r1 : DefaultReader) (es : List Event) → recv 0 r ≡ (ok es, r1) → ([] ≡ es) × (r ≡ r1)
unfolding recv
recv_zero_inv r r1 es e = ok-injective e

pub recv-add :
    (m n : ℕ) (r r1 r2 : DefaultReader) (es es' : List Event)
    → recv m r ≡ (ok es, r1)
    → recv n r1 ≡ (ok es', r2)
    → recv (m + n) r ≡ (ok (es ++ es'), r2)
recv-add zero n r r1 r2 es es' e e' =
    let (none_sent, same) = recv_zero_inv r r1 es e in
    let z : 0 + n ≡ n = omega arith in
    ap (λ k. recv k r) z ∙ ap (recv n) same ∙ e' ∙ ap (λ l. (ok (l ++ es'), r2)) none_sent
recv-add (suc m) n r r1 r2 es es' e e' =
    let (es0, es1, r0, first, later, split) = recv-suc_inv m r r1 es e in
    rw (split, suc_add m n)
      (recv_step (m + n) r r0 r2 es0 (es1 ++ es') first (recv-add m n r0 r1 r2 es1 es' later e')
        ∙ rw append_assoc)

pub IsIdle-new_reader :
    (size : ℕ) (s : List ℕ) (n : Normalizer) → IsIdle size (new_reader s (pos size) n) (s ++ [])
unfolding new_reader FinMap.get
IsIdle-new_reader size s n = record {
  source_is = sym (append-nil s);
  size_is = refl;
  no_builder = λ id. refl;
}

-- Between chunks, the reader sends a run of chunks as they were written, in their order, and is then
-- between chunks again, behind them.
pub recv-wires :
    (size : ℕ) (cs : List Chunk) (rest : List ℕ) (r : DefaultReader)
    → 0 < size
    → All (IsSendable size) cs
    → IsIdle size r (wires size cs ++ rest)
    → (r' : DefaultReader) × (recv (total_rounds size cs) r ≡ (ok (map chunk cs), r'))
      × IsIdle size r' rest
unfolding wires total_rounds
recv-wires size [] rest r h0 vs idle = (r, unfold recv in refl, idle)
recv-wires size (c ∷ cs) rest r h0 (v, vs) idle =
    let (r1, sent, after) =
      recv-wire size c (wires size cs ++ rest) r v h0 idle.size_is
        (idle.no_builder c.header.basic_header.stream_id)
        (idle.source_is ∙ append_assoc (wire size c) (wires size cs) rest) in
    let (r2, later, idle2) = recv-wires size cs rest r1 h0 vs (record {
      source_is = after.source_is;
      size_is = after.size_is ∙ idle.size_is;
      no_builder = λ id. ground (arith, after.builders_are id, idle.no_builder id);
    }) in
    (r2, recv-add (rounds size c.contents) (total_rounds size cs) r r1 r2 _ _ sent later, idle2)

abbrev then_write :
    (DefaultWriter → Option DefaultWriter)
    → Option (Result (Unit {0}) × DefaultWriter)
    → Option DefaultWriter
then_write next (some (ok u, w)) = next w
then_write next (some (err e, w)) = none
then_write next (some (panicked, w)) = none
then_write next none = none

-- A client that writes one chunk after the other, and stops at an error or a call that does not
-- return.
unfoldable pub write_all : List Chunk → DefaultWriter → Option DefaultWriter
write_all [] w = some w
write_all (c ∷ cs) w = then_write (write_all cs) (Writer.write c w)

pub write-wire-buffer :
    (size : ℕ) (c : Chunk) (out : List ℕ)
    → 0 < size
    → Writer.write c (Writer.new_writer (buffer out) (pos size))
      ≡ some (ok tt, Writer.new_writer (buffer (out ++ wire size c)) (pos size))
unfolding Writer.new_writer Io.write
write-wire-buffer size c out h0 =
    write-wire c (Writer.new_writer (buffer out) (pos size)) size refl h0

-- Every write to a buffer returns without an error, and appends the wire form.
pub write_all-wires :
    (size : ℕ) (cs : List Chunk) (out : List ℕ)
    → 0 < size
    → write_all cs (Writer.new_writer (buffer out) (pos size))
      ≡ some (Writer.new_writer (buffer (out ++ wires size cs)) (pos size))
unfolding write_all wires Writer.new_writer
write_all-wires size [] out h0 = rw append-nil
write_all-wires size (c ∷ cs) out h0 =
    ap (then_write (write_all cs)) (write-wire-buffer size c out h0)
    ∙ write_all-wires size cs (out ++ wire size c) h0
    ∙ rw append_assoc

-- Sendable chunks that are written one after the other to a buffer, with a positive write size, are
-- what a new reader of that size sends from the buffer: the same chunks in the same order, with no
-- error between them, and the whole buffer is read.
pub recv-write_all :
    (size : ℕ) (cs : List Chunk) (n : Normalizer)
    → 0 < size
    → All (IsSendable size) cs
    → (w : DefaultWriter) × (r : DefaultReader) × (write_all cs
          (Writer.new_writer (buffer []) (pos size))
        ≡ some w)
      × (recv (total_rounds size cs) (new_reader w.dest.written (pos size) n)
          ≡ (ok (map chunk cs), r))
      × IsIdle size r []
unfolding Writer.new_writer
recv-write_all size cs n h0 vs =
    let (r, sent, idle) =
      recv-wires size cs [] (new_reader (wires size cs) (pos size) n) h0 vs
        (IsIdle-new_reader size (wires size cs) n) in
    (
      Writer.new_writer (buffer (wires size cs)) (pos size),
      r,
      write_all-wires size cs [] h0,
      sent,
      idle,
    )
