-- ===== src/Chunk/RoundTrip/Interleaved/Flows.antt =====
-- The reader of chunk/default_reader.go puts interleaved chunks together again.
use rtmp.Base.{
  ℕ, ◌≡◌, refl, sym, ap, ◌∙◌, inl, inr, Option, none, some, List, [], ◌∷◌, ◌++◌, append-nil,
  append_assoc, map, false, ◌==◌, ==_refl, drop, ok, Bool-cases, equal-cases, ne→==,
}
use mathlib.Core.Path.{subst}
use rtmp.Base.Int.{pos}
use rtmp.Base.FinMap
use rtmp.Base.FinMap.{FinMap, map_laws, get-put, get-remove}
use rtmp.Chunk.Chunk.{Chunk}
use rtmp.Chunk.Normalizer.{Normalizer}
use rtmp.Chunk.Reader.{DefaultReader, chunk, new_reader, recv}
use rtmp.Chunk.Reader.Continuation.{recv_step}
use rtmp.Chunk.Flow.{
  Pending, Sender, Step, Flow, put_pending, idle_sender, id_of, whole, first, middle, last, resize,
  stop, piece, on_stream,
}
use rtmp.Chunk.RoundTrip.Interleaved.{Follows, Tracks-none}
use rtmp.Chunk.RoundTrip.Interleaved.Rounds.{Round-Step}
use mathlib.Core.List.{map-append}

-- Let a peer interleave chunks of several streams, one chunk at a time on each:
-- whole chunks with encodable full headers (format 0), none of which is a Set Chunk Size message, and a chunk
-- that is cut has a stream ID below 63 and no extended timestamp; between the pieces it may send Set
-- Chunk Size messages of four bytes, with full headers and not cut. A reader that has the peer's
-- chunk size and a builder for each chunk under way takes one round for each piece and for each such
-- message. It sends the chunks that are finished, each whole and when its last piece is there, and
-- nothing else, and has again the peer's chunk size and a builder for each chunk under way.
pub recv-Flow :
    {m m' : Sender} {n : ℕ} {bytes : List ℕ} {started finished : List Chunk} (rest : List ℕ)
    (r : DefaultReader)
    → Flow m n bytes started finished m'
    → Follows r m (bytes ++ rest)
    → (r' : DefaultReader) × (recv n r ≡ (ok (map chunk finished), r')) × Follows r' m' rest
recv-Flow rest r (stop m) f = (r, unfold recv in refl, f)
recv-Flow rest r (piece {n} {bytes} {bytes'} {started} {started'} {finished} {finished'} st fl) f =
    let (r1, sent, f1) = Round-Step (bytes' ++ rest) r st (record {
      source_is = f.source_is ∙ append_assoc bytes bytes' rest;
      size_is = f.size_is;
      tracks = f.tracks;
    }) in
    let (r2, later, f2) = recv-Flow rest r1 fl f1 in
    (
      r2,
      recv_step n r r1 r2 (map chunk finished) (map chunk finished') sent later
          ∙ ap (λ l. (ok l, r2)) (sym (map-append chunk finished finished')),
      f2,
    )

pub Follows-new_reader :
    (size : ℕ) (s : List ℕ) (n : Normalizer)
    → Follows (new_reader s (pos size) n) (idle_sender size) s
unfolding new_reader FinMap.get
Follows-new_reader size s n = record { source_is = refl; size_is = refl; tracks = λ j. tt }

-- The chunk under way on a stream, if there is one.
abbrev pending_chunks : Option Pending → List Chunk
pending_chunks none = []
pending_chunks (some p) = p.chunk ∷ []

abbrev pending_on : ℕ → Sender → List Chunk
pending_on id m = pending_chunks (FinMap.get m.under_way id)

on_stream-append :
    (id : ℕ) (cs ds : List Chunk) → on_stream id (cs ++ ds) ≡ on_stream id cs ++ on_stream id ds
unfolding on_stream
on_stream-append id [] ds = refl
on_stream-append id (c ∷ cs) ds = elim (Bool-cases (id_of c == id)) [
  | inl e ↦ rw e (ap (λ l. c ∷ l) (on_stream-append id cs ds))
  | inr e ↦ rw e (on_stream-append id cs ds)
]

-- On each stream, what was under way and begins is what is finished and what is then under way.
abbrev IsConserved : Sender → List Chunk → List Chunk → Sender → Type 0
IsConserved m started finished m' =
    (id : ℕ) → pending_on id m ++ on_stream id started ≡ on_stream id finished ++ pending_on id m'

-- A fact of every stream is one of the stream of a chunk, and of the others.
by_stream : (k : ℕ) (P : ℕ → Type 0) → P k → ((j : ℕ) → (k == j) ≡ false → P j) → (j : ℕ) → P j
by_stream k P here there j = elim (equal-cases k j) [
  | inl same ↦ subst P same here
  | inr other ↦ there j (ne→== k j other)
]

Conserved-Step :
    {m m' : Sender} {bytes : List ℕ} {started finished : List Chunk}
    → Step m bytes started finished m'
    → IsConserved m started finished m'
unfolding on_stream
Conserved-Step (whole m c v free fits) =
    by_stream (id_of c)
      (λ id. pending_on id m ++ on_stream id (c ∷ []) ≡ on_stream id (c ∷ []) ++ pending_on id m)
      (rw (free, ==_refl) refl) (λ j e. rw e (append-nil (pending_on j m)))
Conserved-Step (first m c v free over plain) =
    by_stream (id_of c)
      (λ id.
        pending_on id m ++ on_stream id (c ∷ [])
        ≡ pending_on id (put_pending m c (drop m.size c.contents)))
      (rw (free, get-put, ==_refl) refl) (λ j e. rw (get-put, e) (append-nil (pending_on j m)))
Conserved-Step (middle m c d busy over) =
    by_stream (id_of c)
      (λ id. pending_on id m ++ [] ≡ pending_on id (put_pending m c (drop m.size d)))
      (rw (busy, get-put, ==_refl) refl) (λ j e. rw (get-put, e) (append-nil (pending_on j m)))
Conserved-Step (last m c d busy fits) =
    by_stream (id_of c)
      (λ id.
        pending_on id m ++ []
        ≡ on_stream id (c ∷ [])
          ++ pending_on id (record m { under_way = FinMap.remove m.under_way (id_of c) }))
      (rw (busy, get-remove, ==_refl) refl)
      (λ j e. rw (get-remove, e) (append-nil (pending_on j m)))
Conserved-Step (resize m h size v t free fits hs) = λ id. append-nil (pending_on id m)

Conserved-Flow :
    {m m' : Sender} {n : ℕ} {bytes : List ℕ} {started finished : List Chunk}
    → Flow m n bytes started finished m'
    → IsConserved m started finished m'
Conserved-Flow (stop m) id = unfold on_stream in append-nil (pending_on id m)
Conserved-Flow
      (piece {m} {m'} {m''} {n} {bytes} {bytes'} {started} {started'} {finished} {finished'} st fl)
      id =
    let now = Conserved-Step st id in
    let later = Conserved-Flow fl id in
    rw (on_stream-append id started started', on_stream-append id finished finished')
      (sym (append_assoc (pending_on id m) (on_stream id started) (on_stream id started'))
        ∙ ap (λ l. l ++ on_stream id started') now
        ∙ append_assoc (on_stream id finished) (pending_on id m') (on_stream id started')
        ∙ ap (λ l. on_stream id finished ++ l) later
        ∙ sym (append_assoc (on_stream id finished) (on_stream id finished') (pending_on id m'')))

-- Let a peer interleave chunks of several streams, one chunk at a time on each, until none is under way:
-- whole chunks with encodable full headers (format 0), none of which is a Set Chunk Size message, and a chunk
-- that is cut has a stream ID below 63 and no extended timestamp; between the pieces it may send Set
-- Chunk Size messages of four bytes, with full headers and not cut. A new reader of the first
-- chunk size then takes one round for each piece and each such message, and sends, stream by stream,
-- the chunks that the peer has begun on the stream, whole and in their order, and nothing else. All is
-- then read, and no builder is left.
pub recv-on_stream :
    (size n : ℕ) (bytes : List ℕ) (started finished : List Chunk) (m : Sender) (nm : Normalizer)
    → Flow (idle_sender size) n bytes started finished m
    → ((id : ℕ) → FinMap.get m.under_way id ≡ none)
    → (r : DefaultReader) × (recv n (new_reader bytes (pos size) nm) ≡ (ok (map chunk finished), r))
      × ((id : ℕ) → on_stream id finished ≡ on_stream id started)
      × (r.source ≡ [])
      × ((id : ℕ) → FinMap.get r.builders id ≡ none)
recv-on_stream size n bytes started finished m nm fl done =
    let (r, sent, f) = recv-Flow [] (new_reader bytes (pos size) nm) fl (
      subst (Follows (new_reader bytes (pos size) nm) (idle_sender size)) (sym (append-nil bytes))
        (Follows-new_reader size bytes nm)) in
    (
      r,
      sent,
      λ id.
          sym (append-nil (on_stream id finished))
          ∙ ap (λ o. on_stream id finished ++ pending_chunks o) (sym (done id))
          ∙ sym (Conserved-Flow fl id)
          ∙ unfold FinMap.get in refl,
      f.source_is,
      λ id. Tracks-none (FinMap.get r.builders id) _ (f.tracks id) (done id),
    )
