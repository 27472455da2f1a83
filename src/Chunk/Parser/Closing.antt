-- ===== src/Chunk/Parser/Closing.antt =====
-- What a call of Close leaves of the parser of chunk/parser.go.
use rtmp.Base.{
  ℕ, ◌≡◌, ◌≢◌, refl, sym, ap, ◌∙◌, inl, inr, true, none, some, [], ◌∷◌, if◌then◌else◌, Option-cases,
  ==_iff, ne→==,
}
use rtmp.Base.FinMap
use rtmp.Base.FinMap.{FinMap, map_laws, get-put, get-remove}
use rtmp.Base.{equal-cases}
use rtmp.Base.FinMap.{get-put_same, get-put_other}
use mathlib.Core.Option.{some-injective}
use rtmp.Chunk.Parser.{Parser, ChunkStream, close_all, close_stream, close_streams, close_found}
use rtmp.Chunk.Parser.Links.{IsLinked, queue, sent_in, sent_at}

-- The stream at an address is closed.
abbrev pub IsClosedAt : FinMap ChunkStream → ℕ → Type 0
IsClosedAt store a = (s : ChunkStream) × (FinMap.get store a ≡ some s) × (s.closed ≡ true)

close_stream_found :
    (store : FinMap ChunkStream) (a : ℕ) (s : ChunkStream)
    → FinMap.get store a ≡ some s
    → close_stream store a ≡ FinMap.put store a (record s { closed = true })
unfolding close_stream
close_stream_found store a s e = ap (close_found store a) e

close_stream_missing :
    (store : FinMap ChunkStream) (a : ℕ) → FinMap.get store a ≡ none → close_stream store a ≡ store
unfolding close_stream
close_stream_missing store a e = ap (close_found store a) e

-- A stream that is there stays, with its chunks, and one that is closed stays closed.
close_stream_present :
    (store : FinMap ChunkStream) (a b : ℕ) (s : ChunkStream)
    → FinMap.get store b ≡ some s
    → (s' : ChunkStream) × (FinMap.get (close_stream store a) b ≡ some s')
      × (s'.sent ≡ s.sent)
      × (s.closed ≡ true → s'.closed ≡ true)
close_stream_present store a b s e = elim (Option-cases (FinMap.get store a)) [
  | inl missing ↦
      (s, ap (λ m. FinMap.get m b) (close_stream_missing store a missing) ∙ e, refl, λ c. c)
  | inr (t, found) ↦ elim (equal-cases a b) [
    | inl same ↦ (
      record t { closed = true },
      ap (λ m. FinMap.get m b) (close_stream_found store a t found)
          ∙ ap (FinMap.get (FinMap.put store a (record t { closed = true }))) (sym same)
          ∙ get-put_same store a (record t { closed = true }),
      ap (λ u. u.sent) (some-injective t s (sym found ∙ ap (FinMap.get store) same ∙ e)),
      λ c. refl,
    )
    | inr other ↦ (
      s,
      ap (λ m. FinMap.get m b) (close_stream_found store a t found)
          ∙ get-put_other store a b (record t { closed = true }) other
          ∙ e,
      refl,
      λ c. c,
    )
  ]
]

close_streams_present :
    (m : FinMap ℕ) (store : FinMap ChunkStream) (b : ℕ) (s : ChunkStream)
    → FinMap.get store b ≡ some s
    → (s' : ChunkStream) × (FinMap.get (close_streams m store) b ≡ some s')
      × (s'.sent ≡ s.sent)
      × (s.closed ≡ true → s'.closed ≡ true)
unfolding close_streams
close_streams_present [] store b s e = (s, e, refl, λ c. c)
close_streams_present ((id, a) ∷ m) store b s e =
    let (t, found, same, stays) = close_stream_present store a b s e in
    let (u, later, same', stays') = close_streams_present m (close_stream store a) b t found in
    (u, later, same' ∙ same, λ c. stays' (stays c))

close_stream_closes :
    (store : FinMap ChunkStream) (a : ℕ) (s : ChunkStream)
    → FinMap.get store a ≡ some s
    → IsClosedAt (close_stream store a) a
close_stream_closes store a s e = (
  record s { closed = true },
  ap (λ m. FinMap.get m a) (close_stream_found store a s e)
      ∙ get-put_same store a (record s { closed = true }),
  refl,
)

get-first : (m : FinMap ℕ) (id j a b : ℕ) → FinMap.get ((j, b) ∷ m) id ≡ some a → j ≡ id → b ≡ a
unfolding FinMap.get
get-first m id j a b at same =
    some-injective b a
      (sym (ap (λ c. if c then some b else FinMap.get m id) ((==_iff j id).1 same)) ∙ at)

get-later :
    (m : FinMap ℕ) (id j a b : ℕ)
    → FinMap.get ((j, b) ∷ m) id ≡ some a
    → j ≢ id
    → FinMap.get m id ≡ some a
unfolding FinMap.get
get-later m id j a b at other =
    sym (ap (λ c. if c then some b else FinMap.get m id) (ne→== j id other)) ∙ at

nothing-at : (id a : ℕ) → FinMap.get {V = ℕ} [] id ≢ some a
unfolding FinMap.get
nothing-at id a at = cc at

-- The loop closes the stream of every ID.
close_streams_closes :
    (m : FinMap ℕ) (store : FinMap ChunkStream) (id a : ℕ) (s : ChunkStream)
    → FinMap.get m id ≡ some a
    → FinMap.get store a ≡ some s
    → IsClosedAt (close_streams m store) a
unfolding close_streams
close_streams_closes [] store id a s at e = absurd (nothing-at id a at)
close_streams_closes ((j, b) ∷ m) store id a s at e = elim (equal-cases j id) [
  | inl same ↦
      let here = get-first m id j a b at same in
      let (t, found, is_closed) = close_stream_closes store a s e in
      let (u, later, sent_is, stays) =
        close_streams_present m (close_stream store b) a t
          (ap (λ x. FinMap.get (close_stream store x) a) here ∙ found) in
      (u, later, stays is_closed)
  | inr other ↦
      let (t, found, sent_is, stays) = close_stream_present store b a s e in
      close_streams_closes m (close_stream store b) id a t (get-later m id j a b at other) found
]

pub queue-close_all : (p : Parser) (id : ℕ) → IsLinked p → queue (close_all p) id ≡ queue p id
unfolding close_all queue
queue-close_all p id l = elim (Option-cases (FinMap.get p.streams id)) [
  | inl missing ↦
      ap (sent_at (close_streams p.streams p.store)) missing ∙ sym (ap (sent_at p.store) missing)
  | inr (a, at) ↦
      let (s, found, has) = l.stored id a at in
      let (t, later, sent_is, stays) = close_streams_present p.streams p.store a s found in
      ap (sent_at (close_streams p.streams p.store)) at
      ∙ ap sent_in later
      ∙ sent_is
      ∙ sym (ap (sent_at p.store) at ∙ ap sent_in found)
]

pub close_all-closed : (p : Parser) → (close_all p).closed ≡ true
unfolding close_all
close_all-closed p = refl

pub streams_eq :
    (p : Parser) (id a : ℕ)
    → FinMap.get (close_all p).streams id ≡ some a
    → FinMap.get p.streams id ≡ some a
unfolding close_all
streams_eq p id a at = at

pub close_all_closes :
    (p : Parser) (id a : ℕ) (s : ChunkStream)
    → FinMap.get p.streams id ≡ some a
    → FinMap.get p.store a ≡ some s
    → IsClosedAt (close_all p).store a
unfolding close_all
close_all_closes p id a s at found = close_streams_closes p.streams p.store id a s at found

pub close_all_errs : (p : Parser) → (close_all p).errs ≡ p.errs
unfolding close_all
close_all_errs p = refl
