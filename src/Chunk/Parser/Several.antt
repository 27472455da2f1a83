-- ===== src/Chunk/Parser/Several.antt =====
-- `Stream` of chunk/parser.go on several IDs that have no stream yet.
use rtmp.Base.{
  ℕ, ◌≡◌, ◌≢◌, refl, sym, ap, ◌∙◌, none, some, List, [], ◌∷◌, ◌++◌, map, All, ok, err, ◌⊎◌, inl,
  inr, Option-cases, stream_exists, pure, proceed, ◌>>=◌,
}
use rtmp.Base.FinMap
use rtmp.Base.FinMap.{FinMap, get-put_same, get-put_other}
use rtmp.Chunk.Parser
use rtmp.Chunk.Parser.{
  Parser, Handle, multi, stream, add_stream, add_streams, existing, next_existing,
}
use rtmp.Chunk.Parser.Links.{IsLinked, queue, IsLinked-add_stream, queue-add_stream}

-- The parser has no stream for the ID.
abbrev pub IsUnused : Parser → ℕ → Type 0
IsUnused p id = FinMap.get p.streams id ≡ none

-- No ID stands twice in the list.
abbrev pub AreDistinct : List ℕ → Type 0
AreDistinct [] = Unit {0}
AreDistinct (id ∷ ids) = All (λ j. id ≢ j) ids × AreDistinct ids

existing-none : (p : Parser) (ids : List ℕ) → All (IsUnused p) ids → existing p.streams ids ≡ none
unfolding existing
existing-none p [] h = refl
existing-none p (id ∷ ids) (h, hs) =
    ap (λ o. next_existing id o (existing p.streams ids)) h ∙ existing-none p ids hs

get-add_stream_other :
    (id j : ℕ) (p : Parser)
    → id ≢ j
    → FinMap.get (add_stream id p).1.streams j ≡ FinMap.get p.streams j
unfolding add_stream
get-add_stream_other id j p ne = get-put_other p.streams id j p.fresh ne

get-add_stream_same :
    (id : ℕ) (p : Parser) → FinMap.get (add_stream id p).1.streams id ≡ some p.fresh
unfolding add_stream
get-add_stream_same id p = get-put_same p.streams id p.fresh

All-IsUnused-add_stream :
    (id : ℕ) (ids : List ℕ) (p : Parser)
    → All (λ j. id ≢ j) ids
    → All (IsUnused p) ids
    → All (IsUnused (add_stream id p).1) ids
All-IsUnused-add_stream id [] p ne h = tt
All-IsUnused-add_stream id (j ∷ ids) p (n, ne) (h, hs) =
    (get-add_stream_other id j p n ∙ h, All-IsUnused-add_stream id ids p ne hs)

-- What the IDs lead to in a parser, one for one.
abbrev pub LeadTo : Parser → List ℕ → List ℕ → Type 0
LeadTo p ids addresses = map (FinMap.get p.streams) ids ≡ map some addresses

-- Each ID has got its stream, the others have theirs, and no stream gets or loses a chunk.
abbrev pub Made : Parser → List ℕ → List ℕ → Parser → Type 0
Made p ids addresses p' =
    IsLinked p'
    × LeadTo p' ids addresses
    × ((j : ℕ) → queue p' j ≡ queue p j)
    × ((j : ℕ) → All (λ id. id ≢ j) ids → FinMap.get p'.streams j ≡ FinMap.get p.streams j)

add_stream_ok : (id : ℕ) (p : Parser) → add_stream id p ≡ (ok p.fresh, (add_stream id p).1)
unfolding add_stream
add_stream_ok id p = refl

All-sym : (id : ℕ) (ids : List ℕ) → All (λ j. id ≢ j) ids → All (λ j. j ≢ id) ids
All-sym id [] h = tt
All-sym id (j ∷ ids) (h, hs) = (λ e. h (sym e), All-sym id ids hs)

add_streams-Made :
    (ids : List ℕ) (p : Parser)
    → IsLinked p
    → All (IsUnused p) ids
    → AreDistinct ids
    → (addresses : List ℕ) × (p' : Parser) × (add_streams ids p ≡ (ok addresses, p'))
      × Made p ids addresses p'
unfolding add_streams
add_streams-Made [] p l h d = ([], p, refl, (l, refl, λ j. refl, λ j _. refl))
add_streams-Made (id ∷ ids) p l (h, hs) (ne, d) =
    let p1 = (add_stream id p).1 in
    let (addresses, p2, e, (l2, lead, queues, others)) =
      add_streams-Made ids p1 (IsLinked-add_stream id p l) (All-IsUnused-add_stream id ids p ne hs)
        d in
    (
      p.fresh ∷ addresses,
      p2,
      ap (λ q. proceed q (λ a. add_streams ids >>= λ rest. pure (a ∷ rest))) (add_stream_ok id p)
          ∙ ap (λ q. proceed q (λ rest. pure (p.fresh ∷ rest))) e,
      (
        l2,
        (λ i. (others id (All-sym id ids ne) ∙ get-add_stream_same id p) i ∷ lead i),
        λ j. queues j ∙ queue-add_stream id p j l h,
        λ j hj. others j hj.1 ∙ get-add_stream_other id j p hj.0,
      ),
    )

-- The first of the IDs that has a stream stands behind others that have none.
abbrev pub IsFirstTaken : Parser → List ℕ → ℕ → Type 0
IsFirstTaken p ids taken =
    (before after : List ℕ) × (a : ℕ) × (ids ≡ before ++ taken ∷ after)
    × All (IsUnused p) before
    × (FinMap.get p.streams taken ≡ some a)

existing-cases :
    (p : Parser) (ids : List ℕ)
    → All (IsUnused p) ids
      ⊎ ((taken : ℕ) × (existing p.streams ids ≡ some taken) × IsFirstTaken p ids taken)
unfolding existing
existing-cases p [] = inl tt
existing-cases p (id ∷ ids) =
    let later = existing-cases p ids in
    elim (Option-cases (FinMap.get p.streams id)) [
      | inr (a, e) ↦
          inr
            (id, ap (λ o. next_existing id o (existing p.streams ids)) e, ([], ids, a, refl, tt, e))
      | inl e ↦ elim later [
        | inl unused ↦ inl (e, unused)
        | inr (taken, first, (before, after, a, split, unused, at)) ↦ inr (
          taken,
          ap (λ o. next_existing id o (existing p.streams ids)) e ∙ first,
          (id ∷ before, after, a, ap (λ l. id ∷ l) split, (e, unused), at),
        )
      ]
    ]

-- `Stream` on two or more distinct IDs: if none of them has a stream, the parser makes one for each
-- and returns a MultiStream of them in the order of the IDs; the IDs then lead to these streams, the
-- others to what they led to, and no stream gets or loses a chunk. If some of them have a stream, it is
-- refused with an error that names the first of these, and the parser is as it was.
pub stream_several :
    (p : Parser) (id id2 : ℕ) (ids : List ℕ)
    → IsLinked p
    → AreDistinct (id ∷ id2 ∷ ids)
    → (All (IsUnused p) (id ∷ id2 ∷ ids)
        × (addresses : List ℕ) × (p' : Parser) × (stream (id ∷ id2 ∷ ids) p
            ≡ (ok (multi addresses), p'))
        × Made p (id ∷ id2 ∷ ids) addresses p')
      ⊎ ((taken : ℕ) × IsFirstTaken p (id ∷ id2 ∷ ids) taken
          × (stream (id ∷ id2 ∷ ids) p ≡ (err (stream_exists taken), p)))
unfolding stream
stream_several p id id2 ids l distinct =
    let all = id ∷ id2 ∷ ids in
    elim (existing-cases p all) [
      | inl unused ↦
          let (addresses, p', e, made) = add_streams-Made all p l unused distinct in
          inl (
            unused,
            addresses,
            p',
            ap (λ o. Parser.many_streams all o p) (existing-none p all unused)
                ∙ ap (λ q. proceed q (λ made'. pure (multi made'))) e,
            made,
          )
      | inr (taken, first, is_first) ↦
          inr (taken, is_first, ap (λ o. Parser.many_streams all o p) first)
    ]
