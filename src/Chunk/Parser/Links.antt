-- ===== src/Chunk/Parser/Links.antt =====
-- The streams that the parser of chunk/parser.go has for its IDs, and the chunks on them.
use rtmp.Base.{
  ℕ, ◌<◌, ◌≡◌, ◌≢◌, refl, sym, ap, ◌∙◌, inl, inr, Option, none, some, List, [], ◌∷◌, ◌++◌, arith,
  Option-cases, ok,
}
use rtmp.Base.FinMap
use rtmp.Base.FinMap.{FinMap, map_laws, get-put, get-remove}
use rtmp.Chunk.Chunk.{Chunk}
use rtmp.Chunk.Parser.{
  new_stream, Parser, ChunkStream, one_stream, add_stream, send_on, new_parser, store_sent,
  look_up_or_add,
}
use mathlib.Core.Option.{some-injective}
use rtmp.Base.{equal-cases}
use rtmp.Base.FinMap.{get-put_same, get-put_other, get-put_inv}

abbrev pub sent_in : Option ChunkStream → List Chunk
sent_in none = []
sent_in (some s) = s.sent

abbrev pub sent_at : FinMap ChunkStream → Option ℕ → List Chunk
sent_at store none = []
sent_at store (some a) = sent_in (FinMap.get store a)

-- The chunks that were sent on the stream of an ID; there are none if there is no stream.
unfoldable pub queue : Parser → ℕ → List Chunk
queue p id = sent_at p.store (FinMap.get p.streams id)

-- Every ID leads to a stream in the store that has it.
pub record IsLinked (p : Parser) : Type 0 where
  pub bounded : (id a : ℕ) → FinMap.get p.streams id ≡ some a → a < p.fresh
  pub stored :
      (id a : ℕ)
      → FinMap.get p.streams id ≡ some a
      → (s : ChunkStream) × (FinMap.get p.store a ≡ some s) × (s.id ≡ id)

pub IsLinked-new_parser : IsLinked new_parser
unfolding new_parser FinMap.get
IsLinked-new_parser = record { bounded = λ id a e. absurd (cc e); stored = λ id a e. absurd (cc e) }

pub IsLinked-add_stream : (id : ℕ) (p : Parser) → IsLinked p → IsLinked (add_stream id p).1
unfolding add_stream new_stream
IsLinked-add_stream id p l = record {
  bounded = λ j a e. elim (get-put_inv p.streams id j p.fresh a e) [
    | inl (same, here) ↦ omega arith
    | inr (other, before) ↦ omega (arith, l.bounded j a before)
  ];
  stored = λ j a e. elim (get-put_inv p.streams id j p.fresh a e) [
    | inl (same, here) ↦ (
      new_stream id,
      ap (FinMap.get (FinMap.put p.store p.fresh (new_stream id))) (sym here)
          ∙ get-put_same p.store p.fresh (new_stream id),
      same,
    )
    | inr (other, before) ↦
        let (s, found, has) = l.stored j a before in
        let below = l.bounded j a before in
        (s, get-put_other p.store p.fresh a (new_stream id) (omega arith) ∙ found, has)
  ];
}

queue-eq :
    (p : Parser) (id : ℕ) (o : Option ℕ)
    → FinMap.get p.streams id ≡ o
    → queue p id ≡ sent_at p.store o
unfolding queue
queue-eq p id o e = ap (sent_at p.store) e

-- A new stream has no chunks, and the others keep theirs.
pub queue-add_stream :
    (id : ℕ) (p : Parser) (j : ℕ)
    → IsLinked p
    → FinMap.get p.streams id ≡ none
    → queue (add_stream id p).1 j ≡ queue p j
unfolding add_stream new_stream
queue-add_stream id p j l missing =
    let new : ChunkStream = new_stream id in
    elim (equal-cases id j) [
      | inl same ↦
          queue-eq (add_stream id p).1 j (some p.fresh) (
            ap (FinMap.get (FinMap.put p.streams id p.fresh)) (sym same)
            ∙ get-put_same p.streams id p.fresh)
          ∙ ap sent_in (get-put_same p.store p.fresh new)
          ∙ sym (queue-eq p j none (ap (FinMap.get p.streams) (sym same) ∙ missing))
      | inr other ↦ elim (Option-cases (FinMap.get p.streams j)) [
        | inl e ↦
            queue-eq (add_stream id p).1 j none (get-put_other p.streams id j p.fresh other ∙ e)
            ∙ sym (queue-eq p j none e)
        | inr (a, e) ↦
            let below = l.bounded j a e in
            queue-eq (add_stream id p).1 j (some a) (get-put_other p.streams id j p.fresh other ∙ e)
            ∙ ap sent_in (get-put_other p.store p.fresh a new (omega arith))
            ∙ sym (queue-eq p j (some a) e)
      ]
    ]

-- Asking for the stream of an ID gives one, and no stream gets or loses a chunk.
pub one_stream_lem :
    (id : ℕ) (p : Parser)
    → IsLinked p
    → (a : ℕ) × (p' : Parser) × (one_stream id p ≡ (ok a, p'))
      × (FinMap.get p'.streams id ≡ some a)
      × IsLinked p'
      × ((j : ℕ) → queue p' j ≡ queue p j)
      × (p'.errs ≡ p.errs)
unfolding one_stream add_stream
one_stream_lem id p l = elim (Option-cases (FinMap.get p.streams id)) [
  | inl e ↦ (
    p.fresh,
    (add_stream id p).1,
    ap (λ o. look_up_or_add id o p) e,
    get-put_same p.streams id p.fresh,
    IsLinked-add_stream id p l,
    λ j. queue-add_stream id p j l e,
    refl,
  )
  | inr (a, e) ↦ (a, p, ap (λ o. look_up_or_add id o p) e, e, l, λ j. refl, refl)
]

abbrev with_chunk : Chunk → ChunkStream → ChunkStream
with_chunk c s = record s { sent = s.sent ++ c ∷ [] }

-- The parser whose stream at `a`, which is `s`, has got `c`.
abbrev pub sent_to : Chunk → ℕ → ChunkStream → Parser → Parser
sent_to c a s p = record p { store = FinMap.put p.store a (with_chunk c s) }

pub send_on_found :
    (c : Chunk) (a : ℕ) (s : ChunkStream) (p : Parser)
    → FinMap.get p.store a ≡ some s
    → send_on c a p ≡ (ok tt, sent_to c a s p)
unfolding send_on
send_on_found c a s p e = ap (λ o. (ok tt, record p { store = store_sent p.store a c o })) e

pub IsLinked-sent_to :
    (c : Chunk) (a : ℕ) (s : ChunkStream) (p : Parser)
    → IsLinked p
    → FinMap.get p.store a ≡ some s
    → IsLinked (sent_to c a s p)
IsLinked-sent_to c a s p l e = record {
  bounded = l.bounded;
  stored = λ j b at.
      let (t, found, has) = l.stored j b at in
      elim (equal-cases a b) [
        | inl same ↦ (
          with_chunk c s,
          ap (FinMap.get (FinMap.put p.store a (with_chunk c s))) (sym same)
              ∙ get-put_same p.store a (with_chunk c s),
          ap (λ u. u.id) (some-injective s t (sym e ∙ ap (FinMap.get p.store) same ∙ found)) ∙ has,
        )
        | inr other ↦ (t, get-put_other p.store a b (with_chunk c s) other ∙ found, has)
      ];
}

pub queue-sent_to_same :
    (c : Chunk) (id a : ℕ) (s : ChunkStream) (p : Parser)
    → FinMap.get p.streams id ≡ some a
    → FinMap.get p.store a ≡ some s
    → queue (sent_to c a s p) id ≡ queue p id ++ c ∷ []
queue-sent_to_same c id a s p at e =
    queue-eq (sent_to c a s p) id (some a) at
    ∙ ap sent_in (get-put_same p.store a (with_chunk c s))
    ∙ ap (λ o. sent_in o ++ c ∷ []) (sym e)
    ∙ ap (λ q. q ++ c ∷ []) (sym (queue-eq p id (some a) at))

pub queue-sent_to_other :
    (c : Chunk) (id a j : ℕ) (s : ChunkStream) (p : Parser)
    → IsLinked p
    → FinMap.get p.streams id ≡ some a
    → FinMap.get p.store a ≡ some s
    → id ≢ j
    → queue (sent_to c a s p) j ≡ queue p j
queue-sent_to_other c id a j s p l at e ne = elim (Option-cases (FinMap.get p.streams j)) [
  | inl none_at ↦ queue-eq (sent_to c a s p) j none none_at ∙ sym (queue-eq p j none none_at)
  | inr (b, at_b) ↦
      let (t, found, has) = l.stored id a at in
      let (u, found_u, has_u) = l.stored j b at_b in
      queue-eq (sent_to c a s p) j (some b) at_b
      ∙ ap sent_in (
          get-put_other p.store a b (with_chunk c s) (λ same. ne (
            sym has
            ∙ ap (λ v. v.id)
                (some-injective t u (sym found ∙ ap (FinMap.get p.store) same ∙ found_u))
            ∙ has_u)))
      ∙ sym (queue-eq p j (some b) at_b)
]
