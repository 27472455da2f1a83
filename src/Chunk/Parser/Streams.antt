-- ===== src/Chunk/Parser/Streams.antt =====
-- What chunk/parser.go says of the streams that it is asked for.
use rtmp.Base.{
  ℕ, ◌≡◌, ap, ◌∙◌, inl, inr, none, some, List, [], ◌∷◌, ◌++◌, Option-cases, ==_refl, stream_exists,
  ok, err, pure, proceed,
}
use rtmp.Base.FinMap
use rtmp.Base.FinMap.{FinMap, map_laws, get-put, get-remove}
use rtmp.Chunk.Parser
use rtmp.Chunk.Parser.{Parser, Handle, single, stream, one_stream, add_stream, existing}

stream_found :
    (id a : ℕ) (p : Parser)
    → FinMap.get p.streams id ≡ some a
    → stream (id ∷ []) p ≡ (ok (single a), p)
unfolding stream one_stream
stream_found id a p e = ap (λ o. proceed (Parser.look_up_or_add id o p) (λ b. pure (single b))) e

stream_missing :
    (id : ℕ) (p : Parser)
    → FinMap.get p.streams id ≡ none
    → stream (id ∷ []) p ≡ (ok (single p.fresh), (add_stream id p).1)
unfolding stream one_stream add_stream
stream_missing id p e = ap (λ o. proceed (Parser.look_up_or_add id o p) (λ b. pure (single b))) e

get-add_stream : (id : ℕ) (p : Parser) → FinMap.get (add_stream id p).1.streams id ≡ some p.fresh
unfolding add_stream
get-add_stream id p = get-put p.streams id id p.fresh ∙ rw (==_refl id)

-- Asking for one stream never fails, and asking for it again gives the same stream and changes
-- nothing.
pub stream_again :
    (id : ℕ) (p : Parser)
    → (a : ℕ) × (p' : Parser) × (stream (id ∷ []) p ≡ (ok (single a), p'))
      × (stream (id ∷ []) p' ≡ (ok (single a), p'))
stream_again id p = elim (Option-cases (FinMap.get p.streams id)) [
  | inl e ↦ (
    p.fresh,
    (add_stream id p).1,
    stream_missing id p e,
    stream_found id p.fresh (add_stream id p).1 (get-add_stream id p),
  )
  | inr (a, e) ↦ (a, p, stream_found id a p e, stream_found id a p e)
]

existing_taken :
    (m : FinMap ℕ) (xs ys : List ℕ) (id a : ℕ)
    → FinMap.get m id ≡ some a
    → (taken : ℕ) × (existing m (xs ++ id ∷ ys) ≡ some taken)
unfolding existing
existing_taken m [] ys id a e = (id, rw e)
existing_taken m (x ∷ xs) ys id a e =
    let (taken, rest) = existing_taken m xs ys id a e in
    elim (Option-cases (FinMap.get m x)) [
      | inl missing ↦ (taken, rw (missing, rest))
      | inr (b, found) ↦ (x, rw found)
    ]

-- Several streams of which one has been asked for before are refused, and the parser is as it was:
-- none of the others is made.
pub stream_taken :
    (p : Parser) (x : ℕ) (xs ys : List ℕ) (id a : ℕ)
    → FinMap.get p.streams id ≡ some a
    → (taken : ℕ) × (stream (x ∷ xs ++ id ∷ ys) p ≡ (err (stream_exists taken), p))
unfolding stream
stream_taken p x [] ys id a e =
    let (taken, h) = existing_taken p.streams (x ∷ []) ys id a e in (taken, rw h)
stream_taken p x (x2 ∷ xs) ys id a e =
    let (taken, h) = existing_taken p.streams (x ∷ x2 ∷ xs) ys id a e in (taken, rw h)
