-- ===== src/Chunk/Parser/Orphans.antt =====
-- A stream of the parser of chunk/parser.go that no ID leads to: `Stream` makes one for an ID that it
-- is given twice.
use rtmp.Base.{
  true, false, ℕ, suc, ◌<◌, ◌≡◌, ◌≢◌, refl, sym, ap, ◌∙◌, inl, inr, none, some, List, [], ◌∷◌, ◌++◌,
  map, arith, All, ok, proceed, Option-cases, Bool-cases, if◌then◌else◌, ◌==◌, ==_refl,
}
use rtmp.Base.FinMap
use rtmp.Base.FinMap.{FinMap, get-put_same, get-put_other}
use mathlib.Core.Path.{subst}
use mathlib.Core.Option.{some-injective}
use rtmp.Chunk.Chunk
use rtmp.Chunk.Chunk.{Chunk}
use rtmp.Chunk.Parser.{
  Parser, ChunkStream, FromReader, ParserSignal, chunk, failure, from_reader, closing, new_stream,
  multi, stream, look_up_or_add, add_stream, add_streams, existing, one_stream, send_on, receive,
  close_all, close_stream, close_streams,
}
use rtmp.Chunk.Parser.Receivers.{Receivers, returned, is_taken, offered, run_with}
use rtmp.Chunk.Parser.Stalling.{IsTaken, run_with_first, run_with_untaken, run_with-taken}

-- No ID leads to the address, where there is a stream.
pub record IsOrphan (a : ℕ) (s : ChunkStream) (p : Parser) : Type 0 where
  pub below : a < p.fresh
  pub led_to : All (λ e. e.1 ≢ a) p.streams
  pub stored : FinMap.get p.store a ≡ some s

abbrev Avoids : ℕ → FinMap ℕ → Type 0
Avoids a m = All (λ e. e.1 ≢ a) m

Avoids-remove : (a k : ℕ) (m : FinMap ℕ) → Avoids a m → Avoids a (FinMap.remove m k)
unfolding FinMap.remove
Avoids-remove a k [] h = tt
Avoids-remove a k ((j, b) ∷ m) (h, hs) = elim (Bool-cases (j == k)) [
  | inl e ↦ rw e (Avoids-remove a k m hs)
  | inr e ↦ rw e (h, Avoids-remove a k m hs)
]

Avoids-get : (a k b : ℕ) (m : FinMap ℕ) → Avoids a m → FinMap.get m k ≡ some b → b ≢ a
unfolding FinMap.get
Avoids-get a k b [] h e = absurd (cc e)
Avoids-get a k b ((j, c) ∷ m) (h, hs) e = elim (Bool-cases (j == k)) [
  | inl here ↦ λ same. h (some-injective c b (rw here at e) ∙ same)
  | inr later ↦ Avoids-get a k b m hs (rw later at e)
]

IsOrphan-add_stream :
    (a : ℕ) (s : ChunkStream) (id : ℕ) (p : Parser)
    → IsOrphan a s p
    → IsOrphan a s (add_stream id p).1
unfolding add_stream new_stream FinMap.put
IsOrphan-add_stream a s id p o = record {
  below = omega (arith, o.below);
  led_to = ((λ e. absurd (omega (arith, o.below, e))), Avoids-remove a id p.streams o.led_to);
  stored =
      get-put_other p.store p.fresh a (new_stream id) (λ e. absurd (omega (arith, o.below, e)))
      ∙ o.stored;
}

IsOrphan-send_on :
    (a : ℕ) (s : ChunkStream) (c : Chunk) (b : ℕ) (p : Parser)
    → b ≢ a
    → IsOrphan a s p
    → IsOrphan a s (send_on c b p).1
unfolding send_on
IsOrphan-send_on a s c b p ne o = record {
  below = o.below;
  led_to = o.led_to;
  stored = elim (Option-cases (FinMap.get p.store b)) [
    | inl e ↦ rw e o.stored
    | inr (t, e) ↦ rw e (get-put_other p.store b a _ ne ∙ o.stored)
  ];
}

add_stream_ok : (id : ℕ) (p : Parser) → add_stream id p ≡ (ok p.fresh, (add_stream id p).1)
unfolding add_stream
add_stream_ok id p = refl

send_on_ok : (c : Chunk) (b : ℕ) (p : Parser) → send_on c b p ≡ (ok tt, (send_on c b p).1)
unfolding send_on
send_on_ok c b p = refl

-- What the parser gets, it puts on the streams that an ID leads to.
IsOrphan-receive :
    (a : ℕ) (s : ChunkStream) (m : FromReader) (p : Parser)
    → IsOrphan a s p
    → (p' : Parser) × (receive m p ≡ (ok tt, p')) × IsOrphan a s p'
unfolding receive one_stream
IsOrphan-receive a s (failure e) p o =
    (_, refl, record { below = o.below; led_to = o.led_to; stored = o.stored })
IsOrphan-receive a s (chunk c) p o =
    let id = Chunk.stream_id c in
    elim (Option-cases (FinMap.get p.streams id)) [
      | inl e ↦ (
        (send_on c p.fresh (add_stream id p).1).1,
        ap (λ q. proceed q (λ b. send_on c b))
              (ap (λ x. look_up_or_add id x p) e ∙ add_stream_ok id p)
            ∙ send_on_ok c p.fresh (add_stream id p).1,
        IsOrphan-send_on a s c p.fresh (add_stream id p).1
            (λ same. absurd (omega (arith, o.below, same))) (IsOrphan-add_stream a s id p o),
      )
      | inr (b, e) ↦ (
        (send_on c b p).1,
        ap (λ q. proceed q (λ b'. send_on c b')) (ap (λ x. look_up_or_add id x p) e)
            ∙ send_on_ok c b p,
        IsOrphan-send_on a s c b p (Avoids-get a id b p.streams o.led_to e) o,
      )
    ]

IsOrphan-close_stream :
    (a : ℕ) (s : ChunkStream) (b : ℕ) (store : FinMap ChunkStream)
    → b ≢ a
    → FinMap.get store a ≡ some s
    → FinMap.get (close_stream store b) a ≡ some s
unfolding close_stream
IsOrphan-close_stream a s b store ne e = elim (Option-cases (FinMap.get store b)) [
  | inl missing ↦ rw missing e
  | inr (t, found) ↦ rw found (get-put_other store b a _ ne ∙ e)
]

get-close_streams :
    (a : ℕ) (s : ChunkStream) (m : FinMap ℕ) (store : FinMap ChunkStream)
    → Avoids a m
    → FinMap.get store a ≡ some s
    → FinMap.get (close_streams m store) a ≡ some s
unfolding close_streams
get-close_streams a s [] store h e = e
get-close_streams a s ((id, b) ∷ m) store (h, hs) e =
    get-close_streams a s m (close_stream store b) hs (IsOrphan-close_stream a s b store h e)

stored_close_all :
    (a : ℕ) (s : ChunkStream) (p : Parser)
    → IsOrphan a s p
    → FinMap.get (close_all p).store a ≡ some s
unfolding close_all
stored_close_all a s p o = get-close_streams a s p.streams p.store o.led_to o.stored

IsOrphan-offered :
    (a : ℕ) (s : ChunkStream) (m : FromReader) (p : Parser)
    → IsOrphan a s p
    → IsOrphan a s (offered m p)
unfolding one_stream
IsOrphan-offered a s (failure e) p o = o
IsOrphan-offered a s (chunk c) p o =
    let id = Chunk.stream_id c in
    elim (Option-cases (FinMap.get p.streams id)) [
      | inl e ↦
          subst (λ found. IsOrphan a s (look_up_or_add id found p).1) (sym e)
            (IsOrphan-add_stream a s id p o)
      | inr (b, e) ↦ subst (λ found. IsOrphan a s (look_up_or_add id found p).1) (sym e) o
    ]

IsOrphan-received :
    (a : ℕ) (s : ChunkStream) (m : FromReader) (p : Parser)
    → IsOrphan a s p
    → IsOrphan a s (receive m p).1
IsOrphan-received a s m p o =
    let (p1, e, o1) = IsOrphan-receive a s m p o in subst (λ q. IsOrphan a s q.1) (sym e) o1

-- Wherever the loop of the parser comes, the stream is as it was.
run_with-orphan :
    (a : ℕ) (s : ChunkStream) (rx : Receivers) (signals : List ParserSignal) (p : Parser)
    → IsOrphan a s p
    → FinMap.get (run_with rx signals p).1.store a ≡ some s
unfolding run_with
run_with-orphan a s rx [] p o = o.stored
run_with-orphan a s rx (closing true ∷ signals) p o = stored_close_all a s p o
run_with-orphan a s rx (closing false ∷ signals) p o = o.stored
run_with-orphan a s rx (from_reader m ∷ signals) p o = elim (Bool-cases (is_taken rx m)) [
  | inl e ↦
      ap (λ q. FinMap.get q.1.store a) (run_with_first rx m signals p e)
      ∙ run_with-orphan a s rx signals (receive m p).1 (IsOrphan-received a s m p o)
  | inr e ↦
      ap (λ q. FinMap.get q.1.store a) (run_with_untaken rx m signals p e)
      ∙ (IsOrphan-offered a s m p o).stored
]

-- Every stream that an ID leads to has been made.
abbrev pub AreMade : Parser → Type 0
AreMade p = All (λ e. e.1 < p.fresh) p.streams

AreMade-Avoids : (n : ℕ) (m : FinMap ℕ) → All (λ e. e.1 < n) m → Avoids n m
AreMade-Avoids n [] h = tt
AreMade-Avoids n ((j, b) ∷ m) (h, hs) = ((λ e. absurd (omega (arith, h, e))), AreMade-Avoids n m hs)

twice-IsOrphan :
    (id : ℕ) (p : Parser)
    → AreMade p
    → IsOrphan p.fresh (new_stream id) (add_stream id (add_stream id p).1).1
unfolding add_stream FinMap.put FinMap.remove
twice-IsOrphan id p made = record {
  below = omega arith;
  led_to = (
    (λ e. absurd (omega (arith, e))),
    subst
        (λ b. Avoids p.fresh (
          let rest = FinMap.remove (FinMap.remove p.streams id) id in
          if b then rest else (id, p.fresh) ∷ rest))
        (sym (==_refl id))
        (Avoids-remove p.fresh id (FinMap.remove p.streams id)
          (Avoids-remove p.fresh id p.streams (AreMade-Avoids p.fresh p.streams made))),
  );
  stored =
      get-put_other (FinMap.put p.store p.fresh (new_stream id)) (suc p.fresh) p.fresh
        (new_stream id) (λ e. absurd (omega (arith, e)))
      ∙ get-put_same p.store p.fresh (new_stream id);
}

stream_twice_lem :
    (id : ℕ) (p : Parser)
    → FinMap.get p.streams id ≡ none
    → stream (id ∷ id ∷ []) p
      ≡ (ok (multi (p.fresh ∷ suc p.fresh ∷ [])), (add_stream id (add_stream id p).1).1)
unfolding stream existing add_streams add_stream
stream_twice_lem id p e = rw e refl

-- `Stream` with an ID that has no stream, given twice, makes two streams and a MultiStream of them.
-- Whatever the parser then gets, and whoever receives what it sends, the first of the two has got no
-- chunk and is not closed: not even when the parser, whose sends were all received, has read the closer
-- while the reader was at its `select`, and has returned.
pub stream_twice :
    (id : ℕ) (p : Parser)
    → AreMade p
    → FinMap.get p.streams id ≡ none
    → (a b : ℕ) × (p1 : Parser) × (stream (id ∷ id ∷ []) p ≡ (ok (multi (a ∷ b ∷ [])), p1))
      × ((rx : Receivers) (signals : List ParserSignal)
          → FinMap.get (run_with rx signals p1).1.store a ≡ some (new_stream id))
      × ((rx : Receivers) (ms : List FromReader) (rest : List ParserSignal)
          → All (IsTaken rx) ms
          → (run_with rx (map from_reader ms ++ closing true ∷ rest) p1).0 ≡ returned)
stream_twice id p made unused = (
  p.fresh,
  suc p.fresh,
  (add_stream id (add_stream id p).1).1,
  stream_twice_lem id p unused,
  λ rx signals.
      run_with-orphan p.fresh (new_stream id) rx signals (add_stream id (add_stream id p).1).1
        (twice-IsOrphan id p made),
  λ rx ms rest taken.
      ap (λ q. q.0)
        (run_with-taken rx ms (closing true ∷ rest) (add_stream id (add_stream id p).1).1 taken)
      ∙ unfold run_with in refl,
)
