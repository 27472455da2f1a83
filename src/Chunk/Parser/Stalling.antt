-- ===== src/Chunk/Parser/Stalling.antt =====
-- Where the loop of chunk/parser.go waits for ever.
use rtmp.Base.{
  true, false, ℕ, ◌≡◌, refl, sym, ap, ◌∙◌, inl, inr, List, [], ◌∷◌, ◌++◌, map, All, ok, proceed,
  Option-cases,
}
use rtmp.Base.FinMap
use rtmp.Chunk.Chunk
use rtmp.Chunk.Chunk.{Chunk}
use rtmp.Chunk.Parser.{
  Parser, FromReader, chunk, failure, ParserSignal, from_reader, one_stream, send_on, add_stream,
  receive, recv,
}
use rtmp.Chunk.Parser.Links.{IsLinked, queue, one_stream_lem}
use rtmp.Chunk.Parser.Routing.{of_stream, failures, recv-of_stream}
use rtmp.Chunk.Parser.Receivers.{Receivers, blocked, is_taken, offered, run_with}

abbrev pub IsTaken : Receivers → FromReader → Type 0
IsTaken rx m = is_taken rx m ≡ true

pub receive_ok : (m : FromReader) (p : Parser) → receive m p ≡ (ok tt, (receive m p).1)
unfolding receive one_stream send_on add_stream
receive_ok (failure e) p = refl
receive_ok (chunk c) p = elim (Option-cases (FinMap.get p.streams (Chunk.stream_id c))) [
  | inl missing ↦ rw missing refl
  | inr (a, found) ↦ rw found refl
]

pub recv-step :
    (m : FromReader) (ms : List FromReader) (p : Parser) → recv (m ∷ ms) p ≡ recv ms (receive m p).1
unfolding recv
recv-step m ms p = ap (λ q. proceed q (λ u. recv ms)) (receive_ok m p)

pub run_with_first :
    (rx : Receivers) (m : FromReader) (signals : List ParserSignal) (p : Parser)
    → IsTaken rx m
    → run_with rx (from_reader m ∷ signals) p ≡ run_with rx signals (receive m p).1
unfolding run_with
run_with_first rx m signals p h = rw h refl

-- As long as every send is received, the loop does what it does with receivers for all.
pub run_with-taken :
    (rx : Receivers) (ms : List FromReader) (signals : List ParserSignal) (p : Parser)
    → All (IsTaken rx) ms
    → run_with rx (map from_reader ms ++ signals) p ≡ run_with rx signals (recv ms p).1
run_with-taken rx [] signals p h = unfold recv in refl
run_with-taken rx (m ∷ ms) signals p (h, hs) =
    run_with_first rx m (map from_reader ms ++ signals) p h
    ∙ run_with-taken rx ms signals (receive m p).1 hs
    ∙ ap (λ q. run_with rx signals q.1) (sym (recv-step m ms p))

pub run_with_untaken :
    (rx : Receivers) (m : FromReader) (signals : List ParserSignal) (p : Parser)
    → is_taken rx m ≡ false
    → run_with rx (from_reader m ∷ signals) p ≡ (blocked, offered m p)
unfolding run_with
run_with_untaken rx m signals p h = rw h refl

-- Making the stream of a chunk gives no stream a chunk.
offered_lem :
    (m : FromReader) (p : Parser)
    → IsLinked p
    → ((id : ℕ) → queue (offered m p) id ≡ queue p id) × ((offered m p).errs ≡ p.errs)
offered_lem (failure e) p l = (λ id. refl, refl)
offered_lem (chunk c) p l =
    let (a, p', e, at, l', queues, errs) = one_stream_lem (Chunk.stream_id c) p l in
    let same : (one_stream (Chunk.stream_id c) p).1 ≡ p' = ap (λ q. q.1) e in
    (λ id. ap (λ q. queue q id) same ∙ queues id, ap (λ q. q.errs) same ∙ errs)

-- The parser has got some messages that are all received on its other side, and then one that is not,
-- be it an error or a chunk. Whatever it is sent after that, a closing included, it waits for ever in
-- its send: each stream has the chunks that came before it behind those that it had, the errors that
-- came before it are passed on, and nothing more.
pub run_with-blocked :
    (rx : Receivers) (ms : List FromReader) (m : FromReader) (p : Parser)
    → IsLinked p
    → All (IsTaken rx) ms
    → is_taken rx m ≡ false
    → (p' : Parser) × ((signals : List ParserSignal)
        → run_with rx (map from_reader ms ++ from_reader m ∷ signals) p ≡ (blocked, p'))
      × ((id : ℕ) → queue p' id ≡ queue p id ++ of_stream id ms)
      × (p'.errs ≡ p.errs ++ failures ms)
run_with-blocked rx ms m p l taken untaken =
    let (p1, e, l1, queues, errs) = recv-of_stream ms p l in
    let (queues', errs') = offered_lem m p1 l1 in
    (
      offered m p1,
      λ signals.
          run_with-taken rx ms (from_reader m ∷ signals) p taken
          ∙ ap (λ q. run_with rx (from_reader m ∷ signals) q.1) e
          ∙ run_with_untaken rx m signals p1 untaken,
      λ id. queues' id ∙ queues id,
      errs' ∙ errs,
    )
