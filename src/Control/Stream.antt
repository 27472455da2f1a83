-- ===== src/Control/Stream.antt =====
-- control/stream.go: the control stream that a client has, and what it answers.
use rtmp.Base.{
  ℕ, ◌<◌, ◌≡◌, sym, ap, ◌∙◌, ◌⊎◌, true, false, Option, none, some, List, [], ◌∷◌, ◌++◌, map, All,
  unknown_control_type, Result, err,
}
use mathlib.Core.Path.{subst}
use rtmp.Chunk.Chunk
use rtmp.Chunk.Chunk.{Chunk}
use rtmp.Chunk.Writer.{DefaultWriter}
use rtmp.Loop.{
  Signal, closing, Sent, delivered, failed, running, returned, all_received, result_of, Listener,
  run_listener, new_listener, run_listener_answers, close, panics,
}
use rtmp.Control.{Control, DefaultParser, control_chunk, parse, new_parser, send}
use rtmp.Control.RoundTrip.{IsControl, limited, body, parse-control_chunk, parse_unknown}

-- The channel of incoming chunks is what its loop reads; `listener` has its own channels. The
-- chunker has no state.
pub record Stream : Type 0 where
  pub writer : DefaultWriter
  pub parser : DefaultParser
  pub listener : Listener Control

unfoldable pub new_stream : DefaultWriter → DefaultParser → Stream
new_stream w p = record { writer = w; parser = p; listener = new_listener }

abbrev with_writer :
    Stream → Option (Result (Unit {0}) × DefaultWriter) → Option (Result (Unit {0}) × Stream)
with_writer s none = none
with_writer s (some (result, w)) = some (result, record s { writer = w })

-- Stream.Send
unfoldable pub send_control : Control → Stream → Option (Result (Unit {0}) × Stream)
unfolding send
send_control c s = with_writer s (send c s.writer)

-- Stream.Recv, which closes its channels when it returns.
unfoldable pub recv_stream : List (Signal Chunk) → Stream → Stream
unfolding run_listener parse
recv_stream signals s = record s {
  listener = run_listener true (parse s.parser) signals s.listener;
}

-- What a chunk on the control stream holds: a message, or a type that there is no message for.
pub data Incoming : Type 0 where
  a_message : Control → Incoming
  unknown_type : ℕ → Incoming

abbrev pub Holds : Chunk → Incoming → Type 0
Holds k (a_message c) = IsControl c × (k ≡ control_chunk c (body c))
Holds k (unknown_type t) = (Chunk.type_id k ≡ t) × ((t ≡ 0) ⊎ (6 < t))

abbrev pub answer : Incoming → Sent Control
answer (a_message c) = delivered (limited c)
answer (unknown_type t) = failed (unknown_control_type t)

parse-answer : (k : Chunk) (m : Incoming) → Holds k m → parse new_parser k ≡ result_of (answer m)
parse-answer k (a_message c) (h, e) = ap (parse new_parser) e ∙ parse-control_chunk c h
parse-answer k (unknown_type t) (e, h) =
    parse_unknown k (subst (λ u. (u ≡ 0) ⊎ (6 < u)) (sym e) h)
    ∙ ap (λ u. err (unknown_control_type u)) e

All-answers :
    (ps : List (Chunk × Incoming))
    → All (λ p. Holds p.0 p.1) ps
    → All (λ p. parse new_parser p.0 ≡ result_of (answer p.1)) ps
All-answers [] h = tt
All-answers (p ∷ ps) (h, hs) = (parse-answer p.0 p.1 h, All-answers ps hs)

-- A new control stream that gets chunks of control messages with fields in range, and of types that
-- are none, answers each in their order, by the message, with a chunk size above 0xffffff as
-- 0xffffff, or by an error, and its loop goes on. If it then reads the closer, it returns having sent
-- the same, whatever comes after, with its channels closed, and one more call of Close panics.
pub messages_answered :
    (ps : List (Chunk × Incoming)) (w : DefaultWriter) (later : List (Signal Chunk))
    → All (λ p. Holds p.0 p.1) ps
    → (let given = all_received (map (λ p. p.0) ps) in
        ((recv_stream given (new_stream w new_parser)).listener
          ≡ record { out = map (λ p. answer p.1) ps; ending = running; closed = false })
        × ((recv_stream (given ++ closing ∷ later) (new_stream w new_parser)).listener
            ≡ record { out = map (λ p. answer p.1) ps; ending = returned; closed = true })
        × (close (recv_stream (given ++ closing ∷ later) (new_stream w new_parser)).listener
            ≡ panics))
unfolding recv_stream new_stream close
messages_answered ps w later h =
    let (open_one, closed_one) =
      run_listener_answers (parse new_parser) true (λ p. p.0) (λ p. answer p.1) ps later
        (All-answers ps h) in
    (open_one, closed_one, ap close closed_one)
