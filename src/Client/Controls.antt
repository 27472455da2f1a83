-- ===== src/Client/Controls.antt =====
-- The control messages that a client of client/client.go gets.
use rtmp.Base.{
  Bool, Bool-cases, inl, inr, ◌==◌, ℕ, ◌≡◌, refl, ap, ◌∙◌, some, List, [], ◌∷◌, ◌++◌, append-nil,
  map, All, ok,
}
use rtmp.Chunk.Chunk.{Chunk}
use rtmp.Chunk.Parser
use rtmp.Chunk.Parser.Links.{queue}
use rtmp.Chunk.Parser.Routing.{of_stream}
use rtmp.Chunk.RoundTrip.Single.{IsSendable}
use rtmp.Chunk.RoundTrip.Sequence.{wires, total_rounds}
use rtmp.Handshake.{AckPacket}
use rtmp.Handshake.Exchange.{IsPacket, ack_bytes, conn}
use rtmp.Loop.{all_received, received, delivered, running, listen, listen-All}
use rtmp.Control
use rtmp.Control.{
  Control, set_chunk_size, abort_message, acknowledgement, event, window_ack_size,
  set_peer_bandwidth, control_chunk, parse, new_parser,
}
use rtmp.Control.RoundTrip.{IsControl, limited, body, parse-control_chunk}
use rtmp.Client.{Client, new, handshake, receive_rounds}
use rtmp.Client.Receiving.{receives, IsReceived}
use rtmp.Chunk.Parser.Receivers.{selecting}
use rtmp.Chunk.Chunk
use mathlib.Core.Path.{subst}

-- The chunk that a control message is sent as.
abbrev pub control_of : Control → Chunk
control_of m = control_chunk m (body m)

all_received-map :
    (ms : List Control)
    → all_received (map control_of ms) ≡ map (λ m. received (some (control_of m))) ms ++ []
all_received-map [] = refl
all_received-map (m ∷ ms) = ap (λ l. received (some (control_of m)) ∷ l) (all_received-map ms)

-- Control messages with fields in range, from their chunks: the loop of the control stream delivers
-- them in their order.
recv-map :
    (ms : List Control)
    → All IsControl ms
    → Control.recv (all_received (map control_of ms))
      ≡ (map (λ m. delivered (limited m)) ms, running)
unfolding Control.recv listen
recv-map ms valid =
    ap Control.recv (all_received-map ms)
    ∙ listen-All (parse new_parser) IsControl control_of limited ms [] valid parse-control_chunk
    ∙ ap (λ l. (l, running)) (append-nil (map (λ m. delivered (limited m)) ms))

-- A chunk that the reader passes on is not that of a Set Chunk Size, so the cap on the size changes
-- nothing.
limited-sendable : (m : Control) → IsSendable 128 (control_of m) → limited m ≡ m
unfolding limited Control.control_chunk Control.type_id
limited-sendable (set_chunk_size n) v = absurd (v.not_chunk_size refl)
limited-sendable (abort_message id) v = refl
limited-sendable (acknowledgement n) v = refl
limited-sendable (event t b) v = refl
limited-sendable (window_ack_size n) v = refl
limited-sendable (set_peer_bandwidth size limit) v = refl

delivered_sendable :
    (ms : List Control)
    → All (IsSendable 128) (map control_of ms)
    → map (λ m. delivered (limited m)) ms ≡ map delivered ms
delivered_sendable [] vs = refl
delivered_sendable (m ∷ ms) (v, vs) =
    ap (λ x. delivered x ∷ map (λ k. delivered (limited k)) ms) (limited-sendable m v)
    ∙ ap (λ l. delivered m ∷ l) (delivered_sendable ms vs)

All-of_stream :
    (id : ℕ) (cs : List Chunk)
    → All (IsSendable 128) cs
    → All (IsSendable 128) (of_stream id (map Parser.chunk cs))
unfolding of_stream
All-of_stream id [] vs = tt
All-of_stream id (c ∷ cs) (v, vs) = elim (Bool-cases (Chunk.stream_id c == id)) [
  | inl e ↦ rw e (v, All-of_stream id cs vs)
  | inr e ↦ rw e (All-of_stream id cs vs)
]

-- With a peer that sends version 3, two packets, the second with the random payload, and then
-- sendable chunks, written with the size 128, on streams that the client has handed out and whose
-- receivers receive, of which those on stream 2 are the chunks of control messages with fields in
-- range: the handshake of a new client succeeds, what is sent is read without an error or a panic, the
-- parser then waits in its `select`, and the control stream of the client delivers the messages in their
-- order, with no error between them. A Set Chunk Size is not sendable, since the reader keeps it.
pub controls_received :
    (random : List ℕ) (cs : List Chunk) (ms : List Control) (c1 c2 : AckPacket)
    (listening : ℕ → Bool)
    → IsPacket c1
    → IsPacket c2
    → c2.payload ≡ random
    → All (IsSendable 128) cs
    → All (IsReceived listening) cs
    → All IsControl ms
    → of_stream 2 (map Parser.chunk cs) ≡ map control_of ms
    → (c c' : Client) × (handshake 3 random
          (new (conn (3 ∷ (ack_bytes c1 ++ (ack_bytes c2 ++ wires 128 cs))) []))
        ≡ some (ok tt, c))
      × (receive_rounds listening (total_rounds 128 cs) c ≡ (some (ok selecting), c'))
      × (Control.recv (all_received (queue c'.chunks 2)) ≡ (map delivered ms, running))
controls_received random cs ms c1 c2 listening h1 h2 same vs heard valid control_chunks =
    let (c, c', shaken, sent, is, at, read, queues, errs, done) =
      receives random cs c1 c2 listening h1 h2 same vs heard in
    (
      c,
      c',
      shaken,
      read,
      ap (λ q. Control.recv (all_received q)) (queues 2 ∙ control_chunks)
          ∙ recv-map ms valid
          ∙ ap (λ l. (l, running))
              (delivered_sendable ms
                (subst (All (IsSendable 128)) control_chunks (All-of_stream 2 cs vs))),
    )
