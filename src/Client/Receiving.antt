-- ===== src/Client/Receiving.antt =====
-- What a client of client/client.go gets of what is sent to it.
use rtmp.Base.{
  Bool, ℕ, ◌≡◌, refl, sym, ap, ◌∙◌, none, some, List, [], ◌∷◌, ◌++◌, map, arith, All, true, ok,
  if◌then◌else◌,
}
use rtmp.Base.Int.{pos}
use rtmp.Io.{buffer}
use rtmp.Base.FinMap
use rtmp.Base.FinMap.{FinMap}
use rtmp.Chunk.Chunk.{Chunk}
use rtmp.Chunk.Reader
use rtmp.Chunk.Reader.{DefaultReader, default_read_size, new_reader}
use rtmp.Chunk.Normalizer.{new_normalizer}
use rtmp.Chunk.Parser
use rtmp.Chunk.Parser.{Parser, Handle, single, multi, new_parser, add_stream}
use rtmp.Chunk.Parser.Links.{
  IsLinked, queue, IsLinked-new_parser, IsLinked-add_stream, queue-add_stream,
}
use rtmp.Chunk.Parser.Routing.{of_stream, failures, recv-of_stream}
use rtmp.Chunk.RoundTrip.Single.{IsSendable}
use rtmp.Chunk.RoundTrip.Sequence.{wires, total_rounds, recv-wires, IsIdle-new_reader}
use rtmp.Handshake.{Conn, AckPacket, equal, fresh}
use rtmp.Handshake.Exchange.{
  IsPacket, ack_bytes, answers, conn, handshake-answers, equal_refl, outcome, left,
}
use mathlib.Core.Path.{subst}
use rtmp.Chunk.Goroutines.{from_event}
use rtmp.Chunk.Goroutines.Rounds.{rounds, rounds-recv}
use rtmp.Chunk.Parser.Receivers.{selecting}
use rtmp.Chunk.Parser.Stalling.{IsTaken}
use rtmp.Chunk.Chunk
use rtmp.Client
use rtmp.Client.{Client, new, handshake, receive_rounds, receivers, started}

abbrev with_streams : List ℕ → Parser → Parser
with_streams [] p = p
with_streams (id ∷ ids) p = with_streams ids (add_stream id p).1

new_chunks : (k : Conn) → (new k).chunks ≡ with_streams (2 ∷ 3 ∷ 4 ∷ 5 ∷ 8 ∷ []) new_parser
unfolding new Parser.stream Parser.one_stream Parser.existing Parser.add_streams add_stream
    FinMap.get FinMap.put new_parser
new_chunks k = refl

-- A stream that is added to the parser leaves the others empty.
abbrev IsEmpty : Parser → Type 0
IsEmpty p = IsLinked p × ((id : ℕ) → queue p id ≡ [])

IsEmpty-add_stream :
    (id : ℕ) (p : Parser) → IsEmpty p → FinMap.get p.streams id ≡ none → IsEmpty (add_stream id p).1
IsEmpty-add_stream id p (l, empty) missing =
    (IsLinked-add_stream id p l, λ j. queue-add_stream id p j l missing ∙ empty j)

-- The streams of a new client: none has a chunk, and there is no error.
pub new_lem :
    (k : Conn)
    → IsLinked (new k).chunks
      × ((id : ℕ) → queue (new k).chunks id ≡ [])
      × ((new k).chunks.errs ≡ [])
unfolding new_parser add_stream FinMap.get FinMap.put queue
new_lem k =
    let p0 = new_parser in
    let p2 = with_streams (2 ∷ []) p0 in
    let p3 = with_streams (2 ∷ 3 ∷ []) p0 in
    let p4 = with_streams (2 ∷ 3 ∷ 4 ∷ []) p0 in
    let p5 = with_streams (2 ∷ 3 ∷ 4 ∷ 5 ∷ []) p0 in
    let (l, empty) =
      IsEmpty-add_stream 8 p5
        (IsEmpty-add_stream 5 p4
          (IsEmpty-add_stream 4 p3
            (IsEmpty-add_stream 3 p2
              (IsEmpty-add_stream 2 p0 (IsLinked-new_parser, λ id. refl) refl) refl)
            refl)
          refl)
        refl in
    subst (λ p. IsLinked p × ((id : ℕ) → queue p id ≡ []) × (p.errs ≡ [])) (sym (new_chunks k))
      (l, empty, refl)

pub map-from_event : (cs : List Chunk) → map from_event (map Reader.chunk cs) ≡ map Parser.chunk cs
map-from_event [] = refl
map-from_event (c ∷ cs) = ap (λ l. Parser.chunk c ∷ l) (map-from_event cs)

pub failures-chunks : (cs : List Chunk) → failures (map Parser.chunk cs) ≡ []
unfolding failures
failures-chunks [] = refl
failures-chunks (c ∷ cs) = failures-chunks cs

-- A chunk whose stream the client has handed out to something that receives from it.
abbrev pub IsReceived : (ℕ → Bool) → Chunk → Type 0
IsReceived listening c = (receivers listening).streams (Chunk.stream_id c) ≡ true

pub All-IsTaken :
    (listening : ℕ → Bool) (cs : List Chunk)
    → All (IsReceived listening) cs
    → All (IsTaken (receivers listening)) (map Parser.chunk cs)
All-IsTaken listening [] h = tt
All-IsTaken listening (c ∷ cs) (h, hs) = (h, All-IsTaken listening cs hs)

-- If all that the reader sends is received, the client has what the two loops make one after the other.
receive_rounds-recv :
    (listening : ℕ → Bool) (n : ℕ) (c : Client) (es : List Reader.Event) (r : DefaultReader)
    (p : Parser)
    → c.receiving ≡ true
    → Reader.recv n c.reader ≡ (ok es, r)
    → All (IsTaken (receivers listening)) (map from_event es)
    → Parser.recv (map from_event es) c.chunks ≡ (ok tt, p)
    → receive_rounds listening n c ≡ (
      some (ok selecting),
      record c { chunks = p; reader = r; conn = record c.conn { incoming = r.source } },
    )
unfolding receive_rounds
receive_rounds-recv listening n c es r p on read taken routed =
    ap
      (λ b.
        if b
        then Client.after_rounds c (rounds (receivers listening) n c.reader c.chunks)
        else (none, c))
      on
    ∙ ap (Client.after_rounds c) (
        rounds-recv (receivers listening) n c.reader r c.chunks es read taken
        ∙ ap (λ q. (ok selecting, (r, q.1))) routed)

-- The two calls of Stream that New makes do not fail: the control messages are those of stream 2, and
-- the commands those of the streams 3, 4, 5 and 8.
new-handles :
    (k : Conn)
    → ((new k).control_chunks ≡ some (single 0))
      × (FinMap.get (new k).chunks.streams 2 ≡ some 0)
      × ((new k).net_chunks ≡ some (multi (1 ∷ 2 ∷ 3 ∷ 4 ∷ [])))
      × (map (FinMap.get (new k).chunks.streams) (3 ∷ 4 ∷ 5 ∷ 8 ∷ [])
          ≡ map some (1 ∷ 2 ∷ 3 ∷ 4 ∷ []))
unfolding new Parser.stream Parser.one_stream Parser.existing Parser.add_streams add_stream
    FinMap.get FinMap.put new_parser
new-handles k = (refl, refl, refl, refl)

-- A client's handshake with a peer that sends version 3 and two packets, the second with the random payload.
pub handshake_ok :
    (random rest : List ℕ) (c1 c2 : AckPacket)
    → IsPacket c1
    → IsPacket c2
    → c2.payload ≡ random
    → (let k = conn (3 ∷ (ack_bytes c1 ++ (ack_bytes c2 ++ rest))) [] in
        handshake 3 random (new k)
        ≡ some (
          ok tt,
          record (new k) {
            conn = conn rest (3 ∷ answers random c1);
            reader = new_reader rest default_read_size new_normalizer;
            receiving = true;
          },
        ))
unfolding handshake new new_reader
handshake_ok random rest c1 c2 h1 h2 same =
    let k = conn (3 ∷ (ack_bytes c1 ++ (ack_bytes c2 ++ rest))) [] in
    let matched : equal random c2.payload ≡ true = ap (equal random) same ∙ equal_refl random in
    ap (started (new k)) (
      handshake-answers random rest [] c1 c2 h1 h2
      ∙ ap
          (λ b. some (
            outcome b,
            record { rw = conn rest (3 ∷ answers random c1); current = left b (fresh random) },
          ))
          matched)

-- With a peer that sends version 3, two packets, the second with the random payload, and then
-- sendable chunks, written with the size 128, on streams that the client has handed out and whose
-- receivers receive: the handshake of a new client succeeds, having sent its own answers, the control
-- stream is that of ID 2, and after a round for each piece, without an error or a panic, the parser
-- waits in its `select`, each stream has the chunks of its ID in the order in which they were written,
-- no error was passed on, and the connection is read to its end.
pub receives :
    (random : List ℕ) (cs : List Chunk) (c1 c2 : AckPacket) (listening : ℕ → Bool)
    → IsPacket c1
    → IsPacket c2
    → c2.payload ≡ random
    → All (IsSendable 128) cs
    → All (IsReceived listening) cs
    → (c c' : Client) × (handshake 3 random
          (new (conn (3 ∷ (ack_bytes c1 ++ (ack_bytes c2 ++ wires 128 cs))) []))
        ≡ some (ok tt, c))
      × (c.conn.outgoing ≡ buffer (3 ∷ answers random c1))
      × (c.control_chunks ≡ some (single 0))
      × (FinMap.get c.chunks.streams 2 ≡ some 0)
      × (receive_rounds listening (total_rounds 128 cs) c ≡ (some (ok selecting), c'))
      × ((id : ℕ) → queue c'.chunks id ≡ of_stream id (map Parser.chunk cs))
      × (c'.chunks.errs ≡ [])
      × (c'.conn.incoming ≡ [])
receives random cs c1 c2 listening h1 h2 same vs received =
    let k = conn (3 ∷ (ack_bytes c1 ++ (ack_bytes c2 ++ wires 128 cs))) [] in
    let reader = new_reader (wires 128 cs) (pos 128) new_normalizer in
    let (l, empty, quiet) = new_lem k in
    let (control_is, control_at, net_is, net_at) = new-handles k in
    let (r, read, idle) =
      recv-wires 128 cs [] reader (omega arith) vs
        (IsIdle-new_reader 128 (wires 128 cs) new_normalizer) in
    let (p, routed, l', queues, errs) = recv-of_stream (map Parser.chunk cs) (new k).chunks l in
    let c : Client = record (new k) {
      conn = conn (wires 128 cs) (3 ∷ answers random c1);
      reader = reader;
      receiving = true;
    } in
    (
      c,
      record c { chunks = p; reader = r; conn = record c.conn { incoming = r.source } },
      handshake_ok random (wires 128 cs) c1 c2 h1 h2 same,
      refl,
      control_is,
      control_at,
      receive_rounds-recv listening (total_rounds 128 cs) c (map Reader.chunk cs) r p refl read
          (subst (All (IsTaken (receivers listening))) (sym (map-from_event cs))
            (All-IsTaken listening cs received))
          (ap (λ ms. Parser.recv ms (new k).chunks) (map-from_event cs) ∙ routed),
      λ id. queues id ∙ ap (λ q. q ++ of_stream id (map Parser.chunk cs)) (empty id),
      errs ∙ ap (λ es. es ++ failures (map Parser.chunk cs)) quiet ∙ failures-chunks cs,
      idle.source_is,
    )
