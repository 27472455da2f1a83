-- ===== src/Client/Stalling.antt =====
-- What a client of client/client.go does when a send of its parser has no receiver.
use rtmp.Base.{
  sym, none, append-nil, Bool, true, false, ℕ, suc, ◌+◌, ◌≡◌, refl, ap, ◌∙◌, some, List, [], ◌∷◌,
  ◌++◌, map, arith, All, eof, ok, replicate, if◌then◌else◌,
}
use mathlib.Core.List.{map-append}
use rtmp.Base.Int.{pos}
use rtmp.Chunk.Chunk
use rtmp.Chunk.Chunk.{Chunk}
use rtmp.Chunk.Reader
use rtmp.Chunk.Reader.{DefaultReader, Event, default_read_size, new_reader}
use rtmp.Chunk.Normalizer.{new_normalizer}
use rtmp.Chunk.Parser
use rtmp.Chunk.Parser.{Parser, FromReader, ParserSignal, from_reader}
use rtmp.Chunk.Parser.Links.{queue}
use rtmp.Chunk.Parser.Routing.{of_stream, failures}
use rtmp.Chunk.Parser.Receivers.{blocked, is_taken, run_with}
use rtmp.Chunk.Parser.Stalling.{run_with-blocked}
use rtmp.Chunk.Reader.End.{recv-end}
use rtmp.Chunk.RoundTrip.Single.{IsSendable}
use rtmp.Chunk.RoundTrip.Sequence.{wires, total_rounds, recv-wires, recv-add, IsIdle-new_reader}
use rtmp.Handshake.{AckPacket}
use rtmp.Handshake.Exchange.{IsPacket, ack_bytes, conn}
use rtmp.Chunk.Goroutines.{from_event}
use rtmp.Chunk.Goroutines.Rounds.{as_signals, rounds}
use rtmp.Chunk.Goroutines.Blocking.{rounds-run_with}
use rtmp.Client.{Client, new, handshake, receivers, handed_out, receive_rounds, after_rounds}
use rtmp.Client.Receiving.{new_lem, handshake_ok, failures-chunks, IsReceived, All-IsTaken}

as_signals-append :
    (cs : List Chunk) (e : Event) (es : List Event) (signals : List ParserSignal)
    → as_signals (map Reader.chunk cs ++ e ∷ es) ++ signals
      ≡ map from_reader (map Parser.chunk cs)
        ++ from_reader (from_event e) ∷ (as_signals es ++ signals)
as_signals-append [] e es signals = refl
as_signals-append (c ∷ cs) e es signals =
    ap (λ l. from_reader (Parser.chunk c) ∷ l) (as_signals-append cs e es signals)

-- In the rounds the client comes to the send that nobody receives, and stays there.
receive_rounds-blocked :
    (listening : ℕ → Bool) (n : ℕ) (c : Client) (es : List Event) (r : DefaultReader) (p : Parser)
    → c.receiving ≡ true
    → Reader.recv n c.reader ≡ (ok es, r)
    → run_with (receivers listening) (as_signals es) c.chunks ≡ (blocked, p)
    → (c' : Client) × (receive_rounds listening n c ≡ (some (ok blocked), c')) × (c'.chunks ≡ p)
unfolding receive_rounds
receive_rounds-blocked listening n c es r p on read ends =
    let (r1, stops) = rounds-run_with (receivers listening) n c.reader r c.chunks p es read ends in
    (
      record c { chunks = p; reader = r1; conn = record c.conn { incoming = r1.source } },
      ap
            (λ b.
              if b
              then after_rounds c (rounds (receivers listening) n c.reader c.chunks)
              else (none, c))
            on
          ∙ ap (after_rounds c) stops,
      refl,
    )

module _ (random : List ℕ) (cs : List Chunk) (c1 c2 : AckPacket) (h1 : IsPacket c1)
    (h2 : IsPacket c2) (same : c2.payload ≡ random) (listening : ℕ → Bool) where
  -- The client whose handshake has succeeded, with `rest` to be read.
  abbrev peer : List ℕ → List ℕ
  peer rest = 3 ∷ (ack_bytes c1 ++ (ack_bytes c2 ++ rest))

  stalls :
      (m : FromReader) (rest : List ℕ)
      → All (IsReceived listening) cs
      → is_taken (receivers listening) m ≡ false
      → (c : Client) × (handshake 3 random (new (conn (peer rest) [])) ≡ some (ok tt, c))
        × (c.receiving ≡ true)
        × (c.reader ≡ new_reader rest default_read_size new_normalizer)
        × (p : Parser) × ((signals : List ParserSignal)
            → run_with
                (receivers listening)
                (map from_reader (map Parser.chunk cs) ++ from_reader m ∷ signals)
                c.chunks
              ≡ (blocked, p))
        × ((id : ℕ) → queue p id ≡ of_stream id (map Parser.chunk cs))
        × (p.errs ≡ [])
  stalls m rest received untaken =
      let k = conn (peer rest) [] in
      let (l, empty, quiet) = new_lem k in
      let (p, run, queues, errs) =
        run_with-blocked (receivers listening) (map Parser.chunk cs) m (new k).chunks l
          (All-IsTaken listening cs received) untaken in
      (
        _,
        handshake_ok random rest c1 c2 h1 h2 same,
        refl,
        refl,
        p,
        run,
        λ id. queues id ∙ ap (λ q. q ++ of_stream id (map Parser.chunk cs)) (empty id),
        errs ∙ ap (λ es. es ++ failures (map Parser.chunk cs)) quiet ∙ failures-chunks cs,
      )

-- With a peer that sends version 3, two packets, the second with the random payload, and then
-- sendable chunks on streams that the client has handed out and whose receivers receive, written with
-- the size 128, and then nothing more: the handshake of a new client succeeds, and the reader, which
-- does not end, sends the chunks and then an end of file in every further round. The parser waits for
-- ever in its first send of that error, whatever it is sent later, a closing included: each stream
-- has the chunks of its ID, and no error has been received.
pub run_with-end :
    (random : List ℕ) (cs : List Chunk) (c1 c2 : AckPacket) (listening : ℕ → Bool)
    → IsPacket c1
    → IsPacket c2
    → c2.payload ≡ random
    → All (IsSendable 128) cs
    → All (IsReceived listening) cs
    → (c : Client) × (handshake 3 random
          (new (conn (3 ∷ (ack_bytes c1 ++ (ack_bytes c2 ++ wires 128 cs))) []))
        ≡ some (ok tt, c))
      × (c.receiving ≡ true)
      × (p : Parser) × ((n : ℕ) (signals : List ParserSignal)
          → (es : List Event) × (r : DefaultReader) × (Reader.recv
                (total_rounds 128 cs + suc n)
                c.reader
              ≡ (ok es, r))
            × (es ≡ map Reader.chunk cs ++ replicate (suc n) (Reader.error eof))
            × (run_with (receivers listening) (as_signals es ++ signals) c.chunks ≡ (blocked, p)))
      × ((id : ℕ) → queue p id ≡ of_stream id (map Parser.chunk cs))
      × (p.errs ≡ [])
run_with-end random cs c1 c2 listening h1 h2 same vs received =
    let (c, shaken, on, reader_is, p, run, queues, errs) =
      stalls random cs c1 c2 h1 h2 same listening (Parser.failure eof) (wires 128 cs) received
        (unfold receivers in refl) in
    let (r, read, idle) =
      recv-wires 128 cs [] (new_reader (wires 128 cs) (pos 128) new_normalizer) (omega arith) vs
        (IsIdle-new_reader 128 (wires 128 cs) new_normalizer) in
    (
      c,
      shaken,
      on,
      p,
      λ n signals. (
        map Reader.chunk cs ++ replicate (suc n) (Reader.error eof),
        r,
        ap (Reader.recv (total_rounds 128 cs + suc n)) reader_is
            ∙ recv-add (total_rounds 128 cs) (suc n) _ r r (map Reader.chunk cs) _ read
                (recv-end (suc n) r idle.source_is),
        refl,
        ap (λ l. run_with (receivers listening) l c.chunks)
              (as_signals-append cs (Reader.error eof) (replicate n (Reader.error eof)) signals)
            ∙ run _,
      ),
      queues,
      errs,
    )

-- With a peer that sends version 3, two packets, the second with the random payload, and then
-- sendable chunks, written with the size 128, the first of which are on streams that the client has
-- handed out and whose receivers receive, and then one on another stream than 2, 3, 4, 5 and 8: the
-- handshake of a new client succeeds, and the parser waits for ever in its send of that chunk, whatever
-- it is sent later, a closing included. No stream gets any chunk that follows: in the rounds that the
-- pieces take, the client comes to that send, and no further.
pub run_with-other_stream :
    (random : List ℕ) (cs : List Chunk) (other : Chunk) (later : List Chunk) (c1 c2 : AckPacket)
    (listening : ℕ → Bool)
    → IsPacket c1
    → IsPacket c2
    → c2.payload ≡ random
    → All (IsSendable 128) (cs ++ other ∷ later)
    → All (IsReceived listening) cs
    → handed_out (Chunk.stream_id other) ≡ false
    → (c : Client) × (handshake 3 random
          (new (conn (3 ∷ (ack_bytes c1 ++ (ack_bytes c2 ++ wires 128 (cs ++ other ∷ later)))) []))
        ≡ some (ok tt, c))
      × (c.receiving ≡ true)
      × (es : List Event) × (r : DefaultReader) × (Reader.recv
            (total_rounds 128 (cs ++ other ∷ later))
            c.reader
          ≡ (ok es, r))
      × (es ≡ map Reader.chunk (cs ++ other ∷ later))
      × (p : Parser) × ((signals : List ParserSignal)
          → run_with (receivers listening) (as_signals es ++ signals) c.chunks ≡ (blocked, p))
      × ((id : ℕ) → queue p id ≡ of_stream id (map Parser.chunk cs))
      × (c' : Client) × (receive_rounds listening (total_rounds 128 (cs ++ other ∷ later)) c
          ≡ (some (ok blocked), c'))
      × (c'.chunks ≡ p)
run_with-other_stream random cs other later c1 c2 listening h1 h2 same vs received not_ours =
    let all = cs ++ other ∷ later in
    let (c, shaken, on, reader_is, p, run, queues, errs) =
      stalls random cs c1 c2 h1 h2 same listening (Parser.chunk other) (wires 128 all) received (
        unfold receivers in
        ap (λ b. if b then listening (Chunk.stream_id other) else false) not_ours) in
    let (r, read, idle) =
      recv-wires 128 all [] (new_reader (wires 128 all) (pos 128) new_normalizer) (omega arith) vs
        (IsIdle-new_reader 128 (wires 128 all) new_normalizer) in
    let read_all = ap (Reader.recv (total_rounds 128 all)) reader_is ∙ read in
    let blocks : (signals : List ParserSignal)
        → run_with (receivers listening) (as_signals (map Reader.chunk all) ++ signals) c.chunks
          ≡ (blocked, p) =
      λ signals.
        ap (λ l. run_with (receivers listening) (as_signals l ++ signals) c.chunks)
          (map-append Reader.chunk cs (other ∷ later))
        ∙ ap (λ l. run_with (receivers listening) l c.chunks)
            (as_signals-append cs (Reader.chunk other) (map Reader.chunk later) signals)
        ∙ run _ in
    let (c', stops, left) =
      receive_rounds-blocked listening (total_rounds 128 all) c (map Reader.chunk all) r p on
        read_all
        (ap (λ l. run_with (receivers listening) l c.chunks)
            (sym (append-nil (as_signals (map Reader.chunk all))))
          ∙ blocks []) in
    (c, shaken, on, map Reader.chunk all, r, read_all, refl, p, blocks, queues, c', stops, left)
