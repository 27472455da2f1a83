-- ===== src/Tests/Stalls.antt =====
-- A parser and clients whose sends nobody receives.
use rtmp.Base.{
  true, false, ℕ, suc, ◌+◌, ◌≡◌, refl, some, List, [], ◌∷◌, ◌++◌, map, replicate, arith, eof, ok,
}
use rtmp.Chunk.Chunk
use rtmp.Chunk.Chunk.{Chunk}
use rtmp.Chunk.Reader
use rtmp.Chunk.Reader.{DefaultReader, Event}
use rtmp.Chunk.Parser
use rtmp.Chunk.Parser.{Parser, FromReader, ParserSignal, from_reader, closing, new_parser}
use rtmp.Chunk.Parser.Links.{queue, IsLinked-new_parser}
use rtmp.Chunk.Parser.Routing.{of_stream, failures}
use rtmp.Chunk.Parser.Receivers.{Receivers, blocked, run_with}
use rtmp.Chunk.Parser.Stalling.{run_with-blocked}
use rtmp.Chunk.RoundTrip.Single.{IsSendable}
use rtmp.Chunk.RoundTrip.Sequence.{wires, total_rounds}
use rtmp.Handshake.Exchange.{ack_bytes, conn}
use rtmp.Client.{Client, new, handshake, receivers, receive_rounds}
use rtmp.Chunk.Goroutines.Rounds.{as_signals}
use rtmp.Client.Stalling.{run_with-end, run_with-other_stream}
use rtmp.Tests.Clients.{all_listen, frame, frame-IsSendable}
use rtmp.Tests.Handshakes.{
  challenge, first_ack, second_ack, first_ack-IsPacket, second_ack-IsPacket,
}

-- Something receives from every stream, but not the errors.
abbrev no_errs : Receivers
no_errs = record { errs = false; streams = λ id. true }

run_with-blocked_example :
    (p : Parser) × ((signals : List ParserSignal)
      → run_with no_errs
          (map from_reader (Parser.chunk frame ∷ []) ++ from_reader (Parser.failure eof) ∷ signals)
          new_parser
        ≡ (blocked, p))
    × ((id : ℕ) → queue p id ≡ queue new_parser id ++ of_stream id (Parser.chunk frame ∷ []))
    × (p.errs ≡ new_parser.errs ++ failures (Parser.chunk frame ∷ []))
run_with-blocked_example =
    run_with-blocked no_errs (Parser.chunk frame ∷ []) (Parser.failure eof) new_parser
      IsLinked-new_parser (refl, tt) refl

run_with-end_example :
    (c : Client) × (handshake 3 challenge (
        new
          (conn (3 ∷ (ack_bytes first_ack ++ (ack_bytes second_ack ++ wires 128 (frame ∷ [])))) []))
      ≡ some (ok tt, c))
    × (c.receiving ≡ true)
    × (p : Parser) × ((n : ℕ) (signals : List ParserSignal)
        → (es : List Event) × (r : DefaultReader) × (Reader.recv
              (total_rounds 128 (frame ∷ []) + suc n)
              c.reader
            ≡ (ok es, r))
          × (es ≡ map Reader.chunk (frame ∷ []) ++ replicate (suc n) (Reader.error eof))
          × (run_with (receivers all_listen) (as_signals es ++ signals) c.chunks ≡ (blocked, p)))
    × ((id : ℕ) → queue p id ≡ of_stream id (map Parser.chunk (frame ∷ [])))
    × (p.errs ≡ [])
unfolding receivers Chunk.stream_id
run_with-end_example =
    run_with-end challenge (frame ∷ []) first_ack second_ack all_listen first_ack-IsPacket
      second_ack-IsPacket refl (frame-IsSendable, tt) (refl, tt)

-- A chunk on stream 6, which the client has not asked for.
abbrev stray : Chunk
stray = record frame {
  header = record frame.header { basic_header = record { format_id = 0; stream_id = 6 } };
}

stray-IsSendable : IsSendable 128 stray
stray-IsSendable = record {
  whole = record {
    encodable = omega arith;
    full = refl;
    absolute = refl;
    extended = λ _. refl;
    length_is = refl;
  };
  not_chunk_size = omega arith;
  one_byte_id = λ _. omega arith;
}

run_with-other_stream_example :
    (c : Client) × (handshake 3 challenge (
        new (
          conn
            (3
              ∷ (ack_bytes first_ack
                  ++ (ack_bytes second_ack ++ wires 128 (frame ∷ [] ++ stray ∷ frame ∷ []))))
            []))
      ≡ some (ok tt, c))
    × (c.receiving ≡ true)
    × (es : List Event) × (r : DefaultReader) × (Reader.recv
          (total_rounds 128 (frame ∷ [] ++ stray ∷ frame ∷ []))
          c.reader
        ≡ (ok es, r))
    × (es ≡ map Reader.chunk (frame ∷ [] ++ stray ∷ frame ∷ []))
    × (p : Parser) × ((signals : List ParserSignal)
        → run_with (receivers all_listen) (as_signals es ++ signals) c.chunks ≡ (blocked, p))
    × ((id : ℕ) → queue p id ≡ of_stream id (map Parser.chunk (frame ∷ [])))
    × (c' : Client) × (receive_rounds all_listen
          (total_rounds 128 (frame ∷ [] ++ stray ∷ frame ∷ []))
          c
        ≡ (some (ok blocked), c'))
    × (c'.chunks ≡ p)
unfolding receivers Chunk.stream_id
run_with-other_stream_example =
    run_with-other_stream challenge (frame ∷ []) stray (frame ∷ []) first_ack second_ack all_listen
      first_ack-IsPacket second_ack-IsPacket refl
      (frame-IsSendable, (stray-IsSendable, (frame-IsSendable, tt))) (refl, tt) refl
