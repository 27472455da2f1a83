-- ===== src/Tests/Goroutines.antt =====
-- The goroutines of a parser and of its reader, which is at the end of its input, and streams that the
-- parser is asked for.
use rtmp.Base.{
  true, ℕ, ◌≡◌, refl, some, List, [], ◌∷◌, ◌++◌, map, All, eof, arith, ok, err, stream_exists, ◌⊎◌,
}
use rtmp.Base.Int.{pos}
use rtmp.Base.FinMap
use rtmp.Chunk.Normalizer.{new_normalizer}
use rtmp.Chunk.Reader
use rtmp.Chunk.Reader.{DefaultReader, Event, new_reader}
use rtmp.Chunk.Reader.End.{iterate-end}
use rtmp.Chunk.Parser
use rtmp.Chunk.Parser.{
  Parser, FromReader, ParserSignal, from_reader, multi, stream, new_parser, close_all, receive,
  new_stream,
}
use rtmp.Chunk.Parser.Links.{IsLinked-new_parser}
use rtmp.Chunk.Parser.Several.{IsUnused, IsFirstTaken, Made, stream_several}
use rtmp.Chunk.Parser.Orphans.{stream_twice}
use rtmp.Chunk.Goroutines.{
  polling, sending, stopped, closing, returned, Goroutines, start, Step, round, hand_over, Reach,
  initially, and_then,
}
use rtmp.Chunk.Goroutines.Refinement.{Runs, Reach-Runs}
use rtmp.Chunk.Goroutines.Closing.{closing_decides, close_hangs}
use rtmp.Chunk.Parser.Receivers
use rtmp.Chunk.Parser.Receivers.{Receivers, run_with}
use rtmp.Chunk.Parser.Stalling.{IsTaken}

abbrev at_end : DefaultReader
at_end = record { source = []; builders = []; normalizer = new_normalizer; read_size = pos 128 }

abbrev begun : Goroutines
begun = start at_end new_parser

abbrev one_error : Goroutines
one_error = record begun { reader_at = sending (Reader.error eof) }

one_error_reached : Reach begun one_error
one_error_reached =
    and_then initially (
      round begun (Reader.error eof ∷ []) at_end refl (λ e. absurd (cc e))
        (iterate-end at_end refl))

abbrev handed : Goroutines
handed = record one_error {
  reader_at = polling;
  parser = (receive (Parser.failure eof) new_parser).1;
}

handed_reached : Reach begun handed
handed_reached = and_then one_error_reached (hand_over one_error (Reader.error eof) refl refl)

Reach-Runs_example : Runs at_end new_parser handed
Reach-Runs_example = Reach-Runs at_end new_parser handed_reached

abbrev asked : Goroutines
asked = record begun { parser_at = closing }

closing_decides_example :
    let ended = record asked {
      reader_at = stopped;
      parser = close_all asked.parser;
      parser_at = returned;
    } in
    (asked.reader_at ≡ polling → Step asked ended × ((h : Goroutines) → Step asked h → h ≡ ended))
    × ((e : Event) → asked.reader_at ≡ sending e → (h : Goroutines) → Reach asked h → h ≡ asked)
closing_decides_example = closing_decides asked refl

close_hangs_example :
    (h : Goroutines) × Reach handed h
    × (h.parser_at ≡ closing)
    × ((k : Goroutines) → Reach h k → k ≡ h)
close_hangs_example = close_hangs at_end new_parser handed refl handed_reached refl

stream_several_example :
    (All (IsUnused new_parser) (3 ∷ 4 ∷ 5 ∷ [])
      × (addresses : List ℕ) × (p : Parser) × (stream (3 ∷ 4 ∷ 5 ∷ []) new_parser
          ≡ (ok (multi addresses), p))
      × Made new_parser (3 ∷ 4 ∷ 5 ∷ []) addresses p)
    ⊎ ((taken : ℕ) × IsFirstTaken new_parser (3 ∷ 4 ∷ 5 ∷ []) taken
        × (stream (3 ∷ 4 ∷ 5 ∷ []) new_parser ≡ (err (stream_exists taken), new_parser)))
stream_several_example =
    stream_several new_parser 3 4 (5 ∷ []) IsLinked-new_parser
      ((omega arith, (omega arith, tt)), ((omega arith, tt), (tt, tt)))

stream_twice_example :
    (a b : ℕ) × (p1 : Parser) × (stream (3 ∷ 3 ∷ []) new_parser ≡ (ok (multi (a ∷ b ∷ [])), p1))
    × ((rx : Receivers) (signals : List ParserSignal)
        → FinMap.get (run_with rx signals p1).1.store a ≡ some (new_stream 3))
    × ((rx : Receivers) (ms : List FromReader) (rest : List ParserSignal)
        → All (IsTaken rx) ms
        → (run_with rx (map from_reader ms ++ Parser.closing true ∷ rest) p1).0
          ≡ Receivers.returned)
unfolding new_parser FinMap.get
stream_twice_example = stream_twice 3 new_parser tt refl

-- The parser has got an error, and reads its closer when the reader is at its `select`.
abbrev closing_after : Goroutines
closing_after = record handed { parser_at = closing }
