-- ===== src/Chunk/Goroutines.antt =====
-- The goroutines of `Recv` of chunk/parser.go and chunk/default_reader.go, with the unbuffered channels
-- between them: a step relation, for every order in which the two may run. The receivers of what the
-- parser sends are taken to be ready. A round of the reader between the parser's receipt of its closer and
-- its send to the reader has no step of its own: it is the same as one before that receipt.
pub mod Refinement
pub mod Closing
pub mod Completion
pub mod Rounds
pub mod Blocking
use rtmp.Base.{ℕ, ◌≡◌, ◌≢◌, List, [], ◌∷◌, ok}
use rtmp.Chunk.Reader
use rtmp.Chunk.Reader.{DefaultReader, Event, iterate}
use rtmp.Chunk.Parser
use rtmp.Chunk.Parser.{Parser, FromReader, receive, close_all}

-- Where the loop of the reader is: at its `select`, in a send of what a round has made, or returned.
pub data ReaderPhase : Type 0 where
  polling : ReaderPhase
  sending : Event → ReaderPhase
  stopped : ReaderPhase

-- Where that of the parser is: at its `select`, in the `Close` of the reader, or returned.
pub data ParserPhase : Type 0 where
  selecting closing returned : ParserPhase

pub record Goroutines : Type 0 where
  pub reader : DefaultReader
  pub reader_at : ReaderPhase
  pub parser : Parser
  pub parser_at : ParserPhase

-- `go p.reader.Recv()`, and the loop of the parser entered.
abbrev pub start : DefaultReader → Parser → Goroutines
start r p = record { reader = r; reader_at = polling; parser = p; parser_at = selecting }

-- What the reader gives to the parser.
abbrev pub from_event : Event → FromReader
from_event (Reader.chunk c) = Parser.chunk c
from_event (Reader.error e) = Parser.failure e

-- A round sends one event at most.
abbrev pub after_round : List Event → ReaderPhase
after_round [] = polling
after_round (e ∷ es) = sending e

-- `round`: the `select` of the reader finds no closer, and a round is made. `hand_over`: the reader's
-- send and the parser's receipt are one step. `read_closer`: the parser gets what its own `Close` sends,
-- and goes on to close the reader. `finish`: the `select` of the reader finds the closer, both return.
pub data Step : Goroutines → Goroutines → Type 0 where
  round :
      (g : Goroutines) (es : List Event) (r : DefaultReader)
      → g.reader_at ≡ polling
      → g.parser_at ≢ closing
      → iterate g.reader ≡ (ok es, r)
      → Step g (record g { reader = r; reader_at = after_round es })
  hand_over :
      (g : Goroutines) (e : Event)
      → g.reader_at ≡ sending e
      → g.parser_at ≡ selecting
      → Step g (record g { reader_at = polling; parser = (receive (from_event e) g.parser).1 })
  read_closer :
      (g : Goroutines) → g.parser_at ≡ selecting → Step g (record g { parser_at = closing })
  finish :
      (g : Goroutines)
      → g.reader_at ≡ polling
      → g.parser_at ≡ closing
      → Step g (record g { reader_at = stopped; parser = close_all g.parser; parser_at = returned })

pub data Reach (g : Goroutines) : Goroutines → Type 0 where
  initially : Reach g g
  and_then : {h k : Goroutines} → Reach g h → Step h k → Reach g k
