-- ===== src/Chunk/Goroutines/Completion.antt =====
-- What a `Close` of the parser of chunk/parser.go that finds the reader at its `select` leaves.
use rtmp.Base.{ℕ, ◌≡◌, List, ◌++◌, true, some, map}
use rtmp.Base.FinMap
use rtmp.Chunk.Reader
use rtmp.Chunk.Reader.{Event}
use rtmp.Chunk.Parser
use rtmp.Chunk.Parser.{Parser}
use rtmp.Chunk.Parser.Links.{queue}
use rtmp.Chunk.Parser.Routing.{of_stream, failures}
use rtmp.Chunk.Parser.Closing.{IsClosedAt}
use rtmp.Chunk.Goroutines.{Goroutines, from_event}

-- What the parser leaves, having returned, of one that has got `es` before it read the closer.
pub record IsClosedAfter (es : List Event) (p p' : Parser) : Type 0 where
  pub closed : p'.closed ≡ true
  pub all_closed : (id a : ℕ) → FinMap.get p'.streams id ≡ some a → IsClosedAt p'.store a
  pub queues : (id : ℕ) → queue p' id ≡ queue p id ++ of_stream id (map from_event es)
  pub errors : p'.errs ≡ p.errs ++ failures (map from_event es)
