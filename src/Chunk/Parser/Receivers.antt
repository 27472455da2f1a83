-- ===== src/Chunk/Parser/Receivers.antt =====
-- `Recv` of chunk/parser.go with the goroutines at the other ends of its channels. The channels are not
-- buffered, so a send waits for one that receives, for ever if there is none.
use rtmp.Base.{Bool, true, false, ℕ, List, [], ◌∷◌, if◌then◌else◌}
use rtmp.Chunk.Chunk
use rtmp.Chunk.Chunk.{Chunk}
use rtmp.Chunk.Parser.{
  Parser, FromReader, chunk, failure, ParserSignal, from_reader, closing, one_stream, receive,
  close_all,
}

-- Whether a goroutine receives from the channel of errors, and from that of the stream of an ID.
pub record Receivers : Type 0 where
  pub errs : Bool
  pub streams : ℕ → Bool

-- How the loop is left: it waits in its `select`, in a send of what it has got or in the `Close` of the
-- reader, or it has returned.
pub data Progress : Type 0 where
  selecting blocked closing_reader returned : Progress

abbrev pub is_taken : Receivers → FromReader → Bool
is_taken rx (chunk c) = rx.streams (Chunk.stream_id c)
is_taken rx (failure e) = rx.errs

-- Before a chunk is sent its stream is made, if there is none.
abbrev pub offered : FromReader → Parser → Parser
offered (chunk c) p = (one_stream (Chunk.stream_id c) p).1
offered (failure e) p = p

-- The whole of `Recv`, up to a send that nobody receives, that of the closer of the reader included.
unfoldable pub run_with : Receivers → List ParserSignal → Parser → Progress × Parser
unfolding receive one_stream close_all
run_with rx [] p = (selecting, p)
run_with rx (from_reader m ∷ signals) p =
    let rest = run_with rx signals (receive m p).1 in
    if is_taken rx m then rest else (blocked, offered m p)
run_with rx (closing true ∷ signals) p = (returned, close_all p)
run_with rx (closing false ∷ signals) p = (closing_reader, p)
