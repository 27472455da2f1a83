-- ===== src/Chunk/Parser.antt =====
-- chunk/parser.go, chunk/stream.go and what chunk/multi_stream.go has of the parser's streams. A
-- stream is an address in a store, since the parser, its clients and a MultiStream share it.
pub mod Streams
pub mod Links
pub mod Routing
pub mod Closing
pub mod Receivers
pub mod Stalling
pub mod Several
pub mod Orphans
use rtmp.Base.{
  Bool, true, false, ℕ, suc, ◌+◌, Option, none, some, List, [], ◌∷◌, ◌++◌, Error,
  empty_chunk_stream, stream_exists, ok, Exec, pure, raise, proceed, ◌>>=◌, ◌>>◌,
}
use rtmp.Base.FinMap
use rtmp.Base.FinMap.{FinMap}
use rtmp.Chunk.Chunk
use rtmp.Chunk.Chunk.{Chunk}

-- The struct `stream`, its channel being the chunks that were sent on it.
pub record ChunkStream : Type 0 where
  pub id : ℕ
  pub sent : List Chunk
  pub closed : Bool

unfoldable pub new_stream : ℕ → ChunkStream
new_stream id = record { id = id; sent = []; closed = false }

-- `closed` is that of the channels of errors and of the closer.
pub record Parser : Type 0 where
  pub streams : FinMap ℕ
  pub store : FinMap ChunkStream
  pub fresh : ℕ
  pub errs : List Error
  pub closed : Bool

unfoldable pub new_parser : Parser
new_parser = record { streams = []; store = []; fresh = 0; errs = []; closed = false }

-- What `Stream` returns: a stream, or a MultiStream with those appended to it.
pub data Handle : Type 0 where
  single : ℕ → Handle
  multi : List ℕ → Handle

-- `p.streams[id] = NewStream(id)`
unfoldable pub add_stream : ℕ → Exec Parser ℕ
unfolding FinMap.put new_stream
add_stream id p = (
  ok p.fresh,
  record p {
    streams = FinMap.put p.streams id p.fresh;
    store = FinMap.put p.store p.fresh (new_stream id);
    fresh = suc p.fresh;
  },
)

abbrev pub look_up_or_add : ℕ → Option ℕ → Exec Parser ℕ
look_up_or_add id (some a) = pure a
look_up_or_add id none = add_stream id

-- `Stream` on one ID
unfoldable pub one_stream : ℕ → Exec Parser ℕ
unfolding add_stream FinMap.get
one_stream id p = look_up_or_add id (FinMap.get p.streams id) p

abbrev pub next_existing : ℕ → Option ℕ → Option ℕ → Option ℕ
next_existing id none later = later
next_existing id (some a) later = some id

-- The first of the IDs that the parser has a stream for.
unfoldable pub existing : FinMap ℕ → List ℕ → Option ℕ
unfolding FinMap.get
existing m [] = none
existing m (id ∷ ids) = let later = existing m ids in next_existing id (FinMap.get m id) later

unfoldable pub add_streams : List ℕ → Exec Parser (List ℕ)
unfolding add_stream
add_streams [] = pure []
add_streams (id ∷ ids) = do a ← add_stream id; rest ← add_streams ids; pure (a ∷ rest)

abbrev pub many_streams : List ℕ → Option ℕ → Exec Parser Handle
many_streams ids (some id) = raise (stream_exists id)
many_streams ids none = do addresses ← add_streams ids; pure (multi addresses)

-- Parser.Stream; the lock makes it one step.
unfoldable pub stream : List ℕ → Exec Parser Handle
unfolding one_stream existing add_streams
stream [] p = raise empty_chunk_stream p
stream (id ∷ []) p = proceed (one_stream id p) (λ a. pure (single a))
stream (id ∷ id2 ∷ ids) p = many_streams (id ∷ id2 ∷ ids) (existing p.streams (id ∷ id2 ∷ ids)) p

-- What the reader gives to `Recv`.
pub data FromReader : Type 0 where
  chunk : Chunk → FromReader
  failure : Error → FromReader

abbrev pub store_sent : FinMap ChunkStream → ℕ → Chunk → Option ChunkStream → FinMap ChunkStream
store_sent m a c none = m
store_sent m a c (some s) = FinMap.put m a (record s { sent = s.sent ++ c ∷ [] })

-- `s.in <- in`
unfoldable pub send_on : Chunk → ℕ → Exec Parser (Unit {0})
unfolding FinMap.put FinMap.get
send_on c a p = (ok tt, record p { store = store_sent p.store a c (FinMap.get p.store a) })

-- One round of `Recv` before the closer is read.
unfoldable pub receive : FromReader → Exec Parser (Unit {0})
unfolding one_stream send_on
receive (chunk c) = do a ← one_stream (Chunk.stream_id c); send_on c a
receive (failure e) = λ p. (ok tt, record p { errs = p.errs ++ e ∷ [] })

unfoldable pub recv : List FromReader → Exec Parser (Unit {0})
unfolding receive
recv [] = pure tt
recv (m ∷ ms) = do receive m; recv ms

-- `close(stream.in)` for the stream at an address.
abbrev pub close_found : FinMap ChunkStream → ℕ → Option ChunkStream → FinMap ChunkStream
close_found store a none = store
close_found store a (some s) = FinMap.put store a (record s { closed = true })

unfoldable pub close_stream : FinMap ChunkStream → ℕ → FinMap ChunkStream
unfolding FinMap.get FinMap.put
close_stream store a = close_found store a (FinMap.get store a)

-- The loop over `p.streams`. A stream has one ID, so none is closed twice.
unfoldable pub close_streams : FinMap ℕ → FinMap ChunkStream → FinMap ChunkStream
unfolding close_stream
close_streams [] store = store
close_streams ((id, a) ∷ streams) store = close_streams streams (close_stream store a)

-- What `Recv` does for the closer once the reader has received its own.
unfoldable pub close_all : Parser → Parser
unfolding close_streams
close_all p = record p { store = close_streams p.streams p.store; closed = true }

-- What the `select` of `Recv` reads. The loop answers the closer by the `Close` of the reader, a send on
-- a channel that is not buffered: `closing` tells whether the reader, at its `select`, receives it, or
-- waits in a send of its own.
pub data ParserSignal : Type 0 where
  from_reader : FromReader → ParserSignal
  closing : Bool → ParserSignal
