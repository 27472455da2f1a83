-- ===== src/Lib.antt =====
-- RTMP chunk streams and the messages on them: a model of the Go packages of this repository.
--
-- A server reads RTMP chunks from a connection after a handshake, gathers their parts into whole
-- chunks, sends each to the stream of its ID, and there to the control messages or to one of the
-- parts of cmd/ (the net connection, the net stream and the data stream); what these send back is
-- made a chunk and written in parts.
--
-- Files and the code they model:
--   Base (and Base/...)        names, lists, bit operations, integers, maps, results of Go calls
--   Io                         readers as the bytes they will deliver, writers as sinks; Io/Bytes
--                              has what reads from a source of bytes keep to
--   Spec                       spec/binary.go, spec/bytes.go, spec/math.go: Uint16, PutUint24, ...
--   Chunk/BasicHeader          chunk/basic_header.go: Read is `read`; `buf` is what Write puts out
--   Chunk/MessageHeader        chunk/message_header.go, one function for each case of its switches
--   Chunk/ExtendedTimestamp    chunk/extended_timestamp.go
--   Chunk/Header, Chunk/Chunk  chunk/header.go, chunk/chunk.go
--   Chunk/Normalizer           chunk/normalizer.go, chunk/default_normalizer.go
--   Chunk/Builder              chunk/builder.go: Append, AddLeft, Read, Build
--   Chunk/Writer               chunk/default_writer.go: Write, with its loop `write_parts`
--   Chunk/Reader               chunk/default_reader.go: a round of Recv is `iterate`
--   Chunk/Parser               chunk/parser.go, chunk/stream.go: `stream` is Parser.Stream, and
--                              `closing` what Close sends; Chunk/Parser/Receivers has Recv, which is
--                              `run_with`, with those who receive from it
--   Chunk/MultiStream          chunk/multi_stream.go: a step relation, since the goroutines of Append
--                              and AwaitClose may take their steps in any order
--   Chunk/Goroutines           the loops of chunk/parser.go and chunk/default_reader.go with the channels
--                              between them, a step relation; Chunk/Goroutines/Rounds has them round
--                              by round, with those who receive from the parser
--   Chunk/Flow                 what a peer may put on the wire: an abstract sender that interleaves
--                              chunks; Chunk/RoundTrip/Interleaved holds the reader against it
--   Chunk/RoundTrip            the writer of chunks against their reader
--   Handshake                  handshake/: the sequences, and the loop of Handshaker.Handshake
--   Loop                       the loop that the Recv and Listen methods share, the channels around it
--                              (Listener), and what a call of Close does
--   Control                    control/: Read, Write, DefaultChunker, DefaultParser; Control/Stream has
--                              the struct of control/stream.go
--   Cmd/Gate, Cmd/Manager      cmd/gate.go and cmd/manager.go: `run_dispatch` is Dispatch, `dispatch` its
--                              loop, and `given_to` what a child gets of what the loop sends
--   Cmd/Audio, Cmd/Frame       cmd/data/: control bytes, frames, their parser, the data stream
--   Cmd/Conn                   cmd/conn/: commands, responses, NetConn; Cmd/Conn/Names has the names of
--                              the commands
--   Cmd/NetStream              cmd/stream/: commands, status messages, NetStream
--   Client                     client/client.go: New, Handshake, and the loops that it starts
--   Server                     server/server.go, rtmp.go: New, Close and the rounds of Accept
--   Tests                      the theorems and some runs at concrete inputs
--
-- State and effects. A call that works on a state returns what it comes back with (a value, an error
-- or a panic) beside the state, since a call that fails keeps what it has done (Exec). Bytes and
-- fixed-width integers are natural numbers, with the wrap-around written out where Go has it; the
-- signed sizes of the builder and the writer are integers. What a goroutine sends on its channels is
-- a list, and what its `select` reads is a list of signals, so that any order of them is a list.
--
-- Bounds and fuel. The loop over a payload in `write_parts` is on fuel, as many rounds as the payload
-- has bytes: a round takes a byte at least if the write size is positive. `recv` of the chunk reader
-- makes a given number of rounds, those before its closer is read. The loop of the handshake is on
-- fuel, and 3 rounds are enough for its three sequences. Accept has no
-- end, so `accept` makes a given number of rounds. All other recursion is on the structure.
--
-- How the parts interact. A client has one connection: the handshake reads from its front, the reader
-- of chunks what follows, and the reader's events are the messages of the parser, which waits for
-- ever in the first send that has no receiver (`receive_rounds`);
-- Chunk/Goroutines has the two loops take turns in any order, with the send of one and the receipt of
-- the other as one step. A send on an unbuffered channel waits for a receiver, for ever if there is
-- none: `run_with` has the parser's receivers, and `receivers` in Client those that a client can have.
-- The parser's streams feed the loops of Control and, by way of a MultiStream and the manager, those
-- of Cmd; what these send goes through the writer of chunks.
--
-- Parameters. The AMF library is not part of the repository: what it decodes and marshals is an
-- argument of Cmd/Frame, Cmd/Conn and Cmd/NetStream. The random bytes of S1 are an argument, and so
-- is the package net of Server, with what a closed listener does as a hypothesis (RefusesClosed).
--
-- Not modelled: locks, which guard single fields, and a read of an `io.Reader` that returns no byte
-- and no error.
pub mod Base
pub mod Io
pub mod Spec
pub mod Chunk
pub mod Handshake
pub mod Loop
pub mod Control
pub mod Cmd
pub mod Client
pub mod Server
pub mod Tests
