-- ===== src/Control.antt =====
-- control/: the control messages, their chunks and the control stream.
pub mod RoundTrip
pub mod Exchange
pub mod Stream
use rtmp.Base.{
  ℕ, ◌%◌, ◌^◌, false, Option, none, some, List, [], ◌∷◌, ltb, if◌then◌else◌, length, take,
  unknown_control_type, Result, ok, err, panicked, pure, lift, ◌>>=◌, ◌>>◌, index,
}
use rtmp.Base.FinMap
use rtmp.Base.FinMap.{FinMap}
use rtmp.Io
use rtmp.Io.{Input, Output, Sink, buffer, read_full, read_all}
use rtmp.Spec
use rtmp.Spec.{uint32, bytes16, put_uint32, read_bytes}
use rtmp.Chunk.Chunk
use rtmp.Chunk.Chunk.{Chunk}
use rtmp.Chunk.Writer
use rtmp.Chunk.Writer.{DefaultWriter}
use rtmp.Loop.{Signal, Sent, Ending, listen}

-- The structs that implement the interface `Control`.
pub data Control : Type 0 where
  set_chunk_size : ℕ → Control
  abort_message : ℕ → Control
  acknowledgement : ℕ → Control
  event : ℕ → List ℕ → Control
  window_ack_size : ℕ → Control
  set_peer_bandwidth : ℕ → ℕ → Control

-- Their types, which the parser keeps as `reflect.Type`s.
pub data Kind : Type 0 where
  kind_set_chunk_size kind_abort_message kind_acknowledgement kind_event : Kind
  kind_window_ack_size kind_set_peer_bandwidth : Kind

abbrev pub kind : Control → Kind
kind (set_chunk_size n) = kind_set_chunk_size
kind (abort_message n) = kind_abort_message
kind (acknowledgement n) = kind_acknowledgement
kind (event t b) = kind_event
kind (window_ack_size n) = kind_window_ack_size
kind (set_peer_bandwidth n l) = kind_set_peer_bandwidth

unfoldable pub type_id : Kind → ℕ
type_id kind_set_chunk_size = 1
type_id kind_abort_message = 2
type_id kind_acknowledgement = 3
type_id kind_event = 4
type_id kind_window_ack_size = 5
type_id kind_set_peer_bandwidth = 6

-- SetChunkSize.ChunkSize
unfoldable pub chunk_size : ℕ → ℕ
chunk_size n = if ltb 0xffffff n then 0xffffff else n

-- One number of four bytes.
abbrev pub read_number : (ℕ → Control) → Input Control
read_number make = do buf ← read_bytes 4; n ← lift (uint32 buf); pure (make n)

unfoldable pub read_set_chunk_size : Input Control
unfolding read_bytes uint32
read_set_chunk_size = read_number set_chunk_size

unfoldable pub read_abort_message : Input Control
unfolding read_bytes uint32
read_abort_message = read_number abort_message

unfoldable pub read_acknowledgement : Input Control
unfolding read_bytes uint32
read_acknowledgement = read_number acknowledgement

unfoldable pub read_event : Input Control
unfolding read_full
read_event = do
  buf ← read_full 2
  tid ← lift (Spec.be_uint16 buf)
  body ← read_all
  pure (event tid body)

unfoldable pub read_window_ack_size : Input Control
unfolding read_bytes uint32
read_window_ack_size = read_number window_ack_size

unfoldable pub read_set_peer_bandwidth : Input Control
unfolding read_bytes uint32
read_set_peer_bandwidth = do
  buf ← read_bytes 5
  size ← lift (uint32 (take 4 buf))
  limit ← lift (index buf 4)
  pure (set_peer_bandwidth size limit)

-- Control.Read on a new struct of the type
unfoldable pub read : Kind → Input Control
unfolding read_set_chunk_size read_abort_message read_acknowledgement read_event
    read_window_ack_size read_set_peer_bandwidth
read kind_set_chunk_size = read_set_chunk_size
read kind_abort_message = read_abort_message
read kind_acknowledgement = read_acknowledgement
read kind_event = read_event
read kind_window_ack_size = read_window_ack_size
read kind_set_peer_bandwidth = read_set_peer_bandwidth

unfoldable pub write_set_chunk_size : ℕ → Output
unfolding put_uint32 chunk_size
write_set_chunk_size n = put_uint32 (chunk_size n)

unfoldable pub write_event : ℕ → List ℕ → Output
unfolding Io.write
write_event t body = do Io.write (bytes16 t); Io.write body

unfoldable pub write_set_peer_bandwidth : ℕ → ℕ → Output
unfolding Io.write put_uint32
write_set_peer_bandwidth size limit = do put_uint32 size; Io.write (limit ∷ [])

unfoldable pub write : Control → Output
unfolding put_uint32 write_set_chunk_size write_event write_set_peer_bandwidth
write (set_chunk_size n) = write_set_chunk_size n
write (abort_message id) = put_uint32 id
write (acknowledgement n) = put_uint32 n
write (event t body) = write_event t body
write (window_ack_size n) = put_uint32 n
write (set_peer_bandwidth size limit) = write_set_peer_bandwidth size limit

abbrev pub control_chunk_stream_id : ℕ
control_chunk_stream_id = 2

abbrev pub control_message_stream_id : ℕ
control_message_stream_id = 0

-- The chunk that `Chunk` makes of the bytes of a message.
unfoldable pub control_chunk : Control → List ℕ → Chunk
unfolding type_id
control_chunk c bytes = record {
  header = record {
    basic_header = record { format_id = 0; stream_id = control_chunk_stream_id };
    message_header = record {
      format_id = 0;
      timestamp = 0;
      timestamp_delta = false;
      length = length bytes % 2 ^ 32;
      type_id = type_id (kind c);
      stream_id = control_message_stream_id;
    };
    extended_timestamp = record { delta = 0 };
  };
  contents = bytes;
}

abbrev pub written_chunk : Control → Result (Unit {0}) × Sink → Result Chunk
written_chunk c (ok u, sink) = ok (control_chunk c sink.written)
written_chunk c (err e, sink) = err e
written_chunk c (panicked, sink) = panicked

-- DefaultChunker.Chunk
unfoldable pub chunk : Control → Result Chunk
unfolding write control_chunk
chunk c = written_chunk c (write c (buffer []))

pub record DefaultParser : Type 0 where
  pub controls : FinMap Kind

-- `Controls`
abbrev pub all_controls : List Kind
all_controls =
    kind_set_chunk_size ∷ kind_abort_message ∷ kind_acknowledgement ∷ kind_event
    ∷ kind_window_ack_size ∷ kind_set_peer_bandwidth ∷ []

register : List Kind → FinMap Kind → FinMap Kind
unfolding FinMap.put type_id
register [] m = m
register (k ∷ ks) m = register ks (FinMap.put m (type_id k) k)

unfoldable pub new_parser : DefaultParser
unfolding register
new_parser = record { controls = register all_controls [] }

unfoldable pub type_for : DefaultParser → ℕ → Option Kind
unfolding FinMap.get
type_for p id = FinMap.get p.controls id

abbrev parse_kind : ℕ → List ℕ → Option Kind → Result Control
parse_kind id bytes none = err (unknown_control_type id)
parse_kind id bytes (some k) = (read k bytes).0

unfoldable pub parse : DefaultParser → Chunk → Result Control
unfolding type_for read
parse p c = parse_kind (Chunk.type_id c) c.contents (type_for p (Chunk.type_id c))

abbrev pub send_chunk : Result Chunk → DefaultWriter → Option (Result (Unit {0}) × DefaultWriter)
send_chunk (ok c) w = Writer.write c w
send_chunk (err e) w = some (err e, w)
send_chunk panicked w = some (panicked, w)

-- Stream.Send with the two defaults
unfoldable pub send : Control → DefaultWriter → Option (Result (Unit {0}) × DefaultWriter)
unfolding chunk Writer.write
send c w = send_chunk (chunk c) w

-- Stream.Recv with the two defaults
unfoldable pub recv : List (Signal Chunk) → List (Sent Control) × Ending
unfolding listen parse new_parser
recv = listen (parse new_parser)
