-- ===== src/Control/RoundTrip.antt =====
-- The control messages of control/ through their chunks, and the loop of control.Stream.
use rtmp.Base.{
  ℕ, ◌^◌, ◌<◌, ◌≡◌, refl, ap, ◌⊎◌, inl, inr, some, List, [], ◌∷◌, ◌++◌, arith, unknown_control_type,
  ok, err, proceed,
}
use rtmp.Base.FinMap
use rtmp.Base.FinMap.{FinMap, map_laws, get-put, get-remove}
use rtmp.Io
use rtmp.Io.{Input, Output, Sink, buffer, read_full, read_one, read_all, split, filled}
use rtmp.Spec.{bytes16, bytes32, put_uint32, read_bytes}
use rtmp.Chunk.Chunk
use rtmp.Chunk.Chunk.{Chunk}
use rtmp.Spec.RoundTrip.{uint32-bytes32}
use rtmp.Control
use rtmp.Control.{
  Control, set_chunk_size, abort_message, acknowledgement, event, window_ack_size,
  set_peer_bandwidth, chunk_size, parse, new_parser, DefaultParser, recv, kind,
}

-- What the fields of the structs hold: 32-bit numbers, an event type of 16 bits, and a limit type of
-- a byte.
unfoldable pub IsControl : Control → Type 0
IsControl (set_chunk_size n) = n < 2 ^ 32
IsControl (abort_message id) = id < 2 ^ 32
IsControl (acknowledgement n) = n < 2 ^ 32
IsControl (event t b) = t < 2 ^ 16
IsControl (window_ack_size n) = n < 2 ^ 32
IsControl (set_peer_bandwidth size limit) = (size < 2 ^ 32) × (limit < 2 ^ 8)

-- The message as it is sent: a chunk size is at most 0xffffff.
unfoldable pub limited : Control → Control
limited (set_chunk_size n) = set_chunk_size (chunk_size n)
limited (abort_message id) = abort_message id
limited (acknowledgement n) = acknowledgement n
limited (event t b) = event t b
limited (window_ack_size n) = window_ack_size n
limited (set_peer_bandwidth size limit) = set_peer_bandwidth size limit

-- The body of a message.
unfoldable pub body : Control → List ℕ
body (set_chunk_size n) = bytes32 (chunk_size n)
body (abort_message id) = bytes32 id
body (acknowledgement n) = bytes32 n
body (event t b) = bytes16 t ++ b
body (window_ack_size n) = bytes32 n
body (set_peer_bandwidth size limit) = bytes32 size ++ limit ∷ []

write-body : (c : Control) → Control.write c (buffer []) ≡ (ok tt, buffer (body c))
unfolding Control.write body Control.write_set_chunk_size Control.write_event
    Control.write_set_peer_bandwidth put_uint32 Io.write
write-body (set_chunk_size n) = refl
write-body (abort_message id) = refl
write-body (acknowledgement n) = refl
write-body (event t b) = refl
write-body (window_ack_size n) = refl
write-body (set_peer_bandwidth size limit) = refl

pub chunk-body : (c : Control) → Control.chunk c ≡ ok (Control.control_chunk c (body c))
unfolding Control.chunk
chunk-body c = ap (Control.written_chunk c) (write-body c)

pub chunk_size_le : (n : ℕ) → chunk_size n < 2 ^ 24
unfolding chunk_size
chunk_size_le n = ground arith

read_number-bytes32 :
    (n : ℕ) (make : ℕ → Control)
    → n < 2 ^ 32
    → (Control.read_number make (bytes32 n)).0 ≡ ok (make n)
unfolding read_bytes read_full split
read_number-bytes32 n make h = rw (uint32-bytes32 n h)

read_set_peer_bandwidth-bytes :
    (size limit : ℕ)
    → size < 2 ^ 32
    → (Control.read_set_peer_bandwidth (bytes32 size ++ limit ∷ [])).0
      ≡ ok (set_peer_bandwidth size limit)
unfolding Control.read_set_peer_bandwidth read_bytes read_full split
read_set_peer_bandwidth-bytes size limit h =
    ap (λ r. (proceed {S = List ℕ} (r, []) (λ n s. (ok (set_peer_bandwidth n limit), s))).0)
      (uint32-bytes32 size h)

read-body : (c : Control) → IsControl c → (Control.read (kind c) (body c)).0 ≡ ok (limited c)
unfolding Control.read body limited Control.read_set_chunk_size Control.read_abort_message
    Control.read_acknowledgement Control.read_event Control.read_window_ack_size
    Control.read_set_peer_bandwidth IsControl read_bytes read_full split
read-body (set_chunk_size n) h =
    read_number-bytes32 (chunk_size n) set_chunk_size (omega (arith, chunk_size_le n))
read-body (abort_message id) h = read_number-bytes32 id abort_message h
read-body (acknowledgement n) h = read_number-bytes32 n acknowledgement h
read-body (event t b) h = ap (λ m. ok (event m b)) (omega arith)
read-body (window_ack_size n) h = read_number-bytes32 n window_ack_size h
read-body (set_peer_bandwidth size limit) (h, k) = read_set_peer_bandwidth-bytes size limit h

type_for-kind :
    (c : Control) → Control.type_for new_parser (Control.type_id (kind c)) ≡ some (kind c)
unfolding Control.type_for new_parser Control.type_id FinMap.get FinMap.put FinMap.remove
    Control.register
type_for-kind (set_chunk_size n) = refl
type_for-kind (abort_message id) = refl
type_for-kind (acknowledgement n) = refl
type_for-kind (event t b) = refl
type_for-kind (window_ack_size n) = refl
type_for-kind (set_peer_bandwidth size limit) = refl

pub parse-control_chunk :
    (c : Control)
    → IsControl c
    → parse new_parser (Control.control_chunk c (body c)) ≡ ok (limited c)
unfolding parse Control.control_chunk Chunk.type_id
parse-control_chunk c h = rw (type_for-kind c) (read-body c h)

-- A control message with fields in range is chunked, on chunk stream 2 and message stream 0, and the
-- parser makes the same message of the chunk; only a chunk size above 0xffffff is 0xffffff then.
pub parse-chunk :
    (c : Control)
    → IsControl c
    → (k : Chunk) × (Control.chunk c ≡ ok k)
      × (parse new_parser k ≡ ok (limited c))
      × (Chunk.stream_id k ≡ 2)
      × (k.header.message_header.stream_id ≡ 0)
unfolding Control.control_chunk Chunk.stream_id
parse-chunk c h =
    (Control.control_chunk c (body c), chunk-body c, parse-control_chunk c h, refl, refl)

-- A parser knows no type but 1 to 6: for any other it is an error, whatever the chunk holds.
pub parse_unknown :
    (k : Chunk)
    → (Chunk.type_id k ≡ 0) ⊎ (6 < Chunk.type_id k)
    → parse new_parser k ≡ err (unknown_control_type (Chunk.type_id k))
unfolding parse Control.type_for new_parser Control.register Control.type_id FinMap.get FinMap.put
    FinMap.remove
parse_unknown k (inl h) = ground arith
parse_unknown k (inr h) = ground arith
