-- ===== src/Control/Exchange.antt =====
-- A control message of control/ that is sent through the chunk writer to a reader of the other side.
use rtmp.Base.{ℕ, ◌^◌, ◌≤◌, ◌<◌, ◌≡◌, ◌≢◌, refl, ap, ◌∙◌, some, [], ◌∷◌, ◌++◌, arith, length, ok}
use rtmp.Base.Int.{pos}
use rtmp.Io.{buffer}
use rtmp.Chunk.Chunk.{Chunk}
use rtmp.Chunk.Writer
use rtmp.Chunk.Writer.{DefaultWriter}
use rtmp.Chunk.Reader
use rtmp.Chunk.Reader.{DefaultReader, new_reader}
use rtmp.Chunk.Normalizer.{Normalizer}
use rtmp.Chunk.RoundTrip.Single.{IsSendable, IsWhole, rounds, recv-wire}
use rtmp.Chunk.RoundTrip.Sequence.{write-wire-buffer, IsIdle, IsIdle-new_reader}
use rtmp.Chunk.Writer.Pieces.{wire}
use rtmp.Chunk.RoundTrip.ChunkSize.{iterate-set_chunk_size}
use rtmp.Control
use rtmp.Control.{
  Control, chunk_size, set_chunk_size, abort_message, acknowledgement, event, window_ack_size,
  set_peer_bandwidth, kind, parse, new_parser, control_chunk, send,
}
use rtmp.Control.RoundTrip.{
  IsControl, limited, body, chunk-body, chunk_size_le, parse-control_chunk,
}

-- Every message but Set Chunk Size, which the reader of chunks keeps to itself.
unfoldable pub IsPassedOn : Control → Type 0
IsPassedOn c = Control.type_id (kind c) ≢ 1

type_id_bounded : (c : Control) → Control.type_id (kind c) < 256
unfolding Control.type_id
type_id_bounded (set_chunk_size n) = omega arith
type_id_bounded (abort_message id) = omega arith
type_id_bounded (acknowledgement n) = omega arith
type_id_bounded (event t b) = omega arith
type_id_bounded (window_ack_size n) = omega arith
type_id_bounded (set_peer_bandwidth size limit) = omega arith

IsWhole-control_chunk :
    (c : Control) → length (body c) < 2 ^ 24 → IsWhole (control_chunk c (body c))
unfolding control_chunk
IsWhole-control_chunk c short = record {
  encodable = omega (arith, type_id_bounded c);
  full = refl;
  absolute = refl;
  extended = λ _. refl;
  length_is = omega arith;
}

pub IsSendable-control_chunk :
    (size : ℕ) (c : Control)
    → length (body c) < 2 ^ 24
    → IsPassedOn c
    → IsSendable size (control_chunk c (body c))
unfolding IsPassedOn control_chunk
IsSendable-control_chunk size c short other = record {
  whole = IsWhole-control_chunk c short;
  not_chunk_size = other;
  one_byte_id = λ _. omega arith;
}

-- A control message with fields in range, a body below 2^24 bytes, and not a Set Chunk Size, that is
-- sent to a buffer with a positive write size, reaches the other side: Send returns no error, a new
-- reader of that size sends one chunk from the buffer, and the control parser makes the same message
-- of it.
pub recv-send :
    (size : ℕ) (c : Control) (n : Normalizer)
    → 0 < size
    → IsControl c
    → length (body c) < 2 ^ 24
    → IsPassedOn c
    → (w : DefaultWriter) × (k : Chunk) × (r : DefaultReader) × (send c
          (Writer.new_writer (buffer []) (pos size))
        ≡ some (ok tt, w))
      × (Reader.recv (rounds size (body c)) (new_reader w.dest.written (pos size) n)
          ≡ (ok (Reader.chunk k ∷ []), r))
      × (parse new_parser k ≡ ok (limited c))
unfolding send Writer.new_writer control_chunk
recv-send size c n h0 valid short other =
    let k = control_chunk c (body c) in
    let start = new_reader (wire size k) (pos size) n in
    let idle : IsIdle size start (wire size k ++ []) = IsIdle-new_reader size (wire size k) n in
    let (r, sent, after) =
      recv-wire size k [] start (IsSendable-control_chunk size c short other) h0 idle.size_is
        (idle.no_builder 2) idle.source_is in
    (
      Writer.new_writer (buffer (wire size k)) (pos size),
      k,
      r,
      ap (λ m. Control.send_chunk m (Writer.new_writer (buffer []) (pos size))) (chunk-body c)
          ∙ write-wire-buffer size k [] h0,
      sent,
      parse-control_chunk c valid,
    )

-- A Set Chunk Size message that is sent to a buffer, with a write size of 4 at least, sets the read
-- size of a new reader of that size in one round, to 0xffffff if it is above that, and is not sent
-- by the reader; the whole buffer is read.
pub iterate-send :
    (size n : ℕ) (norm : Normalizer)
    → 4 ≤ size
    → n < 2 ^ 32
    → (w : DefaultWriter) × (r : DefaultReader) × (send
          (set_chunk_size n)
          (Writer.new_writer (buffer []) (pos size))
        ≡ some (ok tt, w))
      × (Reader.iterate (new_reader w.dest.written (pos size) norm) ≡ (ok [], r))
      × (r.read_size ≡ pos (chunk_size n))
      × (r.source ≡ [])
unfolding send Writer.new_writer control_chunk body Control.type_id
iterate-send size n norm h4 valid =
    let c = set_chunk_size n in
    let k = control_chunk c (body c) in
    let start = new_reader (wire size k) (pos size) norm in
    let idle : IsIdle size start (wire size k ++ []) = IsIdle-new_reader size (wire size k) norm in
    let (r, read, source_is, size_is, builders_are) =
      iterate-set_chunk_size size (chunk_size n) k.header [] start
        (IsWhole-control_chunk c (omega arith)) refl h4 (omega (arith, chunk_size_le n))
        idle.size_is (idle.no_builder 2) idle.source_is in
    (
      Writer.new_writer (buffer (wire size k)) (pos size),
      r,
      ap (λ m. Control.send_chunk m (Writer.new_writer (buffer []) (pos size))) (chunk-body c)
          ∙ write-wire-buffer size k [] (omega arith),
      read,
      size_is,
      source_is,
    )
