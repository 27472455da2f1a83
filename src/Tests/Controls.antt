-- ===== src/Tests/Controls.antt =====
-- The theorems on control messages at single messages.
use rtmp.Chunk.Writer
use rtmp.Chunk.Writer.{DefaultWriter}
use rtmp.Chunk.Reader
use rtmp.Chunk.Reader.{DefaultReader, new_reader}
use rtmp.Chunk.Normalizer.{new_normalizer}
use rtmp.Chunk.RoundTrip.Single.{rounds}
use rtmp.Control.Exchange.{IsPassedOn, recv-send, iterate-send}
use rtmp.Io.{buffer}
use rtmp.Base.Int.{pos}
use rtmp.Base.{◌^◌, ◌<◌, some, length, ◌≡◌, refl, [], ◌∷◌, arith, ok}
use rtmp.Chunk.MessageHeader
use rtmp.Chunk.MessageHeader.{MessageHeader, has_extended_timestamp}
use rtmp.Chunk.Header
use rtmp.Chunk.Header.{Header}
use rtmp.Chunk.Chunk
use rtmp.Chunk.Chunk.{Chunk}
use rtmp.Control
use rtmp.Control.{
  event, send, Control, set_chunk_size, acknowledgement, parse, new_parser, chunk_size,
}
use rtmp.Control.RoundTrip.{body, IsControl, limited, parse-chunk}

parse-chunk_example :
    (k : Chunk) × (Control.chunk (set_chunk_size 0x1000000) ≡ ok k)
    × (parse new_parser k ≡ ok (limited (set_chunk_size 0x1000000)))
    × (Chunk.stream_id k ≡ 2)
    × (k.header.message_header.stream_id ≡ 0)
unfolding IsControl
parse-chunk_example = parse-chunk (set_chunk_size 0x1000000) (omega arith)

chunk_size_limit : chunk_size 0x1000000 ≡ 0xffffff
unfolding chunk_size
chunk_size_limit = refl

abbrev audio_chunk : Chunk
audio_chunk = record {
  header = record Header.empty { message_header = record MessageHeader.empty { type_id = 8 } };
  contents = 1 ∷ [];
}

abbrev pub stream_begin : Control
stream_begin = event 0 (0 ∷ 0 ∷ 0 ∷ 1 ∷ [])

pub stream_begin-IsControl : IsControl stream_begin
unfolding IsControl
stream_begin-IsControl = omega arith

pub stream_begin-IsPassedOn : IsPassedOn stream_begin
unfolding IsPassedOn Control.type_id
stream_begin-IsPassedOn = omega arith

pub stream_begin_short : length (body stream_begin) < 2 ^ 24
unfolding body
stream_begin_short = omega arith

recv-send_example :
    (w : DefaultWriter) × (k : Chunk) × (r : DefaultReader) × (send stream_begin
        (Writer.new_writer (buffer []) (pos 4))
      ≡ some (ok tt, w))
    × (Reader.recv (rounds 4 (body stream_begin)) (new_reader w.dest.written (pos 4) new_normalizer)
        ≡ (ok (Reader.chunk k ∷ []), r))
    × (parse new_parser k ≡ ok (limited stream_begin))
recv-send_example =
    recv-send 4 stream_begin new_normalizer (omega arith) stream_begin-IsControl stream_begin_short
      stream_begin-IsPassedOn

iterate-send_example :
    (w : DefaultWriter) × (r : DefaultReader) × (send
        (set_chunk_size 0x1000000)
        (Writer.new_writer (buffer []) (pos 128))
      ≡ some (ok tt, w))
    × (Reader.iterate (new_reader w.dest.written (pos 128) new_normalizer) ≡ (ok [], r))
    × (r.read_size ≡ pos (chunk_size 0x1000000))
    × (r.source ≡ [])
iterate-send_example = iterate-send 128 0x1000000 new_normalizer (omega arith) (omega arith)
