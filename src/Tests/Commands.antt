-- ===== src/Tests/Commands.antt =====
-- The theorems on the packages under cmd/ at single chunks.
use rtmp.Chunk.Writer
use rtmp.Chunk.Writer.{DefaultWriter}
use rtmp.Chunk.Reader
use rtmp.Chunk.Reader.{DefaultReader, new_reader}
use rtmp.Chunk.Normalizer.{new_normalizer}
use rtmp.Chunk.RoundTrip.Single.{rounds}
use rtmp.Cmd.Conn.{Response, create_stream_response, send}
use rtmp.Cmd.Conn.Exchange.{deliveries-send}
use rtmp.Io.{buffer}
use rtmp.Base.Int.{pos}
use rtmp.Base.{
  ℕ, ◌≡◌, ◌≢◌, refl, ◌⊎◌, inr, some, List, [], ◌∷◌, arith, control_missing, Result, ok, err,
}
use rtmp.Chunk.MessageHeader
use rtmp.Chunk.MessageHeader.{MessageHeader, has_extended_timestamp}
use rtmp.Chunk.Chunk
use rtmp.Chunk.Chunk.{Chunk}
use rtmp.Cmd.Manager.{to_net_conn, channels, deliveries}
use rtmp.Cmd.Manager.Routing.{routed, deliveries-route}
use rtmp.Cmd.Frame.{Frame, parse, marshal}
use rtmp.Cmd.Frame.Stream.{marshal-parse}

abbrev video_chunk : Chunk
video_chunk = record {
  header = record {
    basic_header = record { format_id = 0; stream_id = 4 };
    message_header = record MessageHeader.empty { type_id = 9; length = 2; stream_id = 1 };
    extended_timestamp = record { delta = 0 };
  };
  contents = 0x17 ∷ 1 ∷ [];
}

deliveries-route_example : deliveries channels video_chunk ≡ routed video_chunk
deliveries-route_example = deliveries-route video_chunk

-- A library for data frames that are their bytes.
abbrev pub raw_unmarshal : List ℕ → Result (List ℕ)
raw_unmarshal bs = ok bs

abbrev pub raw_marshal : List ℕ → Result (List ℕ)
raw_marshal bs = ok bs

marshal-parse_example :
    ((video_chunk.contents ≡ []) × (parse raw_unmarshal video_chunk ≡ err control_missing))
    ⊎ ((video_chunk.contents ≢ [])
        × (f : Frame (List ℕ)) × (parse raw_unmarshal video_chunk ≡ ok f)
        × (marshal raw_marshal f ≡ ok video_chunk))
unfolding Chunk.type_id
marshal-parse_example = marshal-parse raw_unmarshal raw_marshal video_chunk (inr refl)

abbrev created : Response ℕ
created = create_stream_response "" 1

-- A library for responses that gives one byte.
abbrev one_byte : Response ℕ → Result (List ℕ)
one_byte r = ok (5 ∷ [])

deliveries-send_example :
    (w : DefaultWriter) × (k : Chunk) × (r : DefaultReader) × (send one_byte
        (record { stream_id = 7 })
        created
        (Writer.new_writer (buffer []) (pos 128))
      ≡ some (ok tt, w))
    × (Reader.recv (rounds 128 (5 ∷ [])) (new_reader w.dest.written (pos 128) new_normalizer)
        ≡ (ok (Reader.chunk k ∷ []), r))
    × (k.contents ≡ 5 ∷ [])
    × (deliveries channels k ≡ (to_net_conn, k) ∷ [])
deliveries-send_example =
    deliveries-send one_byte 128 (record { stream_id = 7 }) created (5 ∷ []) new_normalizer
      (omega arith) refl (omega arith)
