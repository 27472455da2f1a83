-- ===== src/Tests/Chunks.antt =====
-- The package `chunk` at concrete chunks.
use rtmp.Base.{ℕ, ◌≡◌, ◌≢◌, refl, true, false, none, some, [], ◌∷◌, ◌++◌, arith, ok, panicked}
use rtmp.Base.Int.{pos}
use rtmp.Base.FinMap
use rtmp.Base.FinMap.{FinMap, map_laws, get-put, get-remove}
use rtmp.Io
use rtmp.Io.{Input, Output, Sink, buffer, read_full, read_one, read_all, split, filled}
use rtmp.Spec.{bytes32}
use rtmp.Chunk.BasicHeader
use rtmp.Chunk.BasicHeader.{BasicHeader}
use rtmp.Chunk.MessageHeader
use rtmp.Chunk.MessageHeader.{MessageHeader, has_extended_timestamp}
use rtmp.Chunk.Header
use rtmp.Chunk.Header.{Header}
use rtmp.Chunk.Chunk.{Chunk}
use rtmp.Chunk.Normalizer
use rtmp.Chunk.Normalizer.{Normalizer, normalize, normalize_default, default, noop}
use rtmp.Chunk.Reader.{DefaultReader, chunk, new_reader, iterate, recv, default_read_size}
use rtmp.Chunk.BasicHeader.RoundTrip as BasicLaws
use rtmp.Chunk.Header.RoundTrip.{
  encoding, write-encoding, received, read-encoding, read_continuation,
}
use rtmp.Chunk.Header.RoundTrip as HeaderLaws
use rtmp.Chunk.Writer.{DefaultWriter, continuation}
use rtmp.Chunk.Writer
use rtmp.Chunk.Writer.Pieces.{pieces, joined, wire, write-wire}
use rtmp.Chunk.Normalizer.{new_normalizer}
use mathlib.Core.Logic.{◌↔◌}
use rtmp.Chunk.Normalizer.History.{Remembers, completed, normalize-completed}
use rtmp.Chunk.Reader.Invariant.{IsSound, IsConsistent-new_reader, recv-IsSound}
use rtmp.Chunk.Reader.Bounds.{HoldsLittle, IsBounded-new_reader, recv-HoldsLittle}
use rtmp.Chunk.Reader.Continuation.{continuation_header}
use rtmp.Chunk.RoundTrip.Single.{IsWhole, IsSendable}
use rtmp.Chunk.RoundTrip.Sequence.{total_rounds, IsIdle, write_all, recv-write_all}
use rtmp.Chunk.RoundTrip.ChunkSize.{iterate_short_chunk_size}
use rtmp.Chunk.RoundTrip.Limits.{read-continuation_other, type_id-format_two}
use rtmp.Chunk.Writer.Pieces.{write_parts_stuck}
use rtmp.Chunk.Header.RoundTrip.{read_continuation}

abbrev audio_header : Header
audio_header = record {
  basic_header = record { format_id = 0; stream_id = 4 };
  message_header = record {
    format_id = 0;
    timestamp = 1234;
    timestamp_delta = false;
    length = 5;
    type_id = 8;
    stream_id = 1;
  };
  extended_timestamp = record { delta = 0 };
}

abbrev audio : Chunk
audio = record { header = audio_header; contents = 0xaf ∷ 1 ∷ 2 ∷ 3 ∷ 4 ∷ [] }

-- A timestamp of 2^24 - 1 is followed by the extended one.
abbrev late : Chunk
late = record {
  header = record audio_header {
    message_header = record audio_header.message_header { timestamp = 0xffffff; length = 0 };
    extended_timestamp = record { delta = 0x1000001 };
  };
  contents = [];
}

audio-IsSendable : IsSendable 2 audio
audio-IsSendable = record {
  whole = record {
    encodable = omega arith;
    full = refl;
    absolute = refl;
    extended = λ _. refl;
    length_is = refl;
  };
  not_chunk_size = omega arith;
  one_byte_id = λ _. omega arith;
}

late-IsSendable : IsSendable 2 late
late-IsSendable = record {
  whole = record {
    encodable = omega arith;
    full = refl;
    absolute = refl;
    extended = λ h. absurd (h refl);
    length_is = refl;
  };
  not_chunk_size = omega arith;
  one_byte_id = λ _. omega arith;
}

recv-write_all_example :
    (w : DefaultWriter) × (r : DefaultReader) × (write_all
        (audio ∷ late ∷ [])
        (Writer.new_writer (buffer []) (pos 2))
      ≡ some w)
    × (recv (total_rounds 2 (audio ∷ late ∷ [])) (new_reader w.dest.written (pos 2) new_normalizer)
        ≡ (ok (chunk audio ∷ chunk late ∷ []), r))
    × IsIdle 2 r []
recv-write_all_example =
    recv-write_all 2 (audio ∷ late ∷ []) new_normalizer (omega arith)
      (audio-IsSendable, (late-IsSendable, tt))

-- Bytes that stop within a chunk.
recv-IsSound_example :
    IsSound (recv 3 (new_reader (4 ∷ 0 ∷ 0 ∷ []) default_read_size new_normalizer))
recv-IsSound_example =
    recv-IsSound 3 (new_reader (4 ∷ 0 ∷ 0 ∷ []) default_read_size new_normalizer)
      (IsConsistent-new_reader (4 ∷ 0 ∷ 0 ∷ []) 128 new_normalizer)

recv-HoldsLittle_example :
    HoldsLittle (recv 3 (new_reader (4 ∷ 0 ∷ 0 ∷ []) default_read_size new_normalizer))
recv-HoldsLittle_example =
    recv-HoldsLittle 3 (new_reader (4 ∷ 0 ∷ 0 ∷ []) default_read_size new_normalizer)
      (IsConsistent-new_reader (4 ∷ 0 ∷ 0 ∷ []) 128 new_normalizer)
      (IsBounded-new_reader (4 ∷ 0 ∷ 0 ∷ []) default_read_size
        (omega arith, (omega arith, (omega arith, tt))))

abbrev seen_audio : Normalizer.DefaultNormalizer
seen_audio = record { last = some audio_header; headers = (4, audio_header) ∷ [] }

abbrev partial_header : Header
partial_header = record Header.empty {
  basic_header = record { format_id = 2; stream_id = 4 };
  message_header = record MessageHeader.empty {
    format_id = 2;
    timestamp = 20;
    timestamp_delta = true;
  };
}

seen_audio-Remembers : Remembers seen_audio (audio_header ∷ [])
unfolding FinMap.get
seen_audio-Remembers = record { last_is = refl; headers_are = λ id. refl }

normalize-completed_example :
    ((normalize_default partial_header seen_audio).0 ≡ completed (audio_header ∷ []) partial_header)
    × Remembers
        (normalize_default partial_header seen_audio).1
        (completed (audio_header ∷ []) partial_header ∷ audio_header ∷ [])
normalize-completed_example =
    normalize-completed seen_audio (audio_header ∷ []) partial_header seen_audio-Remembers

-- What the history makes of the partial header.
completed_test : (completed (audio_header ∷ []) partial_header).message_header ≡ record {
  format_id = 2;
  timestamp = 20;
  timestamp_delta = true;
  length = 5;
  type_id = 0;
  stream_id = 1;
}
unfolding completed
completed_test = refl

write-wire_example :
    Writer.write audio (Writer.new_writer (buffer []) (pos 2))
    ≡ some (
      (Io.write (wire 2 audio) (buffer [])).0,
      record { dest = (Io.write (wire 2 audio) (buffer [])).1; write_size = pos 2 },
    )
unfolding Writer.new_writer
write-wire_example = write-wire audio (Writer.new_writer (buffer []) (pos 2)) 2 refl (omega arith)

write_parts_stuck_example : Writer.write_parts 100 (pos 0) 4 (1 ∷ 2 ∷ []) [] ≡ none
write_parts_stuck_example = write_parts_stuck 100 4 1 (2 ∷ []) [] (pos 0) refl

-- The wire form of a chunk in three pieces.
wire_test :
    wire 2 audio
    ≡ 4 ∷ 0 ∷ 4 ∷ 210 ∷ 0 ∷ 0 ∷ 5 ∷ 8 ∷ 1 ∷ 0 ∷ 0 ∷ 0 ∷ 0xaf ∷ 1 ∷ 0xc4 ∷ 2 ∷ 3 ∷ 0xc4 ∷ 4 ∷ []
unfolding wire encoding joined pieces continuation BasicHeader.buf MessageHeader.buf
wire_test = refl

read-encoding_example :
    Header.read Header.empty (encoding audio_header ++ 9 ∷ [])
    ≡ (ok (received audio_header), 9 ∷ [])
read-encoding_example =
    read-encoding audio_header (9 ∷ []) audio-IsSendable.whole.encodable (omega arith)

read_continuation_example :
    Header.read Header.empty (BasicHeader.buf (record { format_id = 3; stream_id = 4 }) ++ 9 ∷ [])
    ≡ (ok (continuation_header 4), 9 ∷ [])
read_continuation_example =
    read_continuation (record { format_id = 3; stream_id = 4 }) (9 ∷ []) (omega arith) refl

abbrev wide : BasicHeader
wide = record { format_id = 2; stream_id = 394 }

read-buf_iff_example :
    ((BasicHeader.read wide (BasicHeader.buf wide)).0 ≡ ok wide) ↔ BasicLaws.IsEncodable wide
read-buf_iff_example = BasicLaws.read-buf_iff wide wide (omega arith)

abbrev chunk_size_header : ℕ → Header
chunk_size_header len = record {
  basic_header = record { format_id = 0; stream_id = 2 };
  message_header = record MessageHeader.empty { length = len; type_id = 1 };
  extended_timestamp = record { delta = 0 };
}

abbrev chunk_size_4096 : Chunk
chunk_size_4096 = record { header = chunk_size_header 4; contents = bytes32 4096 }

abbrev chunk_size_short : Chunk
chunk_size_short = record { header = chunk_size_header 1; contents = 9 ∷ [] }

chunk_size_4096-IsWhole : IsWhole chunk_size_4096
chunk_size_4096-IsWhole = record {
  encodable = omega arith;
  full = refl;
  absolute = refl;
  extended = λ _. refl;
  length_is = refl;
}

chunk_size_short-IsWhole : IsWhole chunk_size_short
chunk_size_short-IsWhole = record {
  encodable = omega arith;
  full = refl;
  absolute = refl;
  extended = λ _. refl;
  length_is = refl;
}

abbrev chunk_size_reader : DefaultReader
chunk_size_reader = record {
  source = wire 128 chunk_size_4096 ++ [];
  builders = [];
  normalizer = new_normalizer;
  read_size = pos 128;
}

abbrev short_reader : DefaultReader
short_reader = record chunk_size_reader { source = wire 128 chunk_size_short ++ [] }

iterate_short_chunk_size_example : (iterate short_reader).0 ≡ panicked
unfolding FinMap.get
iterate_short_chunk_size_example =
    iterate_short_chunk_size 128 chunk_size_short [] short_reader chunk_size_short-IsWhole refl
      (omega arith) (omega arith) refl refl refl

read-continuation_other_example :
    (Header.read Header.empty (continuation 67 ∷ []) ≡ (ok (continuation_header 3), []))
    × (◌≢◌ {A = ℕ} 3 67)
read-continuation_other_example =
    read-continuation_other 67 [] (omega arith) (omega arith) (omega arith)

partial_header-IsEncodable : HeaderLaws.IsEncodable partial_header
partial_header-IsEncodable = omega arith

type_id-format_two_example :
    (h' : Header) × (Header.read Header.empty (encoding partial_header ++ []) ≡ (ok h', []))
    × ((normalize h' (default seen_audio)).0.message_header.type_id ≡ 0)
type_id-format_two_example =
    type_id-format_two partial_header [] (default seen_audio) partial_header-IsEncodable refl
