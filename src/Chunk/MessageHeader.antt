-- ===== src/Chunk/MessageHeader.antt =====
-- chunk/message_header.go
pub mod RoundTrip
pub mod Bounds
use rtmp.Base.{
  ℕ, zero, suc, Bool, true, false, List, [], ◌==◌, length, take, drop, unknown_format_id, pure,
  raise, lift, ◌>>=◌, ◌>>◌, index,
}
use rtmp.Io
use rtmp.Io.{Input, Output, buffer}
use rtmp.Spec.{
  uint32, little_endian_uint32, put_uint8, put_uint24, little_endian_put_uint32, read_bytes,
}

pub record MessageHeader : Type 0 where
  pub format_id : ℕ
  pub timestamp : ℕ
  pub timestamp_delta : Bool
  pub length : ℕ
  pub type_id : ℕ
  pub stream_id : ℕ

-- `new(MessageHeader)`
abbrev pub empty : MessageHeader
empty = record {
  format_id = 0;
  timestamp = 0;
  timestamp_delta = false;
  length = 0;
  type_id = 0;
  stream_id = 0;
}

unfoldable pub has_extended_timestamp : MessageHeader → Bool
has_extended_timestamp m = m.timestamp == 0xffffff

-- The three parts of the 11 bytes of format 0, `buf[:3]`, `buf[3:6]` and `buf[7:]`.
read_full_header : MessageHeader → Input MessageHeader
unfolding read_bytes uint32 little_endian_uint32
read_full_header m = do
  buf ← read_bytes 11
  timestamp ← lift (uint32 (take 3 buf))
  len ← lift (uint32 (take 3 (drop 3 buf)))
  type_id ← lift (index buf 6)
  stream_id ← lift (little_endian_uint32 (drop 7 buf))
  pure (record m {
    timestamp = timestamp;
    timestamp_delta = false;
    length = len;
    type_id = type_id;
    stream_id = stream_id;
  })

read_without_stream : MessageHeader → Input MessageHeader
unfolding read_bytes uint32
read_without_stream m = do
  buf ← read_bytes 7
  timestamp ← lift (uint32 (take 3 buf))
  len ← lift (uint32 (take 3 (drop 3 buf)))
  type_id ← lift (index buf 6)
  pure (record m { timestamp = timestamp; timestamp_delta = true; length = len; type_id = type_id })

read_timestamp : MessageHeader → Input MessageHeader
unfolding read_bytes uint32
read_timestamp m = do
  buf ← read_bytes 3
  timestamp ← lift (uint32 buf)
  pure (record m { timestamp = timestamp; timestamp_delta = true })

-- The switch on `m.FormatId`.
read_format : ℕ → MessageHeader → Input MessageHeader
unfolding read_full_header read_without_stream read_timestamp
read_format zero m = read_full_header m
read_format (suc zero) m = read_without_stream m
read_format (suc (suc zero)) m = read_timestamp m
read_format (suc (suc (suc zero))) m = pure m
read_format (suc (suc (suc (suc n)))) m = raise unknown_format_id

unfoldable pub read : MessageHeader → Input MessageHeader
unfolding read_format
read m = read_format m.format_id m

-- The switch of `Write`, which fills a `bytes.Buffer`.
fill : ℕ → MessageHeader → Output
unfolding put_uint24 put_uint8 little_endian_put_uint32
fill zero m = do
  put_uint24 m.timestamp
  put_uint24 m.length
  put_uint8 m.type_id
  little_endian_put_uint32 m.stream_id
fill (suc zero) m = do put_uint24 m.timestamp; put_uint24 m.length; put_uint8 m.type_id
fill (suc (suc zero)) m = put_uint24 m.timestamp
fill (suc (suc (suc n))) m = pure tt

unfoldable pub buf : MessageHeader → List ℕ
unfolding fill
buf m = (fill m.format_id m (buffer [])).1.written

unfoldable pub write : MessageHeader → Output
unfolding buf
write m = Io.write (buf m)
