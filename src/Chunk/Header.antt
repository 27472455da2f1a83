-- ===== src/Chunk/Header.antt =====
-- chunk/header.go
pub mod RoundTrip
pub mod Bounds
use rtmp.Base.{◌==◌, if◌then◌else◌, pure, ◌>>=◌, ◌>>◌}
use rtmp.Io.{Input, Output}
use rtmp.Chunk.BasicHeader
use rtmp.Chunk.BasicHeader.{BasicHeader}
use rtmp.Chunk.MessageHeader
use rtmp.Chunk.MessageHeader.{MessageHeader, has_extended_timestamp}
use rtmp.Chunk.ExtendedTimestamp
use rtmp.Chunk.ExtendedTimestamp.{ExtendedTimestamp}

pub record Header : Type 0 where
  pub basic_header : BasicHeader
  pub message_header : MessageHeader
  pub extended_timestamp : ExtendedTimestamp

-- `new(Header)`
abbrev pub empty : Header
empty = record {
  basic_header = record { format_id = 0; stream_id = 0 };
  message_header = MessageHeader.empty;
  extended_timestamp = record { delta = 0 };
}

unfoldable pub read : Header → Input Header
read h = do
  basic ← BasicHeader.read h.basic_header
  message ← MessageHeader.read (record h.message_header { format_id = basic.format_id })
  let h' = record h { basic_header = basic; message_header = message }
  if has_extended_timestamp message
      then (do
        extended ← ExtendedTimestamp.read h.extended_timestamp
        pure (record h' { extended_timestamp = extended }))
      else pure h'

unfoldable pub write : Header → Output
write h = do
  BasicHeader.write h.basic_header
  MessageHeader.write h.message_header
  if h.message_header.timestamp == 0xffffff
      then ExtendedTimestamp.write h.extended_timestamp
      else pure tt
