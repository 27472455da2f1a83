-- ===== src/Chunk/Chunk.antt =====
-- chunk/chunk.go
use rtmp.Base.{ℕ, List}
use rtmp.Chunk.Header.{Header}

pub record Chunk : Type 0 where
  pub header : Header
  pub contents : List ℕ

unfoldable pub stream_id : Chunk → ℕ
stream_id c = c.header.basic_header.stream_id

unfoldable pub type_id : Chunk → ℕ
type_id c = c.header.message_header.type_id
