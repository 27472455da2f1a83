-- ===== src/Cmd/Conn/Exchange.antt =====
-- A response of cmd/conn/ that is sent through the chunk writer, and where the manager of cmd/ puts
-- its chunk on the other side.
use rtmp.Base.{
  ℕ, ◌^◌, ◌<◌, ◌≡◌, refl, ap, ◌∙◌, some, List, [], ◌∷◌, ◌++◌, arith, length, Result, ok,
}
use rtmp.Base.Int.{pos}
use rtmp.Io.{buffer}
use rtmp.Chunk.Chunk.{Chunk}
use rtmp.Chunk.Writer
use rtmp.Chunk.Writer.{DefaultWriter}
use rtmp.Chunk.Reader
use rtmp.Chunk.Reader.{DefaultReader, new_reader}
use rtmp.Chunk.Normalizer.{Normalizer}
use rtmp.Chunk.RoundTrip.Single.{IsSendable, rounds, recv-wire}
use rtmp.Chunk.RoundTrip.Sequence.{write-wire-buffer, IsIdle, IsIdle-new_reader}
use rtmp.Chunk.Writer.Pieces.{wire}
use rtmp.Cmd.Conn
use rtmp.Cmd.Conn.{Response, DefaultChunker, as_result, response_chunk, send}
use rtmp.Cmd.Manager.{to_net_conn, channels, deliveries}
use rtmp.Cmd.Manager.Routing.{route, deliveries-route}

IsSendable-response_chunk :
    (size : ℕ) (bytes : List ℕ) → length bytes < 2 ^ 24 → IsSendable size (response_chunk bytes)
unfolding response_chunk
IsSendable-response_chunk size bytes short = record {
  whole = record {
    encodable = omega arith;
    full = refl;
    absolute = refl;
    extended = λ _. refl;
    length_is = omega arith;
  };
  not_chunk_size = omega arith;
  one_byte_id = λ _. omega arith;
}

deliveries-response_chunk :
    (bytes : List ℕ)
    → deliveries channels (response_chunk bytes) ≡ (to_net_conn, response_chunk bytes) ∷ []
unfolding route response_chunk
deliveries-response_chunk bytes = deliveries-route (response_chunk bytes)

module _ {F : Type 0} (amf_marshal : Response F → Result (List ℕ)) where
  chunk-response_chunk :
      (chunker : DefaultChunker) (r : Response F) (bytes : List ℕ)
      → amf_marshal (as_result r) ≡ ok bytes
      → Conn.chunk amf_marshal chunker r ≡ ok (response_chunk bytes)
  unfolding Conn.chunk Conn.marshal
  chunk-response_chunk chunker r bytes e = ap Conn.response_result e

  -- A response that is marshalled, as a result, to fewer than 2^24 bytes, and is sent to a buffer with
  -- a positive write size by any chunker, reaches the other side: Send returns no error, a new reader
  -- of that size sends one chunk with those bytes from the buffer, and the manager puts it on the
  -- channel of the net connection and no other.
  pub deliveries-send :
      (size : ℕ) (chunker : DefaultChunker) (r : Response F) (bytes : List ℕ) (norm : Normalizer)
      → 0 < size
      → amf_marshal (as_result r) ≡ ok bytes
      → length bytes < 2 ^ 24
      → (w : DefaultWriter) × (k : Chunk) × (r' : DefaultReader) × (send amf_marshal chunker r
            (Writer.new_writer (buffer []) (pos size))
          ≡ some (ok tt, w))
        × (Reader.recv (rounds size bytes) (new_reader w.dest.written (pos size) norm)
            ≡ (ok (Reader.chunk k ∷ []), r'))
        × (k.contents ≡ bytes)
        × (deliveries channels k ≡ (to_net_conn, k) ∷ [])
  unfolding send Writer.new_writer response_chunk
  deliveries-send size chunker r bytes norm h0 e short =
      let k = response_chunk bytes in
      let start = new_reader (wire size k) (pos size) norm in
      let idle : IsIdle size start (wire size k ++ []) =
        IsIdle-new_reader size (wire size k) norm in
      let (r', sent, after) =
        recv-wire size k [] start (IsSendable-response_chunk size bytes short) h0 idle.size_is
          (idle.no_builder 3) idle.source_is in
      (
        Writer.new_writer (buffer (wire size k)) (pos size),
        k,
        r',
        ap (λ m. Conn.send_chunk m (Writer.new_writer (buffer []) (pos size)))
              (chunk-response_chunk chunker r bytes e)
            ∙ write-wire-buffer size k [] h0,
        sent,
        refl,
        deliveries-response_chunk bytes,
      )
