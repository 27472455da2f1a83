-- ===== src/Chunk/RoundTrip/Limits.antt =====
-- Where the writer, the reader and the normalizer do not agree.
use rtmp.Base.{ℕ, ◌%◌, ◌≤◌, ◌<◌, ◌≡◌, ◌≢◌, refl, ap, ◌∙◌, List, ◌∷◌, ◌++◌, arith, ok}
use rtmp.Chunk.MessageHeader
use rtmp.Chunk.MessageHeader.{MessageHeader, has_extended_timestamp}
use rtmp.Chunk.Header
use rtmp.Chunk.Header.{Header}
use rtmp.Chunk.Normalizer.{
  Normalizer, normalize, fill_partial_header, fill_empty_header, default, noop,
}
use rtmp.Chunk.Reader.Continuation.{continuation_header, read-continuation}
use rtmp.Chunk.MessageHeader.RoundTrip.{carried}
use rtmp.Chunk.Header.RoundTrip.{
  encoding, write-encoding, received, read-encoding, read_continuation,
}
use rtmp.Chunk.Header.RoundTrip as HeaderLaws
use rtmp.Chunk.Writer.{continuation}

-- The continuation byte holds the low six bits of the stream ID alone: that of a stream from 64 on is
-- read as the header of a part of another stream.
pub read-continuation_other :
    (id : ℕ) (s : List ℕ)
    → 64 ≤ id
    → 0 < id % 64
    → id % 64 < 63
    → (Header.read Header.empty (continuation id ∷ s) ≡ (ok (continuation_header (id % 64)), s))
      × (id % 64 ≢ id)
unfolding continuation
read-continuation_other id s big h0 h63 =
    let e : id % 64 % 64 ≡ id % 64 = omega arith in
    let same : continuation id ≡ continuation (id % 64) = rw e in
    (
      ap (λ b. Header.read Header.empty (b ∷ s)) same ∙ read-continuation (id % 64) s h0 h63,
      omega arith,
    )

type_id-carried : (f : ℕ) (m m' : MessageHeader) → f ≡ 2 → (carried f m m').type_id ≡ m'.type_id
unfolding carried
type_id-carried f m m' e = simp e

type_id-normalize :
    (h : Header) (n : Normalizer)
    → h.basic_header.format_id ≡ 2
    → (normalize h n).0.message_header.type_id ≡ h.message_header.type_id
unfolding normalize fill_partial_header fill_empty_header
type_id-normalize h noop f = refl
type_id-normalize h (default n) f = ground arith

-- No normalizer fills in the message type that a header of format 2 leaves out: whatever was read
-- before, the header that is read and normalized has type 0.
pub type_id-format_two :
    (h : Header) (rest : List ℕ) (n : Normalizer)
    → HeaderLaws.IsEncodable h
    → h.basic_header.format_id ≡ 2
    → (h' : Header) × (Header.read Header.empty (encoding h ++ rest) ≡ (ok h', rest))
      × ((normalize h' n).0.message_header.type_id ≡ 0)
type_id-format_two h rest n v f = (received h, read-encoding h rest v (omega (arith, f)), filled n)
  where
    zero_type : (received h).message_header.type_id ≡ 0
    zero_type =
        unfold received in
        type_id-carried h.message_header.format_id h.message_header
          (record MessageHeader.empty { format_id = h.basic_header.format_id }) (v.same_format ∙ f)

    filled : (n : Normalizer) → (normalize (received h) n).0.message_header.type_id ≡ 0
    filled n = type_id-normalize (received h) n (unfold received in omega (arith, f)) ∙ zero_type
