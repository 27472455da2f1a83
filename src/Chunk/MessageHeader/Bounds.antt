-- ===== src/Chunk/MessageHeader/Bounds.antt =====
-- How long a payload a message header that was read can announce.
use rtmp.Base.{ℕ, zero, suc, ◌^◌, ◌<◌, List, take, drop, All, index}
use rtmp.Io.Bytes.{IsByte, Ensures, after_read_full, after_lift, after_uint32_three}
use rtmp.Spec.{uint32, little_endian_uint32, read_bytes}
use rtmp.Chunk.MessageHeader.{
  MessageHeader, read_format, read_full_header, read_without_stream, read_timestamp, read,
}

abbrev pub IsShort : MessageHeader → Type 0
IsShort m = m.length < 2 ^ 24

module _ (m : MessageHeader) (s : List ℕ) (hs : All IsByte s) where
  full_header : Ensures IsShort (read_full_header m s)
  unfolding read_full_header read_bytes
  full_header = after_read_full IsShort 11 s _ hs (λ buf s1 hb h1.
      after_lift IsShort (uint32 (take 3 buf)) s1 _ h1 (λ t s2 h2.
        after_uint32_three IsShort buf s2 _ hb h2 (λ n s3 hn h3.
          after_lift IsShort (index buf 6) s3 _ h3 (λ i s4 h4.
            after_lift IsShort (little_endian_uint32 (drop 7 buf)) s4 _ h4 (λ k s5 h5. (hn, h5))))))

  without_stream : Ensures IsShort (read_without_stream m s)
  unfolding read_without_stream read_bytes
  without_stream = after_read_full IsShort 7 s _ hs (λ buf s1 hb h1.
      after_lift IsShort (uint32 (take 3 buf)) s1 _ h1 (λ t s2 h2.
        after_uint32_three IsShort buf s2 _ hb h2
          (λ n s3 hn h3. after_lift IsShort (index buf 6) s3 _ h3 (λ i s4 h4. (hn, h4)))))

  timestamp_only : IsShort m → Ensures IsShort (read_timestamp m s)
  unfolding read_timestamp read_bytes
  timestamp_only short =
      after_read_full IsShort 3 s _ hs
        (λ buf s1 hb h1. after_lift IsShort (uint32 buf) s1 _ h1 (λ t s2 h2. (short, h2)))

  of_format : (f : ℕ) → IsShort m → Ensures IsShort (read_format f m s)
  unfolding read_format
  of_format zero short = full_header
  of_format (suc zero) short = without_stream
  of_format (suc (suc zero)) short = timestamp_only short
  of_format (suc (suc (suc zero))) short = (short, hs)
  of_format (suc (suc (suc (suc n)))) short = hs

  -- The length of a header that was read into one with a length below 2^24 is below it.
  pub Ensures-read : IsShort m → Ensures IsShort (read m s)
  unfolding read
  Ensures-read short = of_format m.format_id short
