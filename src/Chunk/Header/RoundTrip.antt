-- ===== src/Chunk/Header/RoundTrip.antt =====
-- Headers are read back from what they were written as.
use rtmp.Base.{
  ℕ, zero, suc, ◌^◌, ◌<◌, ◌≡◌, refl, sym, inl, inr, List, [], ◌++◌, append-nil, append_assoc, arith,
  ◌==◌, if◌then◌else◌, Bool-cases, ok,
}
use rtmp.Io
use rtmp.Io.{Input, Output, Sink, buffer, read_full, read_one, read_all, split, filled}
use rtmp.Spec.{bytes32}
use rtmp.Chunk.BasicHeader
use rtmp.Chunk.BasicHeader.{BasicHeader}
use rtmp.Chunk.BasicHeader.RoundTrip as BasicLaws
use rtmp.Chunk.MessageHeader
use rtmp.Chunk.MessageHeader.{MessageHeader, has_extended_timestamp}
use rtmp.Chunk.MessageHeader.RoundTrip.{carried}
use rtmp.Chunk.MessageHeader.RoundTrip as MessageLaws
use rtmp.Chunk.ExtendedTimestamp
use rtmp.Chunk.ExtendedTimestamp.{ExtendedTimestamp}
use rtmp.Chunk.Header.{Header, read, write, empty}

-- The bytes of a header.
unfoldable pub encoding : Header → List ℕ
encoding h =
    BasicHeader.buf h.basic_header
    ++ (MessageHeader.buf h.message_header
        ++ (if h.message_header.timestamp == 0xffffff
            then bytes32 h.extended_timestamp.delta
            else []))

-- `Write` to a buffer appends the encoding and does not fail.
pub write-encoding :
    (h : Header) (out : List ℕ) → write h (buffer out) ≡ (ok tt, buffer (out ++ encoding h))
unfolding write encoding BasicHeader.write MessageHeader.write ExtendedTimestamp.write Io.write
write-encoding h out = elim (Bool-cases (h.message_header.timestamp == 0xffffff)) [
  | inl e ↦ rw e (simp append_assoc)
  | inr e ↦ rw e (simp (append_assoc, append-nil))
]

-- The fields fit their places, and both parts have the same format.
pub record IsEncodable (h : Header) : Type 0 where
  pub basic : BasicLaws.IsEncodable h.basic_header
  pub message : MessageLaws.IsEncodable h.message_header
  pub same_format : h.message_header.format_id ≡ h.basic_header.format_id
  pub delta : h.extended_timestamp.delta < 2 ^ 32

-- What a new header holds after the bytes of `h` were read into it.
unfoldable pub received : Header → Header
unfolding carried
received h =
    let f = h.basic_header.format_id in
    let m =
      carried h.message_header.format_id h.message_header
        (record MessageHeader.empty { format_id = f }) in
    record {
      basic_header = h.basic_header;
      message_header = m;
      extended_timestamp =
          if m.timestamp == 0xffffff then h.extended_timestamp else record { delta = 0 };
    }

carried-timestamp :
    (f : ℕ) (m m' : MessageHeader) → f < 3 → (carried f m m').timestamp ≡ m.timestamp
unfolding carried
carried-timestamp zero m m' h = refl
carried-timestamp (suc zero) m m' h = refl
carried-timestamp (suc (suc zero)) m m' h = refl
carried-timestamp (suc (suc (suc n))) m m' h = absurd (omega arith)

-- A header of format 0, 1 or 2 that was written is read back into a new header, with the fields that
-- its format carries, and what follows is left in the input.
pub read-encoding :
    (h : Header) (rest : List ℕ)
    → IsEncodable h
    → h.basic_header.format_id < 3
    → read empty (encoding h ++ rest) ≡ (ok (received h), rest)
unfolding read encoding received has_extended_timestamp
read-encoding h rest e f3 =
    let f = h.basic_header.format_id in
    let m = h.message_header in
    let m' = record MessageHeader.empty { format_id = f } in
    let t : (carried m.format_id m m').timestamp ≡ m.timestamp =
      carried-timestamp m.format_id m m' (omega (arith, e.same_format)) in
    simp append_assoc (
      rw
        (
          BasicLaws.read-buf h.basic_header empty.basic_header _ e.basic,
          MessageLaws.read-buf-carried m m' _ e.message (sym e.same_format),
          t,
        )
        (elim (Bool-cases (m.timestamp == 0xffffff)) [
          | inl big ↦ rw (
            big,
            (ExtendedTimestamp.read-write h.extended_timestamp empty.extended_timestamp [] rest
                e.delta).1,
          )
          | inr small ↦ rw small
        ]))

-- A continuation: a header of format 3 is its basic header alone, whatever was sent before it.
pub read_continuation :
    (b : BasicHeader) (rest : List ℕ)
    → BasicLaws.IsEncodable b
    → b.format_id ≡ 3
    → read empty (BasicHeader.buf b ++ rest) ≡ (
      ok (record empty {
        basic_header = b;
        message_header = record MessageHeader.empty { format_id = 3 };
      }),
      rest,
    )
unfolding read has_extended_timestamp MessageHeader.read
read_continuation b rest e f = rw (BasicLaws.read-buf b empty.basic_header rest e, f)
