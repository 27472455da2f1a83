-- ===== src/Chunk/MessageHeader/RoundTrip.antt =====
-- What a message header of each format carries, and that it is read back.
use rtmp.Base.{
  ℕ, zero, suc, ◌^◌, ◌≤◌, ◌<◌, ◌≡◌, refl, true, false, List, [], ◌++◌, arith, unknown_format_id, ok,
  err,
}
use rtmp.Io.{buffer}
use rtmp.Chunk.MessageHeader.{MessageHeader, read_format, fill, read, buf}

-- The fields fit their places.
pub record IsEncodable (m : MessageHeader) : Type 0 where
  pub format : m.format_id < 4
  pub timestamp : m.timestamp < 2 ^ 24
  pub length : m.length < 2 ^ 24
  pub type_id : m.type_id < 256
  pub stream_id : m.stream_id < 2 ^ 32

-- What format `f` carries of `m`, over the fields that `m'` had before.
unfoldable pub carried : ℕ → MessageHeader → MessageHeader → MessageHeader
carried zero m m' = record m { format_id = m'.format_id; timestamp_delta = false }
carried (suc zero) m m' = record m {
  format_id = m'.format_id;
  timestamp_delta = true;
  stream_id = m'.stream_id;
}
carried (suc (suc zero)) m m' = record m' { timestamp = m.timestamp; timestamp_delta = true }
carried (suc (suc (suc n))) m m' = m'

read-fill :
    (f : ℕ) (m m' : MessageHeader) (rest : List ℕ)
    → IsEncodable m
    → f < 4
    → read_format f m' ((fill f m (buffer [])).1.written ++ rest) ≡ (ok (carried f m m'), rest)
unfolding read_format fill carried
read-fill zero m m' rest e h = ground arith
read-fill (suc zero) m m' rest e h = ground arith
read-fill (suc (suc zero)) m m' rest e h = ground arith
read-fill (suc (suc (suc zero))) m m' rest e h = refl
read-fill (suc (suc (suc (suc n)))) m m' rest e h = absurd (omega arith)

-- A header that was written is read back by a header of the same format: the fields that the format
-- carries are those written, the others stay, and what follows is left in the input.
pub read-buf-carried :
    (m m' : MessageHeader) (rest : List ℕ)
    → IsEncodable m
    → m'.format_id ≡ m.format_id
    → read m' (buf m ++ rest) ≡ (ok (carried m.format_id m m'), rest)
unfolding read buf
read-buf-carried m m' rest e same = simp same (read-fill m.format_id m m' rest e e.format)

read_format_unknown :
    (f : ℕ) (m : MessageHeader) (s : List ℕ)
    → 4 ≤ f
    → read_format f m s ≡ (err unknown_format_id, s)
unfolding read_format
read_format_unknown zero m s h = absurd (omega arith)
read_format_unknown (suc zero) m s h = absurd (omega arith)
read_format_unknown (suc (suc zero)) m s h = absurd (omega arith)
read_format_unknown (suc (suc (suc zero))) m s h = absurd (omega arith)
read_format_unknown (suc (suc (suc (suc n)))) m s h = refl

-- A format that RTMP does not have is refused, and nothing is read.
pub read_unknown :
    (m : MessageHeader) (s : List ℕ) → 4 ≤ m.format_id → read m s ≡ (err unknown_format_id, s)
unfolding read
read_unknown m s h = read_format_unknown m.format_id m s h
