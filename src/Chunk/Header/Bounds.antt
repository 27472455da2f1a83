-- ===== src/Chunk/Header/Bounds.antt =====
-- How long a payload a header that was read can announce.
use rtmp.Base.{
  ℕ, ◌^◌, ◌<◌, ◌+◌, ◌%◌, List, [], ◌∷◌, Bool, true, false, inl, inr, All, lift, Bool-cases, pure,
  ◌>>=◌, if◌then◌else◌, ◌==◌, arith,
}
use Prim.Native.Nat.{bit_and}
use rtmp.Base.Bits.{shr}
use rtmp.Io.{read_one}
use rtmp.Io.Bytes.{
  IsByte, Ensures, Any, Ensures-proceed, Ensures-read_one, after_read_full, after_lift,
}
use rtmp.Spec.{uint32, read_byte, read_bytes}
use rtmp.Chunk.BasicHeader
use rtmp.Chunk.BasicHeader.{BasicHeader}
use rtmp.Chunk.MessageHeader
use rtmp.Chunk.MessageHeader.{MessageHeader, has_extended_timestamp}
use rtmp.Chunk.MessageHeader.Bounds as Message
use rtmp.Chunk.ExtendedTimestamp
use rtmp.Chunk.ExtendedTimestamp.{ExtendedTimestamp}
use rtmp.Chunk.Header.{Header, read, empty}

abbrev pub IsShort : Header → Type 0
IsShort h = h.message_header.length < 2 ^ 24

-- The longer forms of a basic header.
basic_tail :
    (n : ℕ) (h : BasicHeader) (s : List ℕ)
    → All IsByte s
    → Ensures Any (
        (do
          tail ← read_bytes n
          id ← lift (uint32 tail)
          pure (record h { stream_id = (id + 64) % 2 ^ 32 }))
          s)
unfolding read_bytes
basic_tail n h s hs =
    after_read_full Any n s _ hs
      (λ tail s1 ht h1. after_lift Any (uint32 tail) s1 _ h1 (λ id s2 h2. (tt, h2)))

basic_short :
    (n : ℕ) (h : BasicHeader) (s : List ℕ)
    → All IsByte s
    → Ensures Any ((do id ← lift (uint32 (n ∷ [])); pure (record h { stream_id = id })) s)
basic_short n h s hs =
    after_lift Any (uint32 (n ∷ [])) s (λ id. pure (record h { stream_id = id })) hs
      (λ id s' h'. (tt, h'))

basic : (h : BasicHeader) (s : List ℕ) → All IsByte s → Ensures Any (BasicHeader.read h s)
unfolding BasicHeader.read read_byte
basic h s hs = Ensures-proceed IsByte Any (read_one s) _ (Ensures-read_one s hs) (λ b s1 hb h1.
    let h' : BasicHeader = record h { format_id = shr b 6 } in
    elim (Bool-cases (bit_and b 0x3f == 0x3f)) [
      | inl e ↦ rw e (basic_tail 2 h' s1 h1)
      | inr e ↦ elim (Bool-cases (bit_and b 0x3f == 0)) [
        | inl e' ↦ rw (e, e') (basic_tail 1 h' s1 h1)
        | inr e' ↦ rw (e, e') (basic_short (bit_and b 0x3f) h' s1 h1)
      ]
    ])

extended :
    (t : ExtendedTimestamp) (s : List ℕ) → All IsByte s → Ensures Any (ExtendedTimestamp.read t s)
unfolding ExtendedTimestamp.read read_bytes
extended t s hs =
    after_read_full Any 4 s _ hs
      (λ buf s1 hb h1. after_lift Any (uint32 buf) s1 _ h1 (λ d s2 h2. (tt, h2)))

-- The extended timestamp leaves the length as it is.
with_timestamp :
    (h : Header) (s : List ℕ) (b : Bool)
    → IsShort h
    → All IsByte s
    → Ensures IsShort (
        (if b
            then (do
              t ← ExtendedTimestamp.read empty.extended_timestamp
              pure (record h { extended_timestamp = t }))
            else pure h)
          s)
with_timestamp h s true short hs =
    Ensures-proceed Any IsShort (ExtendedTimestamp.read empty.extended_timestamp s) _
      (extended empty.extended_timestamp s hs) (λ t s' _ hs'. (short, hs'))
with_timestamp h s false short hs = (short, hs)

-- A header that was read into a new one announces fewer than 2^24 bytes.
pub Ensures-read-empty : (s : List ℕ) → All IsByte s → Ensures IsShort (read empty s)
unfolding read
Ensures-read-empty s hs =
    Ensures-proceed Any IsShort (BasicHeader.read empty.basic_header s) _
      (basic empty.basic_header s hs)
      (λ b s1 _ h1.
        let m = record empty.message_header { format_id = b.format_id } in
        Ensures-proceed Message.IsShort IsShort (MessageHeader.read m s1) _
          (Message.Ensures-read m s1 h1 (omega arith))
          (λ m' s2 hm h2.
            with_timestamp (record empty { basic_header = b; message_header = m' }) s2
              (has_extended_timestamp m') hm h2))
