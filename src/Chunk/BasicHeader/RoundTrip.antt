-- ===== src/Chunk/BasicHeader/RoundTrip.antt =====
-- What `Write` puts out is read back by `Read`, and which stream IDs it is not true of.
use rtmp.Base.{
  ℕ, ◌+◌, ◌-◌, ◌*◌, ◌/◌, ◌%◌, ◌^◌, ◌≤◌, ◌<◌, ◌≡◌, ◌≢◌, ap, ◌∙◌, ◌⊎◌, inl, inr, List, [], ◌∷◌, ◌++◌,
  append-nil, arith, eof, ok, err,
}
use Prim.Native.Nat.{bit_or}
use rtmp.Base.Bits.{shl, bit_and_3f, bit_or_format}
use native.Mathlib.Decide.{dec_lt}
use mathlib.Core.Logic.{◌↔◌}
use rtmp.Chunk.BasicHeader.{BasicHeader, read, buf}

-- The stream IDs that the encoding can carry: one byte for 1 to 62, two for 64 to 319 and three
-- above.
pub record IsEncodable (h : BasicHeader) : Type 0 where
  pub format : h.format_id < 4
  pub positive : 0 < h.stream_id
  pub not_marker : h.stream_id ≢ 63
  pub bounded : h.stream_id < 65600

-- The first byte, for an ID in its low six bits.
first_byte : (f x : ℕ) → f < 4 → x < 64 → bit_or (shl 8 f 6) x ≡ f * 64 + x
first_byte f x hf hx =
    let e : bit_or ((f * 64 + x) / 64 * 64) ((f * 64 + x) % 64) ≡ f * 64 + x =
      bit_or_format (f * 64 + x) (omega arith) in
    let hi : (f * 64 + x) / 64 * 64 ≡ f * 64 % 256 = omega arith in
    let lo : (f * 64 + x) % 64 ≡ x = omega arith in rw (hi, lo) at e

-- `Read` of a first byte with the format `f`: an ID in one byte, in two and in three.
module _ (h : BasicHeader) (f : ℕ) (rest : List ℕ) (hf : f < 4) where
  read_one_byte :
      (x : ℕ)
      → 0 < x
      → x < 63
      → read h ((f * 64 + x) ∷ rest) ≡ (ok (record { format_id = f; stream_id = x }), rest)
  unfolding read
  read_one_byte x h0 h63 = ground (arith, bit_and_3f (f * 64 + x))

  read_two_bytes :
      (a : ℕ)
      → a < 256
      → read h ((f * 64 + 0) ∷ a ∷ rest) ≡ (ok (record { format_id = f; stream_id = a + 64 }), rest)
  unfolding read
  read_two_bytes a ha = ground (arith, bit_and_3f (f * 64 + 0))

  read_three_bytes :
      (a b : ℕ)
      → a < 256
      → b < 256
      → read h ((f * 64 + 63) ∷ a ∷ b ∷ rest)
        ≡ (ok (record { format_id = f; stream_id = a * 256 + b + 64 }), rest)
  unfolding read
  read_three_bytes a b ha hb = ground (arith, bit_and_3f (f * 64 + 63))

-- The three forms of what `Write` puts out.
module _ (h : BasicHeader) (hf : h.format_id < 4) where
  pub buf_one_byte : h.stream_id < 64 → buf h ≡ (h.format_id * 64 + h.stream_id) ∷ []
  unfolding buf
  buf_one_byte hs =
      ground (arith, bit_and_3f (h.stream_id % 256), first_byte h.format_id h.stream_id hf hs)

  pub buf_two_bytes :
      64 ≤ h.stream_id
      → h.stream_id < 320
      → buf h ≡ (h.format_id * 64 + 0) ∷ (h.stream_id - 64) ∷ []
  unfolding buf
  buf_two_bytes lo hi = ground arith

  buf_three_bytes :
      320 ≤ h.stream_id
      → buf h
        ≡ (h.format_id * 64 + 63)
          ∷ ((h.stream_id - 64) % 2 ^ 16 / 256)
          ∷ ((h.stream_id - 64) % 2 ^ 16 % 256)
          ∷ []
  unfolding buf
  buf_three_bytes lo = ground (arith, first_byte h.format_id 63 hf)

module _ (h h' : BasicHeader) (rest : List ℕ) (hf : h.format_id < 4) where
  -- An ID from 320 on comes back as the low 16 bits of its distance from 64.
  read-buf_large :
      320 ≤ h.stream_id
      → read h' (buf h ++ rest)
        ≡ (ok (record h { stream_id = (h.stream_id - 64) % 2 ^ 16 + 64 }), rest)
  read-buf_large lo =
      let v = (h.stream_id - 64) % 2 ^ 16 in
      let e : v / 256 * 256 + v % 256 ≡ v = omega arith in
      rw (buf_three_bytes h hf lo) (
        read_three_bytes h' h.format_id rest hf (v / 256) (v % 256) (omega arith) (omega arith)
        ∙ rw e)

  read-buf_cases : IsEncodable h → read h' (buf h ++ rest) ≡ (ok h, rest)
  read-buf_cases e = elim (dec_lt h.stream_id 64) [
    | yes small ↦
        rw (buf_one_byte h hf small) (
          read_one_byte h' h.format_id rest hf h.stream_id e.positive (omega (arith, e.not_marker)))
    | no big ↦ elim (dec_lt h.stream_id 320) [
      | yes mid ↦
          rw (buf_two_bytes h hf (omega arith) mid)
            (read_two_bytes h' h.format_id rest hf (h.stream_id - 64) (omega arith) ∙ ground arith)
      | no large ↦ read-buf_large (omega arith) ∙ ground (arith, e.bounded)
    ]
  ]

-- A basic header with an encodable stream ID is read back from what it was written as, and what
-- follows is left in the input.
pub read-buf :
    (h h' : BasicHeader) (rest : List ℕ) → IsEncodable h → read h' (buf h ++ rest) ≡ (ok h, rest)
read-buf h h' rest e = read-buf_cases h h' rest e.format e

-- The two IDs below 64 that take the place of the markers of the longer forms.
read-buf_marker :
    (h h' : BasicHeader)
    → h.format_id < 4
    → (h.stream_id ≡ 0) ⊎ (h.stream_id ≡ 63)
    → read h' (buf h) ≡ (err eof, [])
unfolding read
read-buf_marker h h' hf m =
    rw (buf_one_byte h hf (omega arith))
      (ground (arith, bit_and_3f (h.format_id * 64 + h.stream_id)))

-- An ID that comes back is no marker, and fits what the encoding carries.
read-buf_not_marker :
    (h h' : BasicHeader)
    → h.format_id < 4
    → (read h' (buf h)).0 ≡ ok h
    → (h.stream_id ≢ 0) × (h.stream_id ≢ 63)
read-buf_not_marker h h' hf e = (
  λ m. cc (ap (λ r. r.0) (read-buf_marker h h' hf (inl m)), e),
  λ m. cc (ap (λ r. r.0) (read-buf_marker h h' hf (inr m)), e),
)

read-buf_bounded :
    (h h' : BasicHeader) → h.format_id < 4 → (read h' (buf h)).0 ≡ ok h → h.stream_id < 65600
read-buf_bounded h h' hf e = elim (dec_lt h.stream_id 320) [
  | yes small ↦ omega arith
  | no large ↦
      let back = rw append-nil at (read-buf_large h h' [] hf (omega arith)) in ground (arith, back)
]

-- For a format below 4, reading back what was written gives the header exactly when its stream ID
-- is encodable: not 0, not 63, and below 65600.
pub read-buf_iff :
    (h h' : BasicHeader) → h.format_id < 4 → ((read h' (buf h)).0 ≡ ok h) ↔ IsEncodable h
read-buf_iff h h' hf = (
  λ e.
      let (n0, n63) = read-buf_not_marker h h' hf e in
      record {
        format = hf;
        positive = omega arith;
        not_marker = n63;
        bounded = read-buf_bounded h h' hf e;
      },
  λ e. ap (λ r. r.0) (rw append-nil at (read-buf h h' [] e)),
)
