-- ===== src/Handshake/Reads.antt =====
-- What a read of handshake/ that succeeds has read.
use rtmp.Base.{
  ℕ, suc, ◌%◌, ◌^◌, ◌<◌, ◌≡◌, refl, ap, ◌∙◌, inl, inr, Option, some, List, [], ◌∷◌, ◌++◌, arith,
  ne→==, All, Result, ok, err, panicked, proceed-eq-ok, ok-injective,
}
use rtmp.Base.Bits.{shr}
use rtmp.Io.{read_full, read_one, split}
use rtmp.Spec.{bytes32}
use rtmp.Handshake
use rtmp.Handshake.{
  Conn, from_client, to_client, payload_len, AckPacket, read_uint32, read_ack, Sequence,
  version_sequence, client_ack_sequence, server_ack_sequence, new_version_sequence,
  new_client_ack_sequence, fresh, equal, Handshaker, with_param, exchange, handshake, continue_with,
}
use rtmp.Handshake.Exchange.{ack_bytes, IsPacket}
use mathlib.Core.Path.{subst}
use mathlib.Core.Option.{some-injective}
use rtmp.Base.{All-append_right, equal-cases}
use rtmp.Io.Laws.{read_full_inv}
use rtmp.Io.Bytes.{IsByte}

bytes32-eq :
    (a b c d n : ℕ) (s : List ℕ)
    → (a ≡ shr n 24 % 256) × (b ≡ shr n 16 % 256) × (c ≡ shr n 8 % 256) × (d ≡ n % 256)
    → a ∷ b ∷ c ∷ d ∷ s ≡ bytes32 n ++ s
bytes32-eq a b c d n s (ea, eb, ec, ed) = rw (ea, eb, ec, ed)

read_uint32_inv :
    (s rest : List ℕ) (n : ℕ)
    → All IsByte s
    → read_uint32 s ≡ (ok n, rest)
    → (s ≡ bytes32 n ++ rest) × (n < 2 ^ 32) × All IsByte rest
unfolding read_uint32 read_full split
read_uint32_inv [] rest n hs e = absurd (cc (ap (λ p. p.0) e))
read_uint32_inv (a ∷ []) rest n hs e = absurd (cc (ap (λ p. p.0) e))
read_uint32_inv (a ∷ b ∷ []) rest n hs e = absurd (cc (ap (λ p. p.0) e))
read_uint32_inv (a ∷ b ∷ c ∷ []) rest n hs e = absurd (cc (ap (λ p. p.0) e))
read_uint32_inv (a ∷ b ∷ c ∷ d ∷ s) rest n (ha, (hb, (hc, (hd, hs)))) e =
    let (value, same) = ok-injective e in
    (
      bytes32-eq a b c d n s (omega arith) ∙ ap (λ t. bytes32 n ++ t) same,
      omega arith,
      subst (All IsByte) same hs,
    )

module _ {A B : Type 0} where
  pair-eq : (p : Result A × B) {a : A} → p.0 ≡ ok a → p ≡ (ok a, p.1)
  pair-eq (r, b) e = ap (λ x. (x, b)) e

-- A packet that was read stood in front of what is left.
pub read_ack_inv :
    (s rest : List ℕ) (p : AckPacket)
    → All IsByte s
    → read_ack s ≡ (ok p, rest)
    → (s ≡ ack_bytes p ++ rest) × IsPacket p × All IsByte rest
unfolding read_ack
read_ack_inv s rest p hs e =
    let (t1, s1, e1, more1) = proceed-eq-ok (read_uint32 s) _ e in
    let (t2, s2, e2, more2) = proceed-eq-ok (read_uint32 s1) _ more1 in
    let (payload, s3, e3, more3) = proceed-eq-ok (read_full payload_len s2) _ more2 in
    let (same, remains) = ok-injective more3 in
    let (front1, fits1, bytes1) = read_uint32_inv s s1 t1 hs e1 in
    let (front2, fits2, bytes2) = read_uint32_inv s1 s2 t2 bytes1 e2 in
    let (front3, fills) = read_full_inv payload_len s2 payload s3 e3 in
    let q : AckPacket = record { time1 = t1; time2 = t2; payload = payload } in
    let whole : (s ≡ ack_bytes q ++ s3) × IsPacket q × All IsByte s3 = (
      front1 ∙ ap (λ t. bytes32 t1 ++ t) front2 ∙ ap (λ t. bytes32 t1 ++ (bytes32 t2 ++ t)) front3,
      record { time1_fits = fits1; time2_fits = fits2; payload_fills = fills },
      All-append_right IsByte payload s3 (subst (All IsByte) front3 bytes2),
    ) in
    subst (λ a. (s ≡ ack_bytes a ++ rest) × IsPacket a × All IsByte rest) same
      (subst (λ r. (s ≡ ack_bytes q ++ r) × IsPacket q × All IsByte r) remains whole)

-- A run that ends without an error got through its first round.
continue_inv :
    (h h' : Handshaker) (m : Result (Option Sequence) × Conn)
    (loop : Handshaker → Option (Result (Unit {0}) × Handshaker))
    → continue_with h m loop ≡ some (ok tt, h')
    → (following : Option Sequence) × (c : Conn) × (m ≡ (ok following, c))
      × (loop (record { rw = c; current = following }) ≡ some (ok tt, h'))
continue_inv h h' (ok following, c) loop e = (following, c, refl, e)
continue_inv h h' (err x, c) loop e = absurd (cc (ap (λ p. p.0) (some-injective _ _ e)))
continue_inv h h' (panicked, c) loop e = absurd (cc (ap (λ p. p.0) (some-injective _ _ e)))

pub handshake_inv :
    (n : ℕ) (random : List ℕ) (s : Sequence) (c : Conn) (h' : Handshaker)
    → handshake (suc n) random (record { rw = c; current = some s }) ≡ some (ok tt, h')
    → (following : Option Sequence) × (c' : Conn) × (exchange random s c ≡ (ok following, c'))
      × (handshake n random (record { rw = c'; current = following }) ≡ some (ok tt, h'))
unfolding handshake
handshake_inv n random s c h' e =
    continue_inv (record { rw = c; current = some s }) h' (exchange random s c) (handshake n random)
      e

-- A round that does not fail has read something.
pub exchange_inv :
    (random : List ℕ) (s : Sequence) (c c' : Conn) (following : Option Sequence)
    → exchange random s c ≡ (ok following, c')
    → (s' : Sequence) × (rest : List ℕ) × (Handshake.read s c.incoming ≡ (ok s', rest))
unfolding exchange
exchange_inv random s c c' following e =
    let (s', c1, first, more) = proceed-eq-ok (from_client (Handshake.read s) c) _ e in
    (
      s',
      (Handshake.read s c.incoming).1,
      pair-eq (Handshake.read s c.incoming) (ap (λ p. p.0) first),
    )

pub read_version_inv :
    (bs : List ℕ) (s : Sequence) (rest : List ℕ)
    → Handshake.read new_version_sequence bs ≡ (ok s, rest)
    → (tail : List ℕ) × (bs ≡ 3 ∷ tail)
unfolding Handshake.read Handshake.read_version read_one new_version_sequence
read_version_inv [] s rest e = absurd (cc (ap (λ p. p.0) e))
read_version_inv (b ∷ bs) s rest e = elim (equal-cases b 3) [
  | inl same ↦ (bs, ap (λ x. x ∷ bs) same)
  | inr other ↦ absurd (cc (ap (λ p. p.0) (rw (ne→== b 3 other) at e)))
]

pub read_client_ack_inv :
    (random bs rest : List ℕ) (s : Sequence)
    → Handshake.read (new_client_ack_sequence random) bs ≡ (ok s, rest)
    → (p : AckPacket) × (r : List ℕ) × (read_ack bs ≡ (ok p, r))
unfolding Handshake.read Handshake.read_client_ack new_client_ack_sequence
read_client_ack_inv random bs rest s e =
    let (p, r, first, more) = proceed-eq-ok (read_ack bs) _ e in (p, r, first)

pub read_server_ack_inv :
    (s1 : AckPacket) (bs rest : List ℕ) (s : Sequence)
    → Handshake.read (server_ack_sequence s1) bs ≡ (ok s, rest)
    → (p : AckPacket) × (r : List ℕ) × (read_ack bs ≡ (ok p, r))
unfolding Handshake.read Handshake.read_server_ack
read_server_ack_inv s1 bs rest s e =
    let (p, r, first, more) = proceed-eq-ok (read_ack bs) _ e in (p, r, first)
