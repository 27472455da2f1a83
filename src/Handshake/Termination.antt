-- ===== src/Handshake/Termination.antt =====
-- The loop of Handshake in handshake/handshaker.go ends on every connection.
use rtmp.Base.{
  ℕ, zero, suc, ◌≤◌, ◌<◌, ◌≡◌, refl, Bool, true, false, Option, none, some, List, arith, ◌==◌,
  if◌then◌else◌, Error, unsupported_version, mismatched_challenge, Result, ok, err, panicked, Exec,
  pure, raise, proceed,
}
use rtmp.Io.{read_one}
use rtmp.Handshake
use rtmp.Handshake.{
  Conn, from_client, to_client, AckPacket, read_ack, Sequence, version_sequence,
  client_ack_sequence, server_ack_sequence, new_client_ack_sequence, equal, Handshaker, with_param,
  exchange, handshake, continue_with,
}

module _ {S A : Type 0} where
  -- What a call returns, if it returns a value, has the property.
  abbrev Yields : (A → Type 0) → Result A × S → Type 0
  Yields P (ok a, s) = P a
  Yields P (err e, s) = Unit {0}
  Yields P (panicked, s) = Unit {0}

  Yields-any : (m : Result A × S) → Yields (λ a. Unit {0}) m
  Yields-any (ok a, s) = tt
  Yields-any (err e, s) = tt
  Yields-any (panicked, s) = tt

  Yields-mono :
      (P Q : A → Type 0) (m : Result A × S) → Yields P m → ((a : A) → P a → Q a) → Yields Q m
  Yields-mono P Q (ok a, s) y le = le a y
  Yields-mono P Q (err e, s) y le = tt
  Yields-mono P Q (panicked, s) y le = tt

  Yields-if :
      (P : A → Type 0) (b : Bool) (a : A) (e : Error) (s : S)
      → P a
      → Yields P ((if b then pure a else raise e) s)
  Yields-if P true a e s y = y
  Yields-if P false a e s y = tt

  Yields-proceed :
      {B : Type 0} (P : A → Type 0) (Q : Result B × S → Type 0) (m : Result A × S)
      (f : A → Exec S B)
      → Yields P m
      → ((e : Error) (s : S) → Q (err e, s))
      → ((s : S) → Q (panicked, s))
      → ((a : A) (s : S) → P a → Q (f a s))
      → Q (proceed m f)
  Yields-proceed P Q (ok a, s) f y qe qp q = q a s y
  Yields-proceed P Q (err e, s) f y qe qp q = qe e s
  Yields-proceed P Q (panicked, s) f y qe qp q = qp s

Yields-from_client :
    {A : Type 0} (P : A → Type 0) (m : Result A × List ℕ) (c : Conn)
    → Yields P m
    → Yields P (m.0, record c { incoming = m.1 })
Yields-from_client P (ok a, s) c y = y
Yields-from_client P (err e, s) c y = tt
Yields-from_client P (panicked, s) c y = tt

-- How many rounds are left from a sequence on.
abbrev rounds_left : Option Sequence → ℕ
rounds_left none = 0
rounds_left (some (server_ack_sequence s1)) = 1
rounds_left (some (client_ack_sequence c1 s1)) = 2
rounds_left (some (version_sequence supported)) = 3

module _ (random : List ℕ) where
  abbrev IsCloser : ℕ → Sequence → Type 0
  IsCloser n s = rounds_left (Handshake.next random s) < n

  read-IsCloser :
      (s : Sequence) (bs : List ℕ) → Yields (IsCloser (rounds_left (some s))) (Handshake.read s bs)
  unfolding Handshake.read Handshake.read_version Handshake.read_client_ack
      Handshake.read_server_ack Handshake.next new_client_ack_sequence
  read-IsCloser (version_sequence supported) bs =
      Yields-proceed (λ b. Unit {0}) (Yields (IsCloser 3)) (read_one bs) _
        (Yields-any (read_one bs)) (λ e s. tt) (λ s. tt)
        (λ b s y.
          Yields-if (IsCloser 3) (b == supported) (version_sequence supported)
            (unsupported_version b) s (omega arith))
  read-IsCloser (client_ack_sequence c1 s1) bs =
      Yields-proceed (λ b. Unit {0}) (Yields (IsCloser 2)) (read_ack bs) _
        (Yields-any (read_ack bs)) (λ e s. tt) (λ s. tt) (λ b s y. omega arith)
  read-IsCloser (server_ack_sequence s1) bs =
      Yields-proceed (λ b. Unit {0}) (Yields (IsCloser 1)) (read_ack bs) _
        (Yields-any (read_ack bs)) (λ e s. tt) (λ s. tt)
        (λ c2 s y.
          Yields-if (IsCloser 1) (equal s1.payload c2.payload) (server_ack_sequence s1)
            mismatched_challenge s (omega arith))

  exchange-rounds_left :
      (s : Sequence) (c : Conn)
      → Yields (λ following. rounds_left following < rounds_left (some s)) (exchange random s c)
  unfolding exchange
  exchange-rounds_left s c =
      let n = rounds_left (some s) in
      Yields-proceed (IsCloser n) (Yields (λ following. rounds_left following < n))
        (from_client (Handshake.read s) c) _
        (Yields-from_client (IsCloser n) (Handshake.read s c.incoming) c
          (read-IsCloser s c.incoming))
        (λ e c'. tt) (λ c'. tt)
        (λ s' c' close.
          Yields-proceed (λ u. Unit {0}) (Yields (λ following. rounds_left following < n))
            (to_client (Handshake.write_to s') c') _
            (Yields-any (to_client (Handshake.write_to s') c')) (λ e c2. tt) (λ c2. tt)
            (λ u c2 y. close))

  rounds_left_pos : (s : Sequence) → 0 < rounds_left (some s)
  rounds_left_pos (server_ack_sequence s1) = omega arith
  rounds_left_pos (client_ack_sequence c1 s1) = omega arith
  rounds_left_pos (version_sequence supported) = omega arith

  Returns : Option (Result (Unit {0}) × Handshaker) → Type 0
  Returns o = (r : Result (Unit {0})) × (h : Handshaker) × (o ≡ some (r, h))

  Returns-continue :
      (n : ℕ) (h : Handshaker) (m : Result (Option Sequence) × Conn)
      (loop : Handshaker → Option (Result (Unit {0}) × Handshaker))
      → Yields (λ following. rounds_left following < suc n) m
      → ((c : Conn) (following : Option Sequence)
          → rounds_left following ≤ n
          → Returns (loop (record { rw = c; current = following })))
      → Returns (continue_with h m loop)
  unfolding Returns
  Returns-continue n h (ok following, c) loop y next = next c following (omega arith)
  Returns-continue n h (err e, c) loop y next = (err e, record h { rw = c }, refl)
  Returns-continue n h (panicked, c) loop y next = (panicked, record h { rw = c }, refl)

  handshake-rounds_left :
      (n : ℕ) (c : Conn) (current : Option Sequence)
      → rounds_left current ≤ n
      → Returns (handshake n random (record { rw = c; current = current }))
  unfolding handshake Returns
  handshake-rounds_left zero c none le = (ok tt, record { rw = c; current = none }, refl)
  handshake-rounds_left zero c (some s) le = absurd (omega (arith, rounds_left_pos s))
  handshake-rounds_left (suc n) c none le = (ok tt, record { rw = c; current = none }, refl)
  handshake-rounds_left (suc n) c (some s) le =
      Returns-continue n (record { rw = c; current = some s }) (exchange random s c)
        (handshake n random)
        (Yields-mono (λ following. rounds_left following < rounds_left (some s))
          (λ following. rounds_left following < suc n) (exchange random s c)
          (exchange-rounds_left s c) (λ following h. omega arith))
        (handshake-rounds_left n)

  -- On every connection, whatever it delivers and takes, three rounds are enough for the handshake
  -- to return, with or without an error.
  pub handshake_returns :
      (c : Conn)
      → (r : Result (Unit {0})) × (h : Handshaker) × (handshake 3 random (with_param c none)
          ≡ some (r, h))
  unfolding with_param Returns Handshake.new_version_sequence
  handshake_returns c =
      handshake-rounds_left 3 c (some Handshake.new_version_sequence) (omega arith)
