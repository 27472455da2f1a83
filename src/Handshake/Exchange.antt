-- ===== src/Handshake/Exchange.antt =====
-- What the handshake of handshake/ reads and writes, and when it succeeds.
use rtmp.Base.{
  ℕ, suc, ◌^◌, ◌<◌, ◌≡◌, ◌≢◌, refl, ap, ◌∙◌, inl, inr, Bool, true, false, Option, none, some, List,
  [], ◌∷◌, ◌++◌, append_assoc, arith, Bool-cases, ==_refl, ==_iff, ne→==, length,
  unsupported_version, mismatched_challenge, Result, ok, err, pure, proceed,
}
use rtmp.Io
use rtmp.Io.{Input, Output, Sink, buffer, read_full, read_one, read_all, split, filled}
use rtmp.Io.Laws.{read_full-append}
use rtmp.Spec.{bytes32}
use rtmp.Handshake
use rtmp.Handshake.{
  Conn, from_client, to_client, payload_len, AckPacket, read_uint32, read_ack, write_ack, Sequence,
  version_sequence, client_ack_sequence, server_ack_sequence, new_version_sequence,
  new_client_ack_sequence, fresh, equal, write_acks, Handshaker, with_param, exchange, handshake,
  continue_with,
}

abbrev pub ack_bytes : AckPacket → List ℕ
ack_bytes p = bytes32 p.time1 ++ bytes32 p.time2 ++ p.payload

-- What the field types of an `AckPacket` hold.
pub record IsPacket (p : AckPacket) : Type 0 where
  pub time1_fits : p.time1 < 2 ^ 32
  pub time2_fits : p.time2 < 2 ^ 32
  pub payload_fills : length p.payload ≡ payload_len

read_uint32-bytes32 :
    (n : ℕ) (rest : List ℕ) → n < 2 ^ 32 → read_uint32 (bytes32 n ++ rest) ≡ (ok n, rest)
unfolding read_uint32 read_full split
read_uint32-bytes32 n rest h = ap (λ m. (ok m, rest)) (omega arith)

pub read_ack-ack_bytes :
    (p : AckPacket) (rest : List ℕ) → IsPacket p → read_ack (ack_bytes p ++ rest) ≡ (ok p, rest)
unfolding read_ack
read_ack-ack_bytes p rest h = rw (
  read_uint32-bytes32 p.time1 (bytes32 p.time2 ++ p.payload ++ rest) h.time1_fits,
  read_uint32-bytes32 p.time2 (p.payload ++ rest) h.time2_fits,
  read_full-append payload_len p.payload rest h.payload_fills,
)

pub write_ack-buffer :
    (p : AckPacket) (out : List ℕ) → write_ack p (buffer out) ≡ (ok tt, buffer (out ++ ack_bytes p))
unfolding write_ack Io.write
write_ack-buffer p out =
    ap (λ o. (ok tt, buffer o))
      (append_assoc (out ++ bytes32 p.time1) (bytes32 p.time2) p.payload
        ∙ append_assoc out (bytes32 p.time1) (bytes32 p.time2 ++ p.payload))

pub equal_refl : (xs : List ℕ) → equal xs xs ≡ true
unfolding equal
equal_refl [] = refl
equal_refl (x ∷ xs) = rw (==_refl x) (equal_refl xs)

pub equal_sound : (xs ys : List ℕ) → equal xs ys ≡ true → xs ≡ ys
unfolding equal
equal_sound [] [] h = refl
equal_sound [] (y ∷ ys) h = absurd (cc h)
equal_sound (x ∷ xs) [] h = absurd (cc h)
equal_sound (x ∷ xs) (y ∷ ys) h = grind (arith, ==_iff x y, equal_sound xs ys)

-- The packets that the server sends: one with the random payload, and one with what the client's first had.
abbrev pub answers : List ℕ → AckPacket → List ℕ
answers random c1 =
    ack_bytes (fresh random)
    ++ ack_bytes (record { time1 = c1.time1; time2 = 0; payload = c1.payload })

write_acks-buffer :
    (c1 : AckPacket) (random out : List ℕ)
    → write_acks c1 (fresh random) (buffer out) ≡ (ok tt, buffer (out ++ answers random c1))
unfolding write_acks
write_acks-buffer c1 random out =
    let s2 : AckPacket = record { time1 = c1.time1; time2 = 0; payload = c1.payload } in
    ap (λ m. proceed m (λ u. write_ack s2)) (write_ack-buffer (fresh random) out)
    ∙ write_ack-buffer s2 (out ++ ack_bytes (fresh random))
    ∙ ap (λ o. (ok tt, buffer o)) (append_assoc out (ack_bytes (fresh random)) (ack_bytes s2))

abbrev pub conn : List ℕ → List ℕ → Conn
conn s out = record { incoming = s; outgoing = buffer out }

pub exchange_version :
    (random s out : List ℕ)
    → exchange random new_version_sequence (conn (3 ∷ s) out)
      ≡ (ok (some (new_client_ack_sequence random)), conn s (out ++ 3 ∷ []))
unfolding exchange Handshake.read Handshake.read_version read_one Handshake.write_to Io.write
    Handshake.next new_version_sequence
exchange_version random s out = refl

pub exchange_client :
    (random s out : List ℕ) (c1 : AckPacket)
    → IsPacket c1
    → exchange random (new_client_ack_sequence random) (conn (ack_bytes c1 ++ s) out)
      ≡ (ok (some (server_ack_sequence (fresh random))), conn s (out ++ answers random c1))
unfolding exchange Handshake.read Handshake.read_client_ack Handshake.write_to Handshake.next
    new_client_ack_sequence
exchange_client random s out c1 h = rw (read_ack-ack_bytes c1 s h) (
    ap
      (λ m.
        proceed (m.0, record { incoming = s; outgoing = m.1 })
          (λ u. pure (some (server_ack_sequence (fresh random)))))
      (write_acks-buffer c1 random out))

abbrev pub verdict : Bool → Result (Option Sequence)
verdict true = ok none
verdict false = err mismatched_challenge

pub exchange_server :
    (random s out : List ℕ) (c2 : AckPacket)
    → IsPacket c2
    → exchange random (server_ack_sequence (fresh random)) (conn (ack_bytes c2 ++ s) out)
      ≡ (verdict (equal random c2.payload), conn s out)
unfolding exchange Handshake.read Handshake.read_server_ack Handshake.write_to Handshake.next
exchange_server random s out c2 h = elim (Bool-cases (equal random c2.payload)) [
  | inl e ↦ rw (read_ack-ack_bytes c2 s h, e)
  | inr e ↦ rw (read_ack-ack_bytes c2 s h, e)
]

abbrev pub outcome : Bool → Result (Unit {0})
outcome true = ok tt
outcome false = err mismatched_challenge

abbrev pub left : Bool → AckPacket → Option Sequence
left true s1 = none
left false s1 = some (server_ack_sequence s1)

-- A round without an error goes on with the sequence that follows.
handshake_round :
    (n : ℕ) (random : List ℕ) (s : Sequence) (c c' : Conn) (following : Option Sequence)
    → exchange random s c ≡ (ok following, c')
    → handshake (suc n) random (record { rw = c; current = some s })
      ≡ handshake n random (record { rw = c'; current = following })
unfolding handshake
handshake_round n random s c c' following e =
    ap (λ m. continue_with (record { rw = c; current = some s }) m (handshake n random)) e

handshake_last :
    (random : List ℕ) (s1 : AckPacket) (c c' : Conn) (b : Bool)
    → exchange random (server_ack_sequence s1) c ≡ (verdict b, c')
    → handshake 1 random (record { rw = c; current = some (server_ack_sequence s1) })
      ≡ some (outcome b, record { rw = c'; current = left b s1 })
unfolding handshake
handshake_last random s1 c c' true e = handshake_round 0 random (server_ack_sequence s1) c c' none e
handshake_last random s1 c c' false e =
    ap
      (λ m.
        continue_with (record { rw = c; current = some (server_ack_sequence s1) }) m
          (handshake 0 random))
      e

-- With a client that sends version 3 and two packets, whatever follows, the handshake sends the
-- version, a packet with the random payload and one with the time and the payload of the client's
-- first, leaves what follows unread, and succeeds if the payload of the client's second packet is the
-- random one; if not, it fails with a mismatched challenge.
pub handshake-answers :
    (random rest out : List ℕ) (c1 c2 : AckPacket)
    → IsPacket c1
    → IsPacket c2
    → handshake 3 random (with_param (conn (3 ∷ (ack_bytes c1 ++ (ack_bytes c2 ++ rest))) out) none)
      ≡ some (
        outcome (equal random c2.payload),
        record {
          rw = conn rest ((out ++ 3 ∷ []) ++ answers random c1);
          current = left (equal random c2.payload) (fresh random);
        },
      )
unfolding with_param
handshake-answers random rest out c1 c2 h1 h2 =
    handshake_round 2 random _ _ _ _
      (exchange_version random (ack_bytes c1 ++ (ack_bytes c2 ++ rest)) out)
    ∙ handshake_round 1 random _ _ _ _
        (exchange_client random (ack_bytes c2 ++ rest) (out ++ 3 ∷ []) c1 h1)
    ∙ handshake_last random (fresh random) _ _ (equal random c2.payload)
        (exchange_server random rest ((out ++ 3 ∷ []) ++ answers random c1) c2 h2)

-- A client that sends another version first is refused: nothing is sent to it, and nothing behind
-- the version is read.
pub handshake_unsupported :
    (random rest : List ℕ) (b : ℕ) (sink : Sink)
    → b ≢ 3
    → handshake 3 random (with_param (record { incoming = b ∷ rest; outgoing = sink }) none)
      ≡ some (
        err (unsupported_version b),
        record {
          rw = record { incoming = rest; outgoing = sink };
          current = some new_version_sequence;
        },
      )
unfolding handshake with_param exchange Handshake.read Handshake.read_version read_one
    new_version_sequence
handshake_unsupported random rest b sink ne = rw (ne→== b 3 ne)
