-- ===== src/Tests/Handshakes.antt =====
-- The theorems on the handshake at a client with a full challenge.
use rtmp.Base.{
  Result, ok, All, All-append, ℕ, zero, suc, ◌≡◌, refl, ap, ◌∙◌, none, some, List, [], ◌∷◌, ◌++◌,
  arith, replicate, unsupported_version, err,
}
use rtmp.Io.{buffer}
use rtmp.Io.Bytes.{IsByte}
use rtmp.Spec.{bytes32}
use rtmp.Handshake.Soundness.{handshake_sound}
use rtmp.Handshake.{
  Handshaker, AckPacket, payload_len, handshake, with_param, new_version_sequence, fresh, equal,
}
use rtmp.Handshake.Termination.{handshake_returns}
use rtmp.Handshake.Exchange.{
  IsPacket, ack_bytes, answers, conn, outcome, left, equal_refl, handshake-answers,
  handshake_unsupported,
}

abbrev pub challenge : List ℕ
challenge = replicate 1528 7

replicate-IsByte : (n b : ℕ) → IsByte b → All IsByte (replicate n b)
replicate-IsByte zero b h = tt
replicate-IsByte (suc n) b h = (h, replicate-IsByte n b h)

bytes32-IsByte : (n : ℕ) → All IsByte (bytes32 n)
bytes32-IsByte n = (omega arith, (omega arith, (omega arith, (omega arith, tt))))

ack_bytes-IsByte : (p : AckPacket) → All IsByte p.payload → All IsByte (ack_bytes p)
ack_bytes-IsByte p h =
    All-append IsByte (bytes32 p.time1) (bytes32 p.time2 ++ p.payload) (bytes32-IsByte p.time1)
      (All-append IsByte (bytes32 p.time2) p.payload (bytes32-IsByte p.time2) h)

abbrev pub first_ack : AckPacket
first_ack = record { time1 = 1000; time2 = 0; payload = replicate 1528 9 }

abbrev pub second_ack : AckPacket
second_ack = record { time1 = 0; time2 = 12; payload = challenge }

pub first_ack-IsPacket : IsPacket first_ack
unfolding payload_len
first_ack-IsPacket = record {
  time1_fits = omega arith;
  time2_fits = omega arith;
  payload_fills = refl;
}

pub second_ack-IsPacket : IsPacket second_ack
unfolding payload_len
second_ack-IsPacket = record {
  time1_fits = omega arith;
  time2_fits = omega arith;
  payload_fills = refl;
}

handshake-answers_example :
    handshake 3 challenge
      (with_param (conn (3 ∷ (ack_bytes first_ack ++ (ack_bytes second_ack ++ 8 ∷ []))) []) none)
    ≡ some (
      outcome (equal challenge challenge),
      record {
        rw = conn (8 ∷ []) (([] ++ 3 ∷ []) ++ answers challenge first_ack);
        current = left (equal challenge challenge) (fresh challenge);
      },
    )
handshake-answers_example =
    handshake-answers challenge (8 ∷ []) [] first_ack second_ack first_ack-IsPacket
      second_ack-IsPacket

handshake_unsupported_example :
    handshake 3 challenge (with_param (record { incoming = 6 ∷ 1 ∷ []; outgoing = buffer [] }) none)
    ≡ some (
      err (unsupported_version 6),
      record {
        rw = record { incoming = 1 ∷ []; outgoing = buffer [] };
        current = some new_version_sequence;
      },
    )
handshake_unsupported_example = handshake_unsupported challenge (1 ∷ []) 6 (buffer []) (omega arith)

handshake_returns_example :
    (r : Result (Unit {0})) × (h : Handshaker) × (handshake 3 challenge
        (with_param (record { incoming = 3 ∷ 0 ∷ []; outgoing = buffer [] }) none)
      ≡ some (r, h))
handshake_returns_example =
    handshake_returns challenge (record { incoming = 3 ∷ 0 ∷ []; outgoing = buffer [] })

abbrev from_client : List ℕ
from_client = 3 ∷ (ack_bytes first_ack ++ (ack_bytes second_ack ++ 8 ∷ []))

from_client-IsByte : All IsByte from_client
from_client-IsByte = (
  omega arith,
  All-append IsByte (ack_bytes first_ack) (ack_bytes second_ack ++ 8 ∷ [])
      (ack_bytes-IsByte first_ack (replicate-IsByte 1528 9 (omega arith)))
      (All-append IsByte (ack_bytes second_ack) (8 ∷ [])
        (ack_bytes-IsByte second_ack (replicate-IsByte 1528 7 (omega arith))) (omega arith, tt)),
)

abbrev shaken : Handshaker
shaken = record {
  rw = conn (8 ∷ []) (([] ++ 3 ∷ []) ++ answers challenge first_ack);
  current = none;
}

shaken_is : handshake 3 challenge (with_param (conn from_client []) none) ≡ some (ok tt, shaken)
shaken_is =
    handshake-answers challenge (8 ∷ []) [] first_ack second_ack first_ack-IsPacket
      second_ack-IsPacket
    ∙ ap (λ b. some (outcome b, record { rw = shaken.rw; current = left b (fresh challenge) }))
        (equal_refl challenge)

handshake_sound_example :
    (c1 c2 : AckPacket) × (rest : List ℕ) × (from_client
      ≡ 3 ∷ (ack_bytes c1 ++ (ack_bytes c2 ++ rest)))
    × IsPacket c1
    × IsPacket c2
    × (c2.payload ≡ challenge)
    × (shaken ≡ record { rw = conn rest (([] ++ 3 ∷ []) ++ answers challenge c1); current = none })
handshake_sound_example =
    handshake_sound challenge from_client [] shaken from_client-IsByte shaken_is
