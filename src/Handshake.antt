-- ===== src/Handshake.antt =====
-- handshake/. The connection is the bytes that the client will still send and the sink for what the
-- server sends. `random` is what `rand.Read` puts into the payload of S1.
pub mod Exchange
pub mod Termination
pub mod Reads
pub mod Soundness
use rtmp.Base.{
  ℕ, zero, suc, Bool, true, false, ◌&&◌, Option, none, some, List, [], ◌∷◌, ◌==◌, if◌then◌else◌,
  replicate, unsupported_version, mismatched_challenge, Result, ok, err, panicked, Exec, pure,
  raise, lift, ◌>>=◌, ◌>>◌,
}
use rtmp.Io
use rtmp.Io.{Input, Output, Sink, read_full, read_one}
use rtmp.Spec
use rtmp.Spec.{bytes32}

pub record Conn : Type 0 where
  pub incoming : List ℕ
  pub outgoing : Sink

abbrev pub from_client : {A : Type 0} → Input A → Exec Conn A
from_client m c = let (r, s) = m c.incoming in (r, record c { incoming = s })

abbrev pub to_client : Output → Exec Conn (Unit {0})
to_client m c = let (r, s) = m c.outgoing in (r, record c { outgoing = s })

unfoldable pub payload_len : ℕ
payload_len = 1528

pub record AckPacket : Type 0 where
  pub time1 : ℕ
  pub time2 : ℕ
  pub payload : List ℕ

-- binary.Read and binary.Write with BigEndian on a uint32
unfoldable pub read_uint32 : Input ℕ
read_uint32 = do buf ← read_full 4; lift (Spec.be_uint32 buf)

unfoldable pub read_ack : Input AckPacket
unfolding read_uint32
read_ack = do
  time1 ← read_uint32
  time2 ← read_uint32
  payload ← read_full payload_len
  pure (record { time1 = time1; time2 = time2; payload = payload })

unfoldable pub write_ack : AckPacket → Output
unfolding Io.write
write_ack p = do Io.write (bytes32 p.time1); Io.write (bytes32 p.time2); Io.write p.payload

-- The implementations of the interface `Sequence`; the first has the supported version, the second
-- the client's first packet and the server's, the third the server's.
pub data Sequence : Type 0 where
  version_sequence : ℕ → Sequence
  client_ack_sequence : AckPacket → AckPacket → Sequence
  server_ack_sequence : AckPacket → Sequence

abbrev pub supported_rtmp_version : ℕ
supported_rtmp_version = 3

unfoldable pub new_version_sequence : Sequence
new_version_sequence = version_sequence supported_rtmp_version

-- `new(AckPacket)` with the given payload
abbrev pub fresh : List ℕ → AckPacket
fresh payload = record { time1 = 0; time2 = 0; payload = payload }

unfoldable pub new_client_ack_sequence : List ℕ → Sequence
new_client_ack_sequence random =
    client_ack_sequence (fresh (replicate payload_len 0)) (fresh random)

unfoldable pub read_version : ℕ → Input Sequence
read_version supported = do
  b ← read_one
  if b == supported then pure (version_sequence supported) else raise (unsupported_version b)

unfoldable pub read_client_ack : AckPacket → Input Sequence
unfolding read_ack
read_client_ack s1 = do c1 ← read_ack; pure (client_ack_sequence c1 s1)

-- bytes.Equal
unfoldable pub equal : List ℕ → List ℕ → Bool
equal [] [] = true
equal [] (b ∷ bs) = false
equal (a ∷ xs) [] = false
equal (a ∷ xs) (b ∷ bs) = a == b && equal xs bs

unfoldable pub read_server_ack : AckPacket → Input Sequence
unfolding read_ack equal
read_server_ack s1 = do
  c2 ← read_ack
  if equal s1.payload c2.payload then pure (server_ack_sequence s1) else raise mismatched_challenge

-- Sequence.Read returns its receiver. What a read that fails leaves in a packet is not modelled.
unfoldable pub read : Sequence → Input Sequence
unfolding read_version read_client_ack read_server_ack
read (version_sequence supported) = read_version supported
read (client_ack_sequence c1 s1) = read_client_ack s1
read (server_ack_sequence s1) = read_server_ack s1

unfoldable pub write_acks : AckPacket → AckPacket → Output
unfolding write_ack
write_acks c1 s1 = do
  write_ack s1
  write_ack (record { time1 = c1.time1; time2 = 0; payload = c1.payload })

unfoldable pub write_to : Sequence → Output
unfolding Io.write write_acks
write_to (version_sequence supported) = Io.write (supported ∷ [])
write_to (client_ack_sequence c1 s1) = write_acks c1 s1
write_to (server_ack_sequence s1) = pure tt

unfoldable pub next : List ℕ → Sequence → Option Sequence
unfolding new_client_ack_sequence
next random (version_sequence supported) = some (new_client_ack_sequence random)
next random (client_ack_sequence c1 s1) = some (server_ack_sequence s1)
next random (server_ack_sequence s1) = none

pub record Handshaker : Type 0 where
  pub rw : Conn
  pub current : Option Sequence

-- With, on a connection and an initial sequence that may be missing.
unfoldable pub with_param : Conn → Option Sequence → Handshaker
unfolding new_version_sequence
with_param conn (some s) = record { rw = conn; current = some s }
with_param conn none = record { rw = conn; current = some new_version_sequence }

-- One round of the loop: the read, the write, and the sequence that follows.
unfoldable pub exchange : List ℕ → Sequence → Exec Conn (Option Sequence)
unfolding read write_to next
exchange random s = do s' ← from_client (read s); to_client (write_to s'); pure (next random s')

abbrev pub continue_with :
    Handshaker
    → Result (Option Sequence) × Conn
    → (Handshaker → Option (Result (Unit {0}) × Handshaker))
    → Option (Result (Unit {0}) × Handshaker)
continue_with h (ok following, conn) loop = loop (record { rw = conn; current = following })
continue_with h (err e, conn) loop = some (err e, record h { rw = conn })
continue_with h (panicked, conn) loop = some (panicked, record h { rw = conn })

-- The loop of Handshake on fuel: `none` when that has run out. The sequence at which a round fails
-- stays the current one.
unfoldable pub handshake : ℕ → List ℕ → Handshaker → Option (Result (Unit {0}) × Handshaker)
unfolding exchange
handshake zero random h = elim h.current [ none ↦ some (ok tt, h) | some s ↦ none ]
handshake (suc fuel) random h = elim h.current [
  | none ↦ some (ok tt, h)
  | some s ↦ continue_with h (exchange random s h.rw) (handshake fuel random)
]
