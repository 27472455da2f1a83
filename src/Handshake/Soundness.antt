-- ===== src/Handshake/Soundness.antt =====
-- What a handshake that succeeds has read and written: the converse of its exchange.
use rtmp.Base.{
  ℕ, ◌≡◌, sym, ap, ◌∙◌, inl, inr, Option, none, some, List, [], ◌∷◌, ◌++◌, Bool-cases, All, ok,
  ok-injective,
}
use rtmp.Io.{split}
use rtmp.Handshake.{
  AckPacket, Sequence, server_ack_sequence, new_version_sequence, new_client_ack_sequence, fresh,
  equal, Handshaker, with_param, exchange, handshake,
}
use rtmp.Handshake.Exchange.{
  ack_bytes, IsPacket, answers, conn, verdict, equal_sound, exchange_version, exchange_client,
  exchange_server,
}
use mathlib.Core.Path.{subst, ap₂}
use mathlib.Core.Option.{some-injective}
use rtmp.Io.Bytes.{IsByte}
use rtmp.Handshake.Reads.{
  read_ack_inv, handshake_inv, exchange_inv, read_version_inv, read_client_ack_inv,
  read_server_ack_inv,
}

module _ (random out : List ℕ) where
  abbrev at : List ℕ → Option Sequence → Handshaker
  at bs s = record { rw = conn bs out; current = s }

  -- From the last sequence on: one more packet, whose payload is the random one.
  last_round :
      (bs : List ℕ) (h' : Handshaker)
      → All IsByte bs
      → handshake 1 random (at bs (some (server_ack_sequence (fresh random)))) ≡ some (ok tt, h')
      → (c2 : AckPacket) × (rest : List ℕ) × (bs ≡ ack_bytes c2 ++ rest)
        × IsPacket c2
        × (c2.payload ≡ random)
        × (h' ≡ at rest none)
  unfolding handshake
  last_round bs h' hs e =
      let server = server_ack_sequence (fresh random) in
      let (f, k, x, more) = handshake_inv 0 random server (conn bs out) h' e in
      let (s', r, read) = exchange_inv random server (conn bs out) k f x in
      let (c2, rest, packet) = read_server_ack_inv (fresh random) bs r s' read in
      let (front, fits, left_bytes) = read_ack_inv bs rest c2 hs packet in
      let x' =
        sym (exchange_server random rest out c2 fits)
        ∙ ap (λ b. exchange random (server_ack_sequence (fresh random)) (conn b out)) (sym front)
        ∙ x in
      elim (Bool-cases (equal random c2.payload)) [
        | inl same ↦
            let (none_left, after) =
              ok-injective (ap (λ b. (verdict b, conn rest out)) (sym same) ∙ x') in
            (
              c2,
              rest,
              front,
              fits,
              sym (equal_sound random c2.payload same),
              sym (
                  ap (λ q. q.1)
                    (some-injective _ _ (
                      ap₂ (λ j g. handshake 0 random (record { rw = j; current = g })) after
                        none_left
                      ∙ more))),
            )
        | inr other ↦
            absurd (cc (ap (λ q. q.0) (ap (λ b. (verdict b, conn rest out)) (sym other) ∙ x')))
      ]

module _ (random : List ℕ) where
  -- From the second sequence on: two packets, the second with the random payload.
  last_rounds :
      (bs out : List ℕ) (h' : Handshaker)
      → All IsByte bs
      → handshake 2 random
          (record { rw = conn bs out; current = some (new_client_ack_sequence random) })
        ≡ some (ok tt, h')
      → (c1 c2 : AckPacket) × (rest : List ℕ) × (bs ≡ ack_bytes c1 ++ (ack_bytes c2 ++ rest))
        × IsPacket c1
        × IsPacket c2
        × (c2.payload ≡ random)
        × (h' ≡ record { rw = conn rest (out ++ answers random c1); current = none })
  last_rounds bs out h' hs e =
      let client = new_client_ack_sequence random in
      let (f, k, x, more) = handshake_inv 1 random client (conn bs out) h' e in
      let (s', r, read) = exchange_inv random client (conn bs out) k f x in
      let (c1, rest, packet) = read_client_ack_inv random bs r s' read in
      let (front, fits, tail_bytes) = read_ack_inv bs rest c1 hs packet in
      let (next_is, after) = ok-injective (
        sym (exchange_client random rest out c1 fits)
        ∙ ap (λ b. exchange random client (conn b out)) (sym front)
        ∙ x) in
      let (c2, last, split, fits2, matched, done) =
        last_round random (out ++ answers random c1) rest h' tail_bytes
          (ap₂ (λ j g. handshake 1 random (record { rw = j; current = g })) after next_is ∙ more) in
      (c1, c2, last, front ∙ ap (λ t. ack_bytes c1 ++ t) split, fits, fits2, matched, done)

  -- A handshake that succeeds, on any bytes that the client sends, has read version 3 and two packets,
  -- of which the second has the random payload; it has sent the version, the packet with that
  -- payload and the one with the time and the payload of the client's first, and has left what
  -- follows.
  pub handshake_sound :
      (bs out : List ℕ) (h' : Handshaker)
      → All IsByte bs
      → handshake 3 random (with_param (conn bs out) none) ≡ some (ok tt, h')
      → (c1 c2 : AckPacket) × (rest : List ℕ) × (bs ≡ 3 ∷ (ack_bytes c1 ++ (ack_bytes c2 ++ rest)))
        × IsPacket c1
        × IsPacket c2
        × (c2.payload ≡ random)
        × (h' ≡ record { rw = conn rest ((out ++ 3 ∷ []) ++ answers random c1); current = none })
  unfolding with_param
  handshake_sound bs out h' hs e =
      let (f, k, x, more) = handshake_inv 2 random new_version_sequence (conn bs out) h' e in
      let (s', r, read) = exchange_inv random new_version_sequence (conn bs out) k f x in
      let (tail, split) = read_version_inv bs s' r read in
      let (next_is, after) = ok-injective (
        sym (exchange_version random tail out)
        ∙ ap (λ b. exchange random new_version_sequence (conn b out)) (sym split)
        ∙ x) in
      let (c1, c2, rest, front, fits1, fits2, matched, done) =
        last_rounds tail (out ++ 3 ∷ []) h' (subst (All IsByte) split hs).1
          (ap₂ (λ j g. handshake 2 random (record { rw = j; current = g })) after next_is ∙ more) in
      (c1, c2, rest, split ∙ ap (λ t. 3 ∷ t) front, fits1, fits2, matched, done)
