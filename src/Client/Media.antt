-- ===== src/Client/Media.antt =====
-- The audio and the video that a client of client/client.go gets.
use rtmp.Base.{
  ℕ, zero, suc, ◌≤◌, ◌<◌, ◌≡◌, ◌≢◌, refl, sym, ap, ◌∙◌, Bool, false, inl, inr, some, List, [], ◌∷◌,
  ◌++◌, map, arith, ◌==◌, if◌then◌else◌, Bool-cases, ==_refl, ==_iff, ne→==, equal-cases, All,
  Result, ok, ok-injective,
}
use mathlib.Core.Path.{subst}
use mathlib.Core.Option.{some-injective}
use native.Mathlib.Decide.{dec_le}
use rtmp.Chunk.Chunk
use rtmp.Chunk.Chunk.{Chunk}
use rtmp.Chunk.Parser
use rtmp.Chunk.Parser.{Parser}
use rtmp.Chunk.Parser.Links.{queue}
use rtmp.Chunk.Parser.Routing.{of_stream}
use rtmp.Chunk.MultiStream.{MultiStream, receiving, Reach}
use rtmp.Chunk.MultiStream.Delivery.{Inv, sent_by, kept_receiving, Reach-Inv}
use rtmp.Chunk.RoundTrip.Single.{IsSendable}
use rtmp.Chunk.RoundTrip.Sequence.{wires, total_rounds}
use rtmp.Cmd.Manager.{to_data_stream, new_manager, run_dispatch, given_to}
use rtmp.Cmd.Manager.Media.{is_media, media, IsAudioOrVideo, AreAnswers, frames_received}
use rtmp.Cmd.Frame.{Frame, new_stream, recv}
use rtmp.Loop.{all_received, Sent, running}
use rtmp.Handshake.{AckPacket}
use rtmp.Handshake.Exchange.{IsPacket, ack_bytes, conn}
use rtmp.Client.{Client, new, handshake, receive_rounds}
use rtmp.Client.Receiving.{receives, IsReceived}
use rtmp.Chunk.Parser.Receivers.{selecting}

-- The stream of each goroutine of the MultiStream that New makes.
abbrev pub net_id : ℕ → ℕ
net_id zero = 3
net_id (suc zero) = 4
net_id (suc (suc zero)) = 5
net_id (suc (suc (suc n))) = 8

abbrev pub IsOn : ℕ → Chunk → Type 0
IsOn id c = Chunk.stream_id c ≡ id

-- What the goroutines send comes of their streams.
abbrev FromStreams : List (ℕ × Chunk) → Type 0
FromStreams out = (i : ℕ) → All (IsOn (net_id i)) (sent_by i out)

net_id-one : (i : ℕ) → 1 ≢ i → net_id i ≢ 4
net_id-one zero ne e = absurd (omega arith)
net_id-one (suc zero) ne e = absurd (ne refl)
net_id-one (suc (suc zero)) ne e = absurd (omega arith)
net_id-one (suc (suc (suc n))) ne e = absurd (omega arith)

is_media_other : (id : ℕ) (c : Chunk) → IsOn id c → id ≢ 4 → is_media c ≡ false
unfolding Chunk.stream_id
is_media_other id c on ne = rw (on, ne→== id 4 ne)

FromStreams-tail :
    (j : ℕ) (c : Chunk) (out : List (ℕ × Chunk))
    → FromStreams ((j, c) ∷ out)
    → IsOn (net_id j) c × FromStreams out
unfolding sent_by
FromStreams-tail j c out h = (
  (subst (λ b. All (IsOn (net_id j)) (if b then c ∷ sent_by j out else sent_by j out)) (==_refl j)
      (h j)).0,
  λ i. elim (Bool-cases (i == j)) [ inl e ↦ (rw e at (h i)).1 | inr e ↦ rw e at (h i) ],
)

-- Media are on stream 4 only, so the order of the other streams' chunks has no part in theirs.
media-sent_by :
    (k : ℕ) (out : List (ℕ × Chunk))
    → ((i : ℕ) → k ≢ i → net_id i ≢ 4)
    → FromStreams out
    → media (map (λ p. p.1) out) ≡ media (sent_by k out)
unfolding media sent_by
media-sent_by k [] only h = refl
media-sent_by k ((j, c) ∷ out) only h =
    let (on, rest) = FromStreams-tail j c out h in
    let more = media-sent_by k out only rest in
    elim (equal-cases k j) [
      | inl same ↦ rw ((==_iff k j).1 same) (ap (λ l. if is_media c then c ∷ l else l) more)
      | inr other ↦ rw (ne→== k j other, is_media_other (net_id j) c on (only j other)) more
    ]

of_stream-IsOn : (id : ℕ) (cs : List Chunk) → All (IsOn id) (of_stream id (map Parser.chunk cs))
unfolding of_stream
of_stream-IsOn id [] = tt
of_stream-IsOn id (c ∷ cs) = elim (equal-cases (Chunk.stream_id c) id) [
  | inl same ↦ rw ((==_iff (Chunk.stream_id c) id).1 same) (same, of_stream-IsOn id cs)
  | inr other ↦ rw (ne→== (Chunk.stream_id c) id other) (of_stream-IsOn id cs)
]

media-of_stream : (cs : List Chunk) → media (of_stream 4 (map Parser.chunk cs)) ≡ media cs
unfolding of_stream media
media-of_stream [] = refl
media-of_stream (c ∷ cs) = elim (equal-cases (Chunk.stream_id c) 4) [
  | inl same ↦
      rw ((==_iff (Chunk.stream_id c) 4).1 same)
        (ap (λ rest. if is_media c then c ∷ rest else rest) (media-of_stream cs))
  | inr other ↦
      rw (ne→== (Chunk.stream_id c) 4 other, is_media_other (Chunk.stream_id c) c refl other)
        (media-of_stream cs)
]

-- Two runs of a client with the same input are one.
module _ (random bs : List ℕ) (listening : ℕ → Bool) (n : ℕ) (c c' d d' : Client) where
  client_eq :
      handshake 3 random (new (conn bs [])) ≡ some (ok tt, c)
      → handshake 3 random (new (conn bs [])) ≡ some (ok tt, d)
      → receive_rounds listening n c ≡ (some (ok selecting), c')
      → receive_rounds listening n d ≡ (some (ok selecting), d')
      → c' ≡ d'
  client_eq shaken shaken' read read' =
      let first = (ok-injective (some-injective _ _ (sym shaken ∙ shaken'))).1 in
      ap (λ q. q.1) (sym read ∙ ap (receive_rounds listening n) first ∙ read')

-- What the goroutines of a MultiStream have sent, once they wait for more.
module _ (m : MultiStream) (inv : Inv m) (p : Parser) (cs : List Chunk)
    (fed : (i : ℕ)
      → i < m.count
      → ((m.feeder i).phase ≡ receiving) × ((m.feeder i).given ≡ queue p (net_id i)))
    (queues : (id : ℕ) → queue p id ≡ of_stream id (map Parser.chunk cs)) where
  sent_by-queue :
      (i : ℕ) → i < m.count → sent_by i m.out ≡ of_stream (net_id i) (map Parser.chunk cs)
  sent_by-queue i below =
      let (phase, given) = fed i below in kept_receiving m i inv phase ∙ given ∙ queues (net_id i)

  sent_by_none : (i : ℕ) → m.count ≤ i → sent_by i m.out ≡ []
  sent_by_none i above =
      let unborn = inv.unborn i above in
      kept_receiving m i inv (ap (λ f. f.phase) unborn) ∙ ap (λ f. f.given) unborn

  out-FromStreams : FromStreams m.out
  out-FromStreams i = elim (dec_le m.count i) [
    | yes above ↦ subst (All (IsOn (net_id i))) (sym (sent_by_none i above)) tt
    | no below ↦
        subst (All (IsOn (net_id i))) (sym (sent_by-queue i (omega arith)))
          (of_stream-IsOn (net_id i) cs)
  ]

  media-out : 1 < m.count → media (map (λ q. q.1) m.out) ≡ media cs
  media-out two =
      media-sent_by 1 m.out net_id-one out-FromStreams
      ∙ ap media (sent_by-queue 1 two)
      ∙ media-of_stream cs

module _ {F : Type 0} (unmarshal : List ℕ → Result F) (amf_marshal : F → Result (List ℕ)) where
  -- Take a client whose peer sends version 3, two packets, the second with the random payload, and then
  -- sendable chunks, written with the size 128, on streams that the client has handed out and whose
  -- receivers receive, of which those on stream 4 that hold media are audio or video; its handshake has
  -- succeeded, its reader has made a round for each piece and its parser waits in its `select`; and the
  -- goroutines of its MultiStream, which may take their steps in any order, have passed on all that the
  -- streams 3, 4, 5 and 8 have got. The manager then sends those chunks of audio and video to the data
  -- stream in the order in which the peer has sent them, and the data stream answers each: one without a
  -- byte by the error of a missing control byte, any other by a frame that is marshalled to the same
  -- chunk; its loop goes on.
  pub media_received :
      (manage : Bool) (random : List ℕ) (cs : List Chunk) (c1 c2 : AckPacket) (listening : ℕ → Bool)
      (c c' : Client) (m : MultiStream)
      → IsPacket c1
      → IsPacket c2
      → c2.payload ≡ random
      → All (IsSendable 128) cs
      → All (IsReceived listening) cs
      → All IsAudioOrVideo (media cs)
      → handshake 3 random (new (conn (3 ∷ (ack_bytes c1 ++ (ack_bytes c2 ++ wires 128 cs))) []))
        ≡ some (ok tt, c)
      → receive_rounds listening (total_rounds 128 cs) c ≡ (some (ok selecting), c')
      → Reach m
      → ((i : ℕ)
          → i < m.count
          → ((m.feeder i).phase ≡ receiving) × ((m.feeder i).given ≡ queue c'.chunks (net_id i)))
      → m.count ≡ 4
      → (os : List (Sent (Frame F))) × (recv (new_stream unmarshal) (
            all_received (
              given_to to_data_stream
                (run_dispatch manage (all_received (map (λ p. p.1) m.out)) new_manager).sent))
          ≡ (os, running))
        × AreAnswers unmarshal amf_marshal (media cs) os
  media_received manage random cs c1 c2 listening c c' m h1 h2 same vs received media_only shaken
        read reach fed four =
      let (d, d', shaken', sent, is, at, read', queues, errs, done) =
        receives random cs c1 c2 listening h1 h2 same vs received in
      let run_is =
        client_eq random _ listening (total_rounds 128 cs) c c' d d' shaken shaken' read read' in
      let all_media =
        media-out m (Reach-Inv reach) c'.chunks cs fed
          (λ id. ap (λ k. queue k.chunks id) run_is ∙ queues id) (omega (arith, four)) in
      let (os, answered, answers) =
        frames_received unmarshal amf_marshal manage (map (λ p. p.1) m.out)
          (subst (All IsAudioOrVideo) (sym all_media) media_only) in
      (os, answered, subst (λ l. AreAnswers unmarshal amf_marshal l os) all_media answers)
