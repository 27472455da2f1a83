-- ===== src/Cmd/Manager/Media.antt =====
-- The audio and the video that come through the loop of cmd/manager.go to the loop of cmd/data/.
use rtmp.Base.{
  ℕ, ◌≡◌, ◌≢◌, refl, ap, ◌∙◌, ◌&&◌, ◌||◌, Bool, ◌⊎◌, inl, inr, List, [], ◌∷◌, ◌++◌, arith, ◌==◌,
  if◌then◌else◌, All, control_missing, Result, ok,
}
use rtmp.Chunk.Chunk
use rtmp.Chunk.Chunk.{Chunk}
use rtmp.Cmd.Frame.{Frame, new_stream, recv, parse, marshal}
use rtmp.Cmd.Frame.Stream.{marshal-parse}
use rtmp.Cmd.Manager.{Channel, to_data_stream, new_manager, run_dispatch, given_to}
use rtmp.Cmd.Manager.Routing.{route, routed, all_routed, run_dispatch-all_routed}
use rtmp.Loop.{all_received, Sent, delivered, failed, running, listen}

-- The chunks that hold audio, video or data frames.
abbrev pub is_media : Chunk → Bool
is_media c =
    c.header.basic_header.stream_id == 4
    && (c.header.message_header.type_id == 0x08
        || c.header.message_header.type_id == 0x09
        || c.header.message_header.type_id == 0x12)

unfoldable pub media : List Chunk → List Chunk
media [] = []
media (c ∷ cs) = let rest = media cs in if is_media c then c ∷ rest else rest

given_to-routed :
    (c : Chunk) (out : List (Channel × Chunk))
    → given_to to_data_stream (routed c ++ out)
      ≡ (let rest = given_to to_data_stream out in if is_media c then c ∷ rest else rest)
unfolding given_to route
given_to-routed c out = ground arith

given_to-all_routed : (cs : List Chunk) → given_to to_data_stream (all_routed cs) ≡ media cs
unfolding media given_to
given_to-all_routed [] = refl
given_to-all_routed (c ∷ cs) =
    given_to-routed c (all_routed cs)
    ∙ ap (λ rest. if is_media c then c ∷ rest else rest) (given_to-all_routed cs)

abbrev pub IsAudioOrVideo : Chunk → Type 0
IsAudioOrVideo c = (Chunk.type_id c ≡ 0x08) ⊎ (Chunk.type_id c ≡ 0x09)

module _ {F : Type 0} (unmarshal : List ℕ → Result F) (amf_marshal : F → Result (List ℕ)) where
  -- What the data stream answers to a chunk.
  abbrev pub IsAnswer : Chunk → Sent (Frame F) → Type 0
  IsAnswer c (delivered f) = (c.contents ≢ []) × (marshal amf_marshal f ≡ ok c)
  IsAnswer c (failed e) = (c.contents ≡ []) × (e ≡ control_missing)

  -- The answers to some chunks, one for each, in their order.
  abbrev pub AreAnswers : List Chunk → List (Sent (Frame F)) → Type 0
  AreAnswers [] [] = Unit {0}
  AreAnswers [] (o ∷ os) = ⊥
  AreAnswers (c ∷ cs) [] = ⊥
  AreAnswers (c ∷ cs) (o ∷ os) = IsAnswer c o × AreAnswers cs os

  listen_media :
      (cs : List Chunk)
      → All IsAudioOrVideo cs
      → (os : List (Sent (Frame F))) × (listen (parse unmarshal) (all_received cs) ≡ (os, running))
        × AreAnswers cs os
  unfolding listen
  listen_media [] h = ([], refl, tt)
  listen_media (c ∷ cs) (h, hs) =
      let (os, e, answers) = listen_media cs hs in
      elim (marshal-parse unmarshal amf_marshal c h) [
        | inl (empty, p) ↦ (failed control_missing ∷ os, rw (p, e), ((empty, refl), answers))
        | inr (some_byte, f, p, back) ↦ (delivered f ∷ os, rw (p, e), ((some_byte, back), answers))
      ]

  -- Of the chunks that the loop of a manager reads, on whatever streams, those on stream 4 that hold
  -- audio, video or data frames reach the data stream, in their order. If there is no data frame among
  -- them, the data stream answers each: one without a byte by the error of a missing control byte, any
  -- other by a frame that is marshalled to the same chunk; and its loop goes on.
  pub frames_received :
      (manage : Bool) (cs : List Chunk)
      → All IsAudioOrVideo (media cs)
      → (os : List (Sent (Frame F))) × (recv (new_stream unmarshal) (
            all_received
              (given_to to_data_stream (run_dispatch manage (all_received cs) new_manager).sent))
          ≡ (os, running))
        × AreAnswers (media cs) os
  unfolding recv new_stream
  frames_received manage cs h =
      let (os, e, answers) = listen_media (media cs) h in
      (
        os,
        ap (λ l. listen (parse unmarshal) (all_received (given_to to_data_stream l)))
              (run_dispatch-all_routed manage cs)
            ∙ ap (λ l. listen (parse unmarshal) (all_received l)) (given_to-all_routed cs)
            ∙ e,
        answers,
      )
