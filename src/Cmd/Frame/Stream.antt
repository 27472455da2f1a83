-- ===== src/Cmd/Frame/Stream.antt =====
-- Frames of cmd/data/ that are parsed and marshalled again.
use rtmp.Base.{
  ℕ, ◌≡◌, ◌≢◌, refl, ap, ◌⊎◌, inl, inr, List, [], ◌∷◌, arith, control_missing, Result, ok, err,
}
use rtmp.Base.FinMap
use rtmp.Base.FinMap.{FinMap, map_laws, get-put, get-remove}
use rtmp.Chunk.Header.{Header}
use rtmp.Chunk.Chunk
use rtmp.Chunk.Chunk.{Chunk}
use rtmp.Cmd.Frame
use rtmp.Cmd.Frame.{Frame, Body, audio, video, data_frame, parse, marshal, data_frame_chunk}

read_body-cons :
    (h : Header) (b : ℕ) (bs : List ℕ)
    → Frame.read_body (record { header = h; contents = b ∷ bs })
      ≡ ok (record { header = h; bytes = b ∷ bs })
unfolding Frame.read_body
read_body-cons h b bs = ground arith

module _ {F : Type 0} (unmarshal : List ℕ → Result F) (amf_marshal : F → Result (List ℕ)) where
  marshal-parse_parts :
      (h : Header) (bs : List ℕ)
      → (h.message_header.type_id ≡ 0x08) ⊎ (h.message_header.type_id ≡ 0x09)
      → ((bs ≡ []) × (parse unmarshal (record { header = h; contents = bs }) ≡ err control_missing))
        ⊎ ((bs ≢ [])
            × (f : Frame F) × (parse unmarshal (record { header = h; contents = bs }) ≡ ok f)
            × (marshal amf_marshal f ≡ ok (record { header = h; contents = bs })))
  unfolding parse marshal Chunk.type_id Frame.default_parser FinMap.get FinMap.put FinMap.remove
      Frame.read_audio Frame.read_video Frame.read_body Frame.marshal_body
  marshal-parse_parts h [] (inl e) = inl (refl, rw e)
  marshal-parse_parts h [] (inr e) = inl (refl, rw e)
  marshal-parse_parts h (b ∷ bs) (inl e) = inr (
    λ empty. cc empty,
    audio (record { header = h; bytes = b ∷ bs }),
    simp e (ap (Frame.kept audio) (read_body-cons h b bs)),
    refl,
  )
  marshal-parse_parts h (b ∷ bs) (inr e) = inr (
    λ empty. cc empty,
    video (record { header = h; bytes = b ∷ bs }),
    simp e (ap (Frame.kept video) (read_body-cons h b bs)),
    refl,
  )

  -- A chunk of type 8 or 9 that has no byte has no control byte, which is an error; any other one of
  -- these types is parsed to a frame that is marshalled to the same chunk.
  pub marshal-parse :
      (c : Chunk)
      → (Chunk.type_id c ≡ 0x08) ⊎ (Chunk.type_id c ≡ 0x09)
      → ((c.contents ≡ []) × (parse unmarshal c ≡ err control_missing))
        ⊎ ((c.contents ≢ [])
            × (f : Frame F) × (parse unmarshal c ≡ ok f)
            × (marshal amf_marshal f ≡ ok c))
  unfolding Chunk.type_id
  marshal-parse c h = marshal-parse_parts c.header c.contents h

module _ {F : Type 0} (unmarshal : List ℕ → Result F) (amf_marshal : F → Result (List ℕ)) where
  -- A data frame that the AMF library reads back from its bytes is parsed from the chunk it is
  -- marshalled to.
  pub parse-marshal :
      (f : F) (m : List ℕ)
      → amf_marshal f ≡ ok m
      → unmarshal m ≡ ok f
      → (c : Chunk) × (marshal amf_marshal (data_frame f) ≡ ok c)
        × (parse unmarshal c ≡ ok (data_frame f))
  unfolding parse marshal Frame.default_parser FinMap.get FinMap.put FinMap.remove
      Frame.read_data_frame data_frame_chunk Chunk.type_id
  parse-marshal f m e back = (data_frame_chunk m, rw e, rw back)
