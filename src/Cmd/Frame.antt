-- ===== src/Cmd/Frame.antt =====
-- cmd/data/: frames, their parser and the data stream. What the AMF library does with a data frame is
-- a parameter: `unmarshal` reads one from bytes, `marshal` gives its bytes.
pub mod Stream
use rtmp.Base.{
  ℕ, ◌%◌, ◌^◌, false, Option, none, some, List, [], ltb, if◌then◌else◌, length, drop,
  control_missing, unknown_type_id, Result, ok, err, panicked, index,
}
use rtmp.Base.FinMap
use rtmp.Base.FinMap.{FinMap}
use rtmp.Chunk.Header.{Header}
use rtmp.Chunk.Chunk
use rtmp.Chunk.Chunk.{Chunk}
use rtmp.Loop.{Signal, Sent, Ending, listen}
use rtmp.Chunk.Writer
use rtmp.Chunk.Writer.{DefaultWriter}

-- The struct `data` after `Read`; before it, the header is nil and there are no bytes.
pub record Body : Type 0 where
  pub header : Header
  pub bytes : List ℕ

-- The implementations of the interface `Data`.
pub data Frame {ℓ} (F : Type ℓ) : Type ℓ where
  audio : Body → Frame F
  video : Body → Frame F
  data_frame : F → Frame F

-- A data stream, by its parser; its writer is an argument of `write`.
pub record DataStream (F : Type 0) : Type 0 where
  pub parser : Chunk → Result (Frame F)

abbrev pub audio_type_id : ℕ
audio_type_id = 0x08

abbrev pub video_type_id : ℕ
video_type_id = 0x09

abbrev pub data_frame_type_id : ℕ
data_frame_type_id = 0x12

unfoldable pub read_body : Chunk → Result Body
read_body c =
    if ltb (length c.contents) 1
    then err control_missing
    else ok (record { header = c.header; bytes = c.contents })

unfoldable pub control : Body → Result ℕ
control d = index d.bytes 0

-- `d.data[1:]`
unfoldable pub payload : Body → Result (List ℕ)
payload d = if ltb (length d.bytes) 1 then panicked else ok (drop 1 d.bytes)

abbrev pub kept {ℓ} : {A B : Type ℓ} → (A → B) → Result A → Result B
kept f (ok a) = ok (f a)
kept f (err e) = err e
kept f panicked = panicked

unfoldable pub marshal_body : Body → Result Chunk
marshal_body d = ok (record { header = d.header; contents = d.bytes })

-- The chunk of a data frame that is marshalled to `m`.
unfoldable pub data_frame_chunk : List ℕ → Chunk
data_frame_chunk m = record {
  header = record {
    basic_header = record { format_id = 0; stream_id = 4 };
    message_header = record {
      format_id = 0;
      timestamp = 0;
      timestamp_delta = false;
      length = length m % 2 ^ 32;
      type_id = data_frame_type_id;
      stream_id = 1;
    };
    extended_timestamp = record { delta = 0 };
  };
  contents = m;
}

module _ {F : Type 0} (unmarshal : List ℕ → Result F) where
  -- The factories of `DefaultParser`, each with the `Read` of what it makes.
  unfoldable pub read_audio : Chunk → Result (Frame F)
  unfolding read_body
  read_audio c = kept audio (read_body c)

  unfoldable pub read_video : Chunk → Result (Frame F)
  unfolding read_body
  read_video c = kept video (read_body c)

  unfoldable pub read_data_frame : Chunk → Result (Frame F)
  read_data_frame c = kept data_frame (unmarshal c.contents)

  unfoldable pub default_parser : FinMap (Chunk → Result (Frame F))
  unfolding FinMap.put read_audio read_video read_data_frame
  default_parser =
      FinMap.put (FinMap.put (FinMap.put [] audio_type_id read_audio) video_type_id read_video)
        data_frame_type_id read_data_frame

  abbrev parse_with : Chunk → Option (Chunk → Result (Frame F)) → Result (Frame F)
  parse_with c none = err (unknown_type_id (Chunk.type_id c))
  parse_with c (some factory) = factory c

  unfoldable pub parse : Chunk → Result (Frame F)
  unfolding default_parser FinMap.get
  parse c = parse_with c (FinMap.get default_parser (Chunk.type_id c))

  -- The struct `Stream`, whose parser can be set; NewStream takes the default one.
  unfoldable pub new_stream : DataStream F
  unfolding parse
  new_stream = record { parser = parse }

module _ {F : Type 0} where
  unfoldable pub set_parser : (Chunk → Result (Frame F)) → DataStream F → DataStream F
  set_parser p s = record s { parser = p }

  -- Stream.Recv
  unfoldable pub recv : DataStream F → List (Signal Chunk) → List (Sent (Frame F)) × Ending
  unfolding listen
  recv s = listen s.parser

module _ {F : Type 0} (amf_marshal : F → Result (List ℕ)) where
  -- Data.Marshal
  unfoldable pub marshal : Frame F → Result Chunk
  unfolding marshal_body data_frame_chunk
  marshal (audio d) = marshal_body d
  marshal (video d) = marshal_body d
  marshal (data_frame f) = kept data_frame_chunk (amf_marshal f)

  abbrev write_chunk : Result Chunk → DefaultWriter → Option (Result (Unit {0}) × DefaultWriter)
  write_chunk (ok c) w = Writer.write c w
  write_chunk (err e) w = some (err e, w)
  write_chunk panicked w = some (panicked, w)

  -- Stream.Write
  unfoldable pub write : Frame F → DefaultWriter → Option (Result (Unit {0}) × DefaultWriter)
  unfolding marshal Writer.write
  write f w = write_chunk (marshal f) w
