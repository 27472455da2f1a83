-- ===== src/Cmd/NetStream.antt =====
-- cmd/stream/: the parser of stream commands, the status messages and the net stream. What the AMF
-- library does is a parameter: `read_header` and `unmarshal` read a command's header and fields,
-- `marshal_status` gives the bytes of a status and `on_status_header` those of its header.
pub mod Commands
use rtmp.Base.{
  ℕ, ◌%◌, ◌^◌, true, false, Option, none, some, List, [], ◌∷◌, ◌++◌, length, unknown_command,
  Result, ok, err, panicked, pure, raise, ◌>>=◌,
}
use rtmp.Io.{Input}
use rtmp.Chunk.Chunk.{Chunk}
use Prim.Native.String.{String}
use rtmp.Cmd.Conn.{find_factory}
use rtmp.Loop.{Signal, Listener, new_listener, run_listener}
use rtmp.Chunk.Writer
use rtmp.Chunk.Writer.{DefaultWriter}

-- The types of commands that `DefaultParser` has a factory for.
pub data StreamCommand : Type 0 where
  play play2 delete_stream receive_audio receive_video publish seek pause : StreamCommand

-- A struct of the type, with the fields that were unmarshalled.
pub record Received {ℓ} (F : Type ℓ) : Type ℓ where
  pub command : StreamCommand
  pub fields : F

-- CommandHeader, of which the parser reads the name only.
pub record CommandHeader {ℓ} (F : Type ℓ) : Type ℓ where
  pub name : String
  pub others : F

abbrev pub default_typs : List (String × StreamCommand)
default_typs =
    ("play", play)
    ∷ ("play2", play2)
    ∷ ("deleteStream", delete_stream)
    ∷ ("receiveAudio", receive_audio)
    ∷ ("receiveVideo", receive_video)
    ∷ ("publish", publish)
    ∷ ("seek", seek)
    ∷ ("pause", pause)
    ∷ []

-- A factory makes a struct of a type.
pub record SimpleParser : Type 0 where
  pub typs : List (String × StreamCommand)

unfoldable pub new_parser : List (String × StreamCommand) → SimpleParser
new_parser typs = record { typs = typs }

unfoldable pub default_parser : SimpleParser
unfolding new_parser
default_parser = new_parser default_typs

-- The channel of incoming chunks is what its loop reads; `listener` has its own channels.
pub record NetStream (F : Type 0) : Type 0 where
  pub parser : SimpleParser
  pub writer : DefaultWriter
  pub listener : Listener (Received F)

unfoldable pub new : {F : Type 0} → DefaultWriter → NetStream F
unfolding default_parser
new w = record { parser = default_parser; writer = w; listener = new_listener }

module _ {F : Type 0} (read_header : Input (CommandHeader F))
    (unmarshal : StreamCommand → Input F) where
  abbrev pub parse_command : String → Option StreamCommand → Input (Received F)
  parse_command name none = raise (unknown_command name)
  parse_command name (some k) = do
    fields ← unmarshal k
    pure (record { command = k; fields = fields })

  -- SimpleParser.Parse
  unfoldable pub parse : SimpleParser → Input (Received F)
  unfolding find_factory
  parse p = do meta ← read_header; parse_command meta.name (find_factory p.typs meta.name)

  -- What Listen does with a chunk.
  unfoldable pub receive : SimpleParser → Chunk → Result (Received F)
  unfolding parse
  receive p c = (parse p c.contents).0

  -- NetStream.Listen, which closes its channels when it returns.
  unfoldable pub listen_chunks : List (Signal Chunk) → NetStream F → NetStream F
  unfolding run_listener receive
  listen_chunks signals n = record n {
    listener = run_listener true (receive n.parser) signals n.listener;
  }

abbrev pub on_status_chunk_stream_id : ℕ
on_status_chunk_stream_id = 5

abbrev pub on_status_message_stream_id : ℕ
on_status_message_stream_id = 1

abbrev pub amf0_cmd_type_id : ℕ
amf0_cmd_type_id = 0x14

unfoldable pub status_chunk : List ℕ → Chunk
status_chunk payload = record {
  header = record {
    basic_header = record { format_id = 0; stream_id = on_status_chunk_stream_id };
    message_header = record {
      format_id = 0;
      timestamp = 0;
      timestamp_delta = false;
      length = length payload % 2 ^ 32;
      type_id = amf0_cmd_type_id;
      stream_id = on_status_message_stream_id;
    };
    extended_timestamp = record { delta = 0 };
  };
  contents = payload;
}

abbrev status_result : List ℕ → Result (List ℕ) → Result Chunk
status_result head (ok body) = ok (status_chunk (head ++ body))
status_result head (err e) = err e
status_result head panicked = panicked

abbrev send_chunk : Result Chunk → DefaultWriter → Option (Result (Unit {0}) × DefaultWriter)
send_chunk (ok c) w = Writer.write c w
send_chunk (err e) w = some (err e, w)
send_chunk panicked w = some (panicked, w)

module _ {S : Type 0} (on_status_header : List ℕ) (marshal_status : S → Result (List ℕ)) where
  -- Status.AsChunk
  unfoldable pub as_chunk : S → Result Chunk
  unfolding status_chunk
  as_chunk s = status_result on_status_header (marshal_status s)

  unfoldable pub write_status : S → DefaultWriter → Option (Result (Unit {0}) × DefaultWriter)
  unfolding as_chunk Writer.write
  write_status s w = send_chunk (as_chunk s) w

  abbrev with_writer :
      {F : Type 0}
      → NetStream F
      → Option (Result (Unit {0}) × DefaultWriter)
      → Option (Result (Unit {0}) × NetStream F)
  with_writer n none = none
  with_writer n (some (result, w)) = some (result, record n { writer = w })

  -- NetStream.WriteStatus
  unfoldable pub send_status :
      {F : Type 0} → S → NetStream F → Option (Result (Unit {0}) × NetStream F)
  unfolding write_status
  send_status s n = with_writer n (write_status s n.writer)
