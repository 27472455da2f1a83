-- ===== src/Cmd/Conn.antt =====
-- cmd/conn/: the parser of connection commands, the chunker of responses and the net connection.
-- What the AMF library does is a parameter: `decode` is amf0.Decode, `unmarshal` reads the fields of
-- a command, `amf_marshal` gives the bytes of a response.
pub mod Exchange
pub mod Names
pub mod Commands
use rtmp.Base.{
  ℕ, ◌%◌, ◌^◌, false, Option, none, some, List, [], ◌∷◌, if◌then◌else◌, length, unknown_command,
  wrong_amf_header, Result, ok, err, panicked, pure, raise, ◌>>=◌,
}
use rtmp.Io.{Input}
use rtmp.Chunk.Chunk.{Chunk}
use Prim.Native.String.{String}
use text.Mathlib.Text
use rtmp.Loop.{Signal, Listener, new_listener, run_listener}
use rtmp.Chunk.Writer
use rtmp.Chunk.Writer.{DefaultWriter}

-- The structs that implement `Receivable`; `DefaultParser` has a factory for all but one of them.
pub data Command : Type 0 where
  connect_command create_stream_command release_command : Command
  fc_publish_command fc_unpublish_command get_stream_length : Command

-- A struct of the type, with the fields that were unmarshalled.
pub record Receivable {ℓ} (F : Type ℓ) : Type ℓ where
  pub command : Command
  pub fields : F

-- What amf0.Decode returns: an *amf0.String, or a value of another type.
pub data AmfValue : Type 0 where
  amf_string : String → AmfValue
  amf_other : AmfValue

-- `p.typs[name]`
unfoldable pub find_factory {ℓ} : {K : Type ℓ} → List (String × K) → String → Option K
find_factory [] name = none
find_factory ((key, k) ∷ typs) name =
    if (Text.◌==◌ key name) then some k else find_factory typs name

abbrev pub default_typs : List (String × Command)
default_typs =
    ("connect", connect_command)
    ∷ ("createStream", create_stream_command)
    ∷ ("releaseStream", release_command)
    ∷ ("FCPublish", fc_publish_command)
    ∷ ("getStreamLength", get_stream_length)
    ∷ []

abbrev pub chunk_stream_id : ℕ
chunk_stream_id = 3

-- A factory makes a struct of a type.
pub record SimpleParser : Type 0 where
  pub typs : List (String × Command)

unfoldable pub new_parser : List (String × Command) → SimpleParser
new_parser typs = record { typs = typs }

unfoldable pub default_parser : SimpleParser
unfolding new_parser
default_parser = new_parser default_typs

pub data Response {ℓ} (F : Type ℓ) : Type ℓ where
  create_stream_response : String → F → Response F
  connect_response : String → F → Response F

abbrev pub successful_response_type : String
successful_response_type = "_result"

-- The assignment of `Marshal` to its receiver.
unfoldable pub as_result {ℓ} : {F : Type ℓ} → Response F → Response F
as_result (create_stream_response t f) = create_stream_response successful_response_type f
as_result (connect_response t f) = connect_response successful_response_type f

pub record DefaultChunker : Type 0 where
  pub stream_id : ℕ

unfoldable pub new_chunker : ℕ → DefaultChunker
new_chunker id = record { stream_id = id }

-- The channel of incoming chunks is what its loop reads; `listener` has its own channels.
pub record NetConn (F : Type 0) : Type 0 where
  pub parser : SimpleParser
  pub writer : DefaultWriter
  pub chunker : DefaultChunker
  pub listener : Listener (Receivable F)

unfoldable pub new_net_connection : {F : Type 0} → DefaultWriter → NetConn F
unfolding default_parser new_chunker
new_net_connection w = record {
  parser = default_parser;
  writer = w;
  chunker = new_chunker chunk_stream_id;
  listener = new_listener;
}

unfoldable pub response_chunk : List ℕ → Chunk
response_chunk bytes = record {
  header = record {
    basic_header = record { format_id = 0; stream_id = chunk_stream_id };
    message_header = record {
      format_id = 0;
      timestamp = 0;
      timestamp_delta = false;
      length = length bytes % 2 ^ 32;
      type_id = 0x14;
      stream_id = 0;
    };
    extended_timestamp = record { delta = 0 };
  };
  contents = bytes;
}

abbrev pub response_result : Result (List ℕ) → Result Chunk
response_result (ok bytes) = ok (response_chunk bytes)
response_result (err e) = err e
response_result panicked = panicked

abbrev pub send_chunk : Result Chunk → DefaultWriter → Option (Result (Unit {0}) × DefaultWriter)
send_chunk (ok c) w = Writer.write c w
send_chunk (err e) w = some (err e, w)
send_chunk panicked w = some (panicked, w)

module _ {F : Type 0} (amf_marshal : Response F → Result (List ℕ)) where
  unfoldable pub marshal : Response F → Result (List ℕ)
  unfolding as_result
  marshal r = amf_marshal (as_result r)

  -- DefaultChunker.Chunk: the stream ID of the chunker is not looked at.
  unfoldable pub chunk : DefaultChunker → Response F → Result Chunk
  unfolding marshal response_chunk
  chunk c r = response_result (marshal r)

  unfoldable pub send :
      DefaultChunker → Response F → DefaultWriter → Option (Result (Unit {0}) × DefaultWriter)
  unfolding chunk Writer.write
  send c r w = send_chunk (chunk c r) w

module _ {F G : Type 0} (amf_marshal : Response G → Result (List ℕ)) where
  abbrev with_writer :
      NetConn F
      → Option (Result (Unit {0}) × DefaultWriter)
      → Option (Result (Unit {0}) × NetConn F)
  with_writer n none = none
  with_writer n (some (result, w)) = some (result, record n { writer = w })

  -- NetConn.Send
  unfoldable pub send_response : Response G → NetConn F → Option (Result (Unit {0}) × NetConn F)
  unfolding send
  send_response r n = with_writer n (send amf_marshal n.chunker r n.writer)

module _ {F : Type 0} (decode : Input AmfValue) (unmarshal : Command → Input F) where
  abbrev pub parse_command : String → Option Command → Input (Receivable F)
  parse_command name none = raise (unknown_command name)
  parse_command name (some k) = do
    fields ← unmarshal k
    pure (record { command = k; fields = fields })

  -- SimpleParser.Parse
  unfoldable pub parse : SimpleParser → String → Input (Receivable F)
  unfolding find_factory
  parse p name = parse_command name (find_factory p.typs name)

  abbrev pub parse_named : SimpleParser → AmfValue → Input (Receivable F)
  parse_named p (amf_string name) = parse p name
  parse_named p amf_other = raise wrong_amf_header

  -- What Listen does with a chunk.
  unfoldable pub receive : SimpleParser → Chunk → Result (Receivable F)
  unfolding parse
  receive p c = ((decode >>= parse_named p) c.contents).0

  -- NetConn.Listen, which closes none of its channels.
  unfoldable pub listen_chunks : List (Signal Chunk) → NetConn F → NetConn F
  unfolding run_listener receive
  listen_chunks signals n = record n {
    listener = run_listener false (receive n.parser) signals n.listener;
  }
