-- ===== src/Cmd/NetStream/Commands.antt =====
-- What a net stream answers to the commands that the manager sends to it.
use rtmp.Base.{
  ℕ, ◌≡◌, ◌≢◌, refl, ap, ◌∙◌, Bool, true, false, ◌&&◌, ◌||◌, ◌==◌, none, some, List, [], ◌∷◌, ◌++◌,
  map, arith, All, if◌then◌else◌, Error, unknown_command, ok, err, proceed, pure, Option,
}
use Prim.Native.String.{String}
use rtmp.Io.{Input}
use rtmp.Chunk.Chunk.{Chunk}
use rtmp.Chunk.Writer.{DefaultWriter}
use rtmp.Loop.{
  Signal, closing, Sent, delivered, failed, running, returned, all_received, result_of,
  run_listener, new_listener, run_listener_answers, close, panics,
}
use rtmp.Cmd.Conn.{find_factory}
use rtmp.Cmd.Conn.Names.{find_factory-absent}
use rtmp.Cmd.NetStream
use rtmp.Cmd.NetStream.{
  StreamCommand, play, play2, delete_stream, receive_audio, receive_video, publish, seek, pause,
  Received, CommandHeader, new, receive, listen_chunks, default_typs, default_parser,
}
use rtmp.Cmd.Manager.{Channel, to_net_stream, new_manager, run_dispatch, given_to}
use rtmp.Cmd.Manager.Routing.{route, routed, all_routed, run_dispatch-all_routed}

-- The name of a command as a client sends it.
abbrev pub stream_command_name : StreamCommand → String
stream_command_name play = "play"
stream_command_name play2 = "play2"
stream_command_name delete_stream = "deleteStream"
stream_command_name receive_audio = "receiveAudio"
stream_command_name receive_video = "receiveVideo"
stream_command_name publish = "publish"
stream_command_name seek = "seek"
stream_command_name pause = "pause"

find_factory-stream_command_name :
    (k : StreamCommand) → find_factory default_typs (stream_command_name k) ≡ some k
unfolding find_factory
find_factory-stream_command_name play = refl
find_factory-stream_command_name play2 = refl
find_factory-stream_command_name delete_stream = refl
find_factory-stream_command_name receive_audio = refl
find_factory-stream_command_name receive_video = refl
find_factory-stream_command_name publish = refl
find_factory-stream_command_name seek = refl
find_factory-stream_command_name pause = refl

abbrev pub IsNoCommand : String → Type 0
IsNoCommand name = (k : StreamCommand) → name ≢ stream_command_name k

find_factory-no_command : (name : String) → IsNoCommand name → find_factory default_typs name ≡ none
find_factory-no_command name h = find_factory-absent default_typs name (
  h play,
  (
    h play2,
    (h delete_stream, (h receive_audio, (h receive_video, (h publish, (h seek, (h pause, tt)))))),
  ),
)

-- The chunks for the net stream: those of type 20 on stream 4, and on stream 8 with message stream 1.
abbrev pub is_for_stream : Chunk → Bool
is_for_stream c =
    c.header.message_header.type_id == 0x14
    && (c.header.basic_header.stream_id == 4
        || (c.header.basic_header.stream_id == 8 && c.header.message_header.stream_id == 1))

unfoldable pub for_stream : List Chunk → List Chunk
for_stream [] = []
for_stream (c ∷ cs) = let rest = for_stream cs in if is_for_stream c then c ∷ rest else rest

given_to-routed :
    (c : Chunk) (out : List (Channel × Chunk))
    → given_to to_net_stream (routed c ++ out)
      ≡ (let rest = given_to to_net_stream out in if is_for_stream c then c ∷ rest else rest)
unfolding given_to route
given_to-routed c out = ground arith

given_to-all_routed : (cs : List Chunk) → given_to to_net_stream (all_routed cs) ≡ for_stream cs
unfolding for_stream given_to
given_to-all_routed [] = refl
given_to-all_routed (c ∷ cs) =
    given_to-routed c (all_routed cs)
    ∙ ap (λ rest. if is_for_stream c then c ∷ rest else rest) (given_to-all_routed cs)

given_to-run_dispatch :
    (manage : Bool) (cs : List Chunk)
    → given_to to_net_stream (run_dispatch manage (all_received cs) new_manager).sent
      ≡ for_stream cs
given_to-run_dispatch manage cs =
    ap (given_to to_net_stream) (run_dispatch-all_routed manage cs) ∙ given_to-all_routed cs

-- What a chunk holds: a command with its fields, one whose fields are not read, the name of no
-- command, or what is no header.
pub data Request (F : Type 0) : Type 0 where
  a_command : StreamCommand → F → Request F
  bad_fields : StreamCommand → Error → Request F
  a_name : String → Request F
  no_header : Error → Request F

abbrev pub answer : {F : Type 0} → Request F → Sent (Received F)
answer (a_command k f) = delivered (record { command = k; fields = f })
answer (bad_fields k e) = failed e
answer (a_name name) = failed (unknown_command name)
answer (no_header e) = failed e

module _ {F : Type 0} (read_header : Input (CommandHeader F))
    (unmarshal : StreamCommand → Input F) where
  -- What the AMF library makes of the bytes of a chunk.
  abbrev pub Holds : Chunk → Request F → Type 0
  Holds c (a_command k f) =
      (s rest : List ℕ) × (others : F) × (read_header c.contents
        ≡ (ok (record { name = stream_command_name k; others = others }), s))
      × (unmarshal k s ≡ (ok f, rest))
  Holds c (bad_fields k e) =
      (s rest : List ℕ) × (others : F) × (read_header c.contents
        ≡ (ok (record { name = stream_command_name k; others = others }), s))
      × (unmarshal k s ≡ (err e, rest))
  Holds c (a_name name) =
      (s : List ℕ) × (others : F) × (read_header c.contents
        ≡ (ok (record { name = name; others = others }), s))
      × IsNoCommand name
  Holds c (no_header e) = (s : List ℕ) × (read_header c.contents ≡ (err e, s))

  receive_named :
      (c : Chunk) (name : String) (others : F) (s : List ℕ) (o : Option StreamCommand)
      → read_header c.contents ≡ (ok (record { name = name; others = others }), s)
      → find_factory default_typs name ≡ o
      → receive read_header unmarshal default_parser c
        ≡ (NetStream.parse_command read_header unmarshal name o s).0
  unfolding receive NetStream.parse default_parser NetStream.new_parser
  receive_named c name others s o e e' =
      ap
        (λ q.
          (proceed q (λ m.
            NetStream.parse_command read_header unmarshal m.name
              (find_factory default_typs m.name))).0)
        e
      ∙ ap (λ x. (NetStream.parse_command read_header unmarshal name x s).0) e'

  receive-answer :
      (c : Chunk) (r : Request F)
      → Holds c r
      → receive read_header unmarshal default_parser c ≡ result_of (answer r)
  receive-answer c (a_command k f) (s, rest, others, e, e') =
      receive_named c (stream_command_name k) others s (some k) e
        (find_factory-stream_command_name k)
      ∙ ap (λ q. (proceed q (λ g. pure (record { command = k; fields = g }))).0) e'
  receive-answer c (bad_fields k x) (s, rest, others, e, e') =
      receive_named c (stream_command_name k) others s (some k) e
        (find_factory-stream_command_name k)
      ∙ ap (λ q. (proceed q (λ g. pure (record { command = k; fields = g }))).0) e'
  receive-answer c (a_name name) (s, others, e, h) =
      receive_named c name others s none e (find_factory-no_command name h)
  receive-answer c (no_header x) (s, e) =
      unfold receive NetStream.parse in
      ap
        (λ q.
          (proceed q (λ m.
            NetStream.parse_command read_header unmarshal m.name
              (find_factory default_parser.typs m.name))).0)
        e

  All-answers :
      (ps : List (Chunk × Request F))
      → All (λ p. Holds p.0 p.1) ps
      → All (λ p. receive read_header unmarshal default_parser p.0 ≡ result_of (answer p.1)) ps
  All-answers [] h = tt
  All-answers (p ∷ ps) (h, hs) = (receive-answer p.0 p.1 h, All-answers ps hs)

  -- Let the chunks that the loop of a manager reads be any, of which those of type 20 on stream 4, and on
  -- stream 8 with message stream 1, hold some requests as the AMF library reads them. A new net stream
  -- that gets what the manager sends to it answers each of these requests in their order: a command is
  -- delivered with its fields, the rest is an error. Its loop then goes on. If it then reads the
  -- closer, it returns having sent the same, whatever comes after, with its channels closed, and one
  -- more call of Close panics.
  pub stream_requests_answered :
      (manage : Bool) (cs : List Chunk) (ps : List (Chunk × Request F)) (w : DefaultWriter)
      (later : List (Signal Chunk))
      → for_stream cs ≡ map (λ p. p.0) ps
      → All (λ p. Holds p.0 p.1) ps
      → (let given =
            all_received
              (given_to to_net_stream (run_dispatch manage (all_received cs) new_manager).sent) in
          ((listen_chunks read_header unmarshal given (new w)).listener
            ≡ record { out = map (λ p. answer p.1) ps; ending = running; closed = false })
          × ((listen_chunks read_header unmarshal (given ++ closing ∷ later) (new w)).listener
              ≡ record { out = map (λ p. answer p.1) ps; ending = returned; closed = true })
          × (close (listen_chunks read_header unmarshal (given ++ closing ∷ later) (new w)).listener
              ≡ panics))
  unfolding listen_chunks new close
  stream_requests_answered manage cs ps w later e h =
      let given = ap (λ l. all_received l) (given_to-run_dispatch manage cs ∙ e) in
      let parse = receive read_header unmarshal default_parser in
      let (open_one, closed_one) =
        run_listener_answers parse true (λ p. p.0) (λ p. answer p.1) ps later (All-answers ps h) in
      let ended = ap (λ l. run_listener true parse (l ++ closing ∷ later) new_listener) given in
      (
        ap (λ l. run_listener true parse l new_listener) given ∙ open_one,
        ended ∙ closed_one,
        ap close (ended ∙ closed_one),
      )
