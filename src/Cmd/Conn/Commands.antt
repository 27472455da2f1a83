-- ===== src/Cmd/Conn/Commands.antt =====
-- What a net connection answers to the commands that the manager sends to it.
use rtmp.Base.{
  ℕ, ◌≡◌, refl, sym, ap, ◌∙◌, Bool, false, ◌&&◌, ◌||◌, ◌==◌, none, some, List, [], ◌∷◌, ◌++◌, map,
  arith, All, if◌then◌else◌, Error, unknown_command, wrong_amf_header, Result, ok, err, proceed,
  pure, Option, inl, inr,
}
use Prim.Native.String.{String}
use rtmp.Io.{Input}
use rtmp.Chunk.Chunk.{Chunk}
use rtmp.Chunk.Writer.{DefaultWriter}
use rtmp.Loop.{
  Signal, closing, Sent, delivered, failed, running, returned, all_received, result_of,
  run_listener, new_listener, run_listener_answers, close, waits,
}
use rtmp.Cmd.Conn
use rtmp.Cmd.Conn.{
  Command, fc_unpublish_command, Receivable, AmfValue, amf_string, amf_other, NetConn,
  new_net_connection, receive, listen_chunks, find_factory, default_typs, default_parser,
}
use rtmp.Cmd.Conn.Names.{
  command_name, parsed, parsed_cases, IsUnknown, find_factory-command_name, find_factory-unknown,
}
use rtmp.Cmd.Manager.{Channel, to_net_conn, new_manager, run_dispatch, given_to}
use rtmp.Cmd.Manager.Routing.{route, routed, all_routed, run_dispatch-all_routed}

-- The chunks for the net connection: those on stream 3, and on stream 8 with message stream 0.
abbrev pub is_for_conn : Chunk → Bool
is_for_conn c =
    c.header.basic_header.stream_id == 3
    || (c.header.basic_header.stream_id == 8 && c.header.message_header.stream_id == 0)

unfoldable pub for_conn : List Chunk → List Chunk
for_conn [] = []
for_conn (c ∷ cs) = let rest = for_conn cs in if is_for_conn c then c ∷ rest else rest

given_to-routed :
    (c : Chunk) (out : List (Channel × Chunk))
    → given_to to_net_conn (routed c ++ out)
      ≡ (let rest = given_to to_net_conn out in if is_for_conn c then c ∷ rest else rest)
unfolding given_to route
given_to-routed c out = ground arith

given_to-all_routed : (cs : List Chunk) → given_to to_net_conn (all_routed cs) ≡ for_conn cs
unfolding for_conn given_to
given_to-all_routed [] = refl
given_to-all_routed (c ∷ cs) =
    given_to-routed c (all_routed cs)
    ∙ ap (λ rest. if is_for_conn c then c ∷ rest else rest) (given_to-all_routed cs)

-- What a chunk holds: a command with its fields, one whose fields are not read, the name of no
-- command, a value that is no name, or what is no AMF.
pub data Request (F : Type 0) : Type 0 where
  a_command : Command → F → Request F
  bad_fields : Command → Error → Request F
  a_name : String → Request F
  not_a_name : Request F
  not_amf : Error → Request F

module _ {F : Type 0} where
  -- The answer to a name that the parser finds a command for, or none.
  abbrev answer_found : Sent (Receivable F) → String → Option Command → Sent (Receivable F)
  answer_found o name none = failed (unknown_command name)
  answer_found o name (some k) = o

  -- A command is delivered with its fields, but for FCUnpublish, which is unknown; the rest is an error.
  abbrev pub answer : Request F → Sent (Receivable F)
  answer (a_command k f) =
      answer_found (delivered (record { command = k; fields = f })) (command_name k) (parsed k)
  answer (bad_fields k e) = answer_found (failed e) (command_name k) (parsed k)
  answer (a_name name) = failed (unknown_command name)
  answer not_a_name = failed wrong_amf_header
  answer (not_amf e) = failed e

module _ {F : Type 0} (decode : Input AmfValue) (unmarshal : Command → Input F) where
  -- What the AMF library makes of the bytes of a chunk.
  abbrev pub Holds : Chunk → Request F → Type 0
  Holds c (a_command k f) =
      (s rest : List ℕ) × (decode c.contents ≡ (ok (amf_string (command_name k)), s))
      × (unmarshal k s ≡ (ok f, rest))
  Holds c (bad_fields k e) =
      (s rest : List ℕ) × (decode c.contents ≡ (ok (amf_string (command_name k)), s))
      × (unmarshal k s ≡ (err e, rest))
  Holds c (a_name name) =
      (s : List ℕ) × (decode c.contents ≡ (ok (amf_string name), s)) × IsUnknown name
  Holds c not_a_name = (s : List ℕ) × (decode c.contents ≡ (ok amf_other, s))
  Holds c (not_amf e) = (s : List ℕ) × (decode c.contents ≡ (err e, s))

  receive_decoded :
      (c : Chunk) (v : AmfValue) (s : List ℕ)
      → decode c.contents ≡ (ok v, s)
      → receive decode unmarshal default_parser c
        ≡ (Conn.parse_named decode unmarshal default_parser v s).0
  unfolding receive
  receive_decoded c v s e =
      ap (λ q. (proceed q (Conn.parse_named decode unmarshal default_parser)).0) e

  receive_named :
      (c : Chunk) (name : String) (s : List ℕ) (o : Option Command)
      → decode c.contents ≡ (ok (amf_string name), s)
      → find_factory default_typs name ≡ o
      → receive decode unmarshal default_parser c ≡ (Conn.parse_command decode unmarshal name o s).0
  unfolding Conn.parse default_parser Conn.new_parser
  receive_named c name s o e e' =
      receive_decoded c (amf_string name) s e
      ∙ ap (λ x. (Conn.parse_command decode unmarshal name x s).0) e'

  -- A command whose fields are read as `q` says.
  receive_command :
      (c : Chunk) (k : Command) (s : List ℕ) (q : Result F × List ℕ) (o : Sent (Receivable F))
      → decode c.contents ≡ (ok (amf_string (command_name k)), s)
      → unmarshal k s ≡ q
      → (proceed q (λ f. pure (record { command = k; fields = f }))).0 ≡ result_of o
      → receive decode unmarshal default_parser c
        ≡ result_of (answer_found o (command_name k) (parsed k))
  receive_command c k s q o e e' read = elim (parsed_cases k) [
    | inl unknown ↦
        receive_named c (command_name k) s none e (find_factory-command_name k ∙ unknown)
        ∙ ap (λ x. result_of (answer_found o (command_name k) x)) (sym unknown)
    | inr found ↦
        receive_named c (command_name k) s (some k) e (find_factory-command_name k ∙ found)
        ∙ ap (λ x. (proceed x (λ f. pure (record { command = k; fields = f }))).0) e'
        ∙ read
        ∙ ap (λ x. result_of (answer_found o (command_name k) x)) (sym found)
  ]

  receive-answer :
      (c : Chunk) (r : Request F)
      → Holds c r
      → receive decode unmarshal default_parser c ≡ result_of (answer r)
  receive-answer c (a_command k f) (s, rest, e, e') = receive_command c k s (ok f, rest) _ e e' refl
  receive-answer c (bad_fields k x) (s, rest, e, e') =
      receive_command c k s (err x, rest) (failed x) e e' refl
  receive-answer c (a_name name) (s, e, h) =
      receive_named c name s none e (find_factory-unknown name h)
  receive-answer c not_a_name (s, e) = receive_decoded c amf_other s e
  receive-answer c (not_amf x) (s, e) =
      unfold receive in ap (λ q. (proceed q (Conn.parse_named decode unmarshal default_parser)).0) e

  -- What the loop of the manager sends to the net connection.
  given_to-run_dispatch :
      (manage : Bool) (cs : List Chunk)
      → given_to to_net_conn (run_dispatch manage (all_received cs) new_manager).sent ≡ for_conn cs
  given_to-run_dispatch manage cs =
      ap (given_to to_net_conn) (run_dispatch-all_routed manage cs) ∙ given_to-all_routed cs

  All-answers :
      (ps : List (Chunk × Request F))
      → All (λ p. Holds p.0 p.1) ps
      → All (λ p. receive decode unmarshal default_parser p.0 ≡ result_of (answer p.1)) ps
  All-answers [] h = tt
  All-answers (p ∷ ps) (h, hs) = (receive-answer p.0 p.1 h, All-answers ps hs)

  -- Let the chunks that the loop of a manager reads be any, of which those on stream 3, and on stream 8
  -- with message stream 0, hold some requests as the AMF library reads them. A new net connection that
  -- gets what the manager sends to it answers each of these requests in their order: a command is
  -- delivered with its fields, but for FCUnpublish, which like any other name is an unknown command;
  -- what is not read is an error. Its loop then goes on. If it then reads the closer, it returns
  -- having sent the same, whatever comes after, it does not close its channels, and one more call of
  -- Close waits for ever.
  pub requests_answered :
      (manage : Bool) (cs : List Chunk) (ps : List (Chunk × Request F)) (w : DefaultWriter)
      (later : List (Signal Chunk))
      → for_conn cs ≡ map (λ p. p.0) ps
      → All (λ p. Holds p.0 p.1) ps
      → (let given =
            all_received
              (given_to to_net_conn (run_dispatch manage (all_received cs) new_manager).sent) in
          ((listen_chunks decode unmarshal given (new_net_connection w)).listener
            ≡ record { out = map (λ p. answer p.1) ps; ending = running; closed = false })
          × ((listen_chunks decode unmarshal
                (given ++ closing ∷ later)
                (new_net_connection w)).listener
              ≡ record { out = map (λ p. answer p.1) ps; ending = returned; closed = false })
          × (close
                (listen_chunks decode unmarshal
                  (given ++ closing ∷ later)
                  (new_net_connection w)).listener
              ≡ waits))
  unfolding listen_chunks new_net_connection close
  requests_answered manage cs ps w later e h =
      let given = ap (λ l. all_received l) (given_to-run_dispatch manage cs ∙ e) in
      let parse = receive decode unmarshal default_parser in
      let (open_one, closed_one) =
        run_listener_answers parse false (λ p. p.0) (λ p. answer p.1) ps later (All-answers ps h) in
      let ended = ap (λ l. run_listener false parse (l ++ closing ∷ later) new_listener) given in
      (
        ap (λ l. run_listener false parse l new_listener) given ∙ open_one,
        ended ∙ closed_one,
        ap close (ended ∙ closed_one),
      )
