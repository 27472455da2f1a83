-- ===== src/Tests/Clients.antt =====
-- The theorems on a client and on a server at concrete connections.
use rtmp.Base.{
  zero, suc, sym, ◌<◌, ℕ, ◌≡◌, refl, Bool, true, false, some, List, [], ◌∷◌, ◌++◌, map, arith,
  replicate, All, ◌⊎◌, inl, inr, Error, eof, amf, ok,
}
use rtmp.Io.{buffer}
use rtmp.Base.FinMap
use rtmp.Chunk.Chunk
use rtmp.Chunk.Chunk.{Chunk}
use rtmp.Chunk.Header
use rtmp.Chunk.MessageHeader
use rtmp.Chunk.Parser
use rtmp.Chunk.Parser.Links.{queue}
use rtmp.Chunk.Parser.Routing.{of_stream}
use rtmp.Chunk.RoundTrip.Single.{IsSendable}
use rtmp.Chunk.RoundTrip.Sequence.{wires, total_rounds}
use rtmp.Handshake.{Conn}
use rtmp.Handshake.Exchange.{ack_bytes, answers, conn}
use rtmp.Loop.{Sent, all_received, delivered, running}
use rtmp.Control
use rtmp.Control.{Control}
use rtmp.Control.Exchange.{IsSendable-control_chunk}
use rtmp.Client
use rtmp.Client.{Client, new, handshake, receive_rounds}
use rtmp.Client.Receiving.{receives, IsReceived}
use rtmp.Chunk.Parser.Receivers.{selecting}
use rtmp.Client.Controls.{control_of, controls_received}
use rtmp.Client.Media.{net_id, media_received}
use rtmp.Chunk.MultiStream.{
  MultiStream, new_multi_stream, append, take_chunk, send_chunk, receiving, appends, takes, sends,
  Reach, start, later,
}
use rtmp.Cmd.Manager.{to_data_stream, new_manager, run_dispatch, given_to}
use rtmp.Cmd.Manager.Media.{media, IsAudioOrVideo, AreAnswers}
use rtmp.Cmd.Frame
use rtmp.Cmd.Frame.{Frame, new_stream}
use rtmp.Tests.Commands.{raw_unmarshal, raw_marshal}
use rtmp.Server.{Net, Server, accept, close}
use rtmp.Server.Accepting.{RefusesClosed, connections, refusals, results, accept-close}
use rtmp.Tests.Handshakes.{
  challenge, first_ack, second_ack, first_ack-IsPacket, second_ack-IsPacket,
}
use rtmp.Tests.Controls.{
  stream_begin, stream_begin-IsControl, stream_begin-IsPassedOn, stream_begin_short,
}

-- A frame of audio on stream 4.
abbrev pub frame : Chunk
frame = record {
  header = record Header.empty {
    basic_header = record { format_id = 0; stream_id = 4 };
    message_header = record MessageHeader.empty { length = 3; type_id = 8; stream_id = 1 };
  };
  contents = 0xaf ∷ 1 ∷ 2 ∷ [];
}

pub frame-IsSendable : IsSendable 128 frame
frame-IsSendable = record {
  whole = record {
    encodable = omega arith;
    full = refl;
    absolute = refl;
    extended = λ _. refl;
    length_is = refl;
  };
  not_chunk_size = omega arith;
  one_byte_id = λ _. omega arith;
}

abbrev sent : List Chunk
sent = frame ∷ control_of stream_begin ∷ frame ∷ []

sent-IsSendable : All (IsSendable 128) sent
sent-IsSendable = (
  frame-IsSendable,
  (
    IsSendable-control_chunk 128 stream_begin stream_begin_short stream_begin-IsPassedOn,
    (frame-IsSendable, tt),
  ),
)

abbrev peer : Conn
peer = conn (3 ∷ (ack_bytes first_ack ++ (ack_bytes second_ack ++ wires 128 sent))) []

-- Whatever has a stream receives from it.
abbrev pub all_listen : ℕ → Bool
all_listen id = true

sent-IsReceived : All (IsReceived all_listen) sent
unfolding Client.receivers Chunk.stream_id Control.control_chunk
sent-IsReceived = (refl, (refl, (refl, tt)))

receives_example :
    (c c' : Client) × (handshake 3 challenge (new peer) ≡ some (ok tt, c))
    × (c.conn.outgoing ≡ buffer (3 ∷ answers challenge first_ack))
    × (c.control_chunks ≡ some (Parser.single 0))
    × (FinMap.get c.chunks.streams 2 ≡ some 0)
    × (receive_rounds all_listen (total_rounds 128 sent) c ≡ (some (ok selecting), c'))
    × ((id : ℕ) → queue c'.chunks id ≡ of_stream id (map Parser.chunk sent))
    × (c'.chunks.errs ≡ [])
    × (c'.conn.incoming ≡ [])
receives_example =
    receives challenge sent first_ack second_ack all_listen first_ack-IsPacket second_ack-IsPacket
      refl sent-IsSendable sent-IsReceived

controls_received_example :
    (c c' : Client) × (handshake 3 challenge (new peer) ≡ some (ok tt, c))
    × (receive_rounds all_listen (total_rounds 128 sent) c ≡ (some (ok selecting), c'))
    × (Control.recv (all_received (queue c'.chunks 2)) ≡ (delivered stream_begin ∷ [], running))
unfolding of_stream Chunk.stream_id Control.control_chunk
controls_received_example =
    controls_received challenge sent (stream_begin ∷ []) first_ack second_ack all_listen
      first_ack-IsPacket second_ack-IsPacket refl sent-IsSendable sent-IsReceived
      (stream_begin-IsControl, tt) refl

-- The MultiStream of the client's streams 3, 4, 5 and 8 once it has passed on the two frames.
abbrev passing : MultiStream
passing = take_chunk 1 frame (append 4 new_multi_stream)

abbrev passed : MultiStream
passed = send_chunk 1 frame (take_chunk 1 frame (send_chunk 1 frame passing))

passed_reached : Reach passed
unfolding append take_chunk send_chunk new_multi_stream
passed_reached =
    later
      (later
        (later (later (later start (appends 4 refl)) (takes 1 frame (omega arith) refl refl))
          (sends 1 frame (omega arith) refl refl))
        (takes 1 frame (omega arith) refl refl))
      (sends 1 frame (omega arith) refl refl)

passed_fed :
    (i : ℕ)
    → i < passed.count
    → ((passed.feeder i).phase ≡ receiving)
      × ((passed.feeder i).given ≡ queue receives_example.1.chunks (net_id i))
unfolding append take_chunk send_chunk new_multi_stream of_stream Chunk.stream_id
    Control.control_chunk
passed_fed zero h = (refl, sym (receives_example.7 3))
passed_fed (suc zero) h = (refl, sym (receives_example.7 4))
passed_fed (suc (suc zero)) h = (refl, sym (receives_example.7 5))
passed_fed (suc (suc (suc zero))) h = (refl, sym (receives_example.7 8))
passed_fed (suc (suc (suc (suc n)))) h = absurd (omega arith)

sent_media : All IsAudioOrVideo (media sent)
unfolding media Chunk.type_id Control.control_chunk
sent_media = (inl refl, (inl refl, tt))

media_received_example :
    (os : List (Sent (Frame (List ℕ)))) × (Frame.recv (new_stream raw_unmarshal) (
        all_received (
          given_to to_data_stream
            (run_dispatch true (all_received (map (λ p. p.1) passed.out)) new_manager).sent))
      ≡ (os, running))
    × AreAnswers raw_unmarshal raw_marshal (media sent) os
unfolding append take_chunk send_chunk new_multi_stream
media_received_example =
    media_received raw_unmarshal raw_marshal true challenge sent first_ack second_ack all_listen
      receives_example.0 receives_example.1 passed first_ack-IsPacket second_ack-IsPacket refl
      sent-IsSendable sent-IsReceived sent_media receives_example.2 receives_example.6
      passed_reached passed_fed refl

abbrev quiet_peer : Conn
quiet_peer = conn [] []

-- A listener with connections to come, that fails with an error of its own once it is closed.
abbrev Socket : Type 0
Socket = Bool × List Conn

abbrev accept_call : Socket → (Error ⊎ Conn) × Socket
accept_call (true, ks) = (inl (amf 1), (true, ks))
accept_call (false, []) = (inl eof, (false, []))
accept_call (false, k ∷ ks) = (inr k, (false, ks))

abbrev local : Net ℕ Socket
local = record {
  listen_at = λ port. inr (false, []);
  accept_on = accept_call;
  close_socket = λ s. (inr tt, (true, s.1));
}

refused_when_closed : (s : Socket) → s.0 ≡ true → (accept_call s).0 ≡ inl (amf 1)
refused_when_closed (true, ks) h = refl
refused_when_closed (false, ks) h = absurd (cc h)

stays_closed : (s : Socket) → s.0 ≡ true → (accept_call s).1.0 ≡ true
stays_closed (true, ks) h = refl
stays_closed (false, ks) h = absurd (cc h)

local-RefusesClosed : RefusesClosed local (amf 1)
local-RefusesClosed = record {
  IsClosed = λ s. s.0 ≡ true;
  closes = λ s. refl;
  refuses = refused_when_closed;
  stays = stays_closed;
}

abbrev server : Server Socket
server = record { socket = (false, quiet_peer ∷ peer ∷ []); clients = []; errs = [] }

accept-close_example :
    (let s' = accept local 2 (close local (accept local 1 server)).1 in
      (s'.clients ≡ [] ++ map Client.new (connections (results local 1 server.socket)))
      × (s'.errs ≡ ([] ++ refusals (results local 1 server.socket)) ++ replicate 2 (amf 1)))
accept-close_example = accept-close local (amf 1) local-RefusesClosed 1 2 server
