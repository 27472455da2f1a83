-- ===== src/Tests/Requests.antt =====
-- The commands that a net connection, a net stream and a control stream answer, with an AMF library of
-- one byte for a name and one for the fields.
use rtmp.Base.{
  inr, arith, ℕ, zero, suc, ◌==◌, if◌then◌else◌, ◌≡◌, refl, true, false, List, [], ◌∷◌, ◌++◌, map,
  eof, ok, err, length,
}
use rtmp.Base.Int.{pos}
use rtmp.Io.{Input, buffer}
use rtmp.Chunk.Chunk.{Chunk}
use rtmp.Chunk.MessageHeader
use rtmp.Chunk.MessageHeader.{MessageHeader}
use rtmp.Chunk.Writer.{DefaultWriter}
use rtmp.Loop.{closing, running, returned, all_received, close, waits, panics}
use rtmp.Cmd.Conn
use rtmp.Cmd.Conn.{
  Command, connect_command, fc_unpublish_command, AmfValue, amf_string, amf_other,
  new_net_connection,
}
use rtmp.Cmd.Conn.Commands as OfConn
use rtmp.Cmd.Conn.Commands.{for_conn, requests_answered}
use rtmp.Cmd.NetStream
use rtmp.Cmd.NetStream.{StreamCommand, CommandHeader, play}
use rtmp.Cmd.NetStream.Commands as OfStream
use rtmp.Cmd.NetStream.Commands.{for_stream, stream_requests_answered}
use rtmp.Chunk.Chunk
use rtmp.Control
use rtmp.Control.{new_parser}
use rtmp.Control.RoundTrip.{body}
use rtmp.Control.Stream as OfControl
use rtmp.Control.Stream.{new_stream, recv_stream, messages_answered}
use rtmp.Tests.Controls.{stream_begin, stream_begin-IsControl}
use rtmp.Cmd.Manager.{to_net_conn, to_net_stream, new_manager, run_dispatch, given_to}

abbrev the_writer : DefaultWriter
the_writer = record { dest = buffer []; write_size = pos 128 }

-- 0 is "connect", 1 is "FCUnpublish", another byte is no name.
abbrev decode : Input AmfValue
decode [] = (err eof, [])
decode (zero ∷ s) = (ok (amf_string "connect"), s)
decode (suc zero ∷ s) = (ok (amf_string "FCUnpublish"), s)
decode (suc (suc b) ∷ s) = (ok amf_other, s)

abbrev one_field : {K : Type 0} → K → Input ℕ
one_field k [] = (err eof, [])
one_field k (b ∷ s) = (ok b, s)

abbrev chunk_of : ℕ → ℕ → List ℕ → Chunk
chunk_of stream_id type_id contents = record {
  header = record {
    basic_header = record { format_id = 0; stream_id = stream_id };
    message_header = record MessageHeader.empty { type_id = type_id; length = length contents };
    extended_timestamp = record { delta = 0 };
  };
  contents = contents;
}

-- A connection, media for another child, a command without fields, and FCUnpublish.
abbrev incoming : List Chunk
incoming =
    chunk_of 3 0x14 (0 ∷ 7 ∷ [])
    ∷ chunk_of 4 0x08 (5 ∷ [])
    ∷ chunk_of 3 0x14 (0 ∷ [])
    ∷ chunk_of 8 0x14 (1 ∷ 7 ∷ [])
    ∷ chunk_of 4 0x14 (9 ∷ 7 ∷ [])
    ∷ chunk_of 3 0x14 []
    ∷ []

abbrev conn_requests : List (Chunk × OfConn.Request ℕ)
conn_requests =
    (chunk_of 3 0x14 (0 ∷ 7 ∷ []), OfConn.a_command connect_command 7)
    ∷ (chunk_of 3 0x14 (0 ∷ []), OfConn.bad_fields connect_command eof)
    ∷ (chunk_of 8 0x14 (1 ∷ 7 ∷ []), OfConn.a_command fc_unpublish_command 7)
    ∷ (chunk_of 3 0x14 [], OfConn.not_amf eof)
    ∷ []

requests_answered_example :
    let given =
      all_received
        (given_to to_net_conn (run_dispatch true (all_received incoming) new_manager).sent) in
    ((Conn.listen_chunks decode one_field given (new_net_connection the_writer)).listener ≡ record {
      out = map (λ p. OfConn.answer p.1) conn_requests;
      ending = running;
      closed = false;
    })
    × ((Conn.listen_chunks decode one_field
          (given ++ closing ∷ [])
          (new_net_connection the_writer)).listener
        ≡ record {
          out = map (λ p. OfConn.answer p.1) conn_requests;
          ending = returned;
          closed = false;
        })
    × (close
          (Conn.listen_chunks decode one_field
            (given ++ closing ∷ [])
            (new_net_connection the_writer)).listener
        ≡ waits)
unfolding for_conn
requests_answered_example =
    requests_answered decode one_field true incoming conn_requests the_writer [] refl (
      (7 ∷ [], [], refl, refl),
      (([], [], refl, refl), ((7 ∷ [], [], refl, refl), (([], refl), tt))),
    )

-- 9 is "play".
abbrev read_header : Input (CommandHeader ℕ)
read_header [] = (err eof, [])
read_header (b ∷ s) = (ok (record { name = if b == 9 then "play" else "stop"; others = 0 }), s)

abbrev stream_requests : List (Chunk × OfStream.Request ℕ)
stream_requests = (chunk_of 4 0x14 (9 ∷ 7 ∷ []), OfStream.a_command play 7) ∷ []

stream_requests_answered_example :
    let given =
      all_received
        (given_to to_net_stream (run_dispatch true (all_received incoming) new_manager).sent) in
    ((NetStream.listen_chunks read_header one_field given (NetStream.new the_writer)).listener
      ≡ record {
        out = map (λ p. OfStream.answer p.1) stream_requests;
        ending = running;
        closed = false;
      })
    × ((NetStream.listen_chunks read_header one_field
          (given ++ closing ∷ [])
          (NetStream.new the_writer)).listener
        ≡ record {
          out = map (λ p. OfStream.answer p.1) stream_requests;
          ending = returned;
          closed = true;
        })
    × (close
          (NetStream.listen_chunks read_header one_field
            (given ++ closing ∷ [])
            (NetStream.new the_writer)).listener
        ≡ panics)
unfolding for_stream
stream_requests_answered_example =
    stream_requests_answered read_header one_field true incoming stream_requests the_writer [] refl
      ((7 ∷ [], [], 0, refl, refl), tt)

-- A Stream Begin, and a chunk of a type that is none.
abbrev control_messages : List (Chunk × OfControl.Incoming)
control_messages =
    (Control.control_chunk stream_begin (body stream_begin), OfControl.a_message stream_begin)
    ∷ (chunk_of 2 7 (1 ∷ []), OfControl.unknown_type 7)
    ∷ []

messages_answered_example :
    let given = all_received (map (λ p. p.0) control_messages) in
    ((recv_stream given (new_stream the_writer new_parser)).listener ≡ record {
      out = map (λ p. OfControl.answer p.1) control_messages;
      ending = running;
      closed = false;
    })
    × ((recv_stream (given ++ closing ∷ []) (new_stream the_writer new_parser)).listener ≡ record {
      out = map (λ p. OfControl.answer p.1) control_messages;
      ending = returned;
      closed = true;
    })
    × (close (recv_stream (given ++ closing ∷ []) (new_stream the_writer new_parser)).listener
        ≡ panics)
unfolding Chunk.type_id
messages_answered_example =
    messages_answered control_messages the_writer []
      ((stream_begin-IsControl, refl), ((refl, inr (omega arith)), tt))
