-- ===== src/Tests/Streams.antt =====
-- The theorems on the streams of the chunk parser at a parser with two streams.
use rtmp.Base.{true, false, arith, List, ℕ, ◌≡◌, refl, [], ◌∷◌, ◌++◌}
use rtmp.Chunk.Chunk
use rtmp.Chunk.Chunk.{Chunk}
use rtmp.Chunk.Header
use rtmp.Chunk.Parser
use rtmp.Chunk.Parser.{FromReader, recv, new_parser, Parser, single, stream, from_reader, closing}
use rtmp.Chunk.MultiStream.{
  MultiStream, new_multi_stream, append, take_chunk, send_chunk, finish, close_source, close_out,
  appends, takes, sends, finishes, closes_source, awaits, Reach, start, later,
}
use rtmp.Chunk.MultiStream.Delivery.{Reach-kept, Reach-closed, sent_by, holding}
use rtmp.Chunk.Parser.Routing.{of_stream}

abbrev parser_of_two : Parser
parser_of_two = record {
  streams = (2, 0) ∷ (3, 1) ∷ [];
  store =
      (0, record { id = 2; sent = []; closed = false })
      ∷ (1, record { id = 3; sent = []; closed = false })
      ∷ [];
  fresh = 2;
  errs = [];
  closed = false;
}

abbrev chunk_on : ℕ → ℕ → Chunk
chunk_on id b = record {
  header = record Header.empty { basic_header = record { format_id = 0; stream_id = id } };
  contents = b ∷ [];
}

abbrev messages : List FromReader
messages =
    Parser.chunk (chunk_on 3 1) ∷ Parser.chunk (chunk_on 4 2) ∷ Parser.chunk (chunk_on 3 5) ∷ []

of_stream_3 : of_stream 3 messages ≡ chunk_on 3 1 ∷ chunk_on 3 5 ∷ []
unfolding of_stream Chunk.stream_id
of_stream_3 = refl

-- Two streams are appended; the first gives a chunk, which is sent while the second is closed. Then
-- the first is closed too, and `AwaitClose` closes the channel.
abbrev c1 : Chunk
c1 = chunk_on 3 7

abbrev m1 : MultiStream
m1 = take_chunk 0 c1 (append 2 new_multi_stream)

abbrev m2 : MultiStream
m2 = finish 1 (close_source 1 m1)

abbrev m3 : MultiStream
m3 = close_source 0 (send_chunk 0 c1 m2)

abbrev m4 : MultiStream
m4 = close_out (finish 0 m3)

m4_reached : Reach m4
unfolding append take_chunk send_chunk finish close_source close_out new_multi_stream
m4_reached =
    later
      (later
        (later
          (later
            (later
              (later (later (later start (appends 2 refl)) (takes 0 c1 (omega arith) refl refl))
                (closes_source 1 (omega arith)))
              (finishes 1 (omega arith) refl refl))
            (sends 0 c1 (omega arith) refl refl))
          (closes_source 0 (omega arith)))
        (finishes 0 (omega arith) refl refl))
      (awaits refl refl)

Reach-kept_example :
    ((i : ℕ) → sent_by i m4.out ++ holding (m4.feeder i).phase ≡ (m4.feeder i).given)
    × (m4.crashed ≡ false)
Reach-kept_example = Reach-kept m4_reached

Reach-closed_example :
    ((m4.feeder 0).source_closed ≡ true) × (sent_by 0 m4.out ≡ (m4.feeder 0).given)
unfolding close_out append take_chunk send_chunk finish close_source new_multi_stream
Reach-closed_example = Reach-closed m4_reached refl 0 (omega arith)
