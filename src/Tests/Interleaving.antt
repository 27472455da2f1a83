-- ===== src/Tests/Interleaving.antt =====
-- The reader of chunk/default_reader.go behind a peer that sends pieces of audio and video in turn.
use rtmp.Base.{ℕ, ◌≡◌, refl, false, none, List, [], ◌∷◌, ◌++◌, map, arith, ok}
use rtmp.Base.Int.{pos}
use rtmp.Base.FinMap
use rtmp.Spec.{bytes32}
use rtmp.Chunk.Header.{Header}
use rtmp.Chunk.Chunk.{Chunk}
use rtmp.Chunk.Normalizer.{new_normalizer}
use rtmp.Chunk.Reader.{DefaultReader, chunk, new_reader, recv}
use rtmp.Chunk.Header.RoundTrip.{encoding}
use rtmp.Chunk.Writer.{continuation}
use rtmp.Chunk.RoundTrip.Single.{IsWhole, IsSendable}
use rtmp.Chunk.Flow.{
  Sender, Flow, idle_sender, put_pending, first, last, resize, stop, piece, on_stream,
}
use rtmp.Chunk.RoundTrip.Interleaved.{Follows}
use rtmp.Chunk.RoundTrip.Interleaved.Flows.{recv-Flow, recv-on_stream, Follows-new_reader}

abbrev header_on : ℕ → ℕ → ℕ → Header
header_on id type_id length = record {
  basic_header = record { format_id = 0; stream_id = id };
  message_header = record {
    format_id = 0;
    timestamp = 1234;
    timestamp_delta = false;
    length = length;
    type_id = type_id;
    stream_id = 1;
  };
  extended_timestamp = record { delta = 0 };
}

abbrev audio : Chunk
audio = record { header = header_on 4 8 5; contents = 1 ∷ 2 ∷ 3 ∷ 4 ∷ 5 ∷ [] }

abbrev video : Chunk
video = record { header = header_on 6 9 6; contents = 11 ∷ 12 ∷ 13 ∷ 14 ∷ 15 ∷ 16 ∷ [] }

audio-IsSendable : IsSendable 4 audio
audio-IsSendable = record {
  whole = record {
    encodable = omega arith;
    full = refl;
    absolute = refl;
    extended = λ _. refl;
    length_is = refl;
  };
  not_chunk_size = omega arith;
  one_byte_id = λ _. omega arith;
}

video-IsSendable : IsSendable 4 video
video-IsSendable = record {
  whole = record {
    encodable = omega arith;
    full = refl;
    absolute = refl;
    extended = λ _. refl;
    length_is = refl;
  };
  not_chunk_size = omega arith;
  one_byte_id = λ _. omega arith;
}

chunk_size-IsWhole : IsWhole (record { header = header_on 2 1 4; contents = bytes32 128 })
chunk_size-IsWhole = record {
  encodable = omega arith;
  full = refl;
  absolute = refl;
  extended = λ _. refl;
  length_is = refl;
}

-- Four bytes of audio, four of video, a chunk size of 128, the rest of the video, that of the audio.
abbrev after_audio : Sender
after_audio = put_pending (idle_sender 4) audio (5 ∷ [])

abbrev after_video : Sender
after_video = put_pending after_audio video (15 ∷ 16 ∷ [])

abbrev after_resize : Sender
after_resize = record after_video { size = 128 }

abbrev video_done : Sender
video_done = record after_resize { under_way = FinMap.remove after_resize.under_way 6 }

abbrev all_done : Sender
all_done = record video_done { under_way = FinMap.remove video_done.under_way 4 }

abbrev turns : List ℕ
turns =
    (encoding audio.header ++ 1 ∷ 2 ∷ 3 ∷ 4 ∷ [])
    ++ ((encoding video.header ++ 11 ∷ 12 ∷ 13 ∷ 14 ∷ [])
        ++ ((encoding (header_on 2 1 4) ++ bytes32 128)
            ++ ((continuation 6 ∷ 15 ∷ 16 ∷ []) ++ ((continuation 4 ∷ 5 ∷ []) ++ []))))

turns-Flow : Flow (idle_sender 4) 5 turns (audio ∷ video ∷ []) (video ∷ audio ∷ []) all_done
unfolding FinMap.get FinMap.put FinMap.remove
turns-Flow = piece (first (idle_sender 4) audio audio-IsSendable refl (omega arith) (omega arith)) (
    piece (first after_audio video video-IsSendable refl (omega arith) (omega arith)) (
      piece
        (resize after_video (header_on 2 1 4) 128 chunk_size-IsWhole refl refl (omega arith)
          (omega arith))
        (piece (last after_resize video (15 ∷ 16 ∷ []) refl (omega arith))
          (piece (last video_done audio (5 ∷ []) refl (omega arith)) (stop all_done)))))

recv-Flow_example :
    (r : DefaultReader) × (recv 5 (new_reader (turns ++ 9 ∷ []) (pos 4) new_normalizer)
      ≡ (ok (map chunk (video ∷ audio ∷ [])), r))
    × Follows r all_done (9 ∷ [])
recv-Flow_example =
    recv-Flow (9 ∷ []) (new_reader (turns ++ 9 ∷ []) (pos 4) new_normalizer) turns-Flow
      (Follows-new_reader 4 (turns ++ 9 ∷ []) new_normalizer)

recv-on_stream_example :
    (r : DefaultReader) × (recv 5 (new_reader turns (pos 4) new_normalizer)
      ≡ (ok (map chunk (video ∷ audio ∷ [])), r))
    × ((id : ℕ) → on_stream id (video ∷ audio ∷ []) ≡ on_stream id (audio ∷ video ∷ []))
    × (r.source ≡ [])
    × ((id : ℕ) → FinMap.get r.builders id ≡ none)
unfolding FinMap.get FinMap.remove FinMap.put
recv-on_stream_example =
    recv-on_stream 4 5 turns (audio ∷ video ∷ []) (video ∷ audio ∷ []) all_done new_normalizer
      turns-Flow (λ id. refl)
