-- ===== src/Chunk/Flow.antt =====
-- How a peer may interleave chunks on one connection (section 5.3 of the RTMP specification): an
-- abstract sender, against which the reader of chunk/default_reader.go is held.
use rtmp.Base.{
  ℕ, suc, ◌^◌, ◌≤◌, ◌<◌, ◌≡◌, ◌≢◌, none, some, List, [], ◌∷◌, ◌++◌, ◌==◌, if◌then◌else◌, length,
  take, drop,
}
use rtmp.Base.FinMap
use rtmp.Base.FinMap.{FinMap}
use rtmp.Spec.{bytes32}
use rtmp.Chunk.Header.{Header}
use rtmp.Chunk.Chunk.{Chunk}
use rtmp.Chunk.Header.RoundTrip.{encoding}
use rtmp.Chunk.Writer.{continuation}
use rtmp.Chunk.RoundTrip.Single.{IsWhole, IsSendable}

-- A chunk that has been begun, and the payload that has yet to follow.
pub record Pending : Type 0 where
  pub chunk : Chunk
  pub left : List ℕ

abbrev pub id_of : Chunk → ℕ
id_of c = c.header.basic_header.stream_id

-- The chunk size in force, and the chunk under way on each stream.
pub record Sender : Type 0 where
  pub size : ℕ
  pub under_way : FinMap Pending

abbrev pub idle_sender : ℕ → Sender
idle_sender size = record { size = size; under_way = [] }

abbrev pub put_pending : Sender → Chunk → List ℕ → Sender
put_pending m c left = record m {
  under_way = FinMap.put m.under_way (id_of c) (record { chunk = c; left = left });
}

-- A chunk begins with a full header (IsSendable) and not with one of format 1 to 3; it is no Set Chunk
-- Size message. A chunk that is cut has a stream ID of one byte and no extended timestamp, which the
-- RTMP specification repeats behind each continuation byte and the code does not.
-- `Step m bytes started finished m'`: the sender puts one piece of a chunk on the wire. The chunks
-- that begin or end with the piece stand in the two lists; a Set Chunk Size message is in neither.
pub data Step : Sender → List ℕ → List Chunk → List Chunk → Sender → Type 0 where
  whole :
      (m : Sender) (c : Chunk)
      → IsSendable m.size c
      → FinMap.get m.under_way (id_of c) ≡ none
      → length c.contents ≤ m.size
      → Step m (encoding c.header ++ c.contents) (c ∷ []) (c ∷ []) m
  first :
      (m : Sender) (c : Chunk)
      → IsSendable m.size c
      → FinMap.get m.under_way (id_of c) ≡ none
      → m.size < length c.contents
      → c.header.message_header.timestamp ≢ 0xffffff
      → Step m
          (encoding c.header ++ take m.size c.contents)
          (c ∷ [])
          []
          (put_pending m c (drop m.size c.contents))
  middle :
      (m : Sender) (c : Chunk) (left : List ℕ)
      → FinMap.get m.under_way (id_of c) ≡ some (record { chunk = c; left = left })
      → m.size < length left
      → Step m
          (continuation (id_of c) ∷ take m.size left)
          []
          []
          (put_pending m c (drop m.size left))
  last :
      (m : Sender) (c : Chunk) (left : List ℕ)
      → FinMap.get m.under_way (id_of c) ≡ some (record { chunk = c; left = left })
      → length left ≤ m.size
      → Step m
          (continuation (id_of c) ∷ left)
          []
          (c ∷ [])
          (record m { under_way = FinMap.remove m.under_way (id_of c) })
  resize :
      (m : Sender) (h : Header) (size : ℕ)
      → IsWhole (record { header = h; contents = bytes32 size })
      → h.message_header.type_id ≡ 1
      → FinMap.get m.under_way h.basic_header.stream_id ≡ none
      → 4 ≤ m.size
      → size < 2 ^ 32
      → Step m (encoding h ++ bytes32 size) [] [] (record m { size = size })

-- `Flow m n bytes started finished m'`: `n` pieces, one after the other.
pub data Flow : Sender → ℕ → List ℕ → List Chunk → List Chunk → Sender → Type 0 where
  stop : (m : Sender) → Flow m 0 [] [] [] m
  piece :
      {m m' m'' : Sender} {n : ℕ} {bytes bytes' : List ℕ}
      {started started' finished finished' : List Chunk}
      → Step m bytes started finished m'
      → Flow m' n bytes' started' finished' m''
      → Flow m (suc n) (bytes ++ bytes') (started ++ started') (finished ++ finished') m''

-- The chunks of one stream.
unfoldable pub on_stream : ℕ → List Chunk → List Chunk
on_stream id [] = []
on_stream id (c ∷ cs) = let rest = on_stream id cs in if id_of c == id then c ∷ rest else rest
