-- ===== src/Chunk/RoundTrip/Interleaved/Rounds.antt =====
-- Each piece that an interleaving peer sends takes the reader of chunk/default_reader.go one round.
use rtmp.Base.{
  ℕ, ◌-◌, ◌^◌, ◌≤◌, ◌<◌, ◌≡◌, refl, sym, ap, ◌∙◌, none, some, List, [], ◌∷◌, ◌++◌, append_assoc,
  arith, ◌==◌, if◌then◌else◌, length, take, drop, take-append-drop, length-take_le, length-drop, ok,
}
use rtmp.Base.Int.{pos}
use rtmp.Base.FinMap
use rtmp.Base.FinMap.{FinMap, map_laws, get-put, get-remove}
use rtmp.Spec.{bytes32}
use rtmp.Chunk.Header.{Header}
use rtmp.Chunk.Chunk.{Chunk}
use rtmp.Chunk.Builder
use rtmp.Chunk.Builder.{Builder, new_builder}
use rtmp.Chunk.Builder.Progress.{Holds-append}
use rtmp.Chunk.Reader.{DefaultReader, iterate}
use rtmp.Chunk.Reader.Parts.{part, headed, taken, part_more, with_new_builder}
use rtmp.Chunk.Reader.Continuation.{last_part, iterate-continuation, continuation_header}
use rtmp.Chunk.Header.RoundTrip.{encoding}
use rtmp.Chunk.Writer.{continuation}
use rtmp.Chunk.Writer.Pieces.{wire, joined_fits}
use rtmp.Chunk.RoundTrip.Single.{IsWhole, IsSendable, iterate_start, wants_all}
use rtmp.Chunk.RoundTrip.ChunkSize.{iterate-set_chunk_size}
use rtmp.Chunk.Flow.{Sender, Step, put_pending, id_of, whole, first, middle, last, resize}
use rtmp.Chunk.RoundTrip.Interleaved.{
  IsUnderWay, Follows, Round, Tracks-none, Tracks-some, Tracks-changed, get-absent,
}

-- The reader once it has the header of a chunk that begins.
abbrev begun : Chunk → List ℕ → DefaultReader → DefaultReader
begun c s r = with_new_builder c.header (headed r c.header s)

module _ (m : Sender) (c : Chunk) (rest : List ℕ) (r : DefaultReader) (v : IsSendable m.size c)
    (free : FinMap.get m.under_way (id_of c) ≡ none) where
  iterate-begun :
      (p : List ℕ)
      → Follows r m ((encoding c.header ++ p) ++ rest)
      → iterate r ≡ part (id_of c) (new_builder c.header) (begun c (p ++ rest) r)
  iterate-begun p f =
      iterate_start c (p ++ rest) r v.whole
        (Tracks-none (FinMap.get r.builders (id_of c)) _ (f.tracks (id_of c)) free)
        (f.source_is ∙ append_assoc (encoding c.header) p rest)

  Round-whole :
      length c.contents ≤ m.size
      → Follows r m ((encoding c.header ++ c.contents) ++ rest)
      → Round r (c ∷ []) m rest
  Round-whole fits f =
      let (r', sent, after) =
        last_part (id_of c) m.size c.header c.contents rest (begun c (c.contents ++ rest) r)
          (new_builder c.header) [] c.contents v.not_chunk_size (wants_all c v.whole) fits f.size_is
          refl refl in
      (
        r',
        iterate-begun c.contents f ∙ sent,
        record {
          source_is = after.source_is;
          size_is = after.size_is ∙ f.size_is;
          tracks =
              Tracks-changed (id_of c) r.builders r'.builders m.under_way m.under_way none none
                (λ j. ground (
                  arith,
                  after.builders_are j,
                  get-put r.builders (id_of c) j (new_builder c.header),
                ))
                (get-absent m.under_way (id_of c) free) tt f.tracks;
        },
      )

-- A piece that does not end its chunk, once its header has been read.
module _ (m : Sender) (c : Chunk) (d rest : List ℕ) (r : DefaultReader) (b : Builder) where
  part_cut :
      IsUnderWay b (record { chunk = c; left = d })
      → m.size < length d
      → r.read_size ≡ pos m.size
      → r.source ≡ take m.size d ++ rest
      → (r' : DefaultReader) × (part (id_of c) b r ≡ (ok [], r'))
        × (r'.source ≡ rest)
        × (r'.read_size ≡ pos m.size)
        × (b' : Builder) × IsUnderWay b' (record { chunk = c; left = drop m.size d })
        × ((j : ℕ)
            → FinMap.get r'.builders j
              ≡ (if id_of c == j then some b' else FinMap.get r.builders j))
  part_cut u over rs src =
      let n = length-take_le m.size d (omega arith) in
      let left : length d - length (take m.size d) ≡ length (drop m.size d) =
        omega (arith, n, length-drop m.size d) in
      (
        taken (id_of c) m.size b c.header u.got rest r (take m.size d),
        part_more (id_of c) m.size b c.header u.got rest r d u.holds over rs src,
        refl,
        rs,
        (Builder.append (take m.size d) b).1,
        record {
          got = u.got ++ take m.size d;
          holds = rw left at (
              (Holds-append b c.header u.got (take m.size d) (length d) u.holds
                (omega (arith, n))).1);
          adds_up =
              append_assoc u.got (take m.size d) (drop m.size d)
              ∙ ap (λ l. u.got ++ l) (take-append-drop m.size d)
              ∙ u.adds_up;
          positive = u.positive;
          one_byte_id = u.one_byte_id;
          not_chunk_size = u.not_chunk_size;
        },
        λ j. get-put r.builders (id_of c) j _,
      )

Round-first :
    (m : Sender) (c : Chunk) (rest : List ℕ) (r : DefaultReader)
    → IsSendable m.size c
    → FinMap.get m.under_way (id_of c) ≡ none
    → m.size < length c.contents
    → Follows r m ((encoding c.header ++ take m.size c.contents) ++ rest)
    → Round r [] (put_pending m c (drop m.size c.contents)) rest
Round-first m c rest r v free over f =
    let s = take m.size c.contents ++ rest in
    let (r', sent, src, rs, b', u, with_b) =
      part_cut m c c.contents rest (begun c s r) (new_builder c.header)
        (record {
          got = [];
          holds = wants_all c v.whole;
          adds_up = refl;
          positive = v.whole.encodable.basic.positive;
          one_byte_id = v.one_byte_id over;
          not_chunk_size = v.not_chunk_size;
        })
        over f.size_is refl in
    (
      r',
      iterate-begun m c rest r v free (take m.size c.contents) f ∙ sent,
      record {
        source_is = src;
        size_is = rs;
        tracks =
            Tracks-changed (id_of c) r.builders r'.builders m.under_way _ (some b') _
              (λ j. ground (arith, with_b j, get-put r.builders (id_of c) j (new_builder c.header)))
              (λ j. get-put m.under_way (id_of c) j _) u f.tracks;
      },
    )

-- A continuation byte brings back the builder of its stream.
module _ (m : Sender) (c : Chunk) (d rest : List ℕ) (r : DefaultReader)
    (busy : FinMap.get m.under_way (id_of c) ≡ some (record { chunk = c; left = d })) where
  abbrev resumed : List ℕ → DefaultReader
  resumed s = headed r (continuation_header (id_of c)) s

  iterate-resumed :
      (p : List ℕ)
      → Follows r m (continuation (id_of c) ∷ p ++ rest)
      → (b : Builder) × IsUnderWay b (record { chunk = c; left = d })
        × (iterate r ≡ part (id_of c) b (resumed (p ++ rest)))
  iterate-resumed p f =
      let (b, e, u) =
        Tracks-some (FinMap.get r.builders (id_of c)) _ (record { chunk = c; left = d })
          (f.tracks (id_of c)) busy in
      (b, u, iterate-continuation (id_of c) r b (p ++ rest) u.positive u.one_byte_id e f.source_is)

  Round-middle :
      m.size < length d
      → Follows r m (continuation (id_of c) ∷ take m.size d ++ rest)
      → Round r [] (put_pending m c (drop m.size d)) rest
  Round-middle over f =
      let (b, u, e) = iterate-resumed (take m.size d) f in
      let (r', sent, src, rs, b', u', with_b) =
        part_cut m c d rest (resumed (take m.size d ++ rest)) b u over f.size_is refl in
      (
        r',
        e ∙ sent,
        record {
          source_is = src;
          size_is = rs;
          tracks =
              Tracks-changed (id_of c) r.builders r'.builders m.under_way _ (some b') _ with_b
                (λ j. get-put m.under_way (id_of c) j _) u' f.tracks;
        },
      )

  Round-last :
      length d ≤ m.size
      → Follows r m (continuation (id_of c) ∷ d ++ rest)
      → Round r (c ∷ []) (record m { under_way = FinMap.remove m.under_way (id_of c) }) rest
  Round-last fits f =
      let (b, u, e) = iterate-resumed d f in
      let (r', sent, after) =
        last_part (id_of c) m.size c.header c.contents rest (resumed (d ++ rest)) b u.got d
          u.not_chunk_size u.holds fits f.size_is refl u.adds_up in
      (
        r',
        e ∙ sent,
        record {
          source_is = after.source_is;
          size_is = after.size_is ∙ f.size_is;
          tracks =
              Tracks-changed (id_of c) r.builders r'.builders m.under_way _ none none
                after.builders_are (get-remove m.under_way (id_of c)) tt f.tracks;
        },
      )

Round-resize :
    (m : Sender) (h : Header) (size : ℕ) (rest : List ℕ) (r : DefaultReader)
    → IsWhole (record { header = h; contents = bytes32 size })
    → h.message_header.type_id ≡ 1
    → FinMap.get m.under_way h.basic_header.stream_id ≡ none
    → 4 ≤ m.size
    → size < 2 ^ 32
    → Follows r m ((encoding h ++ bytes32 size) ++ rest)
    → Round r [] (record m { size = size }) rest
Round-resize m h size rest r v t free fits hs f =
    let id = h.basic_header.stream_id in
    let (r', sent, src, rs, builders_are) =
      iterate-set_chunk_size m.size size h rest r v t fits hs f.size_is
        (Tracks-none (FinMap.get r.builders id) _ (f.tracks id) free)
        (f.source_is
          ∙ ap (λ l. (encoding h ++ l) ++ rest) (sym (joined_fits m.size id (bytes32 size) fits))
          ∙ unfold wire in refl) in
    (
      r',
      sent,
      record {
        source_is = src;
        size_is = rs;
        tracks =
            Tracks-changed id r.builders r'.builders m.under_way m.under_way none none builders_are
              (get-absent m.under_way id free) tt f.tracks;
      },
    )

-- Each piece takes one round of the reader.
pub Round-Step :
    {m m' : Sender} {bytes : List ℕ} {started finished : List Chunk} (rest : List ℕ)
    (r : DefaultReader)
    → Step m bytes started finished m'
    → Follows r m (bytes ++ rest)
    → Round r finished m' rest
Round-Step rest r (whole m c v free fits) f = Round-whole m c rest r v free fits f
Round-Step rest r (first m c v free over plain) f = Round-first m c rest r v free over f
Round-Step rest r (middle m c d busy over) f = Round-middle m c d rest r busy over f
Round-Step rest r (last m c d busy fits) f = Round-last m c d rest r busy fits f
Round-Step rest r (resize m h size v t free fits hs) f =
    Round-resize m h size rest r v t free fits hs f
