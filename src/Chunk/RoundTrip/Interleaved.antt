-- ===== src/Chunk/RoundTrip/Interleaved.antt =====
-- The reader of chunk/default_reader.go behind a peer that interleaves
-- the chunks of several streams: what the two have in common.
pub mod Rounds
pub mod Flows
use rtmp.Base.{
  ℕ, zero, suc, ◌-◌, ◌^◌, ◌≤◌, ◌<◌, ◌≡◌, ◌≢◌, refl, sym, ap, ◌∙◌, inl, inr, Option, none, some,
  List, [], ◌∷◌, ◌++◌, append-nil, append_assoc, map, arith, ◌==◌, if◌then◌else◌, ==_refl, length,
  take, drop, take-append-drop, length-take_le, length-drop, ok, Bool-cases, equal-cases, ==_iff,
  ne→==,
}
use mathlib.Core.Path.{subst}
use mathlib.Core.Option.{some-injective}
use rtmp.Base.Int.{pos}
use rtmp.Base.FinMap
use rtmp.Base.FinMap.{FinMap, map_laws, get-put, get-remove}
use rtmp.Spec.{bytes32}
use rtmp.Chunk.Header.{Header}
use rtmp.Chunk.Chunk.{Chunk}
use rtmp.Chunk.Normalizer.{Normalizer}
use rtmp.Chunk.Builder
use rtmp.Chunk.Builder.{Builder, new_builder}
use rtmp.Chunk.Builder.Progress.{Holds, Holds-append}
use rtmp.Chunk.Reader.{DefaultReader, Event, chunk, new_reader, iterate, recv}
use rtmp.Chunk.Reader.Parts.{part, headed, taken, part_more, with_new_builder}
use rtmp.Chunk.Reader.Continuation.{
  After, last_part, recv_step, iterate-continuation, continuation_header,
}
use rtmp.Chunk.Header.RoundTrip.{encoding}
use rtmp.Chunk.Writer.{continuation}
use rtmp.Chunk.Writer.Pieces.{wire, joined_fits}
use rtmp.Chunk.RoundTrip.Single.{IsWhole, IsSendable, iterate_start, wants_all}
use rtmp.Chunk.RoundTrip.ChunkSize.{iterate-set_chunk_size}
use rtmp.Chunk.Flow.{
  Pending, Sender, Step, Flow, put_pending, idle_sender, id_of, whole, first, middle, last, resize,
  stop, piece, on_stream,
}

-- The builder has what the sender has sent of the chunk, which is to go on.
pub record IsUnderWay (b : Builder) (p : Pending) : Type 0 where
  pub got : List ℕ
  pub holds : Holds b p.chunk.header got (length p.left)
  pub adds_up : got ++ p.left ≡ p.chunk.contents
  pub positive : 0 < p.chunk.header.basic_header.stream_id
  pub one_byte_id : p.chunk.header.basic_header.stream_id < 63
  pub not_chunk_size : p.chunk.header.message_header.type_id ≢ 1

-- A stream has a builder if and only if a chunk is under way on it.
abbrev pub Tracks : Option Builder → Option Pending → Type 0
Tracks none none = Unit {0}
Tracks (some b) (some p) = IsUnderWay b p
Tracks none (some p) = ⊥
Tracks (some b) none = ⊥

-- The reader has the sender's chunk size and a builder for each chunk under way, and `s` is next.
pub record Follows (r : DefaultReader) (m : Sender) (s : List ℕ) : Type 0 where
  pub source_is : r.source ≡ s
  pub size_is : r.read_size ≡ pos m.size
  pub tracks : (j : ℕ) → Tracks (FinMap.get r.builders j) (FinMap.get m.under_way j)

-- One round has sent the chunks that are finished.
abbrev pub Round : DefaultReader → List Chunk → Sender → List ℕ → Type 0
Round r finished m rest =
    (r' : DefaultReader) × (iterate r ≡ (ok (map chunk finished), r')) × Follows r' m rest

pub Tracks-none : (b : Option Builder) (p : Option Pending) → Tracks b p → p ≡ none → b ≡ none
Tracks-none none none t e = refl
Tracks-none none (some p) t e = absurd t
Tracks-none (some b) none t e = absurd t
Tracks-none (some b) (some p) t e = absurd (cc e)

pub Tracks-some :
    (b : Option Builder) (p : Option Pending) (q : Pending)
    → Tracks b p
    → p ≡ some q
    → (a : Builder) × (b ≡ some a) × IsUnderWay a q
Tracks-some none none q t e = absurd (cc e)
Tracks-some none (some p) q t e = absurd t
Tracks-some (some b) none q t e = absurd t
Tracks-some (some b) (some p) q t e = (b, refl, subst (IsUnderWay b) (some-injective p q e) t)

-- What is known of every stream is known again when one stream has changed on both sides.
pub Tracks-changed :
    (id : ℕ) (bs bs' : FinMap Builder) (ps ps' : FinMap Pending) (b : Option Builder)
    (p : Option Pending)
    → ((j : ℕ) → FinMap.get bs' j ≡ (if id == j then b else FinMap.get bs j))
    → ((j : ℕ) → FinMap.get ps' j ≡ (if id == j then p else FinMap.get ps j))
    → Tracks b p
    → ((j : ℕ) → Tracks (FinMap.get bs j) (FinMap.get ps j))
    → (j : ℕ) → Tracks (FinMap.get bs' j) (FinMap.get ps' j)
Tracks-changed id bs bs' ps ps' b p eb ep t ts j =
    rw (eb j, ep j) (elim (Bool-cases (id == j)) [ inl e ↦ rw e t | inr e ↦ rw e (ts j) ])

pub get-absent :
    (ps : FinMap Pending) (id : ℕ)
    → FinMap.get ps id ≡ none
    → (j : ℕ) → FinMap.get ps j ≡ (if id == j then none else FinMap.get ps j)
get-absent ps id e j = elim (equal-cases id j) [
  | inl same ↦ rw ((==_iff id j).1 same) (ap (FinMap.get ps) (sym same) ∙ e)
  | inr other ↦ rw (ne→== id j other)
]
