-- ===== src/Chunk/Reader.antt =====
-- chunk/reader.go and chunk/default_reader.go. `Recv` runs in one goroutine; its channels are the list
-- of what was sent on them, in order, and another goroutine may set the read size between rounds.
pub mod Parts
pub mod Continuation
pub mod Balance
pub mod Invariant
pub mod Announced
pub mod Bounds
pub mod End
pub mod OneEvent
use rtmp.Base.{
  ℕ, zero, suc, ◌+◌, Bool, true, false, not, none, some, List, [], ◌∷◌, ◌++◌, ◌==◌, if◌then◌else◌,
  Error, Result, ok, err, panicked, Exec, pure, ◌>>=◌, ◌>>◌,
}
use rtmp.Base.Int.{ℤ, pos, is_zero}
use rtmp.Base.FinMap
use rtmp.Base.FinMap.{FinMap}
use rtmp.Spec
use rtmp.Chunk.Header
use rtmp.Chunk.Header.{Header}
use rtmp.Chunk.Chunk.{Chunk, stream_id, type_id}
use rtmp.Chunk.Normalizer.{Normalizer, normalize}
use rtmp.Chunk.Builder
use rtmp.Chunk.Builder.{Builder, new_builder, build, bytes_left}
use rtmp.Spec.{be_uint32}

-- `DefaultReadSize`
abbrev pub default_read_size : ℤ
default_read_size = pos 128

pub record DefaultReader : Type 0 where
  pub source : List ℕ
  pub builders : FinMap Builder
  pub normalizer : Normalizer
  pub read_size : ℤ

-- A send on `r.chunks` or on `r.errs`.
pub data Event : Type 0 where
  chunk : Chunk → Event
  error : Error → Event

unfoldable pub new_reader : List ℕ → ℤ → Normalizer → DefaultReader
new_reader source size normalizer = record {
  source = source;
  builders = [];
  normalizer = normalizer;
  read_size = size;
}

unfoldable pub set_read_size : ℤ → DefaultReader → DefaultReader
set_read_size size r = record r { read_size = size }

abbrev resized : DefaultReader → Result ℕ → Result Bool × DefaultReader
resized r (ok n) = (ok true, set_read_size (pos n) r)
resized r (err e) = (err e, r)
resized r panicked = (panicked, r)

unfoldable pub update_chunk_size : Chunk → Exec DefaultReader Bool
unfolding set_read_size type_id
update_chunk_size c r =
    if not (type_id c == 0x01) then (ok false, r) else resized r (be_uint32 c.contents)

-- The builder of the header's stream, and the reader that has it.
unfoldable pub builder : Header → DefaultReader → Builder × DefaultReader
unfolding new_builder
builder h r =
    let id = h.basic_header.stream_id in
    elim (FinMap.get r.builders id) [
      | none ↦ (new_builder h, record r { builders = FinMap.put r.builders id (new_builder h) })
      | some b ↦ (b, r)
    ]

unfoldable pub remove_builder : ℕ → DefaultReader → DefaultReader
remove_builder id r = record r { builders = FinMap.remove r.builders id }

-- After the read of a part: a chunk that is complete is sent, or sets the read size.
unfoldable pub deliver : ℕ → Builder → Exec DefaultReader (List Event)
unfolding bytes_left build update_chunk_size remove_builder
deliver id b r =
    if is_zero (bytes_left b)
    then (do
      done ← update_chunk_size (build b)
      λ r'. (ok (if done then [] else chunk (build b) ∷ []), remove_builder id r'))
        r
    else (ok [], r)

-- The builder is shared with the map, so the map has what the read has made of it.
abbrev after_read :
    ℕ → DefaultReader → Result ℕ × Builder × List ℕ → Result (List Event) × DefaultReader
after_read id r (ok n, b, s) =
    deliver id b (record r { builders = FinMap.put r.builders id b; source = s })
after_read id r (err e, b, s) =
    (ok (error e ∷ []), record r { builders = FinMap.put r.builders id b; source = s })
after_read id r (panicked, b, s) = (panicked, record r { source = s })

unfoldable pub receive : Header → Exec DefaultReader (List Event)
unfolding builder bytes_left
receive header r =
    let (h, n) = normalize header r.normalizer in
    let (b, r') = builder h (record r { normalizer = n }) in
    after_read h.basic_header.stream_id r'
      (Builder.read (Spec.min (bytes_left b) r'.read_size) b r'.source)

abbrev after_header : DefaultReader → Result Header × List ℕ → Result (List Event) × DefaultReader
after_header r (ok h, s) = receive h (record r { source = s })
after_header r (err e, s) = (ok (error e ∷ []), record r { source = s })
after_header r (panicked, s) = (panicked, record r { source = s })

-- One round of the loop, by its `default` case.
unfoldable pub iterate : Exec DefaultReader (List Event)
unfolding receive
iterate r = after_header r (Header.read Header.empty r.source)

-- `Recv` when the closer is read after `n` rounds.
unfoldable pub recv : ℕ → Exec DefaultReader (List Event)
recv zero r = (ok [], r)
recv (suc n) r = (do sent ← iterate; later ← recv n; pure (sent ++ later)) r
