-- ===== src/Chunk/MultiStream.antt =====
-- chunk/multi_stream.go: the fan-in of streams. Every channel is unbuffered, so a send and a receive
-- are one step; the goroutines may take their steps in any order.
pub mod Delivery
use rtmp.Base.{ℕ, ◌+◌, ◌-◌, ◌<◌, ◌≡◌, Bool, true, false, List, [], ◌∷◌, ◌++◌}
use rtmp.Chunk.Chunk.{Chunk}
use rtmp.Base.Family.{changed}

-- Where a goroutine of `Append` is: at the head of its loop over the channel of its stream, at the
-- send of a chunk that it has received, or behind its `wg.Done()`.
pub data Phase : Type 0 where
  receiving : Phase
  sending : Chunk → Phase
  finished : Phase

-- A goroutine, with the state of its stream: the chunks that the stream has given to it, and whether
-- the stream's channel is closed.
pub record Feeder : Type 0 where
  pub phase : Phase
  pub given : List Chunk
  pub source_closed : Bool

-- `wg` is the count of the WaitGroup. `out` has the chunks that were sent on the channel of that name,
-- each with the number of the goroutine that sent it. `crashed` is a send on a closed channel, which panics.
-- The goroutines have the numbers below `count`; from there on they are not started.
pub record MultiStream : Type 0 where
  pub wg : ℕ
  pub count : ℕ
  pub feeder : ℕ → Feeder
  pub out : List (ℕ × Chunk)
  pub out_closed : Bool
  pub crashed : Bool

abbrev pub new_feeder : Feeder
new_feeder = record { phase = receiving; given = []; source_closed = false }

unfoldable pub new_multi_stream : MultiStream
new_multi_stream = record {
  wg = 0;
  count = 0;
  feeder = λ _. new_feeder;
  out = [];
  out_closed = false;
  crashed = false;
}

-- `Append` of `n` streams
unfoldable pub append : ℕ → MultiStream → MultiStream
append n m = record m { wg = m.wg + n; count = m.count + n }

abbrev pub with_feeder : ℕ → Feeder → MultiStream → MultiStream
with_feeder i f m = record m { feeder = changed m.feeder i f }

-- What goroutine `i` does: it receives a chunk,
unfoldable pub take_chunk : ℕ → Chunk → MultiStream → MultiStream
take_chunk i c m =
    let f = m.feeder i in
    with_feeder i (record f { phase = sending c; given = f.given ++ c ∷ [] }) m

-- it sends it on,
unfoldable pub send_chunk : ℕ → Chunk → MultiStream → MultiStream
send_chunk i c m =
    let f = m.feeder i in
    record (with_feeder i (record f { phase = receiving }) m) { out = m.out ++ (i, c) ∷ [] }

-- and when the channel is closed, it calls `wg.Done()`.
unfoldable pub finish : ℕ → MultiStream → MultiStream
finish i m =
    let f = m.feeder i in record (with_feeder i (record f { phase = finished }) m) { wg = m.wg - 1 }

-- Its stream closes its channel.
unfoldable pub close_source : ℕ → MultiStream → MultiStream
close_source i m = let f = m.feeder i in with_feeder i (record f { source_closed = true }) m

-- What `AwaitClose` does once the count of the WaitGroup is 0.
unfoldable pub close_out : MultiStream → MultiStream
close_out m = record m { out_closed = true }

-- `Append` is not called once `AwaitClose` has returned, and `AwaitClose` is called once, as a second
-- close of a channel panics.
pub data Step (m : MultiStream) : MultiStream → Type 0 where
  appends : (n : ℕ) → m.out_closed ≡ false → Step m (append n m)
  takes :
      (i : ℕ) (c : Chunk)
      → i < m.count
      → (m.feeder i).phase ≡ receiving
      → (m.feeder i).source_closed ≡ false
      → Step m (take_chunk i c m)
  sends :
      (i : ℕ) (c : Chunk)
      → i < m.count
      → (m.feeder i).phase ≡ sending c
      → m.out_closed ≡ false
      → Step m (send_chunk i c m)
  sends_closed :
      (i : ℕ) (c : Chunk)
      → i < m.count
      → (m.feeder i).phase ≡ sending c
      → m.out_closed ≡ true
      → Step m (record m { crashed = true })
  finishes :
      (i : ℕ)
      → i < m.count
      → (m.feeder i).phase ≡ receiving
      → (m.feeder i).source_closed ≡ true
      → Step m (finish i m)
  closes_source : (i : ℕ) → i < m.count → Step m (close_source i m)
  awaits : m.wg ≡ 0 → m.out_closed ≡ false → Step m (close_out m)

pub data Reach : MultiStream → Type 0 where
  start : Reach new_multi_stream
  later : {m u : MultiStream} → Reach m → Step m u → Reach u
