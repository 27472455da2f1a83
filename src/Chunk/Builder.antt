-- ===== src/Chunk/Builder.antt =====
-- chunk/builder.go. A builder is used by one goroutine, so its locks have no part in the model.
pub mod Progress
use rtmp.Base.{
  ℕ, ◌+◌, ◌-◌, List, [], ◌∷◌, ◌++◌, if◌then◌else◌, length, too_many_bytes, Result, ok, err,
  panicked, Exec,
}
use rtmp.Base.Int.{ℤ, pos, negsuc, ◌+ℤ◌, ◌-ℤ◌, ltb_ℤ}
use rtmp.Io.{read_full}
use rtmp.Chunk.Header.{Header}
use rtmp.Chunk.Chunk.{Chunk}

pub record Builder : Type 0 where
  pub header : Header
  pub payloads : List (List ℕ)
  pub left : ℤ

unfoldable pub new_builder : Header → Builder
new_builder h = record { header = h; payloads = []; left = pos h.message_header.length }

-- The loop of `Build` over the payloads.
abbrev pub concat : List (List ℕ) → List ℕ
concat [] = []
concat (p ∷ ps) = p ++ concat ps

unfoldable pub build : Builder → Chunk
build b = record { header = b.header; contents = concat b.payloads }

-- The length of the slice, or an error, after the builder has taken the slice.
unfoldable pub append : List ℕ → Exec Builder ℕ
append slice b =
    let b' = record b { payloads = b.payloads ++ slice ∷ []; left = b.left -ℤ length slice } in
    if ltb_ℤ b'.left (pos 0) then (err too_many_bytes, b') else (ok (length slice), b')

unfoldable pub add_left : ℤ → Builder → Builder
add_left delta b = record b { left = b.left +ℤ delta }

unfoldable pub bytes_left : Builder → ℤ
bytes_left b = b.left

abbrev pub append_read : Builder → Result (List ℕ) × List ℕ → Result ℕ × Builder × List ℕ
append_read b (ok buf, s) = let (r, b') = append buf b in (r, b', s)
append_read b (err e, s) = (err e, b, s)
append_read b (panicked, s) = (panicked, b, s)

-- `make([]byte, n)` panics on a negative `n`.
unfoldable pub read : ℤ → Builder → List ℕ → Result ℕ × Builder × List ℕ
unfolding append
read (negsuc n) b s = (panicked, b, s)
read (pos n) b s = append_read b (read_full n s)
