-- ===== src/Chunk/Reader/Balance.antt =====
-- A builder of the reader of chunk/default_reader.go has received and wants what its header announces.
use rtmp.Base.{ℕ, ◌+◌, ◌-◌, ◌≤◌, ◌≡◌, refl, List, arith, le→ltb, length, length-append}
use rtmp.Base.Int.{pos, sub_ℕ-of_le}
use rtmp.Chunk.Header.{Header}
use rtmp.Chunk.Builder
use rtmp.Chunk.Builder.{Builder, new_builder, build, bytes_left}
use rtmp.Chunk.Builder.{concat}
use rtmp.Chunk.Builder.Progress.{concat-append}

-- What a builder has received and what it still wants make the length that its header announced.
pub record IsBalanced (b : Builder) : Type 0 where
  pub want : ℕ
  pub left_is : b.left ≡ pos want
  pub adds_up : length (concat b.payloads) + want ≡ b.header.message_header.length

pub IsBalanced-new_builder : (h : Header) → IsBalanced (new_builder h)
unfolding new_builder
IsBalanced-new_builder h = record {
  want = h.message_header.length;
  left_is = refl;
  adds_up = omega arith;
}

pub IsBalanced-append :
    (b : Builder) (slice : List ℕ)
    → (v : IsBalanced b) → length slice ≤ v.want
    → IsBalanced (Builder.append slice b).1
unfolding Builder.append
IsBalanced-append b slice v fits = simp v.left_is (
    rw (sub_ℕ-of_le v.want (length slice) fits, le→ltb (v.want - length slice) 0 (omega arith))
      (record {
        want = v.want - length slice;
        left_is = refl;
        adds_up = rw (concat-append b.payloads slice, length-append) (omega (arith, v.adds_up));
      }))
