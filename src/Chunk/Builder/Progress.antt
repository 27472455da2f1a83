-- ===== src/Chunk/Builder/Progress.antt =====
-- What a builder has received and what it still wants.
use rtmp.Base.{
  ℕ, ◌-◌, ◌≤◌, ◌<◌, ◌≡◌, refl, sym, ap, ◌∙◌, List, [], ◌∷◌, ◌++◌, append-nil, append_assoc, arith,
  le→ltb, lt→leb, length, too_many_bytes, ok, err,
}
use rtmp.Base.Int.{pos, sub_ℕ-of_le}
use rtmp.Io.Laws.{read_full-append}
use rtmp.Chunk.Header.{Header}
use rtmp.Chunk.Builder.{Builder, new_builder, concat, build, append, read}

pub concat-append : (ps : List (List ℕ)) (xs : List ℕ) → concat (ps ++ xs ∷ []) ≡ concat ps ++ xs
concat-append [] xs = append-nil xs
concat-append (p ∷ ps) xs =
    ap (λ l. p ++ l) (concat-append ps xs) ∙ sym (append_assoc p (concat ps) xs)

-- The builder has received `got`, and `want` bytes are missing.
pub record Holds (b : Builder) (h : Header) (got : List ℕ) (want : ℕ) : Type 0 where
  pub header_is : b.header ≡ h
  pub left_is : b.left ≡ pos want
  pub got_is : concat b.payloads ≡ got

pub Holds-new_builder : (h : Header) → Holds (new_builder h) h [] h.message_header.length
unfolding new_builder
Holds-new_builder h = record { header_is = refl; left_is = refl; got_is = refl }

-- A slice that is not longer than what is missing is taken without an error, and is missing no more.
pub Holds-append :
    (b : Builder) (h : Header) (got slice : List ℕ) (want : ℕ)
    → Holds b h got want
    → length slice ≤ want
    → ((append slice b).0 ≡ ok (length slice))
      × Holds (append slice b).1 h (got ++ slice) (want - length slice)
unfolding append
Holds-append b h got slice want v fits = simp v.left_is (
    rw (sub_ℕ-of_le want (length slice) fits, le→ltb (want - length slice) 0 (omega arith))
      (
        refl,
        record {
          header_is = v.header_is;
          left_is = refl;
          got_is = concat-append b.payloads slice ∙ ap (λ l. l ++ slice) v.got_is;
        },
      ))

-- A slice that is longer is an error, and is kept all the same.
pub append_too_many :
    (b : Builder) (h : Header) (got slice : List ℕ) (want : ℕ)
    → Holds b h got want
    → want < length slice
    → ((append slice b).0 ≡ err too_many_bytes)
      × ((build (append slice b).1).contents ≡ got ++ slice)
unfolding append build
append_too_many b h got slice want v over = simp v.left_is (
    rw (lt→leb (length slice) want over)
      (refl, concat-append b.payloads slice ∙ ap (λ l. l ++ slice) v.got_is))

-- Reading a part that is there, and no more than is missing.
pub read-part :
    (b : Builder) (h : Header) (got part rest : List ℕ) (want n : ℕ)
    → Holds b h got want
    → length part ≡ n
    → n ≤ want
    → read (pos n) b (part ++ rest) ≡ (ok n, (append part b).1, rest)
unfolding read
read-part b h got part rest want n v e fits =
    rw (read_full-append n part rest e, (Holds-append b h got part want v (omega arith)).0, e)
