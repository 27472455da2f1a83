-- ===== src/Io/Laws.antt =====
-- Reading a prefix that is there, reading too much, and writing to a buffer.
use rtmp.Base.{
  ◌⊎◌, inl, inr, ap, Error, ℕ, zero, suc, ◌<◌, ◌≡◌, refl, none, some, List, [], ◌∷◌, ◌++◌, length,
  arith, ok, err, eof, unexpected_eof,
}
use rtmp.Base.{ok-injective, sym, ◌∙◌}
use mathlib.Core.Path.{ap₂}
use rtmp.Io.{split, filled, read_full, write, buffer}

pub split-append :
    (n : ℕ) (xs rest : List ℕ) → length xs ≡ n → split n (xs ++ rest) ≡ some (xs, rest)
unfolding split
split-append zero [] rest h = refl
split-append zero (x ∷ xs) rest h = absurd (omega arith)
split-append (suc n) [] rest h = absurd (omega arith)
split-append (suc n) (x ∷ xs) rest h = rw (split-append n xs rest (omega arith))

split_short : (n : ℕ) (s : List ℕ) → length s < n → split n s ≡ none
unfolding split
split_short zero s h = absurd (omega arith)
split_short (suc n) [] h = refl
split_short (suc n) (b ∷ s) h = rw (split_short n s (omega arith))

-- Reading as many bytes as stand in front of `rest` returns them and leaves `rest`.
pub read_full-append :
    (n : ℕ) (xs rest : List ℕ) → length xs ≡ n → read_full n (xs ++ rest) ≡ (ok xs, rest)
unfolding read_full
read_full-append n xs rest h = rw (split-append n xs rest h)

-- Reading more than there is fails and uses up the input.
pub read_full_short :
    (n b : ℕ) (s : List ℕ) → length (b ∷ s) < n → read_full n (b ∷ s) ≡ (err unexpected_eof, [])
unfolding read_full
read_full_short n b s h = rw (split_short n (b ∷ s) h)

pub read_full_eof : (n : ℕ) → 0 < n → read_full n [] ≡ (err eof, [])
unfolding read_full
read_full_eof n h = rw (split_short n [] h)

-- A read returns as many bytes as were asked for, the first of the input, or fails.
split-cases :
    (n : ℕ) (s : List ℕ)
    → ((xs rest : List ℕ) × (split n s ≡ some (xs, rest)) × (s ≡ xs ++ rest) × (length xs ≡ n))
      ⊎ (split n s ≡ none)
unfolding split
split-cases zero s = inl ([], s, refl, refl, refl)
split-cases (suc n) [] = inr refl
split-cases (suc n) (b ∷ s) = elim (split-cases n s) [
  | inl (xs, rest, e, front, len) ↦ inl (b ∷ xs, rest, rw e, ap (λ l. b ∷ l) front, ap suc len)
  | inr e ↦ inr (rw e)
]

filled-none : (s : List ℕ) → (e : Error) × (filled s none ≡ (err e, []))
filled-none [] = (eof, refl)
filled-none (b ∷ s) = (unexpected_eof, refl)

pub read_full-cases :
    (n : ℕ) (s : List ℕ)
    → ((xs rest : List ℕ) × (read_full n s ≡ (ok xs, rest)) × (s ≡ xs ++ rest) × (length xs ≡ n))
      ⊎ ((e : Error) × (read_full n s ≡ (err e, [])))
unfolding read_full
read_full-cases n s = elim (split-cases n s) [
  | inl (xs, rest, e, front, len) ↦ inl (xs, rest, rw e, front, len)
  | inr e ↦ let (x, f) = filled-none s in inr (x, rw e f)
]

pub write-buffer : (bs out : List ℕ) → write bs (buffer out) ≡ (ok tt, buffer (out ++ bs))
unfolding write
write-buffer bs out = refl

-- What a read returned stood in front of what is left.
pub read_full_inv :
    (n : ℕ) (s xs rest : List ℕ)
    → read_full n s ≡ (ok xs, rest)
    → (s ≡ xs ++ rest) × (length xs ≡ n)
read_full_inv n s xs rest e = elim (read_full-cases n s) [
  | inl (ys, more, f, front, len) ↦
      let (same, left) = ok-injective (sym f ∙ e) in
      (front ∙ ap₂ ◌++◌ same left, ap length (sym same) ∙ len)
  | inr (x, f) ↦ absurd (cc (ap (λ p. p.0) (sym f ∙ e)))
]
