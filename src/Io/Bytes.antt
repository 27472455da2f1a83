-- ===== src/Io/Bytes.antt =====
-- Reads from a source of bytes: what they return has a property, and what they leave are bytes.
use rtmp.Base.{
  ℕ, ◌^◌, ◌<◌, inl, inr, List, [], ◌∷◌, arith, take, drop, All, All-append_left, All-append_right,
  Result, ok, err, panicked, Exec, lift, proceed,
}
use mathlib.Core.Path.{subst}
use rtmp.Io.{read_full, read_one}
use rtmp.Io.Laws.{read_full-cases}
use rtmp.Spec.{uint32}

abbrev pub IsByte : ℕ → Type 0
IsByte b = b < 256

module _ {A : Type 0} where
  -- A call on bytes that has come back: with a value that `P` holds of, or with an error, and with
  -- bytes left; or by a panic.
  abbrev pub Ensures : (A → Type 0) → Result A × List ℕ → Type 0
  Ensures P (ok a, s) = P a × All IsByte s
  Ensures P (err e, s) = All IsByte s
  Ensures P (panicked, s) = Unit {0}

module _ {A B : Type 0} (P : A → Type 0) (Q : B → Type 0) where
  pub Ensures-proceed :
      (p : Result A × List ℕ) (f : A → Exec (List ℕ) B)
      → Ensures P p
      → ((a : A) (s : List ℕ) → P a → All IsByte s → Ensures Q (f a s))
      → Ensures Q (proceed p f)
  Ensures-proceed (ok a, s) f (h, hs) next = next a s h hs
  Ensures-proceed (err e, s) f hs next = hs
  Ensures-proceed (panicked, s) f h next = tt

-- Any value will do.
abbrev pub Any : {A : Type 0} → A → Type 0
Any a = Unit {0}

pub Ensures-lift : {A : Type 0} (r : Result A) (s : List ℕ) → All IsByte s → Ensures Any (lift r s)
Ensures-lift (ok a) s hs = (tt, hs)
Ensures-lift (err e) s hs = hs
Ensures-lift panicked s hs = tt

pub Ensures-read_full : (n : ℕ) (s : List ℕ) → All IsByte s → Ensures (All IsByte) (read_full n s)
Ensures-read_full n s hs = elim (read_full-cases n s) [
  | inl (xs, rest, e, front, len) ↦
      let h = subst (All IsByte) front hs in
      rw e (All-append_left IsByte xs rest h, All-append_right IsByte xs rest h)
  | inr (x, e) ↦ rw e tt
]

pub Ensures-read_one : (s : List ℕ) → All IsByte s → Ensures IsByte (read_one s)
unfolding read_one
Ensures-read_one [] hs = tt
Ensures-read_one (b ∷ s) hs = hs

-- Three bytes of a buffer make a number below 2^24.
pub Ensures-uint32_three :
    (buf s : List ℕ)
    → All IsByte buf
    → All IsByte s
    → Ensures (λ n. n < 2 ^ 24) (lift (uint32 (take 3 (drop 3 buf))) s)
unfolding uint32 rtmp.Spec.pad
Ensures-uint32_three [] s h hs = (omega arith, hs)
Ensures-uint32_three (a ∷ []) s h hs = (omega arith, hs)
Ensures-uint32_three (a ∷ b ∷ []) s h hs = (omega arith, hs)
Ensures-uint32_three (a ∷ b ∷ c ∷ []) s h hs = (omega arith, hs)
Ensures-uint32_three (a ∷ b ∷ c ∷ d ∷ []) s (ha, (hb, (hc, (hd, h)))) hs = (omega arith, hs)
Ensures-uint32_three (a ∷ b ∷ c ∷ d ∷ e ∷ []) s (ha, (hb, (hc, (hd, (he, h))))) hs =
    (omega arith, hs)
Ensures-uint32_three (a ∷ b ∷ c ∷ d ∷ e ∷ f ∷ l) s (ha, (hb, (hc, (hd, (he, (hf, h)))))) hs =
    (omega arith, hs)

-- The steps of a `do` block: a read of some bytes, and a value that is computed.
module _ {B : Type 0} (Q : B → Type 0) where
  pub after_read_full :
      (n : ℕ) (s : List ℕ) (f : List ℕ → Exec (List ℕ) B)
      → All IsByte s
      → ((buf s' : List ℕ) → All IsByte buf → All IsByte s' → Ensures Q (f buf s'))
      → Ensures Q (proceed (read_full n s) f)
  after_read_full n s f hs next =
      Ensures-proceed (All IsByte) Q (read_full n s) f (Ensures-read_full n s hs) next

  pub after_lift :
      {A : Type 0} (r : Result A) (s : List ℕ) (f : A → Exec (List ℕ) B)
      → All IsByte s
      → ((a : A) (s' : List ℕ) → All IsByte s' → Ensures Q (f a s'))
      → Ensures Q (proceed (lift r s) f)
  after_lift r s f hs next =
      Ensures-proceed Any Q (lift r s) f (Ensures-lift r s hs) (λ a s' _ hs'. next a s' hs')

  pub after_uint32_three :
      (buf s : List ℕ) (f : ℕ → Exec (List ℕ) B)
      → All IsByte buf
      → All IsByte s
      → ((n : ℕ) (s' : List ℕ) → n < 2 ^ 24 → All IsByte s' → Ensures Q (f n s'))
      → Ensures Q (proceed (lift (uint32 (take 3 (drop 3 buf))) s) f)
  after_uint32_three buf s f hb hs next =
      Ensures-proceed (λ n. n < 2 ^ 24) Q (lift (uint32 (take 3 (drop 3 buf))) s) f
        (Ensures-uint32_three buf s hb hs) next
