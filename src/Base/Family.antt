-- ===== src/Base/Family.antt =====
-- Families `ℕ → A`, such as goroutines by number: a change at one index, and a count over the first.
use Prim.Native.Nat.{ℕ, zero, suc, ◌+◌, ◌≤◌, ◌<◌}
use mathlib.Core.Path.{◌≡◌, refl, sym, ap, ◌∙◌}
use mathlib.Core.Logic.{◌≢◌, inl, inr}
use mathlib.Core.Bool.{Bool, true, false}
use native.Mathlib.Omega.{arith}
use rtmp.Base.Tests.{◌==◌, if◌then◌else◌, ==_iff, equal-cases, ne→==, Bool-cases}

abbrev pub changed {ℓ} : {A : Type ℓ} → (ℕ → A) → ℕ → A → ℕ → A
changed f i a j = if i == j then a else f j

pub changed_same {ℓ} : {A : Type ℓ} (f : ℕ → A) (i j : ℕ) (a : A) → i ≡ j → changed f i a j ≡ a
changed_same f i j a e = rw ((==_iff i j).1 e)

pub changed_other {ℓ} : {A : Type ℓ} (f : ℕ → A) (i j : ℕ) (a : A) → i ≢ j → changed f i a j ≡ f j
changed_other f i j a ne = rw (ne→== i j ne)

module _ {ℓ} {A : Type ℓ} (p : A → Bool) where
  -- How many of the first `n` pass the test.
  unfoldable pub tally : ℕ → (ℕ → A) → ℕ
  tally zero f = 0
  tally (suc n) f = (if p (f n) then 1 else 0) + tally n f

  tally-changed_above :
      (n : ℕ) (f : ℕ → A) (i : ℕ) (a : A) → n ≤ i → tally n (changed f i a) ≡ tally n f
  unfolding tally
  tally-changed_above zero f i a above = refl
  tally-changed_above (suc n) f i a above =
      ground (arith, changed_other f i n a, tally-changed_above n f i a)

  -- One that passes the test and is changed to one that does not.
  pub tally-changed_drop :
      (n : ℕ) (f : ℕ → A) (i : ℕ) (a : A)
      → i < n
      → p (f i) ≡ true
      → p a ≡ false
      → tally n f ≡ suc (tally n (changed f i a))
  unfolding tally
  tally-changed_drop zero f i a below was now = absurd (omega arith)
  tally-changed_drop (suc n) f i a below was now = elim (equal-cases i n) [
    | inl same ↦
        rw
          (
            ap (λ j. p (f j)) (sym same) ∙ was,
            ap p (changed_same f i n a same) ∙ now,
            tally-changed_above n f i a (omega arith),
          )
          (omega arith)
    | inr other ↦
        rw (changed_other f i n a other)
          (omega (arith, tally-changed_drop n f i a (omega arith) was now))
  ]

  -- A change that keeps the test keeps the count.
  pub tally-changed_keep :
      (n : ℕ) (f : ℕ → A) (i : ℕ) (a : A) → p a ≡ p (f i) → tally n (changed f i a) ≡ tally n f
  unfolding tally
  tally-changed_keep zero f i a same = refl
  tally-changed_keep (suc n) f i a same = elim (equal-cases i n) [
    | inl here ↦ rw (
      ap p (changed_same f i n a here) ∙ same ∙ ap (λ j. p (f j)) here,
      tally-changed_above n f i a (omega arith),
    )
    | inr other ↦ rw (changed_other f i n a other, tally-changed_keep n f i a same)
  ]

  -- More elements that all pass.
  pub tally_more :
      (n k : ℕ) (f : ℕ → A) → ((i : ℕ) → n ≤ i → p (f i) ≡ true) → tally (n + k) f ≡ tally n f + k
  unfolding tally
  tally_more n zero f all = let e : n + 0 ≡ n = omega arith in rw e (omega arith)
  tally_more n (suc k) f all =
      let e : n + suc k ≡ suc (n + k) = omega arith in
      rw (e, tally) (rw (all (n + k) (omega arith)) (omega (arith, tally_more n k f all)))

  head_counts : (n : ℕ) (f : ℕ → A) → p (f n) ≡ true → tally (suc n) f ≡ suc (tally n f)
  unfolding tally
  head_counts n f e = rw e (omega arith)

  head_skips : (n : ℕ) (f : ℕ → A) → p (f n) ≡ false → tally (suc n) f ≡ tally n f
  unfolding tally
  head_skips n f e = rw e (omega arith)

  -- A count of 0 has none that passes.
  pub tally-eq-zero : (n : ℕ) (f : ℕ → A) (i : ℕ) → tally n f ≡ 0 → i < n → p (f i) ≡ false
  unfolding tally
  tally-eq-zero zero f i none below = absurd (omega arith)
  tally-eq-zero (suc n) f i none below = elim (Bool-cases (p (f n))) [
    | inl yes_n ↦ absurd (omega (arith, head_counts n f yes_n))
    | inr no_n ↦ elim (equal-cases i n) [
      | inl same ↦ ap (λ j. p (f j)) same ∙ no_n
      | inr other ↦ tally-eq-zero n f i (omega (arith, head_skips n f no_n)) (omega arith)
    ]
  ]
