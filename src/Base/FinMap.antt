-- ===== src/Base/FinMap.antt =====
-- Go's maps with `uint32` or `byte` keys. The order of `range` over a map is not fixed in Go; where
-- the program ranges over one, the entries are those of this list.
use Prim.Native.Nat.{ℕ}
use mathlib.Core.Path.{◌≡◌, sym, ap, ◌∙◌, subst}
use mathlib.Core.Logic.{◌≢◌, ◌⊎◌, inl, inr}
use mathlib.Core.Option.{Option, none, some, some-injective}
use mathlib.Core.List.{List, [], ◌∷◌}
use native.Mathlib.Omega.{arith}
use rtmp.Base.Tests.{◌==◌, equal-cases, ==_iff, ne→==, if◌then◌else◌}

abbrev pub FinMap {ℓ} : Type ℓ → Type ℓ
FinMap V = List (ℕ × V)

module _ {ℓ} {V : Type ℓ} where
  -- m[k]; a missing key is Go's nil
  unfoldable pub get : FinMap V → ℕ → Option V
  get [] k = none
  get ((j, v) ∷ m) k = if j == k then some v else get m k

  -- delete(m, k)
  unfoldable pub remove : FinMap V → ℕ → FinMap V
  remove [] k = []
  remove ((j, v) ∷ m) k = let rest = remove m k in if j == k then rest else (j, v) ∷ rest

  -- m[k] = v
  unfoldable pub put : FinMap V → ℕ → V → FinMap V
  unfolding remove
  put m k v = (k, v) ∷ remove m k

  pub get-remove :
      (m : FinMap V) (k j : ℕ) → get (remove m k) j ≡ (if k == j then none else get m j)
  unfolding get remove
  get-remove [] k j = ground arith
  get-remove ((i, v) ∷ m) k j = ground (arith, get-remove m k j)

  pub get-put :
      (m : FinMap V) (k j : ℕ) (v : V) → get (put m k v) j ≡ (if k == j then some v else get m j)
  unfolding get put
  get-put m k j v = ground (arith, get-remove m k j)

  pub get-put_same : (m : FinMap V) (k : ℕ) (v : V) → get (put m k v) k ≡ some v
  get-put_same m k v = ground (arith, get-put m k k v)

  pub get-put_other : (m : FinMap V) (k j : ℕ) (v : V) → k ≢ j → get (put m k v) j ≡ get m j
  get-put_other m k j v ne = ground (arith, get-put m k j v)

  -- A value found after a `put` is the one put, or was there before under another key.
  pub get-put_inv :
      (m : FinMap V) (k j : ℕ) (v a : V)
      → get (put m k v) j ≡ some a
      → ((k ≡ j) × (v ≡ a)) ⊎ ((k ≢ j) × (get m j ≡ some a))
  get-put_inv m k j v a e = elim (equal-cases k j) [
    | inl same ↦
        inl (same, some-injective v a (sym (get-put_same m k v) ∙ ap (get (put m k v)) same ∙ e))
    | inr other ↦ inr (other, sym (get-put_other m k j v other) ∙ e)
  ]

-- A predicate holds of every value of a map.
module _ {ℓ} {V : Type ℓ} (P : V → Type 0) where
  abbrev pub AllValues : FinMap V → Type ℓ
  AllValues m = (k : ℕ) (v : V) → get m k ≡ some v → P v

  pub AllValues-put : (m : FinMap V) (k : ℕ) (v : V) → AllValues m → P v → AllValues (put m k v)
  AllValues-put m k v all h j u e = elim (get-put_inv m k j v u e) [
    | inl (same, here) ↦ subst P here h
    | inr (other, before) ↦ all j u before
  ]

  pub AllValues-remove : (m : FinMap V) (k : ℕ) → AllValues m → AllValues (remove m k)
  AllValues-remove m k all j u e = elim (equal-cases k j) [
    | inl same ↦ absurd (
        cc (sym e ∙ get-remove m k j ∙ ap (λ b. if b then none else get m j) ((==_iff k j).1 same)))
    | inr other ↦
        all j u (
          ap (λ b. if b then none else get m j) (sym (ne→== k j other))
          ∙ sym (get-remove m k j)
          ∙ e)
  ]

pub ruleset map_laws = (get-remove, get-put)
