-- ===== src/Base/Calls.antt =====
-- What a Go call comes back with, and stateful calls: a call that fails may have changed the state
-- it works on, so the state comes back beside the error too.
use Prim.Native.Nat.{ℕ}
use Prim.Native.String.{String}
use mathlib.Core.Path.{◌≡◌, refl, ap}
use mathlib.Core.Option.{Option, none, some}
use mathlib.Core.List.{List}
use rtmp.Base.Lists.{get_elem?}

-- The error values of the packages, and those of `io` that they pass on.
pub data Error : Type 0 where
  eof unexpected_eof write_failed : Error
  unknown_format_id too_many_bytes : Error
  empty_chunk_stream : Error
  stream_exists : ℕ → Error
  unknown_control_type : ℕ → Error
  unsupported_version : ℕ → Error
  mismatched_challenge control_missing : Error
  unknown_type_id : ℕ → Error
  unknown_command : String → Error
  wrong_amf_header : Error
  amf : ℕ → Error

-- `panicked` is a run-time panic, such as an index out of range.
pub data Result {ℓ} (A : Type ℓ) : Type ℓ where
  ok : A → Result A
  err : Error → Result A
  panicked : Result A

-- A call that works on a state `S`.
abbrev pub Exec {ℓ} : Type ℓ → Type ℓ → Type ℓ
Exec S A = S → Result A × S

module _ {ℓ} {S A : Type ℓ} where
  abbrev pub pure : A → Exec S A
  pure a s = (ok a, s)

  abbrev pub raise : Error → Exec S A
  raise e s = (err e, s)

  abbrev pub lift : Result A → Exec S A
  lift r s = (r, s)

module _ {ℓ} {S A B : Type ℓ} where
  abbrev pub proceed : Result A × S → (A → Exec S B) → Result B × S
  proceed (ok a, s) f = f a s
  proceed (err e, s) f = (err e, s)
  proceed (panicked, s) f = (panicked, s)

  infixl 10 ◌>>=◌ ◌>>◌
  abbrev pub ◌>>=◌ : Exec S A → (A → Exec S B) → Exec S B
  ◌>>=◌ m f s = proceed (m s) f

  abbrev pub ◌>>◌ : Exec S A → Exec S B → Exec S B
  m >> n = m >>= λ _. n

-- `buf[i]`
module _ {ℓ} {A : Type ℓ} where
  abbrev pub or_panic : Option A → Result A
  or_panic none = panicked
  or_panic (some a) = ok a

  abbrev pub index : List A → ℕ → Result A
  index xs i = or_panic (get_elem? xs i)

-- Inversion of a call that succeeds in two steps.
pub proceed-eq-ok {ℓ} :
    {S A B : Type ℓ} (p : Result A × S) (f : A → Exec S B) {b : B} {s : S}
    → proceed p f ≡ (ok b, s)
    → (a : A) × (s' : S) × (p ≡ (ok a, s')) × (f a s' ≡ (ok b, s))
proceed-eq-ok (ok a, s') f h = (a, s', refl, h)
proceed-eq-ok (err e, s') f h = absurd (cc (ap (λ q. q.0) h))
proceed-eq-ok (panicked, s') f h = absurd (cc (ap (λ q. q.0) h))

abbrev from_ok {ℓ} : {A : Type ℓ} → A → Result A → A
from_ok d (ok a) = a
from_ok d (err e) = d
from_ok d panicked = d

pub ok-injective {ℓ} :
    {S A : Type ℓ} {a b : A} {s t : S}
    → ◌≡◌ {A = Result A × S} (ok a, s) (ok b, t)
    → (a ≡ b) × (s ≡ t)
ok-injective {a = a} h = (ap (λ q. from_ok a q.0) h, ap (λ q. q.1) h)
