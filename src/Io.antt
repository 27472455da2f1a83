-- ===== src/Io.antt =====
-- What the packages use of Go's `io`, `bytes`, `encoding/binary` and `io/ioutil`.
-- An `io.Reader` is the list of the bytes that it will still deliver before it ends; an `io.Writer`
-- is a `Sink`: what it has taken, and how many bytes more it takes before it fails (`none` for one
-- that never fails, such as a `bytes.Buffer` or `ioutil.Discard`).
pub mod Laws
pub mod Bytes
use rtmp.Base.{
  ℕ, zero, suc, ◌-◌, Option, none, some, List, [], ◌∷◌, ◌++◌, length, take, leb, if◌then◌else◌,
  Result, ok, err, eof, unexpected_eof, write_failed, Exec,
}

abbrev pub Input : Type 0 → Type 0
Input A = Exec (List ℕ) A

-- The first `n` bytes and the rest, if there are so many.
unfoldable pub split : ℕ → List ℕ → Option (List ℕ × List ℕ)
split zero s = some ([], s)
split (suc n) [] = none
split (suc n) (b ∷ s) = elim (split n s) [ none ↦ none | some (xs, r) ↦ some (b ∷ xs, r) ]

abbrev pub filled : List ℕ → Option (List ℕ × List ℕ) → Result (List ℕ) × List ℕ
filled s (some (xs, r)) = (ok xs, r)
filled [] none = (err eof, [])
filled (b ∷ s) none = (err unexpected_eof, [])

-- io.ReadFull(r, buf) on a buffer of `n` bytes; what there is of too little is used up.
unfoldable pub read_full : ℕ → Input (List ℕ)
unfolding split
read_full n s = filled s (split n s)

-- r.Read(buf) on a buffer of one byte, and ReadByte of an `io.ByteReader`.
unfoldable pub read_one : Input ℕ
read_one [] = (err eof, [])
read_one (b ∷ s) = (ok b, s)

-- ioutil.ReadAll(r)
abbrev pub read_all : Input (List ℕ)
read_all s = (ok s, [])

pub record Sink : Type 0 where
  pub written : List ℕ
  pub room : Option ℕ

abbrev pub Output : Type 0
Output = Exec Sink (Unit {0})

-- w.Write(bs); a writer that fails may have taken a part.
unfoldable pub write : List ℕ → Output
write bs w = elim w.room [
  | none ↦ (ok tt, record w { written = w.written ++ bs })
  | some n ↦
      if leb (length bs) n
      then (ok tt, record { written = w.written ++ bs; room = some (n - length bs) })
      else (err write_failed, record { written = w.written ++ take n bs; room = some 0 })
]

-- A `bytes.Buffer` that holds `bs`.
abbrev pub buffer : List ℕ → Sink
buffer bs = record { written = bs; room = none }
