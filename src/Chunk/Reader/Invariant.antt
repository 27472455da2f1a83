-- ===== src/Chunk/Reader/Invariant.antt =====
-- What holds of the reader whatever bytes it is given.
use rtmp.Base.{
  ℕ, zero, suc, ◌≤◌, ◌≡◌, refl, ◌⊎◌, inl, inr, List, [], ◌∷◌, ◌++◌, arith, ◌==◌, Bool-cases,
  Option-cases, ==_iff, length, All, All-append, Error, Result, ok, err, panicked, pure, proceed,
  ◌>>=◌,
}
use rtmp.Base.Int.{pos}
use rtmp.Base.FinMap
use rtmp.Base.FinMap.{FinMap, AllValues, AllValues-put, AllValues-remove}
use rtmp.Io.{read_full}
use rtmp.Spec
use rtmp.Spec.{
  uint16, uint32, little_endian_uint32, bytes16, bytes24, bytes32, bytes32_le, put_uint8,
  put_uint16, put_uint24, put_uint32, little_endian_put_uint32, read_byte, read_bytes,
}
use rtmp.Spec.RoundTrip.{min-pos}
use rtmp.Chunk.Header
use rtmp.Chunk.Header.{Header}
use rtmp.Chunk.Chunk.{Chunk, type_id}
use rtmp.Chunk.Normalizer.{Normalizer, normalize}
use rtmp.Chunk.Builder
use rtmp.Chunk.Builder.{Builder, new_builder, build, bytes_left}
use rtmp.Chunk.Builder.Progress.{Holds}
use rtmp.Chunk.Reader.{
  DefaultReader, Event, chunk, error, new_reader, update_chunk_size, builder, remove_builder,
  deliver, receive, after_header, iterate, recv,
}
use rtmp.Chunk.Builder.{concat}
use rtmp.Chunk.Reader.Parts.{part, complete as complete_chunk}
use rtmp.Chunk.Builder.Progress.{read-part}
use rtmp.Io.Laws.{read_full-cases}
use rtmp.Spec.{be_uint32}
use native.Mathlib.Decide.{dec_le}
use rtmp.Chunk.Reader.Balance.{IsBalanced, IsBalanced-new_builder, IsBalanced-append}

-- The read size is no negative number, and every builder is balanced.
pub record IsConsistent (r : DefaultReader) : Type 0 where
  pub size : ℕ
  pub size_is : r.read_size ≡ pos size
  pub balanced : AllValues IsBalanced r.builders

-- A chunk has the length that its header announces.
abbrev pub HasLength : Event → Type 0
HasLength (chunk c) = length c.contents ≡ c.header.message_header.length
HasLength (error e) = Unit {0}

-- After a round: what was sent has its length, and the reader is consistent; a panic is possible.
abbrev pub IsSound : Result (List Event) × DefaultReader → Type 0
IsSound (ok es, r) = All HasLength es × IsConsistent r
IsSound (err e, r) = ⊥
IsSound (panicked, r) = Unit {0}

be_uint32-cases : (l : List ℕ) → ((n : ℕ) × (be_uint32 l ≡ ok n)) ⊎ (be_uint32 l ≡ panicked)
be_uint32-cases [] = inr refl
be_uint32-cases (a ∷ []) = inr refl
be_uint32-cases (a ∷ b ∷ []) = inr refl
be_uint32-cases (a ∷ b ∷ c ∷ []) = inr refl
be_uint32-cases (a ∷ b ∷ c ∷ d ∷ l) = inl (_, refl)

IsSound-complete :
    (id : ℕ) (c : Chunk) (r : DefaultReader)
    → length c.contents ≡ c.header.message_header.length
    → IsConsistent r
    → IsSound (complete_chunk id c r)
unfolding update_chunk_size remove_builder
IsSound-complete id c r len v = elim (Bool-cases (type_id c == 1)) [
  | inl chunk_size ↦ elim (be_uint32-cases c.contents) [
    | inl (n, e) ↦
        rw (chunk_size, e)
          (
            tt,
            record {
              size = n;
              size_is = refl;
              balanced = AllValues-remove IsBalanced r.builders id v.balanced;
            },
          )
    | inr e ↦ rw (chunk_size, e) tt
  ]
  | inr other ↦ rw other (
    (len, tt),
    record {
      size = v.size;
      size_is = v.size_is;
      balanced = AllValues-remove IsBalanced r.builders id v.balanced;
    },
  )
]

IsSound-deliver :
    (id : ℕ) (b : Builder) (r : DefaultReader)
    → IsBalanced b
    → IsConsistent r
    → IsSound (deliver id b r)
unfolding deliver
IsSound-deliver id b r v w = elim (Bool-cases (v.want == 0)) [
  | inl done ↦
      rw (v.left_is, done)
        (IsSound-complete id (build b) r
          (unfold build in omega (arith, v.adds_up, (==_iff v.want 0).0 done)) w)
  | inr more ↦ rw (v.left_is, more) (tt, w)
]

-- The part that a round reads is no longer than what is missing.
min-want : (want size : ℕ) → (k : ℕ) × (Spec.min (pos want) (pos size) ≡ pos k) × (k ≤ want)
min-want want size = elim (dec_le want size) [
  | yes h ↦ (want, (min-pos want size h).0, omega arith)
  | no h ↦ (size, (min-pos size want (omega arith)).1, omega arith)
]

Holds-IsBalanced : (b : Builder) (v : IsBalanced b) → Holds b b.header (concat b.payloads) v.want
Holds-IsBalanced b v = record { header_is = refl; left_is = v.left_is; got_is = refl }

-- Reading as much as the reader does leaves the builder balanced, or as it was.
read-IsBalanced :
    (b : Builder) (s : List ℕ) (size : ℕ)
    → IsBalanced b
    → ((n : ℕ) × (b' : Builder) × (rest : List ℕ) × (Builder.read
            (Spec.min (bytes_left b) (pos size))
            b
            s
          ≡ (ok n, b', rest))
        × IsBalanced b')
      ⊎ ((e : Error) × (Builder.read (Spec.min (bytes_left b) (pos size)) b s ≡ (err e, b, [])))
unfolding bytes_left
read-IsBalanced b s size v =
    let (k, e, fits) = min-want v.want size in
    elim (read_full-cases k s) [
      | inl (xs, rest, rf, front, len) ↦ inl (
        k,
        (Builder.append xs b).1,
        rest,
        simp (v.left_is, front)
            (rw e (
              read-part b b.header (concat b.payloads) xs rest v.want k (Holds-IsBalanced b v) len
                fits)),
        IsBalanced-append b xs v (omega arith),
      )
      | inr (x, rf) ↦ inr (x, simp v.left_is (rw e (read_failed k b s x rf)))
    ]
  where
    read_failed :
        (k : ℕ) (b : Builder) (s : List ℕ) (x : Error)
        → read_full k s ≡ (err x, [])
        → Builder.read (pos k) b s ≡ (err x, b, [])
    read_failed k b s x rf = unfold Builder.read in rw rf

put_builder-IsConsistent :
    (id : ℕ) (b : Builder) (s : List ℕ) (r : DefaultReader)
    → IsBalanced b
    → IsConsistent r
    → IsConsistent (record r { builders = FinMap.put r.builders id b; source = s })
put_builder-IsConsistent id b s r v w = record {
  size = w.size;
  size_is = w.size_is;
  balanced = AllValues-put IsBalanced r.builders id b w.balanced v;
}

IsSound-part :
    (id : ℕ) (b : Builder) (r : DefaultReader)
    → IsBalanced b
    → IsConsistent r
    → IsSound (part id b r)
IsSound-part id b r v w = elim (read-IsBalanced b r.source w.size v) [
  | inl (n, b', rest, e, v') ↦
      simp w.size_is
        (rw e (IsSound-deliver id b' _ v' (put_builder-IsConsistent id b' rest r v' w)))
  | inr (x, e) ↦ simp w.size_is (rw e ((tt, tt), put_builder-IsConsistent id b [] r v w))
]

IsSound-builder :
    (h : Header) (r : DefaultReader)
    → IsConsistent r
    → IsBalanced (builder h r).0 × IsConsistent (builder h r).1
unfolding builder
IsSound-builder h r w = elim (Option-cases (FinMap.get r.builders h.basic_header.stream_id)) [
  | inl e ↦
      rw (e, builder)
        (
          IsBalanced-new_builder h,
          put_builder-IsConsistent h.basic_header.stream_id (new_builder h) r.source r
              (IsBalanced-new_builder h) w,
        )
  | inr (b, e) ↦ rw (e, builder) (w.balanced h.basic_header.stream_id b e, w)
]

IsSound-receive : (h : Header) (r : DefaultReader) → IsConsistent r → IsSound (receive h r)
unfolding receive
IsSound-receive h r w =
    let h' = (normalize h r.normalizer).0 in
    let r' : DefaultReader = record r { normalizer = (normalize h r.normalizer).1 } in
    let q =
      IsSound-builder h' r'
        (record { size = w.size; size_is = w.size_is; balanced = w.balanced }) in
    IsSound-part h'.basic_header.stream_id (builder h' r').0 (builder h' r').1 q.0 q.1

IsSound-after_header :
    (r : DefaultReader) (p : Result Header × List ℕ) → IsConsistent r → IsSound (after_header r p)
IsSound-after_header r (ok h, s) w =
    IsSound-receive h (record r { source = s })
      (record { size = w.size; size_is = w.size_is; balanced = w.balanced })
IsSound-after_header r (err e, s) w =
    ((tt, tt), record { size = w.size; size_is = w.size_is; balanced = w.balanced })
IsSound-after_header r (panicked, s) w = tt

pub IsSound-iterate : (r : DefaultReader) → IsConsistent r → IsSound (iterate r)
unfolding iterate
IsSound-iterate r w = IsSound-after_header r (Header.read Header.empty r.source) w

IsSound-later :
    (es : List Event) (q : Result (List Event) × DefaultReader)
    → All HasLength es
    → IsSound q
    → IsSound (proceed q (λ later. pure (es ++ later)))
IsSound-later es (ok es', r) h (h', w) = (All-append HasLength es es' h h', w)
IsSound-later es (err e, r) h v = v
IsSound-later es (panicked, r) h v = tt

IsSound-rounds :
    (n : ℕ) (p : Result (List Event) × DefaultReader)
    → IsSound p
    → ((r : DefaultReader) → IsConsistent r → IsSound (recv n r))
    → IsSound (proceed p (λ sent. recv n >>= λ later. pure (sent ++ later)))
IsSound-rounds n (ok es, r) (h, w) next = IsSound-later es (recv n r) h (next r w)
IsSound-rounds n (err e, r) v next = v
IsSound-rounds n (panicked, r) v next = tt

-- Whatever bytes come in, after any number of rounds from a consistent reader: every chunk that was
-- sent has as many bytes as its header announces, every builder that is under way has received and
-- wants as many, and the loop has not ended by an error (a panic is possible).
pub recv-IsSound : (n : ℕ) (r : DefaultReader) → IsConsistent r → IsSound (recv n r)
unfolding recv
recv-IsSound zero r w = (tt, w)
recv-IsSound (suc n) r w = IsSound-rounds n (iterate r) (IsSound-iterate r w) (recv-IsSound n)

-- A new reader is consistent if its read size is not negative.
pub IsConsistent-new_reader :
    (s : List ℕ) (size : ℕ) (n : Normalizer) → IsConsistent (new_reader s (pos size) n)
unfolding new_reader FinMap.get
IsConsistent-new_reader s size n = record {
  size = size;
  size_is = refl;
  balanced = λ id b e. absurd (cc e);
}
