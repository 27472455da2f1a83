-- ===== src/Chunk/MultiStream/Delivery.antt =====
-- What chunk/multi_stream.go sends, in every order of the steps of its goroutines.
use rtmp.Base.{
  ℕ, ◌+◌, ◌-◌, ◌≤◌, ◌<◌, ◌≡◌, ◌≢◌, refl, sym, ap, ◌∙◌, inl, inr, Bool, true, false, List, [], ◌∷◌,
  ◌++◌, append-nil, arith, ◌==◌, if◌then◌else◌, Bool-cases, ==_refl, ne→==,
}
use rtmp.Chunk.Chunk.{Chunk}
use mathlib.Core.Path.{subst}
use rtmp.Base.{equal-cases}
use rtmp.Base.Family.{
  changed, changed_same, changed_other, tally, tally-changed_drop, tally-changed_keep, tally_more,
  tally-eq-zero,
}
use rtmp.Chunk.MultiStream
use rtmp.Chunk.MultiStream.{
  Phase, receiving, sending, finished, Feeder, MultiStream, new_feeder, new_multi_stream, Step,
  appends, takes, sends, sends_closed, finishes, closes_source, awaits, Reach, start, later,
}

-- The chunks that goroutine `i` has sent on the channel `out`, in their order.
unfoldable pub sent_by : ℕ → List (ℕ × Chunk) → List Chunk
sent_by i [] = []
sent_by i ((j, c) ∷ out) = let more = sent_by i out in if i == j then c ∷ more else more

-- The chunk that a goroutine has received and not sent.
abbrev pub holding : Phase → List Chunk
holding receiving = []
holding (sending c) = c ∷ []
holding finished = []

abbrev pub is_running : Feeder → Bool
is_running f = elim f.phase [ receiving ↦ true | sending c ↦ true | finished ↦ false ]

sent_by-append :
    (i : ℕ) (xs ys : List (ℕ × Chunk)) → sent_by i (xs ++ ys) ≡ sent_by i xs ++ sent_by i ys
unfolding sent_by
sent_by-append i [] ys = refl
sent_by-append i ((j, c) ∷ xs) ys = elim (Bool-cases (i == j)) [
  | inl e ↦ rw (e, sent_by-append i xs ys)
  | inr e ↦ rw (e, sent_by-append i xs ys)
]

sent_by_same :
    (i : ℕ) (c : Chunk) (out : List (ℕ × Chunk))
    → sent_by i (out ++ (i, c) ∷ []) ≡ sent_by i out ++ c ∷ []
unfolding sent_by
sent_by_same i c out = sent_by-append i out ((i, c) ∷ []) ∙ rw (==_refl i)

sent_by_other :
    (i j : ℕ) (c : Chunk) (out : List (ℕ × Chunk))
    → i ≢ j
    → sent_by j (out ++ (i, c) ∷ []) ≡ sent_by j out
unfolding sent_by
sent_by_other i j c out ne =
    sent_by-append j out ((i, c) ∷ [])
    ∙ rw (ne→== j i (λ e. ne (sym e))) (append-nil (sent_by j out))

pub record Inv (m : MultiStream) : Type 0 where
  pub counted : m.wg ≡ tally is_running m.count m.feeder
  pub unborn : (i : ℕ) → m.count ≤ i → m.feeder i ≡ new_feeder
  pub kept : (i : ℕ) → sent_by i m.out ++ holding (m.feeder i).phase ≡ (m.feeder i).given
  pub ended : (i : ℕ) → (m.feeder i).phase ≡ finished → (m.feeder i).source_closed ≡ true
  pub quiet : m.out_closed ≡ true → m.wg ≡ 0
  pub sound : m.crashed ≡ false

Inv-new_multi_stream : Inv new_multi_stream
unfolding new_multi_stream sent_by tally
Inv-new_multi_stream = record {
  counted = refl;
  unborn = λ i h. refl;
  kept = λ i. refl;
  ended = λ i e. absurd (cc e);
  quiet = λ e. refl;
  sound = refl;
}

-- A step of one goroutine, which becomes `f`.
module _ (m : MultiStream) (inv : Inv m) (i : ℕ) (f : Feeder) where
  Inv-changed :
      (out : List (ℕ × Chunk)) (wg : ℕ)
      → i < m.count
      → wg ≡ tally is_running m.count (changed m.feeder i f)
      → sent_by i out ++ holding f.phase ≡ f.given
      → ((j : ℕ) → i ≢ j → sent_by j out ≡ sent_by j m.out)
      → (f.phase ≡ finished → f.source_closed ≡ true)
      → (m.out_closed ≡ true → wg ≡ 0)
      → Inv (record m { feeder = changed m.feeder i f; out = out; wg = wg })
  Inv-changed out wg below counted kept others ended quiet = record {
    counted = counted;
    unborn = λ j above. changed_other m.feeder i j f (omega arith) ∙ inv.unborn j above;
    kept = λ j. elim (equal-cases i j) [
      | inl here ↦
          rw (changed_same m.feeder i j f here)
            (subst (λ x. sent_by x out ++ holding f.phase ≡ f.given) here kept)
      | inr other ↦ rw (changed_other m.feeder i j f other, others j other) (inv.kept j)
    ];
    ended = λ j e. elim (equal-cases i j) [
      | inl here ↦
          let same = changed_same m.feeder i j f here in
          ap (λ x. x.source_closed) same ∙ ended (ap (λ x. x.phase) (sym same) ∙ e)
      | inr other ↦
          let same = changed_other m.feeder i j f other in
          ap (λ x. x.source_closed) same ∙ inv.ended j (ap (λ x. x.phase) (sym same) ∙ e)
    ];
    quiet = quiet;
    sound = inv.sound;
  }

running_while : (f : Feeder) → f.phase ≡ receiving → is_running f ≡ true
running_while f e = ap (λ q. is_running (record f { phase = q })) e

running_sending : (f : Feeder) (c : Chunk) → f.phase ≡ sending c → is_running f ≡ true
running_sending f c e = ap (λ q. is_running (record f { phase = q })) e

-- Nothing is held by a goroutine that receives.
pub kept_receiving :
    (m : MultiStream) (i : ℕ)
    → Inv m
    → (m.feeder i).phase ≡ receiving
    → sent_by i m.out ≡ (m.feeder i).given
kept_receiving m i inv e =
    sym (append-nil (sent_by i m.out)) ∙ ap (λ q. sent_by i m.out ++ holding q) (sym e) ∙ inv.kept i

pub Step-Inv : {m u : MultiStream} → Step m u → Inv m → Inv u
unfolding MultiStream.append MultiStream.take_chunk MultiStream.send_chunk MultiStream.finish
    MultiStream.close_source MultiStream.close_out
Step-Inv {m} (appends n not_closed) inv = record {
  counted =
      ap (λ w. w + n) inv.counted
      ∙ sym (
          tally_more is_running m.count n m.feeder (λ i above. ap is_running (inv.unborn i above)));
  unborn = λ i above. inv.unborn i (omega arith);
  kept = inv.kept;
  ended = inv.ended;
  quiet = λ closed. absurd (cc (sym not_closed ∙ closed));
  sound = inv.sound;
}
Step-Inv {m} (takes i c below phase still_open) inv =
    let f = m.feeder i in
    Inv-changed m inv i (record f { phase = sending c; given = f.given ++ c ∷ [] }) m.out m.wg below
      (inv.counted
        ∙ sym (tally-changed_keep is_running m.count m.feeder i _ (sym (running_while f phase))))
      (ap (λ l. l ++ c ∷ []) (kept_receiving m i inv phase)) (λ j ne. refl) (λ e. absurd (cc e))
      inv.quiet
Step-Inv {m} (sends i c below phase not_closed) inv =
    let f = m.feeder i in
    Inv-changed m inv i (record f { phase = receiving }) (m.out ++ (i, c) ∷ []) m.wg below
      (inv.counted
        ∙ sym
            (tally-changed_keep is_running m.count m.feeder i _ (sym (running_sending f c phase))))
      (append-nil (sent_by i (m.out ++ (i, c) ∷ []))
        ∙ sent_by_same i c m.out
        ∙ ap (λ q. sent_by i m.out ++ holding q) (sym phase)
        ∙ inv.kept i)
      (λ j ne. sent_by_other i j c m.out ne) (λ e. absurd (cc e)) inv.quiet
Step-Inv {m} (sends_closed i c below phase closed) inv = absurd (
    cc (
      sym (running_sending (m.feeder i) c phase)
      ∙ tally-eq-zero is_running m.count m.feeder i (sym inv.counted ∙ inv.quiet closed) below))
Step-Inv {m} (finishes i below phase closed) inv =
    let f = m.feeder i in
    let g : Feeder = record f { phase = finished } in
    let dropped =
      tally-changed_drop is_running m.count m.feeder i g below (running_while f phase) refl in
    Inv-changed m inv i g m.out (m.wg - 1) below (omega (arith, inv.counted))
      (append-nil (sent_by i m.out) ∙ kept_receiving m i inv phase) (λ j ne. refl) (λ e. closed)
      (λ e. omega (arith, inv.quiet e))
Step-Inv {m} (closes_source i below) inv =
    let f = m.feeder i in
    Inv-changed m inv i (record f { source_closed = true }) m.out m.wg below
      (inv.counted ∙ sym (tally-changed_keep is_running m.count m.feeder i _ refl)) (inv.kept i)
      (λ j ne. refl) (λ e. refl) inv.quiet
Step-Inv (awaits zero_left not_closed) inv = record {
  counted = inv.counted;
  unborn = inv.unborn;
  kept = inv.kept;
  ended = inv.ended;
  quiet = λ e. zero_left;
  sound = inv.sound;
}

pub Reach-Inv : {m : MultiStream} → Reach m → Inv m
Reach-Inv start = Inv-new_multi_stream
Reach-Inv (later r step) = Step-Inv step (Reach-Inv r)

-- In every order of the steps, each goroutine has sent what its stream has given to it, in that order
-- and with none lost or doubled, but for the one chunk that it may hold; and nothing is sent on the
-- channel once it is closed.
pub Reach-kept :
    {m : MultiStream}
    → Reach m
    → ((i : ℕ) → sent_by i m.out ++ holding (m.feeder i).phase ≡ (m.feeder i).given)
      × (m.crashed ≡ false)
Reach-kept r = ((Reach-Inv r).kept, (Reach-Inv r).sound)

finished_of : (f : Feeder) → is_running f ≡ false → f.phase ≡ finished
finished_of f e = finished_phase f.phase e
  where
    finished_phase : (q : Phase) → is_running (record f { phase = q }) ≡ false → q ≡ finished
    finished_phase receiving e' = absurd (cc e')
    finished_phase (sending c) e' = absurd (cc e')
    finished_phase finished e' = refl

-- When `AwaitClose` has closed the channel, every stream that was appended has closed its own, and all
-- that it gave has been sent, in its order.
pub Reach-closed :
    {m : MultiStream}
    → Reach m
    → m.out_closed ≡ true
    → (i : ℕ) → i < m.count
    → ((m.feeder i).source_closed ≡ true) × (sent_by i m.out ≡ (m.feeder i).given)
Reach-closed {m} r closed i below =
    let inv = Reach-Inv r in
    let done =
      finished_of (m.feeder i)
        (tally-eq-zero is_running m.count m.feeder i (sym inv.counted ∙ inv.quiet closed) below) in
    (
      inv.ended i done,
      sym (append-nil (sent_by i m.out))
          ∙ ap (λ q. sent_by i m.out ++ holding q) (sym done)
          ∙ inv.kept i,
    )
