-- ===== src/Chunk/Goroutines/Blocking.antt =====
-- The rounds of the goroutines of chunk/default_reader.go and chunk/parser.go up to a send that nobody
-- receives.
use rtmp.Base.{
  ℕ, zero, suc, ◌≡◌, refl, sym, ap, ◌∙◌, List, [], ◌∷◌, ◌++◌, map, Bool-cases, inl, inr, ok,
}
use mathlib.Core.List.{map-append}
use rtmp.Chunk.Reader
use rtmp.Chunk.Reader.{DefaultReader, Event, iterate}
use rtmp.Chunk.RoundTrip.Sequence.{recv-suc_inv, recv_zero_inv}
use rtmp.Chunk.Parser.{Parser, FromReader, ParserSignal, from_reader, receive}
use rtmp.Chunk.Parser.Receivers.{
  Receivers, Progress, selecting, blocked, closing_reader, returned, is_taken, run_with,
}
use rtmp.Chunk.Parser.Stalling.{run_with_first, run_with_untaken}
use rtmp.Chunk.Goroutines.{from_event}
use rtmp.Chunk.Goroutines.Rounds.{
  as_signals, waited, wait_rounds, stuck, go_on, given, after_iterate, rounds, rounds-step,
}

-- What the parser makes of more signals, unless it waits for ever.
abbrev continued : Receivers → List ParserSignal → Progress × Parser → Progress × Parser
continued rx signals (selecting, p) = run_with rx signals p
continued rx signals (blocked, p) = (blocked, p)
continued rx signals (closing_reader, p) = (closing_reader, p)
continued rx signals (returned, p) = (returned, p)

run_with-append :
    (rx : Receivers) (ms : List FromReader) (signals : List ParserSignal) (p : Parser)
    → run_with rx (map from_reader ms ++ signals) p
      ≡ continued rx signals (run_with rx (map from_reader ms) p)
run_with-append rx [] signals p = unfold run_with in refl
run_with-append rx (m ∷ ms) signals p = elim (Bool-cases (is_taken rx m)) [
  | inl e ↦
      run_with_first rx m (map from_reader ms ++ signals) p e
      ∙ run_with-append rx ms signals (receive m p).1
      ∙ ap (continued rx signals) (sym (run_with_first rx m (map from_reader ms) p e))
  | inr e ↦
      run_with_untaken rx m (map from_reader ms ++ signals) p e
      ∙ ap (continued rx signals) (sym (run_with_untaken rx m (map from_reader ms) p e))
]

wait_rounds-after :
    (n : ℕ) (r r0 : DefaultReader) (es : List Event)
    → iterate r ≡ (ok es, r0)
    → wait_rounds (suc n) r ≡ waited (ok es) r0 (wait_rounds n r0)
unfolding wait_rounds
wait_rounds-after n r r0 es e = ap (λ s. waited s.0 s.1 (wait_rounds n s.1)) e

-- The reader that waits does not fail either in rounds that do not fail.
Waits : DefaultReader → ℕ → Type 0
Waits r n = (es : List Event) × (r1 : DefaultReader) × (wait_rounds n r ≡ (ok es, r1))

Waits-after :
    (n : ℕ) (r r0 : DefaultReader) (es : List Event)
    → iterate r ≡ (ok es, r0)
    → Waits r0 n
    → Waits r (suc n)
unfolding Waits
Waits-after n r r0 [] e (es, r1, more) = (es, r1, wait_rounds-after n r r0 [] e ∙ more)
Waits-after n r r0 (d ∷ es) e more = (d ∷ es, r0, wait_rounds-after n r r0 (d ∷ es) e)

Waits-recv :
    (n : ℕ) (r r1 : DefaultReader) (es : List Event) → Reader.recv n r ≡ (ok es, r1) → Waits r n
unfolding Waits
Waits-recv zero r r1 es e = ([], r, unfold wait_rounds in refl)
Waits-recv (suc n) r r1 es e =
    let (es0, es1, r0, first, later, split) = recv-suc_inv n r r1 es e in
    Waits-after n r r0 es0 first (Waits-recv n r0 r1 es1 later)

rounds_blocked :
    (rx : Receivers) (n : ℕ) (r r0 : DefaultReader) (p p1 : Parser) (es : List Event)
    → iterate r ≡ (ok es, r0)
    → run_with rx (as_signals es) p ≡ (blocked, p1)
    → rounds rx (suc n) r p ≡ stuck p1 (wait_rounds n r0)
unfolding rounds
rounds_blocked rx n r r0 p p1 es e e' =
    ap (λ s. after_iterate n s (given rx s.0 p) (rounds rx n s.1 (given rx s.0 p).1)) e
    ∙ ap (λ q. go_on n r0 q (rounds rx n r0 q.1)) e'

-- The client of the rounds when a send in them has no receiver.
Blocks : Receivers → ℕ → DefaultReader → Parser → Parser → Type 0
Blocks rx n r p q = (r1 : DefaultReader) × (rounds rx n r p ≡ (ok blocked, (r1, q)))

Blocks-now :
    (rx : Receivers) (n : ℕ) (r r0 : DefaultReader) (p p1 : Parser) (es : List Event)
    → iterate r ≡ (ok es, r0)
    → run_with rx (as_signals es) p ≡ (blocked, p1)
    → Waits r0 n
    → Blocks rx (suc n) r p p1
unfolding Blocks Waits
Blocks-now rx n r r0 p p1 es e e' (more, r1, idle) =
    (r1, rounds_blocked rx n r r0 p p1 es e e' ∙ ap (stuck p1) idle)

Blocks-later :
    (rx : Receivers) (n : ℕ) (r r0 : DefaultReader) (p p1 q : Parser) (es : List Event)
    → iterate r ≡ (ok es, r0)
    → run_with rx (as_signals es) p ≡ (selecting, p1)
    → Blocks rx n r0 p1 q
    → Blocks rx (suc n) r p q
unfolding Blocks
Blocks-later rx n r r0 p p1 q es e e' (r1, more) = (r1, rounds-step rx n r r0 p p1 es e e' ∙ more)

-- By where the parser is after the first of the rounds.
Blocks-round :
    (rx : Receivers) (n : ℕ) (r r0 : DefaultReader) (p q : Parser) (es0 es1 : List Event)
    (w : Progress × Parser)
    → iterate r ≡ (ok es0, r0)
    → run_with rx (as_signals es0) p ≡ w
    → continued rx (as_signals es1) w ≡ (blocked, q)
    → Waits r0 n
    → (run_with rx (as_signals es1) w.1 ≡ (blocked, q) → Blocks rx n r0 w.1 q)
    → Blocks rx (suc n) r p q
Blocks-round rx n r r0 p q es0 es1 (selecting, p1) e at ends idle more =
    Blocks-later rx n r r0 p p1 q es0 e at (more ends)
Blocks-round rx n r r0 p q es0 es1 (blocked, p1) e at ends idle more =
    Blocks-now rx n r r0 p q es0 e (at ∙ ends) idle
Blocks-round rx n r r0 p q es0 es1 (closing_reader, p1) e at ends idle more =
    absurd (cc (ap (λ x. x.0) ends))
Blocks-round rx n r r0 p q es0 es1 (returned, p1) e at ends idle more =
    absurd (cc (ap (λ x. x.0) ends))

nothing_read : (rx : Receivers) (p : Parser) → run_with rx [] p ≡ (selecting, p)
unfolding run_with
nothing_read rx p = refl

Blocks-recv :
    (rx : Receivers) (n : ℕ) (r r1 : DefaultReader) (p q : Parser) (es : List Event)
    → Reader.recv n r ≡ (ok es, r1)
    → run_with rx (as_signals es) p ≡ (blocked, q)
    → Blocks rx n r p q
Blocks-recv rx zero r r1 p q es e ends =
    let (none_sent, same) = recv_zero_inv r r1 es e in
    absurd (
      cc (
        ap (λ x. x.0)
          (sym (nothing_read rx p) ∙ ap (λ l. run_with rx (as_signals l) p) none_sent ∙ ends)))
Blocks-recv rx (suc n) r r1 p q es e ends =
    let (es0, es1, r0, first, later, split) = recv-suc_inv n r r1 es e in
    let parts =
      ap (map from_reader) (ap (map from_event) split ∙ map-append from_event es0 es1)
      ∙ map-append from_reader (map from_event es0) (map from_event es1) in
    Blocks-round rx n r r0 p q es0 es1 (run_with rx (as_signals es0) p) first refl
      (sym (run_with-append rx (map from_event es0) (as_signals es1) p)
        ∙ ap (λ l. run_with rx l p) (sym parts)
        ∙ ends)
      (Waits-recv n r0 r1 es1 later)
      (Blocks-recv rx n r0 r1 (run_with rx (as_signals es0) p).1 q es1 later)

-- If the parser comes to a send that nobody receives when it is given what the rounds send, it comes to
-- it in the rounds, in which the reader then waits, and is left as it is there.
pub rounds-run_with :
    (rx : Receivers) (n : ℕ) (r r1 : DefaultReader) (p q : Parser) (es : List Event)
    → Reader.recv n r ≡ (ok es, r1)
    → run_with rx (as_signals es) p ≡ (blocked, q)
    → (r2 : DefaultReader) × (rounds rx n r p ≡ (ok blocked, (r2, q)))
unfolding Blocks
rounds-run_with rx n r r1 p q es e ends = Blocks-recv rx n r r1 p q es e ends
