-- ===== src/Chunk/Goroutines/Rounds.antt =====
-- The goroutines of chunk/default_reader.go and of chunk/parser.go while the reader makes a number of
-- rounds, as long as nothing asks for a close. The channels between them are not buffered, so the reader
-- waits when the parser has not taken what it has sent.
use rtmp.Base.{
  ℕ, zero, suc, ◌≡◌, refl, sym, ap, ◌∙◌, List, [], ◌∷◌, ◌++◌, append-nil, map, All, Result, ok, err,
  panicked, All-append_left, All-append_right,
}
use mathlib.Core.List.{map-append}
use mathlib.Core.Path.{subst}
use rtmp.Chunk.Reader
use rtmp.Chunk.Reader.{DefaultReader, Event, iterate}
use rtmp.Chunk.RoundTrip.Sequence.{recv-suc_inv, recv_zero_inv}
use rtmp.Chunk.Parser
use rtmp.Chunk.Parser.{Parser, FromReader, ParserSignal, from_reader, receive}
use rtmp.Chunk.Parser.Receivers.{
  Receivers, Progress, selecting, blocked, closing_reader, returned, run_with,
}
use rtmp.Chunk.Parser.Stalling.{IsTaken, recv-step, run_with-taken}
use rtmp.Chunk.Goroutines.{from_event}

-- What the parser reads of what the reader sends.
abbrev pub as_signals : List Event → List ParserSignal
as_signals es = map from_reader (map from_event es)

abbrev pub waited :
    Result (List Event)
    → DefaultReader
    → Result (List Event) × DefaultReader
    → Result (List Event) × DefaultReader
waited (ok []) r rest = rest
waited (ok (e ∷ es)) r rest = (ok (e ∷ es), r)
waited (err e) r rest = (err e, r)
waited panicked r rest = (panicked, r)

-- The reader alone, when the parser waits in a send for ever: it makes rounds until it has something to
-- send, and then waits too.
unfoldable pub wait_rounds : ℕ → DefaultReader → Result (List Event) × DefaultReader
unfolding iterate
wait_rounds zero r = (ok [], r)
wait_rounds (suc n) r =
    let (sent, r') = iterate r in let rest = wait_rounds n r' in waited sent r' rest

-- Where the loop of the parser is, and what the two have become.
abbrev pub Outcome : Type 0
Outcome = Result Progress × (DefaultReader × Parser)

abbrev pub stuck : Parser → Result (List Event) × DefaultReader → Outcome
stuck p (ok es, r) = (ok blocked, (r, p))
stuck p (err e, r) = (err e, (r, p))
stuck p (panicked, r) = (panicked, (r, p))

abbrev pub go_on : ℕ → DefaultReader → Progress × Parser → Outcome → Outcome
go_on n r (selecting, p) rest = rest
go_on n r (blocked, p) rest = stuck p (wait_rounds n r)
go_on n r (closing_reader, p) rest = (ok closing_reader, (r, p))
go_on n r (returned, p) rest = (ok returned, (r, p))

-- What the parser makes of what a round has sent.
abbrev pub given : Receivers → Result (List Event) → Parser → Progress × Parser
given rx (ok es) p = run_with rx (as_signals es) p
given rx (err e) p = (selecting, p)
given rx panicked p = (selecting, p)

abbrev pub after_iterate :
    ℕ → Result (List Event) × DefaultReader → Progress × Parser → Outcome → Outcome
after_iterate n (ok es, r) q rest = go_on n r q rest
after_iterate n (err e, r) q rest = (err e, (r, q.1))
after_iterate n (panicked, r) q rest = (panicked, (r, q.1))

-- `n` rounds of the reader at most: in each, the parser is given what the round sends, and the next one
-- is made if it waits in its `select` again.
unfoldable pub rounds : Receivers → ℕ → DefaultReader → Parser → Outcome
unfolding iterate run_with wait_rounds
rounds rx zero r p = (ok selecting, (r, p))
rounds rx (suc n) r p =
    let sent = iterate r in
    let q = given rx sent.0 p in let rest = rounds rx n sent.1 q.1 in after_iterate n sent q rest

recv-append :
    (ms ms' : List FromReader) (p : Parser)
    → (Parser.recv (ms ++ ms') p).1 ≡ (Parser.recv ms' (Parser.recv ms p).1).1
recv-append [] ms' p = unfold Parser.recv in refl
recv-append (m ∷ ms) ms' p =
    ap (λ q. q.1) (recv-step m (ms ++ ms') p)
    ∙ recv-append ms ms' (receive m p).1
    ∙ ap (λ q. (Parser.recv ms' q.1).1) (sym (recv-step m ms p))

pub rounds-step :
    (rx : Receivers) (n : ℕ) (r r0 : DefaultReader) (p p1 : Parser) (es : List Event)
    → iterate r ≡ (ok es, r0)
    → run_with rx (as_signals es) p ≡ (selecting, p1)
    → rounds rx (suc n) r p ≡ rounds rx n r0 p1
unfolding rounds
rounds-step rx n r r0 p p1 es e e' =
    ap (λ s. after_iterate n s (given rx s.0 p) (rounds rx n s.1 (given rx s.0 p).1)) e
    ∙ ap (λ q. go_on n r0 q (rounds rx n r0 q.1)) e'

-- If all that the rounds send is taken, the rounds are those of the two loops, one after the other.
pub rounds-recv :
    (rx : Receivers) (n : ℕ) (r r1 : DefaultReader) (p : Parser) (es : List Event)
    → Reader.recv n r ≡ (ok es, r1)
    → All (IsTaken rx) (map from_event es)
    → rounds rx n r p ≡ (ok selecting, (r1, (Parser.recv (map from_event es) p).1))
rounds-recv rx zero r r1 p es e taken =
    let (none_sent, same) = recv_zero_inv r r1 es e in
    unfold rounds in
    unfold Parser.recv in
    ap (λ x. (ok selecting, (x, p))) same
    ∙ ap (λ l. (ok selecting, (r1, (Parser.recv (map from_event l) p).1))) none_sent
rounds-recv rx (suc n) r r1 p es e taken =
    let (es0, es1, r0, first, later, split) = recv-suc_inv n r r1 es e in
    let parts = ap (map from_event) split ∙ map-append from_event es0 es1 in
    let cut = subst (All (IsTaken rx)) parts taken in
    let now = All-append_left (IsTaken rx) (map from_event es0) (map from_event es1) cut in
    let then_taken = All-append_right (IsTaken rx) (map from_event es0) (map from_event es1) cut in
    let p1 = (Parser.recv (map from_event es0) p).1 in
    rounds-step rx n r r0 p p1 es0 first (
      ap (λ l. run_with rx l p) (sym (append-nil (as_signals es0)))
      ∙ run_with-taken rx (map from_event es0) [] p now
      ∙ unfold run_with in refl)
    ∙ rounds-recv rx n r0 r1 p1 es1 later then_taken
    ∙ ap (λ q. (ok selecting, (r1, q)))
        (sym (
          ap (λ l. (Parser.recv l p).1) parts
          ∙ recv-append (map from_event es0) (map from_event es1) p))
