-- ===== src/Chunk/Goroutines/Refinement.antt =====
-- However the goroutines of the reader and of the parser take their turns, they do what the two loops
-- do one after the other.
use rtmp.Base.{
  ℕ, ◌≡◌, refl, sym, ap, ◌∙◌, List, [], ◌∷◌, ◌++◌, append-nil, map, ok, length, ◌≤◌, arith,
}
use mathlib.Core.Path.{subst}
use rtmp.Chunk.Reader.Continuation.{recv_one}
use rtmp.Chunk.RoundTrip.Sequence.{recv-add}
use rtmp.Chunk.Parser.Stalling.{recv-step}
use rtmp.Base.{◌+◌}
use rtmp.Chunk.Reader.OneEvent.{MakesOne, MakesOne-iterate}
use rtmp.Chunk.Reader.{DefaultReader, Event, iterate, recv}
use rtmp.Chunk.Parser
use rtmp.Chunk.Parser.{Parser, FromReader, receive, close_all}
use rtmp.Chunk.Goroutines.{
  ReaderPhase, polling, sending, stopped, ParserPhase, selecting, closing, returned, Goroutines,
  start, from_event, after_round, Step, round, hand_over, read_closer, finish, Reach, initially,
  and_then,
}

-- What the reader has made and not yet handed over.
abbrev pub in_hand : ReaderPhase → List Event
in_hand polling = []
in_hand (sending e) = e ∷ []
in_hand stopped = []

-- What the parser has made of what it was given.
abbrev pub parser_after : ParserPhase → List Event → Parser → Parser
parser_after selecting es p = (Parser.recv (map from_event es) p).1
parser_after closing es p = (Parser.recv (map from_event es) p).1
parser_after returned es p = close_all (Parser.recv (map from_event es) p).1

-- After `rounds` rounds of the reader, whose events the parser was given but for the one in hand.
pub record Runs (r : DefaultReader) (p : Parser) (g : Goroutines) : Type 0 where
  pub rounds : ℕ
  pub given : List Event
  pub reads : recv rounds r ≡ (ok (given ++ in_hand g.reader_at), g.reader)
  pub parses : g.parser ≡ parser_after g.parser_at given p

in_hand-after_round : (es : List Event) → length es ≤ 1 → in_hand (after_round es) ≡ es
in_hand-after_round [] h = refl
in_hand-after_round (e ∷ []) h = refl
in_hand-after_round (e ∷ e2 ∷ es) h = absurd (omega arith)

round_in_hand :
    (r r' : DefaultReader) (es : List Event)
    → iterate r ≡ (ok es, r')
    → in_hand (after_round es) ≡ es
round_in_hand r r' es e = in_hand-after_round es (subst MakesOne e (MakesOne-iterate r))

recv-last :
    (n : ℕ) (r r1 r2 : DefaultReader) (es es' : List Event)
    → recv n r ≡ (ok es, r1)
    → iterate r1 ≡ (ok es', r2)
    → recv (n + 1) r ≡ (ok (es ++ es'), r2)
recv-last n r r1 r2 es es' e e' = recv-add n 1 r r1 r2 es es' e (recv_one r1 r2 es' e')

Runs-start : (r : DefaultReader) (p : Parser) → Runs r p (start r p)
unfolding recv Parser.recv
Runs-start r p = record { rounds = 0; given = []; reads = refl; parses = refl }

-- The parser with one event more.
recv-snoc :
    (es : List Event) (e : Event) (p : Parser)
    → (Parser.recv (map from_event (es ++ e ∷ [])) p).1
      ≡ (receive (from_event e) (Parser.recv (map from_event es) p).1).1
recv-snoc [] e p = ap (λ q. q.1) (recv-step (from_event e) [] p) ∙ unfold Parser.recv in refl
recv-snoc (d ∷ es) e p =
    ap (λ q. q.1) (recv-step (from_event d) (map from_event (es ++ e ∷ [])) p)
    ∙ recv-snoc es e (receive (from_event d) p).1
    ∙ ap (λ q. (receive (from_event e) q.1).1)
        (sym (recv-step (from_event d) (map from_event es) p))

-- The rounds so far, when the reader is known to be somewhere.
pub reads_at :
    {r : DefaultReader} {p : Parser} {g : Goroutines} (v : Runs r p g) (w : ReaderPhase)
    → g.reader_at ≡ w
    → recv v.rounds r ≡ (ok (v.given ++ in_hand w), g.reader)
reads_at {g} v w at = v.reads ∙ ap (λ x. (ok (v.given ++ in_hand x), g.reader)) at

pub parses_at :
    {r : DefaultReader} {p : Parser} {g : Goroutines} (v : Runs r p g) (w : ParserPhase)
    → g.parser_at ≡ w
    → g.parser ≡ parser_after w v.given p
parses_at {r} {p} v w at = v.parses ∙ ap (λ x. parser_after x v.given p) at

Runs-Step : {g h : Goroutines} (r : DefaultReader) (p : Parser) → Step g h → Runs r p g → Runs r p h
Runs-Step r p (round g es r' at unclosed e) v = record {
  rounds = v.rounds + 1;
  given = v.given;
  reads =
      recv-last v.rounds r g.reader r' (v.given ++ []) es (reads_at v polling at) e
      ∙ ap (λ l. (ok l, r'))
          (ap (λ l. l ++ es) (append-nil v.given)
            ∙ ap (λ l. v.given ++ l) (sym (round_in_hand g.reader r' es e)));
  parses = v.parses;
}
Runs-Step r p (hand_over g e at at') v = record {
  rounds = v.rounds;
  given = v.given ++ e ∷ [];
  reads = reads_at v (sending e) at ∙ ap (λ l. (ok l, g.reader)) (sym (append-nil _));
  parses =
      ap (λ q. (receive (from_event e) q).1) (parses_at v selecting at')
      ∙ sym (recv-snoc v.given e p)
      ∙ ap (λ x. parser_after x (v.given ++ e ∷ []) p) (sym at');
}
Runs-Step r p (read_closer g at) v = record {
  rounds = v.rounds;
  given = v.given;
  reads = v.reads;
  parses = parses_at v selecting at;
}
Runs-Step r p (finish g at at') v = record {
  rounds = v.rounds;
  given = v.given;
  reads = reads_at v polling at;
  parses = ap close_all (parses_at v closing at');
}

-- Whatever turns the two goroutines take from the start on: the reader has made some rounds of its
-- loop on its own, the parser was given the events of these rounds in their order, but for the one
-- that the reader may still be sending, and has made of them what its own loop makes of them; if it has
-- returned, it has then closed its streams.
pub Reach-Runs :
    (r : DefaultReader) (p : Parser) {g : Goroutines} → Reach (start r p) g → Runs r p g
Reach-Runs r p initially = Runs-start r p
Reach-Runs r p (and_then reach st) = Runs-Step r p st (Reach-Runs r p reach)
