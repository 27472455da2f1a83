-- ===== src/Chunk/Goroutines/Closing.antt =====
-- Whether the two goroutines of chunk/parser.go and chunk/default_reader.go come to an end when the
-- parser reads its closer.
use rtmp.Base.{◌≡◌, ◌≢◌, refl, sym, ap, ◌∙◌, List, [], ◌∷◌, eof, inl, inr, ◌⊎◌}
use mathlib.Core.Path.{subst}
use rtmp.Chunk.Reader
use rtmp.Chunk.Reader.{DefaultReader, Event, iterate}
use rtmp.Chunk.Reader.End.{iterate-end, recv-end}
use rtmp.Chunk.Goroutines.Refinement.{Reach-Runs}
use rtmp.Base.{ok-injective}
use rtmp.Chunk.Parser.{Parser, close_all}
use rtmp.Chunk.Goroutines.{
  ReaderPhase, polling, sending, stopped, ParserPhase, selecting, closing, returned, Goroutines,
  start, after_round, Step, round, hand_over, read_closer, finish, Reach, initially, and_then,
}

-- Where a goroutine is, apart from where it may be.
abbrev IsPolling : ReaderPhase → Type 0
IsPolling polling = Unit {0}
IsPolling (sending e) = ⊥
IsPolling stopped = ⊥

abbrev IsSelecting : ParserPhase → Type 0
IsSelecting selecting = Unit {0}
IsSelecting closing = ⊥
IsSelecting returned = ⊥

-- The reader is in a send, and the parser, which alone receives it, waits for the reader to read its
-- closer: neither goes on.
abbrev pub AreStuck : Goroutines → Type 0
AreStuck g = ((e : Event) × (g.reader_at ≡ sending e)) × (g.parser_at ≡ closing)

-- No step is possible.
pub stuck_no_step : {g h : Goroutines} → Step g h → ¬ AreStuck g
stuck_no_step (round g es r at unclosed e) ((d, busy), wait) = unclosed wait
stuck_no_step (hand_over g e at at') ((d, busy), wait) = subst IsSelecting (sym at' ∙ wait) tt
stuck_no_step (read_closer g at) ((d, busy), wait) = subst IsSelecting (sym at ∙ wait) tt
stuck_no_step (finish g at at') ((d, busy), wait) = subst IsPolling (sym at ∙ busy) tt

Reach-stuck : {g h : Goroutines} → AreStuck g → Reach g h → h ≡ g
Reach-stuck s initially = refl
Reach-stuck {g} s (and_then {h} {k} reach st) =
    absurd (stuck_no_step st (subst AreStuck (sym (Reach-stuck s reach)) s))

-- A step of a reader at its `select`, when the parser is in the `Close` of the reader.
Step-closing :
    {g h : Goroutines}
    → Step g h
    → g.reader_at ≡ polling
    → g.parser_at ≡ closing
    → h ≡ record g { reader_at = stopped; parser = close_all g.parser; parser_at = returned }
Step-closing (round g es r at unclosed e) poll wait = absurd (unclosed wait)
Step-closing (hand_over g e at at') poll wait = absurd (subst IsPolling (sym poll ∙ at) tt)
Step-closing (read_closer g at) poll wait = absurd (subst IsSelecting (sym at ∙ wait) tt)
Step-closing (finish g at at') poll wait = refl

-- Once the parser has read its closer: if the reader is at its `select` then, there is a step, and
-- the only one ends both loops and closes the streams; if the reader is in a send, no step is ever
-- made again, so that neither the parser nor the reader returns.
pub closing_decides :
    (g : Goroutines)
    → g.parser_at ≡ closing
    → (let ended = record g {
      reader_at = stopped;
      parser = close_all g.parser;
      parser_at = returned;
    } in
        (g.reader_at ≡ polling → Step g ended × ((h : Goroutines) → Step g h → h ≡ ended))
        × ((e : Event) → g.reader_at ≡ sending e → (h : Goroutines) → Reach g h → h ≡ g))
closing_decides g wait = (
  λ poll. (finish g poll wait, λ h st. Step-closing st poll wait),
  λ e busy h reach. Reach-stuck ((e, busy), wait) reach,
)

after_round_stopped : (es : List Event) → after_round es ≢ stopped
after_round_stopped [] e = absurd (cc e)
after_round_stopped (d ∷ es) e = absurd (cc e)

-- The reader has only returned if the parser has.
stopped_last :
    (r : DefaultReader) (p : Parser) {g : Goroutines}
    → Reach (start r p) g
    → g.reader_at ≡ stopped
    → g.parser_at ≡ returned
stopped_last r p initially stop = absurd (cc stop)
stopped_last r p (and_then reach (round g es r' at unclosed e)) stop =
    absurd (after_round_stopped es stop)
stopped_last r p (and_then reach (hand_over g e at at')) stop = absurd (cc stop)
stopped_last r p (and_then reach (read_closer g at)) stop =
    absurd (cc (sym at ∙ stopped_last r p reach stop))
stopped_last r p (and_then reach (finish g at at')) stop = refl

source-end :
    (r : DefaultReader) (p : Parser) {g : Goroutines}
    → r.source ≡ []
    → Reach (start r p) g
    → g.reader ≡ r
source-end r p e reach =
    let v = Reach-Runs r p reach in (ok-injective (sym v.reads ∙ recv-end v.rounds r e)).1

ReaderPhase-cases :
    (w : ReaderPhase) → (w ≡ polling) ⊎ (((e : Event) × (w ≡ sending e)) ⊎ (w ≡ stopped))
ReaderPhase-cases polling = inl refl
ReaderPhase-cases (sending e) = inr (inl (e, refl))
ReaderPhase-cases stopped = inr (inr refl)

-- At the end of the input: from every state that the goroutines reach in which the parser is at its
-- `select`, they can take turns in which the parser reads its closer and after which no step is ever
-- made, so that the parser, and who waits for it in `Close`, never returns.
pub close_hangs :
    (r : DefaultReader) (p : Parser) (g : Goroutines)
    → r.source ≡ []
    → Reach (start r p) g
    → g.parser_at ≡ selecting
    → (h : Goroutines) × Reach g h
      × (h.parser_at ≡ closing)
      × ((k : Goroutines) → Reach h k → k ≡ h)
close_hangs r p g e reach at = elim (ReaderPhase-cases g.reader_at) [
  | inl poll ↦
      let g1 = record g { reader_at = sending (Reader.error eof) } in
      let st =
        round g (Reader.error eof ∷ []) g.reader poll (λ wait. cc (sym at ∙ wait))
          (iterate-end g.reader (ap (λ x. x.source) (source-end r p e reach) ∙ e)) in
      (
        record g1 { parser_at = closing },
        and_then (and_then initially st) (read_closer g1 at),
        refl,
        λ k later. Reach-stuck ((Reader.error eof, refl), refl) later,
      )
  | inr (inl (d, busy)) ↦ (
    record g { parser_at = closing },
    and_then initially (read_closer g at),
    refl,
    λ k later. Reach-stuck ((d, busy), refl) later,
  )
  | inr (inr stop) ↦ absurd (cc (sym at ∙ stopped_last r p reach stop))
]
