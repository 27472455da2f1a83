-- ===== src/Loop.antt =====
-- The loop that control.Stream, conn.NetConn, data.Stream and stream.NetStream share: a `select`
-- over the channel of incoming chunks and the closer.
use rtmp.Base.{
  Bool, false, if◌then◌else◌, ◌≡◌, refl, sym, ap, ◌∙◌, append-nil, ◌++◌, List, [], ◌∷◌, map, Option,
  none, some, Error, Result, ok, err, panicked, All,
}

-- What a round of the loop reads: a message, or the zero value that a closed channel gives (`none`);
-- or the closer.
pub data Signal {ℓ} (A : Type ℓ) : Type ℓ where
  received : Option A → Signal A
  closing : Signal A

-- What a round sends: on the channel of results, or on that of errors.
pub data Sent {ℓ} (B : Type ℓ) : Type ℓ where
  delivered : B → Sent B
  failed : Error → Sent B

-- How the loop is left: it goes on, it returned, or the program panicked.
pub data Ending : Type 0 where
  running returned crashed : Ending

-- A channel that gives some messages and stays open.
abbrev pub all_received {ℓ} : {A : Type ℓ} → List A → List (Signal A)
all_received ms = map (λ m. received (some m)) ms

module _ {ℓ} {B : Type ℓ} where
  abbrev after : Result B → List (Sent B) × Ending → List (Sent B) × Ending
  after (ok b) (out, e) = (delivered b ∷ out, e)
  after (err x) (out, e) = (failed x ∷ out, e)
  after panicked more = ([], crashed)

module _ {ℓ} {A B : Type ℓ} where
  -- A method of a nil chunk panics at its first field.
  abbrev pub on_nil : (A → Result B) → Option A → Result B
  on_nil parse none = panicked
  on_nil parse (some a) = parse a

  unfoldable pub listen : (A → Result B) → List (Signal A) → List (Sent B) × Ending
  listen parse [] = ([], running)
  listen parse (received m ∷ signals) =
      let more = listen parse signals in after (on_nil parse m) more
  listen parse (closing ∷ signals) = ([], returned)

-- The struct around the loop: what was sent on its channels, where the loop is, and whether the
-- channels, that of the closer among them, are closed.
pub record Listener {ℓ} (B : Type ℓ) : Type ℓ where
  pub out : List (Sent B)
  pub ending : Ending
  pub closed : Bool

abbrev pub new_listener {ℓ} : {B : Type ℓ} → Listener B
new_listener = record { out = []; ending = running; closed = false }

-- What a call of Close does: the loop reads the closer, or no one does, or the closer is closed.
pub data CloseCall : Type 0 where
  taken waits panics : CloseCall

abbrev close_open : Ending → CloseCall
close_open running = taken
close_open returned = waits
close_open crashed = waits

module _ {ℓ} {B : Type ℓ} where
  -- `defers`: the channels are closed by a deferred function, which runs when the loop returns and
  -- when it panics.
  abbrev pub after_loop : Bool → Listener B → List (Sent B) × Ending → Listener B
  after_loop defers l (out, running) = record l { out = l.out ++ out; ending = running }
  after_loop defers l (out, returned) = record l {
    out = l.out ++ out;
    ending = returned;
    closed = defers;
  }
  after_loop defers l (out, crashed) = record l {
    out = l.out ++ out;
    ending = crashed;
    closed = defers;
  }

  unfoldable pub close : Listener B → CloseCall
  close l = if l.closed then panics else close_open l.ending

module _ {ℓ} {A B : Type ℓ} where
  unfoldable pub run_listener : Bool → (A → Result B) → List (Signal A) → Listener B → Listener B
  unfolding listen
  run_listener defers parse signals l = after_loop defers l (listen parse signals)

crashed_after {ℓ} :
    {B : Type ℓ} (r : Result B) (p : List (Sent B) × Ending)
    → p.1 ≡ crashed
    → (after r p).1 ≡ crashed
crashed_after (ok b) p h = h
crashed_after (err x) p h = h
crashed_after panicked p h = refl

module _ {ℓ} {A B : Type ℓ} (parse : A → Result B) where
  -- Messages of which a predicate holds and that then parse to `b`s are delivered in their order, and
  -- the loop goes on.
  pub listen-All :
      {C : Type ℓ} (P : C → Type 0) (message : C → A) (value : C → B) (cs : List C)
      (signals : List (Signal A))
      → All P cs
      → ((c : C) → P c → parse (message c) ≡ ok (value c))
      → listen parse (map (λ c. received (some (message c))) cs ++ signals)
        ≡ (map (λ c. delivered (value c)) cs ++ (listen parse signals).0, (listen parse signals).1)
  unfolding listen
  listen-All P message value [] signals all h = refl
  listen-All P message value (c ∷ cs) signals (one, more) h =
      rw (h c one, listen-All P message value cs signals more h)

abbrev pub result_of {ℓ} : {B : Type ℓ} → Sent B → Result B
result_of (delivered b) = ok b
result_of (failed e) = err e

module _ {ℓ} {A B : Type ℓ} (parse : A → Result B) where
  after_answer : (o : Sent B) (p : List (Sent B) × Ending) → after (result_of o) p ≡ (o ∷ p.0, p.1)
  after_answer (delivered b) p = refl
  after_answer (failed e) p = refl

  -- Messages that parse to some answers, errors among them, are answered in their order, and the loop
  -- goes on.
  pub listen_answers :
      {C : Type ℓ} (message : C → A) (answer : C → Sent B) (cs : List C) (signals : List (Signal A))
      → All (λ c. parse (message c) ≡ result_of (answer c)) cs
      → listen parse (all_received (map message cs) ++ signals)
        ≡ (map answer cs ++ (listen parse signals).0, (listen parse signals).1)
  unfolding listen
  listen_answers message answer [] signals h = refl
  listen_answers message answer (c ∷ cs) signals (h, hs) =
      rw (h, listen_answers message answer cs signals hs) (after_answer (answer c) _)

  -- The same of a new listener, which may then read the closer: it goes on, or it has returned and
  -- answers no more.
  pub run_listener_answers :
      {C : Type ℓ} (defers : Bool) (message : C → A) (answer : C → Sent B) (cs : List C)
      (later : List (Signal A))
      → All (λ c. parse (message c) ≡ result_of (answer c)) cs
      → (run_listener defers parse (all_received (map message cs)) new_listener
          ≡ record { out = map answer cs; ending = running; closed = false })
        × (run_listener defers parse (all_received (map message cs) ++ closing ∷ later) new_listener
            ≡ record { out = map answer cs; ending = returned; closed = defers })
  unfolding run_listener listen
  run_listener_answers defers message answer cs later h = (
    ap (λ l. after_loop defers new_listener (listen parse l))
          (sym (append-nil (all_received (map message cs))))
        ∙ ap (after_loop defers new_listener) (listen_answers message answer cs [] h)
        ∙ ap (λ l. record { out = l; ending = running; closed = false })
            (append-nil (map answer cs)),
    ap (after_loop defers new_listener) (listen_answers message answer cs (closing ∷ later) h)
        ∙ ap (λ l. record { out = l; ending = returned; closed = defers })
            (append-nil (map answer cs)),
  )
