-- ===== src/Server/Accepting.antt =====
-- What the server of server/server.go makes of the connections that it is given.
use rtmp.Base.{
  ℕ, zero, suc, ◌≡◌, refl, sym, ap, ◌∙◌, List, [], ◌∷◌, ◌++◌, append-nil, append_assoc, map,
  replicate, ◌⊎◌, inl, inr, Error,
}
use mathlib.Core.Path.{ap₂}
use rtmp.Client
use rtmp.Client.{Client}
use rtmp.Handshake.{Conn}
use rtmp.Server.{Net, Server, accept, accept_one, accepted, close}

abbrev pub connections : List (Error ⊎ Conn) → List Conn
connections [] = []
connections (inl e ∷ rs) = connections rs
connections (inr k ∷ rs) = k ∷ connections rs

abbrev pub refusals : List (Error ⊎ Conn) → List Error
refusals [] = []
refusals (inl e ∷ rs) = e ∷ refusals rs
refusals (inr k ∷ rs) = refusals rs

connections_none : (k : ℕ) (e : Error) → connections (replicate k (inl e)) ≡ []
connections_none zero e = refl
connections_none (suc k) e = connections_none k e

refusals_all : (k : ℕ) (e : Error) → refusals (replicate k (inl e)) ≡ replicate k e
refusals_all zero e = refl
refusals_all (suc k) e = ap (λ es. e ∷ es) (refusals_all k e)

module _ {Address Socket : Type 0} (net : Net Address Socket) where
  -- What the listener gives in `n` calls of Accept, and what it is then.
  unfoldable pub results : ℕ → Socket → List (Error ⊎ Conn)
  results zero socket = []
  results (suc n) socket = let (r, later) = net.accept_on socket in r ∷ results n later

  unfoldable pub socket_after : ℕ → Socket → Socket
  socket_after zero socket = socket
  socket_after (suc n) socket = socket_after n (net.accept_on socket).1

  abbrev served : ℕ → Server Socket → Server Socket
  served n s = record {
    socket = socket_after n s.socket;
    clients = s.clients ++ map Client.new (connections (results n s.socket));
    errs = s.errs ++ refusals (results n s.socket);
  }

  served-accepted :
      (n : ℕ) (s : Server Socket) (r : (Error ⊎ Conn) × Socket)
      → net.accept_on s.socket ≡ r
      → served n (accepted net s r) ≡ served (suc n) s
  unfolding results socket_after
  served-accepted n s (inl e, socket) p = rw p (
      ap
        (λ es. record {
          socket = socket_after n socket;
          clients = s.clients ++ map Client.new (connections (results n socket));
          errs = es;
        })
        (append_assoc s.errs (e ∷ []) (refusals (results n socket))))
  served-accepted n s (inr k, socket) p = rw p (
      ap
        (λ cs. record {
          socket = socket_after n socket;
          clients = cs;
          errs = s.errs ++ refusals (results n socket);
        })
        (append_assoc s.clients (Client.new k ∷ [])
          (map Client.new (connections (results n socket)))))

  -- `n` rounds of Accept send a new client for each connection, and each error, in their order.
  accept-served : (n : ℕ) (s : Server Socket) → accept net n s ≡ served n s
  unfolding accept accept_one results socket_after
  accept-served zero s =
      ap₂ (λ cs es. record { socket = s.socket; clients = cs; errs = es })
        (sym (append-nil s.clients)) (sym (append-nil s.errs))
  accept-served (suc n) s =
      accept-served n (accepted net s (net.accept_on s.socket))
      ∙ served-accepted n s (net.accept_on s.socket) refl

  -- A listener that was closed fails, from then on, at every call of Accept.
  pub record RefusesClosed (closed : Error) : Type 1 where
    pub IsClosed : Socket → Type 0
    pub closes : (socket : Socket) → IsClosed (net.close_socket socket).1
    pub refuses : (socket : Socket) → IsClosed socket → (net.accept_on socket).0 ≡ inl closed
    pub stays : (socket : Socket) → IsClosed socket → IsClosed (net.accept_on socket).1

  module _ (closed : Error) (law : RefusesClosed closed) where
    results_closed :
        (n : ℕ) (socket : Socket)
        → law.IsClosed socket
        → results n socket ≡ replicate n (inl closed)
    unfolding results
    results_closed zero socket h = refl
    results_closed (suc n) socket h =
        ap₂ (λ r rs. r ∷ rs) (law.refuses socket h)
          (results_closed n (net.accept_on socket).1 (law.stays socket h))

    served_closed :
        (k : ℕ) (s : Server Socket)
        → law.IsClosed s.socket
        → ((served k s).clients ≡ s.clients) × ((served k s).errs ≡ s.errs ++ replicate k closed)
    served_closed k s h =
        let all = results_closed k s.socket h in
        (
          ap (λ rs. s.clients ++ map Client.new (connections rs)) all
              ∙ ap (λ cs. s.clients ++ map Client.new cs) (connections_none k closed)
              ∙ append-nil s.clients,
          ap (λ rs. s.errs ++ refusals rs) all ∙ ap (λ es. s.errs ++ es) (refusals_all k closed),
        )

    -- With a listener that refuses once it is closed: `n` rounds of Accept, a call of Close and `k`
    -- rounds more have sent a new client for each connection of the first `n` rounds, in their order, and
    -- none after the call; the errors are those of the first `n` rounds, in theirs, and then one for
    -- each of the `k` rounds, since the loop does not end.
    pub accept-close :
        (n k : ℕ) (s : Server Socket)
        → (let s' = accept net k (close net (accept net n s)).1 in
            (s'.clients ≡ s.clients ++ map Client.new (connections (results n s.socket)))
            × (s'.errs ≡ (s.errs ++ refusals (results n s.socket)) ++ replicate k closed))
    unfolding close
    accept-close n k s =
        let first = accept-served n s in
        let s1 = accept net n s in
        let s2 = (close net s1).1 in
        let (clients_are, errs_are) = served_closed k s2 (law.closes s1.socket) in
        let last = accept-served k s2 in
        (
          ap (λ t. t.clients) last ∙ clients_are ∙ ap (λ t. t.clients) first,
          ap (λ t. t.errs) last ∙ errs_are ∙ ap (λ t. t.errs ++ replicate k closed) first,
        )
