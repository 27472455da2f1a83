-- ===== src/Server.antt =====
-- server/server.go and rtmp.go. The package net is not of this repository: the listener is an
-- argument, with what its three calls do.
pub mod Accepting
use rtmp.Base.{ℕ, zero, suc, List, [], ◌∷◌, ◌++◌, ◌⊎◌, inl, inr, Error}
use rtmp.Client
use rtmp.Client.{Client}
use rtmp.Handshake.{Conn}

-- net.Listen, and the calls of the net.Listener that it gives.
pub record Net (Address Socket : Type 0) : Type 0 where
  pub listen_at : Address → Error ⊎ Socket
  pub accept_on : Socket → (Error ⊎ Conn) × Socket
  pub close_socket : Socket → (Error ⊎ Unit {0}) × Socket

-- What was sent on the two channels is in `clients` and `errs`.
pub record Server (Socket : Type 0) : Type 0 where
  pub socket : Socket
  pub clients : List Client
  pub errs : List Error

module _ {Address Socket : Type 0} (net : Net Address Socket) where
  abbrev pub on_socket : Error ⊎ Socket → Error ⊎ Server Socket
  on_socket (inl e) = inl e
  on_socket (inr socket) = inr (record { socket = socket; clients = []; errs = [] })

  unfoldable pub new : Address → Error ⊎ Server Socket
  new bind = on_socket (net.listen_at bind)

  -- NewServer of rtmp.go
  unfoldable pub new_server : Address → Error ⊎ Server Socket
  unfolding new
  new_server bind = new bind

  unfoldable pub close : Server Socket → (Error ⊎ Unit {0}) × Server Socket
  close s =
      let (result, socket) = net.close_socket s.socket in (result, record s { socket = socket })

  abbrev pub accepted : Server Socket → (Error ⊎ Conn) × Socket → Server Socket
  accepted s (inl e, socket) = record s { socket = socket; errs = s.errs ++ e ∷ [] }
  accepted s (inr conn, socket) = record s {
    socket = socket;
    clients = s.clients ++ Client.new conn ∷ [];
  }

  -- One round of the loop of Accept.
  unfoldable pub accept_one : Server Socket → Server Socket
  unfolding Client.new
  accept_one s = accepted s (net.accept_on s.socket)

  -- `n` rounds of it; the loop has no way out.
  unfoldable pub accept : ℕ → Server Socket → Server Socket
  unfolding accept_one
  accept zero s = s
  accept (suc n) s = accept n (accept_one s)
