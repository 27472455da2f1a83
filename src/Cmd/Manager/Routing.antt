-- ===== src/Cmd/Manager/Routing.antt =====
-- Where cmd/manager.go sends a chunk, and that its loop does not end.
use rtmp.Base.{
  Bool, true, false, ℕ, ◌≡◌, refl, ap, ◌∙◌, All, ◌&&◌, ◌||◌, none, some, List, [], ◌∷◌, ◌++◌, map,
  arith, ◌==◌, if◌then◌else◌,
}
use rtmp.Chunk.Chunk.{Chunk}
use rtmp.Cmd.Gate.{is_open, net_conn_gate, net_stream_gate, data_stream_gate}
use rtmp.Cmd.Manager.{
  Channel, to_net_conn, to_data_stream, to_net_stream, channels, deliveries, dispatch, Manager,
  new_manager, start_children, cleanup_children, deferred, run_dispatch,
}
use rtmp.Loop.{all_received, Signal, received, closing, Ending, running, crashed}

-- The one channel for a chunk, if there is one, by chunk stream, message stream and message type.
unfoldable pub route : ℕ → ℕ → ℕ → List Channel
route chunk_stream message_stream type_id =
    if chunk_stream == 3 || (chunk_stream == 8 && message_stream == 0)
    then to_net_conn ∷ []
    else if chunk_stream == 4 && (type_id == 0x08 || type_id == 0x09 || type_id == 0x12)
    then to_data_stream ∷ []
    else if type_id == 0x14 && (chunk_stream == 4 || (chunk_stream == 8 && message_stream == 1))
    then to_net_stream ∷ []
    else []

abbrev pub routed : Chunk → List (Channel × Chunk)
routed c =
    map (λ channel. (channel, c))
      (route c.header.basic_header.stream_id c.header.message_header.stream_id
        c.header.message_header.type_id)

-- Whatever a chunk holds, it goes to the one channel of its route, or nowhere; the gates exclude each
-- other.
pub deliveries-route : (c : Chunk) → deliveries channels c ≡ routed c
unfolding deliveries route is_open net_conn_gate net_stream_gate data_stream_gate
deliveries-route c = ground arith

abbrev pub all_routed : List Chunk → List (Channel × Chunk)
all_routed [] = []
all_routed (c ∷ cs) = routed c ++ all_routed cs

-- Chunks that come in are sent on in their order, each over its route, and the loop goes on.
pub dispatch-all_routed :
    (cs : List Chunk) → dispatch (map (λ c. received (some c)) cs) ≡ (all_routed cs, running)
unfolding dispatch
dispatch-all_routed [] = refl
dispatch-all_routed (c ∷ cs) = rw (dispatch-all_routed cs, deliveries-route c)

-- What comes in is a chunk or the closer, and not the nil of a closed channel.
abbrev pub IsGiven : Signal Chunk → Type 0
IsGiven (received none) = ⊥
IsGiven (received (some c)) = Unit {0}
IsGiven closing = Unit {0}

pub All-IsGiven : (cs : List Chunk) → All IsGiven (all_received cs)
All-IsGiven [] = tt
All-IsGiven (c ∷ cs) = (tt, All-IsGiven cs)

dispatch_goes_on :
    (signals : List (Signal Chunk)) → All IsGiven signals → (dispatch signals).1 ≡ running
unfolding dispatch
dispatch_goes_on [] h = refl
dispatch_goes_on (received none ∷ signals) (h, hs) = absurd h
dispatch_goes_on (received (some c) ∷ signals) (h, hs) = dispatch_goes_on signals hs
dispatch_goes_on (closing ∷ signals) (h, hs) = dispatch_goes_on signals hs

dispatch_crashes :
    (signals rest : List (Signal Chunk))
    → All IsGiven signals
    → dispatch (signals ++ received none ∷ rest) ≡ ((dispatch signals).0, crashed)
unfolding dispatch
dispatch_crashes [] rest h = refl
dispatch_crashes (received none ∷ signals) rest (h, hs) = absurd h
dispatch_crashes (received (some c) ∷ signals) rest (h, hs) = rw (dispatch_crashes signals rest hs)
dispatch_crashes (closing ∷ signals) rest (h, hs) = dispatch_crashes signals rest hs

-- A new manager after a loop that has sent `out` and is at `e`.
abbrev managed : Bool → List (Channel × Chunk) → Ending → Manager
managed manage out e =
    let m = if manage then start_children new_manager else new_manager in
    deferred manage e (record m { sent = m.sent ++ out; ending = e })

managed_running :
    (manage : Bool) (out : List (Channel × Chunk))
    → managed manage out running ≡ record {
      children_started = manage;
      children_closed = false;
      channels_closed = false;
      sent = out;
      ending = running;
    }
unfolding deferred start_children new_manager
managed_running true out = refl
managed_running false out = refl

managed_crashed :
    (manage : Bool) (out : List (Channel × Chunk))
    → managed manage out crashed ≡ record {
      children_started = manage;
      children_closed = manage;
      channels_closed = true;
      sent = out;
      ending = crashed;
    }
unfolding deferred start_children new_manager cleanup_children
managed_crashed true out = refl
managed_crashed false out = refl

run_dispatch-managed :
    (manage : Bool) (signals : List (Signal Chunk)) (p : List (Channel × Chunk) × Ending)
    → dispatch signals ≡ p
    → run_dispatch manage signals new_manager ≡ managed manage p.0 p.1
unfolding run_dispatch
run_dispatch-managed manage signals p e = ap (λ q. managed manage q.0 q.1) e

pub dispatch_never_returns :
    (manage : Bool) (signals rest : List (Signal Chunk))
    → All IsGiven signals
    → (dispatch (closing ∷ signals) ≡ dispatch signals)
      × (run_dispatch manage signals new_manager ≡ record {
        children_started = manage;
        children_closed = false;
        channels_closed = false;
        sent = (dispatch signals).0;
        ending = running;
      })
      × (run_dispatch manage (signals ++ received none ∷ rest) new_manager ≡ record {
        children_started = manage;
        children_closed = manage;
        channels_closed = true;
        sent = (dispatch signals).0;
        ending = crashed;
      })
dispatch_never_returns manage signals rest given = (
  unfold dispatch in refl,
  run_dispatch-managed manage signals ((dispatch signals).0, running)
        (ap (λ e. ((dispatch signals).0, e)) (dispatch_goes_on signals given))
      ∙ managed_running manage (dispatch signals).0,
  run_dispatch-managed manage (signals ++ received none ∷ rest) ((dispatch signals).0, crashed)
        (dispatch_crashes signals rest given)
      ∙ managed_crashed manage (dispatch signals).0,
)

-- What a new manager sends of some chunks.
pub run_dispatch-all_routed :
    (manage : Bool) (cs : List Chunk)
    → (run_dispatch manage (all_received cs) new_manager).sent ≡ all_routed cs
run_dispatch-all_routed manage cs =
    ap (λ m. m.sent) (dispatch_never_returns manage (all_received cs) [] (All-IsGiven cs)).1
    ∙ ap (λ p. p.0) (dispatch-all_routed cs)
