-- ===== src/Cmd/Manager.antt =====
-- cmd/manager.go: the dispatch of chunks to the net connection, the data stream and the net stream.
pub mod Routing
pub mod Media
use rtmp.Base.{Bool, true, false, ◌+◌, Option, none, some, List, [], ◌∷◌, ◌++◌, if◌then◌else◌}
use rtmp.Chunk.Chunk.{Chunk}
use rtmp.Cmd.Gate.{Gate, is_open, net_conn_gate, net_stream_gate, data_stream_gate}
use rtmp.Loop.{Signal, received, closing, Ending, running, returned, crashed}

-- The channels of the manager.
pub data Channel : Type 0 where
  to_net_conn to_data_stream to_net_stream : Channel

abbrev pub channels : List (Gate × Channel)
channels =
    (net_conn_gate, to_net_conn)
    ∷ (data_stream_gate, to_data_stream)
    ∷ (net_stream_gate, to_net_stream)
    ∷ []

-- The loop over the map of channels; the chunk goes to every channel whose gate is open. Go does
-- not fix the order of the map; it is that of the list here.
unfoldable pub deliveries : List (Gate × Channel) → Chunk → List (Channel × Chunk)
unfolding is_open
deliveries [] c = []
deliveries ((gate, channel) ∷ rest) c =
    let more = deliveries rest c in if is_open gate c then (channel, c) ∷ more else more

abbrev dispatch_chunk :
    Option Chunk → List (Channel × Chunk) × Ending → List (Channel × Chunk) × Ending
dispatch_chunk none more = ([], crashed)
dispatch_chunk (some c) (out, e) = (deliveries channels c ++ out, e)

-- The loop of Dispatch: the `break` for the closer leaves the `select` only, so the loop goes on.
unfoldable pub dispatch : List (Signal Chunk) → List (Channel × Chunk) × Ending
unfolding deliveries
dispatch [] = ([], running)
dispatch (received m ∷ signals) = let more = dispatch signals in dispatch_chunk m more
dispatch (closing ∷ signals) = dispatch signals

-- The manager: whether the loops of its children were started and were told to close, whether its
-- channels and its closer are closed, what it has sent on the channels, and where its loop is.
pub record Manager : Type 0 where
  pub children_started : Bool
  pub children_closed : Bool
  pub channels_closed : Bool
  pub sent : List (Channel × Chunk)
  pub ending : Ending

-- `New`, whose loop is not started
unfoldable pub new_manager : Manager
new_manager = record {
  children_started = false;
  children_closed = false;
  channels_closed = false;
  sent = [];
  ending = running;
}

unfoldable pub start_children : Manager → Manager
start_children m = record m { children_started = true }

unfoldable pub cleanup_children : Manager → Manager
cleanup_children m = record m { children_closed = true }

-- The deferred calls, in the order in which they are made.
abbrev pub closed_by : Bool → Manager → Manager
closed_by manage m =
    let m' = record m { channels_closed = true } in if manage then cleanup_children m' else m'

-- They are made when the loop has returned, and when it has panicked.
unfoldable pub deferred : Bool → Ending → Manager → Manager
unfolding cleanup_children
deferred manage running m = m
deferred manage returned m = closed_by manage m
deferred manage crashed m = closed_by manage m

-- The whole of Dispatch.
unfoldable pub run_dispatch : Bool → List (Signal Chunk) → Manager → Manager
unfolding start_children deferred dispatch
run_dispatch manage signals m =
    let m' = if manage then start_children m else m in
    let (out, e) = dispatch signals in
    deferred manage e (record m' { sent = m'.sent ++ out; ending = e })

abbrev same_channel : Channel → Channel → Bool
same_channel to_net_conn to_net_conn = true
same_channel to_data_stream to_data_stream = true
same_channel to_net_stream to_net_stream = true
same_channel a b = false

-- The chunks that the child at the other end of a channel gets.
unfoldable pub given_to : Channel → List (Channel × Chunk) → List Chunk
given_to channel [] = []
given_to channel ((to, c) ∷ out) =
    let more = given_to channel out in if same_channel channel to then c ∷ more else more
