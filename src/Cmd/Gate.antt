-- ===== src/Cmd/Gate.antt =====
-- cmd/gate.go
use rtmp.Base.{ℕ, Bool, true, false, ◌&&◌, ◌||◌, not, ◌==◌}
use rtmp.Chunk.Chunk.{Chunk}

-- The implementations of the interface `Gate`. The gates of a union or of an any-gate are a list of
-- their own.
mutual
  pub data Gate : Type 0 where
    stream_id_gate : ℕ → Gate
    message_stream_gate : ℕ → Gate
    type_id_gate : ℕ → Gate
    union_gate : Gates → Gate
    any_gate : Gates → Gate

  pub data Gates : Type 0 where
    no_gates : Gates
    and_gate : Gate → Gates → Gates

abbrev pub is_empty : Gates → Bool
is_empty no_gates = true
is_empty (and_gate g gs) = false

-- Gate.Open. The loop of a union gate is left at the first gate that is closed, that of an any-gate
-- at the first that is open; gates have no effects, so the rest need not be skipped here.
unfoldable mutual
  pub is_open : Gate → Chunk → Bool
  is_open (stream_id_gate id) c = c.header.basic_header.stream_id == id
  is_open (message_stream_gate id) c = c.header.message_header.stream_id == id
  is_open (type_id_gate id) c = c.header.message_header.type_id == id
  is_open (union_gate gs) c = all_open gs c && not (is_empty gs)
  is_open (any_gate gs) c = any_open gs c

  pub all_open : Gates → Chunk → Bool
  all_open no_gates c = true
  all_open (and_gate g gs) c = is_open g c && all_open gs c

  pub any_open : Gates → Chunk → Bool
  any_open no_gates c = false
  any_open (and_gate g gs) c = is_open g c || any_open gs c

abbrev pub of_two : Gate → Gate → Gates
of_two a b = and_gate a (and_gate b no_gates)

unfoldable pub net_conn_gate : Gate
net_conn_gate =
    any_gate
      (of_two (stream_id_gate 3) (union_gate (of_two (stream_id_gate 8) (message_stream_gate 0))))

unfoldable pub net_stream_gate : Gate
net_stream_gate = union_gate (
    of_two
      (any_gate (
        of_two (stream_id_gate 4) (union_gate (of_two (stream_id_gate 8) (message_stream_gate 1)))))
      (type_id_gate 0x14))

unfoldable pub data_stream_gate : Gate
data_stream_gate = union_gate (
    of_two (stream_id_gate 4)
      (any_gate (and_gate (type_id_gate 0x08) (of_two (type_id_gate 0x09) (type_id_gate 0x12)))))
