-- ===== src/Client.antt =====
-- client/client.go. The handshake, the chunk reader and the chunk writer share the connection, so its
-- two halves are in `conn`; the reader's source is taken from there when its loop starts.
pub mod Receiving
pub mod Controls
pub mod Media
pub mod Stalling
use rtmp.Base.{
  ℕ, Bool, true, false, ◌||◌, ◌==◌, Option, none, some, List, [], ◌∷◌, map, Result, ok, err,
  panicked, Exec, if◌then◌else◌,
}
use rtmp.Base.Int.{ℤ, pos}
use rtmp.Chunk.Normalizer.{new_normalizer}
use rtmp.Chunk.Reader
use rtmp.Chunk.Reader.{DefaultReader, Event, default_read_size, new_reader}
use rtmp.Chunk.Parser
use rtmp.Chunk.Parser.{Parser, Handle, FromReader, new_parser, stream}
use rtmp.Chunk.Goroutines.Rounds.{Outcome, rounds}
use rtmp.Chunk.Parser.Receivers.{Receivers, Progress, selecting}
use rtmp.Handshake
use rtmp.Handshake.{Conn, Handshaker, with_param}

-- `control_chunks` and `net_chunks` are the streams that the control stream and the manager of
-- commands were made with, `none` for nil; `write_size` is that of the writer that the two share.
-- `receiving` tells whether the goroutine of `chunks.Recv` was started.
pub record Client : Type 0 where
  pub chunks : Parser
  pub reader : DefaultReader
  pub control_chunks : Option Handle
  pub net_chunks : Option Handle
  pub write_size : ℤ
  pub conn : Conn
  pub receiving : Bool

-- `controlChunks, _ := ...`: the error is dropped, and the stream is nil then.
abbrev pub without_error : Result Handle → Option Handle
without_error (ok h) = some h
without_error (err e) = none
without_error panicked = none

unfoldable pub new : Conn → Client
unfolding stream new_parser new_reader
new conn =
    let (control, p) = stream (2 ∷ []) new_parser in
    let (net, p') = stream (3 ∷ 4 ∷ 5 ∷ 8 ∷ []) p in
    record {
      chunks = p';
      reader = new_reader [] default_read_size new_normalizer;
      control_chunks = without_error control;
      net_chunks = without_error net;
      write_size = pos 4096;
      conn = conn;
      receiving = false;
    }

-- After the handshake: the reading starts if it has succeeded.
abbrev pub started :
    Client → Option (Result (Unit {0}) × Handshaker) → Option (Result (Unit {0}) × Client)
started c none = none
started c (some (ok u, h)) = some (
  ok tt,
  record c { conn = h.rw; reader = record c.reader { source = h.rw.incoming }; receiving = true },
)
started c (some (err e, h)) = some (err e, record c { conn = h.rw })
started c (some (panicked, h)) = some (panicked, record c { conn = h.rw })

-- Client.Handshake on fuel; `random` is what `rand.Read` gives.
unfoldable pub handshake : ℕ → List ℕ → Client → Option (Result (Unit {0}) × Client)
unfolding Handshake.handshake with_param
handshake fuel random c = started c (Handshake.handshake fuel random (with_param c.conn none))

-- The IDs of the streams that `New` hands to the control stream and to the manager of commands.
abbrev pub handed_out : ℕ → Bool
handed_out id = id == 2 || (id == 3 || (id == 4 || (id == 5 || id == 8)))

-- Who can receive from the channels of the parser, which no one outside has: nothing receives its
-- errors, and `listening` tells whether what has the stream of an ID receives from it.
unfoldable pub receivers : (ℕ → Bool) → Receivers
receivers listening = record {
  errs = false;
  streams = λ id. if handed_out id then listening id else false;
}

-- What the rounds have made of the client: what the reader has left is what is left on the connection.
abbrev pub after_rounds : Client → Outcome → Option (Result Progress) × Client
after_rounds c (result, (r, p)) =
    (some result, record c { chunks = p; reader = r; conn = record c.conn { incoming = r.source } })

-- The goroutines of the reader and of the parser, while the reader makes `n` rounds at most: what its
-- loop sends the parser sends on to who receives it, and waits for ever if no one does. `none` if they
-- were not started.
unfoldable pub receive_rounds : (ℕ → Bool) → ℕ → Client → Option (Result Progress) × Client
unfolding rounds receivers
receive_rounds listening n c =
    if c.receiving
    then after_rounds c (rounds (receivers listening) n c.reader c.chunks)
    else (none, c)
