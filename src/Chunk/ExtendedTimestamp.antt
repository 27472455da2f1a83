-- ===== src/Chunk/ExtendedTimestamp.antt =====
-- chunk/extended_timestamp.go
use rtmp.Base.{ℕ, ◌^◌, ◌<◌, ◌≡◌, refl, List, ◌++◌, arith, ok, pure, lift, ◌>>=◌}
use rtmp.Io.{Input, Output, buffer}
use rtmp.Spec.{uint32, bytes32, put_uint32, read_bytes}

pub record ExtendedTimestamp : Type 0 where
  pub delta : ℕ

unfoldable pub read : ExtendedTimestamp → Input ExtendedTimestamp
unfolding read_bytes uint32
read t = do buf ← read_bytes 4; delta ← lift (uint32 buf); pure (record t { delta = delta })

unfoldable pub write : ExtendedTimestamp → Output
unfolding put_uint32
write t = put_uint32 t.delta

-- Every 32-bit timestamp is read back from what it was written as.
pub read-write :
    (t t' : ExtendedTimestamp) (out rest : List ℕ)
    → t.delta < 2 ^ 32
    → (write t (buffer out) ≡ (ok tt, buffer (out ++ bytes32 t.delta)))
      × (read t' (bytes32 t.delta ++ rest) ≡ (ok t, rest))
unfolding read write
read-write t t' out rest h = (refl, ground arith)
