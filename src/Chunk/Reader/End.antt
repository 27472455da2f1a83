-- ===== src/Chunk/Reader/End.antt =====
-- The reader of chunk/default_reader.go at the end of its input.
use rtmp.Base.{ℕ, zero, suc, ◌≡◌, refl, sym, ap, ◌∙◌, [], ◌∷◌, replicate, eof, ok, err}
use rtmp.Spec.{read_byte}
use rtmp.Io.{read_one}
use rtmp.Chunk.BasicHeader
use rtmp.Chunk.Header
use rtmp.Chunk.Header.{Header}
use rtmp.Chunk.Reader.{DefaultReader, error, after_header, iterate, recv}
use rtmp.Chunk.Reader.Continuation.{recv_step}

read_end : Header.read Header.empty [] ≡ (err eof, [])
unfolding Header.read BasicHeader.read read_byte read_one
read_end = refl

-- A round sends the error of it, and the reader is as it was.
pub iterate-end : (r : DefaultReader) → r.source ≡ [] → iterate r ≡ (ok (error eof ∷ []), r)
unfolding iterate
iterate-end r e =
    ap (after_header r) (ap (Header.read Header.empty) e ∙ read_end)
    ∙ ap (λ s. (ok (error eof ∷ []), record r { source = s })) (sym e)

-- The loop does not end: each of its rounds sends the error once more.
pub recv-end :
    (n : ℕ) (r : DefaultReader) → r.source ≡ [] → recv n r ≡ (ok (replicate n (error eof)), r)
recv-end zero r e = unfold recv in refl
recv-end (suc n) r e =
    recv_step n r r r (error eof ∷ []) (replicate n (error eof)) (iterate-end r e) (recv-end n r e)
