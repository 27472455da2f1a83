-- ===== src/Chunk/Parser/Routing.antt =====
-- Which chunks the parser of chunk/parser.go puts on which stream.
use rtmp.Base.{
  ℕ, ◌≡◌, refl, sym, ap, ◌∙◌, inl, inr, List, [], ◌∷◌, ◌++◌, append-nil, append_assoc, ◌==◌,
  if◌then◌else◌, ==_iff, ne→==, Error, ok, proceed,
}
use rtmp.Chunk.Chunk
use rtmp.Chunk.Chunk.{Chunk}
use rtmp.Chunk.Parser.{Parser, FromReader, chunk, failure, send_on, receive, recv}
use rtmp.Base.{equal-cases}
use rtmp.Chunk.Parser.Links.{
  queue, IsLinked, one_stream_lem, sent_to, send_on_found, IsLinked-sent_to, queue-sent_to_same,
  queue-sent_to_other,
}

-- What a message of the reader adds to the stream of an ID, and to the errors.
abbrev pub added : ℕ → FromReader → List Chunk
added id (chunk c) = if Chunk.stream_id c == id then c ∷ [] else []
added id (failure e) = []

abbrev pub reported : FromReader → List Error
reported (chunk c) = []
reported (failure e) = e ∷ []

unfoldable pub of_stream : ℕ → List FromReader → List Chunk
of_stream id [] = []
of_stream id (m ∷ ms) = added id m ++ of_stream id ms

unfoldable pub failures : List FromReader → List Error
failures [] = []
failures (m ∷ ms) = reported m ++ failures ms

receive_lem :
    (m : FromReader) (p : Parser)
    → IsLinked p
    → (p' : Parser) × (receive m p ≡ (ok tt, p'))
      × IsLinked p'
      × ((j : ℕ) → queue p' j ≡ queue p j ++ added j m)
      × (p'.errs ≡ p.errs ++ reported m)
unfolding receive queue
receive_lem (failure e) p l = (
  record p { errs = p.errs ++ e ∷ [] },
  refl,
  record { bounded = l.bounded; stored = l.stored },
  λ j. sym (append-nil (queue p j)),
  refl,
)
receive_lem (chunk c) p l =
    let id = Chunk.stream_id c in
    let (a, p1, got, at, l1, same, kept) = one_stream_lem id p l in
    let (s, found, has) = l1.stored id a at in
    (
      sent_to c a s p1,
      ap (λ r. proceed r (send_on c)) got ∙ send_on_found c a s p1 found,
      IsLinked-sent_to c a s p1 l1 found,
      λ j. elim (equal-cases id j) [
        | inl here ↦
            ap (queue (sent_to c a s p1)) (sym here)
            ∙ queue-sent_to_same c id a s p1 at found
            ∙ ap (λ q. q ++ c ∷ []) (same id ∙ ap (queue p) here)
            ∙ ap (λ b. queue p j ++ (if b then c ∷ [] else [])) (sym ((==_iff id j).1 here))
        | inr ne ↦
            queue-sent_to_other c id a j s p1 l1 at found ne
            ∙ same j
            ∙ sym (append-nil (queue p j))
            ∙ ap (λ b. queue p j ++ (if b then c ∷ [] else [])) (sym (ne→== id j ne))
      ],
      kept ∙ sym (append-nil p.errs),
    )

-- Whatever the reader gives to a parser whose IDs lead to their streams, it is taken without an error
-- or a panic: each stream gets the chunks of its ID in their order, behind those that it has, the
-- errors are passed on in theirs, and the IDs lead to their streams again.
pub recv-of_stream :
    (ms : List FromReader) (p : Parser)
    → IsLinked p
    → (p' : Parser) × (recv ms p ≡ (ok tt, p'))
      × IsLinked p'
      × ((id : ℕ) → queue p' id ≡ queue p id ++ of_stream id ms)
      × (p'.errs ≡ p.errs ++ failures ms)
unfolding recv of_stream failures
recv-of_stream [] p l = (p, refl, l, λ id. sym (append-nil (queue p id)), sym (append-nil p.errs))
recv-of_stream (m ∷ ms) p l =
    let (p1, first, l1, q1, e1) = receive_lem m p l in
    let (p2, later, l2, q2, e2) = recv-of_stream ms p1 l1 in
    (
      p2,
      ap (λ r. proceed r (λ u. recv ms)) first ∙ later,
      l2,
      λ id.
          q2 id
          ∙ ap (λ q. q ++ of_stream id ms) (q1 id)
          ∙ append_assoc (queue p id) (added id m) (of_stream id ms),
      e2 ∙ ap (λ es. es ++ failures ms) e1 ∙ append_assoc p.errs (reported m) (failures ms),
    )
