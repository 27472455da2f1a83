-- ===== src/Chunk/Normalizer/History.antt =====
-- The normalizer against the list of the headers it has returned, newest first.
use rtmp.Base.{
  ℕ, zero, suc, ◌≡◌, refl, ap, Option, none, some, List, [], ◌∷◌, arith, ◌==◌, if◌then◌else◌,
}
use rtmp.Base.FinMap
use rtmp.Base.FinMap.{FinMap, map_laws, get-put, get-remove}
use rtmp.Chunk.MessageHeader.{MessageHeader}
use rtmp.Chunk.Header.{Header}
use rtmp.Chunk.Normalizer.{
  DefaultNormalizer, fill_partial_header, fill_empty_header, store, filled_by, complete,
  normalize_default,
}

-- The newest header of a history, on any chunk stream and on the stream `id`.
abbrev pub newest : List Header → Option Header
newest [] = none
newest (h ∷ hs) = some h

abbrev pub newest_on : ℕ → List Header → Option Header
newest_on id [] = none
newest_on id (h ∷ hs) = if h.basic_header.stream_id == id then some h else newest_on id hs

-- The normalizer remembers of a history what it needs of it.
pub record Remembers (n : DefaultNormalizer) (hs : List Header) : Type 0 where
  pub last_is : n.last ≡ newest hs
  pub headers_are : (id : ℕ) → FinMap.get n.headers id ≡ newest_on id hs

abbrev with_message : Header → MessageHeader → Header
with_message h m = record h { message_header = m }

abbrev completed_by : ℕ → Option Header → Option Header → Header → Header
completed_by (suc zero) (some last) own h =
    with_message h (record h.message_header { stream_id = last.message_header.stream_id })
completed_by (suc (suc zero)) (some last) own h = with_message h (record h.message_header {
  stream_id = last.message_header.stream_id;
  length = last.message_header.length;
})
completed_by (suc (suc (suc zero))) last (some own) h = with_message h own.message_header
completed_by f last own h = h

-- The header that a history makes of a partial one: formats 1 and 2 take the message stream of the
-- newest header, format 2 its length too, and format 3 the message header of the newest header on
-- its own chunk stream. Any other header is complete, and so is one with nothing before it.
unfoldable pub completed : List Header → Header → Header
completed hs h =
    completed_by h.basic_header.format_id (newest hs) (newest_on h.basic_header.stream_id hs) h

complete_by :
    (f : ℕ) (last own : Option Header) (h : Header)
    → h.basic_header.format_id ≡ f
    → filled_by fill_empty_header own (filled_by fill_partial_header last h)
      ≡ completed_by f last own h
unfolding fill_empty_header fill_partial_header
complete_by zero last own h e = ground arith
complete_by (suc zero) last own h e = ground arith
complete_by (suc (suc zero)) last own h e = ground arith
complete_by (suc (suc (suc zero))) last own h e = ground arith
complete_by (suc (suc (suc (suc f)))) last own h e = ground arith

module _ (n : DefaultNormalizer) (hs : List Header) (h : Header) (r : Remembers n hs) where
  complete-eq-completed : complete n h ≡ completed hs h
  unfolding complete completed
  complete-eq-completed = simp (r.last_is, r.headers_are) (complete_by _ _ _ h refl)

-- A normalizer that remembers the history `hs` returns the header completed by it, and then
-- remembers the longer history.
pub normalize-completed :
    (n : DefaultNormalizer) (hs : List Header) (h : Header)
    → Remembers n hs
    → ((normalize_default h n).0 ≡ completed hs h)
      × Remembers (normalize_default h n).1 (completed hs h ∷ hs)
unfolding normalize_default store
normalize-completed n hs h r = (
  complete-eq-completed n hs h r,
  record {
    last_is = ap some (complete-eq-completed n hs h r);
    headers_are = λ id. rw (complete-eq-completed n hs h r) (simp (get-put, r.headers_are));
  },
)
