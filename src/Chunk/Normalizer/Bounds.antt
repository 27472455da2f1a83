-- ===== src/Chunk/Normalizer/Bounds.antt =====
-- A normalizer announces no more than the headers that it was given.
use rtmp.Base.{Option, none, some, inl, inr, ◌≡◌, refl, ◌==◌, ◌&&◌, not, Bool-cases}
use rtmp.Base.FinMap
use rtmp.Base.FinMap.{AllValues, AllValues-put}
use rtmp.Chunk.Header.{Header}
use rtmp.Chunk.Header.Bounds.{IsShort}
use rtmp.Chunk.Normalizer.{
  Normalizer, default, noop, fill_partial_header, fill_empty_header, filled_by, store, complete,
  normalize_default, normalize,
}

-- The header that an option may hold is short.
abbrev pub IsShortIfAny : Option Header → Type 0
IsShortIfAny none = Unit {0}
IsShortIfAny (some h) = IsShort h

abbrev pub Remembers : Normalizer → Type 0
Remembers (default n) = IsShortIfAny n.last × AllValues IsShort n.headers
Remembers noop = Unit {0}

IsShort-fill_partial_header :
    (last : Option Header) (h : Header)
    → IsShortIfAny last
    → IsShort h
    → IsShort (filled_by fill_partial_header last h)
unfolding fill_partial_header
IsShort-fill_partial_header none h l s = s
IsShort-fill_partial_header (some last) h l s =
    elim (Bool-cases (not (h.basic_header.format_id == 1) && not (h.basic_header.format_id == 2))) [
      | inl e ↦ rw e s
      | inr e ↦ elim (Bool-cases (h.basic_header.format_id == 2)) [
        | inl two ↦ rw (e, two) l
        | inr one ↦ rw (e, one) s
      ]
    ]

IsShort-fill_empty_header :
    (last : Option Header) (h : Header)
    → IsShortIfAny last
    → IsShort h
    → IsShort (filled_by fill_empty_header last h)
unfolding fill_empty_header
IsShort-fill_empty_header none h l s = s
IsShort-fill_empty_header (some last) h l s = elim (Bool-cases (h.basic_header.format_id == 3)) [
  | inl e ↦ rw e l
  | inr e ↦ rw e s
]

found : (o : Option Header) → ((h : Header) → o ≡ some h → IsShort h) → IsShortIfAny o
found none h = tt
found (some x) h = h x refl

-- Short headers are made short headers, and remembered as such.
pub IsShort-normalize :
    (h : Header) (n : Normalizer)
    → IsShort h
    → Remembers n
    → IsShort (normalize h n).0 × Remembers (normalize h n).1
unfolding normalize normalize_default complete store
IsShort-normalize h noop s tt = (s, tt)
IsShort-normalize h (default n) s (l, hs) =
    let id = h.basic_header.stream_id in
    let short =
      IsShort-fill_empty_header (FinMap.get n.headers id) _
        (found (FinMap.get n.headers id) (hs id)) (IsShort-fill_partial_header n.last h l s) in
    (short, (short, AllValues-put IsShort n.headers _ _ hs short))
