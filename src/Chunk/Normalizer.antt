-- ===== src/Chunk/Normalizer.antt =====
-- chunk/normalizer.go and chunk/default_normalizer.go. The normalizer keeps pointers to headers that it
-- does not change any more, so they are values here.
pub mod History
pub mod Bounds
use rtmp.Base.{◌&&◌, not, Option, none, some, [], ◌==◌, if◌then◌else◌, length}
use rtmp.Base.FinMap
use rtmp.Base.FinMap.{FinMap}
use rtmp.Chunk.Header.{Header}

pub record DefaultNormalizer : Type 0 where
  pub last : Option Header
  pub headers : FinMap Header

-- The implementations of the interface `Normalizer`.
pub data Normalizer : Type 0 where
  default : DefaultNormalizer → Normalizer
  noop : Normalizer

abbrev pub new_normalizer : Normalizer
new_normalizer = default (record { last = none; headers = [] })

unfoldable pub fill_partial_header : Header → Header → Header
fill_partial_header last h =
    let fmt_id = h.basic_header.format_id in
    let with_stream = record h.message_header { stream_id = last.message_header.stream_id } in
    if not (fmt_id == 1) && not (fmt_id == 2)
    then h
    else if fmt_id == 2
    then record h { message_header = record with_stream { length = last.message_header.length } }
    else record h { message_header = with_stream }

unfoldable pub fill_empty_header : Header → Header → Header
fill_empty_header last h =
    if not (h.basic_header.format_id == 3)
    then h
    else record h { message_header = last.message_header }

abbrev filled_by : (Header → Header → Header) → Option Header → Header → Header
filled_by fill none h = h
filled_by fill (some last) h = fill last h

-- SetLast and StoreHeader.
unfoldable pub store : Header → DefaultNormalizer → DefaultNormalizer
store h n = record { last = some h; headers = FinMap.put n.headers h.basic_header.stream_id h }

unfoldable pub complete : DefaultNormalizer → Header → Header
unfolding fill_partial_header fill_empty_header
complete n h =
    filled_by fill_empty_header (FinMap.get n.headers h.basic_header.stream_id)
      (filled_by fill_partial_header n.last h)

unfoldable pub normalize_default : Header → DefaultNormalizer → Header × DefaultNormalizer
unfolding complete store
normalize_default h n = let h' = complete n h in (h', store h' n)

unfoldable pub normalize : Header → Normalizer → Header × Normalizer
unfolding normalize_default
normalize h noop = (h, noop)
normalize h (default n) = let (h', n') = normalize_default h n in (h', default n')
