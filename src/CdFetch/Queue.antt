-- ===== src/CdFetch/Queue.antt =====
-- `build_early_part_queue` and `build_late_part_queue` of src/downloader/cd_fetch.c: the parts that
-- the hybrid coordinator downloads before and after it has the whole central directory. A queue is
-- the list of its first `..._queue_count` elements.
use burst.Base.{
  ℕ, ◌+◌, ◌-◌, ◌*◌, ◌%◌, ◌^◌, Bool, true, false, not, ◌&&◌, Option, none, some, List, [], ◌∷◌, ltb,
  leb, ◌==◌, if◌then◌else◌, length,
}
use burst.Parser.{FileMetadata}
use burst.CdFetch.{plus64}
use burst.CdFetch.Buffers.{BodyDataSegment}

abbrev pub uint32_max : ℕ
uint32_max = 2 ^ 32 - 1

abbrev pub part_start : ℕ → ℕ → ℕ
part_start part_size part = part * part_size % 2 ^ 64

-- Whether the part is behind that of the file before.
abbrev pub is_later : Option ℕ → ℕ → Bool
is_later none part = false
is_later (some previous) part = ltb previous part

-- The loop that looks for the first safe part; UINT32_MAX where there is none.
unfoldable pub first_safe_part : ℕ → Option ℕ → List FileMetadata → ℕ
first_safe_part part_size previous [] = uint32_max
first_safe_part part_size previous (f ∷ fs) =
    let rest = first_safe_part part_size (some f.part_index) fs in
    if f.local_header_offset == part_start part_size f.part_index
    then f.part_index
    else if is_later previous f.part_index
    then f.part_index
    else rest

-- The loop that queues the parts, from the `last_queued` on.
unfoldable pub queue_parts : ℕ → ℕ → ℕ → ℕ → List FileMetadata → List ℕ
queue_parts part_size initial_start first last_queued [] = []
queue_parts part_size initial_start first last_queued (f ∷ fs) =
    let part = f.part_index in
    let behind = queue_parts part_size initial_start first part fs in
    let same = queue_parts part_size initial_start first last_queued fs in
    if leb first part && not (part == last_queued)
    then (if leb initial_start (part_start part_size part) then behind else part ∷ behind)
    else same

unfoldable pub build_early_part_queue : ℕ → ℕ → List FileMetadata → List ℕ
build_early_part_queue part_size initial_start files =
    let first = first_safe_part part_size none files in
    if length files == 0
    then []
    else if first == uint32_max
    then []
    else queue_parts part_size initial_start first uint32_max files

unfoldable pub is_covered : List BodyDataSegment → ℕ → ℕ → Bool
is_covered [] start end = false
is_covered (s ∷ ss) start end =
    let rest = is_covered ss start end in
    let seg_end = plus64 s.archive_offset s.size in
    if leb s.archive_offset start && leb end seg_end then true else rest

abbrev pub part_end : ℕ → ℕ → ℕ → ℕ
part_end part_size cd_offset p =
    let whole = plus64 (part_start part_size p) part_size in
    if ltb cd_offset whole then cd_offset else whole

-- The loop over the parts from `p` on, of which the list says whether they were dispatched.
unfoldable pub queue_late : ℕ → ℕ → List BodyDataSegment → ℕ → List Bool → List ℕ
queue_late part_size cd_offset segments p [] = []
queue_late part_size cd_offset segments p (dispatched ∷ others) =
    let rest = queue_late part_size cd_offset segments (p + 1) others in
    let start = part_start part_size p in
    let end = part_end part_size cd_offset p in
    if dispatched
    then rest
    else if not (is_covered segments start end) && ltb start end
    then p % 2 ^ 32 ∷ rest
    else rest

unfoldable pub build_late_part_queue : ℕ → ℕ → List BodyDataSegment → List Bool → List ℕ
build_late_part_queue part_size cd_offset segments part_dispatched =
    queue_late part_size cd_offset segments 0 part_dispatched
