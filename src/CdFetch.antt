-- ===== src/CdFetch.antt =====
-- src/downloader/cd_fetch.c: the ranges of the archive that hold the rest of a large central
-- directory, and the buffer that is put together from them. Sums are reckoned in a uint64_t.
pub mod Ranges
pub mod Slices
pub mod Buffers
pub mod Assemble
pub mod Whole
pub mod Segments
pub mod Queue
pub mod Parts
pub mod Early
pub mod Late
use burst.Base.{
  ℕ, zero, suc, ◌+◌, ◌-◌, ◌*◌, ◌/◌, ◌%◌, ◌^◌, ◌≤◌, ◌<◌, ◌≡◌, refl, sym, ap, ◌∙◌, ◌≢◌, ◌⊎◌, inl, inr,
  Bool, true, false, not, ◌&&◌, ◌||◌, Option, none, some, List, [], ◌∷◌, ◌++◌, map, append_assoc,
  append-nil, arith, ltb, leb, ◌==◌, if◌then◌else◌, Bool-cases, Option-cases, le_of_leb,
  lt_of_leb-false, lt_of_ltb, le_of_ltb-false, ltb_of_lt, ltb-false_of_le, leb_of_le, eq_of_==,
  ==_of_eq, length, get_or, get_elem?, take, drop, replicate, All, length-append, take-append-drop,
  length-take, length-drop, length-replicate, take-append, drop-append, get_or-append, length-map,
}

pub record CdPartRange : Type 0 where
  pub start : ℕ
  pub end : ℕ
  pub has_body_data : Bool
  pub body_data_size : ℕ

abbrev pub plus64 : ℕ → ℕ → ℕ
plus64 a b = (a + b) % 2 ^ 64

abbrev pub minus64 : ℕ → ℕ → ℕ
minus64 a b = (a + (2 ^ 64 - b)) % 2 ^ 64

-- 0 with the array, or -1. `endless` means that the counting loop does not end within its fuel.
pub data FetchRanges : Type 0 where
  ranges : List CdPartRange → FetchRanges
  ranges_failed endless : FetchRanges

-- `for (...; part_start < initial_buffer_start; part_start += part_size) count++;`
unfoldable pub count_ranges : ℕ → ℕ → ℕ → ℕ → Option ℕ
count_ranges part_size initial_start zero part_start = none
count_ranges part_size initial_start (suc fuel) part_start =
    let rest = count_ranges part_size initial_start fuel (plus64 part_start part_size) in
    if ltb part_start initial_start
    then elim rest [ none ↦ none | some count ↦ some (suc count) ]
    else some 0

unfoldable pub range_end : ℕ → ℕ → ℕ → ℕ
range_end part_size initial_start part_start =
    let part_end = minus64 (plus64 part_start part_size) 1 in
    if leb initial_start part_end then minus64 initial_start 1 else part_end

abbrev pub body_end : ℕ → ℕ → ℕ
body_end central_dir_offset end =
    if ltb (plus64 end 1) central_dir_offset then plus64 end 1 else central_dir_offset

abbrev pub range_at : ℕ → ℕ → ℕ → ℕ → CdPartRange
range_at central_dir_offset part_size initial_start part_start =
    let end = range_end part_size initial_start part_start in
    record {
      start = part_start;
      end = end;
      has_body_data = ltb part_start central_dir_offset;
      body_data_size =
          if ltb part_start central_dir_offset
          then minus64 (body_end central_dir_offset end) part_start
          else 0;
    }

-- The loop that fills the `count` elements.
unfoldable pub fill_ranges : ℕ → ℕ → ℕ → ℕ → ℕ → List CdPartRange
fill_ranges central_dir_offset part_size initial_start zero part_start = []
fill_ranges central_dir_offset part_size initial_start (suc n) part_start =
    let rest =
      fill_ranges central_dir_offset part_size initial_start n (plus64 part_start part_size) in
    if ltb part_start initial_start
    then range_at central_dir_offset part_size initial_start part_start ∷ rest
    else []

abbrev pub sizeof_cd_part_range : ℕ
sizeof_cd_part_range = 32

abbrev pub fill_counted : (ℕ → Bool) → ℕ → ℕ → ℕ → ℕ → Option ℕ → FetchRanges
fill_counted alloc central_dir_offset part_size initial_start first none = endless
fill_counted alloc central_dir_offset part_size initial_start first (some count) =
    if count == 0
    then ranges []
    else if alloc (count * sizeof_cd_part_range)
    then ranges (fill_ranges central_dir_offset part_size initial_start count first)
    else ranges_failed

-- The start of the part that holds the offset. The count is at most `initial_buffer_start`.
unfoldable pub calculate_cd_fetch_ranges : (ℕ → Bool) → ℕ → ℕ → ℕ → FetchRanges
calculate_cd_fetch_ranges alloc central_dir_offset part_size initial_start =
    let first = central_dir_offset / part_size * part_size in
    if leb initial_start central_dir_offset
    then ranges []
    else if leb initial_start first
    then ranges []
    else fill_counted alloc central_dir_offset part_size initial_start first
        (count_ranges part_size initial_start (suc initial_start) first)
