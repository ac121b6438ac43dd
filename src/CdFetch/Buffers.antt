-- ===== src/CdFetch/Buffers.antt =====
-- `assemble_cd_buffer` and `add_tail_buffer_segment` of src/downloader/cd_fetch.c. A buffer that is a
-- NULL pointer is `none`, and the size that goes with a buffer is its length.
use burst.Base.{
  ℕ, ◌+◌, ◌-◌, ◌*◌, Bool, not, ◌&&◌, Option, none, some, List, [], ◌∷◌, ◌++◌, ltb, leb, ◌==◌,
  if◌then◌else◌, length, take, drop,
}
use burst.CdFetch.{CdPartRange, plus64, minus64}
use burst.CdFetch.Slices.{slice}

pub record BodyDataSegment : Type 0 where
  pub bytes : Option (List ℕ)
  pub size : ℕ
  pub archive_offset : ℕ

-- `ranges[i]` with `range_buffers[i]`
pub record FetchedRange : Type 0 where
  pub range : CdPartRange
  pub buffer : Option (List ℕ)

pub record Assembled : Type 0 where
  pub cd_buffer : List ℕ
  pub body_segments : List BodyDataSegment

-- `memcpy(buf + offset, bytes, ...)`
abbrev pub overwrite : ℕ → List ℕ → List ℕ → List ℕ
overwrite offset bytes buf = take offset buf ++ (bytes ++ drop (offset + length bytes) buf)

-- The bytes of `[start, stop)`, which `buffer` holds, are put where they overlap with the central
-- directory. The differences are not below 0.
unfoldable pub copy_overlap : ℕ → ℕ → ℕ → ℕ → List ℕ → List ℕ → List ℕ
copy_overlap central_dir_offset cd_end start stop buffer cd_buf =
    let cd_data_start = if ltb start central_dir_offset then central_dir_offset else start in
    let cd_data_end = if ltb cd_end stop then cd_end else stop in
    let offset_in_range = cd_data_start - start in
    let copy_size = cd_data_end - cd_data_start in
    if ltb cd_data_start cd_data_end
    then (if leb (plus64 offset_in_range copy_size) (length buffer)
        then overwrite (cd_data_start - central_dir_offset) (slice offset_in_range copy_size buffer)
            cd_buf
        else cd_buf)
    else cd_buf

abbrev pub copy_range : ℕ → ℕ → FetchedRange → List ℕ → List ℕ
copy_range central_dir_offset cd_end f cd_buf = elim (f.buffer) [
  | none ↦ cd_buf
  | some bytes ↦
      if length bytes == 0
      then cd_buf
      else copy_overlap central_dir_offset cd_end f.range.start (plus64 f.range.end 1) bytes cd_buf
]

unfoldable pub copy_ranges : ℕ → ℕ → List FetchedRange → List ℕ → List ℕ
copy_ranges central_dir_offset cd_end [] cd_buf = cd_buf
copy_ranges central_dir_offset cd_end (f ∷ fs) cd_buf =
    copy_ranges central_dir_offset cd_end fs (copy_range central_dir_offset cd_end f cd_buf)

abbrev pub copy_initial : ℕ → ℕ → Option (List ℕ) → ℕ → List ℕ → List ℕ
copy_initial central_dir_offset cd_end none initial_start cd_buf = cd_buf
copy_initial central_dir_offset cd_end (some bytes) initial_start cd_buf =
    if ltb 0 (length bytes) && ltb initial_start cd_end
    then copy_overlap central_dir_offset cd_end initial_start (plus64 initial_start (length bytes))
        bytes cd_buf
    else cd_buf

-- The first range with body data.
unfoldable pub body_segments_of : List FetchedRange → List BodyDataSegment
body_segments_of [] = []
body_segments_of (f ∷ fs) =
    let rest = body_segments_of fs in
    if f.range.has_body_data && ltb 0 f.range.body_data_size
    then record { bytes = f.buffer; size = f.range.body_data_size; archive_offset = f.range.start }
      ∷ []
    else rest

abbrev pub sizeof_body_data_segment : ℕ
sizeof_body_data_segment = 24

-- `fresh` is what the buffer holds that `malloc` returns.
unfoldable pub assemble_cd_buffer :
    (ℕ → Bool) → (ℕ → List ℕ) → Option (List ℕ) → ℕ → List FetchedRange → ℕ → ℕ → Option Assembled
assemble_cd_buffer alloc fresh initial_buffer initial_start fetched central_dir_offset
      central_dir_size =
    let cd_end = plus64 central_dir_offset central_dir_size in
    let segments = body_segments_of fetched in
    let assembled : Assembled = record {
      cd_buffer =
          copy_initial central_dir_offset cd_end initial_buffer initial_start
            (copy_ranges central_dir_offset cd_end fetched (fresh central_dir_size));
      body_segments = segments;
    } in
    if not (alloc central_dir_size)
    then none
    else if length segments == 0
    then some assembled
    else if alloc (length segments * sizeof_body_data_segment)
    then some assembled
    else none

-- 0 with the segments, or -1.
unfoldable pub add_tail_buffer_segment :
    (ℕ → Bool) → List BodyDataSegment → Option (List ℕ) → ℕ → ℕ → Option (List BodyDataSegment)
add_tail_buffer_segment alloc segments none initial_start central_dir_offset = none
add_tail_buffer_segment alloc segments (some buffer) initial_start central_dir_offset =
    let tail_end = plus64 initial_start (length buffer) in
    let body_data_end = if ltb tail_end central_dir_offset then tail_end else central_dir_offset in
    let body_size = minus64 body_data_end initial_start in
    let grown : List BodyDataSegment =
      segments
      ++ (record { bytes = some buffer; size = body_size; archive_offset = initial_start } ∷ []) in
    if leb central_dir_offset initial_start
    then some segments
    else if body_size == 0
    then some segments
    else if alloc ((length segments + 1) * sizeof_body_data_segment)
    then some grown
    else none
