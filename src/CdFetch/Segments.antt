-- ===== src/CdFetch/Segments.antt =====
-- The body data that `assemble_cd_buffer` and `add_tail_buffer_segment` of
-- src/downloader/cd_fetch.c keep for the extraction.
use mathlib.Core.Path.{subst}
use burst.Base.{
  ℕ, ◌+◌, ◌-◌, ◌*◌, ◌/◌, ◌^◌, ◌≤◌, ◌<◌, ◌≡◌, refl, sym, ap, ◌∙◌, ◌⊎◌, inl, inr, Bool, true, false,
  ◌&&◌, some, List, [], ◌∷◌, arith, ltb, leb, ◌==◌, Bool-cases, le_of_leb, lt_of_leb-false,
  ltb-false_of_le, leb_of_le, length, take, drop, All, length-drop,
}
use burst.CdFetch.{plus64, minus64, ranges, calculate_cd_fetch_ranges}
use burst.CdFetch.Slices.{slice, slice-slice}
use burst.CdFetch.Buffers.{
  BodyDataSegment, FetchedRange, body_segments_of, sizeof_body_data_segment,
  add_tail_buffer_segment,
}
use burst.CdFetch.Ranges.{Cover, calculate_cd_fetch_ranges-Cover}
use burst.CdFetch.Assemble.{Fetched, ranges_of}
use burst.CdFetch.Whole.{ranges-inj, fetched_none}

-- A segment holds bytes of the archive in front of the central directory.
pub record HoldsBody (archive : List ℕ) (cd : ℕ) (s : BodyDataSegment) : Type 0 where
  pub held : List ℕ
  pub there : s.bytes ≡ some held
  pub some_bytes : 0 < s.size
  pub inside : s.archive_offset + s.size ≤ cd
  pub same : take s.size held ≡ slice s.archive_offset s.size archive

body_segments_of-HoldsBody :
    (archive : List ℕ) (cd part_size initial from : ℕ) (fs : List FetchedRange)
    → cd ≤ length archive
    → Cover cd part_size initial from (ranges_of fs)
    → Fetched archive fs
    → All (HoldsBody archive cd) (body_segments_of fs)
unfolding body_segments_of
body_segments_of-HoldsBody archive cd part_size initial from [] inside cover fetched = tt
body_segments_of-HoldsBody archive cd part_size initial from (f ∷ fs) inside (is, cover)
      (here, fetched) =
    let rest =
      body_segments_of-HoldsBody archive cd part_size initial (f.range.end + 1) fs inside cover
        fetched in
    let start = f.range.start in
    let n = f.range.body_data_size in
    let size = is.body_size in
    let some_bytes = is.some_bytes in
    elim (Bool-cases (f.range.has_body_data && ltb 0 f.range.body_data_size)) [
      | inr no_body ↦ rw no_body rest
      | inl body ↦
          let positive : 0 < n = ground arith in
          let at_start : start + 0 ≡ start = omega arith in
          let shorter : take n (slice start (f.range.end + 1 - start) archive)
              ≡ slice start n archive =
            slice-slice start (f.range.end + 1 - start) 0 n archive (omega arith)
            ∙ ap (λ k. slice k n archive) at_start in
          rw body (
            record {
              held = slice start (f.range.end + 1 - start) archive;
              there = here;
              some_bytes = positive;
              inside = omega arith;
              same = shorter;
            },
            tt,
          )
    ]

-- Which ranges were asked for.
asked_ranges :
    (alloc : ℕ → Bool) (cd part_size initial : ℕ) (fs : List FetchedRange)
    → ((n : ℕ) → alloc n ≡ true)
    → 0 < part_size
    → initial + part_size < 2 ^ 64
    → calculate_cd_fetch_ranges alloc cd part_size initial ≡ ranges (ranges_of fs)
    → ((initial ≤ cd) × (fs ≡ []))
      ⊎ ((cd < initial) × Cover cd part_size initial (cd / part_size * part_size) (ranges_of fs))
unfolding calculate_cd_fetch_ranges
asked_ranges alloc cd part_size initial fs enough positive small asked =
    elim (Bool-cases (leb initial cd)) [
      | inl inside_tail ↦ inl (
        le_of_leb initial cd inside_tail,
        fetched_none fs (ranges-inj (sym asked ∙ ground (arith, inside_tail))),
      )
      | inr outside ↦
          let before = lt_of_leb-false initial cd outside in
          let (rs, answer, cover) =
            calculate_cd_fetch_ranges-Cover alloc cd part_size initial positive small before
              enough in
          inr (
            before,
            subst (Cover cd part_size initial (cd / part_size * part_size))
                (ranges-inj (sym answer ∙ asked)) cover,
          )
    ]

tail_segment :
    (alloc : ℕ → Bool) (archive : List ℕ) (cd initial : ℕ)
    → ((n : ℕ) → alloc n ≡ true)
    → cd ≤ length archive
    → length archive < 2 ^ 64
    → initial < cd
    → (segments : List BodyDataSegment) × (add_tail_buffer_segment alloc []
          (some (drop initial archive))
          initial
          cd
        ≡ some segments)
      × All (HoldsBody archive cd) segments
unfolding add_tail_buffer_segment
tail_segment alloc archive cd initial enough inside small before =
    let tail = drop initial archive in
    let long : length tail ≡ length archive - initial = length-drop initial archive in
    let tail_end : plus64 initial (length tail) ≡ length archive = omega arith in
    let end : ltb (length archive) cd ≡ false = ltb-false_of_le (length archive) cd inside in
    let size : minus64 cd initial ≡ cd - initial = omega arith in
    let outside : leb cd initial ≡ false = ground arith in
    let some_bytes : (cd - initial == 0) ≡ false = ground arith in
    let room = enough ((length {A = BodyDataSegment} [] + 1) * sizeof_body_data_segment) in
    (
      record { bytes = some tail; size = cd - initial; archive_offset = initial } ∷ [],
      ground (arith, tail_end, end, size, outside, some_bytes, room),
      (
        record {
          held = tail;
          there = refl;
          some_bytes = omega arith;
          inside = omega arith;
          same = refl;
        },
        tt,
      ),
    )

-- Of the ranges that were asked for and fetched, and of the tail of the archive,
-- `assemble_cd_buffer` and `add_tail_buffer_segment` keep segments that are not empty, hold the
-- bytes of the archive from their offset on, and end at the central directory or before it.
-- Assumed: every allocation succeeds, the part size is positive, and the offsets do not pass 2 ^
-- 64.
pub add_tail_buffer_segment-HoldsBody :
    (alloc : ℕ → Bool) (archive : List ℕ) (cd part_size initial : ℕ) (fs : List FetchedRange)
    → ((n : ℕ) → alloc n ≡ true)
    → 0 < part_size
    → initial + part_size < 2 ^ 64
    → cd ≤ length archive
    → length archive < 2 ^ 64
    → initial ≤ length archive
    → calculate_cd_fetch_ranges alloc cd part_size initial ≡ ranges (ranges_of fs)
    → Fetched archive fs
    → (segments : List BodyDataSegment) × (add_tail_buffer_segment alloc
          (body_segments_of fs)
          (some (drop initial archive))
          initial
          cd
        ≡ some segments)
      × All (HoldsBody archive cd) segments
unfolding add_tail_buffer_segment body_segments_of
add_tail_buffer_segment-HoldsBody alloc archive cd part_size initial fs enough positive small_part
      inside small initial_inside asked fetched =
    elim (asked_ranges alloc cd part_size initial fs enough positive small_part asked) [
      | inl (reached, none_asked) ↦
          let unasked : body_segments_of fs ≡ [] = ap body_segments_of none_asked in
          rw unasked (elim (Bool-cases (leb cd initial)) [
            | inl no_tail ↦ ([], rw no_tail refl, tt)
            | inr tail ↦
                tail_segment alloc archive cd initial enough inside small
                  (lt_of_leb-false cd initial tail)
          ])
      | inr (outside, cover) ↦
          let no_tail : leb cd initial ≡ true = leb_of_le cd initial (omega arith) in
          (
            body_segments_of fs,
            rw no_tail refl,
            body_segments_of-HoldsBody archive cd part_size initial (cd / part_size * part_size) fs
                inside cover fetched,
          )
    ]
