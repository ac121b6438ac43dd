-- ===== src/CdFetch/Whole.antt =====
-- `calculate_cd_fetch_ranges`, `assemble_cd_buffer` and `add_tail_buffer_segment` of
-- src/downloader/cd_fetch.c together, on an archive.
use mathlib.Core.Path.{subst}
use Prim.Native.Nat.{min}
use native.Mathlib.Nat.{div-mul-le_self}
use burst.Base.{
  take_all, drop_all, ℕ, ◌+◌, ◌-◌, ◌*◌, ◌/◌, ◌^◌, ◌≤◌, ◌<◌, ◌≡◌, refl, sym, ap, ◌∙◌, inl, inr, Bool,
  true, ◌&&◌, some, List, [], ◌∷◌, ◌++◌, append-nil, arith, ltb, leb, Bool-cases, le_of_leb,
  lt_of_leb-false, length, drop, length-drop,
}
use burst.CdFetch.{CdPartRange, plus64, ranges, calculate_cd_fetch_ranges}
use burst.CdFetch.Slices.{slice}
use burst.CdFetch.Buffers.{
  FetchedRange, copy_overlap, copy_ranges, copy_initial, body_segments_of, sizeof_body_data_segment,
  assemble_cd_buffer,
}
use burst.CdFetch.Ranges.{Cover, calculate_cd_fetch_ranges-Cover}
use burst.CdFetch.Assemble.{
  Filled, Filled-same, copy_overlap-Filled, Fetched, ranges_of, copy_ranges-Filled,
}

copy_initial-Filled :
    (archive : List ℕ) (cd cd_end initial : ℕ) (fresh cd_buf : List ℕ)
    → cd ≤ cd_end
    → cd_end ≤ length archive
    → length archive < 2 ^ 64
    → initial ≤ length archive
    → Filled archive cd fresh (min initial cd_end) cd_buf
    → Filled archive cd fresh cd_end
        (copy_initial cd cd_end (some (drop initial archive)) initial cd_buf)
copy_initial-Filled archive cd cd_end initial fresh cd_buf cd_le end_le small inside filled =
    let tail = drop initial archive in
    let long : length tail ≡ length archive - initial = length-drop initial archive in
    let stop : plus64 initial (length tail) ≡ length archive = omega arith in
    let whole : min (length archive) cd_end ≡ cd_end = omega arith in
    elim (Bool-cases (ltb 0 (length tail) && ltb initial cd_end)) [
      | inl some_bytes ↦
          rw (some_bytes, stop)
            (subst
              (λ k.
                Filled archive cd fresh k
                  (copy_overlap cd cd_end initial (length archive) tail cd_buf))
              whole
              (copy_overlap-Filled archive cd cd_end initial (length archive) tail fresh cd_buf
                cd_le end_le small inside (omega arith)
                (sym (take_all (length archive - initial) tail (omega arith))) filled))
      | inr no_bytes ↦
          let behind : cd_end ≤ initial = ground arith in
          rw no_bytes
            (Filled-same archive cd fresh (min initial cd_end) cd_end cd_buf (omega arith) filled)
    ]

pub ranges-inj : {xs ys : List CdPartRange} → ranges xs ≡ ranges ys → xs ≡ ys
ranges-inj e = cc

pub fetched_none : (fs : List FetchedRange) → ranges_of fs ≡ [] → fs ≡ []
fetched_none [] e = refl
fetched_none (f ∷ fs) e = cc

-- Up to its start nothing of the central directory is there yet.
Filled-none :
    (archive : List ℕ) (cd : ℕ) (fresh : List ℕ) (x : ℕ) → x ≤ cd → Filled archive cd fresh x fresh
Filled-none archive cd fresh x before =
    let nothing : 0 ≡ x - cd = omega arith in ap (λ k. slice cd k archive ++ drop k fresh) nothing

-- The ranges that were asked for, copied.
Fetched-Filled :
    (alloc : ℕ → Bool) (archive : List ℕ) (cd cd_end part_size initial : ℕ) (fs : List FetchedRange)
    (fresh : List ℕ)
    → ((n : ℕ) → alloc n ≡ true)
    → 0 < part_size
    → initial + part_size < 2 ^ 64
    → cd ≤ cd_end
    → cd_end ≤ length archive
    → length archive < 2 ^ 64
    → initial ≤ length archive
    → calculate_cd_fetch_ranges alloc cd part_size initial ≡ ranges (ranges_of fs)
    → Fetched archive fs
    → Filled archive cd fresh (min initial cd_end) (copy_ranges cd cd_end fs fresh)
unfolding copy_ranges calculate_cd_fetch_ranges
Fetched-Filled alloc archive cd cd_end part_size initial fs fresh enough positive small_part cd_le
      end_le small inside asked fetched =
    elim (Bool-cases (leb initial cd)) [
      | inl inside_tail ↦
          let none_asked : ranges_of fs ≡ [] =
            ranges-inj (sym asked ∙ ground (arith, inside_tail)) in
          let reached = le_of_leb initial cd inside_tail in
          subst
            (λ xs. Filled archive cd fresh (min initial cd_end) (copy_ranges cd cd_end xs fresh))
            (sym (fetched_none fs none_asked))
            (Filled-none archive cd fresh (min initial cd_end) (omega arith))
      | inr outside ↦
          let inside_ranges = lt_of_leb-false initial cd outside in
          let (rs, answer, cover) =
            calculate_cd_fetch_ranges-Cover alloc cd part_size initial positive small_part
              inside_ranges enough in
          let below : cd / part_size * part_size ≤ cd = div-mul-le_self cd part_size in
          copy_ranges-Filled archive cd cd_end part_size initial (cd / part_size * part_size) fs
            fresh fresh cd_le end_le small inside
            (subst (Cover cd part_size initial (cd / part_size * part_size))
              (ranges-inj (sym answer ∙ asked)) cover)
            fetched
            (Filled-none archive cd fresh (min (cd / part_size * part_size) cd_end) (omega arith))
    ]

-- From buffers that hold the bytes of the archive in the ranges that `calculate_cd_fetch_ranges`
-- asked for, and the tail of the archive as the initial buffer, `assemble_cd_buffer` puts together
-- the central directory as it stands in the archive, whatever the fresh buffer held before.
-- Assumed: every allocation succeeds, the part size is positive, and the offsets do not pass 2 ^
-- 64.
pub assemble_cd_buffer-slice :
    (alloc : ℕ → Bool) (fresh : ℕ → List ℕ) (archive : List ℕ) (cd size part_size initial : ℕ)
    (fs : List FetchedRange)
    → ((n : ℕ) → alloc n ≡ true)
    → ((n : ℕ) → length (fresh n) ≡ n)
    → 0 < part_size
    → initial + part_size < 2 ^ 64
    → cd + size ≤ length archive
    → length archive < 2 ^ 64
    → initial ≤ length archive
    → calculate_cd_fetch_ranges alloc cd part_size initial ≡ ranges (ranges_of fs)
    → Fetched archive fs
    → assemble_cd_buffer alloc fresh (some (drop initial archive)) initial fs cd size
      ≡ some (record { cd_buffer = slice cd size archive; body_segments = body_segments_of fs })
unfolding assemble_cd_buffer
assemble_cd_buffer-slice alloc fresh archive cd size part_size initial fs enough sized positive
      small_part whole small inside asked fetched =
    let cd_end : plus64 cd size ≡ cd + size = omega arith in
    let copied = copy_ranges cd (cd + size) fs (fresh size) in
    let filled =
      copy_initial-Filled archive cd (cd + size) initial (fresh size) copied (omega arith) whole
        small inside
        (Fetched-Filled alloc archive cd (cd + size) part_size initial fs (fresh size) enough
          positive small_part (omega arith) whole small inside asked fetched) in
    let n : cd + size - cd ≡ size = omega arith in
    let nothing : drop size (fresh size) ≡ [] =
      drop_all size (fresh size) (let l = sized size in omega arith) in
    let buffer : copy_initial cd (cd + size) (some (drop initial archive)) initial copied
        ≡ slice cd size archive =
      filled
      ∙ ap (λ k. slice cd k archive ++ drop k (fresh size)) n
      ∙ ap (λ b. slice cd size archive ++ b) nothing
      ∙ append-nil (slice cd size archive) in
    let room = enough size in
    let more_room = enough (length (body_segments_of fs) * sizeof_body_data_segment) in
    ground (arith, cd_end, buffer, room, more_room)
