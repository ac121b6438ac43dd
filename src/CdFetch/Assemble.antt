-- ===== src/CdFetch/Assemble.antt =====
-- What `assemble_cd_buffer` of src/downloader/cd_fetch.c puts together from slices of the archive.
use mathlib.Core.Path.{subst, ap₂}
use Prim.Native.Nat.{min}
use burst.Base.{
  ℕ, ◌+◌, ◌-◌, ◌^◌, ◌≤◌, ◌<◌, ◌≡◌, refl, sym, ap, ◌∙◌, inl, inr, true, false, some, List, [], ◌∷◌,
  ◌++◌, append_assoc, arith, ltb, leb, ◌==◌, if◌then◌else◌, Bool-cases, lt_of_ltb, le_of_ltb-false,
  leb_of_le, length, take, drop, take-append, drop-append,
}
use burst.CdFetch.{CdPartRange, plus64}
use burst.CdFetch.Slices.{slice, drop-drop, length-slice, slice-append, slice-slice}
use burst.CdFetch.Buffers.{FetchedRange, overwrite, copy_overlap, copy_range, copy_ranges}
use burst.CdFetch.Ranges.{IsRange, Cover}

-- The buffer holds the central directory up to an offset of the archive, and behind it what it
-- held at first.
abbrev pub Filled : List ℕ → ℕ → List ℕ → ℕ → List ℕ → Type 0
Filled archive cd fresh x cd_buf = cd_buf ≡ slice cd (x - cd) archive ++ drop (x - cd) fresh

pub Filled-same :
    (archive : List ℕ) (cd : ℕ) (fresh : List ℕ) (x y : ℕ) (cd_buf : List ℕ)
    → x - cd ≡ y - cd
    → Filled archive cd fresh x cd_buf
    → Filled archive cd fresh y cd_buf
Filled-same archive cd fresh x y cd_buf e filled =
    filled ∙ ap (λ k. slice cd k archive ++ drop k fresh) e

overwrite_more :
    (archive : List ℕ) (cd o n : ℕ) (fresh cd_buf : List ℕ)
    → cd + o + n ≤ length archive
    → cd_buf ≡ slice cd o archive ++ drop o fresh
    → overwrite o (slice (cd + o) n archive) cd_buf ≡ slice cd (o + n) archive ++ drop (o + n) fresh
overwrite_more archive cd o n fresh cd_buf inside held =
    let front = slice cd o archive in
    let chunk = slice (cd + o) n archive in
    let front_length : length front ≡ o = length-slice cd o archive (omega arith) in
    let chunk_length : length chunk ≡ n = length-slice (cd + o) n archive (omega arith) in
    let kept : take o cd_buf ≡ front =
      ap (take o) held ∙ take-append o front (drop o fresh) (sym front_length) in
    let behind : drop (o + length chunk) cd_buf ≡ drop (o + n) fresh =
      ap (λ k. drop (o + k) cd_buf) chunk_length
      ∙ sym (drop-drop o n cd_buf)
      ∙ ap (λ b. drop n (drop o b)) held
      ∙ ap (drop n) (drop-append o front (drop o fresh) (sym front_length))
      ∙ drop-drop o n fresh in
    ap₂ (λ a b. a ++ (chunk ++ b)) kept behind
    ∙ sym (append_assoc front chunk (drop (o + n) fresh))
    ∙ ap (λ a. a ++ drop (o + n) fresh) (slice-append cd o n archive)

overlap_copied :
    (archive : List ℕ) (cd cd_end start stop s e : ℕ) (buffer fresh cd_buf : List ℕ)
    → s ≡ cd + (start - cd)
    → e ≡ min stop cd_end
    → s < e
    → cd_end ≤ length archive
    → buffer ≡ slice start (stop - start) archive
    → Filled archive cd fresh (min start cd_end) cd_buf
    → Filled archive cd fresh
        (min stop cd_end)
        (overwrite (s - cd) (slice (s - start) (e - s) buffer) cd_buf)
overlap_copied archive cd cd_end start stop s e buffer fresh cd_buf from to before end_le held
      filled =
    let o = start - cd in
    let n = e - s in
    let from_cd : s - cd ≡ o = omega arith in
    let place : start + (s - start) ≡ cd + o = omega arith in
    let chunk : slice (s - start) n buffer ≡ slice (cd + o) n archive =
      ap (slice (s - start) n) held
      ∙ slice-slice start (stop - start) (s - start) n archive (omega arith)
      ∙ ap (λ k. slice k n archive) place in
    let so_far : min start cd_end - cd ≡ o = omega arith in
    let reached : o + n ≡ min stop cd_end - cd = omega arith in
    ap₂ (λ a b. overwrite a b cd_buf) from_cd chunk
    ∙ overwrite_more archive cd o n fresh cd_buf (omega arith)
        (filled ∙ ap (λ k. slice cd k archive ++ drop k fresh) so_far)
    ∙ ap (λ k. slice cd k archive ++ drop k fresh) reached

overlap-Filled :
    (archive : List ℕ) (cd cd_end start stop s e : ℕ) (buffer fresh cd_buf : List ℕ)
    → s ≡ cd + (start - cd)
    → e ≡ min stop cd_end
    → cd ≤ cd_end
    → cd_end ≤ length archive
    → length archive < 2 ^ 64
    → start ≤ stop
    → stop ≤ length archive
    → buffer ≡ slice start (stop - start) archive
    → Filled archive cd fresh (min start cd_end) cd_buf
    → Filled archive cd fresh (min stop cd_end) (
        if ltb s e
        then (if leb (plus64 (s - start) (e - s)) (length buffer)
            then overwrite (s - cd) (slice (s - start) (e - s) buffer) cd_buf
            else cd_buf)
        else cd_buf)
overlap-Filled archive cd cd_end start stop s e buffer fresh cd_buf from to cd_le end_le small
      ordered inside held filled =
    let long : length buffer ≡ stop - start =
      ap length held ∙ length-slice start (stop - start) archive (omega arith) in
    elim (Bool-cases (ltb s e)) [
      | inl overlap ↦
          let before = lt_of_ltb s e overlap in
          let fits : leb (plus64 (s - start) (e - s)) (length buffer) ≡ true =
            leb_of_le (plus64 (s - start) (e - s)) (length buffer) (omega arith) in
          rw (overlap, fits)
            (overlap_copied archive cd cd_end start stop s e buffer fresh cd_buf from to before
              end_le held filled)
      | inr apart ↦
          let behind = le_of_ltb-false s e apart in
          rw apart (
            Filled-same archive cd fresh (min start cd_end) (min stop cd_end) cd_buf (omega arith)
              filled)
    ]

pub copy_overlap-Filled :
    (archive : List ℕ) (cd cd_end start stop : ℕ) (buffer fresh cd_buf : List ℕ)
    → cd ≤ cd_end
    → cd_end ≤ length archive
    → length archive < 2 ^ 64
    → start ≤ stop
    → stop ≤ length archive
    → buffer ≡ slice start (stop - start) archive
    → Filled archive cd fresh (min start cd_end) cd_buf
    → Filled archive cd fresh (min stop cd_end) (copy_overlap cd cd_end start stop buffer cd_buf)
unfolding copy_overlap
copy_overlap-Filled archive cd cd_end start stop buffer fresh cd_buf cd_le end_le small ordered
      inside held filled =
    overlap-Filled archive cd cd_end start stop (if ltb start cd then cd else start)
      (if ltb cd_end stop then cd_end else stop) buffer fresh cd_buf (ground arith) (ground arith)
      cd_le end_le small ordered inside held filled

-- Fetched ranges with the bytes of the archive.
abbrev pub Fetched : List ℕ → List FetchedRange → Type 0
Fetched archive [] = Unit {0}
Fetched archive (f ∷ fs) =
    (f.buffer ≡ some (slice f.range.start (f.range.end + 1 - f.range.start) archive))
    × Fetched archive fs

abbrev pub ranges_of : List FetchedRange → List CdPartRange
ranges_of [] = []
ranges_of (f ∷ fs) = f.range ∷ ranges_of fs

copy_range-Filled :
    (archive : List ℕ) (cd cd_end part_size initial from : ℕ) (f : FetchedRange)
    (fresh cd_buf : List ℕ)
    → cd ≤ cd_end
    → cd_end ≤ length archive
    → length archive < 2 ^ 64
    → initial ≤ length archive
    → IsRange cd part_size initial from f.range
    → f.buffer ≡ some (slice f.range.start (f.range.end + 1 - f.range.start) archive)
    → Filled archive cd fresh (min from cd_end) cd_buf
    → Filled archive cd fresh (min (f.range.end + 1) cd_end) (copy_range cd cd_end f cd_buf)
copy_range-Filled archive cd cd_end part_size initial from f fresh cd_buf cd_le end_le small inside
      is held filled =
    let start = f.range.start in
    let stop = f.range.end + 1 in
    let starts = is.starts in
    let some_bytes = is.some_bytes in
    let before = is.before in
    let buffer = slice start (stop - start) archive in
    let next : plus64 f.range.end 1 ≡ stop = omega arith in
    let long : length buffer ≡ stop - start =
      length-slice start (stop - start) archive (omega arith) in
    let not_empty : (length buffer == 0) ≡ false = ground arith in
    let copied =
      copy_overlap-Filled archive cd cd_end start stop buffer fresh cd_buf cd_le end_le small
        (omega arith) (omega arith) refl
        (subst (λ k. Filled archive cd fresh (min k cd_end) cd_buf) (sym starts) filled) in
    rw (held, not_empty, next) copied

pub copy_ranges-Filled :
    (archive : List ℕ) (cd cd_end part_size initial from : ℕ) (fs : List FetchedRange)
    (fresh cd_buf : List ℕ)
    → cd ≤ cd_end
    → cd_end ≤ length archive
    → length archive < 2 ^ 64
    → initial ≤ length archive
    → Cover cd part_size initial from (ranges_of fs)
    → Fetched archive fs
    → Filled archive cd fresh (min from cd_end) cd_buf
    → Filled archive cd fresh (min initial cd_end) (copy_ranges cd cd_end fs cd_buf)
unfolding copy_ranges
copy_ranges-Filled archive cd cd_end part_size initial from [] fresh cd_buf cd_le end_le small
      inside cover fetched filled =
    subst (λ k. Filled archive cd fresh (min k cd_end) cd_buf) cover filled
copy_ranges-Filled archive cd cd_end part_size initial from (f ∷ fs) fresh cd_buf cd_le end_le small
      inside (is, cover) (here, fetched) filled =
    copy_ranges-Filled archive cd cd_end part_size initial (f.range.end + 1) fs fresh
      (copy_range cd cd_end f cd_buf) cd_le end_le small inside cover fetched
      (copy_range-Filled archive cd cd_end part_size initial from f fresh cd_buf cd_le end_le small
        inside is here filled)
