-- ===== src/CdFetch/Early.antt =====
-- The queue of `build_early_part_queue` of src/downloader/cd_fetch.c, while only the files at the end
-- of the archive are known.
use burst.Base.{
  ℕ, ◌<◌, ◌≢◌, inl, inr, none, List, [], ◌∷◌, arith, ◌==◌, Bool-cases, ==_of_eq, length, All,
}
use burst.Parser.{FileMetadata}
use burst.CdFetch.Queue.{
  uint32_max, part_start, first_safe_part, queue_parts, build_early_part_queue,
}
use burst.CdFetch.Parts.{InPart, Before, first_safe_part-Before, queue_parts-first}

All-map : {P Q : ℕ → Type 0} (xs : List ℕ) → ((x : ℕ) → P x → Q x) → All P xs → All Q xs
All-map [] f all = tt
All-map (x ∷ xs) f (here, all) = (f x here, All-map xs f all)

-- A part that `build_early_part_queue` queues from the files at the end of the archive is behind
-- the part of every file `g` in front of them, so that every file that starts in it is known, and
-- the part starts before the initial buffer. The part index of a file is that of its local header,
-- the part size is positive, and offsets are below 2 ^ 64.
pub build_early_part_queue_complete :
    (part_size initial : ℕ) (g : FileMetadata) (files : List FileMetadata)
    → 0 < part_size
    → InPart part_size g
    → All (InPart part_size) files
    → All (Before g) files
    → All
        (λ p. (g.part_index < p) × (part_start part_size p < initial))
        (build_early_part_queue part_size initial files)
unfolding build_early_part_queue
build_early_part_queue_complete part_size initial g files positive g_in ins befores =
    let first = first_safe_part part_size none files in
    elim (Bool-cases (length files == 0)) [
      | inl empty ↦ rw empty tt
      | inr some_files ↦ elim (Bool-cases (first == uint32_max)) [
        | inl none_safe ↦ rw (some_files, none_safe) tt
        | inr safe ↦
            let found : first ≢ uint32_max =
              λ e. let same = ==_of_eq first uint32_max e in ground arith in
            let before =
              first_safe_part-Before part_size g none files positive g_in ins befores (λ q e. cc)
                found in
            rw (some_files, safe)
              (All-map (queue_parts part_size initial first uint32_max files)
                (λ p h. let (reached, starts) = h in (omega arith, starts))
                (queue_parts-first part_size initial first uint32_max files))
      ]
    ]
