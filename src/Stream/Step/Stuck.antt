-- ===== src/Stream/Step/Stuck.antt =====
-- A skippable frame whose size is 0 modulo 2 ^ 32, in `part_processor_process_data`.
use burst.Base.{
  ℕ, zero, suc, ◌+◌, ◌-◌, ◌%◌, ◌^◌, ◌<◌, ◌≡◌, refl, ◌∙◌, false, none, List, ◌∷◌, ◌++◌, arith, leb,
  length, drop,
}
use burst.Bytes.{le32}
use burst.Zip.{burst_magic_number}
use burst.Frame.{
  frame_burst_padding, FrameInfo, success, Zstd, sized, skippable_frame, parse_next_frame,
}
use burst.Stream.{state_expect_local_header, PartProcessor, System, part_of}
use burst.Stream.Step.{advanced, expected_frame, expect_round, round_in, process_loop}

-- Magic number and payload size, the latter 8 below 2 ^ 32, and whatever follows.
abbrev pub empty_frame : List ℕ → List ℕ
empty_frame rest = le32 burst_magic_number ++ (le32 (2 ^ 32 - 8) ++ rest)

leb-false_of_lt : (a b : ℕ) → b < a → leb a b ≡ false
leb-false_of_lt a b h = ground arith

empty_frame_found :
    (zstd : Zstd) (rest : List ℕ)
    → parse_next_frame zstd (empty_frame rest) ≡ sized frame_burst_padding 0
unfolding parse_next_frame skippable_frame
empty_frame_found zstd rest = ground arith

-- One round, and the loop behind it.
pub process_loop-advanced :
    (zstd : Zstd) (sys : System) (fuel : ℕ) (x : ℕ) (xs : List ℕ) (p q : PartProcessor) (n : ℕ)
    → round_in zstd sys (x ∷ xs) p p.state ≡ advanced n q
    → process_loop zstd sys (suc fuel) (x ∷ xs) p ≡ process_loop zstd sys fuel (drop n (x ∷ xs)) q
unfolding process_loop
process_loop-advanced zstd sys fuel x xs p q n e = ground (arith, e)

-- A round that expects a local header, and finds a frame.
pub round_in-expected :
    (zstd : Zstd) (sys : System) (b : List ℕ) (p : PartProcessor) (info : FrameInfo)
    → p.state ≡ state_expect_local_header
    → p.next_entry_idx < length (part_of p).entries
    → parse_next_frame zstd b ≡ success info
    → round_in zstd sys b p p.state ≡ expected_frame sys b info info.type p
unfolding round_in expect_round
round_in-expected zstd sys b p info st more found =
    let left : leb (length (part_of p).entries) p.next_entry_idx ≡ false =
      leb-false_of_lt (length (part_of p).entries) p.next_entry_idx more in
    rw (st, left, found) refl

padding_round :
    (sys : System) (b : List ℕ) (p : PartProcessor)
    → expected_frame sys b
        (record {
          type = frame_burst_padding;
          frame_size = 0;
          uncompressed_size = 0;
          start_of_part_offset = 0;
        })
        frame_burst_padding
        p
      ≡ advanced 0 (record p { bytes_processed = (p.bytes_processed + 0) % 2 ^ 64 })
unfolding expected_frame
padding_round sys b p = refl

-- Where a local header is expected and an entry is left, the loop goes round without end at a
-- skippable frame with a payload size of 2 ^ 32 - 8: no fuel is enough, whatever follows the frame.
pub process_loop-empty_frame :
    (zstd : Zstd) (sys : System) (fuel : ℕ) (rest : List ℕ) (p : PartProcessor)
    → p.state ≡ state_expect_local_header
    → p.next_entry_idx < length (part_of p).entries
    → process_loop zstd sys fuel (empty_frame rest) p ≡ none
unfolding process_loop
process_loop-empty_frame zstd sys zero rest p st more = refl
process_loop-empty_frame zstd sys (suc fuel) rest p st more =
    let q : PartProcessor = record p { bytes_processed = (p.bytes_processed + 0) % 2 ^ 64 } in
    process_loop-advanced zstd sys fuel (burst_magic_number % 256) (drop 1 (empty_frame rest)) p q 0
      (round_in-expected zstd sys (empty_frame rest) p _ st more (empty_frame_found zstd rest)
        ∙ padding_round sys (empty_frame rest) p)
    ∙ process_loop-empty_frame zstd sys fuel rest q st more
