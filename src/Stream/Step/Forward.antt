-- ===== src/Stream/Step/Forward.antt =====
-- How far a round of the loop of `part_processor_process_data` gets.
use burst.Base.{
  ℕ, ◌≤◌, ◌<◌, ◌≡◌, refl, ◌⊎◌, inl, inr, List, ◌∷◌, arith, leb, Bool-cases, Option-cases, length,
  take, length-append,
}
use burst.Sink.{Outcome, ok, failed}
use burst.Frame.{
  FrameType, frame_zstd_compressed, frame_burst_padding, frame_burst_start_of_part,
  frame_zip_local_header, frame_zip_data_descriptor, frame_zip_central_directory, frame_unknown,
  FrameInfo, Zstd, parse_next_frame,
}
use burst.Stream.{
  ProcessorState, state_init, state_continuing_file, state_expect_local_header,
  state_processing_frames, state_reading_symlink, state_done, state_error, FileContext,
  PartProcessor, System, part_of,
}
use burst.Stream.Files.{
  handle_start_of_part_frame, handle_zstd_frame, HeaderResult, header_opened, header_skipped,
  header_incomplete, header_failed, handle_local_header,
}
use burst.Stream.Files.Keeps.{handle_local_header_size, handle_local_header-skipped}
use burst.Stream.Step.{
  advanced, enter, consumed_by, init_round, continuing_frame, continuing_round, header_round,
  expected_frame, expect_round, processing_frame, processing_round, bytes_to_copy, symlink_bytes,
  symlink_round, round_in,
}
use burst.Stream.Step.Inv.{on_frame-eq-advanced}
use burst.Stream.Step.Sizes.{NoHugeFrame, FindsBytes, parse_next_frame_positive}

abbrev pub rank : ProcessorState → ℕ
rank state_init = 2
rank state_continuing_file = 1
rank state_expect_local_header = 1
rank state_processing_frames = 2
rank state_reading_symlink = 2
rank state_done = 0
rank state_error = 0

-- A round goes on behind at least one byte, or in a state of less rank.
abbrev pub Forward : ℕ → ProcessorState → ProcessorState → Type 0
Forward n st st' = (1 ≤ n) ⊎ (rank st' < rank st)

abbrev Positive : FrameInfo → Type 0
Positive info = (info.type ≡ frame_zip_central_directory) ⊎ (0 < info.frame_size)

consumed_by-Forward :
    (p q : PartProcessor) (n m : ℕ) (f : PartProcessor → PartProcessor) (r : Outcome PartProcessor)
    → 0 < m
    → consumed_by m f r ≡ advanced n q
    → 1 ≤ n
consumed_by-Forward p q n m f (ok r) pos e = ground arith
consumed_by-Forward p q n m f (failed r) pos e = cc

continuing_frame-Forward :
    (sys : System) (b : List ℕ) (info : FrameInfo) (type : FrameType) (p q : PartProcessor) (n : ℕ)
    → info.type ≡ type
    → Positive info
    → continuing_frame sys b info type p ≡ advanced n q
    → 1 ≤ n
unfolding continuing_frame
continuing_frame-Forward sys b info frame_burst_start_of_part p q n ty pos e =
    consumed_by-Forward p q n info.frame_size (enter state_processing_frames)
      (handle_start_of_part_frame sys b p) (ground (arith, ty, pos)) e
continuing_frame-Forward sys b info frame_zstd_compressed p q n ty pos e = cc
continuing_frame-Forward sys b info frame_burst_padding p q n ty pos e = cc
continuing_frame-Forward sys b info frame_zip_local_header p q n ty pos e = cc
continuing_frame-Forward sys b info frame_zip_data_descriptor p q n ty pos e = cc
continuing_frame-Forward sys b info frame_zip_central_directory p q n ty pos e = cc
continuing_frame-Forward sys b info frame_unknown p q n ty pos e = cc

header_round-Forward :
    (sys : System) (b : List ℕ) (p q : PartProcessor) (n : ℕ) (r : HeaderResult)
    → handle_local_header sys b p ≡ r
    → header_round r ≡ advanced n q
    → 1 ≤ n
header_round-Forward sys b p q n (header_opened m r) h e =
    let (long, _) = handle_local_header_size sys b m p r h in ground (arith, long)
header_round-Forward sys b p q n (header_skipped m r) h e =
    let (_, long, _) = handle_local_header-skipped sys b m p r h in ground (arith, long)
header_round-Forward sys b p q n (header_incomplete r) h e = cc
header_round-Forward sys b p q n (header_failed r) h e = cc

expected_frame-Forward :
    (sys : System) (b : List ℕ) (info : FrameInfo) (type : FrameType) (p q : PartProcessor) (n : ℕ)
    → info.type ≡ type
    → Positive info
    → expected_frame sys b info type p ≡ advanced n q
    → Forward n state_expect_local_header q.state
unfolding expected_frame
expected_frame-Forward sys b info frame_burst_padding p q n ty pos e = inl (ground (arith, ty, pos))
expected_frame-Forward sys b info frame_zip_central_directory p q n ty pos e = inr (ground arith)
expected_frame-Forward sys b info frame_zip_local_header p q n ty pos e =
    inl (header_round-Forward sys b p q n (handle_local_header sys b p) refl e)
expected_frame-Forward sys b info frame_zstd_compressed p q n ty pos e = cc
expected_frame-Forward sys b info frame_burst_start_of_part p q n ty pos e = cc
expected_frame-Forward sys b info frame_zip_data_descriptor p q n ty pos e = cc
expected_frame-Forward sys b info frame_unknown p q n ty pos e = cc

processing_frame-Forward :
    (sys : System) (b : List ℕ) (info : FrameInfo) (type : FrameType) (p q : PartProcessor) (n : ℕ)
    → info.type ≡ type
    → Positive info
    → processing_frame sys b info type p ≡ advanced n q
    → Forward n state_processing_frames q.state
unfolding processing_frame
processing_frame-Forward sys b info frame_zstd_compressed p q n ty pos e = inl (
    consumed_by-Forward p q n info.frame_size (λ p. p)
      (handle_zstd_frame sys (take info.frame_size b) info.uncompressed_size p)
      (ground (arith, ty, pos)) (ground arith))
processing_frame-Forward sys b info frame_burst_padding p q n ty pos e =
    inl (ground (arith, ty, pos))
processing_frame-Forward sys b info frame_burst_start_of_part p q n ty pos e = inl (
    consumed_by-Forward p q n info.frame_size (λ p. p) (handle_start_of_part_frame sys b p)
      (ground (arith, ty, pos)) (ground arith))
processing_frame-Forward sys b info frame_zip_data_descriptor p q n ty pos e = inl (ground arith)
processing_frame-Forward sys b info frame_zip_local_header p q n ty pos e = inr (ground arith)
processing_frame-Forward sys b info frame_zip_central_directory p q n ty pos e = inr (ground arith)
processing_frame-Forward sys b info frame_unknown p q n ty pos e = cc

symlink_bytes-Forward :
    (sys : System) (f : FileContext) (target : List ℕ) (x : ℕ) (xs : List ℕ) (p q : PartProcessor)
    (n : ℕ)
    → symlink_bytes sys f target (x ∷ xs) p ≡ advanced n q
    → Forward n state_reading_symlink q.state
unfolding symlink_bytes
symlink_bytes-Forward sys f target x xs p q n e =
    let copied = bytes_to_copy f target (x ∷ xs) in
    ground (arith, length-append target (take copied (x ∷ xs)))

symlink_round-Forward :
    (sys : System) (x : ℕ) (xs : List ℕ) (p q : PartProcessor) (n : ℕ)
    → symlink_round sys (x ∷ xs) p ≡ advanced n q
    → Forward n state_reading_symlink q.state
unfolding symlink_round
symlink_round-Forward sys x xs p q n e = elim (Option-cases (p.current_file)) [
  | inl no_file ↦ ground (arith, no_file)
  | inr (f, there) ↦ elim (Option-cases (f.symlink_buffer)) [
    | inl no_buffer ↦ ground (arith, there, no_buffer)
    | inr (target, filled) ↦
        symlink_bytes-Forward sys f target x xs p q n (ground (arith, there, filled))
  ]
]

pub round_in-Forward :
    (zstd : Zstd) (sys : System) (x : ℕ) (xs : List ℕ) (p q : PartProcessor) (n : ℕ)
    (st : ProcessorState)
    → FindsBytes zstd
    → NoHugeFrame (x ∷ xs)
    → round_in zstd sys (x ∷ xs) p st ≡ advanced n q
    → Forward n st q.state
unfolding round_in init_round continuing_round expect_round processing_round
round_in-Forward zstd sys x xs p q n state_init finds small e = inr (ground arith)
round_in-Forward zstd sys x xs p q n state_continuing_file finds small e =
    let (info, found, rest) = on_frame-eq-advanced (parse_next_frame zstd (x ∷ xs)) p _ e in
    inl (
      continuing_frame-Forward sys (x ∷ xs) info info.type p q n refl
        (parse_next_frame_positive zstd (x ∷ xs) info finds small.0 found) rest)
round_in-Forward zstd sys x xs p q n state_expect_local_header finds small e =
    elim (Bool-cases (leb (length (part_of p).entries) p.next_entry_idx)) [
      | inl all_done ↦ inr (ground (arith, all_done))
      | inr more ↦
          let (info, found, rest) =
            on_frame-eq-advanced (parse_next_frame zstd (x ∷ xs)) p _ (rw more at e) in
          expected_frame-Forward sys (x ∷ xs) info info.type p q n refl
            (parse_next_frame_positive zstd (x ∷ xs) info finds small.0 found) rest
    ]
round_in-Forward zstd sys x xs p q n state_processing_frames finds small e =
    let (info, found, rest) = on_frame-eq-advanced (parse_next_frame zstd (x ∷ xs)) p _ e in
    processing_frame-Forward sys (x ∷ xs) info info.type p q n refl
      (parse_next_frame_positive zstd (x ∷ xs) info finds small.0 found) rest
round_in-Forward zstd sys x xs p q n state_reading_symlink finds small e =
    symlink_round-Forward sys x xs p q n e
round_in-Forward zstd sys x xs p q n state_done finds small e = inl (ground arith)
round_in-Forward zstd sys x xs p q n state_error finds small e = cc
