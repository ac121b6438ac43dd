-- ===== src/Stream/Step/Leaves.antt =====
-- A round of the loop of `part_processor_process_data` that leaves the loop.
use burst.Base.{ℕ, ◌≡◌, refl, inl, inr, List, arith, ltb, leb, Bool-cases, length, take}
use burst.Sink.{Outcome, ok, failed}
use burst.Frame.{
  FrameType, frame_zstd_compressed, frame_burst_padding, frame_burst_start_of_part,
  frame_zip_local_header, frame_zip_data_descriptor, frame_zip_central_directory, frame_unknown,
  FrameInfo, FrameResult, success, need_more_data, invalid_frame, Zstd, parse_next_frame,
}
use burst.Stream.{
  ProcessorState, state_init, state_continuing_file, state_expect_local_header,
  state_processing_frames, state_reading_symlink, state_done, state_error, PartProcessor, System,
  part_of,
}
use burst.Stream.Files.{
  handle_start_of_part_frame, handle_zstd_frame, HeaderResult, header_opened, header_skipped,
  header_incomplete, header_failed, handle_local_header,
}
use burst.Stream.Files.Keeps.{
  FailsInError, handle_start_of_part_frame-FailsInError, handle_zstd_frame-FailsInError, HeaderLeft,
  handle_local_header-HeaderLeft,
}
use burst.Stream.Step.{
  Round, advanced, waiting, returned, enter, consumed_by, on_frame, init_round, continuing_frame,
  continuing_round, header_round, expected_frame, expect_round, is_aligned, processing_frame,
  processing_round, symlink_bytes, symlink_round, round_in,
}

-- What a round that does not go on leaves: the state as it was, or the error state.
abbrev pub Left : PartProcessor → Round → Type 0
Left p (advanced n p') = Unit {0}
Left p (waiting p') = p' ≡ p
Left p (returned p') = p'.state ≡ state_error

on_frame-Left :
    (r : FrameResult) (p : PartProcessor) (f : FrameInfo → Round)
    → ((info : FrameInfo) → Left p (f info))
    → Left p (on_frame r p f)
on_frame-Left need_more_data p f h = refl
on_frame-Left invalid_frame p f h = refl
on_frame-Left (success info) p f h = h info

consumed_by-Left :
    (p : PartProcessor) (n : ℕ) (f : PartProcessor → PartProcessor) (r : Outcome PartProcessor)
    → FailsInError r
    → Left p (consumed_by n f r)
consumed_by-Left p n f (ok q) h = tt
consumed_by-Left p n f (failed q) h = h

header_round-Left :
    (p : PartProcessor) (r : HeaderResult) → HeaderLeft p r → Left p (header_round r)
header_round-Left p (header_opened n q) h = tt
header_round-Left p (header_skipped n q) h = tt
header_round-Left p (header_incomplete q) h = h
header_round-Left p (header_failed q) h = h

continuing_frame-Left :
    (sys : System) (b : List ℕ) (info : FrameInfo) (type : FrameType) (p : PartProcessor)
    → Left p (continuing_frame sys b info type p)
unfolding continuing_frame
continuing_frame-Left sys b info frame_burst_start_of_part p =
    consumed_by-Left p info.frame_size (enter state_processing_frames)
      (handle_start_of_part_frame sys b p) (handle_start_of_part_frame-FailsInError sys b p)
continuing_frame-Left sys b info frame_zstd_compressed p = refl
continuing_frame-Left sys b info frame_burst_padding p = refl
continuing_frame-Left sys b info frame_zip_local_header p = refl
continuing_frame-Left sys b info frame_zip_data_descriptor p = refl
continuing_frame-Left sys b info frame_zip_central_directory p = refl
continuing_frame-Left sys b info frame_unknown p = refl

expected_frame-Left :
    (sys : System) (b : List ℕ) (info : FrameInfo) (type : FrameType) (p : PartProcessor)
    → Left p (expected_frame sys b info type p)
unfolding expected_frame
expected_frame-Left sys b info frame_zip_local_header p =
    header_round-Left p (handle_local_header sys b p) (handle_local_header-HeaderLeft sys b p)
expected_frame-Left sys b info frame_burst_start_of_part p = refl
expected_frame-Left sys b info frame_zstd_compressed p = refl
expected_frame-Left sys b info frame_burst_padding p = tt
expected_frame-Left sys b info frame_zip_data_descriptor p = refl
expected_frame-Left sys b info frame_zip_central_directory p = tt
expected_frame-Left sys b info frame_unknown p = refl

processing_frame-Left :
    (sys : System) (b : List ℕ) (info : FrameInfo) (type : FrameType) (p : PartProcessor)
    → Left p (processing_frame sys b info type p)
unfolding processing_frame
processing_frame-Left sys b info frame_zstd_compressed p =
    elim (Bool-cases (ltb (length b) info.frame_size)) [
      | inl short ↦ rw short refl
      | inr enough ↦ rw enough (
          consumed_by-Left p info.frame_size (λ p. p)
            (handle_zstd_frame sys (take info.frame_size b) info.uncompressed_size p)
            (handle_zstd_frame-FailsInError sys (take info.frame_size b) info.uncompressed_size p))
    ]
processing_frame-Left sys b info frame_burst_padding p = tt
processing_frame-Left sys b info frame_burst_start_of_part p = elim (Bool-cases (is_aligned p)) [
  | inl here ↦ rw here (
      consumed_by-Left p info.frame_size (λ p. p) (handle_start_of_part_frame sys b p)
        (handle_start_of_part_frame-FailsInError sys b p))
  | inr astray ↦ rw astray refl
]
processing_frame-Left sys b info frame_zip_data_descriptor p = tt
processing_frame-Left sys b info frame_zip_local_header p = tt
processing_frame-Left sys b info frame_zip_central_directory p = tt
processing_frame-Left sys b info frame_unknown p = refl

pub round_in-Left :
    (zstd : Zstd) (sys : System) (b : List ℕ) (p : PartProcessor) (st : ProcessorState)
    → p.state ≡ st
    → Left p (round_in zstd sys b p st)
unfolding round_in init_round continuing_round expect_round processing_round symlink_round
    symlink_bytes
round_in-Left zstd sys b p state_init st = ground arith
round_in-Left zstd sys b p state_continuing_file st =
    on_frame-Left (parse_next_frame zstd b) p _ λ info. continuing_frame-Left sys b info info.type p
round_in-Left zstd sys b p state_expect_local_header st =
    elim (Bool-cases (leb (length (part_of p).entries) p.next_entry_idx)) [
      | inl all_done ↦ rw all_done tt
      | inr more ↦ rw more (
          on_frame-Left (parse_next_frame zstd b) p _
            λ info. expected_frame-Left sys b info info.type p)
    ]
round_in-Left zstd sys b p state_processing_frames st =
    on_frame-Left (parse_next_frame zstd b) p _ λ info. processing_frame-Left sys b info info.type p
round_in-Left zstd sys b p state_reading_symlink st = ground arith
round_in-Left zstd sys b p state_done st = tt
round_in-Left zstd sys b p state_error st = st
