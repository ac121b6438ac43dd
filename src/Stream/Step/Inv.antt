-- ===== src/Stream/Step/Inv.antt =====
-- What holds between two rounds of the loop of `part_processor_process_data`.
use mathlib.Core.Path.{subst}
use burst.Base.{
  ◌<◌, sym, ◌+◌, ℕ, ◌≤◌, ◌≡◌, refl, inl, inr, Option, none, List, ◌++◌, arith, leb, Bool-cases,
  Option-cases, length, take, length-append, length-take,
}
use burst.Sink.{Outcome, ok, failed}
use burst.Frame.{
  FrameType, frame_zstd_compressed, frame_burst_padding, frame_burst_start_of_part,
  frame_zip_local_header, frame_zip_data_descriptor, frame_zip_central_directory, frame_unknown,
  FrameInfo, FrameResult, success, need_more_data, invalid_frame, Zstd, parse_next_frame,
}
use burst.Stream.{
  ProcessorState, state_init, state_continuing_file, state_expect_local_header,
  state_processing_frames, state_reading_symlink, state_done, state_error, FileContext,
  PartProcessor, System, part_of,
}
use burst.Stream.Files.{
  handle_start_of_part_frame, handle_zstd_frame, HeaderResult, header_opened, header_skipped,
  header_incomplete, header_failed, handle_local_header,
}
use burst.Stream.Files.Keeps.{
  IsOpen, FilesFit, Keeps, close-Keeps, handle_start_of_part_frame-Keeps, handle_zstd_frame-Keeps,
  handle_local_header-Keeps, handle_local_header-skipped,
}
use burst.Stream.Step.{
  Round, advanced, enter, consumed_by, on_frame, init_round, continuing_frame, continuing_round,
  header_round, expected_frame, expect_round, processing_frame, processing_round, bytes_to_copy,
  with_target, symlink_bytes, symlink_round, round_in,
}

-- In which states a file is open.
abbrev pub FileMatches : ProcessorState → Option FileContext → Type 0
FileMatches state_processing_frames file = IsOpen file
FileMatches state_reading_symlink file = IsOpen file
FileMatches state_error file = Unit {0}
FileMatches st file = file ≡ none

abbrev pub Sound : ProcessorState → PartProcessor → Type 0
Sound st p =
    FileMatches st p.current_file
    × (p.next_entry_idx ≤ length (part_of p).entries)
    × FilesFit p.cd_result

abbrev pub InState : PartProcessor → Type 0
InState p = Sound p.state p

pub on_frame-eq-advanced :
    (r : FrameResult) (p : PartProcessor) (f : FrameInfo → Round) {n : ℕ} {p' : PartProcessor}
    → on_frame r p f ≡ advanced n p'
    → (info : FrameInfo) × (r ≡ success info) × (f info ≡ advanced n p')
on_frame-eq-advanced need_more_data p f h = cc
on_frame-eq-advanced invalid_frame p f h = cc
on_frame-eq-advanced (success info) p f h = (info, refl, h)

init_round-Sound :
    (p p' : PartProcessor) (n : ℕ) → Sound state_init p → init_round p ≡ advanced n p' → InState p'
unfolding init_round
init_round-Sound p p' n s h = ground (arith, s)

-- A handler that opens a file, and the round goes on in the data of that file.
consumed_by-Sound :
    (p p' : PartProcessor) (n m : ℕ) (r : Outcome PartProcessor)
    → p.next_entry_idx ≤ length (part_of p).entries
    → FilesFit p.cd_result
    → ((q : PartProcessor) → r ≡ ok q → Keeps p q × IsOpen q.current_file)
    → consumed_by m (enter state_processing_frames) r ≡ advanced n p'
    → InState p'
consumed_by-Sound p p' n m (ok q) entries fit opens h =
    let (k, o) = opens q refl in
    let fit' : FilesFit q.cd_result = subst FilesFit (sym k.directory) fit in
    ground (arith, k, o, entries, fit')
consumed_by-Sound p p' n m (failed q) entries fit opens h = cc

continuing_frame-Sound :
    (sys : System) (b : List ℕ) (info : FrameInfo) (type : FrameType) (p p' : PartProcessor) (n : ℕ)
    → Sound state_continuing_file p
    → continuing_frame sys b info type p ≡ advanced n p'
    → InState p'
unfolding continuing_frame
continuing_frame-Sound sys b info frame_burst_start_of_part p p' n s h =
    consumed_by-Sound p p' n info.frame_size (handle_start_of_part_frame sys b p) s.1 s.2
      (λ q e. let (k, o, _) = handle_start_of_part_frame-Keeps sys b p q s.2 (inl s.0) e in (k, o))
      h
continuing_frame-Sound sys b info frame_zstd_compressed p p' n s h = cc
continuing_frame-Sound sys b info frame_burst_padding p p' n s h = cc
continuing_frame-Sound sys b info frame_zip_local_header p p' n s h = cc
continuing_frame-Sound sys b info frame_zip_data_descriptor p p' n s h = cc
continuing_frame-Sound sys b info frame_zip_central_directory p p' n s h = cc
continuing_frame-Sound sys b info frame_unknown p p' n s h = cc

header_round-Sound :
    (sys : System) (b : List ℕ) (p p' : PartProcessor) (n : ℕ) (r : HeaderResult)
    → p.state ≡ state_expect_local_header
    → Sound state_expect_local_header p
    → handle_local_header sys b p ≡ r
    → header_round r ≡ advanced n p'
    → InState p'
header_round-Sound sys b p p' n (header_opened m q) st s e h =
    let (k, o, lt) = handle_local_header-Keeps sys b m p q s.2 e in
    let fit : FilesFit q.cd_result = subst FilesFit (sym k.directory) s.2 in
    ground (arith, k, o, lt, fit)
header_round-Sound sys b p p' n (header_skipped m q) st s e h =
    let (same, _, _) = handle_local_header-skipped sys b m p q e in ground (arith, same, st, s)
header_round-Sound sys b p p' n (header_incomplete q) st s e h = cc
header_round-Sound sys b p p' n (header_failed q) st s e h = cc

expected_frame-Sound :
    (sys : System) (b : List ℕ) (info : FrameInfo) (type : FrameType) (p p' : PartProcessor) (n : ℕ)
    → p.state ≡ state_expect_local_header
    → Sound state_expect_local_header p
    → expected_frame sys b info type p ≡ advanced n p'
    → InState p'
unfolding expected_frame
expected_frame-Sound sys b info frame_burst_padding p p' n st s h = ground (arith, st, s)
expected_frame-Sound sys b info frame_zip_central_directory p p' n st s h = ground (arith, s)
expected_frame-Sound sys b info frame_zip_local_header p p' n st s h =
    header_round-Sound sys b p p' n (handle_local_header sys b p) st s refl h
expected_frame-Sound sys b info frame_zstd_compressed p p' n st s h = cc
expected_frame-Sound sys b info frame_burst_start_of_part p p' n st s h = cc
expected_frame-Sound sys b info frame_zip_data_descriptor p p' n st s h = cc
expected_frame-Sound sys b info frame_unknown p p' n st s h = cc

-- A handler that keeps the file of the part open, in a round that keeps the state.
kept-Sound :
    (p p' : PartProcessor) (n m : ℕ) (r : Outcome PartProcessor)
    → p.state ≡ state_processing_frames
    → p.next_entry_idx ≤ length (part_of p).entries
    → FilesFit p.cd_result
    → ((q : PartProcessor) → r ≡ ok q → Keeps p q × IsOpen q.current_file × (q.state ≡ p.state))
    → consumed_by m (λ p. p) r ≡ advanced n p'
    → InState p'
kept-Sound p p' n m (ok q) st entries fit opens h =
    let (k, o, same) = opens q refl in
    let fit' : FilesFit q.cd_result = subst FilesFit (sym k.directory) fit in
    ground (arith, k, o, entries, same, st, fit')
kept-Sound p p' n m (failed q) st entries fit opens h = cc

processing_frame-Sound :
    (sys : System) (b : List ℕ) (info : FrameInfo) (type : FrameType) (p p' : PartProcessor) (n : ℕ)
    → p.state ≡ state_processing_frames
    → Sound state_processing_frames p
    → processing_frame sys b info type p ≡ advanced n p'
    → InState p'
unfolding processing_frame
processing_frame-Sound sys b info frame_zstd_compressed p p' n st s h =
    kept-Sound p p' n info.frame_size
      (handle_zstd_frame sys (take info.frame_size b) info.uncompressed_size p) st s.1 s.2
      (λ q e. handle_zstd_frame-Keeps sys (take info.frame_size b) info.uncompressed_size p q s.0 e)
      (ground arith)
processing_frame-Sound sys b info frame_burst_padding p p' n st s h = ground (arith, st, s)
processing_frame-Sound sys b info frame_burst_start_of_part p p' n st s h =
    kept-Sound p p' n info.frame_size (handle_start_of_part_frame sys b p) st s.1 s.2
      (λ q e. handle_start_of_part_frame-Keeps sys b p q s.2 (inr s.0) e) (ground arith)
processing_frame-Sound sys b info frame_zip_data_descriptor p p' n st s h =
    ground (arith, s, close-Keeps sys p)
processing_frame-Sound sys b info frame_zip_local_header p p' n st s h =
    ground (arith, s, close-Keeps sys p)
processing_frame-Sound sys b info frame_zip_central_directory p p' n st s h =
    ground (arith, s, close-Keeps sys p)
processing_frame-Sound sys b info frame_unknown p p' n st s h = cc

symlink_bytes-Sound :
    (sys : System) (f : FileContext) (target b : List ℕ) (p p' : PartProcessor) (n : ℕ)
    → p.state ≡ state_reading_symlink
    → p.next_entry_idx ≤ length (part_of p).entries
    → FilesFit p.cd_result
    → length target < f.symlink_buffer_size
    → f.symlink_buffer_size ≡ f.expected_total_size + 1
    → symlink_bytes sys f target b p ≡ advanced n p'
    → InState p'
unfolding symlink_bytes
symlink_bytes-Sound sys f target b p p' n st entries fit fits size h =
    let copied = bytes_to_copy f target b in
    let q : PartProcessor = with_target f (target ++ take copied b) p in
    ground (
      arith,
      st,
      entries,
      fit,
      size,
      close-Keeps sys q,
      length-append target (take copied b),
      length-take copied b,
    )

symlink_round-Sound :
    (sys : System) (b : List ℕ) (p p' : PartProcessor) (n : ℕ)
    → p.state ≡ state_reading_symlink
    → Sound state_reading_symlink p
    → symlink_round sys b p ≡ advanced n p'
    → InState p'
unfolding symlink_round
symlink_round-Sound sys b p p' n st s h = elim (Option-cases (p.current_file)) [
  | inl no_file ↦ ground (arith, no_file)
  | inr (f, there) ↦ elim (Option-cases (f.symlink_buffer)) [
    | inl no_buffer ↦ ground (arith, there, no_buffer)
    | inr (target, filled) ↦
        symlink_bytes-Sound sys f target b p p' n st s.1 s.2 (ground (arith, there, filled, s))
          (ground (arith, there, filled, s)) (ground (arith, there, filled))
  ]
]

expect_round-Sound :
    (zstd : Zstd) (sys : System) (b : List ℕ) (p p' : PartProcessor) (n : ℕ)
    → p.state ≡ state_expect_local_header
    → Sound state_expect_local_header p
    → expect_round zstd sys b p ≡ advanced n p'
    → InState p'
unfolding expect_round
expect_round-Sound zstd sys b p p' n st s h =
    elim (Bool-cases (leb (length (part_of p).entries) p.next_entry_idx)) [
      | inl all_done ↦ ground (arith, all_done, s)
      | inr more ↦
          let (info, _, e) = on_frame-eq-advanced (parse_next_frame zstd b) p _ (rw more at h) in
          expected_frame-Sound sys b info info.type p p' n st s e
    ]

-- A round of the loop keeps what holds in the states.
pub round_in-Sound :
    (zstd : Zstd) (sys : System) (b : List ℕ) (p p' : PartProcessor) (n : ℕ) (st : ProcessorState)
    → p.state ≡ st
    → Sound st p
    → round_in zstd sys b p st ≡ advanced n p'
    → InState p'
unfolding round_in continuing_round processing_round
round_in-Sound zstd sys b p p' n state_init st s h = init_round-Sound p p' n s h
round_in-Sound zstd sys b p p' n state_continuing_file st s h =
    let (info, _, e) = on_frame-eq-advanced (parse_next_frame zstd b) p _ h in
    continuing_frame-Sound sys b info info.type p p' n s e
round_in-Sound zstd sys b p p' n state_expect_local_header st s h =
    expect_round-Sound zstd sys b p p' n st s h
round_in-Sound zstd sys b p p' n state_processing_frames st s h =
    let (info, _, e) = on_frame-eq-advanced (parse_next_frame zstd b) p _ h in
    processing_frame-Sound sys b info info.type p p' n st s e
round_in-Sound zstd sys b p p' n state_reading_symlink st s h =
    symlink_round-Sound sys b p p' n st s h
round_in-Sound zstd sys b p p' n state_done st s h = ground (arith, st, s)
round_in-Sound zstd sys b p p' n state_error st s h = cc
