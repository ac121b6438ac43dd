-- ===== src/Stream/Step.antt =====
-- `part_processor_process_data` and `part_processor_finalize` of src/downloader/stream_processor.c:
-- one round of the loop, the loop, and what is kept between two calls.
pub mod Sizes
pub mod Forward
pub mod Progress
pub mod Inv
pub mod Leaves
pub mod Call
pub mod Stuck
use burst.Base.{
  ℕ, zero, suc, ◌+◌, ◌-◌, ◌*◌, ◌/◌, ◌%◌, ◌^◌, ◌≤◌, ◌<◌, ◌≡◌, refl, sym, ap, ◌∙◌, ◌≢◌, ◌⊎◌, inl, inr,
  Bool, true, false, not, ◌&&◌, ◌||◌, Option, none, some, List, [], ◌∷◌, ◌++◌, map, append_assoc,
  append-nil, arith, ltb, leb, ◌==◌, if◌then◌else◌, Bool-cases, Option-cases, le_of_leb,
  lt_of_leb-false, lt_of_ltb, le_of_ltb-false, ltb_of_lt, ltb-false_of_le, leb_of_le, eq_of_==,
  ==_of_eq, length, get_or, get_elem?, take, drop, replicate, All, length-append, take-append-drop,
  length-take, length-drop, length-replicate, take-append, drop-append, get_or-append, length-map,
}
use burst.Bytes.{le16, le32, le64, byte_at, u16_at, u32_at, u64_at, u16_le, u32_le, u64_at-le64}
use burst.Sink.{
  Tm, Env, Outcome, ok, failed, ◌>>=◌, or_fail, Sink, buffer_used, burst_writer_flush, to_copy,
  copied, copy_chunk, write_loop, burst_writer_write, count_padding, alignment_get_write_position,
}
use burst.Btrfs.{
  FileOp, directory_made, opened, closed, unlinked, encoded_written, bytes_written, truncated,
  mode_set, owner_set, symlinked, IoctlAnswer, ioctl_done, not_supported, ioctl_failed, Kernel,
  WriteError, invalid_args, ioctl_error, decompress_failed, write_failed, Written, written,
  write_error, max_extent_size, write_bytes, do_write_unencoded, do_write_encoded,
}
use burst.Parser.{
  ParseError, invalid_buffer, no_eocd, truncated, invalid_signature, memory, Parsed, parsed, error,
  FileMetadata, read_central_header,
}
use burst.Parser.PartMap.{
  PartFileEntry, PartFiles, Lib, count_parts, entries_from, sorted_entries, file_data_end,
  continues_into, find_continuing, part_files_of, parts_from, entries_allocated, build_part_map,
}
use burst.Parser.Whole.{
  ParseResult, estimated_entries, central_dir_parse_from_cd_buffer, central_dir_parse,
  central_dir_parse_partial,
}
use burst.Frame.{
  FrameType, frame_zstd_compressed, frame_burst_padding, frame_burst_start_of_part,
  frame_zip_local_header, frame_zip_data_descriptor, frame_zip_central_directory, frame_unknown,
  FrameInfo, FrameResult, success, need_more_data, invalid_frame, FrameSizeAnswer, size_is,
  src_size_wrong, other_error, Zstd, zstd_magic_number, burst_type_start_of_part, sized,
  local_header_frame, zstd_frame, skippable_frame, parse_next_frame, PartsPlan,
  calculate_parts_to_download,
}
use burst.Stream.{
  StreamError, invalid_arguments, no_memory, invalid_frame_error, io_error, btrfs_write_error,
  unexpected_eof, ProcessorState, state_init, state_continuing_file, state_expect_local_header,
  state_processing_frames, state_reading_symlink, state_done, state_error, FileContext,
  PartProcessor, System, sizeof_part_processor_state, sizeof_file_context,
  initial_frame_buffer_capacity, part_processor_create, part_of, stopped, log,
}
use burst.Stream.Files.{
  directory_prefixes, directory_paths, make_directories, ensure_directory_exists, mode_ops,
  owner_ops, close_ops, close_output_file, ends_with_slash, context_of, output_path, open_context,
  open_output_file, at_offset, open_continuing, handle_start_of_part_frame, handle_zstd_frame,
  HeaderResult, header_opened, header_skipped, header_incomplete, header_failed, header_result,
  same_bytes, is_padding_lfh, next_metadata, handle_local_header,
}

-- BURST_BASE_ALIGNMENT
abbrev pub base_alignment : ℕ
base_alignment = 8 * 1024 * 1024

-- What a round of the loop does: go on behind so many bytes, jump to `buffer_remaining`, or return
-- the error code of the state.
pub data Round : Type 0 where
  advanced : ℕ → PartProcessor → Round
  waiting returned : PartProcessor → Round

abbrev pub enter : ProcessorState → PartProcessor → PartProcessor
enter st p = record p { state = st }

-- `offset += n; state->bytes_processed += n;`
abbrev pub consumed : ℕ → PartProcessor → Round
consumed n p = advanced n (record p { bytes_processed = (p.bytes_processed + n) % 2 ^ 64 })

abbrev pub consumed_by : ℕ → (PartProcessor → PartProcessor) → Outcome PartProcessor → Round
consumed_by n f (ok p) = consumed n (f p)
consumed_by n f (failed p) = returned p

-- What `parse_next_frame` returned decides how a round goes on.
abbrev pub on_frame : FrameResult → PartProcessor → (FrameInfo → Round) → Round
on_frame need_more_data p f = waiting p
on_frame invalid_frame p f = returned (stopped invalid_frame_error p)
on_frame (success info) p f = f info

abbrev pub has_continuing_file : PartProcessor → Bool
has_continuing_file p = elim ((part_of p).continuing_file) [ some i ↦ true | none ↦ false ]

-- STATE_INIT
unfoldable pub init_round : PartProcessor → Round
init_round p =
    if has_continuing_file p
    then advanced 0 (enter state_continuing_file p)
    else advanced 0 (enter state_expect_local_header p)

-- STATE_CONTINUING_FILE: a Start-of-Part frame must come first.
unfoldable pub continuing_frame : System → List ℕ → FrameInfo → FrameType → PartProcessor → Round
continuing_frame sys b info frame_burst_start_of_part p =
    consumed_by info.frame_size (enter state_processing_frames) (handle_start_of_part_frame sys b p)
continuing_frame sys b info other p = returned (stopped invalid_frame_error p)

unfoldable pub continuing_round : Zstd → System → List ℕ → PartProcessor → Round
continuing_round zstd sys b p =
    on_frame (parse_next_frame zstd b) p λ info. continuing_frame sys b info info.type p

-- A symlink's content is read as it stands.
abbrev pub after_header : PartProcessor → PartProcessor
after_header p =
    let p' = record p { next_entry_idx = p.next_entry_idx + 1 } in
    elim (p.current_file) [
      | none ↦ enter state_processing_frames p'
      | some f ↦
          if f.is_symlink then enter state_reading_symlink p' else enter state_processing_frames p'
    ]

abbrev pub header_round : HeaderResult → Round
header_round (header_opened n p) = consumed n (after_header p)
header_round (header_skipped n p) = consumed n p
header_round (header_incomplete p) = waiting p
header_round (header_failed p) = returned p

-- STATE_EXPECT_LOCAL_HEADER, for the frame that was found
unfoldable pub expected_frame : System → List ℕ → FrameInfo → FrameType → PartProcessor → Round
expected_frame sys b info frame_burst_padding p = consumed info.frame_size p
expected_frame sys b info frame_zip_central_directory p = advanced 0 (enter state_done p)
expected_frame sys b info frame_zip_local_header p = header_round (handle_local_header sys b p)
expected_frame sys b info other p = returned (stopped invalid_frame_error p)

unfoldable pub expect_round : Zstd → System → List ℕ → PartProcessor → Round
expect_round zstd sys b p =
    let found =
      on_frame (parse_next_frame zstd b) p λ info. expected_frame sys b info info.type p in
    if leb (length (part_of p).entries) p.next_entry_idx
    then advanced 0 (enter state_done p)
    else found

-- A data descriptor is taken for 24 bytes when the central directory says so, else for 16.
abbrev pub descriptor_size : PartProcessor → ℕ
descriptor_size p = elim (p.current_file) [
  | none ↦ 16
  | some f ↦ if f.uses_zip64_descriptor then 24 else 16
]

abbrev pub is_aligned : PartProcessor → Bool
is_aligned p = (p.part_start_offset + p.bytes_processed) % 2 ^ 64 % base_alignment == 0

-- STATE_PROCESSING_FRAMES, for the frame that was found
unfoldable pub processing_frame : System → List ℕ → FrameInfo → FrameType → PartProcessor → Round
processing_frame sys b info frame_zstd_compressed p =
    if ltb (length b) info.frame_size
    then waiting p
    else consumed_by info.frame_size (λ p. p)
        (handle_zstd_frame sys (take info.frame_size b) info.uncompressed_size p)
processing_frame sys b info frame_burst_padding p = consumed info.frame_size p
processing_frame sys b info frame_burst_start_of_part p =
    if is_aligned p
    then consumed_by info.frame_size (λ p. p) (handle_start_of_part_frame sys b p)
    else returned (stopped invalid_frame_error p)
processing_frame sys b info frame_zip_data_descriptor p =
    consumed (descriptor_size p) (enter state_expect_local_header (close_output_file sys p))
processing_frame sys b info frame_zip_local_header p =
    advanced 0 (enter state_expect_local_header (close_output_file sys p))
processing_frame sys b info frame_zip_central_directory p =
    advanced 0 (enter state_done (close_output_file sys p))
processing_frame sys b info frame_unknown p = returned (stopped invalid_frame_error p)

unfoldable pub processing_round : Zstd → System → List ℕ → PartProcessor → Round
processing_round zstd sys b p =
    on_frame (parse_next_frame zstd b) p λ info. processing_frame sys b info info.type p

-- STATE_READING_SYMLINK: as many bytes as there are, up to the expected size.
abbrev pub bytes_to_copy : FileContext → List ℕ → List ℕ → ℕ
bytes_to_copy f target b =
    let bytes_needed = f.expected_total_size - length target in
    if ltb (length b) bytes_needed then length b else bytes_needed

abbrev pub with_target : FileContext → List ℕ → PartProcessor → PartProcessor
with_target f target p = record p {
  current_file = some (record f { symlink_buffer = some target });
}

unfoldable pub symlink_bytes : System → FileContext → List ℕ → List ℕ → PartProcessor → Round
symlink_bytes sys f target b p =
    let n = bytes_to_copy f target b in
    let p' = with_target f (target ++ take n b) p in
    if leb f.expected_total_size (length (target ++ take n b))
    then consumed n (enter state_expect_local_header (close_output_file sys p'))
    else consumed n p'

unfoldable pub symlink_round : System → List ℕ → PartProcessor → Round
symlink_round sys b p = elim (p.current_file) [
  | none ↦ returned (stopped invalid_frame_error p)
  | some f ↦ elim (f.symlink_buffer) [
    | none ↦ returned (stopped invalid_frame_error p)
    | some target ↦ symlink_bytes sys f target b p
  ]
]

unfoldable pub round_in : Zstd → System → List ℕ → PartProcessor → ProcessorState → Round
round_in zstd sys b p state_init = init_round p
round_in zstd sys b p state_continuing_file = continuing_round zstd sys b p
round_in zstd sys b p state_expect_local_header = expect_round zstd sys b p
round_in zstd sys b p state_processing_frames = processing_round zstd sys b p
round_in zstd sys b p state_reading_symlink = symlink_round sys b p
round_in zstd sys b p state_done = advanced (length b) p
round_in zstd sys b p state_error = returned p

-- How the loop is left: all bytes are used up, the rest is to be buffered, or an error is returned.
pub data LoopEnd : Type 0 where
  finished errored : PartProcessor → LoopEnd
  buffering : List ℕ → PartProcessor → LoopEnd

-- `while (offset < work_len)`, over the bytes from `offset` on. `none` means that the fuel ran out.
unfoldable pub process_loop : Zstd → System → ℕ → List ℕ → PartProcessor → Option LoopEnd
process_loop zstd sys fuel [] p = some (finished p)
process_loop zstd sys zero (x ∷ xs) p = none
process_loop zstd sys (suc fuel) (x ∷ xs) p = elim (round_in zstd sys (x ∷ xs) p p.state) [
  | advanced n p' ↦ process_loop zstd sys fuel (drop n (x ∷ xs)) p'
  | waiting p' ↦ some (buffering (x ∷ xs) p')
  | returned p' ↦ some (errored p')
]

-- A round uses a byte up, or is one of at most two in a row that only change the state.
abbrev pub loop_fuel : List ℕ → ℕ
loop_fuel b = 3 * length b + 3

-- `while (new_capacity < needed) new_capacity *= 2;`; sixty-four doublings pass every size_t.
unfoldable pub doubled : ℕ → ℕ → ℕ → ℕ
doubled zero capacity needed = capacity
doubled (suc n) capacity needed =
    let rest = doubled n (capacity * 2 % 2 ^ 64) needed in
    if ltb capacity needed then rest else capacity

-- `data` is put behind what the buffer holds; the buffer grows when it has to.
unfoldable pub appended_data : System → List ℕ → PartProcessor → Outcome PartProcessor
appended_data sys bytes p =
    let total_len = length p.frame_buffer + length bytes in
    let new_capacity = doubled 64 (p.frame_buffer_capacity * 2 % 2 ^ 64) total_len in
    let p' = record p { frame_buffer = p.frame_buffer ++ bytes } in
    if ltb p.frame_buffer_capacity total_len
    then (if sys.alloc new_capacity
        then ok (record p' { frame_buffer_capacity = new_capacity })
        else failed (stopped no_memory p))
    else ok p'

-- `buffer_remaining` when the bytes are not in the buffer yet.
unfoldable pub buffered : System → List ℕ → PartProcessor → Outcome PartProcessor
buffered sys rest p =
    let new_capacity = doubled 64 p.frame_buffer_capacity (length rest) in
    let p' = record p { frame_buffer = rest } in
    if ltb p.frame_buffer_capacity (length rest)
    then (if sys.alloc new_capacity
        then ok (record p' { frame_buffer_capacity = new_capacity })
        else failed (stopped no_memory p))
    else ok p'

abbrev pub end_in_buffer : Option LoopEnd → Option (Outcome PartProcessor)
end_in_buffer none = none
end_in_buffer (some (finished p)) = some (ok (record p { frame_buffer = [] }))
end_in_buffer (some (errored p)) = some (failed p)
end_in_buffer (some (buffering rest p)) = some (ok (record p { frame_buffer = rest }))

abbrev pub end_in_data : System → Option LoopEnd → Option (Outcome PartProcessor)
end_in_data sys none = none
end_in_data sys (some (finished p)) = some (ok p)
end_in_data sys (some (errored p)) = some (failed p)
end_in_data sys (some (buffering rest p)) = some (buffered sys rest p)

abbrev pub process_buffer : Zstd → System → Outcome PartProcessor → Option (Outcome PartProcessor)
process_buffer zstd sys (failed p) = some (failed p)
process_buffer zstd sys (ok p) =
    end_in_buffer (process_loop zstd sys (loop_fuel p.frame_buffer) p.frame_buffer p)

-- In the states that still read.
unfoldable pub process_work :
    Zstd → System → List ℕ → PartProcessor → Option (Outcome PartProcessor)
process_work zstd sys bytes p =
    if length p.frame_buffer == 0
    then end_in_data sys (process_loop zstd sys (loop_fuel bytes) bytes p)
    else process_buffer zstd sys (appended_data sys bytes p)

unfoldable pub process_data_in :
    Zstd → System → List ℕ → PartProcessor → ProcessorState → Option (Outcome PartProcessor)
process_data_in zstd sys bytes p state_error = some (failed p)
process_data_in zstd sys bytes p state_done = some (ok p)
process_data_in zstd sys bytes p other = process_work zstd sys bytes p

-- `none` means that the loop does not end within its fuel.
unfoldable pub part_processor_process_data :
    Zstd → System → List ℕ → PartProcessor → Option (Outcome PartProcessor)
part_processor_process_data zstd sys bytes p = process_data_in zstd sys bytes p p.state

unfoldable pub part_processor_finalize : System → PartProcessor → Outcome PartProcessor
part_processor_finalize sys p =
    let p' = close_output_file sys p in
    if ltb 0 (length p'.frame_buffer)
    then failed (stopped unexpected_eof p')
    else ok (enter state_done p')
