-- ===== src/Tests/Archives.antt =====
-- A session of the writer, its calls one by one, and the end of the archive.
use burst.Parser.{parsed}
use burst.Parser.Eocd.{central_dir_parse_eocd_only}
use burst.Parser.Eocd.Archive.{end_records, central_dir_parse_eocd_only-end_records}
use burst.Parser.PartMap.{Lib}
use burst.Parser.Whole.{central_dir_parse}
use burst.Parser.RoundTrip.Entry.{IsStorable}
use burst.Parser.RoundTrip.Archive.{parse_result_of, central_dir_parse-finalized}
use burst.Base.{
  ◌+◌, ◌-◌, ◌%◌, ◌^◌, ◌≤◌, ◌<◌, ◌≡◌, refl, ◌⊎◌, true, some, List, [], ◌∷◌, ◌++◌, arith,
  if◌then◌else◌, length, All,
}
use burst.Zip.{part_size, padding_lfh_min_size}
use burst.Zip.Fields.{
  get_data_descriptor_size, build_unix_extra_field, build_zip64_extra_field,
  build_burst_eocd_comment,
}
use burst.Zip.Records.{
  write_data_descriptor, write_zip64_end_central_directory,
  write_zip64_end_central_directory_locator, write_end_central_directory, write_padding_extra,
  write_padding_lfh,
}
use burst.Sink.{
  ok, Sink, burst_writer_flush, copy_chunk, write_loop, burst_writer_write,
  alignment_get_write_position,
}
use burst.Sink.Buffer.{stream, IsValid}
use burst.Alignment.{
  alignment_next_boundary, alignment_decide, write_padding_zeros, alignment_write_padding_frame,
  alignment_write_start_of_part_frame,
}
use burst.Layout.{Item, start_of_part, link_target, flat, Laid, Lays, IsPadding}
use burst.Writer.{
  BurstWriter, write_buffer_size, burst_writer_create, ensure_file_capacity, c_string,
  allocate_file_entry, populate_entry_metadata, check_alignment_and_pad, add_entry,
}
use burst.Writer.Steps.{position, Room, InFile, start_of_part_step, check_alignment_and_pad-Lays}
use burst.Writer.AddFile.{
  Progress, compress_chunk, pad_before_frame, metadata_after_frame, write_aligned_frame,
  write_chunk, compress_loop, pad_before_descriptor, sized_entry, finish_file, after_loop,
  write_file_data, write_content, add_file_entry, burst_writer_add_file,
}
use burst.Writer.AddFile.Frames.{Advances, chunks_read, compress_loop-Advances}
use burst.Writer.AddFile.Layout.{AddedFile, burst_writer_add_file-Lays}
use burst.Writer.AddLink.{
  add_symlink_entry, burst_writer_add_symlink, is_directory_header, add_directory_entry,
  burst_writer_add_directory,
}
use burst.Writer.AddLink.Layout.{
  AddedEntry, burst_writer_add_symlink-Lays, burst_writer_add_directory-Lays,
}
use burst.Writer.Session.{run_call, run_calls, CallsItems, session_layout}
use burst.Writer.CentralDirectory.{
  write_central_entry, write_central_directory, calculate_cdfh_size, first_cdfh_from,
  find_first_cdfh_in_tail,
}
use burst.Writer.CentralDirectory.Sizes.{
  cdfh_bytes, central_directory_bytes, IsNamed, length-cdfh_bytes,
}
use burst.Writer.CentralDirectory.Tail.{Located, find_first_cdfh_in_tail-Located}
use burst.Writer.Finalize.{write_trailer, finalize_sink, burst_writer_finalize}
use burst.Writer.Finalize.Trailer.{ending_bytes, burst_writer_finalize_lem}
use burst.Tests.Data.{
  env, env-Appends, env-BoundedFrames, empty_sink, empty_sink-IsValid, left, writer, header_of,
  directory_header, input, calls, entry_of, entries,
}

abbrev created : BurstWriter
created = record writer { sink = record empty_sink { buffer_size = write_buffer_size } }

writer_created : burst_writer_create env (some []) 3 ≡ some created
unfolding burst_writer_create
writer_created = refl

abbrev session_end : BurstWriter
session_end = (run_calls env calls created 0).0

session_ran : run_calls env calls created 0 ≡ (session_end, length calls)
unfolding burst_writer_flush copy_chunk write_loop burst_writer_write alignment_get_write_position
    write_data_descriptor write_padding_extra write_padding_lfh get_data_descriptor_size
    alignment_next_boundary alignment_decide write_padding_zeros alignment_write_padding_frame
    alignment_write_start_of_part_frame run_call run_calls compress_chunk pad_before_frame
    metadata_after_frame write_aligned_frame write_chunk compress_loop pad_before_descriptor
    sized_entry finish_file after_loop write_file_data write_content add_file_entry
    burst_writer_add_file add_symlink_entry burst_writer_add_symlink is_directory_header
    add_directory_entry burst_writer_add_directory ensure_file_capacity c_string allocate_file_entry
    populate_entry_metadata check_alignment_and_pad add_entry
session_ran = refl

session_layout_example :
    (items : List Item) × CallsItems env calls items
    × (stream session_end.sink ≡ flat env items)
    × Laid env 0 items
session_layout_example =
    session_layout env env-Appends env-BoundedFrames 3 calls created session_end writer_created
      (ground arith) session_ran

abbrev filed : BurstWriter
filed = left (burst_writer_add_file env input (header_of 8) 32 0o100644 1000 1000 writer)

file_added : burst_writer_add_file env input (header_of 8) 32 0o100644 1000 1000 writer ≡ ok filed
unfolding burst_writer_flush copy_chunk write_loop burst_writer_write alignment_get_write_position
    write_data_descriptor write_padding_extra write_padding_lfh get_data_descriptor_size
    alignment_next_boundary alignment_decide write_padding_zeros alignment_write_padding_frame
    alignment_write_start_of_part_frame run_call run_calls compress_chunk pad_before_frame
    metadata_after_frame write_aligned_frame write_chunk compress_loop pad_before_descriptor
    sized_entry finish_file after_loop write_file_data write_content add_file_entry
    burst_writer_add_file add_symlink_entry burst_writer_add_symlink is_directory_header
    add_directory_entry burst_writer_add_directory ensure_file_capacity c_string allocate_file_entry
    populate_entry_metadata check_alignment_and_pad add_entry
file_added = refl

burst_writer_add_file-Lays_example :
    AddedFile env writer.compression_level input.reads (header_of 8) 32 writer.sink filed.sink
burst_writer_add_file-Lays_example =
    burst_writer_add_file-Lays env env-Appends env-BoundedFrames input (header_of 8) 32 0o100644
      1000 1000 writer filed (ground arith) (omega arith) empty_sink-IsValid (omega arith)
      file_added

abbrev linked : BurstWriter
linked = left (burst_writer_add_symlink env (header_of 0) 32 (0x78 ∷ 0x79 ∷ []) 0o120777 0 0 writer)

symlink_added :
    burst_writer_add_symlink env (header_of 0) 32 (0x78 ∷ 0x79 ∷ []) 0o120777 0 0 writer ≡ ok linked
unfolding burst_writer_flush copy_chunk write_loop burst_writer_write alignment_get_write_position
    write_data_descriptor write_padding_extra write_padding_lfh get_data_descriptor_size
    alignment_next_boundary alignment_decide write_padding_zeros alignment_write_padding_frame
    alignment_write_start_of_part_frame run_call run_calls compress_chunk pad_before_frame
    metadata_after_frame write_aligned_frame write_chunk compress_loop pad_before_descriptor
    sized_entry finish_file after_loop write_file_data write_content add_file_entry
    burst_writer_add_file add_symlink_entry burst_writer_add_symlink is_directory_header
    add_directory_entry burst_writer_add_directory ensure_file_capacity c_string allocate_file_entry
    populate_entry_metadata check_alignment_and_pad add_entry
symlink_added = refl

burst_writer_add_symlink-Lays_example :
    AddedEntry env (header_of 0) 32 (link_target (0x78 ∷ 0x79 ∷ []) ∷ []) writer.sink linked.sink
burst_writer_add_symlink-Lays_example =
    burst_writer_add_symlink-Lays env env-Appends (header_of 0) 32 (0x78 ∷ 0x79 ∷ []) 0o120777 0 0
      writer linked (omega arith) empty_sink-IsValid (omega arith) symlink_added

abbrev with_directory : BurstWriter
with_directory = left (burst_writer_add_directory env directory_header 32 0o40755 0 0 writer)

directory_added :
    burst_writer_add_directory env directory_header 32 0o40755 0 0 writer ≡ ok with_directory
unfolding burst_writer_flush copy_chunk write_loop burst_writer_write alignment_get_write_position
    write_data_descriptor write_padding_extra write_padding_lfh get_data_descriptor_size
    alignment_next_boundary alignment_decide write_padding_zeros alignment_write_padding_frame
    alignment_write_start_of_part_frame run_call run_calls compress_chunk pad_before_frame
    metadata_after_frame write_aligned_frame write_chunk compress_loop pad_before_descriptor
    sized_entry finish_file after_loop write_file_data write_content add_file_entry
    burst_writer_add_file add_symlink_entry burst_writer_add_symlink is_directory_header
    add_directory_entry burst_writer_add_directory ensure_file_capacity c_string allocate_file_entry
    populate_entry_metadata check_alignment_and_pad add_entry
directory_added = refl

burst_writer_add_directory-Lays_example :
    AddedEntry env directory_header 32 [] writer.sink with_directory.sink
burst_writer_add_directory-Lays_example =
    burst_writer_add_directory-Lays env env-Appends directory_header 32 0o40755 0 0 writer
      with_directory (omega arith) empty_sink-IsValid (omega arith) directory_added

abbrev start : Progress
start = record { sink = with_directory.sink; crc = 0; total_uncompressed = 0 }

abbrev behind : Progress
behind = left (compress_loop env 3 input.reads start)

chunks_written : compress_loop env 3 input.reads start ≡ ok behind
unfolding burst_writer_flush copy_chunk write_loop burst_writer_write alignment_get_write_position
    write_data_descriptor write_padding_extra write_padding_lfh get_data_descriptor_size
    alignment_next_boundary alignment_decide write_padding_zeros alignment_write_padding_frame
    alignment_write_start_of_part_frame run_call run_calls compress_chunk pad_before_frame
    metadata_after_frame write_aligned_frame write_chunk compress_loop pad_before_descriptor
    sized_entry finish_file after_loop write_file_data write_content add_file_entry
    burst_writer_add_file add_symlink_entry burst_writer_add_symlink is_directory_header
    add_directory_entry burst_writer_add_directory ensure_file_capacity c_string allocate_file_entry
    populate_entry_metadata check_alignment_and_pad add_entry
chunks_written = refl

AddedEntry-IsValid :
    AddedEntry env directory_header 32 [] writer.sink with_directory.sink
    → IsValid with_directory.sink
AddedEntry-IsValid (items, made, l, room) = l.valid

start-IsValid : IsValid start.sink
start-IsValid = AddedEntry-IsValid burst_writer_add_directory-Lays_example

inside : InFile start.sink
unfolding burst_writer_flush copy_chunk write_loop burst_writer_write alignment_get_write_position
    write_data_descriptor write_padding_extra write_padding_lfh get_data_descriptor_size
    alignment_next_boundary alignment_decide write_padding_zeros alignment_write_padding_frame
    alignment_write_start_of_part_frame run_call run_calls compress_chunk pad_before_frame
    metadata_after_frame write_aligned_frame write_chunk compress_loop pad_before_descriptor
    sized_entry finish_file after_loop write_file_data write_content add_file_entry
    burst_writer_add_file add_symlink_entry burst_writer_add_symlink is_directory_header
    add_directory_entry burst_writer_add_directory ensure_file_capacity c_string allocate_file_entry
    populate_entry_metadata check_alignment_and_pad add_entry
inside = (omega arith, omega arith)

compress_loop-Advances_example :
    Advances env 3 0 behind.total_uncompressed (chunks_read input.reads) start.sink behind.sink
compress_loop-Advances_example =
    compress_loop-Advances env env-Appends env-BoundedFrames 3 input.reads start behind
      (omega arith) start-IsValid inside (ground arith) chunks_written

enough_room : check_alignment_and_pad env 32 2 true empty_sink ≡ ok empty_sink
unfolding check_alignment_and_pad alignment_get_write_position alignment_next_boundary
enough_room = refl

check_alignment_and_pad-Lays_example :
    (pad : List Item) × IsPadding pad
    × Lays env pad empty_sink empty_sink
    × Room (32 + 2 + padding_lfh_min_size + (if true then 24 else 0)) empty_sink
check_alignment_and_pad-Lays_example =
    check_alignment_and_pad-Lays env env-Appends 32 2 true empty_sink empty_sink empty_sink-IsValid
      (omega arith) (omega arith) enough_room

abbrev opened : Sink
opened = left (alignment_write_start_of_part_frame env 513 empty_sink)

part_opened : alignment_write_start_of_part_frame env 513 empty_sink ≡ ok opened
unfolding burst_writer_flush copy_chunk write_loop burst_writer_write alignment_get_write_position
    write_data_descriptor write_padding_extra write_padding_lfh get_data_descriptor_size
    alignment_next_boundary alignment_decide write_padding_zeros alignment_write_padding_frame
    alignment_write_start_of_part_frame
part_opened = refl

start_of_part_step_example :
    Lays env (start_of_part 513 ∷ []) empty_sink opened × (position opened % part_size ≡ 24)
start_of_part_step_example =
    start_of_part_step env env-Appends 513 empty_sink opened empty_sink-IsValid (omega arith)
      part_opened

-- The archive of one directory.
abbrev finalized : BurstWriter
finalized = left (burst_writer_finalize env with_directory)

archive_ended : burst_writer_finalize env with_directory ≡ ok finalized
unfolding burst_writer_flush copy_chunk write_loop burst_writer_write alignment_get_write_position
    write_data_descriptor write_padding_extra write_padding_lfh get_data_descriptor_size
    alignment_next_boundary alignment_decide write_padding_zeros alignment_write_padding_frame
    alignment_write_start_of_part_frame run_call run_calls compress_chunk pad_before_frame
    metadata_after_frame write_aligned_frame write_chunk compress_loop pad_before_descriptor
    sized_entry finish_file after_loop write_file_data write_content add_file_entry
    burst_writer_add_file add_symlink_entry burst_writer_add_symlink is_directory_header
    add_directory_entry burst_writer_add_directory ensure_file_capacity c_string allocate_file_entry
    populate_entry_metadata check_alignment_and_pad add_entry write_central_entry
    write_central_directory calculate_cdfh_size first_cdfh_from find_first_cdfh_in_tail
    write_trailer finalize_sink burst_writer_finalize build_unix_extra_field build_zip64_extra_field
    build_burst_eocd_comment write_zip64_end_central_directory
    write_zip64_end_central_directory_locator write_end_central_directory
archive_ended = refl

archive_small :
    length (stream with_directory.sink)
      + length (central_directory_bytes with_directory.files)
      + 106
    < 2 ^ 64
unfolding burst_writer_flush copy_chunk write_loop burst_writer_write alignment_get_write_position
    write_data_descriptor write_padding_extra write_padding_lfh get_data_descriptor_size
    alignment_next_boundary alignment_decide write_padding_zeros alignment_write_padding_frame
    alignment_write_start_of_part_frame run_call run_calls compress_chunk pad_before_frame
    metadata_after_frame write_aligned_frame write_chunk compress_loop pad_before_descriptor
    sized_entry finish_file after_loop write_file_data write_content add_file_entry
    burst_writer_add_file add_symlink_entry burst_writer_add_symlink is_directory_header
    add_directory_entry burst_writer_add_directory ensure_file_capacity c_string allocate_file_entry
    populate_entry_metadata check_alignment_and_pad add_entry write_central_entry
    write_central_directory calculate_cdfh_size first_cdfh_from find_first_cdfh_in_tail
    write_trailer finalize_sink burst_writer_finalize build_unix_extra_field build_zip64_extra_field
    build_burst_eocd_comment write_zip64_end_central_directory
    write_zip64_end_central_directory_locator write_end_central_directory
archive_small = omega arith

burst_writer_finalize_example :
    (finalized.sink.output
      ≡ stream with_directory.sink
        ++ ending_bytes with_directory.files (length (stream with_directory.sink)))
    × (finalized.sink.write_buffer ≡ [])
    × (finalized.files ≡ with_directory.files)
burst_writer_finalize_example =
    burst_writer_finalize_lem env env-Appends with_directory finalized start-IsValid archive_small
      archive_ended

entries-IsNamed : All IsNamed entries
entries-IsNamed = ground arith

length-cdfh_bytes_example :
    length (cdfh_bytes (entry_of 5000000000 6000000000))
    ≡ calculate_cdfh_size (entry_of 5000000000 6000000000)
length-cdfh_bytes_example = length-cdfh_bytes (entry_of 5000000000 6000000000) (omega arith)

directory_small : 1000 + length (central_directory_bytes entries) < 8389650
unfolding build_unix_extra_field build_zip64_extra_field
directory_small = omega arith

-- A directory that ends in the tail and starts before it.
find_first_cdfh_in_tail-Located_example :
    let r = find_first_cdfh_in_tail entries 1000 8389650 in
    ((r ≡ 0) × (8389650 ≤ 1000 + part_size))
    ⊎ ((1000 + part_size < 8389650) × Located entries 1000 (8389650 - part_size) r)
find_first_cdfh_in_tail-Located_example =
    find_first_cdfh_in_tail-Located entries 1000 8389650 entries-IsNamed directory_small
      (omega arith)

abbrev lib : Lib
lib = record { alloc = λ n. true; qsort = λ entries. entries }

files-IsStorable : All IsStorable with_directory.files
unfolding burst_writer_flush copy_chunk write_loop burst_writer_write alignment_get_write_position
    write_data_descriptor write_padding_extra write_padding_lfh get_data_descriptor_size
    alignment_next_boundary alignment_decide write_padding_zeros alignment_write_padding_frame
    alignment_write_start_of_part_frame run_call run_calls compress_chunk pad_before_frame
    metadata_after_frame write_aligned_frame write_chunk compress_loop pad_before_descriptor
    sized_entry finish_file after_loop write_file_data write_content add_file_entry
    burst_writer_add_file add_symlink_entry burst_writer_add_symlink is_directory_header
    add_directory_entry burst_writer_add_directory ensure_file_capacity c_string allocate_file_entry
    populate_entry_metadata check_alignment_and_pad add_entry write_central_entry
    write_central_directory calculate_cdfh_size first_cdfh_from find_first_cdfh_in_tail
    write_trailer finalize_sink burst_writer_finalize build_unix_extra_field build_zip64_extra_field
    build_burst_eocd_comment write_zip64_end_central_directory
    write_zip64_end_central_directory_locator write_end_central_directory
files-IsStorable = (
  record {
    named = omega arith;
    offset = ground arith;
    compressed = ground arith;
    uncompressed = ground arith;
    crc = omega arith;
    method = omega arith;
    version = omega arith;
    flags = omega arith;
    time = omega arith;
    date = omega arith;
    mode = omega arith;
    user = omega arith;
    group = omega arith;
  },
  tt,
)

central_dir_parse-finalized_example :
    central_dir_parse lib finalized.sink.output (length finalized.sink.output) part_size
    ≡ parsed (
        parse_result_of lib with_directory.files
          (length (stream with_directory.sink))
          (length finalized.sink.output)
          part_size)
central_dir_parse-finalized_example =
    central_dir_parse-finalized env env-Appends lib with_directory finalized part_size start-IsValid
      archive_small files-IsStorable (λ n. refl) archive_ended

central_dir_parse_eocd_only-end_records_example :
    central_dir_parse_eocd_only ((1 ∷ 2 ∷ []) ++ end_records 3 900 100 1000 7) 1106
    ≡ parsed (record {
      central_dir_offset = 900;
      central_dir_size = 100;
      num_entries = some 3;
      is_zip64 = true;
      first_cdfh_offset_in_tail = 7;
    })
central_dir_parse_eocd_only-end_records_example =
    central_dir_parse_eocd_only-end_records (1 ∷ 2 ∷ []) 3 900 100 1000 7 1106 (omega arith) refl
      (omega arith) (omega arith) (omega arith) (omega arith)
