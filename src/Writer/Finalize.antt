-- ===== src/Writer/Finalize.antt =====
-- `burst_writer_finalize` of src/writer/burst_writer.c.
pub mod Trailer
use burst.Base.{
  ℕ, zero, suc, ◌+◌, ◌-◌, ◌*◌, ◌/◌, ◌%◌, ◌^◌, ◌≤◌, ◌<◌, ◌≡◌, refl, sym, ap, ◌∙◌, ◌≢◌, ◌⊎◌, inl, inr,
  Bool, true, false, not, ◌&&◌, ◌||◌, Option, none, some, List, [], ◌∷◌, ◌++◌, map, append_assoc,
  append-nil, arith, ltb, leb, ◌==◌, if◌then◌else◌, Bool-cases, Option-cases, le_of_leb,
  lt_of_leb-false, lt_of_ltb, le_of_ltb-false, ltb_of_lt, ltb-false_of_le, leb_of_le, eq_of_==,
  ==_of_eq, length, get_or, get_elem?, take, drop, replicate, All, length-append, take-append-drop,
  length-take, length-drop, length-replicate, take-append, drop-append, get_or-append, length-map,
}
use burst.Zip.Fields.{
  dos_time, dos_date, over_32, get_data_descriptor_size, byte, build_unix_extra_field, needed_size,
  needed_bytes, build_zip64_extra_field, build_burst_eocd_comment,
}
use burst.Zip.Records.{
  write_local_header, write_data_descriptor, zip64_end_record, write_zip64_end_central_directory,
  zip64_locator, write_zip64_end_central_directory_locator, end_record, write_end_central_directory,
  padding_extra_len, padding_header, write_padding_extra, write_padding_lfh,
}
use burst.Sink.{
  Tm, Env, Outcome, ok, failed, ◌>>=◌, or_fail, Sink, buffer_used, burst_writer_flush, to_copy,
  copied, copy_chunk, write_loop, burst_writer_write, count_padding, alignment_get_write_position,
}
use burst.Writer.{
  FileEntry, BurstWriter, num_files, sizeof_burst_writer, sizeof_file_entry, initial_files_capacity,
  write_buffer_size, burst_writer_create, in_sink, ensure_file_capacity, Lfh, lfh_bytes, c_string,
  allocate_file_entry, populate_entry_metadata, header_space_needed, check_alignment_and_pad,
  add_entry,
}
use burst.Writer.CentralDirectory.{
  need_zip64, unix_extra, zip64_extra, field_32, central_header, write_central_entry,
  write_central_directory, calculate_cdfh_size, first_cdfh_from, find_first_cdfh_in_tail,
}

-- The three records behind the central directory, from where it starts and ends.
unfoldable pub write_trailer : Env → List FileEntry → ℕ → ℕ → Sink → Outcome Sink
write_trailer env files central_dir_start central_dir_end s = do
  let central_dir_size = (central_dir_end + 2 ^ 64 - central_dir_start) % 2 ^ 64
  let final_archive_size = (central_dir_end + 56 + 20 + 22 + 8) % 2 ^ 64
  let first_cdfh_offset = find_first_cdfh_in_tail files central_dir_start final_archive_size
  s ← write_zip64_end_central_directory env (length files) central_dir_start central_dir_size s
  s ← write_zip64_end_central_directory_locator env central_dir_end s
  write_end_central_directory env (length files) central_dir_start central_dir_size
      first_cdfh_offset s

unfoldable pub finalize_sink : Env → List FileEntry → Sink → Outcome Sink
finalize_sink env files s = do
  s ← burst_writer_flush env s
  let central_dir_start = s.current_offset
  s ← write_central_directory env files s
  s ← write_trailer env files central_dir_start (alignment_get_write_position s) s
  burst_writer_flush env s

unfoldable pub burst_writer_finalize : Env → BurstWriter → Outcome BurstWriter
burst_writer_finalize env w = in_sink w (finalize_sink env w.files w.sink)
