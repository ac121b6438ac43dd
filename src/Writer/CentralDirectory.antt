-- ===== src/Writer/CentralDirectory.antt =====
-- The central directory: `write_central_directory` of src/writer/zip_structures.c, and the two
-- helpers of src/writer/burst_writer.c that reckon where its headers stand.
pub mod Sizes
pub mod Tail
use burst.Base.{
  ℕ, zero, suc, ◌+◌, ◌-◌, ◌*◌, ◌/◌, ◌%◌, ◌^◌, ◌≤◌, ◌<◌, ◌≡◌, refl, sym, ap, ◌∙◌, ◌≢◌, ◌⊎◌, inl, inr,
  Bool, true, false, not, ◌&&◌, ◌||◌, Option, none, some, List, [], ◌∷◌, ◌++◌, map, append_assoc,
  append-nil, arith, ltb, leb, ◌==◌, if◌then◌else◌, Bool-cases, Option-cases, le_of_leb,
  lt_of_leb-false, lt_of_ltb, le_of_ltb-false, ltb_of_lt, ltb-false_of_le, leb_of_le, eq_of_==,
  ==_of_eq, length, get_or, get_elem?, take, drop, replicate, All, length-append, take-append-drop,
  length-take, length-drop, length-replicate, take-append, drop-append, get_or-append, length-map,
}
use burst.Zip.{
  zip_local_file_header_sig, zip_data_descriptor_sig, zip_central_dir_header_sig,
  zip_end_central_dir_sig, zip64_end_central_dir_sig, zip64_end_central_dir_locator_sig,
  method_store, method_deflate, method_zstd, version_store, version_deflate, version_zstd,
  flag_data_descriptor, burst_eocd_comment_magic, burst_eocd_comment_version, no_cdfh_in_tail,
  part_size, burst_magic_number, min_skippable_frame_size, padding_lfh_filename,
  padding_lfh_filename_len, padding_lfh_min_size, LocalHeader, local_header_bytes, CentralHeader,
  central_header_bytes, DataDescriptor, data_descriptor_bytes, data_descriptor_zip64_bytes,
  EndCentralDir, end_central_dir_bytes, Zip64EndCentralDir, zip64_end_central_dir_bytes,
  Zip64Locator, zip64_locator_bytes,
}
use burst.Zip.Fields.{
  dos_time, dos_date, over_32, get_data_descriptor_size, byte, build_unix_extra_field, needed_size,
  needed_bytes, build_zip64_extra_field, build_burst_eocd_comment,
}
use burst.Sink.{
  Tm, Env, Outcome, ok, failed, ◌>>=◌, or_fail, Sink, buffer_used, burst_writer_flush, to_copy,
  copied, copy_chunk, write_loop, burst_writer_write, count_padding, alignment_get_write_position,
}
use burst.Writer.{
  FileEntry, BurstWriter, num_files, sizeof_burst_writer, sizeof_file_entry, initial_files_capacity,
  write_buffer_size, burst_writer_create, in_sink, ensure_file_capacity, Lfh, lfh_bytes, c_string,
  allocate_file_entry, populate_entry_metadata, header_space_needed, check_alignment_and_pad,
  add_entry,
}

abbrev pub need_zip64 : FileEntry → Bool
need_zip64 entry =
    over_32 entry.compressed_size
    || (over_32 entry.uncompressed_size || over_32 entry.local_header_offset)

-- The buffer `extra_field[64]`.
abbrev pub unix_extra : FileEntry → List ℕ
unix_extra entry = build_unix_extra_field 64 entry.uid entry.gid

abbrev pub zip64_extra : FileEntry → List ℕ
zip64_extra entry =
    if need_zip64 entry
    then build_zip64_extra_field (64 - length (unix_extra entry)) entry.compressed_size
        entry.uncompressed_size entry.local_header_offset
    else []

-- The 32-bit field, or the marker that its value is in the ZIP64 extra field.
abbrev pub field_32 : ℕ → ℕ
field_32 x = if over_32 x then 0xFFFFFFFF else x % 2 ^ 32

abbrev pub central_header : FileEntry → CentralHeader
central_header entry = record {
  signature = zip_central_dir_header_sig;
  version_made_by = 3 * 2 ^ 8 + 63;
  version_needed = entry.version_needed;
  flags = entry.general_purpose_flags;
  compression_method = entry.compression_method;
  last_mod_time = entry.last_mod_time;
  last_mod_date = entry.last_mod_date;
  crc32 = entry.crc32;
  compressed_size = field_32 entry.compressed_size;
  uncompressed_size = field_32 entry.uncompressed_size;
  filename_length = length entry.filename % 2 ^ 16;
  extra_field_length = (length (unix_extra entry) + length (zip64_extra entry)) % 2 ^ 16;
  file_comment_length = 0;
  disk_number_start = 0;
  internal_file_attributes = 0;
  external_file_attributes = entry.unix_mode * 2 ^ 16 % 2 ^ 32;
  local_header_offset = field_32 entry.local_header_offset;
}

-- One round of the loop.
unfoldable pub write_central_entry : Env → FileEntry → Sink → Outcome Sink
write_central_entry env entry s =
    let extra = unix_extra entry ++ zip64_extra entry in
    let written = do
      s ← burst_writer_write env (central_header_bytes (central_header entry)) s
      s ← burst_writer_write env (take (central_header entry).filename_length entry.filename) s
      if ltb 0 (length extra) then burst_writer_write env extra s else ok s
    in if need_zip64 entry && length (zip64_extra entry) == 0 then failed s else written

unfoldable pub write_central_directory : Env → List FileEntry → Sink → Outcome Sink
write_central_directory env [] s = ok s
write_central_directory env (entry ∷ entries) s = do
  s ← write_central_entry env entry s
  write_central_directory env entries s

unfoldable pub calculate_cdfh_size : FileEntry → ℕ
calculate_cdfh_size entry =
    let zip64 =
      4
      + needed_size entry.uncompressed_size
      + needed_size entry.compressed_size
      + needed_size entry.local_header_offset in
    (46 + length entry.filename + 15 + (if need_zip64 entry then zip64 else 0)) % 2 ^ 64

-- The loop of `find_first_cdfh_in_tail`.
unfoldable pub first_cdfh_from : List FileEntry → ℕ → ℕ → ℕ
first_cdfh_from [] cdfh_offset tail_start = no_cdfh_in_tail
first_cdfh_from (entry ∷ entries) cdfh_offset tail_start =
    let rest =
      first_cdfh_from entries ((cdfh_offset + calculate_cdfh_size entry) % 2 ^ 64) tail_start in
    if leb tail_start cdfh_offset then (cdfh_offset - tail_start) % 2 ^ 32 else rest

unfoldable pub find_first_cdfh_in_tail : List FileEntry → ℕ → ℕ → ℕ
find_first_cdfh_in_tail entries central_dir_start final_archive_size =
    let tail_start = final_archive_size - part_size in
    if leb final_archive_size part_size
    then 0
    else if leb tail_start central_dir_start
    then 0
    else first_cdfh_from entries central_dir_start tail_start
