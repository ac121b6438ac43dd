-- ===== src/Zip/Records.antt =====
-- The functions of src/writer/zip_structures.c that write one record: local headers, data
-- descriptors, the records at the end of the archive, and the padding local header.
use burst.Base.{
  ℕ, ◌+◌, ◌-◌, ◌*◌, ◌%◌, ◌^◌, Bool, List, ltb, ◌==◌, if◌then◌else◌, length, take, replicate,
}
use burst.Zip.{
  LocalHeader, local_header_bytes, data_descriptor_bytes, data_descriptor_zip64_bytes,
  EndCentralDir, end_central_dir_bytes, Zip64EndCentralDir, zip64_end_central_dir_bytes,
  Zip64Locator, zip64_locator_bytes, zip_local_file_header_sig, zip_data_descriptor_sig,
  zip_end_central_dir_sig, zip64_end_central_dir_sig, zip64_end_central_dir_locator_sig,
  method_store, method_deflate, method_zstd, version_store, version_deflate, version_zstd,
  padding_lfh_filename, padding_lfh_filename_len, padding_lfh_min_size,
}
use burst.Zip.Fields.{dos_time, dos_date, build_burst_eocd_comment}
use burst.Sink.{Env, Outcome, ok, failed, ◌>>=◌, Sink, burst_writer_write, count_padding}

-- `write_local_header`. A `uint16_t` field takes the low 16 bits of what is stored in it.
unfoldable pub write_local_header : Env → List ℕ → ℕ → ℕ → ℕ → ℕ → Sink → Outcome Sink
write_local_header env filename compression_method flags last_mod_time last_mod_date s = do
  let version_needed =
      if compression_method == method_zstd
      then version_zstd
      else if compression_method == method_deflate
      then version_deflate
      else version_store
  let header : LocalHeader = record {
    signature = zip_local_file_header_sig;
    version_needed = version_needed;
    flags = flags;
    compression_method = compression_method;
    last_mod_time = last_mod_time;
    last_mod_date = last_mod_date;
    crc32 = 0;
    compressed_size = 0;
    uncompressed_size = 0;
    filename_length = length filename % 2 ^ 16;
    extra_field_length = 0;
  }
  s ← burst_writer_write env (local_header_bytes header) s
  burst_writer_write env (take header.filename_length filename) s

unfoldable pub write_data_descriptor : Env → ℕ → ℕ → ℕ → Bool → Sink → Outcome Sink
write_data_descriptor env crc32 compressed_size uncompressed_size use_zip64 =
    if use_zip64
    then burst_writer_write env (
        data_descriptor_zip64_bytes (record {
          signature = zip_data_descriptor_sig;
          crc32 = crc32;
          compressed_size = compressed_size;
          uncompressed_size = uncompressed_size;
        }))
    else burst_writer_write env (
        data_descriptor_bytes (record {
          signature = zip_data_descriptor_sig;
          crc32 = crc32;
          compressed_size = compressed_size % 2 ^ 32;
          uncompressed_size = uncompressed_size % 2 ^ 32;
        }))

-- `num_files` is `writer->num_files`.
abbrev pub zip64_end_record : ℕ → ℕ → ℕ → Zip64EndCentralDir
zip64_end_record num_files central_dir_start central_dir_size = record {
  signature = zip64_end_central_dir_sig;
  eocd64_size = 56 - 12;
  version_made_by = 3 * 2 ^ 8 + version_zstd;
  version_needed = version_zstd;
  disk_number = 0;
  disk_with_cd = 0;
  num_entries_this_disk = num_files;
  num_entries_total = num_files;
  central_dir_size = central_dir_size;
  central_dir_offset = central_dir_start;
}

unfoldable pub write_zip64_end_central_directory : Env → ℕ → ℕ → ℕ → Sink → Outcome Sink
write_zip64_end_central_directory env num_files central_dir_start central_dir_size =
    burst_writer_write env
      (zip64_end_central_dir_bytes (zip64_end_record num_files central_dir_start central_dir_size))

abbrev pub zip64_locator : ℕ → Zip64Locator
zip64_locator eocd64_offset = record {
  signature = zip64_end_central_dir_locator_sig;
  disk_with_eocd64 = 0;
  eocd64_offset = eocd64_offset;
  total_disks = 1;
}

unfoldable pub write_zip64_end_central_directory_locator : Env → ℕ → Sink → Outcome Sink
write_zip64_end_central_directory_locator env eocd64_offset =
    burst_writer_write env (zip64_locator_bytes (zip64_locator eocd64_offset))

abbrev pub end_record : ℕ → ℕ → ℕ → EndCentralDir
end_record num_files central_dir_start central_dir_size =
    let num_entries = if ltb 0xFFFE num_files then 0xFFFF else num_files % 2 ^ 16 in
    record {
      signature = zip_end_central_dir_sig;
      disk_number = 0;
      disk_with_cd = 0;
      num_entries_this_disk = num_entries;
      num_entries_total = num_entries;
      central_dir_size =
          if ltb 0xFFFFFFFE central_dir_size then 0xFFFFFFFF else central_dir_size % 2 ^ 32;
      central_dir_offset =
          if ltb 0xFFFFFFFE central_dir_start then 0xFFFFFFFF else central_dir_start % 2 ^ 32;
      comment_length = 8;
    }

unfoldable pub write_end_central_directory : Env → ℕ → ℕ → ℕ → ℕ → Sink → Outcome Sink
write_end_central_directory env num_files central_dir_start central_dir_size
      first_cdfh_offset_in_tail s =
    do
      s ←
          burst_writer_write env
            (end_central_dir_bytes (end_record num_files central_dir_start central_dir_size)) s
      burst_writer_write env (build_burst_eocd_comment first_cdfh_offset_in_tail) s

-- The header of the padding entry, its extra field filling up to `target_size`.
abbrev pub padding_extra_len : ℕ → ℕ
padding_extra_len target_size = (target_size - 30 - padding_lfh_filename_len) % 2 ^ 16

abbrev pub padding_header : Env → ℕ → LocalHeader
padding_header env target_size = record {
  signature = zip_local_file_header_sig;
  version_needed = version_store;
  flags = 0;
  compression_method = method_store;
  last_mod_time = dos_time (env.localtime env.now);
  last_mod_date = dos_date (env.localtime env.now);
  crc32 = 0;
  compressed_size = 0;
  uncompressed_size = 0;
  filename_length = padding_lfh_filename_len;
  extra_field_length = padding_extra_len target_size;
}

-- The zeros of the extra field, from a buffer that is allocated for them.
unfoldable pub write_padding_extra : Env → ℕ → Sink → Outcome Sink
write_padding_extra env n s =
    if ltb 0 n
    then (if env.alloc n then burst_writer_write env (replicate n 0) s else failed s)
    else ok s

unfoldable pub write_padding_lfh : Env → ℕ → Sink → Outcome Sink
write_padding_lfh env target_size s =
    let written = do
      s ← burst_writer_write env (local_header_bytes (padding_header env target_size)) s
      s ← burst_writer_write env padding_lfh_filename s
      s ← write_padding_extra env (padding_extra_len target_size) s
      ok (count_padding target_size s)
    in if ltb target_size padding_lfh_min_size then failed s else written
