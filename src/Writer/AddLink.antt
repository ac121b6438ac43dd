-- ===== src/Writer/AddLink.antt =====
-- `burst_writer_add_symlink` and `burst_writer_add_directory` of src/writer/burst_writer.c.
pub mod Layout
use burst.Base.{
  ℕ, zero, suc, ◌+◌, ◌-◌, ◌*◌, ◌/◌, ◌%◌, ◌^◌, ◌≤◌, ◌<◌, ◌≡◌, refl, sym, ap, ◌∙◌, ◌≢◌, ◌⊎◌, inl, inr,
  Bool, true, false, not, ◌&&◌, ◌||◌, Option, none, some, List, [], ◌∷◌, ◌++◌, map, append_assoc,
  append-nil, arith, ltb, leb, ◌==◌, if◌then◌else◌, Bool-cases, Option-cases, le_of_leb,
  lt_of_leb-false, lt_of_ltb, le_of_ltb-false, ltb_of_lt, ltb-false_of_le, leb_of_le, eq_of_==,
  ==_of_eq, length, get_or, get_elem?, take, drop, replicate, All, length-append, take-append-drop,
  length-take, length-drop, length-replicate, take-append, drop-append, get_or-append, length-map,
}
use burst.Sink.{
  Tm, Env, Outcome, ok, failed, ◌>>=◌, or_fail, Sink, buffer_used, burst_writer_flush, to_copy,
  copied, copy_chunk, write_loop, burst_writer_write, count_padding, alignment_get_write_position,
}
use burst.Alignment.{
  AlignmentAction, write_frame, pad_then_frame, pad_then_metadata, write_frame_then_metadata,
  AlignmentDecision, alignment_next_boundary, space_until, space_required, alignment_decide,
  write_padding_zeros, alignment_write_padding_frame, alignment_write_start_of_part_frame,
}
use burst.Zip.{method_store}
use burst.Writer.{
  FileEntry, BurstWriter, num_files, sizeof_burst_writer, sizeof_file_entry, initial_files_capacity,
  write_buffer_size, burst_writer_create, in_sink, ensure_file_capacity, Lfh, lfh_bytes, c_string,
  allocate_file_entry, populate_entry_metadata, header_space_needed, check_alignment_and_pad,
  add_entry,
}

-- The steps after the entry of a symlink is allocated.
unfoldable pub add_symlink_entry :
    Env → Lfh → ℕ → List ℕ → ℕ → ℕ → ℕ → FileEntry → BurstWriter → Outcome BurstWriter
add_symlink_entry env lfh lfh_len target unix_mode uid gid entry w = do
  w ← in_sink w (check_alignment_and_pad env lfh_len (length target) false w.sink)
  let entry =
      populate_entry_metadata lfh.header (alignment_get_write_position w.sink) unix_mode uid gid
        entry
  let entry = record entry {
    crc32 = lfh.header.crc32;
    compressed_size = length target;
    uncompressed_size = length target;
    used_zip64_descriptor = false;
  }
  w ← in_sink w (burst_writer_write env (lfh_bytes lfh lfh_len) w.sink)
  w ← in_sink w (burst_writer_write env target w.sink)
  ok (add_entry entry w)

unfoldable pub burst_writer_add_symlink :
    Env → Lfh → ℕ → List ℕ → ℕ → ℕ → ℕ → BurstWriter → Outcome BurstWriter
burst_writer_add_symlink env lfh lfh_len target unix_mode uid gid w =
    let rest = do
      w ← ensure_file_capacity env w
      or_fail (allocate_file_entry env lfh) w
          λ entry. add_symlink_entry env lfh lfh_len target unix_mode uid gid entry w
    in if lfh_len == 0 || length target == 0 then failed w else rest

-- The file name ends with '/', and the header has the STORE method and zero sizes.
unfoldable pub is_directory_header : Lfh → Bool
is_directory_header lfh =
    not (lfh.header.filename_length == 0)
    && ((get_or lfh.tail (lfh.header.filename_length - 1) 0 == b'/')
        && (lfh.header.compression_method == method_store
            && (lfh.header.compressed_size == 0 && lfh.header.uncompressed_size == 0)))

unfoldable pub add_directory_entry :
    Env → Lfh → ℕ → ℕ → ℕ → ℕ → FileEntry → BurstWriter → Outcome BurstWriter
add_directory_entry env lfh lfh_len unix_mode uid gid entry w = do
  w ← in_sink w (check_alignment_and_pad env lfh_len 0 false w.sink)
  let entry =
      populate_entry_metadata lfh.header (alignment_get_write_position w.sink) unix_mode uid gid
        entry
  let entry = record entry {
    crc32 = 0;
    compressed_size = 0;
    uncompressed_size = 0;
    used_zip64_descriptor = false;
  }
  w ← in_sink w (burst_writer_write env (lfh_bytes lfh lfh_len) w.sink)
  ok (record w { files = w.files ++ (entry ∷ []) })

unfoldable pub burst_writer_add_directory :
    Env → Lfh → ℕ → ℕ → ℕ → ℕ → BurstWriter → Outcome BurstWriter
burst_writer_add_directory env lfh lfh_len unix_mode uid gid w =
    let rest = do
      w ← ensure_file_capacity env w
      or_fail (allocate_file_entry env lfh) w
          λ entry. add_directory_entry env lfh lfh_len unix_mode uid gid entry w
    in if lfh_len == 0 then failed w else if is_directory_header lfh then rest else failed w
