-- ===== src/Writer/AddFile.antt =====
-- `burst_writer_add_file` of src/writer/burst_writer.c and `compress_chunk` of compression.c.
-- The functions below are the parts of the one C function, in its order.
pub mod Frames
pub mod Layout
use burst.Base.{
  ℕ, zero, suc, ◌+◌, ◌-◌, ◌*◌, ◌/◌, ◌%◌, ◌^◌, ◌≤◌, ◌<◌, ◌≡◌, refl, sym, ap, ◌∙◌, ◌≢◌, ◌⊎◌, inl, inr,
  Bool, true, false, not, ◌&&◌, ◌||◌, Option, none, some, List, [], ◌∷◌, ◌++◌, map, append_assoc,
  append-nil, arith, ltb, leb, ◌==◌, if◌then◌else◌, Bool-cases, Option-cases, le_of_leb,
  lt_of_leb-false, lt_of_ltb, le_of_ltb-false, ltb_of_lt, ltb-false_of_le, leb_of_le, eq_of_==,
  ==_of_eq, length, get_or, get_elem?, take, drop, replicate, All, length-append, take-append-drop,
  length-take, length-drop, length-replicate, take-append, drop-append, get_or-append, length-map,
}
use Prim.Native.Nat.{bit_and}
use burst.Sink.{
  Tm, Env, Outcome, ok, failed, ◌>>=◌, or_fail, Sink, buffer_used, burst_writer_flush, to_copy,
  copied, copy_chunk, write_loop, burst_writer_write, count_padding, alignment_get_write_position,
}
use burst.Alignment.{
  AlignmentAction, write_frame, pad_then_frame, pad_then_metadata, write_frame_then_metadata,
  AlignmentDecision, alignment_next_boundary, space_until, space_required, alignment_decide,
  write_padding_zeros, alignment_write_padding_frame, alignment_write_start_of_part_frame,
}
use burst.Zip.{flag_data_descriptor, padding_lfh_min_size, min_skippable_frame_size}
use burst.Zip.Fields.{over_32, get_data_descriptor_size}
use burst.Zip.Records.{write_data_descriptor}
use burst.Writer.{
  FileEntry, BurstWriter, num_files, sizeof_burst_writer, sizeof_file_entry, initial_files_capacity,
  write_buffer_size, burst_writer_create, in_sink, ensure_file_capacity, Lfh, lfh_bytes, c_string,
  allocate_file_entry, populate_entry_metadata, header_space_needed, check_alignment_and_pad,
  add_entry,
}

-- The open input file: whether it can be sought, what each `fread` returns with the `feof` after it,
-- and `ferror` at the end.
pub record InputFile : Type 0 where
  pub seekable : Bool
  pub reads : List (List ℕ × Bool)
  pub read_error : Bool

-- ZSTD_CHUNK_SIZE
abbrev pub chunk_size : ℕ
chunk_size = 128 * 1024

-- The variables of the loop.
pub record Progress : Type 0 where
  pub sink : Sink
  pub crc : ℕ
  pub total_uncompressed : ℕ

abbrev pub progress_sink : Progress → Outcome Sink → Outcome Progress
progress_sink p (ok s) = ok (record p { sink = s })
progress_sink p (failed s) = failed (record p { sink = s })

-- `none` is `result.error`.
unfoldable pub compress_chunk : Env → List ℕ → ℕ → Option (List ℕ)
compress_chunk env input compression_level = env.compress compression_level input

-- The alignment actions before and after the frame. `before` and `after` are the uncompressed
-- offsets where the chunk starts and ends.
unfoldable pub pad_before_frame : Env → AlignmentAction → ℕ → ℕ → Sink → Outcome Sink
pad_before_frame env pad_then_frame padding before s = alignment_write_padding_frame env padding s
pad_before_frame env pad_then_metadata padding before s = do
  s ← alignment_write_padding_frame env padding s
  alignment_write_start_of_part_frame env before s
pad_before_frame env write_frame padding before s = ok s
pad_before_frame env write_frame_then_metadata padding before s = ok s

unfoldable pub metadata_after_frame : Env → AlignmentAction → ℕ → Sink → Outcome Sink
metadata_after_frame env write_frame_then_metadata after s =
    alignment_write_start_of_part_frame env after s
metadata_after_frame env write_frame after s = ok s
metadata_after_frame env pad_then_frame after s = ok s
metadata_after_frame env pad_then_metadata after s = ok s

unfoldable pub write_aligned_frame : Env → List ℕ → Bool → ℕ → ℕ → Sink → Outcome Sink
write_aligned_frame env frame at_eof before after s = do
  let decision = alignment_decide (alignment_get_write_position s) (length frame) at_eof
  s ← pad_before_frame env decision.action decision.padding_size before s
  s ← burst_writer_write env frame s
  metadata_after_frame env decision.action after s

-- The body of the loop, for a chunk that `fread` returned.
unfoldable pub write_chunk : Env → ℕ → List ℕ → Bool → Progress → Outcome Progress
write_chunk env compression_level chunk eof p =
    let total = (p.total_uncompressed + length chunk) % 2 ^ 64 in
    let p' : Progress = record p { crc = env.crc32 p.crc chunk; total_uncompressed = total } in
    let at_eof = ltb (length chunk) chunk_size || eof in
    let before = (total + 2 ^ 64 - length chunk) % 2 ^ 64 in
    or_fail (compress_chunk env chunk compression_level) p'
      λ frame. progress_sink p' (write_aligned_frame env frame at_eof before total p.sink)

-- `while ((bytes_read = fread(...)) > 0)`
unfoldable pub compress_loop : Env → ℕ → List (List ℕ × Bool) → Progress → Outcome Progress
compress_loop env level [] p = ok p
compress_loop env level ((chunk, eof) ∷ reads) p = elim (length chunk == 0) [
  | true ↦ ok p
  | false ↦ write_chunk env level chunk eof p >>= compress_loop env level reads
]

-- The padding before the data descriptor, where that and a padding entry would not fit.
unfoldable pub pad_before_descriptor : Env → ℕ → ℕ → ℕ → Sink → Outcome Sink
pad_before_descriptor env compressed_size uncompressed_size total_uncompressed s =
    let space_until_boundary = space_until (alignment_get_write_position s) in
    let space_needed =
      get_data_descriptor_size compressed_size uncompressed_size + padding_lfh_min_size in
    let padded = do
      s ← alignment_write_padding_frame env ((space_until_boundary + 2 ^ 64 - 8) % 2 ^ 64) s
      alignment_write_start_of_part_frame env total_uncompressed s
    in if ltb space_until_boundary (space_needed + min_skippable_frame_size) then padded else ok s

-- The entry gets its sizes from where the frames ended.
unfoldable pub sized_entry : FileEntry → Progress → FileEntry
sized_entry entry p =
    let total_compressed =
      (alignment_get_write_position p.sink + 2 ^ 64 - entry.compressed_start_offset) % 2 ^ 64 in
    record entry {
      compressed_size = total_compressed;
      uncompressed_size = p.total_uncompressed;
      crc32 = p.crc;
      used_zip64_descriptor = over_32 total_compressed || over_32 p.total_uncompressed;
    }

-- From the end of the loop to the data descriptor.
unfoldable pub finish_file : Env → FileEntry → Progress → Sink → Outcome Sink
finish_file env entry p s = do
  s ← pad_before_descriptor env entry.compressed_size entry.uncompressed_size p.total_uncompressed s
  write_data_descriptor env entry.crc32 entry.compressed_size entry.uncompressed_size
      entry.used_zip64_descriptor s

-- What follows the loop, with its outcome; `entry'` is the entry with its sizes.
unfoldable pub after_loop :
    Env → InputFile → FileEntry → BurstWriter → Outcome Progress → Outcome BurstWriter
after_loop env input entry w (failed p) = failed (record w { sink = p.sink })
after_loop env input entry w (ok p) =
    let entry' = sized_entry entry p in
    let w' : BurstWriter = record w { sink = p.sink } in
    let done = in_sink w' (finish_file env entry' p p.sink) >>= λ w. ok (add_entry entry' w) in
    if input.read_error then failed w' else done

-- The data of a file that has some: all frames and the descriptor.
unfoldable pub write_file_data : Env → InputFile → FileEntry → BurstWriter → Outcome BurstWriter
write_file_data env input entry w = after_loop env input entry w (
    compress_loop env w.compression_level input.reads
      (record { sink = w.sink; crc = 0; total_uncompressed = 0 }))

abbrev pub is_header_only : Lfh → Bool
is_header_only lfh = bit_and lfh.header.flags flag_data_descriptor == 0

-- What follows the local header: the two buffers, then nothing, or the data.
unfoldable pub write_content : Env → InputFile → Lfh → FileEntry → BurstWriter → Outcome BurstWriter
write_content env input lfh entry w =
    if not (env.alloc chunk_size && env.alloc (env.compress_bound chunk_size))
    then failed w
    else if is_header_only lfh
    then ok (add_entry entry w)
    else write_file_data env input entry w

unfoldable pub add_file_entry :
    Env → InputFile → Lfh → ℕ → ℕ → ℕ → ℕ → FileEntry → BurstWriter → Outcome BurstWriter
add_file_entry env input lfh lfh_len unix_mode uid gid entry w = do
  w ← in_sink w (check_alignment_and_pad env lfh_len 0 true w.sink)
  let entry =
      populate_entry_metadata lfh.header (alignment_get_write_position w.sink) unix_mode uid gid
        entry
  w ← in_sink w (burst_writer_write env (lfh_bytes lfh lfh_len) w.sink)
  let entry = record entry {
    compressed_start_offset = alignment_get_write_position w.sink;
    uncompressed_start_offset = 0;
  }
  write_content env input lfh entry w

unfoldable pub burst_writer_add_file :
    Env → InputFile → Lfh → ℕ → ℕ → ℕ → ℕ → BurstWriter → Outcome BurstWriter
burst_writer_add_file env input lfh lfh_len unix_mode uid gid w =
    let rest = do
      w ← ensure_file_capacity env w
      or_fail (allocate_file_entry env lfh) w
          λ entry. add_file_entry env input lfh lfh_len unix_mode uid gid entry w
    in if lfh_len == 0 || (not (is_header_only lfh) && not input.seekable) then failed w else rest
