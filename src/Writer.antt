-- ===== src/Writer.antt =====
-- `struct burst_writer` and `struct file_entry` (include/burst_writer.h), and the helpers of
-- src/writer/burst_writer.c that its add functions share.
pub mod Steps
pub mod AddFile
pub mod AddLink
pub mod Session
pub mod CentralDirectory
pub mod Finalize
use burst.Base.{
  ℕ, zero, suc, ◌+◌, ◌-◌, ◌*◌, ◌/◌, ◌%◌, ◌^◌, ◌≤◌, ◌<◌, ◌≡◌, refl, sym, ap, ◌∙◌, ◌≢◌, ◌⊎◌, inl, inr,
  Bool, true, false, not, ◌&&◌, ◌||◌, Option, none, some, List, [], ◌∷◌, ◌++◌, map, append_assoc,
  append-nil, arith, ltb, leb, ◌==◌, if◌then◌else◌, Bool-cases, Option-cases, le_of_leb,
  lt_of_leb-false, lt_of_ltb, le_of_ltb-false, ltb_of_lt, ltb-false_of_le, leb_of_le, eq_of_==,
  ==_of_eq, length, get_or, get_elem?, take, drop, replicate, All, length-append, take-append-drop,
  length-take, length-drop, length-replicate, take-append, drop-append, get_or-append, length-map,
}
use burst.Sink.{
  Tm, Env, Outcome, ok, failed, ◌>>=◌, Sink, buffer_used, burst_writer_flush, to_copy, copied,
  copy_chunk, write_loop, burst_writer_write, count_padding, alignment_get_write_position,
}
use burst.Alignment.{
  AlignmentAction, write_frame, pad_then_frame, pad_then_metadata, write_frame_then_metadata,
  AlignmentDecision, alignment_next_boundary, space_until, space_required, alignment_decide,
  write_padding_zeros, alignment_write_padding_frame, alignment_write_start_of_part_frame,
}
use burst.Zip.{LocalHeader, local_header_bytes, padding_lfh_min_size}
use burst.Zip.Records.{write_padding_lfh}

pub record FileEntry : Type 0 where
  pub filename : List ℕ
  pub local_header_offset : ℕ
  pub compressed_start_offset : ℕ
  pub uncompressed_start_offset : ℕ
  pub compressed_size : ℕ
  pub uncompressed_size : ℕ
  pub crc32 : ℕ
  pub compression_method : ℕ
  pub version_needed : ℕ
  pub general_purpose_flags : ℕ
  pub last_mod_time : ℕ
  pub last_mod_date : ℕ
  pub unix_mode : ℕ
  pub uid : ℕ
  pub gid : ℕ
  pub used_zip64_descriptor : Bool

-- `files` is the list of the first `num_files` elements of the array; the fields that a write
-- changes are those of `sink`.
pub record BurstWriter : Type 0 where
  pub sink : Sink
  pub compression_level : ℕ
  pub files : List FileEntry
  pub files_capacity : ℕ
  pub total_uncompressed : ℕ
  pub total_compressed : ℕ

abbrev pub num_files : BurstWriter → ℕ
num_files w = length w.files

-- `sizeof` of the two structs on a 64-bit machine
abbrev pub sizeof_burst_writer : ℕ
sizeof_burst_writer = 112

abbrev pub sizeof_file_entry : ℕ
sizeof_file_entry = 80

abbrev pub initial_files_capacity : ℕ
initial_files_capacity = 16

abbrev pub write_buffer_size : ℕ
write_buffer_size = 64 * 1024

-- `output` is what the FILE holds at the start, or `none` for NULL.
unfoldable pub burst_writer_create : Env → Option (List ℕ) → ℕ → Option BurstWriter
burst_writer_create env none compression_level = none
burst_writer_create env (some output) compression_level =
    if env.alloc sizeof_burst_writer
      && (env.alloc (initial_files_capacity * sizeof_file_entry)
          && (env.alloc write_buffer_size && env.create_cctx))
    then some (record {
      sink = record {
        output = output;
        current_offset = 0;
        write_buffer = [];
        buffer_size = write_buffer_size;
        padding_bytes = 0;
      };
      compression_level = compression_level;
      files = [];
      files_capacity = initial_files_capacity;
      total_uncompressed = 0;
      total_compressed = 0;
    })
    else none

-- A step that only writes.
abbrev pub in_sink : BurstWriter → Outcome Sink → Outcome BurstWriter
in_sink w (ok s) = ok (record w { sink = s })
in_sink w (failed s) = failed (record w { sink = s })

unfoldable pub ensure_file_capacity : Env → BurstWriter → Outcome BurstWriter
ensure_file_capacity env w =
    let new_capacity = w.files_capacity * 2 % 2 ^ 64 in
    if leb w.files_capacity (num_files w)
    then (if env.alloc (new_capacity * sizeof_file_entry % 2 ^ 64)
        then ok (record w { files_capacity = new_capacity })
        else failed w)
    else ok w

-- A local header as the caller hands it over: the struct, and the bytes behind it.
pub record Lfh : Type 0 where
  pub header : LocalHeader
  pub tail : List ℕ

-- The `lfh_len` bytes at `lfh`.
abbrev pub lfh_bytes : Lfh → ℕ → List ℕ
lfh_bytes lfh lfh_len = take lfh_len (local_header_bytes lfh.header ++ lfh.tail)

-- The bytes before the first NUL.
unfoldable pub c_string : List ℕ → List ℕ
c_string [] = []
c_string (b ∷ bs) = if b == 0 then [] else b ∷ c_string bs

-- `memset` and `strndup`: an entry of zeros with the header's file name.
unfoldable pub allocate_file_entry : Env → Lfh → Option FileEntry
allocate_file_entry env lfh =
    let filename = c_string (take lfh.header.filename_length lfh.tail) in
    if env.alloc (length filename + 1)
    then some (record {
      filename = filename;
      local_header_offset = 0;
      compressed_start_offset = 0;
      uncompressed_start_offset = 0;
      compressed_size = 0;
      uncompressed_size = 0;
      crc32 = 0;
      compression_method = 0;
      version_needed = 0;
      general_purpose_flags = 0;
      last_mod_time = 0;
      last_mod_date = 0;
      unix_mode = 0;
      uid = 0;
      gid = 0;
      used_zip64_descriptor = false;
    })
    else none

unfoldable pub populate_entry_metadata : LocalHeader → ℕ → ℕ → ℕ → ℕ → FileEntry → FileEntry
populate_entry_metadata header local_header_offset unix_mode uid gid entry = record entry {
  local_header_offset = local_header_offset;
  compression_method = header.compression_method;
  version_needed = header.version_needed;
  general_purpose_flags = header.flags;
  last_mod_time = header.last_mod_time;
  last_mod_date = header.last_mod_date;
  unix_mode = unix_mode;
  uid = uid;
  gid = gid;
}

-- A data descriptor is taken at its ZIP64 size, 24 bytes.
abbrev pub header_space_needed : ℕ → ℕ → Bool → ℕ
header_space_needed lfh_len content_size has_data_descriptor =
    (lfh_len + content_size + padding_lfh_min_size + (if has_data_descriptor then 24 else 0))
    % 2 ^ 64

unfoldable pub check_alignment_and_pad : Env → ℕ → ℕ → Bool → Sink → Outcome Sink
check_alignment_and_pad env lfh_len content_size has_data_descriptor s =
    let space_until_boundary = space_until (alignment_get_write_position s) in
    if ltb space_until_boundary (header_space_needed lfh_len content_size has_data_descriptor)
    then write_padding_lfh env space_until_boundary s
    else ok s

-- The entry joins the array and the totals.
unfoldable pub add_entry : FileEntry → BurstWriter → BurstWriter
add_entry entry w = record w {
  files = w.files ++ (entry ∷ []);
  total_uncompressed = (w.total_uncompressed + entry.uncompressed_size) % 2 ^ 64;
  total_compressed = (w.total_compressed + entry.compressed_size) % 2 ^ 64;
}
