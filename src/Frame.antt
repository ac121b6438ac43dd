-- ===== src/Frame.antt =====
-- `parse_next_frame` of src/downloader/frame_parser.c, with `struct frame_info` of
-- include/stream_processor.h, and `calculate_parts_to_download` of
-- src/downloader/parts_calculation.c. The two functions of libzstd are a parameter, the record `Zstd`.
pub mod Written
pub mod Parts
use burst.Base.{
  ℕ, zero, suc, ◌+◌, ◌-◌, ◌*◌, ◌/◌, ◌%◌, ◌^◌, ◌≤◌, ◌<◌, ◌≡◌, refl, sym, ap, ◌∙◌, ◌≢◌, ◌⊎◌, inl, inr,
  Bool, true, false, not, ◌&&◌, ◌||◌, Option, none, some, List, [], ◌∷◌, ◌++◌, map, append_assoc,
  append-nil, arith, ltb, leb, ◌==◌, if◌then◌else◌, Bool-cases, Option-cases, le_of_leb,
  lt_of_leb-false, lt_of_ltb, le_of_ltb-false, ltb_of_lt, ltb-false_of_le, leb_of_le, eq_of_==,
  ==_of_eq, length, get_or, get_elem?, take, drop, replicate, All, length-append, take-append-drop,
  length-take, length-drop, length-replicate, take-append, drop-append, get_or-append, length-map,
}
use burst.Bytes.{le16, le32, le64, byte_at, u16_at, u32_at, u64_at, u16_le, u32_le, u64_at-le64}
use burst.Zip.{
  zip_local_file_header_sig, zip_data_descriptor_sig, zip_central_dir_header_sig,
  zip_end_central_dir_sig, zip64_end_central_dir_sig, zip64_end_central_dir_locator_sig,
  method_store, method_deflate, method_zstd, version_store, version_deflate, version_zstd,
  flag_data_descriptor, burst_eocd_comment_magic, burst_eocd_comment_version, no_cdfh_in_tail,
  part_size, burst_magic_number, min_skippable_frame_size, padding_lfh_filename,
  padding_lfh_filename_len, padding_lfh_min_size, LocalHeader, local_header_bytes, CentralHeader,
  central_header_bytes, DataDescriptor, data_descriptor_bytes, data_descriptor_zip64_bytes,
  EndCentralDir, end_central_dir_bytes, Zip64EndCentralDir, zip64_end_central_dir_bytes,
  Zip64Locator, zip64_locator_bytes,
}

pub data FrameType : Type 0 where
  frame_zstd_compressed frame_burst_padding frame_burst_start_of_part frame_zip_local_header
        frame_zip_data_descriptor frame_zip_central_directory frame_unknown :
      FrameType

pub record FrameInfo : Type 0 where
  pub type : FrameType
  pub frame_size : ℕ
  pub uncompressed_size : ℕ
  pub start_of_part_offset : ℕ

-- STREAM_PROC_SUCCESS, STREAM_PROC_NEED_MORE_DATA and STREAM_PROC_ERR_INVALID_FRAME. What the struct
-- holds after the last two is left out.
pub data FrameResult : Type 0 where
  success : FrameInfo → FrameResult
  need_more_data invalid_frame : FrameResult

-- The answers of `ZSTD_findFrameCompressedSize`: a size, the error code
-- `ZSTD_error_srcSize_wrong`, or another error code.
pub data FrameSizeAnswer : Type 0 where
  size_is : ℕ → FrameSizeAnswer
  src_size_wrong other_error : FrameSizeAnswer

pub record Zstd : Type 0 where
  pub find_frame_compressed_size : List ℕ → FrameSizeAnswer
  -- `ZSTD_getFrameContentSize`; `none` is ZSTD_CONTENTSIZE_ERROR or ZSTD_CONTENTSIZE_UNKNOWN
  pub frame_content_size : List ℕ → Option ℕ

abbrev pub zstd_magic_number : ℕ
zstd_magic_number = 0xFD2FB528

abbrev pub burst_type_start_of_part : ℕ
burst_type_start_of_part = 0x01

-- A frame of which only the size is told.
abbrev pub sized : FrameType → ℕ → FrameResult
sized type size =
    success
      (record { type = type; frame_size = size; uncompressed_size = 0; start_of_part_offset = 0 })

abbrev pub local_header_frame : List ℕ → FrameResult
local_header_frame b =
    if ltb (length b) 30
    then need_more_data
    else sized frame_zip_local_header (30 + u16_at b 26 + u16_at b 28)

-- A frame of compressed data, from the answers of libzstd.
abbrev pub zstd_frame : FrameSizeAnswer → Option ℕ → FrameResult
zstd_frame src_size_wrong content = need_more_data
zstd_frame other_error content = invalid_frame
zstd_frame (size_is n) none = invalid_frame
zstd_frame (size_is n) (some content_size) = success (record {
  type = frame_zstd_compressed;
  frame_size = n;
  uncompressed_size = content_size;
  start_of_part_offset = 0;
})

-- A skippable frame. `8 + payload_size` is reckoned in a uint32_t.
unfoldable pub skippable_frame : List ℕ → FrameResult
skippable_frame b =
    let payload_size = u32_at b 4 in
    let frame_size = (8 + payload_size) % 2 ^ 32 in
    if ltb (length b) 8
    then need_more_data
    else if ltb (length b) frame_size
    then need_more_data
    else if ltb 0 payload_size && (byte_at b 8 == burst_type_start_of_part && payload_size == 16)
    then success (record {
      type = frame_burst_start_of_part;
      frame_size = frame_size;
      uncompressed_size = 0;
      start_of_part_offset = u64_at b 9;
    })
    else sized frame_burst_padding frame_size

unfoldable pub parse_next_frame : Zstd → List ℕ → FrameResult
parse_next_frame zstd b =
    let magic = u32_at b 0 in
    if ltb (length b) 4
    then need_more_data
    else if magic == zip_local_file_header_sig
    then local_header_frame b
    else if magic == zip_data_descriptor_sig
    then sized frame_zip_data_descriptor 16
    else if magic == zip_central_dir_header_sig
    then sized frame_zip_central_directory 0
    else if magic == zstd_magic_number
    then zstd_frame (zstd.find_frame_compressed_size b) (zstd.frame_content_size b)
    else if magic == burst_magic_number
    then skippable_frame b
    else invalid_frame

-- The two outputs of `calculate_parts_to_download`.
pub record PartsPlan : Type 0 where
  pub parts_to_download : ℕ
  pub process_final_from_buffer : Bool

unfoldable pub calculate_parts_to_download : ℕ → ℕ → ℕ → PartsPlan
calculate_parts_to_download num_parts part_size cd_start =
    let final_part_start = (num_parts - 1) * part_size % 2 ^ 64 in
    if num_parts == 0
    then record { parts_to_download = 0; process_final_from_buffer = false }
    else if leb cd_start final_part_start
    then record { parts_to_download = num_parts - 1; process_final_from_buffer = true }
    else record { parts_to_download = num_parts; process_final_from_buffer = false }
