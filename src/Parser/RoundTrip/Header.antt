-- ===== src/Parser/RoundTrip/Header.antt =====
-- `struct zip_central_header`, packed and read.
use burst.Base.{ℕ, ◌^◌, ◌<◌, ◌≡◌, List, ◌++◌}
use burst.Bytes.{u16_le, u32_le}
use burst.Zip.{CentralHeader, central_header_bytes}
use burst.Parser.{read_central_header}

-- Every field is below the width that it is stored in.
pub record InRange (h : CentralHeader) : Type 0 where
  pub signature : h.signature < 2 ^ 32
  pub version_made_by : h.version_made_by < 2 ^ 16
  pub version_needed : h.version_needed < 2 ^ 16
  pub flags : h.flags < 2 ^ 16
  pub compression_method : h.compression_method < 2 ^ 16
  pub last_mod_time : h.last_mod_time < 2 ^ 16
  pub last_mod_date : h.last_mod_date < 2 ^ 16
  pub crc32 : h.crc32 < 2 ^ 32
  pub compressed_size : h.compressed_size < 2 ^ 32
  pub uncompressed_size : h.uncompressed_size < 2 ^ 32
  pub filename_length : h.filename_length < 2 ^ 16
  pub extra_field_length : h.extra_field_length < 2 ^ 16
  pub file_comment_length : h.file_comment_length < 2 ^ 16
  pub disk_number_start : h.disk_number_start < 2 ^ 16
  pub internal_file_attributes : h.internal_file_attributes < 2 ^ 16
  pub external_file_attributes : h.external_file_attributes < 2 ^ 32
  pub local_header_offset : h.local_header_offset < 2 ^ 32

-- Reading a packed central header whose fields are in range gives back the header, whatever follows
-- it.
pub read_central_header-bytes :
    (h : CentralHeader) (rest : List ℕ)
    → InRange h
    → read_central_header (central_header_bytes h ++ rest) ≡ h
unfolding read_central_header
read_central_header-bytes h rest r = λ i. record {
  signature = u32_le h.signature r.signature i;
  version_made_by = u16_le h.version_made_by r.version_made_by i;
  version_needed = u16_le h.version_needed r.version_needed i;
  flags = u16_le h.flags r.flags i;
  compression_method = u16_le h.compression_method r.compression_method i;
  last_mod_time = u16_le h.last_mod_time r.last_mod_time i;
  last_mod_date = u16_le h.last_mod_date r.last_mod_date i;
  crc32 = u32_le h.crc32 r.crc32 i;
  compressed_size = u32_le h.compressed_size r.compressed_size i;
  uncompressed_size = u32_le h.uncompressed_size r.uncompressed_size i;
  filename_length = u16_le h.filename_length r.filename_length i;
  extra_field_length = u16_le h.extra_field_length r.extra_field_length i;
  file_comment_length = u16_le h.file_comment_length r.file_comment_length i;
  disk_number_start = u16_le h.disk_number_start r.disk_number_start i;
  internal_file_attributes = u16_le h.internal_file_attributes r.internal_file_attributes i;
  external_file_attributes = u32_le h.external_file_attributes r.external_file_attributes i;
  local_header_offset = u32_le h.local_header_offset r.local_header_offset i;
}
