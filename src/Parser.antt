-- ===== src/Parser.antt =====
-- The data of src/downloader/central_dir_parser.c (include/central_dir_parser.h), and how it reads
-- the packed structs. A pointer with its end is the list of the bytes from the one to the other.
pub mod Extra
pub mod Directory
pub mod Eocd
pub mod PartMap
pub mod Whole
pub mod RoundTrip
use burst.Base.{
  ℕ, zero, suc, ◌+◌, ◌-◌, ◌*◌, ◌/◌, ◌%◌, ◌^◌, ◌≤◌, ◌<◌, ◌≡◌, refl, sym, ap, ◌∙◌, ◌≢◌, ◌⊎◌, inl, inr,
  Bool, true, false, not, ◌&&◌, ◌||◌, Option, none, some, List, [], ◌∷◌, ◌++◌, map, append_assoc,
  append-nil, arith, ltb, leb, ◌==◌, if◌then◌else◌, Bool-cases, Option-cases, le_of_leb,
  lt_of_leb-false, lt_of_ltb, le_of_ltb-false, ltb_of_lt, ltb-false_of_le, leb_of_le, eq_of_==,
  ==_of_eq, length, get_or, get_elem?, take, drop, replicate, All, length-append, take-append-drop,
  length-take, length-drop, length-replicate, take-append, drop-append, get_or-append, length-map,
}
use burst.Bytes.{le16, le32, le64, byte_at, u16_at, u32_at, u64_at, u16_le, u32_le, u64_at-le64}
use burst.Zip.{CentralHeader}

-- The error codes, CENTRAL_DIR_PARSE_ERR_*.
pub data ParseError : Type 0 where
  invalid_buffer no_eocd truncated invalid_signature memory : ParseError

pub data Parsed {ℓ} (A : Type ℓ) : Type ℓ where
  parsed : A → Parsed A
  error : ParseError → Parsed A

infixl 5 ◌>>=◌
abbrev pub ◌>>=◌ {ℓ κ} : {A : Type ℓ} {B : Type κ} → Parsed A → (A → Parsed B) → Parsed B
parsed a >>= f = f a
error e >>= f = error e

pub record FileMetadata : Type 0 where
  pub filename : List ℕ
  pub local_header_offset : ℕ
  pub compressed_size : ℕ
  pub uncompressed_size : ℕ
  pub crc32 : ℕ
  pub compression_method : ℕ
  pub part_index : ℕ
  pub unix_mode : ℕ
  pub uid : ℕ
  pub gid : ℕ
  pub has_unix_mode : Bool
  pub has_unix_extra : Bool
  pub is_symlink : Bool
  pub uses_zip64_descriptor : Bool

-- `(const struct zip_central_header *)ptr`
unfoldable pub read_central_header : List ℕ → CentralHeader
read_central_header b = record {
  signature = u32_at b 0;
  version_made_by = u16_at b 4;
  version_needed = u16_at b 6;
  flags = u16_at b 8;
  compression_method = u16_at b 10;
  last_mod_time = u16_at b 12;
  last_mod_date = u16_at b 14;
  crc32 = u32_at b 16;
  compressed_size = u32_at b 20;
  uncompressed_size = u32_at b 24;
  filename_length = u16_at b 28;
  extra_field_length = u16_at b 30;
  file_comment_length = u16_at b 32;
  disk_number_start = u16_at b 34;
  internal_file_attributes = u16_at b 36;
  external_file_attributes = u32_at b 38;
  local_header_offset = u32_at b 42;
}
