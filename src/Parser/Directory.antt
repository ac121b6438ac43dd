-- ===== src/Parser/Directory.antt =====
-- `parse_central_directory` of src/downloader/central_dir_parser.c.
use burst.Base.{
  ℕ, zero, suc, ◌+◌, ◌-◌, ◌*◌, ◌/◌, ◌%◌, ◌^◌, Bool, false, not, ◌&&◌, ◌||◌, List, [], ◌∷◌, ltb,
  ◌==◌, if◌then◌else◌, length, take, drop,
}
use Prim.Native.Nat.{bit_and}
use burst.Zip.{CentralHeader, zip_central_dir_header_sig}
use burst.Parser.{
  ParseError, truncated, invalid_signature, memory, Parsed, parsed, error, ◌>>=◌, FileMetadata,
  read_central_header,
}
use burst.Parser.Extra.{
  UnixExtra, parse_unix_extra_field, Zip64Extra, is_marker, parse_zip64_extra_field,
}

-- S_IFMT and S_IFLNK of <sys/stat.h>
abbrev pub s_ifmt : ℕ
s_ifmt = 0o170000

abbrev pub s_iflnk : ℕ
s_iflnk = 0o120000

abbrev pub is_unix : CentralHeader → Bool
is_unix header = header.version_made_by / 2 ^ 8 % 2 ^ 8 == 3

abbrev pub mode_of : CentralHeader → ℕ
mode_of header = if is_unix header then header.external_file_attributes / 2 ^ 16 else 0

-- The values of the extra fields; with an empty extra field the initial ones stay.
abbrev pub unix_of : List ℕ → UnixExtra
unix_of [] = record { found = false; uid = 0; gid = 0 }
unix_of (b ∷ bs) = parse_unix_extra_field (b ∷ bs) 0 0

abbrev pub zip64_of : List ℕ → CentralHeader → Zip64Extra
zip64_of [] header = record {
  found = false;
  compressed_size = header.compressed_size;
  uncompressed_size = header.uncompressed_size;
  local_header_offset = header.local_header_offset;
}
zip64_of (b ∷ bs) header =
    parse_zip64_extra_field (b ∷ bs) header header.compressed_size header.uncompressed_size
      header.local_header_offset

-- The entry of one header, from the bytes behind the fixed part.
unfoldable pub file_metadata_of : CentralHeader → List ℕ → ℕ → FileMetadata
file_metadata_of header ptr part_size =
    let extra = take header.extra_field_length (drop header.filename_length ptr) in
    let unix = unix_of extra in
    let zip64 = zip64_of extra header in
    record {
      filename = take header.filename_length ptr;
      local_header_offset = zip64.local_header_offset;
      compressed_size = zip64.compressed_size;
      uncompressed_size = zip64.uncompressed_size;
      crc32 = header.crc32;
      compression_method = header.compression_method;
      part_index = zip64.local_header_offset / part_size % 2 ^ 32;
      unix_mode = mode_of header;
      uid = unix.uid;
      gid = unix.gid;
      has_unix_mode = is_unix header;
      has_unix_extra = unix.found;
      is_symlink = is_unix header && bit_and (mode_of header) s_ifmt == s_iflnk;
      uses_zip64_descriptor =
          ltb 0 header.extra_field_length
          && (is_marker header.compressed_size || is_marker header.uncompressed_size);
    }

abbrev pub variable_len : CentralHeader → ℕ
variable_len header =
    header.filename_length + header.extra_field_length + header.file_comment_length

-- What the loop does at a place where no header stands: it stops, or fails at the first entry.
abbrev pub stop_or : ℕ → ParseError → Parsed (List FileMetadata)
stop_or actual_entries e = if ltb 0 actual_entries then parsed [] else error e

-- `for (i = 0; i < num_entries; i++)`: the first argument is the number of rounds left, `ptr` the
-- bytes up to `cd_end`, and the result the entries from here on.
unfoldable pub parse_entries : (ℕ → Bool) → ℕ → List ℕ → ℕ → ℕ → Parsed (List FileMetadata)
parse_entries alloc zero ptr part_size actual_entries = parsed []
parse_entries alloc (suc n) ptr part_size actual_entries =
    let header = read_central_header ptr in
    let body = drop 46 ptr in
    let rest = do
      files ← parse_entries alloc n (drop (variable_len header) body) part_size (actual_entries + 1)
      parsed (file_metadata_of header body part_size ∷ files)
    in if length ptr == 0
      then parsed []
      else if ltb (length ptr) 46
      then stop_or actual_entries truncated
      else if not (header.signature == zip_central_dir_header_sig)
      then stop_or actual_entries invalid_signature
      else if ltb (length body) (variable_len header)
      then error truncated
      else if alloc (header.filename_length + 1)
      then rest
      else error memory

-- `sizeof(struct file_metadata)`
abbrev pub sizeof_file_metadata : ℕ
sizeof_file_metadata = 64

unfoldable pub parse_central_directory :
    (ℕ → Bool) → List ℕ → ℕ → ℕ → ℕ → ℕ → ℕ → Parsed (List FileMetadata)
parse_central_directory alloc buffer cd_offset buffer_offset num_entries cd_size part_size =
    let cd_start_in_buffer = cd_offset - buffer_offset in
    if ltb cd_offset buffer_offset
    then error truncated
    else if ltb (length buffer) ((cd_start_in_buffer + cd_size) % 2 ^ 64)
    then error truncated
    else if alloc (num_entries * sizeof_file_metadata)
    then parse_entries alloc num_entries (take cd_size (drop cd_start_in_buffer buffer)) part_size 0
    else error memory
