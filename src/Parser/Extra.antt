-- ===== src/Parser/Extra.antt =====
-- `parse_unix_extra_field` and `parse_zip64_extra_field` of src/downloader/central_dir_parser.c.
-- Each walks the extra fields; what it has stored through its pointers stays stored also when it
-- returns false.
use burst.Base.{
  ℕ, zero, suc, ◌+◌, ◌*◌, ◌^◌, Bool, true, false, not, ◌||◌, List, ltb, ◌==◌, if◌then◌else◌, length,
  take, drop,
}
use burst.Bytes.{byte_at, u16_at, u64_at}
use burst.Zip.{CentralHeader}

pub record UnixExtra : Type 0 where
  pub found : Bool
  pub uid : ℕ
  pub gid : ℕ

-- `for (i = 0; i < size && i < 4; i++) *id |= byte << (i * 8)`: the bytes are at distinct places of
-- the result, so that OR is the sum.
abbrev pub read_id : ℕ → List ℕ → ℕ
read_id size b =
    (if ltb 0 size then byte_at b 0 else 0)
    + (if ltb 1 size then 2 ^ 8 * byte_at b 1 else 0)
    + (if ltb 2 size then 2 ^ 16 * byte_at b 2 else 0)
    + (if ltb 3 size then 2 ^ 24 * byte_at b 3 else 0)

-- The field 0x7875: `ptr` stands behind its header.
unfoldable pub parse_unix_data : ℕ → List ℕ → ℕ → ℕ → UnixExtra
parse_unix_data data_size ptr uid gid =
    let uid_size = byte_at ptr 1 in
    let uid' = read_id uid_size (drop 2 ptr) in
    let gid_size = byte_at ptr (2 + uid_size) in
    if ltb (length ptr) data_size || ltb data_size 3
    then record { found = false; uid = uid; gid = gid }
    else if not (byte_at ptr 0 == 1)
    then record { found = false; uid = uid; gid = gid }
    else if ltb (length ptr) (2 + uid_size + 1)
    then record { found = false; uid = uid; gid = gid }
    else if ltb (length ptr) (2 + uid_size + 1 + gid_size)
    then record { found = false; uid = uid'; gid = gid }
    else record { found = true; uid = uid'; gid = read_id gid_size (drop (3 + uid_size) ptr) }

-- `while (ptr + 4 <= end)`, each round of which takes four bytes or more.
unfoldable pub unix_extra_loop : ℕ → List ℕ → ℕ → ℕ → UnixExtra
unix_extra_loop zero ptr uid gid = record { found = false; uid = uid; gid = gid }
unix_extra_loop (suc fuel) ptr uid gid =
    let header_id = u16_at ptr 0 in
    let data_size = u16_at ptr 2 in
    let data_ptr = drop 4 ptr in
    let next = unix_extra_loop fuel (drop data_size data_ptr) uid gid in
    let not_found : UnixExtra = record { found = false; uid = uid; gid = gid } in
    if ltb (length ptr) 4
    then not_found
    else if header_id == 0x7875
    then parse_unix_data data_size data_ptr uid gid
    else if ltb (length data_ptr) data_size
    then not_found
    else next

unfoldable pub parse_unix_extra_field : List ℕ → ℕ → ℕ → UnixExtra
parse_unix_extra_field extra_field uid gid =
    unix_extra_loop (length extra_field) extra_field uid gid

pub record Zip64Extra : Type 0 where
  pub found : Bool
  pub compressed_size : ℕ
  pub uncompressed_size : ℕ
  pub local_header_offset : ℕ

-- `header->field == 0xFFFFFFFF`
abbrev pub is_marker : ℕ → Bool
is_marker x = x == 0xFFFFFFFF

-- The three values of the field 0x0001, from its data, in their order.
unfoldable pub parse_zip64_offset : CentralHeader → List ℕ → Zip64Extra → Zip64Extra
parse_zip64_offset header b z =
    if not (is_marker header.local_header_offset)
    then record z { found = true }
    else if ltb (length b) 8
    then record z { found = false }
    else record z { found = true; local_header_offset = u64_at b 0 }

unfoldable pub parse_zip64_compressed : CentralHeader → List ℕ → Zip64Extra → Zip64Extra
parse_zip64_compressed header b z =
    if not (is_marker header.compressed_size)
    then parse_zip64_offset header b z
    else if ltb (length b) 8
    then record z { found = false }
    else parse_zip64_offset header (drop 8 b) (record z { compressed_size = u64_at b 0 })

unfoldable pub parse_zip64_data : CentralHeader → List ℕ → Zip64Extra → Zip64Extra
parse_zip64_data header b z =
    if not (is_marker header.uncompressed_size)
    then parse_zip64_compressed header b z
    else if ltb (length b) 8
    then record z { found = false }
    else parse_zip64_compressed header (drop 8 b) (record z { uncompressed_size = u64_at b 0 })

unfoldable pub zip64_extra_loop : ℕ → List ℕ → CentralHeader → Zip64Extra → Zip64Extra
zip64_extra_loop zero ptr header z = record z { found = false }
zip64_extra_loop (suc fuel) ptr header z =
    let header_id = u16_at ptr 0 in
    let data_size = u16_at ptr 2 in
    let data_ptr = drop 4 ptr in
    let next = zip64_extra_loop fuel (drop data_size data_ptr) header z in
    if ltb (length ptr) 4
    then record z { found = false }
    else if header_id == 0x0001
    then (if ltb (length data_ptr) data_size
        then record z { found = false }
        else parse_zip64_data header (take data_size data_ptr) z)
    else if ltb (length data_ptr) data_size
    then record z { found = false }
    else next

unfoldable pub parse_zip64_extra_field : List ℕ → CentralHeader → ℕ → ℕ → ℕ → Zip64Extra
parse_zip64_extra_field extra_field header compressed_size uncompressed_size local_header_offset =
    zip64_extra_loop (length extra_field) extra_field header (record {
      found = false;
      compressed_size = compressed_size;
      uncompressed_size = uncompressed_size;
      local_header_offset = local_header_offset;
    })
