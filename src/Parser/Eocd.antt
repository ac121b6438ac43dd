-- ===== src/Parser/Eocd.antt =====
-- The end of the archive: `find_eocd`, `parse_eocd`, `parse_zip64_eocd` and
-- `central_dir_parse_eocd_only` of src/downloader/central_dir_parser.c.
pub mod Archive
use burst.Base.{
  ℕ, zero, suc, ◌+◌, ◌-◌, ◌*◌, ◌%◌, ◌^◌, Bool, true, false, not, ◌&&◌, Option, none, some, List,
  ltb, leb, ◌==◌, if◌then◌else◌, length,
}
use burst.Bytes.{byte_at, u16_at, u32_at, u64_at}
use burst.Zip.{
  zip_end_central_dir_sig, zip64_end_central_dir_sig, zip64_end_central_dir_locator_sig,
  burst_eocd_comment_magic, burst_eocd_comment_version,
}
use burst.Parser.{
  invalid_buffer, no_eocd, truncated, invalid_signature, Parsed, parsed, error, ◌>>=◌,
}

pub record EocdPlace : Type 0 where
  pub eocd_offset : ℕ
  pub is_zip64 : Bool
  pub locator_offset : ℕ

-- `while (search_ptr >= search_end)`, from an offset down to 0.
unfoldable pub search_back : List ℕ → ℕ → Option ℕ
search_back b zero = if u32_at b 0 == zip_end_central_dir_sig then some 0 else none
search_back b (suc i) =
    let rest = search_back b i in
    if u32_at b (suc i) == zip_end_central_dir_sig then some (suc i) else rest

-- The ZIP64 locator is looked for 20 bytes before the EOCD.
unfoldable pub eocd_place : List ℕ → ℕ → EocdPlace
eocd_place b eocd_offset =
    if leb 20 eocd_offset && u32_at b (eocd_offset - 20) == zip64_end_central_dir_locator_sig
    then record { eocd_offset = eocd_offset; is_zip64 = true; locator_offset = eocd_offset - 20 }
    else record { eocd_offset = eocd_offset; is_zip64 = false; locator_offset = 0 }

abbrev pub place_found : List ℕ → Option ℕ → Parsed EocdPlace
place_found b none = error no_eocd
place_found b (some eocd_offset) = parsed (eocd_place b eocd_offset)

unfoldable pub find_eocd : List ℕ → Parsed EocdPlace
find_eocd b =
    if ltb (length b) 22 then error no_eocd else place_found b (search_back b (length b - 22))

-- Where the central directory is. `num_entries` is `none` where the C variable is not set.
pub record CdPlace : Type 0 where
  pub cd_offset : ℕ
  pub num_entries : Option ℕ
  pub cd_size : ℕ

unfoldable pub parse_zip64_eocd : List ℕ → ℕ → Parsed CdPlace
parse_zip64_eocd b eocd64_offset =
    if ltb (length b) ((eocd64_offset + 56) % 2 ^ 64)
    then error truncated
    else if not (u32_at b eocd64_offset == zip64_end_central_dir_sig)
    then error invalid_signature
    else parsed (record {
      cd_offset = u64_at b (eocd64_offset + 48);
      num_entries = some (u64_at b (eocd64_offset + 32));
      cd_size = u64_at b (eocd64_offset + 40);
    })

-- The 32-bit entry count that `parse_eocd` reads is dropped by its caller.
unfoldable pub parse_eocd : List ℕ → ℕ → Parsed CdPlace
parse_eocd b eocd_offset =
    if ltb (length b) (eocd_offset + 22)
    then error truncated
    else if not (u32_at b eocd_offset == zip_end_central_dir_sig)
    then error invalid_signature
    else parsed (record {
      cd_offset = u32_at b (eocd_offset + 16);
      num_entries = none;
      cd_size = u32_at b (eocd_offset + 12);
    })

-- The ZIP64 record through its locator, whose offset is absolute; `archive_size - buffer_size` wraps.
unfoldable pub parse_zip64_place : List ℕ → ℕ → ℕ → Parsed CdPlace
parse_zip64_place b archive_size locator_offset =
    let eocd64_archive_offset = u64_at b (locator_offset + 8) in
    let buffer_offset = (archive_size + 2 ^ 64 - length b) % 2 ^ 64 in
    if ltb (length b) (locator_offset + 20)
    then error truncated
    else if ltb eocd64_archive_offset buffer_offset
    then error truncated
    else parse_zip64_eocd b (eocd64_archive_offset - buffer_offset)

-- The BURST comment behind the EOCD: the offset of the first header in the tail, or 0.
unfoldable pub burst_comment : List ℕ → ℕ → ℕ
burst_comment b eocd_offset =
    let c = eocd_offset + 22 in
    if ltb (u16_at b (eocd_offset + 20)) 8
    then 0
    else if ltb (length b) (c + 8)
    then 0
    else if u32_at b c == burst_eocd_comment_magic
        && byte_at b (c + 4) == burst_eocd_comment_version
    then byte_at b (c + 5) + 2 ^ 8 * byte_at b (c + 6) + 2 ^ 16 * byte_at b (c + 7)
    else 0

-- The outputs of `central_dir_parse_eocd_only`.
pub record EocdInfo : Type 0 where
  pub central_dir_offset : ℕ
  pub central_dir_size : ℕ
  pub num_entries : Option ℕ
  pub is_zip64 : Bool
  pub first_cdfh_offset_in_tail : ℕ

-- The directory must lie within the archive.
unfoldable pub check_extent : List ℕ → ℕ → EocdPlace → CdPlace → Parsed EocdInfo
check_extent b archive_size place cd =
    if leb archive_size cd.cd_offset
    then error truncated
    else if ltb archive_size ((cd.cd_offset + cd.cd_size) % 2 ^ 64)
    then error truncated
    else parsed (record {
      central_dir_offset = cd.cd_offset;
      central_dir_size = cd.cd_size;
      num_entries = cd.num_entries;
      is_zip64 = place.is_zip64;
      first_cdfh_offset_in_tail = burst_comment b place.eocd_offset;
    })

unfoldable pub central_dir_parse_eocd_only : List ℕ → ℕ → Parsed EocdInfo
central_dir_parse_eocd_only b archive_size =
    let found = do
      place ← find_eocd b
      cd ←
          if place.is_zip64
          then parse_zip64_place b archive_size place.locator_offset
          else parse_eocd b place.eocd_offset
      check_extent b archive_size place cd
    in if length b == 0 then error invalid_buffer else found
