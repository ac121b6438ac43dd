-- ===== src/Zip/Fields.antt =====
-- The helpers of src/writer/zip_structures.c that compute a field or the bytes of one: DOS times,
-- descriptor sizes, the Unix and the ZIP64 extra field, the BURST comment. A mask of the k low bits
-- is the remainder modulo 2 ^ k.
use burst.Base.{
  ℕ, ◌+◌, ◌-◌, ◌*◌, ◌/◌, ◌%◌, ◌^◌, Bool, not, ◌&&◌, ◌||◌, Option, none, some, List, [], ◌∷◌, ◌++◌,
  ltb, if◌then◌else◌,
}
use Prim.Native.Nat.{bit_or}
use burst.Bytes.{le32, le64}
use burst.Zip.{burst_eocd_comment_magic, burst_eocd_comment_version}
use burst.Sink.{Tm}

-- `dos_datetime_from_time_t`: the time and the date of what `localtime` returned. The C operands are
-- `int`s; `tm_year - 80` and `tm_mon + 1` are read modulo 2 ^ 32, which the mask keeps.
unfoldable pub dos_time : Option Tm → ℕ
dos_time none = 0
dos_time (some tm) =
    bit_or (bit_or (tm.tm_hour % 2 ^ 5 * 2 ^ 11) (tm.tm_min % 2 ^ 6 * 2 ^ 5))
      (tm.tm_sec / 2 % 2 ^ 5)

unfoldable pub dos_date : Option Tm → ℕ
dos_date none = bit_or (1 * 2 ^ 5) 1
dos_date (some tm) =
    bit_or (bit_or ((tm.tm_year + 2 ^ 32 - 80) % 2 ^ 7 * 2 ^ 9) ((tm.tm_mon + 1) % 2 ^ 4 * 2 ^ 5))
      (tm.tm_mday % 2 ^ 5)

-- `x > 0xFFFFFFFF`
abbrev pub over_32 : ℕ → Bool
over_32 x = ltb 0xFFFFFFFF x

unfoldable pub get_data_descriptor_size : ℕ → ℕ → ℕ
get_data_descriptor_size compressed_size uncompressed_size =
    if over_32 compressed_size || over_32 uncompressed_size then 24 else 16

-- Byte `k` of an integer, `(x >> (8 * k)) & 0xFF`.
abbrev pub byte : ℕ → ℕ → ℕ
byte x k = x / 2 ^ (8 * k) % 2 ^ 8

-- The bytes put into the buffer; none when the C function returns 0.
unfoldable pub build_unix_extra_field : ℕ → ℕ → ℕ → List ℕ
build_unix_extra_field buffer_size uid gid =
    if ltb buffer_size 15
    then []
    else byte 0x7875 0
      ∷ byte 0x7875 1
      ∷ byte 11 0
      ∷ byte 11 1
      ∷ 1
      ∷ 4
      ∷ byte uid 0
      ∷ byte uid 1
      ∷ byte uid 2
      ∷ byte uid 3
      ∷ 4
      ∷ byte gid 0
      ∷ byte gid 1
      ∷ byte gid 2
      ∷ byte gid 3
      ∷ []

-- `if (need) size += 8`, and the eight bytes of a field that is included.
abbrev pub needed_size : ℕ → ℕ
needed_size x = if over_32 x then 8 else 0

abbrev pub needed_bytes : ℕ → List ℕ
needed_bytes x = if over_32 x then le64 x else []

unfoldable pub build_zip64_extra_field : ℕ → ℕ → ℕ → ℕ → List ℕ
build_zip64_extra_field buffer_size compressed_size uncompressed_size local_header_offset =
    let data_size =
      needed_size uncompressed_size
      + needed_size compressed_size
      + needed_size local_header_offset in
    if not (over_32 uncompressed_size)
      && (not (over_32 compressed_size) && not (over_32 local_header_offset))
    then []
    else if ltb buffer_size (4 + data_size)
    then []
    else byte 0x0001 0
      ∷ byte 0x0001 1
      ∷ byte data_size 0
      ∷ byte data_size 1
      ∷ (needed_bytes uncompressed_size
          ++ (needed_bytes compressed_size ++ needed_bytes local_header_offset))

-- `build_burst_eocd_comment`: magic, version, and the offset masked to 24 bits.
unfoldable pub build_burst_eocd_comment : ℕ → List ℕ
build_burst_eocd_comment first_cdfh_offset_in_tail =
    let offset_24 = first_cdfh_offset_in_tail % 2 ^ 24 in
    le32 burst_eocd_comment_magic
    ++ (burst_eocd_comment_version ∷ byte offset_24 0 ∷ byte offset_24 1 ∷ byte offset_24 2 ∷ [])
