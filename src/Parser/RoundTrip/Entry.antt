-- ===== src/Parser/RoundTrip/Entry.antt =====
-- One entry of the central directory, written and read back.
use burst.Base.{
  ℕ, suc, ◌+◌, ◌*◌, ◌/◌, ◌%◌, ◌^◌, ◌≤◌, ◌<◌, ◌≡◌, refl, sym, ap, ◌∙◌, Bool, true, false, ◌&&◌, ◌||◌,
  List, ◌∷◌, ◌++◌, append_assoc, arith, ltb, ◌==◌, ltb-false_of_le, ==_of_eq, length, take, drop,
  length-append, take-append, drop-append,
}
use mathlib.Core.Path.{ap₂}
use native.Mathlib.Nat.{mod-eq_of_lt}
use Prim.Native.Nat.{bit_and}
use burst.Zip.{CentralHeader, central_header_bytes, zip_central_dir_header_sig}
use burst.Zip.Fields.{over_32}
use burst.Writer.{FileEntry}
use burst.Writer.CentralDirectory.{need_zip64, unix_extra, zip64_extra, central_header}
use burst.Writer.CentralDirectory.Sizes.{cdfh_bytes, IsNamed, length-unix_extra, length-zip64_extra}
use burst.Parser.{parsed, ◌>>=◌, FileMetadata, read_central_header}
use burst.Parser.Extra.{is_marker}
use burst.Parser.Directory.{
  s_ifmt, s_iflnk, unix_of, zip64_of, file_metadata_of, variable_len, parse_entries,
}
use burst.Parser.RoundTrip.Header.{InRange, read_central_header-bytes}
use burst.Parser.RoundTrip.ExtraFields.{
  IsPlain, unix_of-unix_extra, is_marker-field_32, take_all, zip64_of-extra,
}

-- An entry whose values fit the central directory. A size or offset of exactly 0xFFFFFFFF is left
-- out: the writer stores it in the 32-bit field, where it reads as the marker of a ZIP64 value.
pub record IsStorable (entry : FileEntry) : Type 0 where
  pub named : IsNamed entry
  pub offset : IsPlain entry.local_header_offset
  pub compressed : IsPlain entry.compressed_size
  pub uncompressed : IsPlain entry.uncompressed_size
  pub crc : entry.crc32 < 2 ^ 32
  pub method : entry.compression_method < 2 ^ 16
  pub version : entry.version_needed < 2 ^ 16
  pub flags : entry.general_purpose_flags < 2 ^ 16
  pub time : entry.last_mod_time < 2 ^ 16
  pub date : entry.last_mod_date < 2 ^ 16
  pub mode : entry.unix_mode < 2 ^ 16
  pub user : entry.uid < 2 ^ 32
  pub group : entry.gid < 2 ^ 32

-- What the parser is to make of an entry of the writer.
abbrev pub metadata_of : ℕ → FileEntry → FileMetadata
metadata_of part_size entry = record {
  filename = entry.filename;
  local_header_offset = entry.local_header_offset;
  compressed_size = entry.compressed_size;
  uncompressed_size = entry.uncompressed_size;
  crc32 = entry.crc32;
  compression_method = entry.compression_method;
  part_index = entry.local_header_offset / part_size % 2 ^ 32;
  unix_mode = entry.unix_mode;
  uid = entry.uid;
  gid = entry.gid;
  has_unix_mode = true;
  has_unix_extra = true;
  is_symlink = bit_and entry.unix_mode s_ifmt == s_iflnk;
  uses_zip64_descriptor = over_32 entry.compressed_size || over_32 entry.uncompressed_size;
}

central_header-InRange : (entry : FileEntry) → IsStorable entry → InRange (central_header entry)
central_header-InRange entry s = record {
  signature = omega arith;
  version_made_by = omega arith;
  version_needed = s.version;
  flags = s.flags;
  compression_method = s.method;
  last_mod_time = s.time;
  last_mod_date = s.date;
  crc32 = s.crc;
  compressed_size = ground arith;
  uncompressed_size = ground arith;
  filename_length = omega arith;
  extra_field_length = omega arith;
  file_comment_length = omega arith;
  disk_number_start = omega arith;
  internal_file_attributes = omega arith;
  external_file_attributes = omega arith;
  local_header_offset = ground arith;
}

-- The parts behind the fixed header, by their lengths.
split_body :
    (n m : ℕ) (name extra rest : List ℕ)
    → n ≡ length name
    → m ≡ length extra
    → let body = name ++ (extra ++ rest) in
      (take n body ≡ name)
      × (take m (drop n body) ≡ extra)
      × (drop (n + m + 0) body ≡ rest)
      × (n + m + 0 ≤ length body)
split_body n m name extra rest en em = (
  take-append n name (extra ++ rest) en,
  ap (take m) (drop-append n name (extra ++ rest) en) ∙ take-append m extra rest em,
  ap (drop (n + m + 0)) (sym (append_assoc name extra rest))
      ∙ drop-append (n + m + 0) (name ++ extra) rest (omega (arith, length-append name extra)),
  omega (arith, length-append name (extra ++ rest), length-append extra rest),
)

file_metadata_of_lem :
    (entry : FileEntry) (body : List ℕ) (part_size : ℕ)
    → IsStorable entry
    → take (central_header entry).filename_length body ≡ entry.filename
    → take
        (central_header entry).extra_field_length
        (drop (central_header entry).filename_length body)
      ≡ unix_extra entry ++ zip64_extra entry
    → file_metadata_of (central_header entry) body part_size ≡ metadata_of part_size entry
unfolding file_metadata_of
file_metadata_of_lem entry body part_size s name extra = λ i. record {
  filename = name i;
  local_header_offset = (zip64 i).local_header_offset;
  compressed_size = (zip64 i).compressed_size;
  uncompressed_size = (zip64 i).uncompressed_size;
  crc32 = entry.crc32;
  compression_method = entry.compression_method;
  part_index = (zip64 i).local_header_offset / part_size % 2 ^ 32;
  unix_mode = mode i;
  uid = (unix i).uid;
  gid = (unix i).gid;
  has_unix_mode = true;
  has_unix_extra = (unix i).found;
  is_symlink = bit_and (mode i) s_ifmt == s_iflnk;
  uses_zip64_descriptor = descriptor i;
}
  where
    unix :
        unix_of (
          take
            (central_header entry).extra_field_length
            (drop (central_header entry).filename_length body))
        ≡ record { found = true; uid = entry.uid; gid = entry.gid }
    unix = ap unix_of extra ∙ unix_of-unix_extra entry (zip64_extra entry) s.user s.group

    zip64 :
        zip64_of
          (take
            (central_header entry).extra_field_length
            (drop (central_header entry).filename_length body))
          (central_header entry)
        ≡ record {
          found = need_zip64 entry;
          compressed_size = entry.compressed_size;
          uncompressed_size = entry.uncompressed_size;
          local_header_offset = entry.local_header_offset;
        }
    zip64 =
        ap (λ b. zip64_of b (central_header entry)) extra
        ∙ zip64_of-extra entry s.compressed s.uncompressed s.offset

    mode : entry.unix_mode * 2 ^ 16 % 2 ^ 32 / 2 ^ 16 ≡ entry.unix_mode
    mode = omega (arith, s.mode)

    descriptor :
        (ltb 0 (central_header entry).extra_field_length
          && (is_marker (central_header entry).compressed_size
              || is_marker (central_header entry).uncompressed_size))
        ≡ (over_32 entry.compressed_size || over_32 entry.uncompressed_size)
    descriptor = ground (
      arith,
      length-unix_extra entry,
      length-zip64_extra entry,
      is_marker-field_32 entry.compressed_size s.compressed,
      is_marker-field_32 entry.uncompressed_size s.uncompressed,
    )

-- A round of the loop at a header that is complete.
parse_entries_found :
    (alloc : ℕ → Bool) (n : ℕ) (ptr : List ℕ) (part_size k : ℕ) (header : CentralHeader)
    → read_central_header ptr ≡ header
    → 46 ≤ length ptr
    → header.signature ≡ zip_central_dir_header_sig
    → variable_len header ≤ length (drop 46 ptr)
    → alloc (header.filename_length + 1) ≡ true
    → parse_entries alloc (suc n) ptr part_size k ≡ (
        parse_entries alloc n (drop (variable_len header) (drop 46 ptr)) part_size (k + 1)
        >>= λ files. parsed (file_metadata_of header (drop 46 ptr) part_size ∷ files))
unfolding parse_entries
parse_entries_found alloc n ptr part_size k header e long sig room allocated =
    let nonempty : (length ptr == 0) ≡ false = ground arith in
    rw (
      e,
      nonempty,
      ltb-false_of_le (length ptr) 46 long,
      ==_of_eq header.signature zip_central_dir_header_sig sig,
      ltb-false_of_le (length (drop 46 ptr)) (variable_len header) room,
      allocated,
    )

-- The parser reads the first header as its entry, and goes on behind it.
pub parse_entries_step :
    (alloc : ℕ → Bool) (n : ℕ) (entry : FileEntry) (rest : List ℕ) (part_size k : ℕ)
    → IsStorable entry
    → alloc (length entry.filename + 1) ≡ true
    → parse_entries alloc (suc n) (cdfh_bytes entry ++ rest) part_size k ≡ (
        parse_entries alloc n rest part_size (k + 1) >>= λ files.
        parsed (metadata_of part_size entry ∷ files))
parse_entries_step alloc n entry rest part_size k s allocated =
    let h = central_header entry in
    let name = take h.filename_length entry.filename in
    let extra = unix_extra entry ++ zip64_extra entry in
    let body = name ++ (extra ++ rest) in
    let here : name ≡ entry.filename =
      take_all h.filename_length entry.filename (omega (arith, s.named)) in
    let size : h.filename_length ≡ length name = omega (arith, s.named, ap length here) in
    let extra_size : h.extra_field_length ≡ length extra = ground (
      arith,
      length-append (unix_extra entry) (zip64_extra entry),
      length-unix_extra entry,
      length-zip64_extra entry,
    ) in
    let (named, extras, behind, fits) =
      split_body h.filename_length h.extra_field_length name extra rest size extra_size in
    ap (λ b. parse_entries alloc (suc n) (central_header_bytes h ++ b) part_size k)
      (append_assoc name extra rest)
    ∙ parse_entries_found alloc n (central_header_bytes h ++ body) part_size k h
        (read_central_header-bytes h body (central_header-InRange entry s)) (omega arith) refl fits
        (rw (mod-eq_of_lt s.named) allocated)
    ∙ ap₂ (λ r m. parse_entries alloc n r part_size (k + 1) >>= λ files. parsed (m ∷ files)) behind
        (file_metadata_of_lem entry body part_size s (named ∙ here) extras)
