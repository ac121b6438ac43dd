-- ===== src/Tests/Directories.antt =====
-- A central directory of two entries, one of which needs ZIP64, read back.
use burst.Base.{
  ℕ, ◌+◌, ◌^◌, ◌<◌, ◌≡◌, refl, Bool, true, List, [], ◌∷◌, ◌++◌, map, arith, ltb, length, All,
}
use burst.Zip.{part_size}
use burst.Zip.Fields.{build_unix_extra_field, build_zip64_extra_field}
use burst.Writer.{FileEntry}
use burst.Writer.CentralDirectory.{need_zip64, unix_extra, zip64_extra, central_header}
use burst.Writer.CentralDirectory.Sizes.{central_directory_bytes}
use burst.Parser.{parsed}
use burst.Parser.Directory.{unix_of, zip64_of, parse_entries, parse_central_directory}
use burst.Parser.RoundTrip.ExtraFields.{IsPlain, unix_of-unix_extra, zip64_of-extra}
use burst.Parser.RoundTrip.Entry.{IsStorable, metadata_of}
use burst.Parser.RoundTrip.Listing.{
  prepend, Allocates, parse_entries-bytes, parse_central_directory-bytes,
}
use burst.Tests.Data.{entry_of, entries}

entry_of-IsStorable :
    (size offset : ℕ) → IsPlain size → IsPlain offset → IsStorable (entry_of size offset)
entry_of-IsStorable size offset plain_size plain_offset = record {
  named = omega arith;
  offset = plain_offset;
  compressed = plain_size;
  uncompressed = ground arith;
  crc = omega arith;
  method = omega arith;
  version = omega arith;
  flags = omega arith;
  time = omega arith;
  date = omega arith;
  mode = omega arith;
  user = omega arith;
  group = omega arith;
}

entries-IsStorable : All IsStorable entries
entries-IsStorable = (
  entry_of-IsStorable 7 0 (ground arith) (ground arith),
  (entry_of-IsStorable 5000000000 6000000000 (ground arith) (ground arith), tt),
)

abbrev alloc : ℕ → Bool
alloc n = ltb n (2 ^ 20)

entries-Allocates : All (Allocates alloc) entries
entries-Allocates = (refl, (refl, tt))

abbrev front : List ℕ
front = 1 ∷ 2 ∷ 3 ∷ []

directory_small : length front + length (central_directory_bytes entries) < 2 ^ 64
unfolding build_unix_extra_field build_zip64_extra_field
directory_small = omega arith

parse_central_directory-bytes_example :
    parse_central_directory alloc
      (front ++ (central_directory_bytes entries ++ (5 ∷ [])))
      (100 + length front)
      100
      (length entries + 2)
      (length (central_directory_bytes entries))
      part_size
    ≡ parsed (map (metadata_of part_size) entries)
parse_central_directory-bytes_example =
    parse_central_directory-bytes alloc entries 2 part_size 100 front (5 ∷ []) entries-IsStorable
      entries-Allocates refl directory_small

parse_entries-bytes_example :
    parse_entries alloc
      (length entries + 2)
      (central_directory_bytes entries ++ (5 ∷ []))
      part_size
      0
    ≡ prepend
        (map (metadata_of part_size) entries)
        (parse_entries alloc 2 (5 ∷ []) part_size (0 + length entries))
parse_entries-bytes_example =
    parse_entries-bytes alloc entries 2 (5 ∷ []) part_size 0 entries-IsStorable entries-Allocates

abbrev large : FileEntry
large = entry_of 5000000000 6000000000

zip64_of-extra_example :
    zip64_of (unix_extra large ++ zip64_extra large) (central_header large) ≡ record {
      found = need_zip64 large;
      compressed_size = large.compressed_size;
      uncompressed_size = large.uncompressed_size;
      local_header_offset = large.local_header_offset;
    }
zip64_of-extra_example = zip64_of-extra large (ground arith) (ground arith) (ground arith)

unix_of-unix_extra_example :
    unix_of (unix_extra large ++ (1 ∷ []))
    ≡ record { found = true; uid = large.uid; gid = large.gid }
unix_of-unix_extra_example = unix_of-unix_extra large (1 ∷ []) (omega arith) (omega arith)
