-- ===== src/Parser/PartMap.antt =====
-- `build_part_map` of src/downloader/central_dir_parser.c: which files start in each part, in the
-- order of their offsets, and which file runs on into it.
pub mod Continuing
use burst.Base.{
  ℕ, zero, suc, ◌+◌, ◌-◌, ◌*◌, ◌/◌, ◌%◌, ◌^◌, Bool, true, ◌&&◌, ◌||◌, Option, none, some, List, [],
  ◌∷◌, ltb, ◌==◌, if◌then◌else◌, length,
}
use burst.Parser.{memory, Parsed, parsed, error, FileMetadata}

pub record PartFileEntry : Type 0 where
  pub file_index : ℕ
  pub offset_in_part : ℕ

-- `continuing_file` is the index of the file that the C pointer points to.
pub record PartFiles : Type 0 where
  pub entries : List PartFileEntry
  pub continuing_file : Option ℕ

-- What the function calls: whether an allocation succeeds, and `qsort` by `offset_in_part`.
pub record Lib : Type 0 where
  pub alloc : ℕ → Bool
  pub qsort : List PartFileEntry → List PartFileEntry

unfoldable pub count_parts : ℕ → ℕ → ℕ
count_parts archive_size part_size =
    let num_parts = (archive_size + part_size + 2 ^ 64 - 1) % 2 ^ 64 / part_size in
    if num_parts == 0 then 1 else num_parts

-- The entries that the two passes over the files give to part `p`; `i` is the index of the first file.
unfoldable pub entries_from : List FileMetadata → ℕ → ℕ → ℕ → List PartFileEntry
entries_from [] i p part_size = []
entries_from (f ∷ files) i p part_size =
    let rest = entries_from files (i + 1) p part_size in
    if f.part_index == p
    then record { file_index = i; offset_in_part = f.local_header_offset % part_size } ∷ rest
    else rest

-- Only arrays of two entries or more are sorted.
unfoldable pub sorted_entries : Lib → List PartFileEntry → List PartFileEntry
sorted_entries lib entries = if ltb 1 (length entries) then lib.qsort entries else entries

-- The estimated end of a file's data.
abbrev pub file_data_end : FileMetadata → ℕ
file_data_end f = (f.local_header_offset + 30 + f.compressed_size + 16) % 2 ^ 64

abbrev pub continues_into : FileMetadata → ℕ → Bool
continues_into f part_start =
    ltb f.local_header_offset part_start && ltb part_start (file_data_end f)

unfoldable pub find_continuing : List FileMetadata → ℕ → ℕ → Option ℕ
find_continuing [] i part_start = none
find_continuing (f ∷ files) i part_start =
    let rest = find_continuing files (i + 1) part_start in
    if continues_into f part_start then some i else rest

unfoldable pub part_files_of : Lib → List FileMetadata → ℕ → ℕ → PartFiles
part_files_of lib files part_size p = record {
  entries = sorted_entries lib (entries_from files 0 p part_size);
  continuing_file = if p == 0 then none else find_continuing files 0 (p * part_size % 2 ^ 64);
}

-- The parts `p`, `p + 1`, …, so many of them.
unfoldable pub parts_from : Lib → List FileMetadata → ℕ → ℕ → ℕ → List PartFiles
parts_from lib files part_size p zero = []
parts_from lib files part_size p (suc n) =
    part_files_of lib files part_size p ∷ parts_from lib files part_size (p + 1) n

-- The arrays of 16-byte entries, one for each part that has any.
unfoldable pub entries_allocated : Lib → List FileMetadata → ℕ → ℕ → ℕ → Bool
entries_allocated lib files part_size p zero = true
entries_allocated lib files part_size p (suc n) =
    let count = length (entries_from files 0 p part_size) in
    (count == 0 || lib.alloc (count * 16)) && entries_allocated lib files part_size (p + 1) n

unfoldable pub build_part_map : Lib → List FileMetadata → ℕ → ℕ → Parsed (List PartFiles)
build_part_map lib files archive_size part_size =
    let num_parts = count_parts archive_size part_size in
    if lib.alloc (num_parts * 24)
      && (lib.alloc (num_parts * 8) && entries_allocated lib files part_size 0 num_parts)
    then parsed (parts_from lib files part_size 0 num_parts)
    else error memory
