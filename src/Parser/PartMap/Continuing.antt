-- ===== src/Parser/PartMap/Continuing.antt =====
-- `continuing_file` of `build_part_map` in src/downloader/central_dir_parser.c.
use burst.Base.{ℕ, ◌+◌, ◌^◌, ◌≤◌, ◌<◌, ◌≡◌, ◌⊎◌, Option, none, some, List, ◌∷◌, ◌++◌, length, All}
use burst.Parser.{FileMetadata}

-- The entry of the file has bytes in front of the part and behind its start, however long its local
-- header (30 bytes at least) and its data descriptor (16 bytes at least) are.
abbrev pub RunsInto : FileMetadata → ℕ → Type 0
RunsInto f part_start =
    (f.local_header_offset < part_start)
    × ((header descriptor : ℕ)
        → 30 ≤ header
        → 16 ≤ descriptor
        → part_start < f.local_header_offset + header + f.compressed_size + descriptor)

-- The entry of the file starts in the part or behind it, or ends in front of it when header and
-- descriptor are as short as they can be.
abbrev pub StaysOut : FileMetadata → ℕ → Type 0
StaysOut f part_start =
    (part_start ≤ f.local_header_offset)
    ⊎ (f.local_header_offset + 30 + f.compressed_size + 16 ≤ part_start)

-- The end of the shortest entry does not pass 2 ^ 64.
abbrev pub HasEnd : FileMetadata → Type 0
HasEnd f = f.local_header_offset + 30 + f.compressed_size + 16 < 2 ^ 64

-- What the search for the file that runs on into a part may answer: every file stays out, or the
-- first file that does not, by its index (the first of `files` has the index `i`).
abbrev pub Continuing : List FileMetadata → ℕ → ℕ → Option ℕ → Type 0
Continuing files i part_start none = All (λ f. StaysOut f part_start) files
Continuing files i part_start (some k) =
    (before : List FileMetadata) × (f : FileMetadata) × (after : List FileMetadata) × (files
      ≡ before ++ (f ∷ after))
    × (k ≡ i + length before)
    × All (λ g. StaysOut g part_start) before
    × RunsInto f part_start
