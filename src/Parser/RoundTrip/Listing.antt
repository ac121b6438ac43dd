-- ===== src/Parser/RoundTrip/Listing.antt =====
-- The central directory, written and read back.
use burst.Base.{
  ℕ, zero, suc, ◌+◌, ◌-◌, ◌*◌, ◌%◌, ◌^◌, ◌<◌, ◌≡◌, refl, sym, ap, ◌∙◌, Bool, true, false, List, [],
  ◌∷◌, ◌++◌, map, append_assoc, append-nil, arith, ltb, ltb-false_of_le, length, take, drop, All,
  length-append, take-append, drop-append,
}
use burst.Writer.{FileEntry}
use burst.Writer.CentralDirectory.Sizes.{cdfh_bytes, central_directory_bytes}
use burst.Parser.{Parsed, parsed, error, ◌>>=◌, FileMetadata}
use burst.Parser.Directory.{parse_entries, sizeof_file_metadata, parse_central_directory}
use burst.Parser.RoundTrip.Entry.{IsStorable, metadata_of, parse_entries_step}

-- Putting entries in front of what the parser finds next.
abbrev pub prepend : List FileMetadata → Parsed (List FileMetadata) → Parsed (List FileMetadata)
prepend ms r = r >>= λ more. parsed (ms ++ more)

prepend-nil : (r : Parsed (List FileMetadata)) → r ≡ prepend [] r
prepend-nil (parsed ms) = refl
prepend-nil (error e) = refl

prepend-cons :
    (m : FileMetadata) (ms : List FileMetadata) (r : Parsed (List FileMetadata))
    → (prepend ms r >>= λ files. parsed (m ∷ files)) ≡ prepend (m ∷ ms) r
prepend-cons m ms (parsed more) = refl
prepend-cons m ms (error e) = refl

-- Enough memory for every file name.
abbrev pub Allocates : (ℕ → Bool) → FileEntry → Type 0
Allocates alloc entry = alloc (length entry.filename + 1) ≡ true

-- Over a written directory with anything behind it, the entries of the directory come first and the
-- parser goes on with what follows, when the entries are storable and there is memory for their
-- names.
pub parse_entries-bytes :
    (alloc : ℕ → Bool) (files : List FileEntry) (n : ℕ) (rest : List ℕ) (part_size k : ℕ)
    → All IsStorable files
    → All (Allocates alloc) files
    → parse_entries alloc (length files + n) (central_directory_bytes files ++ rest) part_size k
      ≡ prepend
          (map (metadata_of part_size) files)
          (parse_entries alloc n rest part_size (k + length files))
parse_entries-bytes alloc [] n rest part_size k s a =
    ap (λ m. parse_entries alloc m rest part_size k) (omega arith)
    ∙ ap (λ j. parse_entries alloc n rest part_size j) (omega arith)
    ∙ prepend-nil (parse_entries alloc n rest part_size (k + 0))
parse_entries-bytes alloc (entry ∷ files) n rest part_size k (s, ss) (a, as') =
    let cd = central_directory_bytes files in
    let m = metadata_of part_size entry in
    let ms = map (metadata_of part_size) files in
    ap (λ j. parse_entries alloc j ((cdfh_bytes entry ++ cd) ++ rest) part_size k) (omega arith)
    ∙ ap (λ b. parse_entries alloc (suc (length files + n)) b part_size k)
        (append_assoc (cdfh_bytes entry) cd rest)
    ∙ parse_entries_step alloc (length files + n) entry (cd ++ rest) part_size k s a
    ∙ ap (λ r. r >>= λ found. parsed (m ∷ found))
        (parse_entries-bytes alloc files n rest part_size (k + 1) ss as')
    ∙ prepend-cons m ms (parse_entries alloc n rest part_size (k + 1 + length files))
    ∙ ap (λ j. prepend (m ∷ ms) (parse_entries alloc n rest part_size j)) (omega arith)

-- At the end of the directory the loop stops.
parse_entries-nil :
    (alloc : ℕ → Bool) (n part_size k : ℕ) → parse_entries alloc n [] part_size k ≡ parsed []
unfolding parse_entries
parse_entries-nil alloc zero part_size k = refl
parse_entries-nil alloc (suc n) part_size k = refl

-- All of a directory, with nothing behind it.
parse_entries-All :
    (alloc : ℕ → Bool) (files : List FileEntry) (n part_size : ℕ)
    → All IsStorable files
    → All (Allocates alloc) files
    → parse_entries alloc (length files + n) (central_directory_bytes files) part_size 0
      ≡ parsed (map (metadata_of part_size) files)
parse_entries-All alloc files n part_size s a =
    ap (λ b. parse_entries alloc (length files + n) b part_size 0)
      (sym (append-nil (central_directory_bytes files)))
    ∙ parse_entries-bytes alloc files n [] part_size 0 s a
    ∙ ap (prepend (map (metadata_of part_size) files))
        (parse_entries-nil alloc n part_size (0 + length files))
    ∙ ap parsed (append-nil (map (metadata_of part_size) files))

-- `parse_central_directory`, over a buffer that holds the bytes of a written directory at the right
-- place, gives the entries of the directory, for any bound on their number that is large enough,
-- when the entries are storable and there is memory for them.
pub parse_central_directory-bytes :
    (alloc : ℕ → Bool) (files : List FileEntry) (n part_size buffer_offset : ℕ)
    (front back : List ℕ)
    → All IsStorable files
    → All (Allocates alloc) files
    → alloc ((length files + n) * sizeof_file_metadata) ≡ true
    → length front + length (central_directory_bytes files) < 2 ^ 64
    → parse_central_directory alloc
        (front ++ (central_directory_bytes files ++ back))
        (buffer_offset + length front)
        buffer_offset
        (length files + n)
        (length (central_directory_bytes files))
        part_size
      ≡ parsed (map (metadata_of part_size) files)
unfolding parse_central_directory
parse_central_directory-bytes alloc files n part_size buffer_offset front back s a array bound =
    let cd = central_directory_bytes files in
    let start : buffer_offset + length front - buffer_offset ≡ length front = omega arith in
    let inside : ltb (buffer_offset + length front) buffer_offset ≡ false =
      ltb-false_of_le (buffer_offset + length front) buffer_offset (omega arith) in
    let fits : ltb (length (front ++ (cd ++ back))) ((length front + length cd) % 2 ^ 64) ≡ false =
      ltb-false_of_le (length (front ++ (cd ++ back))) ((length front + length cd) % 2 ^ 64)
        (omega (arith, length-append front (cd ++ back), length-append cd back)) in
    let slice : take (length cd) (drop (length front) (front ++ (cd ++ back))) ≡ cd =
      ap (take (length cd)) (drop-append (length front) front (cd ++ back) refl)
      ∙ take-append (length cd) cd back refl in
    rw (start, inside, fits, array, slice) (parse_entries-All alloc files n part_size s a)
