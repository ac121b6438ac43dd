-- ===== src/Parser/RoundTrip/Archive.antt =====
-- A whole archive: what `central_dir_parse` makes of the file that `burst_writer_finalize` leaves.
use burst.Base.{
  ℕ, zero, suc, ◌+◌, ◌-◌, ◌*◌, ◌%◌, ◌^◌, ◌≤◌, ◌<◌, ◌≡◌, refl, sym, ap, ◌∙◌, inl, inr, true, false,
  some, List, [], ◌∷◌, ◌++◌, map, append_assoc, arith, ltb, ◌==◌, ltb-false_of_le, length, take,
  drop, All, length-append, drop-append,
}
use burst.Zip.{central_header_bytes}
use burst.Zip.Fields.{build_burst_eocd_comment}
use burst.Sink.{Env, ok}
use burst.Sink.Buffer.{Appends, stream, IsValid}
use burst.Writer.{FileEntry, BurstWriter}
use burst.Writer.CentralDirectory.{unix_extra, zip64_extra, central_header, find_first_cdfh_in_tail}
use burst.Writer.CentralDirectory.Sizes.{cdfh_bytes, central_directory_bytes, IsNamed}
use burst.Writer.CentralDirectory.Tail.{find_first_cdfh_in_tail-Located}
use burst.Writer.Finalize.{burst_writer_finalize}
use burst.Writer.Finalize.Trailer.{trailer_bytes, ending_bytes, burst_writer_finalize_lem}
use burst.Parser.{parsed, FileMetadata}
use burst.Parser.Directory.{sizeof_file_metadata, parse_central_directory}
use burst.Parser.Eocd.{central_dir_parse_eocd_only}
use burst.Parser.Eocd.Archive.{end_records, central_dir_parse_eocd_only-end_records}
use burst.Parser.PartMap.{
  Lib, count_parts, entries_from, parts_from, entries_allocated, build_part_map,
}
use burst.Parser.Whole.{
  ParseResult, estimated_entries, central_dir_parse_from_cd_buffer, central_dir_parse,
}
use burst.Parser.RoundTrip.Entry.{IsStorable, metadata_of}
use burst.Parser.RoundTrip.Listing.{Allocates, parse_central_directory-bytes}

-- Every allocation succeeds.
abbrev pub HasMemory : Lib → Type 0
HasMemory lib = (n : ℕ) → lib.alloc n ≡ true

entries_allocated-true :
    (lib : Lib) (files : List FileMetadata) (part_size p n : ℕ)
    → HasMemory lib
    → entries_allocated lib files part_size p n ≡ true
unfolding entries_allocated
entries_allocated-true lib files part_size p zero enough = refl
entries_allocated-true lib files part_size p (suc n) enough = ground (
  arith,
  enough (length (entries_from files 0 p part_size) * 16),
  entries_allocated-true lib files part_size (p + 1) n enough,
)

build_part_map-parsed :
    (lib : Lib) (files : List FileMetadata) (archive_size part_size : ℕ)
    → HasMemory lib
    → build_part_map lib files archive_size part_size
      ≡ parsed (parts_from lib files part_size 0 (count_parts archive_size part_size))
unfolding build_part_map
build_part_map-parsed lib files archive_size part_size enough =
    let k = count_parts archive_size part_size in
    rw (enough (k * 24), enough (k * 8), entries_allocated-true lib files part_size 0 k enough) refl

All-Allocates :
    (lib : Lib) (files : List FileEntry) → HasMemory lib → All (Allocates lib.alloc) files
All-Allocates lib [] enough = tt
All-Allocates lib (f ∷ files) enough =
    (enough (length f.filename + 1), All-Allocates lib files enough)

All-IsNamed : (files : List FileEntry) → All IsStorable files → All IsNamed files
All-IsNamed [] s = tt
All-IsNamed (f ∷ files) (s, ss) = (s.named, All-IsNamed files ss)

-- The estimate of the number of entries is large enough.
directory_length :
    (files : List FileEntry) → 46 * length files ≤ length (central_directory_bytes files)
directory_length [] = omega arith
directory_length (f ∷ files) = omega (
  arith,
  directory_length files,
  length-append (cdfh_bytes f) (central_directory_bytes files),
  length-append (central_header_bytes (central_header f))
      (take (central_header f).filename_length f.filename ++ (unix_extra f ++ zip64_extra f)),
)

first_small :
    (files : List FileEntry) (start archive_size : ℕ)
    → All IsNamed files
    → start + length (central_directory_bytes files) < archive_size
    → archive_size < 2 ^ 64
    → find_first_cdfh_in_tail files start archive_size < 2 ^ 24
first_small files start archive_size named ends bound =
    elim (find_first_cdfh_in_tail-Located files start archive_size named ends bound) [
      | inl (zero_offset, _) ↦ omega (arith, zero_offset)
      | inr (_, inl (marker, _)) ↦ omega (arith, marker)
      | inr (_, inr (_, small)) ↦ omega (arith, small)
    ]

from_cd_buffer :
    (lib : Lib) (files : List FileEntry) (back : List ℕ) (start archive_size part_size : ℕ)
    → All IsStorable files
    → HasMemory lib
    → 0 < length back
    → start + length (central_directory_bytes files) < 2 ^ 64
    → let cd = central_directory_bytes files in
      let ms = map (metadata_of part_size) files in
      central_dir_parse_from_cd_buffer lib
        (cd ++ back)
        start
        (length cd)
        archive_size
        part_size
        true
      ≡ parsed (record {
        files = ms;
        parts = parts_from lib ms part_size 0 (count_parts archive_size part_size);
        central_dir_offset = start;
        central_dir_size = length cd;
        is_zip64 = true;
      })
unfolding central_dir_parse_from_cd_buffer
from_cd_buffer lib files back start archive_size part_size s enough more bound =
    let cd = central_directory_bytes files in
    let ms = map (metadata_of part_size) files in
    let spare : ℕ = estimated_entries (length cd) - length files in
    let count : length files + spare ≡ estimated_entries (length cd) =
      ground (arith, directory_length files) in
    let read =
      parse_central_directory-bytes lib.alloc files spare part_size start [] back s
        (All-Allocates lib files enough) (enough ((length files + spare) * sizeof_file_metadata))
        (omega arith) in
    let here : start + 0 ≡ start = omega arith in
    let sized_read : parse_central_directory lib.alloc (cd ++ back) start start
          (estimated_entries (length cd)) (length cd) part_size
        ≡ parsed ms =
      ap
        (λ o.
          parse_central_directory lib.alloc (cd ++ back) o start (estimated_entries (length cd))
            (length cd) part_size)
        (sym here)
      ∙ ap
          (λ k.
            parse_central_directory lib.alloc (cd ++ back) (start + 0) start k (length cd)
              part_size)
          (sym count)
      ∙ read in
    let nonempty : (length (cd ++ back) == 0) ≡ false = ground (arith, length-append cd back) in
    let fits : ltb (length (cd ++ back)) (length cd) ≡ false =
      ltb-false_of_le (length (cd ++ back)) (length cd) (omega (arith, length-append cd back)) in
    rw (nonempty, fits, sized_read, build_part_map-parsed lib ms archive_size part_size enough) refl

-- What the parser is to find in an archive whose directory stands at `start`.
abbrev pub parse_result_of : Lib → List FileEntry → ℕ → ℕ → ℕ → ParseResult
parse_result_of lib files start archive_size part_size =
    let ms = map (metadata_of part_size) files in
    record {
      files = ms;
      parts = parts_from lib ms part_size 0 (count_parts archive_size part_size);
      central_dir_offset = start;
      central_dir_size = length (central_directory_bytes files);
      is_zip64 = true;
    }

trailer-end_records :
    (files : List FileEntry) (st e start size end archive_size : ℕ)
    → st ≡ start
    → e ≡ end
    → e - st ≡ size
    → e + 106 ≡ archive_size
    → trailer_bytes files st e
      ≡ end_records (length files) start size end (find_first_cdfh_in_tail files start archive_size)
trailer-end_records files st e start size end archive_size p q z a =
    λ i. end_records (length files) (p i) (z i) (q i) (find_first_cdfh_in_tail files (p i) (a i))

end_found :
    (files : List FileEntry) (s : List ℕ) (start size end archive_size : ℕ)
    → start ≡ length s
    → size ≡ length (central_directory_bytes files)
    → end ≡ start + size
    → archive_size ≡ end + 106
    → archive_size < 2 ^ 64
    → All IsStorable files
    → central_dir_parse_eocd_only (s ++ ending_bytes files (length s)) archive_size
      ≡ parsed (record {
        central_dir_offset = start;
        central_dir_size = size;
        num_entries = some (length files);
        is_zip64 = true;
        first_cdfh_offset_in_tail = find_first_cdfh_in_tail files start archive_size;
      })
end_found files s start size end archive_size es ez ee ea bound stored =
    let cd = central_directory_bytes files in
    let first = find_first_cdfh_in_tail files start archive_size in
    let small : first < 2 ^ 24 =
      first_small files start archive_size (All-IsNamed files stored) (omega (arith, ez)) bound in
    let tail : trailer_bytes files (length s) (length s + length cd)
        ≡ end_records (length files) start size end first =
      trailer-end_records files (length s) (length s + length cd) start size end archive_size
        (sym es) (omega (arith, es, ez, ee)) (omega (arith, ez)) (omega (arith, es, ez, ee, ea)) in
    let whole : s ++ ending_bytes files (length s)
        ≡ (s ++ cd) ++ end_records (length files) start size end first =
      sym (append_assoc s cd (trailer_bytes files (length s) (length s + length cd)))
      ∙ ap (λ b. (s ++ cd) ++ b) tail in
    rw whole (
      central_dir_parse_eocd_only-end_records (s ++ cd) (length files) start size end first
        archive_size bound (omega (arith, ea)) (omega (arith, length-append s cd, es, ez, ee))
        (omega (arith, directory_length files, ez)) (omega (arith, ee)) small)

central_dir_parse-ending_bytes :
    (lib : Lib) (files : List FileEntry) (s : List ℕ) (archive_size part_size : ℕ)
    → All IsStorable files
    → HasMemory lib
    → archive_size ≡ length s + length (central_directory_bytes files) + 106
    → length (s ++ ending_bytes files (length s)) ≡ archive_size
    → archive_size < 2 ^ 64
    → central_dir_parse lib (s ++ ending_bytes files (length s)) archive_size part_size
      ≡ parsed (parse_result_of lib files (length s) archive_size part_size)
unfolding central_dir_parse
central_dir_parse-ending_bytes lib files s archive_size part_size stored enough size total bound =
    let cd = central_directory_bytes files in
    let b = s ++ ending_bytes files (length s) in
    let nonempty : (length b == 0) ≡ false = ground (arith, total) in
    let start : (archive_size + 2 ^ 64 - length b) % 2 ^ 64 ≡ 0 = omega (arith, total) in
    let found =
      end_found files s (length s) (length cd) (length s + length cd) archive_size refl refl refl
        (omega (arith, size)) bound stored in
    let slice : drop (length s - 0) b ≡ ending_bytes files (length s) =
      drop-append (length s - 0) s (ending_bytes files (length s)) (omega arith) in
    let inside : ltb (length s) 0 ≡ false = ltb-false_of_le (length s) 0 (omega arith) in
    rw (nonempty, start, found, inside, slice)
      (from_cd_buffer lib files (trailer_bytes files (length s) (length s + length cd)) (length s)
        archive_size part_size stored enough (omega arith) (omega (arith, size)))

length-ending_bytes :
    (files : List FileEntry) (start : ℕ)
    → length (ending_bytes files start) ≡ length (central_directory_bytes files) + 106
unfolding build_burst_eocd_comment
length-ending_bytes files start =
    length-append (central_directory_bytes files)
      (trailer_bytes files start (start + length (central_directory_bytes files)))

-- The archive that a successful `burst_writer_finalize` leaves in the file, on a valid sink, of
-- less than 2 ^ 64 bytes and with storable entries, is read back by `central_dir_parse` over the
-- whole file, when there is memory and `fwrite` appends: the files are the entries of the writer,
-- in their order, the directory is where it stands, and the parts are those of these files.
pub central_dir_parse-finalized :
    (env : Env) (appends : Appends env) (lib : Lib) (w w' : BurstWriter) (part_size : ℕ)
    → IsValid w.sink
    → length (stream w.sink) + length (central_directory_bytes w.files) + 106 < 2 ^ 64
    → All IsStorable w.files
    → HasMemory lib
    → burst_writer_finalize env w ≡ ok w'
    → central_dir_parse lib w'.sink.output (length w'.sink.output) part_size
      ≡ parsed
          (parse_result_of lib w.files (length (stream w.sink)) (length w'.sink.output) part_size)
central_dir_parse-finalized env appends lib w w' part_size v bound stored enough e =
    let (file, _, _) = burst_writer_finalize_lem env appends w w' v bound e in
    let s : List ℕ = stream w.sink in
    let total : length (s ++ ending_bytes w.files (length s)) ≡ length w'.sink.output =
      ap length (sym file) in
    let size : length w'.sink.output ≡ length s + length (central_directory_bytes w.files) + 106 =
      omega (
        arith,
        total,
        length-append s (ending_bytes w.files (length s)),
        length-ending_bytes w.files (length s),
      ) in
    ap (λ b. central_dir_parse lib b (length w'.sink.output) part_size) file
    ∙ central_dir_parse-ending_bytes lib w.files s (length w'.sink.output) part_size stored enough
        size total (omega (arith, size, bound))
