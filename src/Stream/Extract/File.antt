-- ===== src/Stream/Extract/File.antt =====
-- The local header of an entry, at which `part_processor_process_data` opens the file.
use burst.Writer.{c_string}
use burst.Base.{
  ℕ, ◌+◌, ◌%◌, ◌^◌, ◌<◌, ◌≡◌, refl, sym, ◌∙◌, inl, inr, true, false, ◌&&◌, none, some, List, [],
  ◌∷◌, ◌++◌, append_assoc, arith, ltb, ◌==◌, Bool-cases, ltb-false_of_le, eq_of_==, length, take,
  length-append, take-append,
}
use burst.Bytes.{u16_at, u16_le}
use burst.Zip.{
  zip_local_file_header_sig, padding_lfh_filename, padding_lfh_filename_len, LocalHeader,
  local_header_bytes,
}
use burst.Btrfs.{FileOp, directory_made, opened}
use burst.Sink.{ok}
use burst.Parser.{FileMetadata}
use burst.Frame.{frame_zip_local_header, Zstd, sized, parse_next_frame}
use burst.Stream.{
  state_expect_local_header, state_processing_frames, PartProcessor, System, sizeof_file_context,
  part_of,
}
use burst.Stream.Files.{
  directory_paths, make_directories, ensure_directory_exists, close_output_file, ends_with_slash,
  context_of, output_path, open_context, open_output_file, same_bytes, is_padding_lfh,
  next_metadata, handle_local_header,
}
use burst.Stream.Step.{advanced, header_round, expected_frame, round_in}
use burst.Stream.Step.Stuck.{round_in-expected}
use burst.Stream.Extract.{content_after, content_of, content_of-append}
use burst.Stream.Extract.Pieces.{Taken, file_with}

-- The name of the entry and the whole of its header.
pub record Header : Type 0 where
  pub fields : LocalHeader
  pub name : List ℕ
  pub extra : List ℕ

abbrev pub header_bytes : Header → List ℕ
header_bytes h = local_header_bytes h.fields ++ (h.name ++ h.extra)

-- A local header of an entry that is not padding.
pub record IsHeader (h : Header) : Type 0 where
  pub signature : h.fields.signature ≡ zip_local_file_header_sig
  pub name_length : h.fields.filename_length ≡ length h.name
  pub extra_length : h.fields.extra_field_length ≡ length h.extra
  pub name_small : length h.name < 2 ^ 16
  pub extra_small : length h.extra < 2 ^ 16
  pub no_padding : same_bytes h.name padding_lfh_filename ≡ false

-- The next entry is a regular file, which the system lets open.
pub record Opens (sys : System) (p : PartProcessor) (m : FileMetadata) : Type 0 where
  pub next : next_metadata p ≡ some m
  pub left : p.next_entry_idx < length (part_of p).entries
  pub alloc : sys.alloc sizeof_file_context && sys.alloc (length (output_path p m) + 1) ≡ true
  pub made : List FileOp
  pub directories : ensure_directory_exists sys (output_path p m) p.ops ≡ ok made
  pub opens : sys.open_file made (output_path p m) ≡ true
  pub no_directory : ends_with_slash (c_string m.filename) ≡ false
  pub no_symlink : m.is_symlink ≡ false

header_bytes-found :
    (zstd : Zstd) (h : Header) (rest : List ℕ)
    → IsHeader h
    → parse_next_frame zstd (header_bytes h ++ rest)
      ≡ sized frame_zip_local_header (length (header_bytes h))
unfolding parse_next_frame
header_bytes-found zstd h rest is =
    let signature = is.signature in
    let names = is.name_length in
    let extras = is.extra_length in
    let name_small = is.name_small in
    let extra_small = is.extra_small in
    let name_read = u16_le h.fields.filename_length (omega arith) in
    let extra_read = u16_le h.fields.extra_field_length (omega arith) in
    let whole = length-append (h.name ++ h.extra) rest in
    let both = length-append h.name h.extra in
    ground (arith, name_read, extra_read, whole, both, signature, names, extras)

header_no_padding :
    (h : Header) (rest : List ℕ) → IsHeader h → is_padding_lfh (header_bytes h ++ rest) ≡ false
unfolding is_padding_lfh
header_no_padding h rest is =
    let names = is.name_length in
    let name_small = is.name_small in
    let no_padding = is.no_padding in
    let name_read = u16_le h.fields.filename_length (omega arith) in
    elim (Bool-cases (length h.name == padding_lfh_filename_len)) [
      | inl same ↦
          let front : take padding_lfh_filename_len ((h.name ++ h.extra) ++ rest) ≡ h.name =
            rw (append_assoc h.name h.extra rest) (
              take-append padding_lfh_filename_len h.name (h.extra ++ rest)
                (sym (eq_of_== (length h.name) padding_lfh_filename_len same))) in
          ground (arith, name_read, names, front, no_padding)
      | inr differs ↦ ground (arith, name_read, names, differs)
    ]

make_directories-content :
    (sys : System) (path : List ℕ) (paths : List (List ℕ)) (ops made : List FileOp)
    → make_directories sys paths ops ≡ ok made
    → content_of sys.kernel path made [] ≡ content_of sys.kernel path ops []
unfolding make_directories content_of content_after
make_directories-content sys path [] ops made e = ground arith
make_directories-content sys path (d ∷ paths) ops made e = elim (Bool-cases (sys.mkdir ops d)) [
  | inl new ↦
      make_directories-content sys path paths (ops ++ (directory_made d ∷ [])) made
        (ground (arith, new))
      ∙ content_of-append sys.kernel path ops (directory_made d ∷ []) []
  | inr failing ↦ elim (Bool-cases (sys.is_directory_at ops d)) [
    | inl there ↦ make_directories-content sys path paths ops made (ground (arith, failing, there))
    | inr missing ↦ ground (arith, failing, missing)
  ]
]

ensure_directory_exists-content :
    (sys : System) (path at : List ℕ) (ops made : List FileOp)
    → ensure_directory_exists sys at ops ≡ ok made
    → content_of sys.kernel path made [] ≡ content_of sys.kernel path ops []
unfolding ensure_directory_exists
ensure_directory_exists-content sys path at ops made e =
    make_directories-content sys path (directory_paths [] (sys.dirname at)) ops made (ground arith)

-- The processor behind the header of the entry.
abbrev opened_at : PartProcessor → FileMetadata → List FileOp → ℕ → PartProcessor
opened_at p m made n = record p {
  current_file = some (file_with (context_of (output_path p m) m) []);
  ops = made ++ (opened (output_path p m) ∷ []);
  next_entry_idx = p.next_entry_idx + 1;
  state = state_processing_frames;
  bytes_processed = (p.bytes_processed + n) % 2 ^ 64;
}

open_output_file-Opens :
    (sys : System) (p : PartProcessor) (m : FileMetadata)
    → (opening : Opens sys p m) → p.current_file ≡ none
    → open_output_file sys m p
      ≡ ok (record p {
        current_file = some (record (context_of (output_path p m) m) { fd = true });
        ops = opening.made ++ (opened (output_path p m) ∷ []);
      })
unfolding open_output_file open_context close_output_file
open_output_file-Opens sys p m opening no_file =
    let alloc = opening.alloc in
    let directories = opening.directories in
    let opens = opening.opens in
    let no_directory = opening.no_directory in
    let no_symlink = opening.no_symlink in
    ground (arith, no_file, alloc, directories, no_directory, no_symlink, opens)

header_size_of :
    (h : Header) (rest : List ℕ)
    → IsHeader h
    → (30 + u16_at (header_bytes h ++ rest) 26 + u16_at (header_bytes h ++ rest) 28
        ≡ length (header_bytes h))
      × (ltb (length (header_bytes h ++ rest)) 30 ≡ false)
      × (ltb (length (header_bytes h ++ rest)) (length (header_bytes h)) ≡ false)
header_size_of h rest is =
    let names = is.name_length in
    let extras = is.extra_length in
    let name_small = is.name_small in
    let extra_small = is.extra_small in
    let name_read = u16_le h.fields.filename_length (omega arith) in
    let extra_read = u16_le h.fields.extra_field_length (omega arith) in
    let whole = length-append (h.name ++ h.extra) rest in
    let both = length-append h.name h.extra in
    (
      omega arith,
      ltb-false_of_le (length (header_bytes h ++ rest)) 30 (omega arith),
      ltb-false_of_le (length (header_bytes h ++ rest)) (length (header_bytes h)) (omega arith),
    )

handle_local_header-Opens :
    (sys : System) (h : Header) (rest : List ℕ) (p : PartProcessor) (m : FileMetadata)
    → IsHeader h
    → (opening : Opens sys p m) → p.current_file ≡ none
    → header_round (handle_local_header sys (header_bytes h ++ rest) p)
      ≡ advanced (length (header_bytes h)) (opened_at p m opening.made (length (header_bytes h)))
unfolding handle_local_header
handle_local_header-Opens sys h rest p m is opening no_file =
    let (size, long, whole) = header_size_of h rest is in
    let no_padding = header_no_padding h rest is in
    let next = opening.next in
    let no_symlink = opening.no_symlink in
    let opens = open_output_file-Opens sys p m opening no_file in
    ground (arith, size, long, whole, no_padding, next, opens, no_symlink)

-- The round at the header opens the file, which is empty.
pub header-Taken :
    (zstd : Zstd) (sys : System) (h : Header) (rest : List ℕ) (p : PartProcessor) (m : FileMetadata)
    → IsHeader h
    → Opens sys p m
    → p.state ≡ state_expect_local_header
    → p.current_file ≡ none
    → content_of sys.kernel (output_path p m) p.ops [] ≡ []
    → p.part_start_offset + p.bytes_processed + length (header_bytes h) < 2 ^ 64
    → Taken sys.kernel
        (context_of (output_path p m) m)
        []
        (p.part_start_offset + p.bytes_processed)
        (length (header_bytes h))
        (round_in zstd sys (header_bytes h ++ rest) p p.state)
unfolding expected_frame content_of content_after
header-Taken zstd sys h rest p m is opening st no_file empty near =
    let path = output_path p m in
    (
      opened_at p m opening.made (length (header_bytes h)),
      round_in-expected zstd sys _ p _ st opening.left (header_bytes-found zstd h rest is)
          ∙ handle_local_header-Opens sys h rest p m is opening no_file,
      record {
        state = refl;
        file = refl;
        place = omega arith;
        held =
            content_of-append sys.kernel path opening.made (opened path ∷ []) []
            ∙ ensure_directory_exists-content sys path path p.ops opening.made opening.directories
            ∙ empty;
      },
    )
