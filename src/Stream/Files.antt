-- ===== src/Stream/Files.antt =====
-- Opening and closing the output files: `ensure_directory_exists`, `open_output_file`,
-- `close_output_file` and the handlers of src/downloader/stream_processor.c. An `Outcome` that failed
-- carries the returned code in `error_code`. Failures that are only reported leave no trace.
pub mod Keeps
use burst.Base.{
  ℕ, ◌+◌, ◌%◌, ◌^◌, Bool, true, false, not, ◌&&◌, Option, none, some, List, [], ◌∷◌, ◌++◌, ltb,
  ◌==◌, if◌then◌else◌, length, get_or, get_elem?, take, drop,
}
use burst.Bytes.{u16_at, u64_at}
use burst.Zip.{padding_lfh_filename, padding_lfh_filename_len}
use burst.Sink.{Outcome, ok, failed, ◌>>=◌}
use burst.Writer.{c_string}
use burst.Btrfs.{
  FileOp, directory_made, opened, closed, unlinked, truncated, mode_set, owner_set, symlinked,
  written, write_error, do_write_encoded,
}
use burst.Parser.{truncated, FileMetadata}
use burst.Stream.{
  no_memory, invalid_frame_error, io_error, btrfs_write_error, FileContext, PartProcessor, System,
  sizeof_file_context, part_of, stopped, log,
}

-- The paths that the loop of `ensure_directory_exists` makes: up to each slash behind the leading
-- ones, and the whole. `inside` is whether the loop's pointer has passed a character since the last.
unfoldable pub directory_prefixes : List ℕ → Bool → List ℕ → List (List ℕ)
directory_prefixes seen inside [] = if inside then seen ∷ [] else []
directory_prefixes seen inside (c ∷ rest) =
    let slashed = directory_prefixes (seen ++ (c ∷ [])) false rest in
    let passed = directory_prefixes (seen ++ (c ∷ [])) true rest in
    if c == b'/' then seen ∷ slashed else passed

-- `while (*p == '/') p++;`
unfoldable pub directory_paths : List ℕ → List ℕ → List (List ℕ)
directory_paths seen [] = []
directory_paths seen (c ∷ rest) =
    let skipped = directory_paths (seen ++ (c ∷ [])) rest in
    if c == b'/' then skipped else directory_prefixes seen false (c ∷ rest)

-- The operations so far, also when one fails.
unfoldable pub make_directories : System → List (List ℕ) → List FileOp → Outcome (List FileOp)
make_directories sys [] ops = ok ops
make_directories sys (path ∷ paths) ops =
    let made = make_directories sys paths (ops ++ (directory_made path ∷ [])) in
    let there = make_directories sys paths ops in
    if sys.mkdir ops path then made else if sys.is_directory_at ops path then there else failed ops

unfoldable pub ensure_directory_exists : System → List ℕ → List FileOp → Outcome (List FileOp)
ensure_directory_exists sys path ops =
    let made = make_directories sys (directory_paths [] (sys.dirname path)) ops in
    if sys.alloc (length path + 1) then made else failed ops

-- The permission bits, `mode & 07777`.
abbrev pub mode_ops : FileContext → List FileOp
mode_ops f = if f.has_unix_mode then mode_set f.filename (f.unix_mode % 2 ^ 12) ∷ [] else []

abbrev pub owner_ops : System → FileContext → List FileOp
owner_ops sys f =
    if f.has_unix_extra && sys.is_root then owner_set f.filename f.uid f.gid ∷ [] else []

-- An open file gets its size and metadata.
abbrev pub close_fd_ops : System → FileContext → List FileOp
close_fd_ops sys f =
    if f.fd
    then truncated f.filename f.expected_total_size
      ∷ (mode_ops f ++ (owner_ops sys f ++ (closed f.filename ∷ [])))
    else []

-- What closing a file does: a symlink is made from its buffer, and for a directory nothing is left
-- to do.
abbrev pub close_ops : System → FileContext → List FileOp
close_ops sys f = elim (f.symlink_buffer) [
  | some target ↦
      if f.is_symlink
      then unlinked f.filename ∷ symlinked (c_string target) f.filename ∷ owner_ops sys f
      else close_fd_ops sys f
  | none ↦ close_fd_ops sys f
]

unfoldable pub close_output_file : System → PartProcessor → PartProcessor
close_output_file sys p = elim (p.current_file) [
  | none ↦ p
  | some f ↦ log (close_ops sys f) (record p { current_file = none })
]

abbrev pub ends_with_slash : List ℕ → Bool
ends_with_slash [] = false
ends_with_slash (c ∷ cs) = get_or (c ∷ cs) (length cs) 0 == b'/'

-- The file context with the values of the central directory.
abbrev pub context_of : List ℕ → FileMetadata → FileContext
context_of path m = record {
  filename = path;
  fd = false;
  uncompressed_offset = 0;
  expected_total_size = m.uncompressed_size;
  expected_crc32 = m.crc32;
  unix_mode = m.unix_mode;
  uid = m.uid;
  gid = m.gid;
  has_unix_mode = m.has_unix_mode;
  has_unix_extra = m.has_unix_extra;
  is_symlink = m.is_symlink;
  is_directory = ends_with_slash (c_string m.filename);
  symlink_buffer = none;
  symlink_buffer_size = 0;
  uses_zip64_descriptor = m.uses_zip64_descriptor;
}

abbrev pub output_path : PartProcessor → FileMetadata → List ℕ
output_path p m = p.output_dir ++ (b'/' ∷ c_string m.filename)

-- The last step of `open_output_file`, for a directory, a symlink or a regular file.
unfoldable pub open_context : System → FileContext → PartProcessor → Outcome PartProcessor
open_context sys f p =
    if f.is_directory
    then (if sys.mkdir p.ops f.filename
        then ok (
            log (directory_made f.filename ∷ (mode_ops f ++ owner_ops sys f))
              (record p { current_file = some f }))
        else failed (stopped io_error p))
    else if f.is_symlink
    then (if sys.alloc ((f.expected_total_size + 1) % 2 ^ 64)
        then ok (record p {
          current_file = some (record f {
            symlink_buffer = some [];
            symlink_buffer_size = (f.expected_total_size + 1) % 2 ^ 64;
          });
        })
        else failed (stopped no_memory p))
    else if sys.open_file p.ops f.filename
    then ok
        (log (opened f.filename ∷ []) (record p { current_file = some (record f { fd = true }) }))
    else failed (stopped io_error p)

unfoldable pub open_output_file : System → FileMetadata → PartProcessor → Outcome PartProcessor
open_output_file sys m p =
    let p' = close_output_file sys p in
    let path = output_path p m in
    if not (sys.alloc sizeof_file_context && sys.alloc (length path + 1))
    then failed (stopped no_memory p')
    else elim (ensure_directory_exists sys path p'.ops) [
      | failed ops ↦ failed (stopped io_error (record p' { ops = ops }))
      | ok ops ↦ open_context sys (context_of path m) (record p' { ops = ops })
    ]

abbrev pub at_offset : ℕ → PartProcessor → PartProcessor
at_offset offset p = elim (p.current_file) [
  | none ↦ p
  | some f ↦ record p { current_file = some (record f { uncompressed_offset = offset }) }
]

-- The continuing file of the part is opened, unless a file is open already. An index that is out of
-- range does not come out of `build_part_map`.
unfoldable pub open_continuing : System → ℕ → PartProcessor → Outcome PartProcessor
open_continuing sys offset p = elim ((part_of p).continuing_file) [
  | none ↦ failed (stopped invalid_frame_error p)
  | some i ↦ elim (get_elem? p.cd_result.files i) [
    | none ↦ failed (stopped invalid_frame_error p)
    | some m ↦ open_output_file sys m p >>= λ p. ok (at_offset offset p)
  ]
]

unfoldable pub handle_start_of_part_frame : System → List ℕ → PartProcessor → Outcome PartProcessor
handle_start_of_part_frame sys frame_data p = elim (p.current_file) [
  | some f ↦ ok (at_offset (u64_at frame_data 9) p)
  | none ↦ open_continuing sys (u64_at frame_data 9) p
]

unfoldable pub handle_zstd_frame : System → List ℕ → ℕ → PartProcessor → Outcome PartProcessor
handle_zstd_frame sys frame uncompressed_size p = elim (p.current_file) [
  | none ↦ failed (stopped invalid_frame_error p)
  | some f ↦
      if not f.fd
      then failed (stopped invalid_frame_error p)
      else elim (do_write_encoded sys.kernel p.ops f.filename frame uncompressed_size
          f.uncompressed_offset) [
            | write_error e ↦ failed (stopped btrfs_write_error p)
            | written op ↦
                ok (
                  at_offset ((f.uncompressed_offset + uncompressed_size) % 2 ^ 64)
                    (log (op ∷ []) p))
          ]
]

-- STREAM_PROC_SUCCESS and STREAM_PROC_SKIPPED_PADDING with the bytes consumed.
pub data HeaderResult : Type 0 where
  header_opened header_skipped : ℕ → PartProcessor → HeaderResult
  header_incomplete header_failed : PartProcessor → HeaderResult

abbrev pub header_result : ℕ → Outcome PartProcessor → HeaderResult
header_result n (ok p) = header_opened n p
header_result n (failed p) = header_failed p

abbrev pub same_bytes : List ℕ → List ℕ → Bool
same_bytes [] [] = true
same_bytes [] (y ∷ ys) = false
same_bytes (x ∷ xs) [] = false
same_bytes (x ∷ xs) (y ∷ ys) = x == y && same_bytes xs ys

unfoldable pub is_padding_lfh : List ℕ → Bool
is_padding_lfh b =
    u16_at b 26 == padding_lfh_filename_len
    && same_bytes (take padding_lfh_filename_len (drop 30 b)) padding_lfh_filename

-- The metadata of the next entry of the part.
unfoldable pub next_metadata : PartProcessor → Option FileMetadata
next_metadata p = elim (get_elem? (part_of p).entries p.next_entry_idx) [
  | none ↦ none
  | some entry ↦ get_elem? p.cd_result.files entry.file_index
]

unfoldable pub handle_local_header : System → List ℕ → PartProcessor → HeaderResult
handle_local_header sys b p =
    let header_size = 30 + u16_at b 26 + u16_at b 28 in
    if ltb (length b) 30
    then header_incomplete p
    else if ltb (length b) header_size
    then header_incomplete p
    else if is_padding_lfh b
    then header_skipped header_size p
    else elim (next_metadata p) [
      | none ↦ header_failed (stopped invalid_frame_error p)
      | some m ↦ header_result header_size (open_output_file sys m p >>= λ p. ok (at_offset 0 p))
    ]
