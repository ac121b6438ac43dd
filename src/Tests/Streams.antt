-- ===== src/Tests/Streams.antt =====
-- A part processor on a small entry: two frames, with a Start-of-Part frame between them.
use burst.Base.{
  ℕ, suc, ◌+◌, ◌-◌, ◌<◌, ◌≡◌, refl, ◌≢◌, inl, inr, true, false, none, some, List, [], ◌∷◌, ◌++◌,
  arith, ◌==◌, ==_of_eq, length, take, drop,
}
use burst.Bytes.{byte_at, le32}
use burst.Alignment.Frames.{padding_frame_bytes}
use burst.Zip.{
  zip_central_dir_header_sig, zip_local_file_header_sig, zip_data_descriptor_sig, DataDescriptor,
}
use burst.Sink.{ok}
use burst.Btrfs.{FileOp, directory_made, ioctl_done, Kernel}
use burst.Parser.{FileMetadata}
use burst.Parser.Whole.{ParseResult}
use burst.Frame.{size_is, Zstd, zstd_magic_number}
use burst.Stream.{state_expect_local_header, state_done, PartProcessor, System}
use burst.Writer.{c_string}
use burst.Stream.Files.{
  output_path, next_metadata, ensure_directory_exists, make_directories, directory_paths,
  directory_prefixes,
}
use burst.Stream.Step.{process_loop, part_processor_process_data}
use burst.Stream.Step.Sizes.{NoHugeFrame}
use burst.Stream.Step.Progress.{part_processor_process_data_total}
use burst.Stream.Step.Stuck.{empty_frame, process_loop-empty_frame}
use burst.Stream.Extract.{content_of, FrameOf, Works}
use burst.Stream.Extract.Pieces.{Piece, frame, padding, start_of_part}
use burst.Stream.Extract.File.{Header, IsHeader, Opens}
use burst.Stream.Extract.Descriptor.{Closed}
use burst.Stream.Extract.Entry.{file_bytes, part_processor_process_data-file_bytes}

-- A frame is the magic number, its size, the size of the content, and the content.
abbrev zstd : Zstd
zstd = record {
  find_frame_compressed_size = λ b. size_is (suc (byte_at b 4 - 1));
  frame_content_size = λ b. some (byte_at b 5);
}

abbrev frame_of : List ℕ → List ℕ
frame_of chunk = le32 zstd_magic_number ++ ((6 + length chunk) ∷ (length chunk ∷ chunk))

abbrev kernel : Kernel
kernel = record {
  encoded_write = λ ops b. ioctl_done;
  pwrite = λ ops b. some (length b);
  has_decompress_context = true;
  has_decompress_buffer = true;
  decompress = λ b. some (drop 6 b);
}

abbrev sys : System
sys = record {
  kernel = kernel;
  alloc = λ n. true;
  dirname = λ path. take 3 path;
  mkdir = λ ops path. true;
  is_directory_at = λ ops path. false;
  open_file = λ ops path. true;
  is_root = false;
}

abbrev metadata : FileMetadata
metadata = record {
  filename = b'a' ∷ [];
  local_header_offset = 8388569;
  compressed_size = 40;
  uncompressed_size = 5;
  crc32 = 7;
  compression_method = 93;
  part_index = 0;
  unix_mode = 33188;
  uid = 0;
  gid = 0;
  has_unix_mode = true;
  has_unix_extra = true;
  is_symlink = false;
  uses_zip64_descriptor = false;
}

abbrev directory : ParseResult
directory = record {
  files = metadata ∷ [];
  parts =
      record {
        entries = record { file_index = 0; offset_in_part = 8388569 } ∷ [];
        continuing_file = none;
      }
      ∷ [];
  central_dir_offset = 8388700;
  central_dir_size = 47;
  is_zip64 = false;
}

-- The processor of the first part, where the header of the last entry begins.
abbrev processor : PartProcessor
processor = record {
  part_index = 0;
  part_start_offset = 0;
  cd_result = directory;
  output_dir = b'o' ∷ b'u' ∷ b't' ∷ [];
  current_file = none;
  frame_buffer = [];
  frame_buffer_capacity = 262144;
  next_entry_idx = 0;
  bytes_processed = 8388569;
  state = state_expect_local_header;
  error_code = none;
  ops = [];
}

abbrev header : Header
header = record {
  fields = record {
    signature = zip_local_file_header_sig;
    version_needed = 63;
    flags = 8;
    compression_method = 93;
    last_mod_time = 0;
    last_mod_date = 0;
    crc32 = 0;
    compressed_size = 0;
    uncompressed_size = 0;
    filename_length = 1;
    extra_field_length = 0;
  };
  name = b'a' ∷ [];
  extra = [];
}

abbrev descriptor : DataDescriptor
descriptor = record {
  signature = zip_data_descriptor_sig;
  crc32 = 7;
  compressed_size = 40;
  uncompressed_size = 5;
}

-- The header is 31 bytes long and the first frame 8, so that the second part begins behind them.
abbrev pieces : List Piece
pieces =
    frame (frame_of (1 ∷ 2 ∷ [])) (1 ∷ 2 ∷ [])
    ∷ start_of_part
    ∷ padding 3
    ∷ frame (frame_of (3 ∷ 4 ∷ 5 ∷ [])) (3 ∷ 4 ∷ 5 ∷ [])
    ∷ []

works : Works kernel
works = record { ioctl = λ ops b. λ e. cc; pwrite = λ ops b. refl; context = refl; buffer = refl }

two_bytes : FrameOf zstd kernel (frame_of (1 ∷ 2 ∷ [])) (1 ∷ 2 ∷ [])
two_bytes = record {
  magic = refl;
  long = omega arith;
  size = λ rest. refl;
  content = λ rest. refl;
  extent = omega arith;
  decompresses = refl;
}

three_bytes : FrameOf zstd kernel (frame_of (3 ∷ 4 ∷ 5 ∷ [])) (3 ∷ 4 ∷ 5 ∷ [])
three_bytes = record {
  magic = refl;
  long = omega arith;
  size = λ rest. refl;
  content = λ rest. refl;
  extent = omega arith;
  decompresses = refl;
}

header-IsHeader : IsHeader header
header-IsHeader = record {
  signature = refl;
  name_length = refl;
  extra_length = refl;
  name_small = omega arith;
  extra_small = omega arith;
  no_padding = refl;
}

abbrev made : List FileOp
made = directory_made (b'o' ∷ b'u' ∷ b't' ∷ []) ∷ []

processor-Opens : Opens sys processor metadata
unfolding next_metadata ensure_directory_exists make_directories directory_paths directory_prefixes
    c_string
processor-Opens = record {
  next = refl;
  left = omega arith;
  alloc = refl;
  made = made;
  directories = refl;
  opens = refl;
  no_directory = refl;
  no_symlink = refl;
}

nothing_held : content_of kernel (output_path processor metadata) [] [] ≡ []
unfolding content_of
nothing_held = refl

part_processor_process_data-file_bytes_example :
    (q : PartProcessor) × (part_processor_process_data zstd sys
        (file_bytes header pieces metadata descriptor)
        processor
      ≡ some (ok q))
    × Closed kernel
        (output_path processor metadata)
        (1 ∷ 2 ∷ 3 ∷ 4 ∷ 5 ∷ [])
        (8388569 + length (file_bytes header pieces metadata descriptor))
        q
part_processor_process_data-file_bytes_example =
    part_processor_process_data-file_bytes zstd sys header pieces metadata descriptor processor
      works header-IsHeader processor-Opens refl refl refl nothing_held
      (two_bytes, (refl, (omega arith, (three_bytes, tt)))) refl refl (omega arith) (omega arith)

process_loop-empty_frame_example : process_loop zstd sys 100 (empty_frame []) processor ≡ none
process_loop-empty_frame_example =
    process_loop-empty_frame zstd sys 100 [] processor refl (omega arith)

-- An empty padding frame, and the central directory behind it.
abbrev last_bytes : List ℕ
last_bytes = padding_frame_bytes 0 ++ le32 zip_central_dir_header_sig

zstd-FindsBytes : (b : List ℕ) (n : ℕ) → zstd.find_frame_compressed_size b ≡ size_is n → 0 < n
zstd-FindsBytes b n e = ground arith

other : (m n : ℕ) → (m == n) ≡ false → m ≢ n
other m n differs e = let same = ==_of_eq m n e in ground arith

last_bytes-NoHugeFrame : NoHugeFrame last_bytes
last_bytes-NoHugeFrame = (
  inr (omega arith),
  (
    inl (other _ _ refl),
    (
      inl (other _ _ refl),
      (
        inl (other _ _ refl),
        (
          inl (other _ _ refl),
          (
            inl (other _ _ refl),
            (
              inl (other _ _ refl),
              (
                inl (other _ _ refl),
                (
                  inl (other _ _ refl),
                  (inl (other _ _ refl), (inl (other _ _ refl), (inl (other _ _ refl), tt))),
                ),
              ),
            ),
          ),
        ),
      ),
    ),
  ),
)

part_processor_process_data_total_example :
    part_processor_process_data zstd sys last_bytes processor ≢ none
part_processor_process_data_total_example =
    part_processor_process_data_total zstd sys last_bytes processor zstd-FindsBytes
      last_bytes-NoHugeFrame

abbrev done_processor : PartProcessor
done_processor = record processor { state = state_done; bytes_processed = 8388577 }
