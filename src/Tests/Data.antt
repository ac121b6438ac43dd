-- ===== src/Tests/Data.antt =====
-- A file that takes all that it is given, memory without end, a compressor that stores, and a few
-- small sinks, entries and calls.
use burst.Base.{ℕ, ◌+◌, ◌%◌, ◌^◌, refl, true, false, none, some, List, [], ◌∷◌, ◌++◌, arith, length}
use burst.Zip.{zip_local_file_header_sig, method_store, method_zstd}
use burst.Sink.{Env, Outcome, ok, failed, Sink}
use burst.Sink.Buffer.{Appends, IsValid, NeverFails}
use burst.Writer.{FileEntry, BurstWriter, Lfh}
use burst.Writer.AddFile.{InputFile}
use burst.Writer.AddFile.Frames.{BoundedFrames}
use burst.Writer.Session.{Call, add_file, add_symlink, add_directory}

abbrev pub env : Env
env = record {
  fwrite = λ out src. (length src, out ++ src);
  alloc = λ n. true;
  compress = λ level chunk. some (0x28 ∷ 0xB5 ∷ 0x2F ∷ 0xFD ∷ chunk);
  compress_bound = λ n. n + 64;
  create_cctx = true;
  crc32 = λ crc bytes. (crc + length bytes) % 2 ^ 32;
  now = 0;
  localtime = λ t. none;
}

pub env-Appends : Appends env
env-Appends out src e = refl

pub env-NeverFails : NeverFails env
env-NeverFails out src = refl

pub env-BoundedFrames : BoundedFrames env
env-BoundedFrames level chunk frame small e = ground arith

-- A sink with a buffer of four bytes, one of them used.
abbrev pub small_sink : Sink
small_sink = record {
  output = 7 ∷ 8 ∷ [];
  current_offset = 2;
  write_buffer = 9 ∷ [];
  buffer_size = 4;
  padding_bytes = 0;
}

pub small_sink-IsValid : IsValid small_sink
small_sink-IsValid = record { room = ground arith; counted = ground arith }

abbrev pub empty_sink : Sink
empty_sink = record {
  output = [];
  current_offset = 0;
  write_buffer = [];
  buffer_size = 64;
  padding_bytes = 0;
}

pub empty_sink-IsValid : IsValid empty_sink
empty_sink-IsValid = record { room = ground arith; counted = ground arith }

-- What a call leaves, whether it succeeds or not.
abbrev pub left {ℓ} : {S : Type ℓ} → Outcome S → S
left (ok s) = s
left (failed s) = s

abbrev pub writer : BurstWriter
writer = record {
  sink = empty_sink;
  compression_level = 3;
  files = [];
  files_capacity = 16;
  total_uncompressed = 0;
  total_compressed = 0;
}

-- The header of a file "ab", with the flag of a data descriptor or without.
abbrev pub header_of : ℕ → Lfh
header_of flags = record {
  header = record {
    signature = zip_local_file_header_sig;
    version_needed = 63;
    flags = flags;
    compression_method = method_zstd;
    last_mod_time = 0;
    last_mod_date = 0;
    crc32 = 0;
    compressed_size = 0;
    uncompressed_size = 0;
    filename_length = 2;
    extra_field_length = 0;
  };
  tail = 0x61 ∷ 0x62 ∷ [];
}

-- The header of a directory "d/".
abbrev pub directory_header : Lfh
directory_header = record {
  header = record (header_of 0).header { compression_method = method_store };
  tail = 0x64 ∷ 0x2F ∷ [];
}

abbrev pub input : InputFile
input = record { seekable = true; reads = (1 ∷ 2 ∷ 3 ∷ [], true) ∷ []; read_error = false }

abbrev pub calls : List Call
calls =
    add_directory directory_header 32 0o40755 0 0
    ∷ add_file input (header_of 8) 32 0o100644 1000 1000
    ∷ add_symlink (header_of 0) 32 (0x78 ∷ 0x79 ∷ []) 0o120777 0 0
    ∷ []

-- An entry whose sizes fit 32 bits, and one with a size and an offset that do not.
abbrev pub entry_of : ℕ → ℕ → FileEntry
entry_of size offset = record {
  filename = 0x61 ∷ 0x62 ∷ [];
  local_header_offset = offset;
  compressed_start_offset = 0;
  uncompressed_start_offset = 0;
  compressed_size = size;
  uncompressed_size = 9;
  crc32 = 77;
  compression_method = method_zstd;
  version_needed = 63;
  general_purpose_flags = 8;
  last_mod_time = 0;
  last_mod_date = 0x21;
  unix_mode = 0o100644;
  uid = 1000;
  gid = 100;
  used_zip64_descriptor = false;
}

abbrev pub entries : List FileEntry
entries = entry_of 7 0 ∷ entry_of 5000000000 6000000000 ∷ []
