-- ===== src/Btrfs.antt =====
-- src/downloader/btrfs_writer.c: a frame is handed to the kernel as it is, or decompressed and
-- written. What the kernel and libzstd answer is a parameter, the record `Kernel`.
use burst.Base.{
  ℕ, ◌*◌, Bool, not, ◌&&◌, Option, none, some, List, ltb, leb, ◌==◌, if◌then◌else◌, length,
}

-- What was done to the file system, with the path of the file that is open as `fd`.
pub data FileOp : Type 0 where
  directory_made opened closed unlinked : List ℕ → FileOp
  encoded_written : List ℕ → List ℕ → ℕ → ℕ → FileOp
  bytes_written : List ℕ → List ℕ → ℕ → FileOp
  truncated mode_set : List ℕ → ℕ → FileOp
  owner_set : List ℕ → ℕ → ℕ → FileOp
  symlinked : List ℕ → List ℕ → FileOp

-- `ioctl(fd, BTRFS_IOC_ENCODED_WRITE, ...)`: done, ENOTTY or EOPNOTSUPP, or another error.
pub data IoctlAnswer : Type 0 where
  ioctl_done not_supported ioctl_failed : IoctlAnswer

-- Every answer may depend on what was done before.
pub record Kernel : Type 0 where
  pub encoded_write : List FileOp → List ℕ → IoctlAnswer
  -- the count that `pwrite` returns, `none` for -1
  pub pwrite : List FileOp → List ℕ → Option ℕ
  -- whether the thread's decompression context and buffer are there or can be made
  pub has_decompress_context : Bool
  pub has_decompress_buffer : Bool
  -- `ZSTD_decompressDCtx` into a buffer of MAX_EXTENT_SIZE bytes; `none` is an error code
  pub decompress : List ℕ → Option (List ℕ)

pub data WriteError : Type 0 where
  invalid_args ioctl_error decompress_failed write_failed : WriteError

-- BTRFS_WRITER_SUCCESS with what was done, or an error code.
pub data Written : Type 0 where
  written : FileOp → Written
  write_error : WriteError → Written

abbrev pub max_extent_size : ℕ
max_extent_size = 128 * 1024

-- The `pwrite` of the decompressed bytes; a short write is an error.
abbrev pub write_bytes : Kernel → List FileOp → List ℕ → List ℕ → ℕ → Written
write_bytes kernel ops path bytes file_offset = elim (kernel.pwrite ops bytes) [
  | none ↦ write_error write_failed
  | some n ↦
      if n == length bytes
      then written (bytes_written path bytes file_offset)
      else write_error write_failed
]

-- A decompressed size other than `uncompressed_len` is only reported.
unfoldable pub do_write_unencoded : Kernel → List FileOp → List ℕ → List ℕ → ℕ → ℕ → Written
do_write_unencoded kernel ops path frame uncompressed_len file_offset =
    if length frame == 0
    then write_error invalid_args
    else if ltb max_extent_size uncompressed_len
    then write_error invalid_args
    else if not (kernel.has_decompress_context && kernel.has_decompress_buffer)
    then write_error decompress_failed
    else elim (kernel.decompress frame) [
      | none ↦ write_error decompress_failed
      | some bytes ↦ write_bytes kernel ops path bytes file_offset
    ]

unfoldable pub do_write_encoded : Kernel → List FileOp → List ℕ → List ℕ → ℕ → ℕ → Written
do_write_encoded kernel ops path frame uncompressed_len file_offset =
    let fallback = do_write_unencoded kernel ops path frame uncompressed_len file_offset in
    if length frame == 0
    then write_error invalid_args
    else if leb uncompressed_len (length frame)
    then fallback
    else if ltb max_extent_size uncompressed_len
    then write_error invalid_args
    else elim (kernel.encoded_write ops frame) [
      | ioctl_done ↦ written (encoded_written path frame uncompressed_len file_offset)
      | not_supported ↦ fallback
      | ioctl_failed ↦ write_error ioctl_error
    ]
