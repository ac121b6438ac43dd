-- ===== src/Lib.antt =====
-- BURST writes and reads ZIP archives that can be downloaded in parts: every part of 8 MiB begins
-- with a local header or with a frame that says where in its file the data goes on. The writer
-- (src/writer) lays out entries, zstd frames and padding and ends with the central directory; the
-- downloader (src/downloader) reads the directory from the end of the archive, maps files to parts
-- and parses the frames of each part.
--
-- The files and the code that they model (paths from the root of the repository):
--   Bytes, Zip           the packed structs and constants of include/zip_structures.h and
--                        include/burst_writer.h, little-endian
--   Sink                 burst_writer_write and burst_writer_flush of src/writer/burst_writer.c: the
--                        file, the write buffer and the counters, the part of struct burst_writer
--                        that a write changes; Env holds what the C library, zlib and libzstd do
--   Zip/Fields, Records  src/writer/zip_structures.c
--   Alignment            src/writer/alignment.c
--   Layout               the alignment rule, as the comments of the format state it, on a list of
--                        items, and what an entry is made of; an item has all that its bytes
--                        depend on
--   Writer               struct burst_writer and the helpers of src/writer/burst_writer.c
--   Writer/AddFile       burst_writer_add_file, cut into the steps of its body, and compress_chunk
--                        of src/writer/compression.c
--   Writer/AddLink       burst_writer_add_symlink and burst_writer_add_directory
--   Writer/Session       the loop of src/writer/main.c with process_entry of
--                        src/writer/entry_processor.c, from the built headers on
--   Writer/CentralDirectory, Finalize
--                        write_central_directory, find_first_cdfh_in_tail, burst_writer_finalize
--   Parser               src/downloader/central_dir_parser.c: Extra (extra fields), Directory
--                        (headers), Eocd (end records), PartMap (build_part_map), Whole (the three
--                        entry points)
--   Frame                src/downloader/frame_parser.c and src/downloader/parts_calculation.c
--   Btrfs                do_write_encoded and do_write_unencoded of src/downloader/btrfs_writer.c
--   Stream               src/downloader/stream_processor.c: Files (opening and closing the output
--                        files, the handlers of the frames), Step (the rounds of the loop of
--                        part_processor_process_data, one for each state, and the loop); in Extract
--                        the contents of a file after the operations on it
--   CdFetch              src/downloader/cd_fetch.c: the ranges to fetch, Buffers (the buffer of the
--                        central directory and the body segments), Queue (the early and the late
--                        parts)
--   Tests                concrete runs
--
-- State is passed on explicitly. A function that returns 0 or -1 returns an Outcome, which keeps the
-- state that a failing call leaves behind; the parser returns a Parsed value with its error code.
-- A call that may fail outside the program (fwrite, malloc, ZSTD_compress) is a field of Env; fwrite
-- is assumed to append when it returns the full count, and a compressed chunk to be at most twice as
-- long as a chunk of 128 KiB, which ZSTD_compressBound keeps to. The stream processor calls the
-- kernel and the C library through the records Kernel and System, and what it does to the file system
-- is a list of operations in its state.
--
-- Bounds: sizes and offsets are natural numbers with `% 2 ^ 64` where a uint64_t or size_t may wrap,
-- and `% 2 ^ 32` or `% 2 ^ 16` where the code narrows. Fuel: the loop of burst_writer_write runs on
-- one unit more than the bytes to write, which is enough because each round copies a byte or flushes
-- a buffer that was full before; the loops over extra fields run on the length of the field, of which
-- each round consumes four bytes at least. The loop of part_processor_process_data runs on three
-- units for each byte and three more, since of three rounds one takes a byte; the loop that counts
-- ranges runs on the offset where it ends; sixty-four doublings of a buffer pass every size_t.
--
-- Not modelled: the coordinator of src/downloader/cd_fetch.c with its callbacks and the dispatching
-- of requests, the S3 client and its scheduling (calls of AWS libraries, in part still to come), the
-- freeing of memory, the test for a BTRFS file system, the command lines, the profiling, the builders
-- of local headers in src/writer/entry_processor.c, the check verify_frame_content_size of debug
-- builds, and the test build BURST_TEST_FORCE_PADDING_LFH. Of the stream processor, messages and
-- failures that are only reported (chmod, chown, ftruncate, symlink) leave no trace.
pub mod Base
pub mod Bytes
pub mod Sink
pub mod Zip
pub mod Layout
pub mod Alignment
pub mod Writer
pub mod Parser
pub mod Frame
pub mod Btrfs
pub mod Stream
pub mod CdFetch
mod Tests
