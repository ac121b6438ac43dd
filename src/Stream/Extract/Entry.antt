-- ===== src/Stream/Extract/Entry.antt =====
-- A whole entry of the archive in `part_processor_process_data`.
use mathlib.Core.Path.{subst}
use burst.Base.{
  ℕ, zero, suc, ◌+◌, ◌-◌, ◌^◌, ◌≤◌, ◌<◌, ◌≡◌, refl, sym, ap, ◌∙◌, none, some, List, [], ◌∷◌, ◌++◌,
  append_assoc, append-nil, arith, length, length-append,
}
use burst.Zip.{zip_data_descriptor_sig, DataDescriptor}
use burst.Btrfs.{Kernel}
use burst.Sink.{ok}
use burst.Parser.{FileMetadata}
use burst.Frame.{Zstd}
use burst.Stream.{state_expect_local_header, PartProcessor, System}
use burst.Stream.Files.{context_of, output_path}
use burst.Stream.Step.{
  finished, process_loop, loop_fuel, process_work, process_data_in, part_processor_process_data,
}
use burst.Stream.Extract.{content_of, Works}
use burst.Stream.Extract.Pieces.{Piece, chunk_of, piece_bytes}
use burst.Stream.Extract.Run.{
  round-process_loop, piece_bytes_nonempty, pieces_bytes, chunks_of, PiecesAt, process_loop-pieces,
}
use burst.Stream.Extract.File.{Header, header_bytes, IsHeader, Opens, header-Taken}
use burst.Stream.Extract.Descriptor.{
  descriptor_bytes, Closed, descriptor_bytes_nonempty, descriptor_taken,
}

-- An entry of the archive: its header, the pieces of its data, and its descriptor.
abbrev pub file_bytes : Header → List Piece → FileMetadata → DataDescriptor → List ℕ
file_bytes h pieces m d = header_bytes h ++ (pieces_bytes 0 pieces ++ descriptor_bytes m d)

-- The loop of `part_processor_process_data` over a whole entry leaves its file closed, with the
-- bytes that the frames decompress to, and goes on behind the descriptor.
pub process_loop-file_bytes :
    (zstd : Zstd) (sys : System) (h : Header) (pieces : List Piece) (m : FileMetadata)
    (d : DataDescriptor) (fuel : ℕ) (rest : List ℕ) (p : PartProcessor)
    → Works sys.kernel
    → IsHeader h
    → Opens sys p m
    → p.state ≡ state_expect_local_header
    → p.current_file ≡ none
    → content_of sys.kernel (output_path p m) p.ops [] ≡ []
    → PiecesAt zstd sys.kernel
        (p.part_start_offset + p.bytes_processed + length (header_bytes h))
        0
        pieces
    → d.signature ≡ zip_data_descriptor_sig
    → m.uncompressed_size ≡ length (chunks_of pieces)
    → m.uncompressed_size < 2 ^ 64
    → p.part_start_offset + p.bytes_processed + length (file_bytes h pieces m d) < 2 ^ 64
    → (q : PartProcessor) × (process_loop zstd sys
          (suc (suc fuel + length pieces))
          (file_bytes h pieces m d ++ rest)
          p
        ≡ process_loop zstd sys fuel rest q)
      × Closed sys.kernel
          (output_path p m)
          (chunks_of pieces)
          (p.part_start_offset + p.bytes_processed + length (file_bytes h pieces m d))
          q
process_loop-file_bytes zstd sys h pieces m d fuel rest p works is opening st no_file empty at
      signature size small near =
    let path = output_path p m in
    let start = p.part_start_offset + p.bytes_processed in
    let data_bytes = pieces_bytes 0 pieces in
    let last = descriptor_bytes m d in
    let outer = length-append (header_bytes h) (data_bytes ++ last) in
    let inner = length-append data_bytes last in
    let (q, first, w) =
      header-Taken zstd sys h ((data_bytes ++ last) ++ rest) p m is opening st no_file empty
        (omega arith) in
    let (r, middle, w') =
      process_loop-pieces zstd sys (context_of path m) pieces (suc fuel) (last ++ rest) [] 0
        (start + length (header_bytes h)) q works refl at w (omega arith) (omega arith) in
    let (s, end, done) =
      descriptor_taken zstd sys path m d rest (chunks_of pieces)
        (start + length (header_bytes h) + length data_bytes) r signature size w' (omega arith) in
    let place : start + length (header_bytes h) + length data_bytes + length last
        ≡ start + length (file_bytes h pieces m d) =
      omega arith in
    (
      s,
      ap (λ b. process_loop zstd sys (suc (suc fuel + length pieces)) b p)
            (append_assoc (header_bytes h) (data_bytes ++ last) rest)
          ∙ round-process_loop zstd sys (suc fuel + length pieces) (header_bytes h)
              ((data_bytes ++ last) ++ rest) p q (omega arith) first
          ∙ ap (λ b. process_loop zstd sys (suc fuel + length pieces) b q)
              (append_assoc data_bytes last rest)
          ∙ middle
          ∙ round-process_loop zstd sys fuel last rest r s (descriptor_bytes_nonempty m d) end,
      subst (λ k. Closed sys.kernel path (chunks_of pieces) k s) place done,
    )

length-pieces :
    (zstd : Zstd) (kernel : Kernel) (pos offset : ℕ) (pieces : List Piece)
    → PiecesAt zstd kernel pos offset pieces
    → length pieces ≤ length (pieces_bytes offset pieces)
length-pieces zstd kernel pos offset [] at = omega arith
length-pieces zstd kernel pos offset (piece ∷ pieces) (at, ats) =
    let behind = pieces_bytes (offset + length (chunk_of piece)) pieces in
    let some_byte = piece_bytes_nonempty zstd kernel pos offset piece at in
    let more =
      length-pieces zstd kernel (pos + length (piece_bytes offset piece))
        (offset + length (chunk_of piece)) pieces ats in
    let both = length-append (piece_bytes offset piece) behind in omega arith

process_data_in-expected :
    (zstd : Zstd) (sys : System) (bytes : List ℕ) (p q : PartProcessor)
    → p.state ≡ state_expect_local_header
    → p.frame_buffer ≡ []
    → process_loop zstd sys (loop_fuel bytes) bytes p ≡ some (finished q)
    → part_processor_process_data zstd sys bytes p ≡ some (ok q)
unfolding part_processor_process_data process_data_in process_work
process_data_in-expected zstd sys bytes p q st unbuffered e = ground (arith, st, unbuffered, e)

process_loop-[] :
    (zstd : Zstd) (sys : System) (fuel : ℕ) (p : PartProcessor)
    → process_loop zstd sys fuel [] p ≡ some (finished p)
unfolding process_loop
process_loop-[] zstd sys zero p = refl
process_loop-[] zstd sys (suc fuel) p = refl

-- One call of `part_processor_process_data` with the bytes of a whole entry, on a processor that
-- expects a local header, holds no buffered bytes and has no file open, succeeds and leaves no file
-- open, and the file then holds exactly the bytes that the frames decompress to, in order; it goes
-- on behind the descriptor. The entry is a local header (not the padding entry), frames that
-- libzstd knows and decompresses, padding frames, Start-of-Part frames at multiples of 8 MiB that
-- name the offset reached, and a descriptor of the expected length. Assumed: the next entry of the
-- part is a regular file of that size that can be opened and has not been written, the kernel
-- writes what it is given, and sizes and offsets are below 2 ^ 64.
pub part_processor_process_data-file_bytes :
    (zstd : Zstd) (sys : System) (h : Header) (pieces : List Piece) (m : FileMetadata)
    (d : DataDescriptor) (p : PartProcessor)
    → Works sys.kernel
    → IsHeader h
    → Opens sys p m
    → p.state ≡ state_expect_local_header
    → p.frame_buffer ≡ []
    → p.current_file ≡ none
    → content_of sys.kernel (output_path p m) p.ops [] ≡ []
    → PiecesAt zstd sys.kernel
        (p.part_start_offset + p.bytes_processed + length (header_bytes h))
        0
        pieces
    → d.signature ≡ zip_data_descriptor_sig
    → m.uncompressed_size ≡ length (chunks_of pieces)
    → m.uncompressed_size < 2 ^ 64
    → p.part_start_offset + p.bytes_processed + length (file_bytes h pieces m d) < 2 ^ 64
    → (q : PartProcessor) × (part_processor_process_data zstd sys (file_bytes h pieces m d) p
        ≡ some (ok q))
      × Closed sys.kernel
          (output_path p m)
          (chunks_of pieces)
          (p.part_start_offset + p.bytes_processed + length (file_bytes h pieces m d))
          q
part_processor_process_data-file_bytes zstd sys h pieces m d p works is opening st unbuffered
      no_file empty at signature size small near =
    let start = p.part_start_offset + p.bytes_processed in
    let bytes = file_bytes h pieces m d in
    let outer = length-append (header_bytes h) (pieces_bytes 0 pieces ++ descriptor_bytes m d) in
    let inner = length-append (pieces_bytes 0 pieces) (descriptor_bytes m d) in
    let few = length-pieces zstd sys.kernel (start + length (header_bytes h)) 0 pieces at in
    let fuel = loop_fuel bytes - length pieces - 2 in
    let enough : loop_fuel bytes ≡ suc (suc fuel + length pieces) = omega arith in
    let (q, run, done) =
      process_loop-file_bytes zstd sys h pieces m d fuel [] p works is opening st no_file empty at
        signature size small near in
    (
      q,
      process_data_in-expected zstd sys bytes p q st unbuffered (
          ap (λ n. process_loop zstd sys n bytes p) enough
          ∙ ap (λ b. process_loop zstd sys (suc (suc fuel + length pieces)) b p)
              (sym (append-nil bytes))
          ∙ run
          ∙ process_loop-[] zstd sys fuel q),
      done,
    )
