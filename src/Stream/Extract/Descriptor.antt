-- ===== src/Stream/Extract/Descriptor.antt =====
-- The data descriptor of an entry, at which `part_processor_process_data` closes the file.
use burst.Base.{
  ℕ, ◌+◌, ◌%◌, ◌^◌, ◌<◌, ◌≡◌, refl, ap, ◌∙◌, inl, inr, none, some, List, [], ◌∷◌, ◌++◌, arith,
  if◌then◌else◌, Bool-cases, length,
}
use burst.Zip.{
  zip_data_descriptor_sig, DataDescriptor, data_descriptor_bytes, data_descriptor_zip64_bytes,
}
use burst.Btrfs.{closed, Kernel}
use burst.Parser.{FileMetadata}
use burst.Frame.{frame_zip_data_descriptor, Zstd, sized, parse_next_frame}
use burst.Stream.{state_expect_local_header, FileContext, PartProcessor, System}
use burst.Stream.Files.{mode_ops, owner_ops, close_ops, close_output_file, context_of}
use burst.Stream.Step.{advanced, descriptor_size, processing_frame, round_in}
use burst.Stream.Extract.{
  content_after, content_of, content_of-append, truncated-length, same_bytes_refl,
}
use burst.Stream.Extract.Pieces.{Writing, round_in-processing, file_with}

-- A descriptor with the sizes that the central directory lets expect.
abbrev pub descriptor_bytes : FileMetadata → DataDescriptor → List ℕ
descriptor_bytes m d =
    if m.uses_zip64_descriptor then data_descriptor_zip64_bytes d else data_descriptor_bytes d

-- A file that was written and closed.
pub record Closed (kernel : Kernel) (path content : List ℕ) (pos : ℕ) (p : PartProcessor)
    : Type 0 where
  pub state : p.state ≡ state_expect_local_header
  pub file : p.current_file ≡ none
  pub place : p.part_start_offset + p.bytes_processed ≡ pos
  pub held : content_of kernel path p.ops [] ≡ content

descriptor_bytes-found :
    (zstd : Zstd) (m : FileMetadata) (d : DataDescriptor) (rest : List ℕ)
    → d.signature ≡ zip_data_descriptor_sig
    → parse_next_frame zstd (descriptor_bytes m d ++ rest) ≡ sized frame_zip_data_descriptor 16
unfolding parse_next_frame
descriptor_bytes-found zstd m d rest signature = elim (Bool-cases m.uses_zip64_descriptor) [
  | inl wide ↦ ground (arith, wide, signature)
  | inr narrow ↦ ground (arith, narrow, signature)
]

descriptor_size-length :
    (path content : List ℕ) (m : FileMetadata) (d : DataDescriptor) (p : PartProcessor)
    → p.current_file ≡ some (file_with (context_of path m) content)
    → descriptor_size p ≡ length (descriptor_bytes m d)
descriptor_size-length path content m d p file = elim (Bool-cases m.uses_zip64_descriptor) [
  | inl wide ↦ ground (arith, wide, file)
  | inr narrow ↦ ground (arith, narrow, file)
]

metadata_ops-content :
    (sys : System) (f : FileContext) (path content : List ℕ)
    → content_of sys.kernel path
        (mode_ops f ++ (owner_ops sys f ++ (closed f.filename ∷ [])))
        content
      ≡ content
unfolding content_of content_after
metadata_ops-content sys f path content = ground arith

pub descriptor_bytes_nonempty :
    (m : FileMetadata) (d : DataDescriptor) → 0 < length (descriptor_bytes m d)
descriptor_bytes_nonempty m d = elim (Bool-cases m.uses_zip64_descriptor) [
  | inl wide ↦ ground (arith, wide)
  | inr narrow ↦ ground (arith, narrow)
]

-- Closing cuts the file to the size that it has.
close_ops-content :
    (sys : System) (path content : List ℕ) (m : FileMetadata)
    → m.uncompressed_size ≡ length content
    → content_of sys.kernel path (close_ops sys (file_with (context_of path m) content)) content
      ≡ content
unfolding content_of content_after
close_ops-content sys path content m size =
    let f = file_with (context_of path m) content in
    ap (content_of sys.kernel path (mode_ops f ++ (owner_ops sys f ++ (closed path ∷ []))))
      (ground (arith, same_bytes_refl path, truncated-length m.uncompressed_size content size))
    ∙ metadata_ops-content sys f path content

pub descriptor_taken :
    (zstd : Zstd) (sys : System) (path : List ℕ) (m : FileMetadata) (d : DataDescriptor)
    (rest content : List ℕ) (pos : ℕ) (p : PartProcessor)
    → d.signature ≡ zip_data_descriptor_sig
    → m.uncompressed_size ≡ length content
    → Writing sys.kernel (context_of path m) content pos p
    → pos + length (descriptor_bytes m d) < 2 ^ 64
    → (q : PartProcessor) × (round_in zstd sys (descriptor_bytes m d ++ rest) p p.state
        ≡ advanced (length (descriptor_bytes m d)) q)
      × Closed sys.kernel path content (pos + length (descriptor_bytes m d)) q
unfolding processing_frame close_output_file
descriptor_taken zstd sys path m d rest content pos p signature size w near =
    let file = w.file in
    let there = w.place in
    let f = file_with (context_of path m) content in
    let n = length (descriptor_bytes m d) in
    (
      record p {
        current_file = none;
        ops = p.ops ++ close_ops sys f;
        state = state_expect_local_header;
        bytes_processed = (p.bytes_processed + n) % 2 ^ 64;
      },
      round_in-processing zstd sys _ p _ w.state (descriptor_bytes-found zstd m d rest signature)
          ∙ rw (descriptor_size-length path content m d p file, file) refl,
      record {
        state = refl;
        file = refl;
        place = omega arith;
        held =
            content_of-append sys.kernel path p.ops (close_ops sys f) []
            ∙ ap (content_of sys.kernel path (close_ops sys f)) w.held
            ∙ close_ops-content sys path content m size;
      },
    )
