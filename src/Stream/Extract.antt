-- ===== src/Stream/Extract.antt =====
-- What a run of the stream processor leaves in a file, as a list of bytes: the view of the file
-- system operations that forgets how the bytes were written.
pub mod Pieces
pub mod Run
pub mod File
pub mod Descriptor
pub mod Entry
use mathlib.Core.Path.{ap₂}
use burst.Base.{
  take_all, drop_all, ℕ, zero, suc, ◌+◌, ◌-◌, ◌*◌, ◌/◌, ◌%◌, ◌^◌, ◌≤◌, ◌<◌, ◌≡◌, refl, sym, ap, ◌∙◌,
  ◌≢◌, ◌⊎◌, inl, inr, Bool, true, false, not, ◌&&◌, ◌||◌, Option, none, some, List, [], ◌∷◌, ◌++◌,
  map, append_assoc, append-nil, arith, ltb, leb, ◌==◌, if◌then◌else◌, Bool-cases, Option-cases,
  le_of_leb, lt_of_leb-false, lt_of_ltb, le_of_ltb-false, ltb_of_lt, ltb-false_of_le, leb_of_le,
  eq_of_==, ==_of_eq, length, get_or, get_elem?, take, drop, replicate, All, length-append,
  take-append-drop, length-take, length-drop, length-replicate, take-append, drop-append,
  get_or-append, length-map,
}
use burst.Btrfs.{
  FileOp, directory_made, opened, closed, unlinked, encoded_written, bytes_written, truncated,
  mode_set, owner_set, symlinked, IoctlAnswer, ioctl_done, not_supported, ioctl_failed, Kernel,
  WriteError, invalid_args, ioctl_error, decompress_failed, write_failed, Written, written,
  write_error, max_extent_size, write_bytes, do_write_unencoded, do_write_encoded,
}
use burst.Stream.Files.{
  directory_prefixes, directory_paths, make_directories, ensure_directory_exists, mode_ops,
  owner_ops, close_ops, close_output_file, ends_with_slash, context_of, output_path, open_context,
  open_output_file, at_offset, open_continuing, handle_start_of_part_frame, handle_zstd_frame,
  HeaderResult, header_opened, header_skipped, header_incomplete, header_failed, header_result,
  same_bytes, is_padding_lfh, next_metadata, handle_local_header,
}
use burst.Frame.{
  FrameType, frame_zstd_compressed, frame_burst_padding, frame_burst_start_of_part,
  frame_zip_local_header, frame_zip_data_descriptor, frame_zip_central_directory, frame_unknown,
  FrameInfo, FrameResult, success, need_more_data, invalid_frame, FrameSizeAnswer, size_is,
  src_size_wrong, other_error, Zstd, zstd_magic_number, burst_type_start_of_part, sized,
  local_header_frame, zstd_frame, skippable_frame, parse_next_frame, PartsPlan,
  calculate_parts_to_download,
}
use burst.Bytes.{le16, le32, le64, byte_at, u16_at, u32_at, u64_at, u16_le, u32_le, u64_at-le64}

-- Bytes written at an offset; a gap before them reads as zeros.
abbrev pub write_at : ℕ → List ℕ → List ℕ → List ℕ
write_at offset bytes content =
    take offset (content ++ replicate (offset - length content) 0)
    ++ (bytes ++ drop (offset + length bytes) content)

abbrev pub decompressed : Kernel → List ℕ → List ℕ
decompressed kernel frame = elim (kernel.decompress frame) [ some bytes ↦ bytes | none ↦ [] ]

-- What an operation makes of the contents of the file at `path`.
unfoldable pub content_after : Kernel → List ℕ → FileOp → List ℕ → List ℕ
content_after kernel path (encoded_written p frame size offset) content =
    if same_bytes p path then write_at offset (decompressed kernel frame) content else content
content_after kernel path (bytes_written p bytes offset) content =
    if same_bytes p path then write_at offset bytes content else content
content_after kernel path (truncated p size) content =
    if same_bytes p path
    then take size (content ++ replicate (size - length content) 0)
    else content
content_after kernel path other content = content

-- The contents of a file that was not there at the start.
unfoldable pub content_of : Kernel → List ℕ → List FileOp → List ℕ → List ℕ
content_of kernel path [] content = content
content_of kernel path (op ∷ ops) content =
    content_of kernel path ops (content_after kernel path op content)

pub content_of-append :
    (kernel : Kernel) (path : List ℕ) (ops more : List FileOp) (content : List ℕ)
    → content_of kernel path (ops ++ more) content
      ≡ content_of kernel path more (content_of kernel path ops content)
unfolding content_of
content_of-append kernel path [] more content = refl
content_of-append kernel path (op ∷ ops) more content =
    content_of-append kernel path ops more (content_after kernel path op content)

no_gap : (n : ℕ) (xs : List ℕ) → n ≡ length xs → xs ++ replicate (n - length xs) 0 ≡ xs
no_gap n xs e =
    let none_left : n - length xs ≡ 0 = omega arith in
    ap (λ k. xs ++ replicate k 0) none_left ∙ append-nil xs

-- A write at the end appends.
pub write_at-length :
    (offset : ℕ) (bytes content : List ℕ)
    → offset ≡ length content
    → write_at offset bytes content ≡ content ++ bytes
write_at-length offset bytes content e =
    ap₂ (λ a b. a ++ (bytes ++ b))
      (ap (take offset) (no_gap offset content e) ∙ take_all offset content (omega arith))
      (drop_all (offset + length bytes) content (omega arith))
    ∙ ap (λ b. content ++ b) (append-nil bytes)

-- A file is cut to the size that it has.
pub truncated-length :
    (size : ℕ) (content : List ℕ)
    → size ≡ length content
    → take size (content ++ replicate (size - length content) 0) ≡ content
truncated-length size content e =
    ap (take size) (no_gap size content e) ∙ take_all size content (omega arith)

pub same_bytes_refl : (xs : List ℕ) → same_bytes xs xs ≡ true
same_bytes_refl [] = refl
same_bytes_refl (x ∷ xs) = ground (arith, same_bytes_refl xs)

-- A frame that libzstd knows for a whole frame of `chunk`, with anything behind it.
pub record FrameOf (zstd : Zstd) (kernel : Kernel) (frame chunk : List ℕ) : Type 0 where
  pub magic : u32_at frame 0 ≡ zstd_magic_number
  pub long : 4 ≤ length frame
  pub size :
      (rest : List ℕ) → zstd.find_frame_compressed_size (frame ++ rest) ≡ size_is (length frame)
  pub content : (rest : List ℕ) → zstd.frame_content_size (frame ++ rest) ≡ some (length chunk)
  pub extent : length chunk ≤ max_extent_size
  pub decompresses : kernel.decompress frame ≡ some chunk

-- The kernel writes all that it is given, compressed or, where it cannot, as it is.
pub record Works (kernel : Kernel) : Type 0 where
  pub ioctl : (ops : List FileOp) (frame : List ℕ) → kernel.encoded_write ops frame ≢ ioctl_failed
  pub pwrite : (ops : List FileOp) (bytes : List ℕ) → kernel.pwrite ops bytes ≡ some (length bytes)
  pub context : kernel.has_decompress_context ≡ true
  pub buffer : kernel.has_decompress_buffer ≡ true

IoctlAnswer-cases :
    (a : IoctlAnswer) → (a ≡ ioctl_done) ⊎ ((a ≡ not_supported) ⊎ (a ≡ ioctl_failed))
IoctlAnswer-cases ioctl_done = inl refl
IoctlAnswer-cases not_supported = inr (inl refl)
IoctlAnswer-cases ioctl_failed = inr (inr refl)

fallback-appends :
    (zstd : Zstd) (kernel : Kernel) (ops : List FileOp) (path frame chunk content : List ℕ)
    (offset : ℕ)
    → Works kernel
    → FrameOf zstd kernel frame chunk
    → offset ≡ length content
    → (do_write_unencoded kernel ops path frame (length chunk) offset
        ≡ written (bytes_written path chunk offset))
      × (content_after kernel path (bytes_written path chunk offset) content ≡ content ++ chunk)
unfolding do_write_unencoded content_after
fallback-appends zstd kernel ops path frame chunk content offset works is_frame here =
    let some_bytes : (length frame == 0) ≡ false = let long = is_frame.long in ground arith in
    let fits : ltb max_extent_size (length chunk) ≡ false =
      ltb-false_of_le max_extent_size (length chunk) is_frame.extent in
    let same : (length chunk == length chunk) ≡ true =
      ==_of_eq (length chunk) (length chunk) refl in
    (
      ground (
        arith,
        some_bytes,
        fits,
        works.context,
        works.buffer,
        is_frame.decompresses,
        works.pwrite ops chunk,
        same,
      ),
      ground (arith, same_bytes_refl path, write_at-length offset chunk content here),
    )

-- `do_write_encoded` of a frame at the end of the file appends the chunk, by whichever way.
pub do_write_encoded-appends :
    (zstd : Zstd) (kernel : Kernel) (ops : List FileOp) (path frame chunk content : List ℕ)
    (offset : ℕ)
    → Works kernel
    → FrameOf zstd kernel frame chunk
    → offset ≡ length content
    → (op : FileOp) × (do_write_encoded kernel ops path frame (length chunk) offset ≡ written op)
      × (content_after kernel path op content ≡ content ++ chunk)
unfolding do_write_encoded content_after
do_write_encoded-appends zstd kernel ops path frame chunk content offset works is_frame here =
    let some_bytes : (length frame == 0) ≡ false = let long = is_frame.long in ground arith in
    let fits : ltb max_extent_size (length chunk) ≡ false =
      ltb-false_of_le max_extent_size (length chunk) is_frame.extent in
    let (back, appended) =
      fallback-appends zstd kernel ops path frame chunk content offset works is_frame here in
    elim (Bool-cases (leb (length chunk) (length frame))) [
      | inl small ↦ (bytes_written path chunk offset, rw (some_bytes, small) back, appended)
      | inr large ↦ elim (IoctlAnswer-cases (kernel.encoded_write ops frame)) [
        | inl done ↦ (
          encoded_written path frame (length chunk) offset,
          rw (some_bytes, large, fits, done) refl,
          ground (
            arith,
            same_bytes_refl path,
            is_frame.decompresses,
            write_at-length offset chunk content here,
          ),
        )
        | inr other ↦ elim other [
          | inl unsupported ↦ (
            bytes_written path chunk offset,
            rw (some_bytes, large, fits, unsupported) back,
            appended,
          )
          | inr failing ↦ absurd (works.ioctl ops frame failing)
        ]
      ]
    ]
