-- ===== src/Stream/Extract/Pieces.antt =====
-- The data of one file between its local header and its descriptor, piece by piece, in
-- `part_processor_process_data`: frames, padding frames and Start-of-Part frames.
use burst.Base.{
  ℕ, ◌+◌, ◌%◌, ◌^◌, ◌≤◌, ◌<◌, ◌≡◌, refl, ap, ◌∙◌, true, false, some, List, [], ◌∷◌, ◌++◌, arith,
  ltb, ltb-false_of_le, ==_of_eq, length, take, length-append, take-append,
}
use burst.Bytes.{u32_at, u64_at-le64}
use burst.Alignment.Frames.{padding_frame_bytes, start_of_part_bytes}
use burst.Btrfs.{FileOp, Kernel}
use burst.Frame.{
  frame_zstd_compressed, FrameInfo, success, Zstd, zstd_magic_number, parse_next_frame,
}
use burst.Frame.Written.{parse_next_frame-padding_frame_bytes, parse_next_frame-start_of_part_bytes}
use burst.Sink.{ok}
use burst.Stream.{state_processing_frames, FileContext, PartProcessor, System}
use burst.Stream.Files.{handle_start_of_part_frame, handle_zstd_frame}
use burst.Stream.Step.{
  base_alignment, Round, advanced, is_aligned, processing_frame, processing_round, round_in,
}
use burst.Stream.Extract.{
  content_after, content_of, content_of-append, FrameOf, Works, do_write_encoded-appends,
}

-- A frame with the bytes that it decompresses to, padding of so many bytes behind its header, or
-- a Start-of-Part frame.
pub data Piece : Type 0 where
  frame : List ℕ → List ℕ → Piece
  padding : ℕ → Piece
  start_of_part : Piece

-- What a piece adds to the file, and its bytes in the archive where `offset` bytes of the file
-- were written before.
abbrev pub chunk_of : Piece → List ℕ
chunk_of (frame bytes chunk) = chunk
chunk_of (padding n) = []
chunk_of start_of_part = []

abbrev pub piece_bytes : ℕ → Piece → List ℕ
piece_bytes offset (frame bytes chunk) = bytes
piece_bytes offset (padding n) = padding_frame_bytes n
piece_bytes offset start_of_part = start_of_part_bytes offset

-- A piece that may stand `pos` bytes into the archive.
abbrev pub PieceAt : Zstd → Kernel → ℕ → Piece → Type 0
PieceAt zstd kernel pos (frame bytes chunk) = FrameOf zstd kernel bytes chunk
PieceAt zstd kernel pos (padding n) = n + 8 < 2 ^ 32
PieceAt zstd kernel pos start_of_part = pos % base_alignment ≡ 0

-- The processor in the middle of the file `f`, of which `content` is written.
pub record Writing (kernel : Kernel) (f : FileContext) (content : List ℕ) (pos : ℕ)
    (p : PartProcessor) : Type 0 where
  pub state : p.state ≡ state_processing_frames
  pub file : p.current_file ≡ some (record f { fd = true; uncompressed_offset = length content })
  pub place : p.part_start_offset + p.bytes_processed ≡ pos
  pub held : content_of kernel f.filename p.ops [] ≡ content

pub round_in-processing :
    (zstd : Zstd) (sys : System) (b : List ℕ) (p : PartProcessor) (info : FrameInfo)
    → p.state ≡ state_processing_frames
    → parse_next_frame zstd b ≡ success info
    → round_in zstd sys b p p.state ≡ processing_frame sys b info info.type p
unfolding round_in processing_round
round_in-processing zstd sys b p info st found = rw (st, found) refl

u32_at-append : (xs ys : List ℕ) → 4 ≤ length xs → u32_at (xs ++ ys) 0 ≡ u32_at xs 0
u32_at-append [] ys h = absurd (omega arith)
u32_at-append (a ∷ []) ys h = absurd (omega arith)
u32_at-append (a ∷ b ∷ []) ys h = absurd (omega arith)
u32_at-append (a ∷ b ∷ c ∷ []) ys h = absurd (omega arith)
u32_at-append (a ∷ b ∷ c ∷ d ∷ xs) ys h = refl

parse_next_frame-zstd :
    (zstd : Zstd) (kernel : Kernel) (bytes chunk rest : List ℕ)
    → FrameOf zstd kernel bytes chunk
    → parse_next_frame zstd (bytes ++ rest)
      ≡ success (record {
        type = frame_zstd_compressed;
        frame_size = length bytes;
        uncompressed_size = length chunk;
        start_of_part_offset = 0;
      })
unfolding parse_next_frame
parse_next_frame-zstd zstd kernel bytes chunk rest is_frame =
    let magic : u32_at (bytes ++ rest) 0 ≡ zstd_magic_number =
      u32_at-append bytes rest is_frame.long ∙ is_frame.magic in
    let long : ltb (length (bytes ++ rest)) 4 ≡ false =
      let enough = is_frame.long in
      ltb-false_of_le (length (bytes ++ rest)) 4 (rw (length-append bytes rest) (omega arith)) in
    let size = is_frame.size rest in
    let content = is_frame.content rest in rw (long, magic, size, content) refl

-- What a piece does to the processor: it moves behind it, and its chunk is in the file.
abbrev pub Taken : Kernel → FileContext → List ℕ → ℕ → ℕ → Round → Type 0
Taken kernel f content pos n r =
    (q : PartProcessor) × (r ≡ advanced n q) × Writing kernel f content (pos + n) q

-- The open file, of which `content` is written.
abbrev pub file_with : FileContext → List ℕ → FileContext
file_with f content = record f { fd = true; uncompressed_offset = length content }

handle_zstd_frame-appends :
    (zstd : Zstd) (sys : System) (f : FileContext) (bytes chunk content : List ℕ) (pos : ℕ)
    (p : PartProcessor)
    → Works sys.kernel
    → FrameOf zstd sys.kernel bytes chunk
    → Writing sys.kernel f content pos p
    → length (content ++ chunk) < 2 ^ 64
    → (op : FileOp) × (handle_zstd_frame sys bytes (length chunk) p
        ≡ ok (record p {
          current_file = some (file_with f (content ++ chunk));
          ops = p.ops ++ (op ∷ []);
        }))
      × (content_of sys.kernel f.filename (p.ops ++ (op ∷ [])) [] ≡ content ++ chunk)
unfolding handle_zstd_frame content_of
handle_zstd_frame-appends zstd sys f bytes chunk content pos p works is_frame w small =
    let (op, did, appended) =
      do_write_encoded-appends zstd sys.kernel p.ops f.filename bytes chunk content (length content)
        works is_frame refl in
    let opened = w.file in
    let fits : (length content + length chunk) % 2 ^ 64 ≡ length (content ++ chunk) =
      let both = length-append content chunk in omega arith in
    (
      op,
      ground (arith, did, fits),
      content_of-append sys.kernel f.filename p.ops (op ∷ []) []
          ∙ ap (content_after sys.kernel f.filename op) w.held
          ∙ appended,
    )

pub frame-Taken :
    (zstd : Zstd) (sys : System) (f : FileContext) (bytes chunk rest content : List ℕ) (pos : ℕ)
    (p : PartProcessor)
    → Works sys.kernel
    → FrameOf zstd sys.kernel bytes chunk
    → Writing sys.kernel f content pos p
    → length (content ++ chunk) < 2 ^ 64
    → pos + length bytes < 2 ^ 64
    → Taken sys.kernel f
        (content ++ chunk)
        pos
        (length bytes)
        (round_in zstd sys (bytes ++ rest) p p.state)
unfolding processing_frame
frame-Taken zstd sys f bytes chunk rest content pos p works is_frame w small near =
    let (op, handled, held) =
      handle_zstd_frame-appends zstd sys f bytes chunk content pos p works is_frame w small in
    let whole : ltb (length (bytes ++ rest)) (length bytes) ≡ false =
      ltb-false_of_le (length (bytes ++ rest)) (length bytes)
        (rw (length-append bytes rest) (omega arith)) in
    let front : take (length bytes) (bytes ++ rest) ≡ bytes =
      take-append (length bytes) bytes rest refl in
    let there = w.place in
    (
      record p {
        current_file = some (file_with f (content ++ chunk));
        ops = p.ops ++ (op ∷ []);
        bytes_processed = (p.bytes_processed + length bytes) % 2 ^ 64;
      },
      round_in-processing zstd sys _ p _ w.state
            (parse_next_frame-zstd zstd sys.kernel bytes chunk rest is_frame)
          ∙ rw (whole, front, handled) refl,
      record { state = w.state; file = refl; place = omega arith; held = held },
    )

pub padding-Taken :
    (zstd : Zstd) (sys : System) (f : FileContext) (n : ℕ) (rest content : List ℕ) (pos : ℕ)
    (p : PartProcessor)
    → n + 8 < 2 ^ 32
    → Writing sys.kernel f content pos p
    → pos + (n + 8) < 2 ^ 64
    → Taken sys.kernel f content pos
        (n + 8)
        (round_in zstd sys (padding_frame_bytes n ++ rest) p p.state)
unfolding processing_frame
padding-Taken zstd sys f n rest content pos p small w near = (
  _,
  round_in-processing zstd sys _ p _ w.state
      (parse_next_frame-padding_frame_bytes zstd n rest small),
  record {
    state = w.state;
    file = w.file;
    place = let here = w.place in omega arith;
    held = w.held;
  },
)

mod_small : (n : ℕ) → n < 2 ^ 64 → n % 2 ^ 64 ≡ n
mod_small n h = omega arith

pub start-Taken :
    (zstd : Zstd) (sys : System) (f : FileContext) (rest content : List ℕ) (pos : ℕ)
    (p : PartProcessor)
    → pos % base_alignment ≡ 0
    → Writing sys.kernel f content pos p
    → length content < 2 ^ 64
    → pos + 24 < 2 ^ 64
    → Taken sys.kernel f content pos 24
        (round_in zstd sys (start_of_part_bytes (length content) ++ rest) p p.state)
unfolding processing_frame handle_start_of_part_frame
start-Taken zstd sys f rest content pos p aligned w small near =
    let opened = w.file in
    let there = w.place in
    let boundary : is_aligned p ≡ true =
      ==_of_eq ((p.part_start_offset + p.bytes_processed) % 2 ^ 64 % base_alignment) 0
        (rw there (ap (λ k. k % base_alignment) (mod_small pos (omega arith)) ∙ aligned)) in
    let handled : handle_start_of_part_frame sys (start_of_part_bytes (length content) ++ rest) p
        ≡ ok (record p { current_file = some (file_with f content) }) =
      let stored = u64_at-le64 (length content) (0 ∷ 0 ∷ 0 ∷ 0 ∷ 0 ∷ 0 ∷ 0 ∷ rest) small in
      ground (arith, stored) in
    (
      record p {
        current_file = some (file_with f content);
        bytes_processed = (p.bytes_processed + 24) % 2 ^ 64;
      },
      round_in-processing zstd sys _ p _ w.state
            (parse_next_frame-start_of_part_bytes zstd (length content) rest small)
          ∙ rw (boundary, handled) refl,
      record { state = w.state; file = refl; place = omega arith; held = w.held },
    )
