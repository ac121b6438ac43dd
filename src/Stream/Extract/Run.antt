-- ===== src/Stream/Extract/Run.antt =====
-- The loop of `part_processor_process_data` over the data of one file.
use mathlib.Core.Path.{subst}
use burst.Base.{
  ℕ, suc, ◌+◌, ◌^◌, ◌<◌, ◌≡◌, refl, ap, ◌∙◌, List, [], ◌∷◌, ◌++◌, append_assoc, append-nil, arith,
  length, length-append, length-replicate, drop-append,
}
use burst.Alignment.Frames.{padding_frame_bytes}
use burst.Btrfs.{Kernel}
use burst.Frame.{Zstd}
use burst.Stream.{FileContext, PartProcessor, System}
use burst.Stream.Step.{advanced, round_in, process_loop}
use burst.Stream.Step.Stuck.{process_loop-advanced}
use burst.Stream.Extract.{Works}
use burst.Stream.Extract.Pieces.{
  Piece, frame, padding, start_of_part, chunk_of, piece_bytes, PieceAt, Writing, Taken, frame-Taken,
  padding-Taken, start-Taken,
}

-- The loop takes a piece in one round.
pub round-process_loop :
    (zstd : Zstd) (sys : System) (fuel : ℕ) (bytes rest : List ℕ) (p q : PartProcessor)
    → 0 < length bytes
    → round_in zstd sys (bytes ++ rest) p p.state ≡ advanced (length bytes) q
    → process_loop zstd sys (suc fuel) (bytes ++ rest) p ≡ process_loop zstd sys fuel rest q
round-process_loop zstd sys fuel [] rest p q some_byte e = absurd (omega arith)
round-process_loop zstd sys fuel (x ∷ xs) rest p q some_byte e =
    process_loop-advanced zstd sys fuel x (xs ++ rest) p q (length (x ∷ xs)) e
    ∙ ap (λ b. process_loop zstd sys fuel b q) (drop-append (length (x ∷ xs)) (x ∷ xs) rest refl)

pub piece_bytes_nonempty :
    (zstd : Zstd) (kernel : Kernel) (pos offset : ℕ) (piece : Piece)
    → PieceAt zstd kernel pos piece
    → 0 < length (piece_bytes offset piece)
piece_bytes_nonempty zstd kernel pos offset (frame bytes chunk) at =
    let long = at.long in omega arith
piece_bytes_nonempty zstd kernel pos offset (padding n) at = omega arith
piece_bytes_nonempty zstd kernel pos offset start_of_part at = omega arith

piece-Taken :
    (zstd : Zstd) (sys : System) (f : FileContext) (piece : Piece) (rest content : List ℕ)
    (offset pos : ℕ) (p : PartProcessor)
    → Works sys.kernel
    → offset ≡ length content
    → PieceAt zstd sys.kernel pos piece
    → Writing sys.kernel f content pos p
    → length (content ++ chunk_of piece) < 2 ^ 64
    → pos + length (piece_bytes offset piece) < 2 ^ 64
    → Taken sys.kernel f
        (content ++ chunk_of piece)
        pos
        (length (piece_bytes offset piece))
        (round_in zstd sys (piece_bytes offset piece ++ rest) p p.state)
piece-Taken zstd sys f (frame bytes chunk) rest content offset pos p works here at w small near =
    frame-Taken zstd sys f bytes chunk rest content pos p works at w small near
piece-Taken zstd sys f (padding n) rest content offset pos p works here at w small near =
    let long : length (padding_frame_bytes n) ≡ n + 8 =
      let zeros = length-replicate {A = ℕ} n 0 in omega arith in
    rw (append-nil content, long) (padding-Taken zstd sys f n rest content pos p at w (omega arith))
piece-Taken zstd sys f start_of_part rest content offset pos p works here at w small near =
    rw (append-nil content, here)
      (start-Taken zstd sys f rest content pos p at w
        (let same = length-append content [] in omega arith) near)

-- The pieces of a file from an offset on, in the archive from a position on.
abbrev pub pieces_bytes : ℕ → List Piece → List ℕ
pieces_bytes offset [] = []
pieces_bytes offset (piece ∷ pieces) =
    piece_bytes offset piece ++ pieces_bytes (offset + length (chunk_of piece)) pieces

abbrev pub chunks_of : List Piece → List ℕ
chunks_of [] = []
chunks_of (piece ∷ pieces) = chunk_of piece ++ chunks_of pieces

abbrev pub PiecesAt : Zstd → Kernel → ℕ → ℕ → List Piece → Type 0
PiecesAt zstd kernel pos offset [] = Unit {0}
PiecesAt zstd kernel pos offset (piece ∷ pieces) =
    PieceAt zstd kernel pos piece
    × PiecesAt zstd kernel (pos + length (piece_bytes offset piece))
        (offset + length (chunk_of piece)) pieces

-- The loop takes the pieces one by one, and the file then holds what they decompress to.
pub process_loop-pieces :
    (zstd : Zstd) (sys : System) (f : FileContext) (pieces : List Piece) (fuel : ℕ)
    (rest content : List ℕ) (offset pos : ℕ) (p : PartProcessor)
    → Works sys.kernel
    → offset ≡ length content
    → PiecesAt zstd sys.kernel pos offset pieces
    → Writing sys.kernel f content pos p
    → offset + length (chunks_of pieces) < 2 ^ 64
    → pos + length (pieces_bytes offset pieces) < 2 ^ 64
    → (q : PartProcessor) × (process_loop zstd sys
          (fuel + length pieces)
          (pieces_bytes offset pieces ++ rest)
          p
        ≡ process_loop zstd sys fuel rest q)
      × Writing sys.kernel f
          (content ++ chunks_of pieces)
          (pos + length (pieces_bytes offset pieces))
          q
process_loop-pieces zstd sys f [] fuel rest content offset pos p works same at w small near =
    let none_yet : fuel + 0 ≡ fuel = omega arith in
    let here : pos ≡ pos + 0 = omega arith in
    (
      p,
      ap (λ n. process_loop zstd sys n rest p) none_yet,
      subst (λ k. Writing sys.kernel f (content ++ []) k p) here (rw (append-nil content) w),
    )
process_loop-pieces zstd sys f (piece ∷ pieces) fuel rest content offset pos p works here (at, ats)
      w small near =
    let bytes = piece_bytes offset piece in
    let behind = pieces_bytes (offset + length (chunk_of piece)) pieces in
    let both = length-append content (chunk_of piece) in
    let all_chunks = length-append (chunk_of piece) (chunks_of pieces) in
    let all_bytes = length-append bytes behind in
    let (q, step, w') =
      piece-Taken zstd sys f piece (behind ++ rest) content offset pos p works here at w
        (omega arith) (omega arith) in
    let (r, steps, w'') =
      process_loop-pieces zstd sys f pieces fuel rest (content ++ chunk_of piece)
        (offset + length (chunk_of piece)) (pos + length bytes) q works (omega arith) ats w'
        (omega arith) (omega arith) in
    let place : pos + length bytes + length behind ≡ pos + length (bytes ++ behind) = omega arith in
    let one_more : fuel + length (piece ∷ pieces) ≡ suc (fuel + length pieces) = omega arith in
    (
      r,
      ap (λ n. process_loop zstd sys n ((bytes ++ behind) ++ rest) p) one_more
          ∙ ap (λ b. process_loop zstd sys (suc (fuel + length pieces)) b p)
              (append_assoc bytes behind rest)
          ∙ round-process_loop zstd sys (fuel + length pieces) bytes (behind ++ rest) p q
              (piece_bytes_nonempty zstd sys.kernel pos offset piece at) step
          ∙ steps,
      subst (λ k. Writing sys.kernel f (content ++ (chunk_of piece ++ chunks_of pieces)) k r) place
          (rw (append_assoc content (chunk_of piece) (chunks_of pieces)) at w''),
    )
