-- ===== src/Alignment.antt =====
-- src/writer/alignment.c: where the next frame goes, and the two kinds of skippable frame that fill
-- a part up to its boundary and open the next one.
pub mod Decide
pub mod Frames
use burst.Base.{
  ℕ, zero, suc, ◌+◌, ◌-◌, ◌*◌, ◌/◌, ◌%◌, ◌^◌, ◌≤◌, ◌<◌, ◌≡◌, refl, sym, ap, ◌∙◌, ◌≢◌, ◌⊎◌, inl, inr,
  Bool, true, false, not, ◌&&◌, ◌||◌, Option, none, some, List, [], ◌∷◌, ◌++◌, map, append_assoc,
  append-nil, arith, ltb, leb, ◌==◌, if◌then◌else◌, Bool-cases, Option-cases, le_of_leb,
  lt_of_leb-false, lt_of_ltb, le_of_ltb-false, ltb_of_lt, ltb-false_of_le, leb_of_le, eq_of_==,
  ==_of_eq, length, get_or, get_elem?, take, drop, replicate, All, length-append, take-append-drop,
  length-take, length-drop, length-replicate, take-append, drop-append, get_or-append, length-map,
}
use burst.Bytes.{le32, le64}
use burst.Zip.{part_size, min_skippable_frame_size, burst_magic_number}
use burst.Sink.{
  Tm, Env, Outcome, ok, failed, ◌>>=◌, Sink, buffer_used, burst_writer_flush, to_copy, copied,
  copy_chunk, write_loop, burst_writer_write, count_padding, alignment_get_write_position,
}

-- `enum alignment_action`
pub data AlignmentAction : Type 0 where
  write_frame pad_then_frame pad_then_metadata write_frame_then_metadata : AlignmentAction

pub record AlignmentDecision : Type 0 where
  pub action : AlignmentAction
  pub padding_size : ℕ
  pub next_boundary : ℕ
  pub at_file_end : Bool

unfoldable pub alignment_next_boundary : ℕ → ℕ
alignment_next_boundary current_offset = (current_offset / part_size + 1) * part_size % 2 ^ 64

-- `next_boundary - current_offset` on uint64_t.
abbrev pub space_until : ℕ → ℕ
space_until current_offset =
    (alignment_next_boundary current_offset + 2 ^ 64 - current_offset) % 2 ^ 64

-- `frame_size`, and the 16 bytes of a data descriptor at the end of the file.
abbrev pub space_required : ℕ → Bool → ℕ
space_required frame_size at_file_end =
    if at_file_end then (frame_size + 16) % 2 ^ 64 else frame_size

unfoldable pub alignment_decide : ℕ → ℕ → Bool → AlignmentDecision
alignment_decide current_offset frame_size at_file_end =
    let next_boundary = alignment_next_boundary current_offset in
    let space = space_until current_offset in
    let required = space_required frame_size at_file_end in
    let exact : AlignmentAction = if at_file_end then write_frame else write_frame_then_metadata in
    if space == required
    then record {
      action = exact;
      padding_size = 0;
      next_boundary = next_boundary;
      at_file_end = at_file_end;
    }
    else if leb ((required + min_skippable_frame_size) % 2 ^ 64) space
    then record {
      action = write_frame;
      padding_size = 0;
      next_boundary = next_boundary;
      at_file_end = at_file_end;
    }
    else record {
      action = pad_then_metadata;
      padding_size = (space + 2 ^ 64 - 8) % 2 ^ 64;
      next_boundary = next_boundary;
      at_file_end = at_file_end;
    }

-- The zeros of a padding frame, from a buffer that is allocated for them.
unfoldable pub write_padding_zeros : Env → ℕ → Sink → Outcome Sink
write_padding_zeros env padding_size s =
    let written = do
      s ← burst_writer_write env (replicate padding_size 0) s
      ok (count_padding (padding_size % 2 ^ 32) s)
    in if ltb 0 padding_size then (if env.alloc padding_size then written else failed s) else ok s

unfoldable pub alignment_write_padding_frame : Env → ℕ → Sink → Outcome Sink
alignment_write_padding_frame env padding_size s = do
  s ← burst_writer_write env (le32 burst_magic_number) s
  s ← burst_writer_write env (le32 (padding_size % 2 ^ 32)) (count_padding 4 s)
  write_padding_zeros env padding_size (count_padding 4 s)

unfoldable pub alignment_write_start_of_part_frame : Env → ℕ → Sink → Outcome Sink
alignment_write_start_of_part_frame env uncompressed_offset s = do
  s ← burst_writer_write env (le32 burst_magic_number) s
  s ← burst_writer_write env (le32 16) s
  s ← burst_writer_write env (0x01 ∷ []) s
  s ← burst_writer_write env (le64 uncompressed_offset) s
  s ← burst_writer_write env (replicate 7 0) s
  ok (count_padding 24 s)
