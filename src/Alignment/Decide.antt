-- ===== src/Alignment/Decide.antt =====
-- `alignment_next_boundary` and `alignment_decide` of src/writer/alignment.c.
use burst.Base.{ℕ, ◌+◌, ◌-◌, ◌%◌, ◌^◌, ◌≤◌, ◌<◌, ◌≡◌, ◌≢◌, ◌⊎◌, Bool, true, false, arith}
use burst.Zip.{part_size}
use burst.Alignment.{
  AlignmentAction, write_frame, pad_then_frame, pad_then_metadata, write_frame_then_metadata,
  alignment_next_boundary, space_until, alignment_decide,
}

-- The next boundary is a multiple of the part size above the offset, by one part size at most,
-- where nothing wraps.
pub next_boundary_least :
    (offset : ℕ)
    → offset + part_size < 2 ^ 64
    → (alignment_next_boundary offset % part_size ≡ 0)
      × (offset < alignment_next_boundary offset)
      × (alignment_next_boundary offset ≤ offset + part_size)
unfolding alignment_next_boundary
next_boundary_least offset h = omega arith

-- The space up to the boundary, also where the uint64_t offset has wrapped.
pub space_until-mod : (pos : ℕ) → space_until (pos % 2 ^ 64) ≡ part_size - pos % part_size
unfolding alignment_next_boundary
space_until-mod pos = omega arith

-- What an action means for a frame of `size` bytes, with `space` bytes left in the part and `padding`
-- bytes in the padding frame. At the end of a file a data descriptor of 16 bytes follows.
abbrev pub Fits : AlignmentAction → Bool → ℕ → ℕ → ℕ → Type 0
Fits write_frame true space size padding = (size + 24 ≤ space) ⊎ (size + 16 ≡ space)
Fits write_frame false space size padding = size + 8 ≤ space
Fits pad_then_frame at_file_end space size padding = ⊥
Fits pad_then_metadata true space size padding =
    (padding + 8 ≡ space) × (space < size + 24) × (space ≢ size + 16)
Fits pad_then_metadata false space size padding =
    (padding + 8 ≡ space) × (space < size + 8) × (space ≢ size)
Fits write_frame_then_metadata true space size padding = ⊥
Fits write_frame_then_metadata false space size padding = size ≡ space

-- With 8 bytes at least left in the part: a frame that is written where it stands ends before the
-- boundary with room for a skippable frame, or, followed by its descriptor or by metadata, ends at
-- the boundary. Padding ends at the boundary, and is chosen only for a frame that fits neither way.
-- `pad_then_frame` is never chosen.
pub alignment_decide-Fits :
    (pos size : ℕ) (at_file_end : Bool)
    → 8 ≤ part_size - pos % part_size
    → size + 24 < 2 ^ 64
    → let d = alignment_decide (pos % 2 ^ 64) size at_file_end in
      Fits d.action at_file_end (part_size - pos % part_size) size d.padding_size
unfolding alignment_decide
alignment_decide-Fits pos size true room small = ground (arith, space_until-mod pos)
alignment_decide-Fits pos size false room small = ground (arith, space_until-mod pos)

-- The decision names the boundary and carries the flag that it was given.
pub alignment_decide-next_boundary :
    (offset size : ℕ) (at_file_end : Bool)
    → ((alignment_decide offset size at_file_end).next_boundary ≡ alignment_next_boundary offset)
      × ((alignment_decide offset size at_file_end).at_file_end ≡ at_file_end)
unfolding alignment_decide
alignment_decide-next_boundary offset size at_file_end = ground arith
