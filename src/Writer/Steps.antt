-- ===== src/Writer/Steps.antt =====
-- One call after another: what each function that the add functions make use of lays out, and how
-- much room it leaves before the next boundary.
use burst.Base.{
  ℕ, ◌+◌, ◌-◌, ◌%◌, ◌^◌, ◌≤◌, ◌<◌, ◌≡◌, refl, sym, ap, ◌∙◌, inl, inr, Bool, List, [], ◌∷◌, ◌++◌,
  arith, ltb, if◌then◌else◌, Bool-cases, length, length-take, length-replicate,
}
use Prim.Native.Nat.{min}
use mathlib.Core.Path.{subst}
use burst.Zip.{part_size, padding_lfh_min_size, local_header_bytes}
use burst.Zip.Records.{write_padding_lfh}
use burst.Zip.Writes.{padding_lfh_bytes, write_padding_lfh-Writes, length-padding_lfh_bytes}
use burst.Sink.{
  Env, Outcome, ok, failed, ◌>>=◌, Sink, burst_writer_write, alignment_get_write_position,
}
use burst.Sink.Buffer.{
  Appends, stream, IsValid, Wrote, burst_writer_write-Wrote, write_position-stream, >>=-eq-ok,
}
use burst.Alignment.{
  space_until, alignment_write_padding_frame, alignment_write_start_of_part_frame,
}
use burst.Alignment.Decide.{space_until-mod}
use burst.Alignment.Frames.{
  padding_frame_bytes, start_of_part_bytes, alignment_write_padding_frame-Writes,
  alignment_write_start_of_part_frame-Writes,
}
use burst.Layout.{
  Item, item_bytes, local_header, padding_entry, start_of_part, padding_frame, Placed, Lays,
  Lays-refl, Lays-trans, Lays-one, length-Wrote, IsPadding,
}
use burst.Writer.{
  BurstWriter, in_sink, ensure_file_capacity, Lfh, lfh_bytes, header_space_needed,
  check_alignment_and_pad,
}

-- Where the stream of a sink ends, and that at least `k` bytes of the part are left.
abbrev pub position : Sink → ℕ
position s = length (stream s)

abbrev pub Room : ℕ → Sink → Type 0
Room k s = position s % part_size + k ≤ part_size

-- Inside the data of a file: not at a boundary, and room for a skippable frame.
abbrev pub InFile : Sink → Type 0
InFile s = (1 ≤ position s % part_size) × Room 8 s

module _ (env : Env) (appends : Appends env) where
  -- Any successful write that fits its part, as an item.
  pub write_item :
      (i : Item) (src : List ℕ) (s t : Sink)
      → item_bytes env i ≡ src
      → IsValid s
      → burst_writer_write env src s ≡ ok t
      → Placed (position s) i (length src)
      → Lays env (i ∷ []) s t × (position t ≡ position s + length src)
  write_item i src s t same v e p =
      let w : Wrote src s t = burst_writer_write-Wrote env appends src s t v e in
      (Lays-one env i src s t same w p, length-Wrote src s t w)

  -- From a valid sink at a boundary, a successful `alignment_write_start_of_part_frame` appends the
  -- bytes of the frame with its offset, which lie in one part, and ends 24 bytes behind the
  -- boundary, when `fwrite` appends.
  pub start_of_part_step :
      (offset : ℕ) (s t : Sink)
      → IsValid s
      → position s % part_size ≡ 0
      → alignment_write_start_of_part_frame env offset s ≡ ok t
      → Lays env (start_of_part offset ∷ []) s t × (position t % part_size ≡ 24)
  start_of_part_step offset s t v at e =
      let w : Wrote (start_of_part_bytes offset) s t =
        alignment_write_start_of_part_frame-Writes env appends offset s t v e in
      (
        Lays-one env (start_of_part offset) (start_of_part_bytes offset) s t refl w
            (omega arith, inr tt),
        omega (arith, length-Wrote (start_of_part_bytes offset) s t w),
      )

  -- A padding frame that fills the part.
  pub padding_step :
      (n : ℕ) (s t : Sink)
      → IsValid s
      → InFile s
      → n + 8 ≡ part_size - position s % part_size
      → alignment_write_padding_frame env n s ≡ ok t
      → Lays env (padding_frame n ∷ []) s t × (position t % part_size ≡ 0)
  padding_step n s t v inside fills e =
      let w : Wrote (padding_frame_bytes n) s t =
        alignment_write_padding_frame-Writes env appends n s t v e in
      let size : length (padding_frame_bytes n) ≡ n + 8 =
        omega (arith, length-replicate {A = ℕ} n 0) in
      (
        Lays-one env (padding_frame n) (padding_frame_bytes n) s t refl w
            (omega (arith, size), inl (λ z. omega (arith, z))),
        omega (arith, size, length-Wrote (padding_frame_bytes n) s t w),
      )

  -- Padding to the boundary and a Start-of-Part frame behind it.
  pub pad_and_open :
      (n offset : ℕ) (s u : Sink)
      → IsValid s
      → InFile s
      → n + 8 ≡ part_size - position s % part_size
      → (alignment_write_padding_frame env n s >>= alignment_write_start_of_part_frame env offset)
        ≡ ok u
      → Lays env (padding_frame n ∷ start_of_part offset ∷ []) s u × (position u % part_size ≡ 24)
  pad_and_open n offset s u v inside fills e =
      let (t, first, second) = >>=-eq-ok (alignment_write_padding_frame env n s) _ e in
      let (l, at) = padding_step n s t v inside fills first in
      let (m, done) = start_of_part_step offset t u l.valid at second in
      (Lays-trans env _ _ s t u l m, done)

  -- A padding entry that fills the part.
  padding_lfh_step :
      (n : ℕ) (s t : Sink)
      → IsValid s
      → 1 ≤ position s % part_size
      → n ≡ part_size - position s % part_size
      → padding_lfh_min_size ≤ n
      → n < 2 ^ 16 + padding_lfh_min_size
      → write_padding_lfh env n s ≡ ok t
      → Lays env (padding_entry n ∷ []) s t × (position t % part_size ≡ 0)
  padding_lfh_step n s t v inside fills lo hi e =
      let w : Wrote (padding_lfh_bytes env n) s t =
        write_padding_lfh-Writes env appends n s t v e in
      let size : length (padding_lfh_bytes env n) ≡ n =
        length-padding_lfh_bytes env appends n lo hi in
      (
        Lays-one env (padding_entry n) (padding_lfh_bytes env n) s t refl w
            (rw size (omega arith), inl (λ z. omega (arith, z))),
        let l : position t ≡ position s + n =
              length-Wrote (padding_lfh_bytes env n) s t w ∙ ap (λ m. position s + m) size in
            omega (arith, l),
      )

  -- A successful `check_alignment_and_pad`, from a valid sink with room for a padding entry,
  -- appends nothing or one padding entry that does not cross the boundary, and leaves room in the
  -- part for the header, its content, a descriptor where one follows, and a padding entry. Header
  -- and content together are shorter than 64 KiB - 24, and `fwrite` appends.
  pub check_alignment_and_pad-Lays :
      (lfh_len content_size : ℕ) (dd : Bool) (s t : Sink)
      → IsValid s
      → Room padding_lfh_min_size s
      → lfh_len + content_size < 2 ^ 16 - 24
      → check_alignment_and_pad env lfh_len content_size dd s ≡ ok t
      → (pad : List Item) × IsPadding pad
        × Lays env pad s t
        × Room (lfh_len + content_size + padding_lfh_min_size + (if dd then 24 else 0)) t
  unfolding check_alignment_and_pad
  check_alignment_and_pad-Lays lfh_len content_size dd s t v room small e =
      elim (Bool-cases (
        ltb (space_until (alignment_get_write_position s))
          (header_space_needed lfh_len content_size dd))) [
            | inl short ↦
                (let (l, at) =
                    padding_lfh_step space s t v (ground (arith, here, small_dd)) here
                      (ground (arith, here)) (ground (arith, here, small_dd)) (ground arith) in
                  (padding_entry space ∷ [], inr (space, refl), l, omega (arith, at, small_dd)))
            | inr fits ↦
                let same : s ≡ t = ground arith in
                (
                  [],
                  inl refl,
                  subst (λ u. Lays env [] s u) same (Lays-refl env s v),
                  rw (sym same) (ground (arith, here, small_dd)),
                )
          ]
    where
      space : ℕ
      space = space_until (alignment_get_write_position s)

      here : space ≡ part_size - position s % part_size
      here = ap space_until (write_position-stream env appends s v) ∙ space_until-mod (position s)

      small_dd : (if dd then 24 else 0) ≤ 24
      small_dd = ground arith

  -- The local header behind that: it starts where a part may begin, and the room it leaves is that
  -- for its content and what follows.
  pub header_step :
      (lfh : Lfh) (lfh_len content_size : ℕ) (dd : Bool) (s t u : Sink)
      → IsValid s
      → Room padding_lfh_min_size s
      → 0 < lfh_len
      → lfh_len + content_size < 2 ^ 16 - 24
      → check_alignment_and_pad env lfh_len content_size dd s ≡ ok t
      → burst_writer_write env (lfh_bytes lfh lfh_len) t ≡ ok u
      → (pad : List Item) × IsPadding pad
        × Lays env (pad ++ (local_header lfh lfh_len ∷ [])) s u
        × (1 ≤ position u % part_size)
        × Room (content_size + padding_lfh_min_size + (if dd then 24 else 0)) u
  header_step lfh lfh_len content_size dd s t u v room nonempty small first second =
      let (pad, is_pad, l, here) =
        check_alignment_and_pad-Lays lfh_len content_size dd s t v room small first in
      let n : length (lfh_bytes lfh lfh_len) ≡ min lfh_len (30 + length lfh.tail) =
        omega (arith, length-take lfh_len (local_header_bytes lfh.header ++ lfh.tail)) in
      let (m, at) =
        write_item (local_header lfh lfh_len) (lfh_bytes lfh lfh_len) t u refl l.valid second
          (omega (arith, n), inr tt) in
      (pad, is_pad, Lays-trans env _ _ s t u l m, omega (arith, at, n), omega (arith, at, n))

-- Inversion of a step that only writes, when another follows.
pub in_sink-eq-ok :
    (w : BurstWriter) (r : Outcome Sink) (k : BurstWriter → Outcome BurstWriter) {w' : BurstWriter}
    → (in_sink w r >>= k) ≡ ok w'
    → (s : Sink) × (r ≡ ok s) × (k (record w { sink = s }) ≡ ok w')
in_sink-eq-ok w (ok s) k e = (s, refl, e)
in_sink-eq-ok w (failed s) k e = cc

-- Growing the array of entries does not touch the output.
pub ensure_file_capacity-sink :
    (env : Env) (w w' : BurstWriter)
    → ensure_file_capacity env w ≡ ok w'
    → (w'.sink ≡ w.sink)
      × (w'.files ≡ w.files)
      × (w'.total_uncompressed ≡ w.total_uncompressed)
      × (w'.total_compressed ≡ w.total_compressed)
      × (w'.compression_level ≡ w.compression_level)
unfolding ensure_file_capacity
ensure_file_capacity-sink env w w' e = ground arith
