-- ===== src/Writer/AddFile/Layout.antt =====
-- What a whole call of `burst_writer_add_file` lays out.
use burst.Base.{
  ℕ, ◌+◌, ◌-◌, ◌%◌, ◌^◌, ◌≤◌, ◌<◌, ◌≡◌, refl, ap, ◌∙◌, inl, inr, Bool, true, false, ◌||◌, ◌⊎◌, List,
  [], ◌∷◌, ◌++◌, append_assoc, append-nil, arith, ltb, Bool-cases, length,
}
use mathlib.Core.Path.{subst}
use burst.Zip.{part_size, padding_lfh_min_size}
use burst.Zip.Fields.{get_data_descriptor_size, over_32}
use burst.Zip.Records.{write_data_descriptor}
use burst.Zip.Writes.{descriptor_bytes, write_data_descriptor-Writes}
use burst.Sink.{
  Env, Outcome, ok, failed, ◌>>=◌, or_fail, Sink, burst_writer_write, alignment_get_write_position,
}
use burst.Sink.Buffer.{Appends, IsValid, Wrote, write_position-stream, >>=-eq-ok, or_fail-eq-ok}
use burst.Alignment.{space_until}
use burst.Alignment.Decide.{space_until-mod}
use burst.Layout.{
  Item, local_header, descriptor, Lays, Lays-refl, Lays-trans, Lays-one, length-Wrote, FileData,
  ended, padded, opened, FileData-append, EntryItems, DataItems, crc_of,
}
use burst.Writer.{
  FileEntry, BurstWriter, in_sink, ensure_file_capacity, Lfh, lfh_bytes, allocate_file_entry,
  check_alignment_and_pad, add_entry,
}
use burst.Writer.Steps.{
  position, Room, InFile, pad_and_open, header_step, in_sink-eq-ok, ensure_file_capacity-sink,
}
use burst.Writer.AddFile.{
  InputFile, Progress, compress_loop, pad_before_descriptor, sized_entry, finish_file, after_loop,
  write_file_data, is_header_only, write_content, add_file_entry, burst_writer_add_file,
}
use burst.Writer.AddFile.Frames.{
  BoundedFrames, BoundedReads, Advances, chunks_read, compress_loop-Advances, compress_loop-crc_of,
}

-- A descriptor is as long as `get_data_descriptor_size` says, in the format that the sizes ask for.
pub length-descriptor_bytes :
    (crc32 compressed uncompressed : ℕ)
    → length (
        descriptor_bytes crc32 compressed uncompressed (over_32 compressed || over_32 uncompressed))
      ≡ get_data_descriptor_size compressed uncompressed
unfolding get_data_descriptor_size
length-descriptor_bytes crc32 compressed uncompressed = ground arith

descriptor_size_bounds :
    (compressed uncompressed : ℕ)
    → (16 ≤ get_data_descriptor_size compressed uncompressed)
      × (get_data_descriptor_size compressed uncompressed ≤ 24)
unfolding get_data_descriptor_size
descriptor_size_bounds compressed uncompressed = ground arith

-- What a call lays out behind the header: nothing for a file without data, or the data.
abbrev pub FileItems : Env → ℕ → Lfh → List (List ℕ × Bool) → List Item → Type 0
FileItems env level lfh reads content =
    ((is_header_only lfh ≡ true) × (content ≡ []))
    ⊎ ((is_header_only lfh ≡ false) × DataItems env level (chunks_read reads) content)

abbrev pub AddedFile : Env → ℕ → List (List ℕ × Bool) → Lfh → ℕ → Sink → Sink → Type 0
AddedFile env level reads lfh lfh_len s t =
    (items : List Item) × (content : List Item) × FileItems env level lfh reads content
    × EntryItems lfh lfh_len content items
    × Lays env items s t
    × Room padding_lfh_min_size t

module _ (env : Env) (appends : Appends env) where
  -- Before the descriptor there is room for it and for a padding entry behind it.
  pad_before_descriptor-Lays :
      (level compressed uncompressed total : ℕ) (s u : Sink)
      → IsValid s
      → InFile s
      → pad_before_descriptor env compressed uncompressed total s ≡ ok u
      → (pad : List Item) × FileData level total total [] pad
        × Lays env pad s u
        × (1 ≤ position u % part_size)
        × Room (get_data_descriptor_size compressed uncompressed + padding_lfh_min_size) u
  unfolding pad_before_descriptor
  pad_before_descriptor-Lays level compressed uncompressed total s u v inside e =
      elim (Bool-cases (ltb space (size + padding_lfh_min_size + 8))) [
        | inl short ↦
            let (l, at) =
              pad_and_open env appends ((space + 2 ^ 64 - 8) % 2 ^ 64) total s u v inside
                (omega (arith, here)) (ground (arith, short)) in
            (
              _,
              padded (opened (ended refl)),
              l,
              omega (arith, at),
              omega (arith, at, descriptor_size_bounds compressed uncompressed),
            )
        | inr fits ↦
            let same : s ≡ u = ground (arith, fits) in
            let (l, at, room) =
              subst
                (λ t.
                  Lays env [] s t
                  × (1 ≤ position t % part_size)
                  × Room (size + padding_lfh_min_size) t)
                same (Lays-refl env s v, inside.0, ground (arith, here, fits)) in
            ([], ended refl, l, at, room)
      ]
    where
      size : ℕ
      size = get_data_descriptor_size compressed uncompressed

      space : ℕ
      space = space_until (alignment_get_write_position s)

      here : space ≡ part_size - position s % part_size
      here = ap space_until (write_position-stream env appends s v) ∙ space_until-mod (position s)

  -- The descriptor fits behind the data, and leaves room for a padding entry.
  descriptor_step :
      (crc32 compressed uncompressed : ℕ) (s u : Sink)
      → IsValid s
      → 1 ≤ position s % part_size
      → Room (get_data_descriptor_size compressed uncompressed + padding_lfh_min_size) s
      → write_data_descriptor env crc32 compressed uncompressed
          (over_32 compressed || over_32 uncompressed)
          s
        ≡ ok u
      → Lays env (descriptor crc32 compressed uncompressed ∷ []) s u × Room padding_lfh_min_size u
  descriptor_step crc32 compressed uncompressed s u v inside room e =
      let z : Bool = over_32 compressed || over_32 uncompressed in
      let src : List ℕ = descriptor_bytes crc32 compressed uncompressed z in
      let w : Wrote src s u =
        write_data_descriptor-Writes env appends crc32 compressed uncompressed z s u v e in
      let n : length src ≡ get_data_descriptor_size compressed uncompressed =
        length-descriptor_bytes crc32 compressed uncompressed in
      (
        Lays-one env (descriptor crc32 compressed uncompressed) src s u refl w
            (omega (arith, n), inl (λ z. omega (arith, z))),
        omega (arith, n, length-Wrote src s u w),
      )

  -- The data of a file, the padding before the descriptor, and the descriptor.
  finish_file-Lays :
      (level : ℕ) (chunks : List (List ℕ)) (entry : FileEntry) (p : Progress) (s u : Sink)
      → Advances env level 0 p.total_uncompressed chunks s p.sink
      → p.crc ≡ crc_of env 0 chunks
      → finish_file env (sized_entry entry p) p p.sink ≡ ok u
      → (content : List Item) × DataItems env level chunks content
        × Lays env content s u
        × Room padding_lfh_min_size u
  unfolding finish_file sized_entry
  finish_file-Lays level chunks entry p s u (is, d, k, inside) checksum e =
      let (t, first, second) =
        >>=-eq-ok (pad_before_descriptor env _ _ p.total_uncompressed p.sink) _ e in
      let (pad, d', l, at, room) =
        pad_before_descriptor-Lays level _ _ p.total_uncompressed p.sink t k.valid inside first in
      let (m, done) = descriptor_step p.crc _ _ t u l.valid at room second in
      let held : FileData level p.total_uncompressed 0 chunks (is ++ pad) =
        subst (λ cs. FileData level p.total_uncompressed 0 cs (is ++ pad)) (append-nil chunks)
          (FileData-append d d') in
      (
        (is ++ pad) ++ (descriptor p.crc _ p.total_uncompressed ∷ []),
        (
          is ++ pad,
          _,
          p.total_uncompressed,
          held,
          ap
              (λ c.
                (is ++ pad)
                ++ (descriptor c ((sized_entry entry p).compressed_size) p.total_uncompressed ∷ []))
              checksum,
        ),
        Lays-trans env (is ++ pad) _ s t u (Lays-trans env is pad s p.sink t k l) m,
        done,
      )

  after_loop-Lays :
      (level : ℕ) (chunks : List (List ℕ)) (input : InputFile) (entry : FileEntry)
      (w w' : BurstWriter) (r : Outcome Progress) (s : Sink)
      → after_loop env input entry w r ≡ ok w'
      → ((p : Progress) → r ≡ ok p → Advances env level 0 p.total_uncompressed chunks s p.sink)
      → ((p : Progress) → r ≡ ok p → p.crc ≡ crc_of env 0 chunks)
      → (content : List Item) × DataItems env level chunks content
        × Lays env content s w'.sink
        × Room padding_lfh_min_size w'.sink
  unfolding after_loop add_entry
  after_loop-Lays level chunks input entry w w' (failed p) s e steps checksums = cc
  after_loop-Lays level chunks input entry w w' (ok p) s e steps checksums =
      let done : (in_sink (record w { sink = p.sink })
              (finish_file env (sized_entry entry p) p p.sink)
            >>= λ w. ok (add_entry (sized_entry entry p) w))
          ≡ ok w' =
        ground arith in
      let (u, finished, same) =
        in_sink-eq-ok (record w { sink = p.sink }) _ (λ w. ok (add_entry (sized_entry entry p) w))
          done in
      let sink : u ≡ w'.sink = ground arith in
      let (content, held, l, room) =
        finish_file-Lays level chunks entry p s u (steps p refl) (checksums p refl) finished in
      let (l', room') =
        subst (λ t. Lays env content s t × Room padding_lfh_min_size t) sink (l, room) in
      (content, held, l', room')

  module _ (bounded : BoundedFrames env) where
    write_content-Lays :
        (input : InputFile) (lfh : Lfh) (entry : FileEntry) (w w' : BurstWriter)
        → BoundedReads input.reads
        → IsValid w.sink
        → 1 ≤ position w.sink % part_size
        → Room (padding_lfh_min_size + 24) w.sink
        → write_content env input lfh entry w ≡ ok w'
        → (content : List Item) × FileItems env w.compression_level lfh input.reads content
          × Lays env content w.sink w'.sink
          × Room padding_lfh_min_size w'.sink
    unfolding write_content write_file_data add_entry
    write_content-Lays input lfh entry w w' reads v inside room e =
        elim (Bool-cases (is_header_only lfh)) [
          | inl empty ↦
              let same : w.sink ≡ w'.sink = ground (arith, empty) in
              let (l, room') =
                subst (λ t. Lays env [] w.sink t × Room padding_lfh_min_size t) same
                  (Lays-refl env w.sink v, omega arith) in
              ([], inl (empty, refl), l, room')
          | inr full ↦
              let start : Progress = record { sink = w.sink; crc = 0; total_uncompressed = 0 } in
              let looped = compress_loop env w.compression_level input.reads start in
              let done : after_loop env input entry w looped ≡ ok w' = ground (arith, full) in
              let (content, held, l, here) =
                after_loop-Lays w.compression_level (chunks_read input.reads) input entry w w'
                  looped w.sink done
                  (λ p.
                    compress_loop-Advances env appends bounded w.compression_level input.reads start
                      p (omega arith) v (omega arith) reads)
                  (λ p. compress_loop-crc_of env w.compression_level input.reads start p) in
              (content, inr (full, held), l, here)
        ]

    add_file_entry-Lays :
        (input : InputFile) (lfh : Lfh) (lfh_len unix_mode uid gid : ℕ) (entry : FileEntry)
        (w w' : BurstWriter)
        → BoundedReads input.reads
        → 0 < lfh_len
        → lfh_len < 2 ^ 16 - 24
        → IsValid w.sink
        → Room padding_lfh_min_size w.sink
        → add_file_entry env input lfh lfh_len unix_mode uid gid entry w ≡ ok w'
        → AddedFile env w.compression_level input.reads lfh lfh_len w.sink w'.sink
    unfolding add_file_entry
    add_file_entry-Lays input lfh lfh_len unix_mode uid gid entry w w' reads nonempty small v room
          e =
        let (t, checked, e1) =
          in_sink-eq-ok w (check_alignment_and_pad env lfh_len 0 true w.sink) _ e in
        let w1 : BurstWriter = record w { sink = t } in
        let (u, headed, e2) =
          in_sink-eq-ok w1 (burst_writer_write env (lfh_bytes lfh lfh_len) t) _ e1 in
        let (pad, is_pad, l, inside, here) =
          header_step env appends lfh lfh_len 0 true w.sink t u v room nonempty (omega arith)
            checked headed in
        let (content, held, m, done) =
          write_content-Lays input lfh _ (record w1 { sink = u }) w' reads l.valid inside
            (omega (arith, here)) e2 in
        (
          (pad ++ (local_header lfh lfh_len ∷ [])) ++ content,
          content,
          held,
          (pad, is_pad, append_assoc pad (local_header lfh lfh_len ∷ []) content),
          Lays-trans env _ _ w.sink u w'.sink l m,
          done,
        )

    -- A successful `burst_writer_add_file`, from a valid sink with room for a padding entry before
    -- the next boundary, appends a padding entry or none, the caller's header, and, when the header
    -- announces a descriptor, the frames of the chunks that were read, in order, with padding
    -- frames and Start-of-Part frames that name the uncompressed offset reached, and a descriptor
    -- with their checksum and that length; otherwise nothing behind the header. No item crosses a
    -- boundary, only the header and Start-of-Part frames stand at one, and room for a padding entry
    -- is left again. The header is shorter than 64 KiB - 24, a read returns at most a chunk,
    -- `fwrite` appends, and frames are at most twice as long as a chunk.
    pub burst_writer_add_file-Lays :
        (input : InputFile) (lfh : Lfh) (lfh_len unix_mode uid gid : ℕ) (w w' : BurstWriter)
        → BoundedReads input.reads
        → lfh_len < 2 ^ 16 - 24
        → IsValid w.sink
        → Room padding_lfh_min_size w.sink
        → burst_writer_add_file env input lfh lfh_len unix_mode uid gid w ≡ ok w'
        → AddedFile env w.compression_level input.reads lfh lfh_len w.sink w'.sink
    unfolding burst_writer_add_file
    burst_writer_add_file-Lays input lfh lfh_len unix_mode uid gid w w' reads small v room e =
        let rest : (ensure_file_capacity env w >>= λ w.
        or_fail (allocate_file_entry env lfh) w
          λ entry. add_file_entry env input lfh lfh_len unix_mode uid gid entry w)
            ≡ ok w' =
          ground arith in
        let (w1, grown, e1) = >>=-eq-ok (ensure_file_capacity env w) _ rest in
        let (entry, _, e2) = or_fail-eq-ok (allocate_file_entry env lfh) w1 _ e1 in
        let (same, _, _, _, level) = ensure_file_capacity-sink env w w1 grown in
        let added =
          add_file_entry-Lays input lfh lfh_len unix_mode uid gid entry w1 w' reads (ground arith)
            small (rw same v) (rw same room) e2 in
        subst (λ s. AddedFile env w.compression_level input.reads lfh lfh_len s w'.sink) same
          (subst (λ n. AddedFile env n input.reads lfh lfh_len w1.sink w'.sink) level added)
