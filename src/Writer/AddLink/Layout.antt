-- ===== src/Writer/AddLink/Layout.antt =====
-- What `burst_writer_add_symlink` and `burst_writer_add_directory` lay out.
use burst.Base.{
  inl, ℕ, ◌+◌, ◌-◌, ◌^◌, ◌<◌, ◌≡◌, false, refl, List, [], ◌∷◌, ◌++◌, append_assoc, arith, length,
}
use mathlib.Core.Path.{subst}
use burst.Zip.{padding_lfh_min_size}
use burst.Sink.{Env, Sink, ok, ◌>>=◌, or_fail, burst_writer_write}
use burst.Sink.Buffer.{Appends, IsValid, >>=-eq-ok, or_fail-eq-ok}
use burst.Layout.{Item, local_header, link_target, Lays, Lays-trans, EntryItems}
use burst.Writer.{
  FileEntry, BurstWriter, ensure_file_capacity, Lfh, lfh_bytes, allocate_file_entry,
  check_alignment_and_pad, add_entry,
}
use burst.Writer.Steps.{Room, write_item, header_step, in_sink-eq-ok, ensure_file_capacity-sink}
use burst.Writer.AddLink.{
  add_symlink_entry, burst_writer_add_symlink, add_directory_entry, burst_writer_add_directory,
}

-- A header with its content, and the padding entry in front of it where there is one.
abbrev pub AddedEntry : Env → Lfh → ℕ → List Item → Sink → Sink → Type 0
AddedEntry env lfh lfh_len content s t =
    (items : List Item) × EntryItems lfh lfh_len content items
    × Lays env items s t
    × Room padding_lfh_min_size t

module _ (env : Env) (appends : Appends env) where
  add_symlink_entry-Lays :
      (lfh : Lfh) (lfh_len : ℕ) (target : List ℕ) (unix_mode uid gid : ℕ) (entry : FileEntry)
      (w w' : BurstWriter)
      → 0 < lfh_len
      → lfh_len + length target < 2 ^ 16 - 24
      → IsValid w.sink
      → Room padding_lfh_min_size w.sink
      → add_symlink_entry env lfh lfh_len target unix_mode uid gid entry w ≡ ok w'
      → AddedEntry env lfh lfh_len (link_target target ∷ []) w.sink w'.sink
  unfolding add_symlink_entry add_entry
  add_symlink_entry-Lays lfh lfh_len target unix_mode uid gid entry w w' nonempty small v room e =
      let (t, checked, e1) =
        in_sink-eq-ok w (check_alignment_and_pad env lfh_len (length target) false w.sink) _ e in
      let w1 : BurstWriter = record w { sink = t } in
      let (u, headed, e2) =
        in_sink-eq-ok w1 (burst_writer_write env (lfh_bytes lfh lfh_len) t) _ e1 in
      let (x, written, e3) =
        in_sink-eq-ok (record w1 { sink = u }) (burst_writer_write env target u) _ e2 in
      let (pad, is_pad, l, inside, here) =
        header_step env appends lfh lfh_len (length target) false w.sink t u v room nonempty small
          checked headed in
      let (m, at) =
        write_item env appends (link_target target) target u x refl l.valid written
          (omega (arith, here), inl (λ z. omega (arith, z))) in
      let same : x ≡ w'.sink = ground (arith, e3) in
      subst (AddedEntry env lfh lfh_len (link_target target ∷ []) w.sink) same (
        (pad ++ (local_header lfh lfh_len ∷ [])) ++ (link_target target ∷ []),
        (pad, is_pad, append_assoc pad (local_header lfh lfh_len ∷ []) (link_target target ∷ [])),
        Lays-trans env _ _ w.sink u x l m,
        omega (arith, at, here),
      )

  -- A successful `burst_writer_add_symlink`, from a valid sink with room for a padding entry before
  -- the next boundary, appends a padding entry or none, the caller's header and the target, of
  -- which none crosses a boundary and only the header stands at one, and leaves such room again,
  -- when the header and the target together are shorter than 64 KiB - 24 and `fwrite` appends.
  pub burst_writer_add_symlink-Lays :
      (lfh : Lfh) (lfh_len : ℕ) (target : List ℕ) (unix_mode uid gid : ℕ) (w w' : BurstWriter)
      → lfh_len + length target < 2 ^ 16 - 24
      → IsValid w.sink
      → Room padding_lfh_min_size w.sink
      → burst_writer_add_symlink env lfh lfh_len target unix_mode uid gid w ≡ ok w'
      → AddedEntry env lfh lfh_len (link_target target ∷ []) w.sink w'.sink
  unfolding burst_writer_add_symlink
  burst_writer_add_symlink-Lays lfh lfh_len target unix_mode uid gid w w' small v room e =
      let rest : (ensure_file_capacity env w >>= λ w.
      or_fail (allocate_file_entry env lfh) w
        λ entry. add_symlink_entry env lfh lfh_len target unix_mode uid gid entry w)
          ≡ ok w' =
        ground arith in
      let (w1, grown, e1) = >>=-eq-ok (ensure_file_capacity env w) _ rest in
      let (entry, _, e2) = or_fail-eq-ok (allocate_file_entry env lfh) w1 _ e1 in
      let (same, _, _, _, _) = ensure_file_capacity-sink env w w1 grown in
      subst (λ s. AddedEntry env lfh lfh_len (link_target target ∷ []) s w'.sink) same
        (add_symlink_entry-Lays lfh lfh_len target unix_mode uid gid entry w1 w' (ground arith)
          small (rw same v) (rw same room) e2)

  add_directory_entry-Lays :
      (lfh : Lfh) (lfh_len unix_mode uid gid : ℕ) (entry : FileEntry) (w w' : BurstWriter)
      → 0 < lfh_len
      → lfh_len < 2 ^ 16 - 24
      → IsValid w.sink
      → Room padding_lfh_min_size w.sink
      → add_directory_entry env lfh lfh_len unix_mode uid gid entry w ≡ ok w'
      → AddedEntry env lfh lfh_len [] w.sink w'.sink
  unfolding add_directory_entry
  add_directory_entry-Lays lfh lfh_len unix_mode uid gid entry w w' nonempty small v room e =
      let (t, checked, e1) =
        in_sink-eq-ok w (check_alignment_and_pad env lfh_len 0 false w.sink) _ e in
      let w1 : BurstWriter = record w { sink = t } in
      let (u, headed, e2) =
        in_sink-eq-ok w1 (burst_writer_write env (lfh_bytes lfh lfh_len) t) _ e1 in
      let (pad, is_pad, l, inside, here) =
        header_step env appends lfh lfh_len 0 false w.sink t u v room nonempty (omega arith) checked
          headed in
      let same : u ≡ w'.sink = ground (arith, e2) in
      subst (AddedEntry env lfh lfh_len [] w.sink) same
        (pad ++ (local_header lfh lfh_len ∷ []), (pad, is_pad, refl), l, omega (arith, here))

  -- A successful `burst_writer_add_directory`, from a valid sink with room for a padding entry
  -- before the next boundary, appends a padding entry or none and the caller's header, of which
  -- none crosses a boundary and only the header stands at one, and leaves such room again, when the
  -- header is shorter than 64 KiB - 24 and `fwrite` appends.
  pub burst_writer_add_directory-Lays :
      (lfh : Lfh) (lfh_len unix_mode uid gid : ℕ) (w w' : BurstWriter)
      → lfh_len < 2 ^ 16 - 24
      → IsValid w.sink
      → Room padding_lfh_min_size w.sink
      → burst_writer_add_directory env lfh lfh_len unix_mode uid gid w ≡ ok w'
      → AddedEntry env lfh lfh_len [] w.sink w'.sink
  unfolding burst_writer_add_directory
  burst_writer_add_directory-Lays lfh lfh_len unix_mode uid gid w w' small v room e =
      let rest : (ensure_file_capacity env w >>= λ w.
      or_fail (allocate_file_entry env lfh) w
        λ entry. add_directory_entry env lfh lfh_len unix_mode uid gid entry w)
          ≡ ok w' =
        ground arith in
      let (w1, grown, e1) = >>=-eq-ok (ensure_file_capacity env w) _ rest in
      let (entry, _, e2) = or_fail-eq-ok (allocate_file_entry env lfh) w1 _ e1 in
      let (same, _, _, _, _) = ensure_file_capacity-sink env w w1 grown in
      subst (λ s. AddedEntry env lfh lfh_len [] s w'.sink) same
        (add_directory_entry-Lays lfh lfh_len unix_mode uid gid entry w1 w' (ground arith) small
          (rw same v) (rw same room) e2)
