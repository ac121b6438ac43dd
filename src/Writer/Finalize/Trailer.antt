-- ===== src/Writer/Finalize/Trailer.antt =====
-- What `burst_writer_finalize` leaves in the file.
use burst.Base.{
  ℕ, ◌+◌, ◌-◌, ◌%◌, ◌^◌, ◌≤◌, ◌<◌, ◌≡◌, refl, sym, ap, ◌∙◌, List, [], ◌++◌, append_assoc,
  append-nil, arith, length, length-append,
}
use mathlib.Core.Path.{subst₂}
use burst.Zip.{end_central_dir_bytes, zip64_end_central_dir_bytes, zip64_locator_bytes}
use burst.Zip.Fields.{build_burst_eocd_comment}
use burst.Zip.Records.{
  zip64_end_record, write_zip64_end_central_directory, zip64_locator,
  write_zip64_end_central_directory_locator, end_record, write_end_central_directory,
}
use burst.Sink.{
  Env, Outcome, ok, failed, ◌>>=◌, Sink, burst_writer_flush, alignment_get_write_position,
}
use burst.Sink.Buffer.{
  Appends, stream, IsValid, Wrote, burst_writer_flush-Wrote, write_position-stream, >>=-eq-ok,
}
use burst.Sink.Rules.{Writes, Writes-bind, write-Writes}
use burst.Writer.{FileEntry, BurstWriter, in_sink}
use burst.Writer.CentralDirectory.{write_central_directory, find_first_cdfh_in_tail}
use burst.Writer.CentralDirectory.Sizes.{central_directory_bytes, write_central_directory-Writes}
use burst.Writer.Finalize.{write_trailer, finalize_sink, burst_writer_finalize}

-- The records at the end of an archive whose directory stands at `start` and ends at `end`.
abbrev pub trailer_bytes : List FileEntry → ℕ → ℕ → List ℕ
trailer_bytes files start end =
    zip64_end_central_dir_bytes (zip64_end_record (length files) start (end - start))
    ++ (zip64_locator_bytes (zip64_locator end)
        ++ (end_central_dir_bytes (end_record (length files) start (end - start))
            ++ build_burst_eocd_comment (find_first_cdfh_in_tail files start (end + 106))))

-- All that follows the entries.
abbrev pub ending_bytes : List FileEntry → ℕ → List ℕ
ending_bytes files start =
    central_directory_bytes files
    ++ trailer_bytes files start (start + length (central_directory_bytes files))

size_lem :
    (start end : ℕ)
    → start ≤ end
    → end + 106 < 2 ^ 64
    → (end + 2 ^ 64 - start) % 2 ^ 64 ≡ end - start
size_lem start end le bound = omega arith

total_lem : (end : ℕ) → end + 106 < 2 ^ 64 → (end + 56 + 20 + 22 + 8) % 2 ^ 64 ≡ end + 106
total_lem end bound = omega arith

in_sink-ok :
    (w w' : BurstWriter) (r : Outcome Sink)
    → in_sink w r ≡ ok w'
    → (s : Sink) × (r ≡ ok s) × (record w { sink = s } ≡ w')
in_sink-ok w w' (ok s) e = (s, refl, ground arith)
in_sink-ok w w' (failed s) e = cc

module _ (env : Env) (appends : Appends env) where
  records-Writes :
      (n start size end first : ℕ)
      → Writes
          (λ s. write_zip64_end_central_directory env n start size s >>= λ s.
            write_zip64_end_central_directory_locator env end s >>= λ s.
            write_end_central_directory env n start size first s)
          (zip64_end_central_dir_bytes (zip64_end_record n start size)
            ++ (zip64_locator_bytes (zip64_locator end)
                ++ (end_central_dir_bytes (end_record n start size)
                    ++ build_burst_eocd_comment first)))
  unfolding write_zip64_end_central_directory write_zip64_end_central_directory_locator
      write_end_central_directory
  records-Writes n start size end first =
      Writes-bind _ _ (zip64_end_central_dir_bytes (zip64_end_record n start size)) _
        (write-Writes env appends _)
        (Writes-bind _ _ (zip64_locator_bytes (zip64_locator end)) _ (write-Writes env appends _) (
          Writes-bind _ _ (end_central_dir_bytes (end_record n start size)) _
            (write-Writes env appends _) (write-Writes env appends _)))

  write_trailer-Writes :
      (files : List FileEntry) (start end : ℕ)
      → start ≤ end
      → end + 106 < 2 ^ 64
      → Writes (write_trailer env files start end) (trailer_bytes files start end)
  unfolding write_trailer
  write_trailer-Writes files start end le bound =
      subst₂
        (λ size total. Writes (write_trailer env files start end) (
          zip64_end_central_dir_bytes (zip64_end_record (length files) start size)
          ++ (zip64_locator_bytes (zip64_locator end)
              ++ (end_central_dir_bytes (end_record (length files) start size)
                  ++ build_burst_eocd_comment (find_first_cdfh_in_tail files start total)))))
        (size_lem start end le bound) (total_lem end bound)
        (records-Writes (length files) start _ end _)

  -- The directory starts where the flushed file ends, and the records start where the directory does.
  directory_bounds :
      (files : List FileEntry) (s t x : Sink)
      → length (stream s) + length (central_directory_bytes files) + 106 < 2 ^ 64
      → Wrote [] s t
      → t.write_buffer ≡ []
      → Wrote (central_directory_bytes files) t x
      → (t.current_offset ≡ length (stream s))
        × (alignment_get_write_position x
            ≡ length (stream s) + length (central_directory_bytes files))
        × (stream t ≡ stream s)
  directory_bounds files s t x bound flushed empty listed =
      let kept : stream t ≡ stream s = flushed.appended ∙ append-nil (stream s) in
      let here : length (stream t) ≡ length t.output =
        ap (λ b. length (t.output ++ b)) empty ∙ ap length (append-nil t.output) in
      let size : length (stream x) ≡ length (stream t) + length (central_directory_bytes files) =
        ap length listed.appended ∙ length-append (stream t) (central_directory_bytes files) in
      (
        omega (arith, flushed.valid.counted, here, ap length kept),
        omega (arith, write_position-stream env appends x listed.valid, size, ap length kept),
        kept,
      )

  -- The four steps of the function, each with what it left.
  finalize_steps :
      (files : List FileEntry) (s t x y u : Sink)
      → IsValid s
      → length (stream s) + length (central_directory_bytes files) + 106 < 2 ^ 64
      → burst_writer_flush env s ≡ ok t
      → write_central_directory env files t ≡ ok x
      → write_trailer env files t.current_offset (alignment_get_write_position x) x ≡ ok y
      → burst_writer_flush env y ≡ ok u
      → (u.output ≡ stream s ++ ending_bytes files (length (stream s))) × (u.write_buffer ≡ [])
  finalize_steps files s t x y u v bound e1 e2 e3 e4 =
      let (flushed, empty) =
        burst_writer_flush-Wrote env appends s t (omega (arith, v.room)) v.counted e1 in
      let listed : Wrote (central_directory_bytes files) t x =
        write_central_directory-Writes env appends files t x flushed.valid e2 in
      let (start, end, kept) = directory_bounds files s t x bound flushed empty listed in
      let trailed : Wrote
          (trailer_bytes files (length (stream s))
            (length (stream s) + length (central_directory_bytes files)))
          x y =
        write_trailer-Writes files (length (stream s))
          (length (stream s) + length (central_directory_bytes files)) (omega arith) (omega arith) x
          y listed.valid (rw (start, end) at e3) in
      let (closed, drained) =
        burst_writer_flush-Wrote env appends y u (omega (arith, trailed.valid.room))
          trailed.valid.counted e4 in
      (
        sym (append-nil u.output)
            ∙ ap (λ b. u.output ++ b) (sym drained)
            ∙ closed.appended
            ∙ append-nil (stream y)
            ∙ trailed.appended
            ∙ ap
                (λ b.
                  b
                  ++ trailer_bytes files (length (stream s))
                      (length (stream s) + length (central_directory_bytes files)))
                (listed.appended ∙ ap (λ b. b ++ central_directory_bytes files) kept)
            ∙ append_assoc (stream s) (central_directory_bytes files) (
                trailer_bytes files (length (stream s))
                  (length (stream s) + length (central_directory_bytes files))),
        drained,
      )

  finalize_sink_lem :
      (files : List FileEntry) (s u : Sink)
      → IsValid s
      → length (stream s) + length (central_directory_bytes files) + 106 < 2 ^ 64
      → finalize_sink env files s ≡ ok u
      → (u.output ≡ stream s ++ ending_bytes files (length (stream s))) × (u.write_buffer ≡ [])
  unfolding finalize_sink
  finalize_sink_lem files s u v bound e =
      let (t, e1, r1) = >>=-eq-ok (burst_writer_flush env s) _ e in
      let (x, e2, r2) = >>=-eq-ok (write_central_directory env files t) _ r1 in
      let (y, e3, e4) =
        >>=-eq-ok (write_trailer env files t.current_offset (alignment_get_write_position x) x) _
          r2 in
      finalize_steps files s t x y u v bound e1 e2 e3 e4

  -- After a successful `burst_writer_finalize` on a valid sink, of an archive below 2 ^ 64 bytes,
  -- the buffer is empty and the file holds all that was written before, then the central directory,
  -- then the records that say where the directory starts and how long it is.
  pub burst_writer_finalize_lem :
      (w w' : BurstWriter)
      → IsValid w.sink
      → length (stream w.sink) + length (central_directory_bytes w.files) + 106 < 2 ^ 64
      → burst_writer_finalize env w ≡ ok w'
      → (w'.sink.output ≡ stream w.sink ++ ending_bytes w.files (length (stream w.sink)))
        × (w'.sink.write_buffer ≡ [])
        × (w'.files ≡ w.files)
  unfolding burst_writer_finalize
  burst_writer_finalize_lem w w' v bound e =
      let (u, done, same) = in_sink-ok w w' (finalize_sink env w.files w.sink) e in
      let (file, empty) = finalize_sink_lem w.files w.sink u v bound done in
      ground (arith, same, file, empty)
