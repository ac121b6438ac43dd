-- ===== src/Writer/CentralDirectory/Sizes.antt =====
-- The bytes of the central directory, and their number as `calculate_cdfh_size` reckons it.
use burst.Base.{
  ℕ, ◌+◌, ◌^◌, ◌<◌, ◌≡◌, refl, List, [], ◌∷◌, ◌++◌, append-nil, arith, ltb, if◌then◌else◌, length,
  take, length-append, length-take,
}
use burst.Zip.{central_header_bytes}
use burst.Zip.Fields.{build_unix_extra_field, needed_size, needed_bytes, build_zip64_extra_field}
use burst.Sink.{Env, ok, ◌>>=◌, burst_writer_write}
use burst.Sink.Buffer.{Appends, stream}
use burst.Sink.Rules.{Writes, Writes-bind, write-Writes}
use burst.Writer.{FileEntry}
use burst.Writer.CentralDirectory.{
  need_zip64, unix_extra, zip64_extra, central_header, write_central_entry, write_central_directory,
  calculate_cdfh_size,
}

-- One header with its name and its extra fields; all of them.
abbrev pub cdfh_bytes : FileEntry → List ℕ
cdfh_bytes entry =
    central_header_bytes (central_header entry)
    ++ (take (central_header entry).filename_length entry.filename
        ++ (unix_extra entry ++ zip64_extra entry))

abbrev pub central_directory_bytes : List FileEntry → List ℕ
central_directory_bytes [] = []
central_directory_bytes (entry ∷ entries) = cdfh_bytes entry ++ central_directory_bytes entries

-- A name that the header's 16-bit length can hold.
abbrev pub IsNamed : FileEntry → Type 0
IsNamed entry = length entry.filename < 2 ^ 16

pub length-unix_extra : (entry : FileEntry) → length (unix_extra entry) ≡ 15
unfolding build_unix_extra_field
length-unix_extra entry = refl

pub length-needed_bytes : (x : ℕ) → length (needed_bytes x) ≡ needed_size x
length-needed_bytes x = ground arith

-- The ZIP64 field is always built where it is needed: its buffer is large enough.
pub length-zip64_extra :
    (entry : FileEntry)
    → length (zip64_extra entry) ≡ (
        if need_zip64 entry
        then 4
          + needed_size entry.uncompressed_size
          + needed_size entry.compressed_size
          + needed_size entry.local_header_offset
        else 0)
unfolding build_zip64_extra_field build_unix_extra_field
length-zip64_extra entry = ground (
  arith,
  length-needed_bytes entry.compressed_size,
  length-needed_bytes entry.uncompressed_size,
  length-needed_bytes entry.local_header_offset,
  length-append (needed_bytes entry.compressed_size) (needed_bytes entry.local_header_offset),
  length-append (needed_bytes entry.uncompressed_size)
      (needed_bytes entry.compressed_size ++ needed_bytes entry.local_header_offset),
)

-- For a name below 64 KiB, `calculate_cdfh_size` is the number of bytes that a header takes in the
-- central directory, with its name and extra fields.
pub length-cdfh_bytes :
    (entry : FileEntry) → IsNamed entry → length (cdfh_bytes entry) ≡ calculate_cdfh_size entry
unfolding calculate_cdfh_size
length-cdfh_bytes entry named = ground (
  arith,
  length-unix_extra entry,
  length-zip64_extra entry,
  length-take (central_header entry).filename_length entry.filename,
  length-append (unix_extra entry) (zip64_extra entry),
  length-append (take (central_header entry).filename_length entry.filename)
      (unix_extra entry ++ zip64_extra entry),
)

module _ (env : Env) (appends : Appends env) where
  write_extra-Writes :
      (extra : List ℕ)
      → Writes (λ s. if ltb 0 (length extra) then burst_writer_write env extra s else ok s) extra
  write_extra-Writes [] s t v e = ground (arith, append-nil (stream s))
  write_extra-Writes (x ∷ xs) s t v e = write-Writes env appends (x ∷ xs) s t v (ground arith)

  write_central_entry-Writes :
      (entry : FileEntry) → Writes (write_central_entry env entry) (cdfh_bytes entry)
  unfolding write_central_entry
  write_central_entry-Writes entry s t v e = write_parts s t v (ground arith)
    where
      extra : List ℕ
      extra = unix_extra entry ++ zip64_extra entry

      write_parts :
          Writes
            (λ s. burst_writer_write env (central_header_bytes (central_header entry)) s >>= λ s.
              burst_writer_write env (take (central_header entry).filename_length entry.filename) s
              >>= λ s. if ltb 0 (length extra) then burst_writer_write env extra s else ok s)
            (cdfh_bytes entry)
      write_parts =
          Writes-bind _ _ (central_header_bytes (central_header entry)) _
            (write-Writes env appends _)
            (Writes-bind _ _ (take (central_header entry).filename_length entry.filename) _
              (write-Writes env appends _) (write_extra-Writes extra))

  -- A successful `write_central_directory` appends the headers of all entries, in their order.
  pub write_central_directory-Writes :
      (entries : List FileEntry)
      → Writes (write_central_directory env entries) (central_directory_bytes entries)
  unfolding write_central_directory
  write_central_directory-Writes [] s t v e = ground (arith, append-nil (stream s))
  write_central_directory-Writes (entry ∷ entries) s t v e =
      Writes-bind (write_central_entry env entry) (write_central_directory env entries)
        (cdfh_bytes entry) (central_directory_bytes entries) (write_central_entry-Writes entry)
        (write_central_directory-Writes entries) s t v e
