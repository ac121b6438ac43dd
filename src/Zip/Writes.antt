-- ===== src/Zip/Writes.antt =====
-- What the functions of src/writer/zip_structures.c append to the stream.
use burst.Base.{
  ℕ, zero, suc, ◌+◌, ◌%◌, ◌^◌, ◌≤◌, ◌<◌, ◌≡◌, Bool, true, false, List, ◌++◌, append-nil, arith,
  length, replicate, length-replicate,
}
use burst.Zip.{
  zip_data_descriptor_sig, padding_lfh_filename, padding_lfh_min_size, local_header_bytes,
  data_descriptor_bytes, data_descriptor_zip64_bytes,
}
use burst.Zip.Records.{
  write_data_descriptor, padding_extra_len, padding_header, write_padding_extra, write_padding_lfh,
}
use burst.Sink.{Env, ok, ◌>>=◌, burst_writer_write, count_padding}
use burst.Sink.Buffer.{Appends, stream}
use burst.Sink.Rules.{Writes, Writes-bind, Writes-last, count_padding-Writes, write-Writes}

abbrev pub descriptor_bytes : ℕ → ℕ → ℕ → Bool → List ℕ
descriptor_bytes crc32 compressed_size uncompressed_size true =
    data_descriptor_zip64_bytes (record {
      signature = zip_data_descriptor_sig;
      crc32 = crc32;
      compressed_size = compressed_size;
      uncompressed_size = uncompressed_size;
    })
descriptor_bytes crc32 compressed_size uncompressed_size false = data_descriptor_bytes (record {
  signature = zip_data_descriptor_sig;
  crc32 = crc32;
  compressed_size = compressed_size % 2 ^ 32;
  uncompressed_size = uncompressed_size % 2 ^ 32;
})

-- The local header and the file name of a padding entry; its extra field is a run of zeros behind.
abbrev pub padding_lfh_bytes : Env → ℕ → List ℕ
padding_lfh_bytes env target_size =
    local_header_bytes (padding_header env target_size)
    ++ (padding_lfh_filename ++ replicate (padding_extra_len target_size) 0)

module _ (env : Env) (appends : Appends env) where
  pub write_data_descriptor-Writes :
      (crc32 compressed_size uncompressed_size : ℕ) (use_zip64 : Bool)
      → Writes
          (write_data_descriptor env crc32 compressed_size uncompressed_size use_zip64)
          (descriptor_bytes crc32 compressed_size uncompressed_size use_zip64)
  unfolding write_data_descriptor
  write_data_descriptor-Writes crc32 compressed_size uncompressed_size true =
      write-Writes env appends _
  write_data_descriptor-Writes crc32 compressed_size uncompressed_size false =
      write-Writes env appends _

  write_padding_extra-Writes : (n : ℕ) → Writes (write_padding_extra env n) (replicate n 0)
  unfolding write_padding_extra
  write_padding_extra-Writes zero s t v e = ground (arith, append-nil (stream s))
  write_padding_extra-Writes (suc n) s t v e =
      write-Writes env appends (replicate (suc n) 0) s t v (ground arith)

  -- A successful call appends the padding entry, and it is only made for sizes that hold one.
  pub write_padding_lfh-Writes :
      (target_size : ℕ)
      → Writes (write_padding_lfh env target_size) (padding_lfh_bytes env target_size)
  unfolding write_padding_lfh
  write_padding_lfh-Writes target_size s t v e = write_parts s t v (ground arith)
    where
      write_parts :
          Writes
            (λ s.
              burst_writer_write env (local_header_bytes (padding_header env target_size)) s
              >>= (λ s. burst_writer_write env padding_lfh_filename s >>= (λ s.
                  write_padding_extra env (padding_extra_len target_size) s
                  >>= (λ s. ok (count_padding target_size s)))))
            (padding_lfh_bytes env target_size)
      write_parts =
          Writes-bind _ _ (local_header_bytes (padding_header env target_size)) _
            (write-Writes env appends _)
            (Writes-bind _ _ padding_lfh_filename _ (write-Writes env appends _)
              (Writes-last _ _ _ (write_padding_extra-Writes _) (count_padding-Writes target_size)))

  -- The padding entry is as long as was asked, from 44 bytes up to what the 16-bit length of its
  -- extra field can hold.
  pub length-padding_lfh_bytes :
      (target_size : ℕ)
      → padding_lfh_min_size ≤ target_size
      → target_size < 2 ^ 16 + padding_lfh_min_size
      → length (padding_lfh_bytes env target_size) ≡ target_size
  length-padding_lfh_bytes target_size lo hi =
      omega (arith, length-replicate {A = ℕ} (padding_extra_len target_size) 0)
