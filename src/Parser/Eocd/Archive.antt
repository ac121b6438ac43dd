-- ===== src/Parser/Eocd/Archive.antt =====
-- The records that the writer puts at the end of an archive, as the parser finds them in a buffer
-- that holds the end of the archive.
use burst.Base.{
  ℕ, zero, suc, ◌+◌, ◌-◌, ◌%◌, ◌^◌, ◌≤◌, ◌<◌, ◌≡◌, refl, sym, ap, ◌∙◌, ◌≢◌, true, false, some, List,
  [], ◌∷◌, ◌++◌, arith, ltb, leb, ◌==◌, ltb-false_of_le, length, drop, length-append,
}
use burst.Bytes.{byte_at, u32_at, u64_at, u64_at-le64}
use burst.Zip.{
  zip_end_central_dir_sig, zip64_end_central_dir_sig, zip64_end_central_dir_locator_sig,
  end_central_dir_bytes, zip64_end_central_dir_bytes, zip64_locator_bytes,
}
use burst.Zip.Fields.{build_burst_eocd_comment}
use burst.Zip.Records.{zip64_end_record, zip64_locator, end_record}
use burst.Parser.{parsed}
use burst.Parser.Eocd.{
  search_back, eocd_place, find_eocd, parse_zip64_eocd, parse_zip64_place, burst_comment,
  check_extent, central_dir_parse_eocd_only,
}

-- The ZIP64 record, its locator, the end record and the BURST comment.
abbrev pub end_records : ℕ → ℕ → ℕ → ℕ → ℕ → List ℕ
end_records n start size end first =
    zip64_end_central_dir_bytes (zip64_end_record n start size)
    ++ (zip64_locator_bytes (zip64_locator end)
        ++ (end_central_dir_bytes (end_record n start size) ++ build_burst_eocd_comment first))

byte_at-append :
    (pre t : List ℕ) (i j : ℕ) → j ≡ length pre + i → byte_at (pre ++ t) j ≡ byte_at t i
byte_at-append [] t i j e = ap (byte_at t) (omega (arith, e))
byte_at-append (x ∷ pre) t i zero e = absurd (omega (arith, e))
byte_at-append (x ∷ pre) t i (suc j) e = byte_at-append pre t i j (omega (arith, e))

u32_at-append : (pre t : List ℕ) (i j : ℕ) → j ≡ length pre + i → u32_at (pre ++ t) j ≡ u32_at t i
u32_at-append pre t i j e = omega (
  arith,
  byte_at-append pre t i j e,
  byte_at-append pre t (i + 1) (j + 1) (omega arith),
  byte_at-append pre t (i + 2) (j + 2) (omega arith),
  byte_at-append pre t (i + 3) (j + 3) (omega arith),
)

u64_at-append : (pre t : List ℕ) (i j : ℕ) → j ≡ length pre + i → u64_at (pre ++ t) j ≡ u64_at t i
u64_at-append pre t i j e =
    omega (arith, u32_at-append pre t i j e, u32_at-append pre t (i + 4) (j + 4) (omega arith))

search_back-skip :
    (b : List ℕ) (i : ℕ)
    → u32_at b (suc i) ≢ zip_end_central_dir_sig
    → search_back b (suc i) ≡ search_back b i
unfolding search_back
search_back-skip b i h = ground (arith, h)

search_back-found :
    (b : List ℕ) (i : ℕ) → u32_at b i ≡ zip_end_central_dir_sig → search_back b i ≡ some i
unfolding search_back
search_back-found b zero h = ground (arith, h)
search_back-found b (suc i) h = ground (arith, h)

module _ (pre : List ℕ) (n start size end first : ℕ) where
  abbrev tail : List ℕ
  tail = end_records n start size end first

  -- No signature begins behind the end record's.
  skip :
      (k : ℕ)
      → u32_at tail (k + 1) ≢ zip_end_central_dir_sig
      → search_back (pre ++ tail) (length pre + (k + 1))
        ≡ search_back (pre ++ tail) (length pre + k)
  skip k h =
      ap (search_back (pre ++ tail)) (omega arith)
      ∙ search_back-skip (pre ++ tail) (length pre + k)
          (λ e. h (sym (u32_at-append pre tail (k + 1) (suc (length pre + k)) (omega arith)) ∙ e))

  search_back-tail : search_back (pre ++ tail) (length pre + 84) ≡ some (length pre + 76)
  unfolding build_burst_eocd_comment
  search_back-tail =
      skip 83 (λ e. omega (arith, e))
      ∙ skip 82 (λ e. omega (arith, e))
      ∙ skip 81 (λ e. omega (arith, e))
      ∙ skip 80 (λ e. omega (arith, e))
      ∙ skip 79 (λ e. omega (arith, e))
      ∙ skip 78 (λ e. omega (arith, e))
      ∙ skip 77 (λ e. omega (arith, e))
      ∙ skip 76 (λ e. omega (arith, e))
      ∙ search_back-found (pre ++ tail) (length pre + 76)
          (u32_at-append pre tail 76 (length pre + 76) (omega arith))

  length-tail : length (pre ++ tail) ≡ length pre + 106
  unfolding build_burst_eocd_comment
  length-tail = length-append pre tail

  find_eocd-tail :
      find_eocd (pre ++ tail)
      ≡ parsed (record {
        eocd_offset = length pre + 76;
        is_zip64 = true;
        locator_offset = length pre + 56;
      })
  unfolding find_eocd eocd_place build_burst_eocd_comment
  find_eocd-tail =
      let last : length (pre ++ tail) - 22 ≡ length pre + 84 = omega (arith, length-tail) in
      let locator : length pre + 76 - 20 ≡ length pre + 56 = omega arith in
      let sig : u32_at (pre ++ tail) (length pre + 56) ≡ zip64_end_central_dir_locator_sig =
        u32_at-append pre tail 56 (length pre + 56) (omega arith) in
      ground (arith, length-tail, last, locator, sig, search_back-tail)

  parse_zip64_eocd-tail :
      (j : ℕ)
      → j ≡ length pre
      → length pre + 106 < 2 ^ 64
      → n < 2 ^ 64
      → start < 2 ^ 64
      → size < 2 ^ 64
      → parse_zip64_eocd (pre ++ tail) j
        ≡ parsed (record { cd_offset = start; num_entries = some n; cd_size = size })
  unfolding parse_zip64_eocd
  parse_zip64_eocd-tail j here small hn hstart hsize =
      let sig : u32_at (pre ++ tail) j ≡ zip64_end_central_dir_sig =
        u32_at-append pre tail 0 j (omega (arith, here)) in
      let offset : u64_at (pre ++ tail) (j + 48) ≡ start =
        u64_at-append pre tail 48 (j + 48) (omega (arith, here))
        ∙ u64_at-le64 start (drop 56 tail) hstart in
      let count : u64_at (pre ++ tail) (j + 32) ≡ n =
        u64_at-append pre tail 32 (j + 32) (omega (arith, here))
        ∙ u64_at-le64 n (drop 40 tail) hn in
      let bytes : u64_at (pre ++ tail) (j + 40) ≡ size =
        u64_at-append pre tail 40 (j + 40) (omega (arith, here))
        ∙ u64_at-le64 size (drop 48 tail) hsize in
      let fits : ltb (length (pre ++ tail)) ((j + 56) % 2 ^ 64) ≡ false =
        ltb-false_of_le (length (pre ++ tail)) ((j + 56) % 2 ^ 64)
          (omega (arith, length-tail, here)) in
      rw (fits, sig, offset, count, bytes) refl

  parse_zip64_place-tail :
      (archive_size : ℕ)
      → archive_size < 2 ^ 64
      → end + 106 ≡ archive_size
      → length pre ≤ end
      → n < 2 ^ 64
      → start < 2 ^ 64
      → size < 2 ^ 64
      → parse_zip64_place (pre ++ tail) archive_size (length pre + 56)
        ≡ parsed (record { cd_offset = start; num_entries = some n; cd_size = size })
  unfolding parse_zip64_place
  parse_zip64_place-tail archive_size small whole inside hn hstart hsize =
      let at : u64_at (pre ++ tail) (length pre + 56 + 8) ≡ end =
        u64_at-append pre tail 64 (length pre + 56 + 8) (omega arith)
        ∙ u64_at-le64 end (drop 72 tail) (omega arith) in
      let front : (archive_size + 2 ^ 64 - length (pre ++ tail)) % 2 ^ 64 ≡ end - length pre =
        omega (arith, length-tail) in
      let fits : ltb (length (pre ++ tail)) (length pre + 56 + 20) ≡ false =
        ltb-false_of_le (length (pre ++ tail)) (length pre + 56 + 20)
          (omega (arith, length-tail)) in
      let behind : ltb end (end - length pre) ≡ false =
        ltb-false_of_le end (end - length pre) (omega arith) in
      rw (at, front, fits, behind)
        (parse_zip64_eocd-tail (end - (end - length pre)) (omega arith) (omega arith) hn hstart
          hsize)

  burst_comment-tail : first < 2 ^ 24 → burst_comment (pre ++ tail) (length pre + 76) ≡ first
  unfolding burst_comment build_burst_eocd_comment
  burst_comment-tail small = ground (
    arith,
    length-tail,
    byte_at-append pre tail 96 (length pre + 76 + 20) (omega arith),
    byte_at-append pre tail 97 (length pre + 76 + 20 + 1) (omega arith),
    u32_at-append pre tail 98 (length pre + 76 + 22) (omega arith),
    byte_at-append pre tail 102 (length pre + 76 + 22 + 4) (omega arith),
    byte_at-append pre tail 103 (length pre + 76 + 22 + 5) (omega arith),
    byte_at-append pre tail 104 (length pre + 76 + 22 + 6) (omega arith),
    byte_at-append pre tail 105 (length pre + 76 + 22 + 7) (omega arith),
  )

  -- From a buffer that ends with the end records of an archive and holds its last bytes,
  -- `central_dir_parse_eocd_only` reads back what the writer put into the records: where the
  -- directory starts, its size, the number of its entries, and the offset of the first header in
  -- the tail. The archive is below 2 ^ 64 bytes and the directory ends before the records.
  pub central_dir_parse_eocd_only-end_records :
      (archive_size : ℕ)
      → archive_size < 2 ^ 64
      → end + 106 ≡ archive_size
      → length pre ≤ end
      → n < 2 ^ 64
      → start + size ≤ end
      → first < 2 ^ 24
      → central_dir_parse_eocd_only (pre ++ end_records n start size end first) archive_size
        ≡ parsed (record {
          central_dir_offset = start;
          central_dir_size = size;
          num_entries = some n;
          is_zip64 = true;
          first_cdfh_offset_in_tail = first;
        })
  unfolding central_dir_parse_eocd_only check_extent
  central_dir_parse_eocd_only-end_records archive_size small whole inside hn within hfirst =
      let nonempty : (length (pre ++ tail) == 0) ≡ false = ground (arith, length-tail) in
      let place =
        parse_zip64_place-tail archive_size small whole inside hn (omega arith) (omega arith) in
      let before : leb archive_size start ≡ false = ground arith in
      let extent : ltb archive_size ((start + size) % 2 ^ 64) ≡ false =
        ltb-false_of_le archive_size ((start + size) % 2 ^ 64) (omega arith) in
      rw (nonempty, find_eocd-tail, place, before, extent, burst_comment-tail hfirst) refl
