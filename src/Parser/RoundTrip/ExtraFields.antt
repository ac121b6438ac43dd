-- ===== src/Parser/RoundTrip/ExtraFields.antt =====
-- The extra fields that the writer builds, read back by the parser.
use burst.Base.{
  ℕ, zero, suc, ◌+◌, ◌^◌, ◌≤◌, ◌<◌, ◌≡◌, refl, ap, ◌∙◌, ◌≢◌, inl, inr, Bool, true, false, List, [],
  ◌∷◌, ◌++◌, arith, Bool-cases, length, take, drop, length-append,
}
use burst.Bytes.{u16_at, u32_le, u64_at-le64}
use burst.Zip.{CentralHeader}
use burst.Zip.Fields.{
  over_32, byte, build_unix_extra_field, needed_size, needed_bytes, build_zip64_extra_field,
}
use burst.Writer.{FileEntry}
use burst.Writer.CentralDirectory.{need_zip64, unix_extra, zip64_extra, field_32, central_header}
use burst.Parser.Extra.{
  parse_unix_data, unix_extra_loop, parse_unix_extra_field, Zip64Extra, is_marker,
  parse_zip64_offset, parse_zip64_compressed, parse_zip64_data, zip64_extra_loop,
  parse_zip64_extra_field,
}
use burst.Writer.CentralDirectory.Sizes.{length-needed_bytes}
use burst.Parser.Directory.{unix_of, zip64_of}

-- A 64-bit size or offset that is not the marker of the 32-bit field.
abbrev pub IsPlain : ℕ → Type 0
IsPlain x = (x < 2 ^ 64) × (x ≢ 0xFFFFFFFF)

-- The user and group that the writer stored are read back, whatever follows the field.
pub unix_of-unix_extra :
    (entry : FileEntry) (rest : List ℕ)
    → entry.uid < 2 ^ 32
    → entry.gid < 2 ^ 32
    → unix_of (unix_extra entry ++ rest) ≡ record { found = true; uid = entry.uid; gid = entry.gid }
unfolding build_unix_extra_field parse_unix_extra_field unix_extra_loop parse_unix_data
unix_of-unix_extra entry rest hu hg = ground (arith, u32_le entry.uid hu, u32_le entry.gid hg)

-- A 32-bit field holds the marker exactly when its value is too large for it.
pub is_marker-field_32 : (x : ℕ) → IsPlain x → is_marker (field_32 x) ≡ over_32 x
is_marker-field_32 x h = ground arith

pub take_all : (n : ℕ) (xs : List ℕ) → n ≡ length xs → take n xs ≡ xs
take_all zero [] e = refl
take_all zero (x ∷ xs) e = absurd (omega arith)
take_all (suc n) [] e = absurd (omega arith)
take_all (suc n) (x ∷ xs) e = ap (λ l. x ∷ l) (take_all n xs (omega arith))

module _ (h : CentralHeader) (c u o : ℕ) (pc : IsPlain c) (pu : IsPlain u) (po : IsPlain o)
    (hc : h.compressed_size ≡ field_32 c) (hu : h.uncompressed_size ≡ field_32 u)
    (ho : h.local_header_offset ≡ field_32 o) where
  offset_read :
      (f : Bool) (c' u' : ℕ)
      → parse_zip64_offset h (needed_bytes o) (record {
        found = f;
        compressed_size = c';
        uncompressed_size = u';
        local_header_offset = field_32 o;
      })
        ≡ record {
          found = true;
          compressed_size = c';
          uncompressed_size = u';
          local_header_offset = o;
        }
  unfolding parse_zip64_offset
  offset_read f c' u' = elim (Bool-cases (over_32 o)) [
    | inl over ↦ ground (arith, over, ho, is_marker-field_32 o po, u64_at-le64 o [])
    | inr small ↦ ground (arith, small, ho, is_marker-field_32 o po)
  ]

  compressed_read :
      (f : Bool) (u' : ℕ)
      → parse_zip64_compressed h (needed_bytes c ++ needed_bytes o) (record {
        found = f;
        compressed_size = field_32 c;
        uncompressed_size = u';
        local_header_offset = field_32 o;
      })
        ≡ record {
          found = true;
          compressed_size = c;
          uncompressed_size = u';
          local_header_offset = o;
        }
  unfolding parse_zip64_compressed
  compressed_read f u' = elim (Bool-cases (over_32 c)) [
    | inl over ↦ ground (
      arith,
      over,
      hc,
      is_marker-field_32 c pc,
      u64_at-le64 c (needed_bytes o),
      offset_read f c u',
    )
    | inr small ↦ ground (arith, small, hc, is_marker-field_32 c pc, offset_read f c u')
  ]

  data_read :
      (f : Bool)
      → parse_zip64_data h (needed_bytes u ++ (needed_bytes c ++ needed_bytes o)) (record {
        found = f;
        compressed_size = field_32 c;
        uncompressed_size = field_32 u;
        local_header_offset = field_32 o;
      })
        ≡ record {
          found = true;
          compressed_size = c;
          uncompressed_size = u;
          local_header_offset = o;
        }
  unfolding parse_zip64_data
  data_read f = elim (Bool-cases (over_32 u)) [
    | inl over ↦ ground (
      arith,
      over,
      hu,
      is_marker-field_32 u pu,
      u64_at-le64 u (needed_bytes c ++ needed_bytes o),
      compressed_read f u,
    )
    | inr small ↦ ground (arith, small, hu, is_marker-field_32 u pu, compressed_read f u)
  ]

  -- The header of the field and then its data, with some fuel left.
  loop_read :
      (fuel : ℕ) (size : ℕ)
      → size ≡ length (needed_bytes u ++ (needed_bytes c ++ needed_bytes o))
      → size ≤ 24
      → zip64_extra_loop
          (suc fuel)
          (byte 0x0001 0
            ∷ byte 0x0001 1
            ∷ byte size 0
            ∷ byte size 1
            ∷ (needed_bytes u ++ (needed_bytes c ++ needed_bytes o)))
          h
          (record {
            found = false;
            compressed_size = field_32 c;
            uncompressed_size = field_32 u;
            local_header_offset = field_32 o;
          })
        ≡ record {
          found = true;
          compressed_size = c;
          uncompressed_size = u;
          local_header_offset = o;
        }
  unfolding zip64_extra_loop
  loop_read fuel size e small =
      let data_size : u16_at (byte size 0 ∷ byte size 1 ∷ []) 0 ≡ size = omega arith in
      let all = take_all size (needed_bytes u ++ (needed_bytes c ++ needed_bytes o)) e in
      ground (arith, data_size, e, all, data_read false)

-- The walk passes over the Unix field.
skip_unix :
    (entry : FileEntry) (t : List ℕ) (h : CentralHeader) (z : Zip64Extra) (fuel : ℕ)
    → zip64_extra_loop (suc fuel) (unix_extra entry ++ t) h z ≡ zip64_extra_loop fuel t h z
unfolding zip64_extra_loop build_unix_extra_field
skip_unix entry t h z fuel = ground arith

abbrev data_size_of : FileEntry → ℕ
data_size_of entry =
    needed_size entry.uncompressed_size
    + needed_size entry.compressed_size
    + needed_size entry.local_header_offset

abbrev data_of : FileEntry → List ℕ
data_of entry =
    needed_bytes entry.uncompressed_size
    ++ (needed_bytes entry.compressed_size ++ needed_bytes entry.local_header_offset)

zip64_extra_of_need :
    (entry : FileEntry)
    → need_zip64 entry ≡ true
    → zip64_extra entry
      ≡ byte 0x0001 0
        ∷ byte 0x0001 1
        ∷ byte (data_size_of entry) 0
        ∷ byte (data_size_of entry) 1
        ∷ data_of entry
unfolding build_zip64_extra_field build_unix_extra_field
zip64_extra_of_need entry need = ground (arith, need)

data_size_lem :
    (entry : FileEntry) → (data_size_of entry ≡ length (data_of entry)) × (data_size_of entry ≤ 24)
data_size_lem entry = ground (
  arith,
  length-needed_bytes entry.uncompressed_size,
  length-needed_bytes entry.compressed_size,
  length-needed_bytes entry.local_header_offset,
  length-append (needed_bytes entry.compressed_size) (needed_bytes entry.local_header_offset),
  length-append (needed_bytes entry.uncompressed_size)
      (needed_bytes entry.compressed_size ++ needed_bytes entry.local_header_offset),
)

-- What the parser starts from: the values of the 32-bit fields.
abbrev initial : FileEntry → Zip64Extra
initial entry = record {
  found = false;
  compressed_size = field_32 entry.compressed_size;
  uncompressed_size = field_32 entry.uncompressed_size;
  local_header_offset = field_32 entry.local_header_offset;
}

zip64_of_skipped :
    (entry : FileEntry) (t : List ℕ)
    → zip64_of (unix_extra entry ++ t) (central_header entry)
      ≡ zip64_extra_loop (suc (13 + length t)) t (central_header entry) (initial entry)
unfolding parse_zip64_extra_field build_unix_extra_field
zip64_of_skipped entry t =
    skip_unix entry t (central_header entry) (initial entry)
      (length (drop 1 (unix_extra entry ++ t)))
    ∙ ap (λ n. zip64_extra_loop n t (central_header entry) (initial entry)) (omega arith)

-- Without a ZIP64 field the 32-bit fields hold the values.
nothing_read :
    (entry : FileEntry) (h : CentralHeader) (fuel : ℕ)
    → need_zip64 entry ≡ false
    → zip64_extra_loop (suc fuel) [] h (initial entry) ≡ record {
      found = false;
      compressed_size = entry.compressed_size;
      uncompressed_size = entry.uncompressed_size;
      local_header_offset = entry.local_header_offset;
    }
unfolding zip64_extra_loop
nothing_read entry h fuel not_needed = ground (arith, not_needed)

zip64_read :
    (entry : FileEntry) (h : CentralHeader) (fuel : ℕ)
    → IsPlain entry.compressed_size
    → IsPlain entry.uncompressed_size
    → IsPlain entry.local_header_offset
    → h.compressed_size ≡ field_32 entry.compressed_size
    → h.uncompressed_size ≡ field_32 entry.uncompressed_size
    → h.local_header_offset ≡ field_32 entry.local_header_offset
    → zip64_extra_loop (suc fuel) (zip64_extra entry) h (initial entry) ≡ record {
      found = need_zip64 entry;
      compressed_size = entry.compressed_size;
      uncompressed_size = entry.uncompressed_size;
      local_header_offset = entry.local_header_offset;
    }
zip64_read entry h fuel pc pu po hc hu ho = elim (Bool-cases (need_zip64 entry)) [
  | inl need ↦
      let (size, small) = data_size_lem entry in
      rw (zip64_extra_of_need entry need, need)
        (loop_read h entry.compressed_size entry.uncompressed_size entry.local_header_offset pc pu
          po hc hu ho fuel (data_size_of entry) size small)
  | inr not_needed ↦
      let none_there : zip64_extra entry ≡ [] = ground (arith, not_needed) in
      rw (none_there, not_needed) (nothing_read entry h fuel not_needed)
]

-- The sizes and the offset that the writer stored are read back, whether they went into the 32-bit
-- fields or into the ZIP64 field, when none is exactly 0xFFFFFFFF.
pub zip64_of-extra :
    (entry : FileEntry)
    → IsPlain entry.compressed_size
    → IsPlain entry.uncompressed_size
    → IsPlain entry.local_header_offset
    → zip64_of (unix_extra entry ++ zip64_extra entry) (central_header entry) ≡ record {
      found = need_zip64 entry;
      compressed_size = entry.compressed_size;
      uncompressed_size = entry.uncompressed_size;
      local_header_offset = entry.local_header_offset;
    }
zip64_of-extra entry pc pu po =
    zip64_of_skipped entry (zip64_extra entry)
    ∙ zip64_read entry (central_header entry) (13 + length (zip64_extra entry)) pc pu po refl refl
        refl
