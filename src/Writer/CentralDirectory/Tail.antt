-- ===== src/Writer/CentralDirectory/Tail.antt =====
-- `find_first_cdfh_in_tail`: the offset that the BURST comment carries.
use burst.Base.{
  ℕ, ◌+◌, ◌-◌, ◌%◌, ◌^◌, ◌≤◌, ◌<◌, ◌≡◌, refl, sym, ap, ◌⊎◌, inl, inr, List, [], ◌∷◌, ◌++◌, arith,
  leb, Bool-cases, length, All, length-append,
}
use burst.Zip.{no_cdfh_in_tail, part_size}
use burst.Writer.{FileEntry}
use burst.Writer.CentralDirectory.{calculate_cdfh_size, first_cdfh_from, find_first_cdfh_in_tail}
use burst.Writer.CentralDirectory.Sizes.{
  cdfh_bytes, central_directory_bytes, IsNamed, length-cdfh_bytes,
}

-- All headers of a directory that begins at `start` begin before `tail_start`.
abbrev pub StartBefore : ℕ → List FileEntry → ℕ → Type 0
StartBefore tail_start [] start = Unit {0}
StartBefore tail_start (entry ∷ entries) start =
    (start < tail_start) × StartBefore tail_start entries (start + length (cdfh_bytes entry))

-- `r` is the distance from `tail_start` to the first header that begins there or behind.
pub record FirstInTail (entries : List FileEntry) (start tail_start r : ℕ) : Type 0 where
  pub before : List FileEntry
  pub entry : FileEntry
  pub after : List FileEntry
  pub split : entries ≡ before ++ (entry ∷ after)
  pub earlier : StartBefore tail_start before start
  pub found : start + length (central_directory_bytes before) ≡ tail_start + r

-- What the walk over the headers may answer: where the first header in the tail is, within the tail,
-- or, when there is none, the marker.
abbrev pub Located : List FileEntry → ℕ → ℕ → ℕ → Type 0
Located entries start tail_start r =
    ((r ≡ no_cdfh_in_tail) × StartBefore tail_start entries start)
    ⊎ (FirstInTail entries start tail_start r × (r < part_size))

later :
    (entry : FileEntry) (entries : List FileEntry) (start tail_start r : ℕ)
    → start < tail_start
    → Located entries (start + length (cdfh_bytes entry)) tail_start r
    → Located (entry ∷ entries) start tail_start r
later entry entries start tail_start r h (inl (none_found, all_before)) =
    inl (none_found, (h, all_before))
later entry entries start tail_start r h (inr (f, small)) = inr (
  record {
    before = entry ∷ f.before;
    entry = f.entry;
    after = f.after;
    split = ap (λ l. entry ∷ l) f.split;
    earlier = (h, f.earlier);
    found =
        omega (arith, f.found, length-append (cdfh_bytes entry) (central_directory_bytes f.before));
  },
  small,
)

first_cdfh_from-Located :
    (entries : List FileEntry) (start tail_start r : ℕ)
    → All IsNamed entries
    → start + length (central_directory_bytes entries) < tail_start + part_size
    → tail_start + part_size < 2 ^ 64
    → first_cdfh_from entries start tail_start ≡ r
    → Located entries start tail_start r
unfolding first_cdfh_from
first_cdfh_from-Located [] start tail_start r named ends bound e = inl (sym e, tt)
first_cdfh_from-Located (entry ∷ entries) start tail_start r (named, names) ends bound e =
    elim (Bool-cases (leb tail_start start)) [
      | inl reached ↦
          let distance : r ≡ start - tail_start = ground (arith, reached) in
          inr (
            record {
              before = [];
              entry = entry;
              after = entries;
              split = refl;
              earlier = tt;
              found = ground (arith, distance, reached);
            },
            ground (arith, distance, reached),
          )
      | inr not_yet ↦
          let size : length (cdfh_bytes entry) ≡ calculate_cdfh_size entry =
            length-cdfh_bytes entry named in
          let total = length-append (cdfh_bytes entry) (central_directory_bytes entries) in
          let next : (start + calculate_cdfh_size entry) % 2 ^ 64
              ≡ start + length (cdfh_bytes entry) =
            omega (arith, size, total) in
          let rest : first_cdfh_from entries ((start + calculate_cdfh_size entry) % 2 ^ 64)
                tail_start
              ≡ r =
            ground (arith, not_yet) in
          later entry entries start tail_start r (ground (arith, not_yet)) (
            first_cdfh_from-Located entries (start + length (cdfh_bytes entry)) tail_start r names
              (omega (arith, total)) bound (rw next at rest))
    ]

-- `find_first_cdfh_in_tail`, for an archive whose directory begins at `start` and ends before the
-- archive does, with names below 64 KiB. It is 0 when the directory, or the whole archive, lies in
-- the last part; otherwise it is the distance from the start of the tail to the first header in the
-- tail, or, when no header begins there, the marker.
pub find_first_cdfh_in_tail-Located :
    (entries : List FileEntry) (start archive_size : ℕ)
    → All IsNamed entries
    → start + length (central_directory_bytes entries) < archive_size
    → archive_size < 2 ^ 64
    → let r = find_first_cdfh_in_tail entries start archive_size in
      ((r ≡ 0) × (archive_size ≤ start + part_size))
      ⊎ ((start + part_size < archive_size) × Located entries start (archive_size - part_size) r)
unfolding find_first_cdfh_in_tail
find_first_cdfh_in_tail-Located entries start archive_size named ends bound =
    elim (Bool-cases (leb archive_size (start + part_size))) [
      | inl near ↦ inl (ground (arith, near), ground (arith, near))
      | inr far ↦ inr (
        ground (arith, far),
        first_cdfh_from-Located entries start (archive_size - part_size) _ named
            (ground (arith, far)) (ground (arith, far)) (ground (arith, far)),
      )
    ]
