-- ===== src/CdFetch/Ranges.antt =====
-- The ranges that `calculate_cd_fetch_ranges` of src/downloader/cd_fetch.c returns.
use Prim.Native.Nat.{min}
use native.Mathlib.Nat.{div-mul-le_self, mul-suc}
use burst.Base.{
  ℕ, zero, suc, ◌+◌, ◌-◌, ◌*◌, ◌/◌, ◌^◌, ◌≤◌, ◌<◌, ◌≡◌, refl, ◌⊎◌, inl, inr, Bool, true, false,
  some, List, [], ◌∷◌, arith, ltb, leb, if◌then◌else◌, ltb_of_lt, ltb-false_of_le,
}
use burst.CdFetch.{
  CdPartRange, plus64, minus64, ranges, count_ranges, range_end, body_end, range_at, fill_ranges,
  sizeof_cd_part_range, calculate_cd_fetch_ranges,
}

-- A range that starts at `from`, in one part of the archive, before `to`.
pub record IsRange (central_dir_offset part_size to from : ℕ) (r : CdPartRange) : Type 0 where
  pub starts : r.start ≡ from
  pub aligned : (k : ℕ) × (r.start ≡ part_size * k)
  pub some_bytes : r.start ≤ r.end
  pub in_part : r.end < r.start + part_size
  pub before : r.end < to
  pub body : r.has_body_data ≡ ltb r.start central_dir_offset
  pub body_size : r.body_data_size ≡ min central_dir_offset (r.end + 1) - r.start

-- Ranges one behind the other from an offset up to another.
abbrev pub Cover : ℕ → ℕ → ℕ → ℕ → List CdPartRange → Type 0
Cover central_dir_offset part_size to from [] = from ≡ to
Cover central_dir_offset part_size to from (r ∷ rs) =
    IsRange central_dir_offset part_size to from r
    × Cover central_dir_offset part_size to (r.end + 1) rs

range_end-cases :
    (part_size initial s : ℕ)
    → 0 < part_size
    → initial + part_size < 2 ^ 64
    → s < initial
    → ((s + part_size < initial) × (range_end part_size initial s + 1 ≡ s + part_size))
      ⊎ ((initial ≤ s + part_size) × (range_end part_size initial s + 1 ≡ initial))
unfolding range_end
range_end-cases part_size initial s positive small before =
    let next : plus64 s part_size ≡ s + part_size = omega arith in
    let last : minus64 (s + part_size) 1 ≡ s + part_size - 1 = omega arith in
    let clipped : minus64 initial 1 ≡ initial - 1 = omega arith in
    ground (arith, next, last, clipped)

body_size_lem :
    (cd end s : ℕ)
    → s ≤ end
    → end + 1 < 2 ^ 64
    → cd < 2 ^ 64
    → (if ltb s cd then minus64 (body_end cd end) s else 0) ≡ min cd (end + 1) - s
body_size_lem cd end s above small cd_small = ground arith

range_at-IsRange :
    (cd part_size initial k s : ℕ)
    → s ≡ part_size * k
    → 0 < part_size
    → initial + part_size < 2 ^ 64
    → s < initial
    → cd < initial
    → IsRange cd part_size initial s (range_at cd part_size initial s)
range_at-IsRange cd part_size initial k s at positive small before inside =
    let ends = range_end-cases part_size initial s positive small before in
    let end = range_end part_size initial s in
    let above : s ≤ end = elim ends [ inl (more, e) ↦ omega arith | inr (last, e) ↦ omega arith ] in
    let in_part : end < s + part_size = elim ends [
      | inl (more, e) ↦ omega arith
      | inr (last, e) ↦ omega arith
    ] in
    let below : end < initial = elim ends [
      | inl (more, e) ↦ omega arith
      | inr (last, e) ↦ omega arith
    ] in
    record {
      starts = refl;
      aligned = (k, at);
      some_bytes = above;
      in_part = in_part;
      before = below;
      body = refl;
      body_size = body_size_lem cd end s above (omega arith) (omega arith);
    }

count_ranges-step :
    (part_size initial fuel s t n : ℕ)
    → ltb s initial ≡ true
    → plus64 s part_size ≡ t
    → count_ranges part_size initial fuel t ≡ some n
    → count_ranges part_size initial (suc fuel) s ≡ some (suc n)
unfolding count_ranges
count_ranges-step part_size initial fuel s t n here next rest = rw (here, next, rest) refl

count_ranges-stop :
    (part_size initial fuel s : ℕ)
    → ltb s initial ≡ false
    → count_ranges part_size initial (suc fuel) s ≡ some 0
unfolding count_ranges
count_ranges-stop part_size initial fuel s stop = rw stop refl

fill_ranges-step :
    (cd part_size initial s t n : ℕ)
    → ltb s initial ≡ true
    → plus64 s part_size ≡ t
    → fill_ranges cd part_size initial (suc n) s
      ≡ range_at cd part_size initial s ∷ fill_ranges cd part_size initial n t
unfolding fill_ranges
fill_ranges-step cd part_size initial s t n here next = rw (here, next) refl

fill_ranges-zero : (cd part_size initial s : ℕ) → fill_ranges cd part_size initial 0 s ≡ []
unfolding fill_ranges
fill_ranges-zero cd part_size initial s = refl

-- The counting loop and the loop that fills the array, from the start of a part on.
counted_ranges :
    (cd part_size initial fuel k s : ℕ)
    → s ≡ part_size * k
    → 0 < part_size
    → initial + part_size < 2 ^ 64
    → s < initial
    → cd < initial
    → initial ≤ s + fuel
    → (n : ℕ) × (count_ranges part_size initial (suc fuel) s ≡ some (suc n))
      × Cover cd part_size initial s (fill_ranges cd part_size initial (suc n) s)
counted_ranges cd part_size initial zero k s at positive small before inside enough =
    absurd (omega arith)
counted_ranges cd part_size initial (suc fuel) k s at positive small before inside enough =
    let r = range_at-IsRange cd part_size initial k s at positive small before inside in
    let next : plus64 s part_size ≡ s + part_size = omega arith in
    let next_part : s + part_size ≡ part_size * suc k =
      let step : part_size * suc k ≡ part_size * k + part_size = mul-suc part_size k in
      omega arith in
    let here : ltb s initial ≡ true = ltb_of_lt s initial before in
    elim (range_end-cases part_size initial s positive small before) [
      | inl (more, e) ↦
          let (n, counted, filled) =
            counted_ranges cd part_size initial fuel (suc k) (s + part_size) next_part positive
              small more inside (omega arith) in
          (
            suc n,
            count_ranges-step part_size initial (suc fuel) s _ _ here next counted,
            rw (fill_ranges-step cd part_size initial s _ (suc n) here next) (r, rw e filled),
          )
      | inr (last, e) ↦
          let stop : ltb (s + part_size) initial ≡ false =
            ltb-false_of_le (s + part_size) initial last in
          (
            0,
            count_ranges-step part_size initial (suc fuel) s _ _ here next
                (count_ranges-stop part_size initial fuel _ stop),
            rw
                (
                  fill_ranges-step cd part_size initial s _ 0 here next,
                  fill_ranges-zero cd part_size initial (s + part_size),
                )
                (r, e),
          )
    ]

-- When the central directory begins before the initial buffer, `calculate_cd_fetch_ranges` returns
-- ranges that lie one behind the other from the start of the part that holds the offset of the
-- directory up to the initial buffer; each starts at a multiple of the part size, stays in its
-- part, and counts as body data its bytes before the directory. Assumed: every allocation succeeds,
-- the part size is positive, and the offsets do not pass 2 ^ 64.
pub calculate_cd_fetch_ranges-Cover :
    (alloc : ℕ → Bool) (central_dir_offset part_size initial_start : ℕ)
    → 0 < part_size
    → initial_start + part_size < 2 ^ 64
    → central_dir_offset < initial_start
    → ((n : ℕ) → alloc n ≡ true)
    → (rs : List CdPartRange) × (calculate_cd_fetch_ranges alloc central_dir_offset part_size
          initial_start
        ≡ ranges rs)
      × Cover central_dir_offset part_size initial_start
          (central_dir_offset / part_size * part_size)
          rs
unfolding calculate_cd_fetch_ranges
calculate_cd_fetch_ranges-Cover alloc cd part_size initial positive small inside enough =
    let first = cd / part_size * part_size in
    let below : first ≤ cd = div-mul-le_self cd part_size in
    let multiple : first ≡ part_size * (cd / part_size) = omega arith in
    let outside : leb initial cd ≡ false = ground arith in
    let behind : leb initial first ≡ false = ground arith in
    let (n, counted, filled) =
      counted_ranges cd part_size initial initial (cd / part_size) first multiple positive small
        (omega arith) inside (omega arith) in
    let some_room = enough (suc n * sizeof_cd_part_range) in
    (
      fill_ranges cd part_size initial (suc n) first,
      ground (arith, outside, behind, counted, some_room),
      filled,
    )
