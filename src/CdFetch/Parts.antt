-- ===== src/CdFetch/Parts.antt =====
-- The parts that `build_early_part_queue` and `build_late_part_queue` of
-- src/downloader/cd_fetch.c queue.
use native.Mathlib.Nat.{div-mul-le_self, le-div_iff_mul-le}
use burst.Base.{
  ℕ, ◌*◌, ◌/◌, ◌^◌, ◌≤◌, ◌<◌, ◌≡◌, refl, ◌≢◌, inl, inr, true, not, ◌&&◌, Option, none, some, List,
  [], ◌∷◌, arith, ltb, leb, ◌==◌, Bool-cases, lt_of_leb-false, lt_of_ltb, le_of_ltb-false, eq_of_==,
  All,
}
use burst.Parser.{FileMetadata}
use burst.CdFetch.Queue.{uint32_max, part_start, is_later, first_safe_part, queue_parts}

-- The file's part is the one that holds its local header.
pub record InPart (part_size : ℕ) (f : FileMetadata) : Type 0 where
  pub part : f.part_index ≡ f.local_header_offset / part_size
  pub small : f.local_header_offset < 2 ^ 64

-- The file `g` lies before every file of the list.
abbrev pub Before : FileMetadata → FileMetadata → Type 0
Before g f = g.local_header_offset < f.local_header_offset

pub div_lt_of_lt_mul : (a b k : ℕ) → 0 < k → a < b * k → a / k < b
div_lt_of_lt_mul a b k positive h = elim (Bool-cases (ltb (a / k) b)) [
  | inl below ↦ lt_of_ltb (a / k) b below
  | inr above ↦
      let product = (le-div_iff_mul-le positive).0 (le_of_ltb-false (a / k) b above) in
      absurd (omega arith)
]

div_le : (a b k : ℕ) → 0 < k → a ≤ b → a / k ≤ b / k
div_le a b k positive h =
    let product = div-mul-le_self a k in (le-div_iff_mul-le positive).1 (omega arith)

some-inj : {a b : ℕ} → some a ≡ some b → a ≡ b
some-inj e = cc

later_part :
    (g : FileMetadata) (previous : Option ℕ) (p : ℕ)
    → ((q : ℕ) → previous ≡ some q → g.part_index ≤ q)
    → is_later previous p ≡ true
    → g.part_index < p
later_part g none p so_far later = absurd (ground arith)
later_part g (some q) p so_far later =
    let reached = so_far q refl in let behind = lt_of_ltb q p later in omega arith

-- A file before those of the list starts in a part before the first safe one.
pub first_safe_part-Before :
    (part_size : ℕ) (g : FileMetadata) (previous : Option ℕ) (fs : List FileMetadata)
    → 0 < part_size
    → InPart part_size g
    → All (InPart part_size) fs
    → All (Before g) fs
    → ((q : ℕ) → previous ≡ some q → g.part_index ≤ q)
    → first_safe_part part_size previous fs ≢ uint32_max
    → g.part_index < first_safe_part part_size previous fs
unfolding first_safe_part
first_safe_part-Before part_size g previous [] positive g_in ins befores so_far found =
    absurd (found refl)
first_safe_part-Before part_size g previous (f ∷ fs) positive g_in (f_in, ins) (before, befores)
      so_far found =
    let p = f.part_index in
    let g_part = g_in.part in
    let f_part = f_in.part in
    let small = f_in.small in
    let not_behind : g.part_index ≤ p =
      let ordered =
        div_le g.local_header_offset f.local_header_offset part_size positive (omega arith) in
      omega arith in
    elim (Bool-cases (f.local_header_offset == part_start part_size p)) [
      | inl boundary ↦
          let at_boundary = eq_of_== f.local_header_offset (part_start part_size p) boundary in
          let product = div-mul-le_self f.local_header_offset part_size in
          let whole : p * part_size ≤ f.local_header_offset = rw f_part product in
          let before_part : g.local_header_offset < p * part_size = omega arith in
          let goal : g.part_index < p =
            let inside = div_lt_of_lt_mul g.local_header_offset p part_size positive before_part in
            omega arith in
          rw boundary goal
      | inr inside ↦ elim (Bool-cases (is_later previous p)) [
        | inl later ↦ rw (inside, later) (later_part g previous p so_far later)
        | inr same ↦
            rw (inside, same)
              (first_safe_part-Before part_size g (some p) fs positive g_in ins befores
                (λ q e. rw (some-inj e) at not_behind)
                (λ none_found. found (rw (inside, same) none_found)))
      ]
    ]

pub queue_parts-first :
    (part_size initial first last_queued : ℕ) (fs : List FileMetadata)
    → All
        (λ p. (first ≤ p) × (part_start part_size p < initial))
        (queue_parts part_size initial first last_queued fs)
unfolding queue_parts
queue_parts-first part_size initial first last_queued [] = tt
queue_parts-first part_size initial first last_queued (f ∷ fs) =
    let part = f.part_index in
    let behind = queue_parts-first part_size initial first part fs in
    let same = queue_parts-first part_size initial first last_queued fs in
    elim (Bool-cases (leb first part && not (part == last_queued))) [
      | inr unfit ↦ rw unfit same
      | inl queued ↦ elim (Bool-cases (leb initial (part_start part_size part))) [
        | inl in_tail ↦ rw (queued, in_tail) behind
        | inr before ↦
            rw (queued, before)
              ((ground arith, lt_of_leb-false initial (part_start part_size part) before), behind)
      ]
    ]
