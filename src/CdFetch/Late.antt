-- ===== src/CdFetch/Late.antt =====
-- The queue of `build_late_part_queue` of src/downloader/cd_fetch.c, when the whole central
-- directory is known.
use native.Mathlib.Nat.{div-mul-le_self, lt-div-mul-add}
use burst.Base.{
  ℕ, zero, suc, ◌+◌, ◌*◌, ◌/◌, ◌%◌, ◌^◌, ◌≤◌, ◌<◌, ◌≡◌, refl, ◌⊎◌, inl, inr, Bool, true, false, not,
  ◌&&◌, some, List, [], ◌∷◌, arith, ltb, leb, if◌then◌else◌, Bool-cases, ltb_of_lt, length,
  get_elem?, All,
}
use burst.CdFetch.{plus64}
use burst.CdFetch.Buffers.{BodyDataSegment}
use burst.CdFetch.Queue.{part_start, is_covered, part_end, queue_late, build_late_part_queue}

-- A byte of the archive in one of the segments.
abbrev pub InSegment : List BodyDataSegment → ℕ → Type 0
InSegment segments x =
    (k : ℕ) × (s : BodyDataSegment) × (get_elem? segments k ≡ some s)
    × (s.archive_offset ≤ x)
    × (x < s.archive_offset + s.size)

abbrev pub Queued : List ℕ → ℕ → Type 0
Queued queue p = (k : ℕ) × (get_elem? queue k ≡ some p)

abbrev pub InRange : BodyDataSegment → Type 0
InRange s = s.archive_offset + s.size < 2 ^ 64

is_covered-InSegment :
    (segments : List BodyDataSegment) (start end x : ℕ)
    → All InRange segments
    → is_covered segments start end ≡ true
    → start ≤ x
    → x < end
    → InSegment segments x
unfolding is_covered
is_covered-InSegment [] start end x small covered from to = cc
is_covered-InSegment (s ∷ ss) start end x (s_small, small) covered from to =
    let seg_end : plus64 s.archive_offset s.size ≡ s.archive_offset + s.size = omega arith in
    elim (Bool-cases (leb s.archive_offset start && leb end (s.archive_offset + s.size))) [
      | inl here ↦ (0, s, refl, ground arith, ground arith)
      | inr elsewhere ↦
          let behind : is_covered ss start end ≡ true = ground (arith, seg_end, elsewhere) in
          let (k, t, there, reached, inside) =
            is_covered-InSegment ss start end x small behind from to in
          (suc k, t, there, reached, inside)
    ]

Queued-cons :
    (d c : Bool) (p x : ℕ) (rest : List ℕ)
    → Queued rest x
    → Queued (if d then rest else if c then p ∷ rest else rest) x
Queued-cons true c p x rest (k, e) = (k, e)
Queued-cons false true p x rest (k, e) = (suc k, e)
Queued-cons false false p x rest (k, e) = (k, e)

-- A part that was not dispatched, is not in a segment and has body data is queued.
queue_late-Queued :
    (part_size cd_offset : ℕ) (segments : List BodyDataSegment) (p : ℕ) (dispatched : List Bool)
    (k i : ℕ)
    → p + k ≡ i
    → get_elem? dispatched k ≡ some false
    → p + length dispatched ≤ 2 ^ 32
    → is_covered segments (part_start part_size i) (part_end part_size cd_offset i) ≡ false
    → part_start part_size i < part_end part_size cd_offset i
    → Queued (queue_late part_size cd_offset segments p dispatched) i
unfolding queue_late
queue_late-Queued part_size cd_offset segments p [] k i at there small uncovered body = cc
queue_late-Queued part_size cd_offset segments p (true ∷ ds) zero i at there small uncovered body =
    cc
queue_late-Queued part_size cd_offset segments p (false ∷ ds) zero i at there small uncovered body =
    let here : p ≡ i = omega arith in
    let starts : ltb (part_start part_size i) (part_end part_size cd_offset i) ≡ true =
      ltb_of_lt (part_start part_size i) (part_end part_size cd_offset i) body in
    let fits : i % 2 ^ 32 ≡ i = omega arith in (0, ground (arith, here, starts, fits, uncovered))
queue_late-Queued part_size cd_offset segments p (d ∷ ds) (suc k) i at there small uncovered body =
    let start = part_start part_size p in
    let end = part_end part_size cd_offset p in
    Queued-cons d (not (is_covered segments start end) && ltb start end) (p % 2 ^ 32) i
      (queue_late part_size cd_offset segments (p + 1) ds)
      (queue_late-Queued part_size cd_offset segments (p + 1) ds k i (omega arith) there
        (omega arith) uncovered body)

-- No body data is left out: a byte in front of the central directory, in a part of the list, is in
-- a part that was dispatched, or in a body segment, or in a part that `build_late_part_queue`
-- queues. Assumed: the part size is positive, there are at most 2 ^ 32 parts, and offsets and the
-- ends of the segments do not pass 2 ^ 64.
pub build_late_part_queue_complete :
    (part_size cd_offset : ℕ) (segments : List BodyDataSegment) (part_dispatched : List Bool)
    (x : ℕ) (dispatched : Bool)
    → 0 < part_size
    → cd_offset + part_size < 2 ^ 64
    → length part_dispatched ≤ 2 ^ 32
    → All InRange segments
    → x < cd_offset
    → get_elem? part_dispatched (x / part_size) ≡ some dispatched
    → (dispatched ≡ true)
      ⊎ (InSegment segments x
          ⊎ Queued
              (build_late_part_queue part_size cd_offset segments part_dispatched)
              (x / part_size))
unfolding build_late_part_queue
build_late_part_queue_complete part_size cd_offset segments part_dispatched x true positive small
      few in_range before there =
    inl refl
build_late_part_queue_complete part_size cd_offset segments part_dispatched x false positive small
      few in_range before there =
    let i = x / part_size in
    let product : i * part_size ≤ x = div-mul-le_self x part_size in
    let behind : x < i * part_size + part_size = lt-div-mul-add positive in
    let start : part_start part_size i ≡ i * part_size = omega arith in
    let end : x < part_end part_size cd_offset i = ground arith in
    elim (Bool-cases
      (is_covered segments (part_start part_size i) (part_end part_size cd_offset i))) [
        | inl covered ↦ inr (
            inl (
              is_covered-InSegment segments (part_start part_size i)
                (part_end part_size cd_offset i) x in_range covered (omega arith) end))
        | inr uncovered ↦ inr (
            inr (
              queue_late-Queued part_size cd_offset segments 0 part_dispatched i i (omega arith)
                there (omega arith) uncovered (omega arith)))
      ]
