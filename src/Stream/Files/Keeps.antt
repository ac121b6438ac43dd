-- ===== src/Stream/Files/Keeps.antt =====
-- What opening and closing files does to the state of a part processor.
use mathlib.Core.Path.{subst}
use burst.Base.{
  ◌+◌, ◌^◌, ℕ, zero, suc, ◌≤◌, ◌<◌, ◌≡◌, refl, ◌∙◌, ◌⊎◌, inl, inr, Option, none, some, List, [],
  ◌∷◌, arith, Option-cases, length, get_elem?,
}
use burst.Bytes.{u64_at}
use burst.Sink.{Outcome, ok, failed, ◌>>=◌}
use burst.Sink.Buffer.{Outcome-cases, >>=-eq-ok}
use burst.Parser.{FileMetadata}
use burst.Parser.Whole.{ParseResult}
use burst.Stream.{state_error, FileContext, PartProcessor, System, part_of}
use burst.Stream.Files.{
  ensure_directory_exists, close_output_file, context_of, output_path, open_context,
  open_output_file, at_offset, open_continuing, handle_start_of_part_frame, handle_zstd_frame,
  HeaderResult, header_opened, header_skipped, header_incomplete, header_failed, next_metadata,
  handle_local_header,
}

-- The bytes of a symlink's target, with the NUL behind them, fit the buffer that was allocated.
abbrev pub FitsBuffer : FileContext → Option (List ℕ) → Type 0
FitsBuffer f none = Unit {0}
FitsBuffer f (some target) =
    (length target < f.symlink_buffer_size) × (f.symlink_buffer_size ≡ f.expected_total_size + 1)

abbrev pub IsOpen : Option FileContext → Type 0
IsOpen none = ⊥
IsOpen (some f) = FitsBuffer f f.symlink_buffer

-- What opening and closing files leaves alone.
pub record Keeps (p p' : PartProcessor) : Type 0 where
  pub part : part_of p' ≡ part_of p
  pub entry : p'.next_entry_idx ≡ p.next_entry_idx
  pub directory : p'.cd_result ≡ p.cd_result

-- The size of every file, and one more byte, is below 2 ^ 64.
pub record FilesFit (cd_result : ParseResult) : Type 0 where
  pub fits :
      (i : ℕ) (m : FileMetadata)
      → get_elem? cd_result.files i ≡ some m
      → m.uncompressed_size + 1 < 2 ^ 64

pub close-Keeps :
    (sys : System) (p : PartProcessor)
    → Keeps p (close_output_file sys p)
      × ((close_output_file sys p).current_file ≡ none)
      × ((close_output_file sys p).state ≡ p.state)
unfolding close_output_file
close-Keeps sys p = ground arith

open_context-Keeps :
    (sys : System) (f : FileContext) (p p' : PartProcessor)
    → f.symlink_buffer ≡ none
    → f.expected_total_size + 1 < 2 ^ 64
    → open_context sys f p ≡ ok p'
    → Keeps p p' × IsOpen p'.current_file × (p'.state ≡ p.state)
unfolding open_context
open_context-Keeps sys f p p' e small h = ground arith

pub open_output_file-Keeps :
    (sys : System) (m : FileMetadata) (p p' : PartProcessor)
    → m.uncompressed_size + 1 < 2 ^ 64
    → open_output_file sys m p ≡ ok p'
    → Keeps p p' × IsOpen p'.current_file × (p'.state ≡ p.state)
unfolding open_output_file
open_output_file-Keeps sys m p p' small h =
    let path = output_path p m in
    let q = close_output_file sys p in
    let (kept, _, same) = close-Keeps sys p in
    elim (Outcome-cases (ensure_directory_exists sys path q.ops)) [
      | inr (ops, missing) ↦ ground (arith, missing)
      | inl (ops, there) ↦
          let opening : open_context sys (context_of path m) (record q { ops = ops }) ≡ ok p' =
            ground (arith, there) in
          let (k, o, s) =
            open_context-Keeps sys (context_of path m) (record q { ops = ops }) p' refl small
              opening in
          (
            record {
              part = k.part ∙ kept.part;
              entry = k.entry ∙ kept.entry;
              directory = k.directory ∙ kept.directory;
            },
            o,
            s ∙ same,
          )
    ]

pub at_offset-IsOpen :
    (offset : ℕ) (p : PartProcessor)
    → IsOpen p.current_file
    → IsOpen (at_offset offset p).current_file
at_offset-IsOpen offset p o = ground arith

pub at_offset-Keeps :
    (offset : ℕ) (p : PartProcessor)
    → Keeps p (at_offset offset p) × ((at_offset offset p).state ≡ p.state)
at_offset-Keeps offset p = ground arith

pub open_output_file-Keeps_at :
    (sys : System) (offset : ℕ) (m : FileMetadata) (p p' : PartProcessor)
    → m.uncompressed_size + 1 < 2 ^ 64
    → (open_output_file sys m p >>= λ p. ok (at_offset offset p)) ≡ ok p'
    → Keeps p p' × IsOpen p'.current_file × (p'.state ≡ p.state)
open_output_file-Keeps_at sys offset m p p' small h =
    let (q, opening, e) = >>=-eq-ok (open_output_file sys m p) _ h in
    let (k, o, s) = open_output_file-Keeps sys m p q small opening in
    let moved : at_offset offset q ≡ p' = ground arith in
    let (k', s') = at_offset-Keeps offset q in
    subst (λ r. Keeps p r × IsOpen r.current_file × (r.state ≡ p.state)) moved
      (
        record {
          part = k'.part ∙ k.part;
          entry = k'.entry ∙ k.entry;
          directory = k'.directory ∙ k.directory;
        },
        at_offset-IsOpen offset q o,
        s' ∙ s,
      )

pub open_continuing-Keeps :
    (sys : System) (offset : ℕ) (p p' : PartProcessor)
    → FilesFit p.cd_result
    → open_continuing sys offset p ≡ ok p'
    → Keeps p p' × IsOpen p'.current_file × (p'.state ≡ p.state)
unfolding open_continuing
open_continuing-Keeps sys offset p p' fit h = elim (Option-cases ((part_of p).continuing_file)) [
  | inl no_file ↦ ground (arith, no_file)
  | inr (i, there) ↦ elim (Option-cases (get_elem? p.cd_result.files i)) [
    | inl out_of_range ↦ ground (arith, there, out_of_range)
    | inr (m, found) ↦
        open_output_file-Keeps_at sys offset m p p' (fit.fits i m found)
          (ground (arith, there, found))
  ]
]

pub handle_start_of_part_frame-Keeps :
    (sys : System) (b : List ℕ) (p p' : PartProcessor)
    → FilesFit p.cd_result
    → (p.current_file ≡ none) ⊎ IsOpen p.current_file
    → handle_start_of_part_frame sys b p ≡ ok p'
    → Keeps p p' × IsOpen p'.current_file × (p'.state ≡ p.state)
unfolding handle_start_of_part_frame
handle_start_of_part_frame-Keeps sys b p p' fit file h = elim (Option-cases (p.current_file)) [
  | inl closed_file ↦ open_continuing-Keeps sys (u64_at b 9) p p' fit (ground (arith, closed_file))
  | inr (f, there) ↦ ground (arith, there, file)
]

pub handle_zstd_frame-Keeps :
    (sys : System) (frame : List ℕ) (size : ℕ) (p p' : PartProcessor)
    → IsOpen p.current_file
    → handle_zstd_frame sys frame size p ≡ ok p'
    → Keeps p p' × IsOpen p'.current_file × (p'.state ≡ p.state)
unfolding handle_zstd_frame
handle_zstd_frame-Keeps sys frame size p p' o h = ground arith

pub get_elem?_lt :
    {A : Type 0} (xs : List A) (i : ℕ) (x : A) → get_elem? xs i ≡ some x → i < length xs
get_elem?_lt [] i x e = cc
get_elem?_lt (y ∷ ys) zero x e = omega arith
get_elem?_lt (y ∷ ys) (suc i) x e = omega (arith, get_elem?_lt ys i x e)

pub next_metadata_lt :
    (p : PartProcessor) (m : FileMetadata)
    → next_metadata p ≡ some m
    → p.next_entry_idx < length (part_of p).entries
unfolding next_metadata
next_metadata_lt p m e = elim (Option-cases (get_elem? (part_of p).entries p.next_entry_idx)) [
  | inl out_of_range ↦ ground (arith, out_of_range)
  | inr (entry, there) ↦ get_elem?_lt (part_of p).entries p.next_entry_idx entry there
]

next_metadata_fits :
    (p : PartProcessor) (m : FileMetadata)
    → FilesFit p.cd_result
    → next_metadata p ≡ some m
    → m.uncompressed_size + 1 < 2 ^ 64
unfolding next_metadata
next_metadata_fits p m fit e =
    elim (Option-cases (get_elem? (part_of p).entries p.next_entry_idx)) [
      | inl out_of_range ↦ ground (arith, out_of_range)
      | inr (entry, there) ↦ fit.fits entry.file_index m (ground (arith, there))
    ]

-- A header that opened a file used up an entry of the part that was there.
pub handle_local_header-Keeps :
    (sys : System) (b : List ℕ) (n : ℕ) (p p' : PartProcessor)
    → FilesFit p.cd_result
    → handle_local_header sys b p ≡ header_opened n p'
    → Keeps p p' × IsOpen p'.current_file × (p.next_entry_idx < length (part_of p).entries)
unfolding handle_local_header
handle_local_header-Keeps sys b n p p' fit h = elim (Option-cases (next_metadata p)) [
  | inl last ↦ ground (arith, last)
  | inr (m, there) ↦ elim (Outcome-cases (open_output_file sys m p >>= λ p. ok (at_offset 0 p))) [
    | inl (q, opening) ↦
        let (k, o, _) =
          open_output_file-Keeps_at sys 0 m p q (next_metadata_fits p m fit there) opening in
        ground (arith, there, opening, k, o, next_metadata_lt p m there)
    | inr (q, failing) ↦ ground (arith, there, failing)
  ]
]

pub handle_local_header_size :
    (sys : System) (b : List ℕ) (n : ℕ) (p p' : PartProcessor)
    → handle_local_header sys b p ≡ header_opened n p'
    → (30 ≤ n) × (n ≤ length b)
unfolding handle_local_header
handle_local_header_size sys b n p p' h = elim (Option-cases (next_metadata p)) [
  | inl last ↦ ground (arith, last)
  | inr (m, there) ↦ elim (Outcome-cases (open_output_file sys m p >>= λ p. ok (at_offset 0 p))) [
    | inl (q, opening) ↦ ground (arith, there, opening)
    | inr (q, failing) ↦ ground (arith, there, failing)
  ]
]

pub handle_local_header-skipped :
    (sys : System) (b : List ℕ) (n : ℕ) (p p' : PartProcessor)
    → handle_local_header sys b p ≡ header_skipped n p'
    → (p' ≡ p) × (30 ≤ n) × (n ≤ length b)
unfolding handle_local_header
handle_local_header-skipped sys b n p p' h = elim (Option-cases (next_metadata p)) [
  | inl last ↦ ground (arith, last)
  | inr (m, there) ↦ elim (Outcome-cases (open_output_file sys m p >>= λ p. ok (at_offset 0 p))) [
    | inl (q, opening) ↦ ground (arith, there, opening)
    | inr (q, failing) ↦ ground (arith, there, failing)
  ]
]

-- A handler that fails leaves the error state.
abbrev pub FailsInError : Outcome PartProcessor → Type 0
FailsInError (ok p) = Unit {0}
FailsInError (failed p) = p.state ≡ state_error

open_context-FailsInError :
    (sys : System) (f : FileContext) (p : PartProcessor) → FailsInError (open_context sys f p)
unfolding open_context
open_context-FailsInError sys f p = ground arith

open_output_file-FailsInError :
    (sys : System) (m : FileMetadata) (p : PartProcessor) → FailsInError (open_output_file sys m p)
unfolding open_output_file
open_output_file-FailsInError sys m p =
    let path = output_path p m in
    let q = close_output_file sys p in
    elim (Outcome-cases (ensure_directory_exists sys path q.ops)) [
      | inr (ops, missing) ↦ ground (arith, missing)
      | inl (ops, there) ↦
          ground (
            arith,
            there,
            open_context-FailsInError sys (context_of path m) (record q { ops = ops }),
          )
    ]

open_at-FailsInError :
    (sys : System) (offset : ℕ) (m : FileMetadata) (p : PartProcessor)
    → FailsInError (open_output_file sys m p >>= λ p. ok (at_offset offset p))
open_at-FailsInError sys offset m p = elim (Outcome-cases (open_output_file sys m p)) [
  | inl (q, e) ↦ rw e tt
  | inr (q, e) ↦ rw e (rw e at (open_output_file-FailsInError sys m p))
]

pub handle_start_of_part_frame-FailsInError :
    (sys : System) (b : List ℕ) (p : PartProcessor)
    → FailsInError (handle_start_of_part_frame sys b p)
unfolding handle_start_of_part_frame open_continuing
handle_start_of_part_frame-FailsInError sys b p = elim (Option-cases (p.current_file)) [
  | inr (f, there) ↦ ground (arith, there)
  | inl closed_file ↦ elim (Option-cases ((part_of p).continuing_file)) [
    | inl no_file ↦ ground (arith, closed_file, no_file)
    | inr (i, there) ↦ elim (Option-cases (get_elem? p.cd_result.files i)) [
      | inl out_of_range ↦ ground (arith, closed_file, there, out_of_range)
      | inr (m, found) ↦
          ground (arith, closed_file, there, found, open_at-FailsInError sys (u64_at b 9) m p)
    ]
  ]
]

pub handle_zstd_frame-FailsInError :
    (sys : System) (frame : List ℕ) (size : ℕ) (p : PartProcessor)
    → FailsInError (handle_zstd_frame sys frame size p)
unfolding handle_zstd_frame
handle_zstd_frame-FailsInError sys frame size p = ground arith

abbrev pub HeaderLeft : PartProcessor → HeaderResult → Type 0
HeaderLeft p (header_opened n p') = Unit {0}
HeaderLeft p (header_skipped n p') = Unit {0}
HeaderLeft p (header_incomplete p') = p' ≡ p
HeaderLeft p (header_failed p') = p'.state ≡ state_error

pub handle_local_header-HeaderLeft :
    (sys : System) (b : List ℕ) (p : PartProcessor) → HeaderLeft p (handle_local_header sys b p)
unfolding handle_local_header
handle_local_header-HeaderLeft sys b p = elim (Option-cases (next_metadata p)) [
  | inl last ↦ ground (arith, last)
  | inr (m, there) ↦ ground (arith, there, open_at-FailsInError sys 0 m p)
]
