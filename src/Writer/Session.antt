-- ===== src/Writer/Session.antt =====
-- A session: the archive is created and entries are added one after the other, as `process_entry` of
-- src/writer/entry_processor.c and the loop of src/writer/main.c do. An entry whose file cannot be
-- opened or whose header cannot be built makes no call.
use mathlib.Core.Path.{subst}
use burst.Base.{
  inl, inr, ◌≤◌, ℕ, ◌+◌, ◌-◌, ◌^◌, ◌<◌, ◌≡◌, refl, ap, ◌∙◌, some, List, [], ◌∷◌, ◌++◌, arith,
  length, All,
}
use burst.Zip.{padding_lfh_min_size}
use burst.Sink.{Env, Outcome, ok, failed}
use burst.Sink.Buffer.{Appends, stream, IsValid, Outcome-cases}
use burst.Layout.{Item, link_target, flat, Laid, Lays, Lays-refl, Lays-trans, EntryItems}
use burst.Writer.{BurstWriter, burst_writer_create, Lfh}
use burst.Writer.Steps.{Room}
use burst.Writer.AddFile.{InputFile, burst_writer_add_file}
use burst.Writer.AddFile.Frames.{BoundedFrames, BoundedReads}
use burst.Writer.AddFile.Layout.{FileItems, burst_writer_add_file-Lays}
use burst.Writer.AddLink.{burst_writer_add_symlink, burst_writer_add_directory}
use burst.Writer.AddLink.Layout.{burst_writer_add_symlink-Lays, burst_writer_add_directory-Lays}

-- A call of one of the add functions.
pub data Call : Type 0 where
  add_file : InputFile → Lfh → ℕ → ℕ → ℕ → ℕ → Call
  add_symlink : Lfh → ℕ → List ℕ → ℕ → ℕ → ℕ → Call
  add_directory : Lfh → ℕ → ℕ → ℕ → ℕ → Call

unfoldable pub run_call : Env → Call → BurstWriter → Outcome BurstWriter
run_call env (add_file input lfh lfh_len unix_mode uid gid) w =
    burst_writer_add_file env input lfh lfh_len unix_mode uid gid w
run_call env (add_symlink lfh lfh_len target unix_mode uid gid) w =
    burst_writer_add_symlink env lfh lfh_len target unix_mode uid gid w
run_call env (add_directory lfh lfh_len unix_mode uid gid) w =
    burst_writer_add_directory env lfh lfh_len unix_mode uid gid w

-- `for (i = 0; i < files->count; i++)`: a call that fails is passed over, one that succeeds is
-- counted in `num_added`.
unfoldable pub run_calls : Env → List Call → BurstWriter → ℕ → BurstWriter × ℕ
run_calls env [] w num_added = (w, num_added)
run_calls env (c ∷ cs) w num_added = elim (run_call env c w) [
  | ok w' ↦ run_calls env cs w' (num_added + 1)
  | failed w' ↦ run_calls env cs w' num_added
]

run_calls_le :
    (env : Env) (cs : List Call) (w : BurstWriter) (n : ℕ)
    → (run_calls env cs w n).1 ≤ n + length cs
unfolding run_calls
run_calls_le env [] w n = omega arith
run_calls_le env (c ∷ cs) w n = elim (Outcome-cases (run_call env c w)) [
  | inl (t, e) ↦ rw (e, run_calls) (omega (arith, run_calls_le env cs t (n + 1)))
  | inr (t, e) ↦ rw (e, run_calls) (omega (arith, run_calls_le env cs t n))
]

-- The header and the link target together stay below 64 KiB, and `fread` keeps to its buffer.
abbrev pub IsModest : Call → Type 0
IsModest (add_file input lfh lfh_len unix_mode uid gid) =
    BoundedReads input.reads × (lfh_len < 2 ^ 16 - 24)
IsModest (add_symlink lfh lfh_len target unix_mode uid gid) = lfh_len + length target < 2 ^ 16 - 24
IsModest (add_directory lfh lfh_len unix_mode uid gid) = lfh_len < 2 ^ 16 - 24

-- What a call lays out, and what the calls lay out one after the other.
abbrev pub CallItems : Env → Call → List Item → Type 0
CallItems env (add_file input lfh lfh_len unix_mode uid gid) items =
    (level : ℕ) × (content : List Item) × FileItems env level lfh input.reads content
    × EntryItems lfh lfh_len content items
CallItems env (add_symlink lfh lfh_len target unix_mode uid gid) items =
    EntryItems lfh lfh_len (link_target target ∷ []) items
CallItems env (add_directory lfh lfh_len unix_mode uid gid) items = EntryItems lfh lfh_len [] items

abbrev pub CallsItems : Env → List Call → List Item → Type 0
CallsItems env [] items = items ≡ []
CallsItems env (c ∷ cs) items =
    (first : List Item) × (others : List Item) × CallItems env c first
    × CallsItems env cs others
    × (items ≡ first ++ others)

module _ (env : Env) (appends : Appends env) (bounded : BoundedFrames env) where
  run_call-Lays :
      (c : Call) (w w' : BurstWriter)
      → IsModest c
      → IsValid w.sink
      → Room padding_lfh_min_size w.sink
      → run_call env c w ≡ ok w'
      → (items : List Item) × CallItems env c items
        × Lays env items w.sink w'.sink
        × Room padding_lfh_min_size w'.sink
  unfolding run_call
  run_call-Lays (add_file input lfh lfh_len unix_mode uid gid) w w' m v room e =
      let (items, content, held, entry, l, here) =
        burst_writer_add_file-Lays env appends bounded input lfh lfh_len unix_mode uid gid w w' m.0
          m.1 v room e in
      (items, (w.compression_level, content, held, entry), l, here)
  run_call-Lays (add_symlink lfh lfh_len target unix_mode uid gid) w w' m v room e =
      burst_writer_add_symlink-Lays env appends lfh lfh_len target unix_mode uid gid w w' m v room e
  run_call-Lays (add_directory lfh lfh_len unix_mode uid gid) w w' m v room e =
      burst_writer_add_directory-Lays env appends lfh lfh_len unix_mode uid gid w w' m v room e

  run_calls-Lays :
      (cs : List Call) (w w' : BurstWriter) (n : ℕ)
      → All IsModest cs
      → IsValid w.sink
      → Room padding_lfh_min_size w.sink
      → run_calls env cs w n ≡ (w', n + length cs)
      → (items : List Item) × CallsItems env cs items
        × Lays env items w.sink w'.sink
        × Room padding_lfh_min_size w'.sink
  unfolding run_calls
  run_calls-Lays [] w w' n m v room e =
      let same : w ≡ w' = ap (λ r. r.0) e in
      let (l, here) =
        subst (λ u. Lays env [] w.sink u.sink × Room padding_lfh_min_size u.sink) same
          (Lays-refl env w.sink v, room) in
      ([], refl, l, here)
  run_calls-Lays (c ∷ cs) w w' n (m, ms) v room e = elim (Outcome-cases (run_call env c w)) [
    | inl (t, first) ↦
        let rest : run_calls env cs t (n + 1) ≡ (w', n + 1 + length cs) = ground (arith, first) in
        let (is, made, l, here) = run_call-Lays c w t m v room first in
        let (js, others, l', done) = run_calls-Lays cs t w' (n + 1) ms l.valid here rest in
        (
          is ++ js,
          (is, js, made, others, refl),
          Lays-trans env is js w.sink t.sink w'.sink l l',
          done,
        )
    | inr (t, first) ↦
        let rest : (run_calls env cs t n).1 ≡ n + 1 + length cs = ground (arith, first) in
        absurd (omega (arith, rest, run_calls_le env cs t n))
  ]

  -- When every call of a session succeeds, on an output that is empty at the start, the output is
  -- the bytes of a sequence of items, call by call: a padding entry where there is one, the
  -- caller's header, and then the target of the link, or for a file with data the frames of the
  -- chunks that were read, in order, with padding frames and Start-of-Part frames that name the
  -- uncompressed offset reached, and a descriptor with the checksum of the chunks. No item crosses
  -- a part boundary, and only local headers and Start-of-Part frames stand at one. The calls have a
  -- header that, with a link target, is below 64 KiB - 24, a read returns at most a chunk, `fwrite`
  -- appends, and frames are at most twice as long as a chunk.
  pub session_layout :
      (level : ℕ) (cs : List Call) (w w' : BurstWriter)
      → burst_writer_create env (some []) level ≡ some w
      → All IsModest cs
      → run_calls env cs w 0 ≡ (w', length cs)
      → (items : List Item) × CallsItems env cs items
        × (stream w'.sink ≡ flat env items)
        × Laid env 0 items
  unfolding burst_writer_create
  session_layout level cs w w' c m e =
      let (items, made, l, _) =
        run_calls-Lays cs w w' 0 m (record { room = ground arith; counted = ground arith })
          (ground arith) (e ∙ ap (λ k. (w', k)) (omega arith)) in
      let start : stream w.sink ≡ [] = ground arith in
      (items, made, l.appended ∙ ap (λ s. s ++ flat env items) start, rw start at l.laid)
