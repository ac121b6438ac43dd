-- ===== src/Stream/Step/Progress.antt =====
-- The loop of `part_processor_process_data`, and the fuel that it takes.
use mathlib.Core.Path.{subst}
use burst.Base.{
  ℕ, zero, suc, ◌+◌, ◌*◌, ◌≤◌, ◌≡◌, refl, ◌≢◌, inl, inr, Option, none, some, List, [], ◌∷◌, ◌++◌,
  arith, ◌==◌, Bool-cases, length, drop, length-drop,
}
use burst.Sink.{Outcome, ok, failed}
use burst.Frame.{Zstd}
use burst.Stream.{ProcessorState, PartProcessor, System}
use burst.Stream.Step.{
  Round, advanced, waiting, returned, round_in, LoopEnd, finished, errored, buffering, process_loop,
  loop_fuel, appended_data, end_in_buffer, end_in_data, process_buffer, process_work,
  process_data_in, part_processor_process_data,
}
use burst.Stream.Step.Sizes.{NoHugeFrame, FindsBytes, NoHugeFrame-drop}
use burst.Stream.Step.Forward.{rank, Forward, round_in-Forward}

rank_le : (st : ProcessorState) → rank st ≤ 2
rank_le st = ground arith

end_in_buffer_total : (o : Option LoopEnd) → o ≢ none → end_in_buffer o ≢ none
end_in_buffer_total none h e = absurd (h refl)
end_in_buffer_total (some (finished p)) h e = cc
end_in_buffer_total (some (errored p)) h e = cc
end_in_buffer_total (some (buffering rest p)) h e = cc

end_in_data_total : (sys : System) (o : Option LoopEnd) → o ≢ none → end_in_data sys o ≢ none
end_in_data_total sys none h e = absurd (h refl)
end_in_data_total sys (some (finished p)) h e = cc
end_in_data_total sys (some (errored p)) h e = cc
end_in_data_total sys (some (buffering rest p)) h e = cc

no_bytes : (b : List ℕ) → length b ≡ 0 → b ≡ []
no_bytes [] e = refl
no_bytes (x ∷ xs) e = absurd (omega arith)

appended_data_buffer :
    (sys : System) (bytes : List ℕ) (p q : PartProcessor)
    → appended_data sys bytes p ≡ ok q
    → p.frame_buffer ++ bytes ≡ q.frame_buffer
unfolding appended_data
appended_data_buffer sys bytes p q e = ground arith

process_data_in_total :
    (zstd : Zstd) (sys : System) (bytes : List ℕ) (p : PartProcessor) (st : ProcessorState)
    → process_work zstd sys bytes p ≢ none
    → process_data_in zstd sys bytes p st ≢ none
unfolding process_data_in
process_data_in_total zstd sys bytes p st h = ground (arith, h)

round_total :
    (zstd : Zstd) (sys : System) (fuel : ℕ) (x : ℕ) (xs : List ℕ) (p : PartProcessor) (r : Round)
    → FindsBytes zstd
    → NoHugeFrame (x ∷ xs)
    → 3 * length (x ∷ xs) + rank p.state ≤ suc fuel
    → round_in zstd sys (x ∷ xs) p p.state ≡ r
    → ((n : ℕ) (q : PartProcessor)
        → 3 * length (drop n (x ∷ xs)) + rank q.state ≤ fuel
        → process_loop zstd sys fuel (drop n (x ∷ xs)) q ≢ none)
    → process_loop zstd sys (suc fuel) (x ∷ xs) p ≢ none
unfolding process_loop
round_total zstd sys fuel x xs p (advanced n q) finds small enough eq rest h =
    let less : Forward n p.state q.state =
      round_in-Forward zstd sys x xs p q n p.state finds small eq in
    let low : rank q.state ≤ 2 = rank_le q.state in
    rest n q (ground (arith, less, low, enough, length-drop n (x ∷ xs))) (ground (arith, eq, h))
round_total zstd sys fuel x xs p (waiting q) finds small enough eq rest h = ground (arith, eq, h)
round_total zstd sys fuel x xs p (returned q) finds small enough eq rest h = ground (arith, eq, h)

-- With three units of fuel for each byte, and those for the state, the loop ends by its own tests.
process_loop_total :
    (zstd : Zstd) (sys : System) (fuel : ℕ) (b : List ℕ) (p : PartProcessor)
    → FindsBytes zstd
    → NoHugeFrame b
    → 3 * length b + rank p.state ≤ fuel
    → process_loop zstd sys fuel b p ≢ none
unfolding process_loop
process_loop_total zstd sys zero [] p finds small enough = λ e. cc
process_loop_total zstd sys (suc fuel) [] p finds small enough = λ e. cc
process_loop_total zstd sys zero (x ∷ xs) p finds small enough = absurd (omega arith)
process_loop_total zstd sys (suc fuel) (x ∷ xs) p finds small enough =
    round_total zstd sys fuel x xs p (round_in zstd sys (x ∷ xs) p p.state) finds small enough refl
      (λ n q.
        process_loop_total zstd sys fuel (drop n (x ∷ xs)) q finds
          (NoHugeFrame-drop n (x ∷ xs) small))

process_buffer_total :
    (zstd : Zstd) (sys : System) (o : Outcome PartProcessor)
    → FindsBytes zstd
    → ((q : PartProcessor) → o ≡ ok q → NoHugeFrame q.frame_buffer)
    → process_buffer zstd sys o ≢ none
process_buffer_total zstd sys (failed q) finds small e = cc
process_buffer_total zstd sys (ok q) finds small e =
    let low : rank q.state ≤ 2 = rank_le q.state in
    let ends : process_loop zstd sys (loop_fuel q.frame_buffer) q.frame_buffer q ≢ none =
      process_loop_total zstd sys (loop_fuel q.frame_buffer) q.frame_buffer q finds (small q refl)
        (omega (arith, low)) in
    end_in_buffer_total (process_loop zstd sys (loop_fuel q.frame_buffer) q.frame_buffer q) ends e

process_work_total :
    (zstd : Zstd) (sys : System) (bytes : List ℕ) (p : PartProcessor)
    → FindsBytes zstd
    → NoHugeFrame (p.frame_buffer ++ bytes)
    → process_work zstd sys bytes p ≢ none
unfolding process_work
process_work_total zstd sys bytes p finds small e = elim (Bool-cases (length p.frame_buffer == 0)) [
  | inl unused ↦
      let empty : p.frame_buffer ≡ [] = no_bytes p.frame_buffer (ground (arith, unused)) in
      let low : rank p.state ≤ 2 = rank_le p.state in
      end_in_data_total sys (process_loop zstd sys (loop_fuel bytes) bytes p)
        (process_loop_total zstd sys (loop_fuel bytes) bytes p finds
          (subst (λ b. NoHugeFrame (b ++ bytes)) empty small) (omega (arith, low)))
        (rw unused at e)
  | inr used ↦
      process_buffer_total zstd sys (appended_data sys bytes p) finds
        (λ q h. subst NoHugeFrame (appended_data_buffer sys bytes p q h) small) (rw used at e)
]

-- Every call of `part_processor_process_data` ends: over what is buffered and the new bytes the
-- loop ends by its own tests, within three rounds for each byte and three more, when no skippable
-- frame in them has a size that passes a uint32_t and libzstd finds no empty frames.
pub part_processor_process_data_total :
    (zstd : Zstd) (sys : System) (bytes : List ℕ) (p : PartProcessor)
    → FindsBytes zstd
    → NoHugeFrame (p.frame_buffer ++ bytes)
    → part_processor_process_data zstd sys bytes p ≢ none
unfolding part_processor_process_data
part_processor_process_data_total zstd sys bytes p finds small =
    process_data_in_total zstd sys bytes p p.state (process_work_total zstd sys bytes p finds small)
