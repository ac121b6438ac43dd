-- ===== src/Stream/Step/Call.antt =====
-- A whole call of `part_processor_process_data`, and a new part processor.
use burst.Base.{ℕ, ◌≡◌, some, List, arith}
use burst.Sink.{Outcome, ok, failed}
use burst.Parser.Whole.{ParseResult}
use burst.Stream.{state_error, PartProcessor, System, part_processor_create}
use burst.Stream.Step.{LoopEnd, finished, errored, buffering}
use burst.Stream.Files.Keeps.{FilesFit}
use burst.Stream.Step.Inv.{InState}

abbrev pub EndsSound : LoopEnd → Type 0
EndsSound (finished p) = InState p
EndsSound (buffering rest p) = InState p
EndsSound (errored p) = p.state ≡ state_error

-- The result of a call: what it leaves is sound, or in the error state.
abbrev pub ResultSound : Outcome PartProcessor → Type 0
ResultSound (ok p) = InState p
ResultSound (failed p) = p.state ≡ state_error

-- A new part processor is sound.
pub part_processor_create-Sound :
    (sys : System) (part_index : ℕ) (cd_result : ParseResult) (output_dir : List ℕ) (part_size : ℕ)
    (p : PartProcessor)
    → FilesFit cd_result
    → part_processor_create sys part_index cd_result output_dir part_size ≡ some p
    → InState p
unfolding part_processor_create
part_processor_create-Sound sys part_index cd_result output_dir part_size p fit e =
    ground (arith, fit)
