-- ===== src/Tests/TasksCases.antt =====
-- The theorems on the task engine at concrete inputs.
use fastapi_modular_template.Base.{
  ◌-◌, ◌≤◌, ◌≡◌, refl, ◌⊎◌, true, none, some, [], every, lookup, insert, alter,
}
use fastapi_modular_template.Tasks.{
  Question, TaskEngine, notify, submit, set_phase, begin_run, conclude, end_run, cancel_phase,
  cancel, emit_output, completed, dropped, returned,
}
use fastapi_modular_template.Tasks.Listing.{cleanup_old}
use fastapi_modular_template.Tasks.Steps.{
  submitting, beginning, dropping, ending, cleaning, here, next, printing,
}
use fastapi_modular_template.Tasks.Life.{Coherent, steps-Coherent, coherent}
use fastapi_modular_template.Tasks.Fate.{stranded, stranded-forever, ended-stays, verdict}
use fastapi_modular_template.Tasks.Cleanup.{cleanup_old-bound, finished_count}

abbrev empty_engine : TaskEngine
empty_engine = record {
  tasks = [];
  running = [];
  subscribers = [];
  answer_futures = [];
  outbox = [];
}

abbrev submitted : TaskEngine
submitted = submit "t1" "report" "generic" [] 1 empty_engine

abbrev question : Question
question = record { question = "Go on?"; options = none }

abbrev doomed_engine : TaskEngine
doomed_engine = (cancel "t1" submitted).1

abbrev finished : TaskEngine
finished = end_run "t1" (returned "42") 9 (begin_run "t1" 5 submitted)

steps-Coherent_example : Coherent finished
unfolding submit begin_run insert lookup alter Coherent every coherent
steps-Coherent_example =
    steps-Coherent
      (next (submitting "t1" "report" "generic" [] 1 {e = empty_engine} refl refl refl)
        (next (beginning "t1" 5 refl) (next (ending "t1" (returned "42") 9 refl refl) here)))
      refl

stranded-forever_example :
    stranded "t1" (cleanup_old 0 (set_phase "t1" dropped doomed_engine)).1 ≡ true
unfolding submit cancel cancel_phase insert lookup alter Coherent every coherent
stranded-forever_example =
    stranded-forever "t1" {e = doomed_engine} (next (dropping "t1" refl) (next (cleaning 0) here))
      refl refl

ended-stays_example :
    (lookup "t1" (emit_output "t1" "late" finished).tasks ≡ none)
    ⊎ (verdict (lookup "t1" (emit_output "t1" "late" finished).tasks)
        ≡ some (completed, some "42", "", some 9))
unfolding submit begin_run end_run insert lookup alter conclude notify Coherent every coherent
ended-stays_example = ended-stays "t1" {e = finished} _ (printing "t1" "late") refl refl refl

cleanup_old-bound_example :
    (finished_count (cleanup_old 0 finished).1 ≤ 0)
    × ((cleanup_old 0 finished).0 ≡ finished_count finished - 0)
unfolding submit begin_run end_run insert lookup alter conclude notify Coherent every coherent
cleanup_old-bound_example = cleanup_old-bound 0 finished refl
