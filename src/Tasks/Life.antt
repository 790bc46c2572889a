-- ===== src/Tasks/Life.antt =====
-- What the engine's records say of one another, whatever steps were taken.
use fastapi_modular_template.Base.{
  ℕ, String, ◌≡◌, refl, Bool, true, false, not, ◌&&◌, Option, none, some, List, [], ◌∷◌, arith,
  ◌==◌, eq_iff, eq_refl, leb, if◌then◌else◌, is_some, every, every-alter, every-same, every-insert,
  every-remove, Dict, lookup, insert, alter, lookup-alter, lookup-insert, lookup-remove,
}
use fastapi_modular_template.Tasks.Steps.{
  ◌⟶◌, delivering, ◌⟶*◌, submitting, beginning, dropping, ending, cancelling, printing, progressing,
  asking, resuming, answering, subscribing, unsubscribing, cleaning, here, next,
}
use fastapi_modular_template.Tasks.{
  TaskStatus, ℤ, Task, Phase, TaskEngine, begin_run, clamp, pending, waiting, pos, negsuc,
  scheduled, doomed, dropped, active, ended, running, Outcome, submit, set_phase, conclude,
  returned, was_cancelled, raised, Question, notify, end_run, cancel_phase, cancel, print_line,
  emit_output, advance, update_progress, wait_for_answer, ask_question, end_wait, submit_answer,
  subscribe, unsubscribe, TaskEvent, deliver_first, deliver,
}
use fastapi_modular_template.Tasks.Listing.{is_terminal, forget, cleanup_old}

abbrev pub is_running : TaskStatus → Bool
is_running running = true
is_running _ = false

abbrev pub is_waiting : TaskStatus → Bool
is_waiting waiting = true
is_waiting _ = false

abbrev pub is_pending : TaskStatus → Bool
is_pending pending = true
is_pending _ = false

-- A task that has not begun
abbrev pub is_fresh : Task → Bool
is_fresh t = is_pending t.status && not (is_some t.completed_at) && not (is_some t.pending_question)

-- A task beside the phase of its asyncio task and whether it waits for an answer.
abbrev pub fits : Task → Option Phase → Bool → Bool
fits t none waits = false
fits t (some scheduled) waits = is_fresh t && not waits
fits t (some doomed) waits = is_fresh t && not waits
fits t (some dropped) waits = is_fresh t && not waits
fits t (some active) waits =
    (if waits
      then is_waiting t.status && is_some t.pending_question
      else is_running t.status && not (is_some t.pending_question))
    && not (is_some t.completed_at)
fits t (some ended) waits =
    is_terminal t.status && not waits && is_some t.completed_at && not (is_some t.pending_question)

-- An entry of the tasks beside the other dictionaries.
unfoldable pub coherent : Dict Phase → Dict (Option String) → String → Task → Bool
coherent phases futures k t =
    (t.id == k) && leb t.progress 100 && fits t (lookup k phases) (is_some (lookup k futures))

unfoldable pub Coherent : TaskEngine → Type 0
Coherent e = every (coherent e.running e.answer_futures) e.tasks ≡ true

clamp-bound : (p : ℤ) → leb (clamp p) 100 ≡ true
unfolding clamp
clamp-bound (pos n) = ground arith
clamp-bound (negsuc n) = refl

begin-Coherent :
    (id : String) (now : ℕ) (e : TaskEngine)
    → lookup id e.running ≡ some scheduled
    → Coherent e
    → Coherent (begin_run id now e)
unfolding begin_run Coherent coherent
begin-Coherent id now e phase h =
    every-alter _ _ id _ e.tasks h
      (λ t c. ground (arith, lookup-alter id id (λ q. active) e.running, eq_refl id))
      (λ k t other c. ground (arith, lookup-alter id k (λ q. active) e.running))

drop-Coherent :
    (id : String) (e : TaskEngine)
    → lookup id e.running ≡ some doomed
    → Coherent e
    → Coherent (set_phase id dropped e)
unfolding Coherent coherent
drop-Coherent id e phase h =
    every-same _ _ e.tasks h
      (λ k t c. ground (arith, lookup-alter id k (λ q. dropped) e.running, eq_iff id k))

submit-Coherent :
    (id name task_type : String) (metadata : Dict String) (now : ℕ) (e : TaskEngine)
    → lookup id e.tasks ≡ none
    → lookup id e.answer_futures ≡ none
    → Coherent e
    → Coherent (submit id name task_type metadata now e)
unfolding submit Coherent coherent
submit-Coherent id name task_type metadata now e fresh quiet h =
    every-insert _ _ id _ e.tasks fresh h
      (ground (arith, lookup-insert id id scheduled e.running, eq_refl id))
      (λ k t other c. ground (arith, lookup-insert id k scheduled e.running))

end-Coherent :
    (id : String) (outcome : Outcome) (now : ℕ) (e : TaskEngine)
    → lookup id e.running ≡ some active
    → lookup id e.answer_futures ≡ none
    → Coherent e
    → every
        (coherent (alter id (λ q. ended) e.running) e.answer_futures)
        (alter id (conclude outcome now) e.tasks)
      ≡ true
unfolding Coherent coherent conclude
end-Coherent id outcome now e phase quiet h =
    every-alter _ _ id _ e.tasks h
      (λ t c. elim outcome [
        | returned v ↦ ground (arith, lookup-alter id id (λ q. ended) e.running, eq_refl id)
        | was_cancelled ↦ ground (arith, lookup-alter id id (λ q. ended) e.running, eq_refl id)
        | raised m ↦ ground (arith, lookup-alter id id (λ q. ended) e.running, eq_refl id)
      ])
      (λ k t other c. ground (arith, lookup-alter id k (λ q. ended) e.running))

-- What changes a task and neither its phase nor its question keeps the records coherent.
touch-Coherent :
    (id : String) (f : Task → Task) (e : TaskEngine)
    → ((t : Task) (p : Option Phase) (waits : Bool)
        → leb t.progress 100 ≡ true
        → fits t p waits ≡ true
        → ((f t).id ≡ t.id) × (leb (f t).progress 100 ≡ true) × (fits (f t) p waits ≡ true))
    → Coherent e
    → every (coherent e.running e.answer_futures) (alter id f e.tasks) ≡ true
unfolding Coherent coherent
touch-Coherent id f e kept h =
    every-alter _ _ id _ e.tasks h
      (λ t c. ground (arith, kept t (lookup id e.running) (is_some (lookup id e.answer_futures))))
      (λ k t other c. c)

phase-Coherent :
    (id : String) (e : TaskEngine)
    → Coherent e
    → every (coherent (alter id cancel_phase e.running) e.answer_futures) e.tasks ≡ true
unfolding Coherent coherent cancel_phase
phase-Coherent id e h =
    every-same _ _ e.tasks h
      (λ k t c. ground (arith, lookup-alter id k cancel_phase e.running, eq_iff id k))

cancel-Coherent : (id : String) (e : TaskEngine) → Coherent e → Coherent (cancel id e).1
unfolding cancel Coherent
cancel-Coherent id e h = ground (arith, phase-Coherent id e h)

output-Coherent :
    (id line : String) (e : TaskEngine) → Coherent e → Coherent (emit_output id line e)
unfolding emit_output Coherent
output-Coherent id line e h =
    ground (arith, touch-Coherent id (print_line line) e (λ t p waits b c. (refl, b, c)) h)

progress-Coherent :
    (id : String) (value : ℤ) (text : String) (e : TaskEngine)
    → Coherent e
    → Coherent (update_progress id value text e)
unfolding update_progress Coherent
progress-Coherent id value text e h = ground (
  arith,
  touch-Coherent id (advance value text) e (λ t p waits b c. (refl, clamp-bound value, c)) h,
)

deliver-Coherent :
    (events : List (String × TaskEvent)) (e : TaskEngine)
    → Coherent e
    → Coherent (deliver_first events e)
unfolding notify Coherent
deliver-Coherent [] e h = h
deliver-Coherent ((id, event) ∷ later) e h = h

ask-Coherent :
    (id : String) (q : Question) (e : TaskEngine)
    → lookup id e.running ≡ some active
    → lookup id e.answer_futures ≡ none
    → Coherent e
    → every
        (coherent e.running (insert id none e.answer_futures))
        (alter id (wait_for_answer q) e.tasks)
      ≡ true
unfolding Coherent coherent
ask-Coherent id q e phase quiet h =
    every-alter _ _ id _ e.tasks h
      (λ t c. ground (arith, lookup-insert id id none e.answer_futures, eq_refl id))
      (λ k t other c. ground (arith, lookup-insert id k none e.answer_futures))

wait-Coherent :
    (id : String) (e : TaskEngine)
    → is_some (lookup id e.answer_futures) ≡ true
    → Coherent e
    → Coherent (end_wait id e).1
unfolding end_wait Coherent coherent
wait-Coherent id e asked h =
    every-alter _ _ id _ e.tasks h
      (λ t c. ground (arith, lookup-remove id id e.answer_futures, eq_refl id))
      (λ k t other c. ground (arith, lookup-remove id k e.answer_futures))

answered-Coherent :
    (id answer : String) (e : TaskEngine)
    → Coherent e
    → every (coherent e.running (alter id (λ f. some answer) e.answer_futures)) e.tasks ≡ true
unfolding Coherent coherent
answered-Coherent id answer e h =
    every-same _ _ e.tasks h
      (λ k t c. ground (arith, lookup-alter id k (λ f. some answer) e.answer_futures))

answer-Coherent :
    (id answer : String) (e : TaskEngine) → Coherent e → Coherent (submit_answer id answer e).1
unfolding submit_answer Coherent
answer-Coherent id answer e h = ground (arith, answered-Coherent id answer e h)

pub forget-Coherent : (ts : List Task) (e : TaskEngine) → Coherent e → Coherent (forget ts e)
unfolding forget Coherent coherent
forget-Coherent [] e h = h
forget-Coherent (t ∷ ts) e h = forget-Coherent ts _ (
    every-remove _ _ t.id e.tasks h (λ k u other c. ground (arith, lookup-remove t.id k e.running)))

-- Every step keeps the records coherent.
pub step-Coherent : {e e' : TaskEngine} → e ⟶ e' → Coherent e → Coherent e'
unfolding Coherent deliver end_run notify ask_question subscribe unsubscribe cleanup_old
step-Coherent (submitting id name task_type metadata now {e} fresh idle quiet) h =
    submit-Coherent id name task_type metadata now e fresh quiet h
step-Coherent (beginning id now {e} phase) h = begin-Coherent id now e phase h
step-Coherent (dropping id {e} phase) h = drop-Coherent id e phase h
step-Coherent (ending id outcome now {e} phase quiet) h =
    ground (arith, end-Coherent id outcome now e phase quiet h)
step-Coherent (cancelling id {e}) h = cancel-Coherent id e h
step-Coherent (printing id line {e}) h = output-Coherent id line e h
step-Coherent (progressing id value text {e}) h = progress-Coherent id value text e h
step-Coherent (delivering {e}) h = deliver-Coherent e.outbox e h
step-Coherent (asking id q {e} {e'} phase quiet asked) h =
    ground (arith, asked, ask-Coherent id q e phase quiet h)
step-Coherent (resuming id {e} asked) h = wait-Coherent id e asked h
step-Coherent (answering id answer {e}) h = answer-Coherent id answer e h
step-Coherent (subscribing id key) h = h
step-Coherent (unsubscribing id key) h = h
step-Coherent (cleaning n {e}) h = forget-Coherent _ e h

-- However the event loop, the coroutines and the callers take their steps, every task stays stored
-- under its own identifier, with a progress of at most 100 and with the status that its asyncio
-- task and its open question call for, and with a time of completion exactly if it has ended.
pub steps-Coherent : {e e' : TaskEngine} → e ⟶* e' → Coherent e → Coherent e'
steps-Coherent here h = h
steps-Coherent (next s more) h = steps-Coherent more (step-Coherent s h)
