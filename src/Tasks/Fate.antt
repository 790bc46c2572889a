-- ===== src/Tasks/Fate.antt =====
-- What later steps do to a task that has ended, and to one cancelled before it began.
use fastapi_modular_template.Base.{
  ℕ, String, ◌≡◌, refl, ap, ◌⊎◌, inl, inr, Bool, true, false, ◌&&◌, Option, none, some, List, [],
  ◌∷◌, arith, eq_iff, Option-cases, is_some, every-lookup, lookup, lookup-alter, lookup-insert,
  lookup-remove,
}
use fastapi_modular_template.Tasks.Cleanup.{cleanup_old-going}
use fastapi_modular_template.Tasks.Life.{coherent, Coherent, fits, is_pending, step-Coherent}
use fastapi_modular_template.Tasks.Steps.{
  ◌⟶◌, delivering, submitting, beginning, dropping, ending, cancelling, printing, progressing,
  asking, resuming, answering, subscribing, unsubscribing, cleaning, ◌⟶*◌, here, next,
}
use fastapi_modular_template.Tasks.{
  TaskStatus, Task, Phase, TaskEngine, notify, new_task, submit, begin, begin_run, conclude,
  end_run, cancel, print_line, emit_output, advance, update_progress, wait_for_answer, resume,
  ask_question, end_wait, submit_answer, subscribe, unsubscribe, doomed, dropped, cancel_phase,
  scheduled, active, ended, TaskEvent, deliver_first, deliver,
}
use fastapi_modular_template.Tasks.Listing.{
  is_terminal, terminal_tasks, drop, pop_task, forget, cleanup_old,
}

-- How a task ended: its status, result, error and time
abbrev pub verdict : Option Task → Option (TaskStatus × Option String × String × Option ℕ)
verdict none = none
verdict (some t) = some (t.status, t.result, t.error, t.completed_at)

abbrev pub cancelled_early : Option Phase → Bool
cancelled_early (some doomed) = true
cancelled_early (some dropped) = true
cancelled_early _ = false

-- A task whose asyncio task was cancelled before it began, shown as pending
abbrev pub stranded : String → TaskEngine → Bool
stranded id e = elim (lookup id e.tasks) [
  | none ↦ false
  | some t ↦ is_pending t.status && cancelled_early (lookup id e.running)
]

-- What the records say of one task
Coherent-at :
    (id : String) (e : TaskEngine) (t : Task)
    → Coherent e
    → lookup id e.tasks ≡ some t
    → fits t (lookup id e.running) (is_some (lookup id e.answer_futures)) ≡ true
unfolding Coherent coherent
Coherent-at id e t h found =
    ground (arith, every-lookup (coherent e.running e.answer_futures) id t e.tasks h found)

delivered-tasks :
    (events : List (String × TaskEvent)) (e : TaskEngine)
    → ((deliver_first events e).tasks ≡ e.tasks) × ((deliver_first events e).running ≡ e.running)
unfolding notify
delivered-tasks [] e = (refl, refl)
delivered-tasks ((id, event) ∷ later) e = (refl, refl)

deliver-tasks : (e : TaskEngine) → ((deliver e).tasks ≡ e.tasks) × ((deliver e).running ≡ e.running)
unfolding deliver
deliver-tasks e = delivered-tasks e.outbox e

forget-gone :
    (ts : List Task) (e : TaskEngine) (id : String)
    → (lookup id (forget ts e).tasks ≡ none) ⊎ (lookup id (forget ts e).tasks ≡ lookup id e.tasks)
unfolding forget
forget-gone [] e id = inr refl
forget-gone (t ∷ ts) e id =
    ground (arith, forget-gone ts (pop_task t.id e) id, lookup-remove t.id id e.tasks)

-- From coherent records, a step removes a task that has ended, or leaves its status, result, error
-- and time of completion as they are.
pub ended-stays :
    (id : String) {e e' : TaskEngine} (t : Task)
    → e ⟶ e'
    → Coherent e
    → lookup id e.tasks ≡ some t
    → is_terminal t.status ≡ true
    → (lookup id e'.tasks ≡ none) ⊎ (verdict (lookup id e'.tasks) ≡ verdict (some t))
unfolding begin_run end_run submit cancel emit_output update_progress ask_question end_wait
    submit_answer subscribe unsubscribe cleanup_old notify
ended-stays id t (submitting other title kind metadata now {e} fresh idle quiet) h found over =
    ground (
      arith,
      found,
      lookup-insert other id (new_task other title kind metadata now) e.tasks,
      eq_iff other id,
    )
ended-stays id t (beginning other now {e} phase) h found over = ground (
  arith,
  found,
  Coherent-at id e t h found,
  lookup-alter other id (begin now) e.tasks,
  eq_iff other id,
)
ended-stays id t (dropping other phase) h found over = ground (arith, found)
ended-stays id t (ending other outcome now {e} phase quiet) h found over = ground (
  arith,
  found,
  Coherent-at id e t h found,
  lookup-alter other id (conclude outcome now) e.tasks,
  eq_iff other id,
)
ended-stays id t (cancelling other) h found over = ground (arith, found)
ended-stays id t (printing other line {e}) h found over =
    ground (arith, found, lookup-alter other id (print_line line) e.tasks)
ended-stays id t (progressing other value text {e}) h found over =
    ground (arith, found, lookup-alter other id (advance value text) e.tasks)
ended-stays id t (delivering {e}) h found over =
    ground (arith, found, ap (lookup id) (deliver-tasks e).0)
ended-stays id t (asking other q {e} phase quiet asked) h found over = ground (
  arith,
  asked,
  found,
  Coherent-at id e t h found,
  lookup-alter other id (wait_for_answer q) e.tasks,
  eq_iff other id,
)
ended-stays id t (resuming other {e} asked) h found over = ground (
  arith,
  found,
  Coherent-at id e t h found,
  lookup-alter other id resume e.tasks,
  eq_iff other id,
)
ended-stays id t (answering other answer) h found over = ground (arith, found)
ended-stays id t (subscribing other key) h found over = ground (arith, found)
ended-stays id t (unsubscribing other key) h found over = ground (arith, found)
ended-stays id t (cleaning n {e}) h found over =
    ground (arith, found, forget-gone (drop n (terminal_tasks e)) e id)

stranded-step :
    (id : String) {e e' : TaskEngine}
    → e ⟶ e'
    → Coherent e
    → stranded id e ≡ true
    → stranded id e' ≡ true
unfolding begin_run end_run submit cancel emit_output update_progress ask_question end_wait
    submit_answer subscribe unsubscribe notify cancel_phase
stranded-step id (submitting other title kind metadata now {e} fresh idle quiet) h s = ground (
  arith,
  lookup-insert other id (new_task other title kind metadata now) e.tasks,
  lookup-insert other id scheduled e.running,
  eq_iff other id,
)
stranded-step id (beginning other now {e} phase) h s = ground (
  arith,
  lookup-alter other id (begin now) e.tasks,
  lookup-alter other id (λ p. active) e.running,
  eq_iff other id,
)
stranded-step id (dropping other {e} phase) h s =
    ground (arith, lookup-alter other id (λ p. dropped) e.running, eq_iff other id)
stranded-step id (ending other outcome now {e} phase quiet) h s = ground (
  arith,
  lookup-alter other id (conclude outcome now) e.tasks,
  lookup-alter other id (λ p. ended) e.running,
  eq_iff other id,
)
stranded-step id (cancelling other {e}) h s =
    ground (arith, lookup-alter other id cancel_phase e.running, eq_iff other id)
stranded-step id (printing other line {e}) h s =
    ground (arith, lookup-alter other id (print_line line) e.tasks)
stranded-step id (progressing other value text {e}) h s =
    ground (arith, lookup-alter other id (advance value text) e.tasks)
stranded-step id (delivering {e}) h s = ground (arith, deliver-tasks e)
stranded-step id (asking other q {e} phase quiet asked) h s =
    ground (arith, asked, lookup-alter other id (wait_for_answer q) e.tasks, eq_iff other id)
stranded-step id (resuming other {e} asked) h s = elim (Option-cases (lookup id e.tasks)) [
  | inl absent ↦ ground (arith, absent)
  | inr (t, found) ↦ ground (
    arith,
    found,
    Coherent-at id e t h found,
    lookup-alter other id resume e.tasks,
    eq_iff other id,
  )
]
stranded-step id (answering other answer) h s = ground arith
stranded-step id (subscribing other key) h s = s
stranded-step id (unsubscribing other key) h s = s
stranded-step id (cleaning n {e}) h s = ground (arith, cleanup_old-going n e id h)

-- From coherent records, a task whose asyncio task was cancelled before it began is pending ever
-- after: no step runs it, shows it as cancelled or removes it.
pub stranded-forever :
    (id : String) {e e' : TaskEngine}
    → e ⟶* e'
    → Coherent e
    → stranded id e ≡ true
    → stranded id e' ≡ true
stranded-forever id here h s = s
stranded-forever id (next step more) h s =
    stranded-forever id more (step-Coherent step h) (stranded-step id step h s)
