-- ===== src/Tasks/Steps.antt =====
-- The steps that the event loop, the coroutines and the callers take, in any order. A coroutine
-- does one thing at a time: it asks a question and ends only while it waits for no answer.
use fastapi_modular_template.Base.{ℕ, String, ◌≡◌, true, none, some, is_some, Dict, lookup, ok}
use fastapi_modular_template.Tasks.{
  ℤ, Question, TaskEngine, Outcome, submit, set_phase, begin_run, end_run, cancel, emit_output,
  update_progress, ask_question, end_wait, submit_answer, subscribe, unsubscribe, scheduled, doomed,
  dropped, active, deliver,
}
use fastapi_modular_template.Tasks.Listing.{cleanup_old}

infix 2 ◌⟶◌
pub data ◌⟶◌ : TaskEngine → TaskEngine → Type 0 where
  -- The identifier that a task draws is a new one.
  submitting :
      (id name task_type : String) (metadata : Dict String) (now : ℕ) {e : TaskEngine}
      → lookup id e.tasks ≡ none
      → lookup id e.running ≡ none
      → lookup id e.answer_futures ≡ none
      → e ⟶ submit id name task_type metadata now e
  beginning :
      (id : String) (now : ℕ) {e : TaskEngine}
      → lookup id e.running ≡ some scheduled
      → e ⟶ begin_run id now e
  dropping :
      (id : String) {e : TaskEngine}
      → lookup id e.running ≡ some doomed
      → e ⟶ set_phase id dropped e
  ending :
      (id : String) (outcome : Outcome) (now : ℕ) {e : TaskEngine}
      → lookup id e.running ≡ some active
      → lookup id e.answer_futures ≡ none
      → e ⟶ end_run id outcome now e
  cancelling : (id : String) {e : TaskEngine} → e ⟶ (cancel id e).1
  printing : (id line : String) {e : TaskEngine} → e ⟶ emit_output id line e
  progressing :
      (id : String) (value : ℤ) (text : String) {e : TaskEngine}
      → e ⟶ update_progress id value text e
  delivering : {e : TaskEngine} → e ⟶ deliver e
  asking :
      (id : String) (q : Question) {e e' : TaskEngine}
      → lookup id e.running ≡ some active
      → lookup id e.answer_futures ≡ none
      → ask_question id q e ≡ ok e'
      → e ⟶ e'
  resuming :
      (id : String) {e : TaskEngine}
      → is_some (lookup id e.answer_futures) ≡ true
      → e ⟶ (end_wait id e).1
  answering : (id answer : String) {e : TaskEngine} → e ⟶ (submit_answer id answer e).1
  subscribing : (id : String) (key : ℕ) {e : TaskEngine} → e ⟶ subscribe id key e
  unsubscribing : (id : String) (key : ℕ) {e : TaskEngine} → e ⟶ unsubscribe id key e
  cleaning : (max_completed : ℕ) {e : TaskEngine} → e ⟶ (cleanup_old max_completed e).1

infix 2 ◌⟶*◌
pub data ◌⟶*◌ : TaskEngine → TaskEngine → Type 0 where
  here : {e : TaskEngine} → e ⟶* e
  next : {e e' e'' : TaskEngine} → e ⟶ e' → e' ⟶* e'' → e ⟶* e''
