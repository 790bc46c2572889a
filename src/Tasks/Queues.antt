-- ===== src/Tasks/Queues.antt =====
-- The subscribers' queues.
use fastapi_modular_template.Base.{
  ℕ, String, ◌≡◌, refl, inl, inr, Bool, true, ◌&&◌, List, [], ◌∷◌, ◌++◌, map, arith, leb,
  Option-cases, length, filter, length-append, every, every-alter, every-remove, every-lookup,
  every-set, lookup, alter,
}
use fastapi_modular_template.Tasks.Steps.{
  ◌⟶◌, delivering, ◌⟶*◌, submitting, beginning, dropping, ending, cancelling, printing, progressing,
  asking, resuming, answering, subscribing, unsubscribing, cleaning, here, next,
}
use fastapi_modular_template.Tasks.{
  Task, TaskEvent, Queue, TaskEngine, max_queue, put_nowait, notify, submit, begin_run, end_run,
  cancel, emit_output, update_progress, ask_question, end_wait, submit_answer, unsubscribe,
  output_event, conclude, done_of, clamp, advance, progress_event, question_event, subscribe,
  deliver_first, deliver,
}
use fastapi_modular_template.Tasks.Listing.{pop_task, forget, cleanup_old}

unfoldable pub all_short : List Queue → Bool
all_short [] = true
all_short (q ∷ qs) = leb (length q.events) max_queue && all_short qs

unfoldable pub Bounded : TaskEngine → Type 0
Bounded e = every (λ k qs. all_short qs) e.subscribers ≡ true

put-short :
    (event : TaskEvent) (qs : List Queue)
    → all_short qs ≡ true
    → all_short (map (put_nowait event) qs) ≡ true
unfolding all_short put_nowait
put-short event [] h = refl
put-short event (q ∷ qs) h = ground (arith, length-append q.events (event ∷ []), put-short event qs)

filter-short :
    (p : Queue → Bool) (qs : List Queue) → all_short qs ≡ true → all_short (filter p qs) ≡ true
unfolding all_short
filter-short p [] h = refl
filter-short p (q ∷ qs) h = ground (arith, filter-short p qs)

append-short :
    (qs : List Queue) (q : Queue)
    → all_short qs ≡ true
    → leb (length q.events) max_queue ≡ true
    → all_short (qs ++ q ∷ []) ≡ true
unfolding all_short
append-short [] q h k = ground arith
append-short (r ∷ qs) q h k = ground (arith, append-short qs q)

sent-Bounded :
    (id : String) (event : TaskEvent) (e : TaskEngine)
    → Bounded e
    → every (λ k qs. all_short qs) (alter id (map (put_nowait event)) e.subscribers) ≡ true
unfolding Bounded
sent-Bounded id event e h =
    every-alter _ _ id _ e.subscribers h (λ qs s. put-short event qs s) (λ k qs other s. s)

unsubscribe-Bounded :
    (id : String) (key : ℕ) (e : TaskEngine) → Bounded e → Bounded (unsubscribe id key e)
unfolding unsubscribe Bounded
unsubscribe-Bounded id key e h =
    every-alter _ _ id _ e.subscribers h (λ qs s. filter-short _ qs s) (λ k qs other s. s)

subscribe-Bounded :
    (id : String) (key : ℕ) (e : TaskEngine) → Bounded e → Bounded (subscribe id key e)
unfolding subscribe Bounded all_short
subscribe-Bounded id key e h =
    every-set (λ k qs. all_short qs) id _ e.subscribers h
      (elim (Option-cases (lookup id e.subscribers)) [
        | inl absent ↦ ground (arith, absent)
        | inr (qs, found) ↦ ground (
          arith,
          found,
          append-short qs (record { key = key; events = [] })
              (every-lookup (λ k qs. all_short qs) id qs e.subscribers h found),
        )
      ])

forget-Bounded : (ts : List Task) (e : TaskEngine) → Bounded e → Bounded (forget ts e)
unfolding forget Bounded
forget-Bounded [] e h = h
forget-Bounded (t ∷ ts) e h =
    forget-Bounded ts (pop_task t.id e) (every-remove _ _ t.id e.subscribers h (λ k qs other s. s))

deliver-Bounded :
    (events : List (String × TaskEvent)) (e : TaskEngine)
    → Bounded e
    → Bounded (deliver_first events e)
unfolding notify Bounded
deliver-Bounded [] e h = h
deliver-Bounded ((id, event) ∷ later) e h = sent-Bounded id event e h

step-Bounded : {e e' : TaskEngine} → e ⟶ e' → Bounded e → Bounded e'
unfolding Bounded notify deliver begin_run end_run submit cancel emit_output update_progress
    ask_question end_wait submit_answer cleanup_old
step-Bounded (submitting other title kind metadata now fresh idle quiet) h = h
step-Bounded (beginning other now phase) h = h
step-Bounded (dropping other phase) h = h
step-Bounded (ending other outcome now {e} phase quiet) h =
    elim (Option-cases (lookup other (alter other (conclude outcome now) e.tasks))) [
      | inl absent ↦ ground (arith, absent)
      | inr (t, found) ↦ ground (arith, found, sent-Bounded other (done_of t) e h)
    ]
step-Bounded (cancelling other) h = ground arith
step-Bounded (printing other line {e}) h =
    ground (arith, sent-Bounded other (output_event line) e h)
step-Bounded (progressing other value text {e}) h = elim (Option-cases (lookup other e.tasks)) [
  | inl absent ↦ ground (arith, absent)
  | inr (t, found) ↦ ground (
    arith,
    found,
    sent-Bounded other (progress_event (clamp value) (advance value text t).status_text) e h,
  )
]
step-Bounded (delivering {e}) h = deliver-Bounded e.outbox e h
step-Bounded (asking other q {e} {e'} phase quiet asked) h =
    ground (arith, asked, sent-Bounded other (question_event q) e h)
step-Bounded (resuming other asked) h = h
step-Bounded (answering other answer) h = ground arith
step-Bounded (subscribing other key {e}) h = subscribe-Bounded other key e h
step-Bounded (unsubscribing other key {e}) h = unsubscribe-Bounded other key e h
step-Bounded (cleaning n {e}) h = forget-Bounded _ e h

-- However the steps come, where every subscriber's queue has at most 256 events, none ever has
-- more.
steps-Bounded : {e e' : TaskEngine} → e ⟶* e' → Bounded e → Bounded e'
steps-Bounded here h = h
steps-Bounded (next step more) h = steps-Bounded more (step-Bounded step h)
