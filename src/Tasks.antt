-- ===== src/Tasks.antt =====
-- Background tasks: scottycore/core/task_engine.py.
pub mod Listing
pub mod Steps
pub mod Life
pub mod Fate
pub mod Queues
pub mod Counts
pub mod Cleanup
use fastapi_modular_template.Base.{
  ℕ, min, String, Bool, true, false, not, Option, none, some, List, [], ◌∷◌, ◌++◌, map, ◌==◌, ltb,
  eqb, if◌then◌else◌, length, filter, Dict, lookup, insert, remove, alter, Result, value_error, ok,
  err,
}
use mathlib.Core.Option

pub data TaskStatus : Type 0 where
  pending running completed failed cancelled waiting : TaskStatus

-- A Python integer
pub data ℤ : Type 0 where
  pos : ℕ → ℤ
  negsuc : ℕ → ℤ

pub record Question : Type 0 where
  pub question : String
  pub options : Option (List String)

pub record Task : Type 0 where
  pub id : String
  pub name : String
  pub task_type : String
  pub status : TaskStatus
  pub progress : ℕ
  pub status_text : String
  pub result : Option String
  pub error : String
  pub output_lines : List String
  pub created_at : ℕ
  pub started_at : Option ℕ
  pub completed_at : Option ℕ
  pub metadata : Dict String
  pub pending_question : Option Question

-- What a subscriber is sent.
pub data TaskEvent : Type 0 where
  done_event : TaskStatus → Option String → String → TaskEvent
  output_event : String → TaskEvent
  progress_event : ℕ → String → TaskEvent
  question_event : Question → TaskEvent

-- An asyncio queue of 256 places; `key` tells it from the others.
pub record Queue : Type 0 where
  pub key : ℕ
  pub events : List TaskEvent

-- An asyncio task: not begun, cancelled before it began and not yet dropped, dropped without having
-- begun, begun, ended.
pub data Phase : Type 0 where
  scheduled doomed dropped active ended : Phase

-- A future holds its answer when it is done. `outbox` holds the calls of `_notify` that
-- `ensure_future` has scheduled and that have not run, in their order.
pub record TaskEngine : Type 0 where
  pub tasks : Dict Task
  pub running : Dict Phase
  pub subscribers : Dict (List Queue)
  pub answer_futures : Dict (Option String)
  pub outbox : List (String × TaskEvent)

pub data Outcome : Type 0 where
  returned : String → Outcome
  was_cancelled : Outcome
  raised : String → Outcome

abbrev pub max_queue : ℕ
max_queue = 256

-- `put_nowait`; a full queue drops the event.
unfoldable pub put_nowait : TaskEvent → Queue → Queue
put_nowait event q =
    if ltb (length q.events) max_queue then record q { events = q.events ++ event ∷ [] } else q

unfoldable pub notify : String → TaskEvent → TaskEngine → TaskEngine
notify task_id event e = record e {
  subscribers = alter task_id (map (put_nowait event)) e.subscribers;
}

abbrev pub new_task : String → String → String → Dict String → ℕ → Task
new_task id name task_type metadata now = record {
  id = id;
  name = name;
  task_type = task_type;
  status = pending;
  progress = 0;
  status_text = "";
  result = none;
  error = "";
  output_lines = [];
  created_at = now;
  started_at = none;
  completed_at = none;
  metadata = metadata;
  pending_question = none;
}

-- `id` is the identifier that the task draws.
unfoldable pub submit : String → String → String → Dict String → ℕ → TaskEngine → TaskEngine
submit id name task_type metadata now e = record e {
  tasks = insert id (new_task id name task_type metadata now) e.tasks;
  running = insert id scheduled e.running;
}

-- The task of that identifier, and the phase of its asyncio task
abbrev pub set_task : String → (Task → Task) → TaskEngine → TaskEngine
set_task id f e = record e { tasks = alter id f e.tasks }

abbrev pub set_phase : String → Phase → TaskEngine → TaskEngine
set_phase id p e = record e { running = alter id (λ q. p) e.running }

abbrev pub begin : ℕ → Task → Task
begin now t = record t { status = running; started_at = some now }

-- `_run` up to the call of the coroutine
unfoldable pub begin_run : String → ℕ → TaskEngine → TaskEngine
begin_run id now e = set_phase id active (set_task id (begin now) e)

-- The `try` of `_run`, by how the coroutine ends, and its `finally`
unfoldable pub conclude : Outcome → ℕ → Task → Task
conclude (returned value) now t = record t {
  result = some value;
  status = completed;
  progress = 100;
  completed_at = some now;
}
conclude was_cancelled now t = record t { status = cancelled; completed_at = some now }
conclude (raised message) now t = record t {
  error = message;
  status = failed;
  completed_at = some now;
}

abbrev pub done_of : Task → TaskEvent
done_of t = done_event t.status t.result t.error

unfoldable pub end_run : String → Outcome → ℕ → TaskEngine → TaskEngine
end_run id outcome now e =
    let e' = set_phase id ended (set_task id (conclude outcome now) e) in
    elim (lookup id e'.tasks) [ none ↦ e' | some t ↦ notify id (done_of t) e' ]

-- What `cancel` does to an asyncio task that is not done: one that has not begun never will.
unfoldable pub cancel_phase : Phase → Phase
cancel_phase scheduled = doomed
cancel_phase doomed = doomed
cancel_phase dropped = dropped
cancel_phase active = active
cancel_phase ended = ended

abbrev pub is_done : Phase → Bool
is_done dropped = true
is_done ended = true
is_done _ = false

unfoldable pub cancel : String → TaskEngine → Bool × TaskEngine
cancel task_id e = elim (lookup task_id e.running) [
  | none ↦ (false, e)
  | some p ↦
      if is_done p
      then (false, e)
      else (true, record e { running = alter task_id cancel_phase e.running })
]

abbrev pub post : String → TaskEvent → TaskEngine → TaskEngine
post task_id event e = record e { outbox = e.outbox ++ (task_id, event) ∷ [] }

-- The event loop runs the first scheduled `_notify`.
abbrev pub deliver_first : List (String × TaskEvent) → TaskEngine → TaskEngine
deliver_first [] e = e
deliver_first ((task_id, event) ∷ later) e = notify task_id event (record e { outbox = later })

unfoldable pub deliver : TaskEngine → TaskEngine
deliver e = deliver_first e.outbox e

abbrev pub print_line : String → Task → Task
print_line line t = record t { output_lines = t.output_lines ++ line ∷ [] }

unfoldable pub emit_output : String → String → TaskEngine → TaskEngine
emit_output task_id line e = elim (lookup task_id e.tasks) [
  | none ↦ e
  | some t ↦ post task_id (output_event line) (set_task task_id (print_line line) e)
]

-- `min(100, max(0, progress))`
unfoldable pub clamp : ℤ → ℕ
clamp (pos n) = min 100 n
clamp (negsuc n) = 0

abbrev pub advance : ℤ → String → Task → Task
advance progress status_text t = record t {
  progress = clamp progress;
  status_text = if status_text == "" then t.status_text else status_text;
}

unfoldable pub update_progress : String → ℤ → String → TaskEngine → TaskEngine
update_progress task_id progress status_text e = elim (lookup task_id e.tasks) [
  | none ↦ e
  | some t ↦
      post task_id (progress_event (clamp progress) (advance progress status_text t).status_text)
        (set_task task_id (advance progress status_text) e)
]

abbrev pub wait_for_answer : Question → Task → Task
wait_for_answer q t = record t { status = waiting; pending_question = some q }

abbrev pub resume : Task → Task
resume t = record t { status = running; pending_question = none }

-- `ask_question` up to the wait
unfoldable pub ask_question : String → Question → TaskEngine → Result TaskEngine
ask_question task_id q e = elim (lookup task_id e.tasks) [
  | none ↦ err (value_error "Task not found")
  | some t ↦ ok (
      notify task_id (question_event q) (record (set_task task_id (wait_for_answer q) e) {
        answer_futures = insert task_id none e.answer_futures;
      }))
]

-- `ask_question` after the wait: the answer, or the empty text where none came in time. An
-- interruption goes the same way, and gives no answer.
unfoldable pub end_wait : String → TaskEngine → String × TaskEngine
end_wait task_id e = (
  elim (lookup task_id e.answer_futures) [
    | none ↦ ""
    | some none ↦ ""
    | some (some answer) ↦ answer
  ],
  record (set_task task_id resume e) { answer_futures = remove task_id e.answer_futures },
)

unfoldable pub submit_answer : String → String → TaskEngine → Bool × TaskEngine
submit_answer task_id answer e = elim (lookup task_id e.answer_futures) [
  | none ↦ (false, e)
  | some (some given) ↦ (false, e)
  | some none ↦
      (true, record e { answer_futures = alter task_id (λ f. some answer) e.answer_futures })
]

-- `key` is the new queue's.
unfoldable pub subscribe : String → ℕ → TaskEngine → TaskEngine
subscribe task_id key e =
    let queues : List Queue = elim (lookup task_id e.subscribers) [ none ↦ [] | some qs ↦ qs ] in
    record e {
      subscribers = insert task_id (queues ++ record { key = key; events = [] } ∷ []) e.subscribers;
    }

unfoldable pub unsubscribe : String → ℕ → TaskEngine → TaskEngine
unsubscribe task_id key e = record e {
  subscribers = alter task_id (filter (λ q. not (eqb q.key key))) e.subscribers;
}
