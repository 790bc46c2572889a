-- ===== src/Tasks/Cleanup.antt =====
-- What `cleanup_old` removes, and the counts of `get_summary`.
use fastapi_modular_template.Base.{
  ℕ, zero, suc, ◌-◌, ◌≤◌, String, ◌≡◌, refl, sym, ap, ◌∙◌, ◌≢◌, inl, inr, Bool, true, false, not,
  Option, some, List, [], ◌∷◌, map, arith, eq_iff, eq_refl, Bool-cases, length, filter, All, elem,
  every, Dict, lookup, remove, lookup-remove,
}
use fastapi_modular_template.Tasks.Life.{forget-Coherent, Coherent, coherent}
use fastapi_modular_template.Tasks.Life.{coherent, Coherent, forget-Coherent}
use fastapi_modular_template.Tasks.{Task, Phase, ended, TaskEngine}
use fastapi_modular_template.Tasks.Listing.{
  is_terminal, no_later, insert_latest, latest_first, values, drop, terminal_tasks, forget,
  cleanup_old, pop_task,
}

-- Any predicate on the tasks goes through the ordering and the slice.
module _ (P : Task → Type 0) where
  insert_latest-All : (t : Task) (us : List Task) → P t → All P us → All P (insert_latest t us)
  unfolding insert_latest
  insert_latest-All t [] p h = (p, tt)
  insert_latest-All t (u ∷ us) p h = elim (Bool-cases (no_later u.completed_at t.completed_at)) [
    | inl first ↦ rw first (p, h)
    | inr later ↦ rw later (h.0, insert_latest-All t us p h.1)
  ]

  latest_first-All : (ts : List Task) → All P ts → All P (latest_first ts)
  unfolding latest_first
  latest_first-All [] h = h
  latest_first-All (t ∷ ts) h = insert_latest-All t (latest_first ts) h.0 (latest_first-All ts h.1)

  drop-All : (n : ℕ) (ts : List Task) → All P ts → All P (drop n ts)
  unfolding drop
  drop-All zero ts h = h
  drop-All (suc n) [] h = h
  drop-All (suc n) (t ∷ ts) h = drop-All n ts h.1

abbrev pub HasEnded : Dict Phase → Task → Type 0
HasEnded phases t = lookup t.id phases ≡ some ended

finished-HasEnded :
    (phases : Dict Phase) (futures : Dict (Option String)) (tasks : Dict Task)
    → every (coherent phases futures) tasks ≡ true
    → All (HasEnded phases) (filter (λ t. is_terminal t.status) (values tasks))
unfolding every coherent values
finished-HasEnded phases futures [] h = tt
finished-HasEnded phases futures ((k, t) ∷ tasks) h = elim (Bool-cases (is_terminal t.status)) [
  | inl over ↦
      rw over (ground (arith, eq_iff t.id k), finished-HasEnded phases futures tasks (ground arith))
  | inr going ↦ rw going (finished-HasEnded phases futures tasks (ground arith))
]

terminal_tasks-HasEnded :
    (n : ℕ) (e : TaskEngine) → Coherent e → All (HasEnded e.running) (drop n (terminal_tasks e))
unfolding terminal_tasks Coherent
terminal_tasks-HasEnded n e h =
    drop-All _ n _ (latest_first-All _ _ (finished-HasEnded e.running e.answer_futures e.tasks h))

-- What `forget` leaves of a task that has not ended
forget-going :
    (ts : List Task) (phases : Dict Phase) (e : TaskEngine) (id : String)
    → All (HasEnded phases) ts
    → lookup id phases ≢ some ended
    → (lookup id (forget ts e).tasks ≡ lookup id e.tasks)
      × (lookup id (forget ts e).running ≡ lookup id e.running)
      × (lookup id (forget ts e).subscribers ≡ lookup id e.subscribers)
unfolding forget
forget-going [] phases e id h going = (refl, refl, refl)
forget-going (t ∷ ts) phases e id h going = ground (
  arith,
  h.0,
  forget-going ts phases (pop_task t.id e) id h.1 going,
  eq_iff t.id id,
  lookup-remove t.id id e.tasks,
  lookup-remove t.id id e.running,
  lookup-remove t.id id e.subscribers,
)

-- Trimming leaves every task that has not ended, its asyncio task and its subscribers as they were.
pub cleanup_old-going :
    (n : ℕ) (e : TaskEngine) (id : String)
    → Coherent e
    → lookup id e.running ≢ some ended
    → (lookup id (cleanup_old n e).1.tasks ≡ lookup id e.tasks)
      × (lookup id (cleanup_old n e).1.running ≡ lookup id e.running)
      × (lookup id (cleanup_old n e).1.subscribers ≡ lookup id e.subscribers)
unfolding cleanup_old
cleanup_old-going n e id h going =
    forget-going _ e.running e id (terminal_tasks-HasEnded n e h) going

-- How many tasks have ended
abbrev pub finished_count : TaskEngine → ℕ
finished_count e = length (filter (λ t. is_terminal t.status) (values e.tasks))

abbrev pub task_ids : List Task → List String
task_ids ts = map (λ t. t.id) ts

abbrev spared : List String → Task → Bool
spared gone t = not (elem t.id gone)

remove-spared :
    (id : String) (gone : List String) (phases : Dict Phase) (futures : Dict (Option String))
    (tasks : Dict Task)
    → every (coherent phases futures) tasks ≡ true
    → length (filter (spared gone) (filter (λ t. is_terminal t.status) (values (remove id tasks))))
      ≡ length (filter (spared (id ∷ gone)) (filter (λ t. is_terminal t.status) (values tasks)))
unfolding every coherent values remove
remove-spared id gone phases futures [] h = refl
remove-spared id gone phases futures ((k, t) ∷ tasks) h =
    ground (
      arith,
      remove-spared id gone phases futures tasks,
      eq_iff k id,
      eq_iff t.id k,
      eq_iff id t.id,
    )

filter-all : (ts : List Task) → filter (spared []) ts ≡ ts
filter-all [] = refl
filter-all (t ∷ ts) = ap (t ∷◌) (filter-all ts)

forget-spared :
    (ts : List Task) (e : TaskEngine)
    → Coherent e
    → finished_count (forget ts e)
      ≡ length (filter (spared (task_ids ts)) (filter (λ t. is_terminal t.status) (values e.tasks)))
unfolding forget Coherent
forget-spared [] e h = sym (ap length (filter-all _))
forget-spared (t ∷ ts) e h =
    forget-spared ts _ (forget-Coherent (t ∷ []) e h)
    ∙ remove-spared t.id (task_ids ts) e.running e.answer_futures e.tasks h

insert_latest-filter :
    (p : Task → Bool) (t : Task) (us : List Task)
    → length (filter p (insert_latest t us)) ≡ length (filter p (t ∷ us))
unfolding insert_latest
insert_latest-filter p t [] = refl
insert_latest-filter p t (u ∷ us) = ground (arith, insert_latest-filter p t us)

latest_first-filter :
    (p : Task → Bool) (ts : List Task) → length (filter p (latest_first ts)) ≡ length (filter p ts)
unfolding latest_first
latest_first-filter p [] = refl
latest_first-filter p (t ∷ ts) =
    ground (arith, insert_latest-filter p t (latest_first ts), latest_first-filter p ts)

length-drop : (n : ℕ) (ts : List Task) → length (drop n ts) ≡ length ts - n
unfolding drop
length-drop zero ts = omega arith
length-drop (suc n) [] = omega arith
length-drop (suc n) (t ∷ ts) = omega (arith, length-drop n ts)

filter-none :
    (p : Task → Bool) (ts : List Task) → All (λ t. p t ≡ false) ts → length (filter p ts) ≡ 0
filter-none p [] h = refl
filter-none p (t ∷ ts) h = ground (arith, h.0, filter-none p ts h.1)

filter-bound :
    (p : Task → Bool) (n : ℕ) (ts : List Task)
    → All (λ t. p t ≡ false) (drop n ts)
    → length (filter p ts) ≤ n
unfolding drop
filter-bound p zero ts h = omega (arith, filter-none p ts h)
filter-bound p (suc n) [] h = omega arith
filter-bound p (suc n) (t ∷ ts) h = ground (arith, filter-bound p n ts h)

gone-All :
    (ts : List Task) (gone : List String)
    → ((s : String) → elem s (task_ids ts) ≡ true → elem s gone ≡ true)
    → All (λ t. spared gone t ≡ false) ts
gone-All [] gone h = tt
gone-All (t ∷ ts) gone h =
    (ground (arith, h t.id, eq_refl t.id), gone-All ts gone (λ s m. ground (arith, h s)))

length-insert_latest : (t : Task) (us : List Task) → length (insert_latest t us) ≡ suc (length us)
unfolding insert_latest
length-insert_latest t [] = refl
length-insert_latest t (u ∷ us) = ground (arith, length-insert_latest t us)

length-latest_first : (ts : List Task) → length (latest_first ts) ≡ length ts
unfolding latest_first
length-latest_first [] = refl
length-latest_first (t ∷ ts) =
    omega (arith, length-insert_latest t (latest_first ts), length-latest_first ts)

-- From coherent records, trimming to a number leaves at most that many finished tasks, and answers
-- the number of finished tasks above it.
pub cleanup_old-bound :
    (n : ℕ) (e : TaskEngine)
    → Coherent e
    → (finished_count (cleanup_old n e).1 ≤ n) × ((cleanup_old n e).0 ≡ finished_count e - n)
unfolding cleanup_old terminal_tasks
cleanup_old-bound n e h =
    let over = filter (λ t. is_terminal t.status) (values e.tasks) in
    let gone = drop n (latest_first over) in
    (
      omega (
        arith,
        forget-spared gone e h,
        latest_first-filter (spared (task_ids gone)) over,
        filter-bound (spared (task_ids gone)) n (latest_first over)
            (gone-All gone (task_ids gone) (λ s m. m)),
      ),
      omega (arith, length-drop n (latest_first over), length-latest_first over),
    )
