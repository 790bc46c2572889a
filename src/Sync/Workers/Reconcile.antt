-- ===== src/Sync/Workers/Reconcile.antt =====
-- The tasks of the engine follow the enabled peers.
use fastapi_modular_template.Base.{
  String, ◌≡◌, Bool, false, not, ◌&&◌, ◌||◌, List, [], ◌∷◌, arith, eq_iff, is_some, elem,
  elem-filter, lookup, lookup-insert, lookup-remove, elem-keys,
}
use fastapi_modular_template.Sync.Peers.{Peer}
use fastapi_modular_template.Sync.Workers.{
  Engine, start_peer_task, stop_peer_task, start_all, stop_all, enabled_ids, keys, minus,
  on_peer_config_change,
}

abbrev pub has_task : Engine → String → Bool
has_task e id = is_some (lookup id e.tasks)

task-start_all :
    (e : Engine) (ids : List String) (id : String)
    → has_task (start_all e ids) id ≡ (has_task e id || elem id ids)
unfolding start_all start_peer_task
task-start_all e [] id = ground arith
task-start_all e (x ∷ xs) id = ground (
  arith,
  task-start_all (start_peer_task e x) xs id,
  lookup-insert x id (record { is_done = false }) e.tasks,
  eq_iff x id,
)

task-stop_all :
    (e : Engine) (ids : List String) (id : String)
    → has_task (stop_all e ids) id ≡ (has_task e id && not (elem id ids))
unfolding stop_all stop_peer_task
task-stop_all e [] id = ground arith
task-stop_all e (x ∷ xs) id =
    ground
      (arith, task-stop_all (stop_peer_task e x) xs id, lookup-remove x id e.tasks, eq_iff x id)

-- After a change of the peers' configuration a peer has a task exactly if it is an enabled peer.
on_peer_config_change-tasks :
    (e : Engine) (peers : List Peer) (id : String)
    → has_task (on_peer_config_change e peers) id ≡ elem id (enabled_ids peers)
unfolding on_peer_config_change
on_peer_config_change-tasks e peers id =
    let running_ids = keys e.tasks in
    let enabled = enabled_ids peers in
    let started = start_all e (minus enabled running_ids) in
    ground (
      arith,
      task-stop_all started (minus running_ids enabled) id,
      task-start_all e (minus enabled running_ids) id,
      elem-filter (λ x. not (elem x running_ids)) enabled id,
      elem-filter (λ x. not (elem x enabled)) running_ids id,
      elem-keys e.tasks id,
    )
