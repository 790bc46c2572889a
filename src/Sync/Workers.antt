-- ===== src/Sync/Workers.antt =====
-- The task of each peer: `start`, `stop`, `_start_peer_task`, `_stop_peer_task`, `kick`,
-- `on_peer_config_change` and `running_peer_ids` of scottycore/services/sync/engine.py.
pub mod Reconcile
use fastapi_modular_template.Base.{
  String, Bool, true, false, not, Option, none, some, List, [], ◌∷◌, map, ◌==◌, if◌then◌else◌,
  filter, any, Dict, lookup, insert, remove, keys,
}
use fastapi_modular_template.Sync.Peers.{Peer}

-- The asyncio task of a peer, and whether its `kick` event is set.
pub record Worker : Type 0 where
  pub is_done : Bool

pub record Engine : Type 0 where
  pub tasks : Dict Worker
  pub kick_events : Dict Bool
  pub running : Bool

-- `peer_id in self._tasks and not self._tasks[peer_id].done()`
abbrev pub is_alive : Option Worker → Bool
is_alive none = false
is_alive (some w) = not w.is_done

unfoldable pub start_peer_task : Engine → String → Engine
start_peer_task e peer_id = if is_alive (lookup peer_id e.tasks) then e else record e {
  tasks = insert peer_id (record { is_done = false }) e.tasks;
  kick_events = insert peer_id false e.kick_events;
}

unfoldable pub stop_peer_task : Engine → String → Engine
stop_peer_task e peer_id = record e {
  tasks = remove peer_id e.tasks;
  kick_events = remove peer_id e.kick_events;
}

unfoldable pub kick : Engine → String → Engine
kick e peer_id = elim (lookup peer_id e.kick_events) [
  | none ↦ e
  | some _ ↦ record e { kick_events = insert peer_id true e.kick_events }
]

-- `[p.id for p in list_enabled_peers()]`
unfoldable pub enabled_ids : List Peer → List String
enabled_ids peers = map (λ (p : Peer). p.id) (filter (λ p. p.enabled) peers)

unfoldable pub start_all : Engine → List String → Engine
start_all e [] = e
start_all e (id ∷ ids) = start_all (start_peer_task e id) ids

unfoldable pub stop_all : Engine → List String → Engine
stop_all e [] = e
stop_all e (id ∷ ids) = stop_all (stop_peer_task e id) ids

unfoldable pub start : Engine → List Peer → Engine
start e peers = start_all (record e { running = true }) (enabled_ids peers)

-- Every task is cancelled and awaited, and the table of tasks cleared.
unfoldable pub stop : Engine → Engine
stop e = record e { tasks = []; running = false }

-- `a - b` on sets of identifiers
abbrev pub minus : List String → List String → List String
minus a b = filter (λ x. not (any (λ y. y == x) b)) a

unfoldable pub on_peer_config_change : Engine → List Peer → Engine
on_peer_config_change e peers =
    let running_ids = keys e.tasks in
    let enabled = enabled_ids peers in
    stop_all (start_all e (minus enabled running_ids)) (minus running_ids enabled)

-- `running_peer_ids`
unfoldable pub running_peer_ids : Engine → List String
running_peer_ids e = map (λ (b : String × Worker). b.0) (filter (λ b. not b.1.is_done) e.tasks)
