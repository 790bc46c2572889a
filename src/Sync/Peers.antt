-- ===== src/Sync/Peers.antt =====
-- The peers of a node: `SyncPeer` of scottycore/services/sync/models.py, its updates in
-- scottycore/services/sync/repository.py, and `_handle_error` and `_build_scope` of scottycore/services/sync/engine.py.
pub mod Backoff
use fastapi_modular_template.Base.{
  ℕ, ◌*◌, min, max, String, Bool, ◌||◌, Option, none, some, List, [], ◌∷◌, map, ◌==◌, if◌then◌else◌,
  filter,
}
use fastapi_modular_template.Sync.Lww.{Datetime}

pub record Peer : Type 0 where
  pub id : String
  pub peer_node_id : Option String
  pub name : String
  pub base_url : String
  pub their_key_for_us : Option String
  pub our_key_for_them_hash : Option String
  pub our_key_for_them_prefix : Option String
  pub enabled : Bool
  pub sync_mode : String
  pub auto_include_new_tenants : Bool
  pub last_pulled_ts : Option Datetime
  pub last_pushed_ts : Option Datetime
  pub last_error : Option String
  pub last_error_ts : Option Datetime
  pub backoff_seconds : ℕ

pub record Subscription : Type 0 where
  pub id : String
  pub peer_id : String
  pub tenant_id : String
  pub direction : String

unfoldable pub get_peer : String → List Peer → Option Peer
get_peer id [] = none
get_peer id (p ∷ ps) = if p.id == id then some p else get_peer id ps

-- `UPDATE sync_peer SET … WHERE id = peer_id`
unfoldable pub update_peers : String → (Peer → Peer) → List Peer → List Peer
update_peers id f [] = []
update_peers id f (p ∷ ps) = (if p.id == id then f p else p) ∷ update_peers id f ps

abbrev pub pulled : Datetime → Peer → Peer
pulled ts p = record p {
  last_pulled_ts = some ts;
  last_error = none;
  last_error_ts = none;
  backoff_seconds = 0;
}

abbrev pub pushed : Datetime → Peer → Peer
pushed ts p = record p {
  last_pushed_ts = some ts;
  last_error = none;
  last_error_ts = none;
  backoff_seconds = 0;
}

abbrev pub failed : String → Datetime → ℕ → Peer → Peer
failed error now backoff p = record p {
  last_error = some error;
  last_error_ts = some now;
  backoff_seconds = backoff;
}

unfoldable pub record_pull_success : String → Datetime → List Peer → List Peer
record_pull_success peer_id ts = update_peers peer_id (pulled ts)

unfoldable pub record_push_success : String → Datetime → List Peer → List Peer
record_push_success peer_id ts = update_peers peer_id (pushed ts)

unfoldable pub record_peer_error : String → String → Datetime → ℕ → List Peer → List Peer
record_peer_error peer_id error now backoff = update_peers peer_id (failed error now backoff)

abbrev pub default_interval_s : ℕ
default_interval_s = 30

abbrev pub max_backoff_s : ℕ
max_backoff_s = 3600

abbrev pub backoff_multiplier : ℕ
backoff_multiplier = 2

unfoldable pub next_backoff : ℕ → ℕ
next_backoff current = min (max (current * backoff_multiplier) default_interval_s) max_backoff_s

-- Records the error and returns the seconds to sleep.
unfoldable pub handle_error : String → String → Datetime → List Peer → ℕ × List Peer
handle_error peer_id error now peers = elim (get_peer peer_id peers) [
  | none ↦ (max_backoff_s, peers)
  | some peer ↦ (
    next_backoff peer.backoff_seconds,
    record_peer_error peer_id error now (next_backoff peer.backoff_seconds) peers,
  )
]

pub data Scope : Type 0 where
  everything : Scope
  tenants_only : Scope
  selected : List String → Scope

unfoldable pub list_tenant_subs : List Subscription → String → List Subscription
list_tenant_subs subs peer_id = filter (λ s. s.peer_id == peer_id) subs

unfoldable pub build_scope : List Subscription → Peer → Scope
build_scope subs peer =
    if peer.sync_mode == "full"
    then everything
    else if peer.sync_mode == "tenants_only"
    then tenants_only
    else selected (
        map (λ (s : Subscription). s.tenant_id)
          (filter (λ s. s.direction == "in" || s.direction == "both")
            (list_tenant_subs subs peer.id)))
