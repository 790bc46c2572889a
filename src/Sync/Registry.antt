-- ===== src/Sync/Registry.antt =====
-- The peers' registry: the peer and subscription operations of `SyncService` in
-- scottycore/services/sync/service.py and the rows that they write. The database enforces foreign
-- keys or, as SQLite does by default, does not.
pub mod Rotation
pub mod Active
pub mod Probe
use fastapi_modular_template.Base.{
  ℕ, String, Bool, not, Option, none, some, List, [], ◌∷◌, ◌++◌, map, ◌==◌, if◌then◌else◌, is_some,
  filter, any, truthy, Result, not_found_error, conflict_error, ok, err,
}
use mathlib.Core.Option
use fastapi_modular_template.Users.Service.{or_keep}
use fastapi_modular_template.Sync.Lww.{Datetime}
use fastapi_modular_template.Sync.Peers.{Peer, Subscription, get_peer, update_peers}
use fastapi_modular_template.Sync.Keys.{
  PeerApiKey, create_peer_api_key, deactivate_peer_keys, Vault, encrypt_their_key,
}

pub record Registry : Type 0 where
  pub peers : List Peer
  pub api_keys : List PeerApiKey
  pub tenant_subs : List Subscription

pub record PeerCreate : Type 0 where
  pub name : String
  pub base_url : String
  pub their_key_for_us : Option String
  pub sync_mode : String
  pub auto_include_new_tenants : Bool
  pub enabled : Bool

pub record PeerUpdate : Type 0 where
  pub name : Option String
  pub base_url : Option String
  pub their_key_for_us : Option String
  pub sync_mode : Option String
  pub auto_include_new_tenants : Option Bool
  pub enabled : Option Bool

-- `id` is the new row's, and `new_key` what `generate_peer_key` returns.
unfoldable pub new_peer : Vault → String → String → String × String × String → PeerCreate → Peer
new_peer vault nonce id new_key fields = record {
  id = id;
  peer_node_id = none;
  name = fields.name;
  base_url = fields.base_url;
  their_key_for_us = Option.map (encrypt_their_key vault nonce) (truthy fields.their_key_for_us);
  our_key_for_them_hash = some new_key.1;
  our_key_for_them_prefix = some new_key.2;
  enabled = fields.enabled;
  sync_mode = fields.sync_mode;
  auto_include_new_tenants = fields.auto_include_new_tenants;
  last_pulled_ts = none;
  last_pushed_ts = none;
  last_error = none;
  last_error_ts = none;
  backoff_seconds = 0;
}

-- The new peer, and the only showing of its key
unfoldable pub create_peer :
    Vault
    → String
    → String
    → String × String × String
    → PeerCreate
    → Registry
    → (Peer × String) × Registry
create_peer vault nonce id new_key fields r =
    let peer = new_peer vault nonce id new_key fields in
    (
      (peer, new_key.0),
      record r {
        peers = r.peers ++ peer ∷ [];
        api_keys = create_peer_api_key id new_key.1 new_key.2 r.api_keys;
      },
    )

-- A text that is empty is stored as it is.
unfoldable pub stored_key : Vault → String → String → String
stored_key vault nonce plaintext =
    if plaintext == "" then plaintext else encrypt_their_key vault nonce plaintext

abbrev pub or_keep_key : Vault → String → Option String → Option String → Option String
or_keep_key vault nonce none old = old
or_keep_key vault nonce (some plaintext) old = some (stored_key vault nonce plaintext)

abbrev pub apply_update : Vault → String → PeerUpdate → Peer → Peer
apply_update vault nonce fields p = record p {
  name = or_keep fields.name p.name;
  base_url = or_keep fields.base_url p.base_url;
  their_key_for_us = or_keep_key vault nonce fields.their_key_for_us p.their_key_for_us;
  sync_mode = or_keep fields.sync_mode p.sync_mode;
  auto_include_new_tenants = or_keep fields.auto_include_new_tenants p.auto_include_new_tenants;
  enabled = or_keep fields.enabled p.enabled;
}

unfoldable pub update_peer :
    Vault → String → String → PeerUpdate → Registry → Result Peer × Registry
update_peer vault nonce peer_id fields r = elim (get_peer peer_id r.peers) [
  | none ↦ (err (not_found_error "SyncPeer"), r)
  | some p ↦ (
    ok (apply_update vault nonce fields p),
    record r { peers = update_peers peer_id (apply_update vault nonce fields) r.peers },
  )
]

abbrev pub without_peer : String → List Peer → List Peer
without_peer id peers = filter (λ p. not (p.id == id)) peers

-- `DELETE`, and the rows that refer to the peer where the database cascades
unfoldable pub delete_peer : Bool → String → Registry → Result (Unit {0}) × Registry
delete_peer cascades peer_id r = elim (get_peer peer_id r.peers) [
  | none ↦ (err (not_found_error "SyncPeer"), r)
  | some p ↦ (
    ok tt,
    record {
      peers = without_peer peer_id r.peers;
      api_keys =
          if cascades then filter (λ k. not (k.peer_id == peer_id)) r.api_keys else r.api_keys;
      tenant_subs =
          if cascades
          then filter (λ s. not (s.peer_id == peer_id)) r.tenant_subs
          else r.tenant_subs;
    },
  )
]

abbrev pub with_key : String → String → Peer → Peer
with_key key_hash key_prefix p = record p {
  our_key_for_them_hash = some key_hash;
  our_key_for_them_prefix = some key_prefix;
}

unfoldable pub rotate_peer_key :
    String × String × String → Datetime → String → Registry → Result String × Registry
rotate_peer_key new_key now peer_id r = elim (get_peer peer_id r.peers) [
  | none ↦ (err (not_found_error "SyncPeer"), r)
  | some p ↦ (
    ok new_key.0,
    record r {
      peers = update_peers peer_id (with_key new_key.1 new_key.2) r.peers;
      api_keys =
          create_peer_api_key peer_id new_key.1 new_key.2
            (deactivate_peer_keys peer_id now r.api_keys);
    },
  )
]

-- `call_peer_info` asks the node of that address, with that bearer, for its identifier.
unfoldable pub probe_peer :
    (String → String → Result String) → String → Registry → Result String × Registry
probe_peer call_peer_info peer_id r = elim (get_peer peer_id r.peers) [
  | none ↦ (err (not_found_error "SyncPeer"), r)
  | some p ↦ elim (truthy p.their_key_for_us) [
    | none ↦ (err (conflict_error "Cannot probe peer"), r)
    | some key ↦ elim (call_peer_info p.base_url key) [
      | err e ↦ (err e, r)
      | ok node_id ↦ (
        ok node_id,
        record r {
          peers = update_peers peer_id (λ p. record p { peer_node_id = some node_id }) r.peers;
        },
      )
    ]
  ]
]

-- `id` is the new row's, whose peer is there.
unfoldable pub create_tenant_sub :
    String → String → String → String → Registry → Subscription × Registry
create_tenant_sub id peer_id tenant_id direction r =
    let sub : Subscription = record {
      id = id;
      peer_id = peer_id;
      tenant_id = tenant_id;
      direction = direction;
    } in
    (sub, record r { tenant_subs = r.tenant_subs ++ sub ∷ [] })

unfoldable pub delete_tenant_sub : String → Registry → Result (Unit {0}) × Registry
delete_tenant_sub sub_id r =
    if any (λ s. s.id == sub_id) r.tenant_subs
    then (ok tt, record r { tenant_subs = filter (λ s. not (s.id == sub_id)) r.tenant_subs })
    else (err (not_found_error "SyncTenantSubscription"), r)

-- What the administrator is shown of a peer
pub record PeerRead : Type 0 where
  pub id : String
  pub peer_node_id : Option String
  pub name : String
  pub base_url : String
  pub has_their_key : Bool
  pub our_key_for_them_prefix : Option String
  pub enabled : Bool
  pub sync_mode : String
  pub auto_include_new_tenants : Bool
  pub last_pulled_ts : Option Datetime
  pub last_pushed_ts : Option Datetime
  pub last_error : Option String
  pub last_error_ts : Option Datetime
  pub backoff_seconds : ℕ

unfoldable pub peer_to_read : Peer → PeerRead
peer_to_read p = record {
  id = p.id;
  peer_node_id = p.peer_node_id;
  name = p.name;
  base_url = p.base_url;
  has_their_key = is_some (truthy p.their_key_for_us);
  our_key_for_them_prefix = p.our_key_for_them_prefix;
  enabled = p.enabled;
  sync_mode = p.sync_mode;
  auto_include_new_tenants = p.auto_include_new_tenants;
  last_pulled_ts = p.last_pulled_ts;
  last_pushed_ts = p.last_pushed_ts;
  last_error = p.last_error;
  last_error_ts = p.last_error_ts;
  backoff_seconds = p.backoff_seconds;
}

unfoldable pub list_peers : Registry → List PeerRead
list_peers r = map peer_to_read r.peers
