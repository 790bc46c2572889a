-- ===== src/Sync/Registry/Active.antt =====
-- The documented rule of the key table: at most one active key for each peer.
use fastapi_modular_template.Base.{
  ℕ, ◌+◌, ◌≤◌, String, ◌≡◌, Bool, true, not, ◌&&◌, none, List, [], ◌∷◌, ◌++◌, arith, ◌==◌, eq_iff,
  eqb, if◌then◌else◌, filter, Result,
}
use fastapi_modular_template.Sync.Lww.{Datetime}
use fastapi_modular_template.Sync.Keys.{
  PeerApiKey, create_peer_api_key, deactivate_peer_keys, Vault,
}
use fastapi_modular_template.Sync.Registry.{
  Registry, PeerCreate, PeerUpdate, create_peer, update_peer, delete_peer, rotate_peer_key,
  probe_peer, create_tenant_sub, delete_tenant_sub,
}

-- How many active keys a peer has
unfoldable pub active_keys : String → List PeerApiKey → ℕ
active_keys id [] = 0
active_keys id (k ∷ ks) = (if k.peer_id == id && k.is_active then 1 else 0) + active_keys id ks

-- A change of the registry: the identifier of a new peer is not in use.
pub data Change : Type 0 where
  creating : Vault → String → String → String × String × String → PeerCreate → Change
  updating : Vault → String → String → PeerUpdate → Change
  deleting : Bool → String → Change
  rotating : String × String × String → Datetime → String → Change
  probing : (String → String → Result String) → String → Change
  subscribing : String → String → String → String → Change
  unsubscribing : String → Change

unfoldable pub apply : Change → Registry → Registry
apply (creating vault nonce id new_key fields) r = (create_peer vault nonce id new_key fields r).1
apply (updating vault nonce id fields) r = (update_peer vault nonce id fields r).1
apply (deleting cascades id) r = (delete_peer cascades id r).1
apply (rotating new_key now id) r = (rotate_peer_key new_key now id r).1
apply (probing call id) r = (probe_peer call id r).1
apply (subscribing id peer_id tenant_id direction) r =
    (create_tenant_sub id peer_id tenant_id direction r).1
apply (unsubscribing id) r = (delete_tenant_sub id r).1

-- The identifier that a new peer draws is no other row's.
abbrev pub is_fresh : Change → Registry → Bool
is_fresh (creating vault nonce id new_key fields) r = eqb (active_keys id r.api_keys) 0
is_fresh _ r = true

active-append :
    (id : String) (ks : List PeerApiKey) (k : PeerApiKey)
    → active_keys id (ks ++ k ∷ [])
      ≡ active_keys id ks + (if k.peer_id == id && k.is_active then 1 else 0)
unfolding active_keys
active-append id [] k = omega arith
active-append id (x ∷ ks) k = omega (arith, active-append id ks k)

active-deactivate :
    (id peer_id : String) (now : Datetime) (ks : List PeerApiKey)
    → active_keys id (deactivate_peer_keys peer_id now ks)
      ≡ (if peer_id == id then 0 else active_keys id ks)
unfolding active_keys deactivate_peer_keys
active-deactivate id peer_id now [] = ground arith
active-deactivate id peer_id now (k ∷ ks) = ground (
  arith,
  active-deactivate id peer_id now ks,
  eq_iff k.peer_id id,
  eq_iff k.peer_id peer_id,
  eq_iff peer_id id,
)

active-filter :
    (id : String) (p : PeerApiKey → Bool) (ks : List PeerApiKey)
    → active_keys id (filter p ks) ≤ active_keys id ks
unfolding active_keys
active-filter id p [] = omega arith
active-filter id p (k ∷ ks) = ground (arith, active-filter id p ks)

-- A change of the peers' registry leaves every peer with at most one active key, where each had at
-- most one before and a new peer's identifier has none.
pub apply-one_active :
    (c : Change) (r : Registry)
    → is_fresh c r ≡ true
    → ((id : String) → active_keys id r.api_keys ≤ 1)
    → (id : String) → active_keys id (apply c r).api_keys ≤ 1
unfolding apply create_peer update_peer delete_peer rotate_peer_key probe_peer create_tenant_sub
    delete_tenant_sub create_peer_api_key
apply-one_active (creating vault nonce id new_key fields) r fresh h other = ground (
  arith,
  h other,
  eq_iff id other,
  active-append other r.api_keys (record {
    peer_id = id;
    key_hash = new_key.1;
    key_prefix = new_key.2;
    is_active = true;
    rotated_at = none;
  }),
)
apply-one_active (updating vault nonce id fields) r fresh h other = ground (arith, h other)
apply-one_active (deleting cascades id) r fresh h other =
    ground (arith, h other, active-filter other (λ k. not (k.peer_id == id)) r.api_keys)
apply-one_active (rotating new_key now id) r fresh h other = ground (
  arith,
  h other,
  active-append other (deactivate_peer_keys id now r.api_keys) (record {
    peer_id = id;
    key_hash = new_key.1;
    key_prefix = new_key.2;
    is_active = true;
    rotated_at = none;
  }),
  active-deactivate other id now r.api_keys,
)
apply-one_active (probing call id) r fresh h other = ground (arith, h other)
apply-one_active (subscribing id peer_id tenant_id direction) r fresh h other = h other
apply-one_active (unsubscribing id) r fresh h other = ground (arith, h other)
