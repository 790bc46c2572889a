-- ===== src/Sync/Keys/Access.antt =====
-- Which bearers the synchronisation endpoints accept, and what the rotation of a key does to it.
use fastapi_modular_template.Base.{
  String, ◌≡◌, refl, inl, inr, Bool, true, not, ◌&&◌, ◌||◌, some, List, [], ◌∷◌, ◌++◌, arith, ◌==◌,
  eq_iff, Option-cases, first_chars, keys, ok,
}
use fastapi_modular_template.Sync.Lww.{Datetime}
use fastapi_modular_template.Sync.Peers.{Peer, get_peer}
use fastapi_modular_template.Sync.Keys.{
  PeerApiKey, key_prefix_len, get_active_key_by_prefix, deactivate_peer_keys, authenticate_peer,
}

-- A test that every key of the table passes
unfoldable pub all_keys : (PeerApiKey → Bool) → List PeerApiKey → Bool
all_keys P [] = true
all_keys P (k ∷ ks) = P k && all_keys P ks

pub found-passes :
    (P : PeerApiKey → Bool) (prefix : String) (keys : List PeerApiKey) (k : PeerApiKey)
    → all_keys P keys ≡ true
    → get_active_key_by_prefix prefix keys ≡ some k
    → (P k ≡ true) × (k.is_active ≡ true) × (k.key_prefix ≡ prefix)
unfolding all_keys get_active_key_by_prefix
found-passes P prefix [] k h found = ground arith
found-passes P prefix (x ∷ ks) k h found =
    ground (arith, found-passes P prefix ks k, eq_iff x.key_prefix prefix)

get_peer-id : (id : String) (ps : List Peer) (p : Peer) → get_peer id ps ≡ some p → p.id ≡ id
unfolding get_peer
get_peer-id id [] p h = ground arith
get_peer-id id (x ∷ ps) p h = ground (arith, get_peer-id id ps p, eq_iff x.id id)

-- A bearer is accepted only for an enabled peer, by an active key of that peer with the bearer's
-- prefix, against which the bearer is verified.
pub authenticate_peer_sound :
    (verify : String → String → Bool) (bearer : String) (keys : List PeerApiKey) (peers : List Peer)
    (p : Peer)
    → authenticate_peer verify bearer keys peers ≡ ok p
    → (k : PeerApiKey) × (get_active_key_by_prefix (first_chars key_prefix_len bearer) keys
        ≡ some k)
      × (verify bearer k.key_hash ≡ true)
      × (k.peer_id ≡ p.id)
      × (get_peer p.id peers ≡ some p)
      × (p.enabled ≡ true)
unfolding authenticate_peer
authenticate_peer_sound verify bearer keys peers p h =
    elim (Option-cases (get_active_key_by_prefix (first_chars key_prefix_len bearer) keys)) [
      | inl absent ↦ ground (arith, absent)
      | inr (k, found) ↦ elim (Option-cases (get_peer k.peer_id peers)) [
        | inl gone ↦ ground (arith, found, gone)
        | inr (q, held) ↦ (
          k,
          found,
          ground (arith, found, held, get_peer-id k.peer_id peers q held),
          ground (arith, found, held, get_peer-id k.peer_id peers q held),
          ground (arith, found, held, get_peer-id k.peer_id peers q held),
          ground (arith, found, held, get_peer-id k.peer_id peers q held),
        )
      ]
    ]

abbrev pub is_retired : String → String → PeerApiKey → Bool
is_retired peer_id new_hash k = not (k.peer_id == peer_id && k.is_active) || k.key_hash == new_hash

pub deactivated-retired :
    (peer_id new_hash : String) (now : Datetime) (keys : List PeerApiKey)
    → all_keys (is_retired peer_id new_hash) (deactivate_peer_keys peer_id now keys) ≡ true
unfolding all_keys deactivate_peer_keys
deactivated-retired peer_id new_hash now [] = refl
deactivated-retired peer_id new_hash now (k ∷ ks) =
    ground (arith, deactivated-retired peer_id new_hash now ks, eq_iff k.peer_id peer_id)

pub all_keys-append :
    (P : PeerApiKey → Bool) (keys : List PeerApiKey) (k : PeerApiKey)
    → all_keys P keys ≡ true
    → P k ≡ true
    → all_keys P (keys ++ k ∷ []) ≡ true
unfolding all_keys
all_keys-append P [] k h new = ground arith
all_keys-append P (x ∷ keys) k h new = ground (arith, all_keys-append P keys k)
