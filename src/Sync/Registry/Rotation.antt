-- ===== src/Sync/Registry/Rotation.antt =====
-- A peer's key is accepted from its issue to its rotation or the peer's removal, and no longer.
use fastapi_modular_template.Base.{
  ◌≤◌, String, ◌≡◌, refl, ap, ◌≢◌, inl, inr, Bool, true, false, none, some, List, [], ◌∷◌, ◌++◌,
  arith, ◌==◌, eq_iff, eq_refl, Bool-cases, first_chars, count-first_chars, ok,
}
use fastapi_modular_template.Sync.Keys.Access.{
  authenticate_peer_sound, deactivated-retired, all_keys-append, found-passes, is_retired,
}
use fastapi_modular_template.Sync.Registry.{
  new_peer, delete_peer, rotate_peer_key, create_peer, Registry, PeerCreate, without_peer, with_key,
}
use Prim.Native.String
use fastapi_modular_template.Sync.Lww.{Datetime}
use fastapi_modular_template.Sync.Peers.Backoff.{get_peer-update_peers}
use fastapi_modular_template.Sync.Peers.{Peer, get_peer, update_peers}
use fastapi_modular_template.Sync.Keys.{
  PeerApiKey, key_prefix_len, get_active_key_by_prefix, create_peer_api_key, deactivate_peer_keys,
  authenticate_peer, key_total_len, generate_peer_key, Vault,
}

pub get_peer-last :
    (p : Peer) (ps : List Peer) → get_peer p.id ps ≡ none → get_peer p.id (ps ++ p ∷ []) ≡ some p
unfolding get_peer
get_peer-last p [] h = ground (arith, eq_refl p.id)
get_peer-last p (x ∷ ps) h = ground (arith, get_peer-last p ps)

active-last :
    (k : PeerApiKey) (ks : List PeerApiKey)
    → k.is_active ≡ true
    → get_active_key_by_prefix k.key_prefix ks ≡ none
    → get_active_key_by_prefix k.key_prefix (ks ++ k ∷ []) ≡ some k
unfolding get_active_key_by_prefix
active-last k [] on h = ground (arith, eq_refl k.key_prefix)
active-last k (x ∷ ks) on h = ground (arith, active-last k ks on)

active-deactivated :
    (prefix peer_id : String) (now : Datetime) (ks : List PeerApiKey)
    → get_active_key_by_prefix prefix ks ≡ none
    → get_active_key_by_prefix prefix (deactivate_peer_keys peer_id now ks) ≡ none
unfolding get_active_key_by_prefix deactivate_peer_keys
active-deactivated prefix peer_id now [] h = refl
active-deactivated prefix peer_id now (x ∷ ks) h =
    ground (arith, active-deactivated prefix peer_id now ks)

nonempty : (s : String) → key_prefix_len ≤ String.count s → (s == "") ≡ false
nonempty s long = elim (Bool-cases (s == "")) [
  | inl empty ↦ absurd (omega (arith, ap String.count ((eq_iff s "").0 empty)))
  | inr filled ↦ filled
]

-- An enabled peer is resolved from a key of at least eight characters that is verified against the
-- last row of its prefix.
authenticate_peer-last :
    (verify : String → String → Bool) (bearer hashed id : String) (ks : List PeerApiKey)
    (peers : List Peer) (p : Peer)
    → key_prefix_len ≤ String.count bearer
    → get_active_key_by_prefix (first_chars key_prefix_len bearer) ks ≡ none
    → verify bearer hashed ≡ true
    → get_peer id peers ≡ some p
    → p.enabled ≡ true
    → authenticate_peer verify bearer
        (create_peer_api_key id hashed (first_chars key_prefix_len bearer) ks)
        peers
      ≡ ok p
unfolding authenticate_peer create_peer_api_key
authenticate_peer-last verify bearer hashed id ks peers p long unused good found on = ground (
  arith,
  nonempty bearer long,
  active-last
      (record {
        peer_id = id;
        key_hash = hashed;
        key_prefix = first_chars key_prefix_len bearer;
        is_active = true;
        rotated_at = none;
      })
      ks refl unused,
)

-- An enabled peer that was created is resolved from the key that its creation showed, if the key
-- is verified against its hash, is of forty characters, no active key had its prefix and the
-- identifier is new.
pub created_key_works :
    (vault : Vault) (nonce id random : String) (hash : String → String)
    (verify : String → String → Bool) (fields : PeerCreate) (r : Registry)
    → key_total_len ≤ String.count random
    → verify (generate_peer_key hash random).0 (generate_peer_key hash random).1 ≡ true
    → get_active_key_by_prefix (generate_peer_key hash random).2 r.api_keys ≡ none
    → get_peer id r.peers ≡ none
    → fields.enabled ≡ true
    → authenticate_peer verify
        (create_peer vault nonce id (generate_peer_key hash random) fields r).0.1
        (create_peer vault nonce id (generate_peer_key hash random) fields r).1.api_keys
        (create_peer vault nonce id (generate_peer_key hash random) fields r).1.peers
      ≡ ok (create_peer vault nonce id (generate_peer_key hash random) fields r).0.0
unfolding create_peer generate_peer_key new_peer
created_key_works vault nonce id random hash verify fields r long good unused fresh on =
    authenticate_peer-last verify (first_chars key_total_len random)
      (hash (first_chars key_total_len random)) id r.api_keys _ _
      (omega (arith, count-first_chars key_total_len random long)) unused good
      (get_peer-last (new_peer vault nonce id (generate_peer_key hash random) fields) r.peers fresh)
      on

rotated-verified :
    (verify : String → String → Bool) (bearer new_hash prefix id : String) (now : Datetime)
    (ks : List PeerApiKey) (peers : List Peer) (p : Peer)
    → authenticate_peer verify bearer
        (create_peer_api_key id new_hash prefix (deactivate_peer_keys id now ks))
        peers
      ≡ ok p
    → p.id ≡ id
    → verify bearer new_hash ≡ true
unfolding create_peer_api_key
rotated-verified verify bearer new_hash prefix id now ks peers p accepted same =
    let by = authenticate_peer_sound verify bearer _ peers p accepted in
    let passed =
      found-passes (is_retired id new_hash) _ _ by.0
        (all_keys-append (is_retired id new_hash) (deactivate_peer_keys id now ks) _
          (deactivated-retired id new_hash now ks) (ground (arith, eq_refl new_hash)))
        by.1 in
    ground (arith, by.2, by.3, same, passed, eq_iff by.0.peer_id id, eq_iff by.0.key_hash new_hash)

get_peer-without : (id : String) (ps : List Peer) → get_peer id (without_peer id ps) ≡ none
unfolding get_peer
get_peer-without id [] = refl
get_peer-without id (p ∷ ps) = ground (arith, get_peer-without id ps)

removed-refused :
    (verify : String → String → Bool) (bearer id : String) (ks : List PeerApiKey)
    (peers : List Peer) (p : Peer)
    → authenticate_peer verify bearer ks (without_peer id peers) ≡ ok p
    → p.id ≢ id
removed-refused verify bearer id ks peers p accepted same =
    let by = authenticate_peer_sound verify bearer ks _ p accepted in
    ground (arith, by.4, same, get_peer-without id peers)

-- After a rotation an enabled peer is resolved from the key that the rotation returned, if the key is
-- verified against its hash and no active key had its prefix.
rotated_key_works :
    (random : String) (hash : String → String) (verify : String → String → Bool) (now : Datetime)
    (r : Registry) (old : Peer)
    → key_total_len ≤ String.count random
    → verify (generate_peer_key hash random).0 (generate_peer_key hash random).1 ≡ true
    → get_active_key_by_prefix (generate_peer_key hash random).2 r.api_keys ≡ none
    → get_peer old.id r.peers ≡ some old
    → old.enabled ≡ true
    → authenticate_peer verify
        (generate_peer_key hash random).0
        (rotate_peer_key (generate_peer_key hash random) now old.id r).1.api_keys
        (rotate_peer_key (generate_peer_key hash random) now old.id r).1.peers
      ≡ ok (with_key (generate_peer_key hash random).1 (generate_peer_key hash random).2 old)
unfolding rotate_peer_key generate_peer_key
rotated_key_works random hash verify now r old long good unused found on = ground (
  arith,
  found,
  authenticate_peer-last verify (first_chars key_total_len random)
      (hash (first_chars key_total_len random)) old.id (deactivate_peer_keys old.id now r.api_keys)
      (update_peers old.id
        (with_key (generate_peer_key hash random).1 (generate_peer_key hash random).2) r.peers)
      (with_key (generate_peer_key hash random).1 (generate_peer_key hash random).2 old)
      (omega (arith, count-first_chars key_total_len random long))
      (active-deactivated (generate_peer_key hash random).2 old.id now r.api_keys unused) good
      (get_peer-update_peers old.id _ r.peers old (λ x. refl) found) on,
)

-- After the key of a peer that is there was rotated, a bearer is resolved to that peer only if it
-- is verified against the new key's hash.
pub rotate_peer_key-revokes :
    (verify : String → String → Bool) (bearer : String) (new_key : String × String × String)
    (now : Datetime) (r : Registry) (old p : Peer)
    → get_peer old.id r.peers ≡ some old
    → authenticate_peer verify bearer
        (rotate_peer_key new_key now old.id r).1.api_keys
        (rotate_peer_key new_key now old.id r).1.peers
      ≡ ok p
    → p.id ≡ old.id
    → verify bearer new_key.1 ≡ true
unfolding rotate_peer_key create_peer_api_key
rotate_peer_key-revokes verify bearer new_key now r old p found accepted same =
    rotated-verified verify bearer new_key.1 new_key.2 old.id now r.api_keys
      (update_peers old.id (with_key new_key.1 new_key.2) r.peers) p
      (ground (arith, found, accepted)) same

-- A bearer of a peer that was deleted is refused, whether the database cascades or not.
delete_peer-revokes :
    (verify : String → String → Bool) (bearer : String) (cascades : Bool) (r : Registry)
    (old p : Peer)
    → get_peer old.id r.peers ≡ some old
    → authenticate_peer verify bearer
        (delete_peer cascades old.id r).1.api_keys
        (delete_peer cascades old.id r).1.peers
      ≡ ok p
    → p.id ≢ old.id
unfolding delete_peer
delete_peer-revokes verify bearer cascades r old p found accepted same =
    removed-refused verify bearer old.id (delete_peer cascades old.id r).1.api_keys r.peers p
      (ground (arith, found, accepted)) same
