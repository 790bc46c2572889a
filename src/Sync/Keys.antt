-- ===== src/Sync/Keys.antt =====
-- The keys that peers hold for each other: scottycore/services/sync/auth.py, the key helpers and
-- `migrate_plaintext_peer_keys` of scottycore/services/sync/service.py, and the key rows of
-- scottycore/services/sync/repository.py.
pub mod Vaulted
pub mod Access
use fastapi_modular_template.Base.{
  ℕ, String, Bool, true, false, not, ◌&&◌, ◌||◌, Option, none, some, List, [], ◌∷◌, ◌++◌, map, ◌==◌,
  ltb, if◌then◌else◌, length, filter, ◌⧺◌, first_chars, cut_at, keys, Result, authentication_error,
  value_error, ok, err,
}
use Prim.Native.String
use text.Mathlib.Text.{starts_with}
use fastapi_modular_template.Sync.Lww.{Datetime}
use fastapi_modular_template.Sync.Peers.{Peer, get_peer}

pub record PeerApiKey : Type 0 where
  pub peer_id : String
  pub key_hash : String
  pub key_prefix : String
  pub is_active : Bool
  pub rotated_at : Option Datetime

abbrev pub key_prefix_len : ℕ
key_prefix_len = 8

abbrev pub key_total_len : ℕ
key_total_len = 40

-- `random` is `secrets.token_urlsafe(40)`, `hash` bcrypt with the salt of this call.
unfoldable pub generate_peer_key : (String → String) → String → String × String × String
generate_peer_key hash random =
    let plaintext = first_chars key_total_len random in
    (plaintext, hash plaintext, first_chars key_prefix_len plaintext)

unfoldable pub get_active_key_by_prefix : String → List PeerApiKey → Option PeerApiKey
get_active_key_by_prefix prefix [] = none
get_active_key_by_prefix prefix (k ∷ ks) =
    if k.key_prefix == prefix && k.is_active then some k else get_active_key_by_prefix prefix ks

unfoldable pub create_peer_api_key : String → String → String → List PeerApiKey → List PeerApiKey
create_peer_api_key peer_id key_hash key_prefix keys =
    keys
    ++ record {
      peer_id = peer_id;
      key_hash = key_hash;
      key_prefix = key_prefix;
      is_active = true;
      rotated_at = none;
    }
      ∷ []

abbrev pub deactivate : Datetime → PeerApiKey → PeerApiKey
deactivate now k = record k { is_active = false; rotated_at = some now }

unfoldable pub deactivate_peer_keys : String → Datetime → List PeerApiKey → List PeerApiKey
deactivate_peer_keys peer_id now [] = []
deactivate_peer_keys peer_id now (k ∷ ks) =
    (if k.peer_id == peer_id && k.is_active then deactivate now k else k)
    ∷ deactivate_peer_keys peer_id now ks

-- `verify` is bcrypt's check of a key against a hash.
unfoldable pub authenticate_peer :
    (String → String → Bool) → String → List PeerApiKey → List Peer → Result Peer
authenticate_peer verify bearer keys peers =
    if bearer == "" || ltb (String.count bearer) key_prefix_len
    then err (authentication_error "Invalid peer credentials")
    else elim (get_active_key_by_prefix (first_chars key_prefix_len bearer) keys) [
      | none ↦ err (authentication_error "Invalid peer credentials")
      | some candidate ↦
          if not (verify bearer candidate.key_hash)
          then err (authentication_error "Invalid peer credentials")
          else elim (get_peer candidate.peer_id peers) [
            | none ↦ err (authentication_error "Peer not found or disabled")
            | some peer ↦
                if peer.enabled
                then ok peer
                else err (authentication_error "Peer not found or disabled")
          ]
    ]

-- The vault of the deployment: its session key, if it is unlocked, and AES-GCM under a key and a
-- nonce, between texts and hexadecimal digits.
pub record Vault : Type 0 where
  pub session_key : Option String
  pub seal : String → String → String → String
  pub unseal : String → String → String → Result String

abbrev pub vault_prefix : String
vault_prefix = "vault:"

unfoldable pub encrypt_peer_key : Vault → String → String → String → String
encrypt_peer_key vault nonce plaintext key =
    vault_prefix ⧺ nonce ⧺ ":" ⧺ vault.seal key nonce plaintext

unfoldable pub decrypt_peer_key : Vault → String → String → Result String
decrypt_peer_key vault stored key = elim (cut_at b':' stored) [
  | none ↦ err (value_error "not enough values to unpack")
  | some (scheme, rest) ↦ elim (cut_at b':' rest) [
    | none ↦ err (value_error "not enough values to unpack")
    | some (nonce, sealed) ↦ vault.unseal key nonce sealed
  ]
]

-- `nonce` is `os.urandom(12).hex()`.
unfoldable pub encrypt_their_key : Vault → String → String → String
encrypt_their_key vault nonce plaintext = elim vault.session_key [
  | none ↦ plaintext
  | some key ↦ encrypt_peer_key vault nonce plaintext key
]

unfoldable pub decrypt_their_key : Vault → Option String → Option String
decrypt_their_key vault none = none
decrypt_their_key vault (some stored) =
    if not (starts_with stored vault_prefix) then some stored else elim vault.session_key [
      | none ↦ none
      | some key ↦ elim (decrypt_peer_key vault stored key) [ ok plain ↦ some plain | err e ↦ none ]
    ]

unfoldable pub is_plaintext : Option String → Bool
is_plaintext none = false
is_plaintext (some stored) = not (stored == "") && not (starts_with stored vault_prefix)

-- The nonce of each peer's key
unfoldable pub migrate_peer : Vault → (String → String) → String → Peer → Peer
migrate_peer vault nonces key p = elim p.their_key_for_us [
  | none ↦ p
  | some stored ↦
      if is_plaintext (some stored)
      then record p { their_key_for_us = some (encrypt_peer_key vault (nonces p.id) stored key) }
      else p
]

unfoldable pub migrate_plaintext_peer_keys : Vault → (String → String) → List Peer → ℕ × List Peer
migrate_plaintext_peer_keys vault nonces peers = elim vault.session_key [
  | none ↦ (0, peers)
  | some key ↦ (
    length (filter (λ p. is_plaintext p.their_key_for_us) peers),
    map (migrate_peer vault nonces key) peers,
  )
]
