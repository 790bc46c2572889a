-- ===== src/Sync/Keys/Vaulted.antt =====
-- The vault encryption of the keys that peers have issued to this node.
use fastapi_modular_template.Base.{
  String, ◌≡◌, refl, ap, ◌∙◌, inl, inr, true, false, none, some, List, [], ◌∷◌, map, arith,
  Option-cases, length, filter, ◌⧺◌, cut_at, cut_at-mark, ok,
}
use mathlib.Core.Option
use fastapi_modular_template.Sync.Peers.{get_peer, Peer}
use text.Mathlib.Text.{starts_with}
use text.Mathlib.TextPositions.{starts_with-append}
use text.Mathlib.TextLemmas.{append_assoc}
use fastapi_modular_template.Sync.Keys.{
  Vault, vault_prefix, encrypt_peer_key, decrypt_peer_key, encrypt_their_key, decrypt_their_key,
  is_plaintext, migrate_peer, migrate_plaintext_peer_keys,
}

-- AES-GCM opens what it has sealed.
abbrev pub Opens : Vault → Type 0
Opens vault =
    (key nonce plaintext : String)
    → vault.unseal key nonce (vault.seal key nonce plaintext) ≡ ok plaintext

-- A nonce is written in hexadecimal digits.
abbrev pub IsNonce : String → Type 0
IsNonce nonce = cut_at b':' nonce ≡ none

pub sealed-prefix :
    (vault : Vault) (nonce plaintext key : String)
    → starts_with (encrypt_peer_key vault nonce plaintext key) vault_prefix ≡ true
unfolding encrypt_peer_key
sealed-prefix vault nonce plaintext key = starts_with-append vault_prefix _

cut-vault : (r : String) → cut_at b':' (vault_prefix ⧺ r) ≡ some ("vault", r)
unfolding cut_at
cut-vault r =
    ap (cut_at b':') (append_assoc "vault" ":" r) ∙ cut_at-mark b':' ":" "vault" r refl refl

cut-nonce :
    (nonce sealed : String)
    → IsNonce nonce
    → cut_at b':' (nonce ⧺ ":" ⧺ sealed) ≡ some (nonce, sealed)
cut-nonce nonce sealed h = cut_at-mark b':' ":" nonce sealed refl h

decrypt-encrypt_peer_key :
    (vault : Vault) (nonce plaintext key : String)
    → Opens vault
    → IsNonce nonce
    → decrypt_peer_key vault (encrypt_peer_key vault nonce plaintext key) key ≡ ok plaintext
unfolding decrypt_peer_key encrypt_peer_key
decrypt-encrypt_peer_key vault nonce plaintext key opens h = ground (
  arith,
  cut-vault (nonce ⧺ ":" ⧺ vault.seal key nonce plaintext),
  cut-nonce nonce (vault.seal key nonce plaintext) h,
  opens key nonce plaintext,
)

decrypt-sealed :
    (vault : Vault) (nonce plaintext key : String)
    → vault.session_key ≡ some key
    → Opens vault
    → IsNonce nonce
    → decrypt_their_key vault (some (encrypt_peer_key vault nonce plaintext key)) ≡ some plaintext
unfolding decrypt_their_key
decrypt-sealed vault nonce plaintext key unlocked opens h = ground (
  arith,
  unlocked,
  decrypt-encrypt_peer_key vault nonce plaintext key opens h,
  sealed-prefix vault nonce plaintext key,
)

decrypt-plain :
    (vault : Vault) (stored : String)
    → starts_with stored vault_prefix ≡ false
    → decrypt_their_key vault (some stored) ≡ some stored
unfolding decrypt_their_key
decrypt-plain vault stored h = ground (arith, h)

-- With the vault unlocked, the key that a peer has issued is the same after it was encrypted and
-- decrypted, whatever its text.
decrypt-encrypt_their_key :
    (vault : Vault) (nonce plaintext key : String)
    → vault.session_key ≡ some key
    → Opens vault
    → IsNonce nonce
    → decrypt_their_key vault (some (encrypt_their_key vault nonce plaintext)) ≡ some plaintext
unfolding encrypt_their_key
decrypt-encrypt_their_key vault nonce plaintext key unlocked opens h =
    ground (arith, unlocked, decrypt-sealed vault nonce plaintext key unlocked opens h)

-- The migration of the keys.
module _ (vault : Vault) (nonces : String → String) (key : String)
    (unlocked : vault.session_key ≡ some key) (opens : Opens vault)
    (hex : (id : String) → IsNonce (nonces id)) where
  migrated-key :
      (p : Peer)
      → decrypt_their_key vault (migrate_peer vault nonces key p).their_key_for_us
        ≡ decrypt_their_key vault p.their_key_for_us
  unfolding migrate_peer is_plaintext
  migrated-key p = elim (Option-cases p.their_key_for_us) [
    | inl absent ↦ ground (arith, absent)
    | inr (stored, held) ↦ ground (
      arith,
      held,
      decrypt-sealed vault (nonces p.id) stored key unlocked opens (hex p.id),
      decrypt-plain vault stored,
    )
  ]

  migrated-sealed :
      (p : Peer) → is_plaintext (migrate_peer vault nonces key p).their_key_for_us ≡ false
  unfolding migrate_peer is_plaintext
  migrated-sealed p = elim (Option-cases p.their_key_for_us) [
    | inl absent ↦ ground (arith, absent)
    | inr (stored, held) ↦ ground (arith, held, sealed-prefix vault (nonces p.id) stored key)
  ]

  get_peer-migrated :
      (id : String) (ps : List Peer)
      → get_peer id (map (migrate_peer vault nonces key) ps)
        ≡ Option.map (migrate_peer vault nonces key) (get_peer id ps)
  unfolding get_peer migrate_peer
  get_peer-migrated id [] = refl
  get_peer-migrated id (p ∷ ps) = ground (arith, get_peer-migrated id ps)

  none-left :
      (ps : List Peer)
      → length
          (filter (λ p. is_plaintext p.their_key_for_us) (map (migrate_peer vault nonces key) ps))
        ≡ 0
  none-left [] = refl
  none-left (p ∷ ps) = ground (arith, migrated-sealed p, none-left ps)

  -- With the vault unlocked, the migration leaves the key of every peer as it is when it is
  -- decrypted, and a second migration has nothing to do, if AES-GCM opens what it has sealed and a
  -- nonce has no colon.
  migrate-decrypts :
      (peers : List Peer) (nonces' : String → String)
      → ((id : String)
          → Option.map
              (λ (p : Peer). decrypt_their_key vault p.their_key_for_us)
              (get_peer id (migrate_plaintext_peer_keys vault nonces peers).1)
            ≡ Option.map
                (λ (p : Peer). decrypt_their_key vault p.their_key_for_us)
                (get_peer id peers))
        × ((migrate_plaintext_peer_keys vault nonces'
              (migrate_plaintext_peer_keys vault nonces peers).1).0
            ≡ 0)
  unfolding migrate_plaintext_peer_keys
  migrate-decrypts peers nonces' = (
    λ id. elim (Option-cases (get_peer id peers)) [
      | inl absent ↦ ground (arith, unlocked, absent, get_peer-migrated id peers)
      | inr (p, found) ↦ ground (arith, unlocked, found, get_peer-migrated id peers, migrated-key p)
    ],
    ground (arith, unlocked, none-left peers),
  )
