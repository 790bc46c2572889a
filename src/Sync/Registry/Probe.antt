-- ===== src/Sync/Registry/Probe.antt =====
-- The probe of a peer whose key is stored in the vault's form.
use fastapi_modular_template.Base.{
  String, ◌≡◌, refl, ◌≢◌, false, none, some, arith, ◌==◌, eq_iff, truthy, Error, Result, err,
}
use fastapi_modular_template.Sync.Registry.Rotation.{get_peer-last}
use text.Mathlib.Text.{starts_with}
use fastapi_modular_template.Sync.Peers.{get_peer}
use fastapi_modular_template.Sync.Keys.Vaulted.{sealed-prefix}
use fastapi_modular_template.Sync.Keys.{Vault, vault_prefix, encrypt_peer_key, encrypt_their_key}
use fastapi_modular_template.Sync.Registry.{Registry, PeerCreate, new_peer, create_peer, probe_peer}

-- A sealed key has the vault's prefix, so it is no text without that prefix.
sealed-differs :
    (vault : Vault) (nonce plaintext key other : String)
    → vault.session_key ≡ some key
    → starts_with other vault_prefix ≡ false
    → (encrypt_their_key vault nonce plaintext == other) ≡ false
unfolding encrypt_their_key
sealed-differs vault nonce plaintext key other unlocked plain = ground (
  arith,
  unlocked,
  plain,
  sealed-prefix vault nonce plaintext key,
  eq_iff (encrypt_peer_key vault nonce plaintext key) other,
)

-- The probe of a peer that was created with a key while the vault was unlocked is refused, where
-- the remote node refuses every bearer but that key, which does not start with the vault's prefix,
-- and the identifier is new.
probe_peer-vaulted :
    (vault : Vault) (nonce id key plaintext : String) (new_key : String × String × String)
    (fields : PeerCreate) (r : Registry) (call : String → String → Result String) (refusal : Error)
    → vault.session_key ≡ some key
    → truthy fields.their_key_for_us ≡ some plaintext
    → starts_with plaintext vault_prefix ≡ false
    → get_peer id r.peers ≡ none
    → ((url bearer : String) → bearer ≢ plaintext → call url bearer ≡ err refusal)
    → (probe_peer call id (create_peer vault nonce id new_key fields r).1).0 ≡ err refusal
unfolding probe_peer create_peer new_peer
probe_peer-vaulted vault nonce id key plaintext new_key fields r call refusal unlocked given plain
      fresh only =
    ground (
      arith,
      given,
      get_peer-last (new_peer vault nonce id new_key fields) r.peers fresh,
      sealed-differs vault nonce plaintext key "" unlocked refl,
      only fields.base_url (encrypt_their_key vault nonce plaintext) (λ same. ground (
        arith,
        sealed-differs vault nonce plaintext key plaintext unlocked plain,
        eq_iff (encrypt_their_key vault nonce plaintext) plaintext,
        same,
      )),
    )
