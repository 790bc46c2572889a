-- ===== src/Tests/PeersCases.antt =====
-- The theorems on the peers' keys and on the identity of a node at concrete inputs.
use fastapi_modular_template.Base.{
  ◌≤◌, String, ◌≡◌, refl, Bool, true, Option, none, some, [], ◌∷◌, arith, ◌==◌, eq_iff, str_leb,
  first_chars, ok,
}
use fastapi_modular_template.Sync.Lww.{lww_remote_wins, Datetime}
use fastapi_modular_template.Sync.Rows.{moment, parse_ts, Row}
use fastapi_modular_template.Sync.Apply.{
  local_version, Tables, apply_row, apply_contributor, write_row, Contributor,
}
use fastapi_modular_template.Sync.Identity.{
  ensure_local_node, PlatformNode, create_platform_node_idempotent, singleton_id,
  shared_id_drops_updates, get_platform_node,
}
use fastapi_modular_template.Sync.Peers.{Peer, get_peer, update_peers}
use fastapi_modular_template.Sync.Keys.{
  generate_peer_key, get_active_key_by_prefix, create_peer_api_key, deactivate_peer_keys,
  authenticate_peer, Vault,
}
use fastapi_modular_template.Sync.Registry.{
  Registry, PeerCreate, new_peer, create_peer, with_key, rotate_peer_key,
}
use fastapi_modular_template.Sync.Registry.Rotation.{created_key_works, rotate_peer_key-revokes}
use fastapi_modular_template.Sync.Registry.Active.{rotating, apply, apply-one_active, active_keys}

abbrev vault : Vault
vault = record {
  session_key = some "k";
  seal = λ key nonce plain. plain;
  unseal = λ key nonce sealed. ok sealed;
}

-- A hash that shows its text
abbrev hash : String → String
hash s = s

abbrev verify : String → String → Bool
verify bearer hashed = bearer == hashed

abbrev random : String
random = "0123456789012345678901234567890123456789"

abbrev fields : PeerCreate
fields = record {
  name = "second";
  base_url = "https://p2";
  their_key_for_us = some "theirs";
  sync_mode = "full";
  auto_include_new_tenants = true;
  enabled = true;
}

abbrev no_peers : Registry
no_peers = record { peers = []; api_keys = []; tenant_subs = [] }

abbrev first_key : String × String × String
first_key = generate_peer_key hash random

abbrev one_peer : Registry
one_peer = (create_peer vault "ab" "p2" first_key fields no_peers).1

abbrev second : Peer
second = (create_peer vault "ab" "p2" first_key fields no_peers).0.0

abbrev second_key : String × String × String
second_key = ("98765432", "98765432", "98765432")

abbrev at : Datetime
at = record { instant = 7; aware = true }

created_key_works_example :
    authenticate_peer verify
      (create_peer vault "ab" "p2" first_key fields no_peers).0.1
      one_peer.api_keys
      one_peer.peers
    ≡ ok second
unfolding generate_peer_key first_chars get_active_key_by_prefix get_peer
created_key_works_example =
    created_key_works vault "ab" "p2" random hash verify fields no_peers (omega arith) refl refl
      refl refl

rotate_peer_key-revokes_example : verify "98765432" "98765432" ≡ true
unfolding create_peer new_peer generate_peer_key first_chars get_active_key_by_prefix get_peer
    rotate_peer_key authenticate_peer create_peer_api_key deactivate_peer_keys update_peers
rotate_peer_key-revokes_example =
    rotate_peer_key-revokes verify "98765432" second_key at one_peer second
      (with_key "98765432" "98765432" second) refl refl refl

apply-one_active_example :
    active_keys "p2" (apply (rotating second_key at "p2") one_peer).api_keys ≤ 1
unfolding create_peer create_peer_api_key generate_peer_key active_keys
apply-one_active_example =
    apply-one_active (rotating second_key at "p2") one_peer refl
      (λ id. ground (arith, eq_iff "p2" id)) "p2"

-- A store of one row, which a restore replaces
abbrev one_row : Contributor Row
one_row = record { get_row = some (λ id s. ok (some s)); restore = λ tenant row s. (ok 1, row) }

abbrev version : String → Row
version text = record { id = "r1"; tenant_id = none; updated_at = moment at; payload = text }

abbrev tables : Tables Row
tables = record { store = version "a"; origins = []; conflicts = [] }

abbrev node : String → PlatformNode
node name = record { id = singleton_id; node_name = name }

abbrev no_dates : String → Option Datetime
no_dates s = none

abbrev after_push : Tables Row
after_push =
    (apply_row no_dates singleton_id one_row "items" "p2" singleton_id (version "b") tables).1

shared_id_drops_updates_example :
    apply_contributor no_dates singleton_id one_row "items" "p2" singleton_id
      (version "c" ∷ [])
      after_push
    ≡ (record { rows_applied = 0; rows_skipped = 1; conflicts_created = 0 }, after_push)
unfolding ensure_local_node create_platform_node_idempotent get_platform_node apply_row
    local_version parse_ts write_row str_leb lww_remote_wins
shared_id_drops_updates_example =
    shared_id_drops_updates no_dates "a" "b" (node "a") (node "b") one_row "items" "p2"
      (version "b") (version "c") tables after_push refl refl refl
      (λ e. ground (arith, eq_iff "r1" "")) refl
