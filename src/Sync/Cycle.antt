-- ===== src/Sync/Cycle.antt =====
-- One exchange with a peer: `_sync_cycle`, `_push_cycle`, `_build_push_bundle` and one round of
-- `_peer_loop` of scottycore/services/sync/engine.py. The times at which the cycle reads the clock
-- are arguments. What a step has changed stays changed when a later step raises, so the state comes
-- back beside the error.
pub mod Outcome
use fastapi_modular_template.Base.{
  ℕ, ◌-◌, ◌*◌, String, Bool, true, not, ◌||◌, Option, none, some, List, [], ◌∷◌, ◌==◌,
  if◌then◌else◌, Error, Result, ok, err,
}
use fastapi_modular_template.Sync.Lww.{Datetime}
use fastapi_modular_template.Sync.Apply.{Tables}
use fastapi_modular_template.Sync.Bundle.{Node, apply_bundle}
use fastapi_modular_template.Sync.Keys.{Vault, decrypt_their_key}
use fastapi_modular_template.Sync.Peers.{
  Peer, Subscription, get_peer, record_pull_success, record_push_success, handle_error, Scope,
  build_scope,
}

pub record Mesh (S : Type 0) : Type 0 where
  pub tables : Tables S
  pub peers : List Peer
  pub subscriptions : List Subscription

-- What the cycle calls of others: the peer's HTTP endpoints, the vault, and
-- `export_platform_delta` of the backup service. Each may raise.
pub record World (S : Type 0) : Type 0 where
  pub call_peer_pull : String → String → Option Datetime → Scope → List String → Result String
  pub call_peer_push : String → String → String → String → Result (Unit {0})
  pub export_platform_delta : Option Datetime → List String → Tables S → Result String
  pub vault : Vault

-- CLOCK_SKEW_TOLERANCE_S, in microseconds
abbrev pub clock_skew_tolerance : ℕ
clock_skew_tolerance = 60 * 1000000

-- `ts - timedelta(seconds=CLOCK_SKEW_TOLERANCE_S)` if there is a `ts`
abbrev pub since : Option Datetime → Option Datetime
since none = none
since (some ts) = some (record ts { instant = ts.instant - clock_skew_tolerance })

abbrev pub is_blank : Option String → Bool
is_blank none = true
is_blank (some s) = s == ""

module _ {S : Type 0} (node : Node S) (world : World S) where
  -- The answer of the peer's push endpoint.
  unfoldable pub pushed_to :
      Datetime → Peer → Mesh S → Result (Unit {0}) → Result (Unit {0}) × Mesh S
  pushed_to now peer m (ok _) =
      (ok tt, record m { peers = record_push_success peer.id now m.peers })
  pushed_to now peer m (err e) = (err e, m)

  unfoldable pub push_cycle : Datetime → Peer → String → Mesh S → Result (Unit {0}) × Mesh S
  push_cycle now peer bundle_bytes m =
      if is_blank peer.their_key_for_us || bundle_bytes == ""
      then (ok tt, m)
      else elim (decrypt_their_key world.vault peer.their_key_for_us) [
        | none ↦ (ok tt, m)
        | some key ↦
            if key == ""
            then (ok tt, m)
            else pushed_to now peer m
                (world.call_peer_push peer.base_url key bundle_bytes node.local_node_id)
      ]

  -- A raise of the export gives the empty bundle.
  unfoldable pub build_push_bundle : Peer → Mesh S → String
  build_push_bundle peer m =
      elim (world.export_platform_delta (since peer.last_pushed_ts) (node.local_node_id ∷ [])
        m.tables) [ ok bundle ↦ bundle | err e ↦ "" ]

  -- After the pull: the peer is read again, and our delta pushed.
  unfoldable pub push_back : String → Datetime → Mesh S → Result (Unit {0}) × Mesh S
  push_back peer_id now m = elim (get_peer peer_id m.peers) [
    | none ↦ (ok tt, m)
    | some peer ↦ push_cycle now peer (build_push_bundle peer m) m
  ]

  -- What the pulled bundle does: its rows are applied and the pull is recorded.
  unfoldable pub pulled_from : String → String → Datetime → Mesh S → Mesh S
  pulled_from peer_id bundle_bytes now m = record m {
    tables = (apply_bundle node bundle_bytes peer_id none m.tables).1;
    peers = record_pull_success peer_id now m.peers;
  }

  unfoldable pub pull_then_push :
      Peer → String → Datetime → Datetime → Mesh S → Result (Unit {0}) × Mesh S
  pull_then_push peer key pulled_at pushed_at m =
      elim (world.call_peer_pull peer.base_url key (since peer.last_pulled_ts)
        (build_scope m.subscriptions peer) (node.local_node_id ∷ [])) [
          | err e ↦ (err e, m)
          | ok bundle_bytes ↦
              push_back peer.id pushed_at (pulled_from peer.id bundle_bytes pulled_at m)
        ]

  unfoldable pub sync_cycle : String → Datetime → Datetime → Mesh S → Result (Unit {0}) × Mesh S
  sync_cycle peer_id pulled_at pushed_at m = elim (get_peer peer_id m.peers) [
    | none ↦ (ok tt, m)
    | some peer ↦
        if not peer.enabled
        then (ok tt, m)
        else if is_blank peer.their_key_for_us
        then push_cycle pushed_at peer "" m
        else elim (decrypt_their_key world.vault peer.their_key_for_us) [
          | none ↦ (ok tt, m)
          | some key ↦
              if key == "" then (ok tt, m) else pull_then_push peer key pulled_at pushed_at m
        ]
  ]

  -- One round of `_peer_loop` while the engine runs: the seconds to sleep, and the new state.
  -- `message` is `str(exc)`.
  unfoldable pub peer_loop_round :
      (Error → String) → ℕ → String → Datetime → Datetime → Datetime → Mesh S → ℕ × Mesh S
  peer_loop_round message interval peer_id pulled_at pushed_at error_at m =
      let (r, m') = sync_cycle peer_id pulled_at pushed_at m in
      elim r [
        | ok _ ↦ (interval, m')
        | err e ↦
            let (sleep_s, peers') = handle_error peer_id (message e) error_at m'.peers in
            (sleep_s, record m' { peers = peers' })
      ]
