-- ===== src/Sync/Cycle/Outcome.antt =====
-- What an exchange with a peer leaves behind, whether it ends well or not.
use fastapi_modular_template.Base.{
  String, ◌≡◌, refl, ap, ◌∙◌, ◌≢◌, ◌⊎◌, inl, inr, true, false, none, some, [], ◌∷◌, arith, eq_iff,
  Error, ok, err,
}
use fastapi_modular_template.Sync.Lww.{Datetime}
use fastapi_modular_template.Sync.Bundle.{Node, extract_bundle, apply_bundle}
use fastapi_modular_template.Sync.Keys.{decrypt_their_key}
use fastapi_modular_template.Sync.Peers.Backoff.{get_peer-update_peers}
use fastapi_modular_template.Sync.Peers.{
  Peer, get_peer, build_scope, failed, pushed, record_push_success, pulled, record_pull_success,
}
use fastapi_modular_template.Sync.Cycle.{
  Mesh, World, is_blank, since, pushed_to, push_cycle, push_back, pull_then_push, sync_cycle,
  build_push_bundle, pulled_from,
}

module _ {S : Type 0} (node : Node S) (world : World S) (pulled_at pushed_at : Datetime) where
  -- A peer with a usable key: the cycle is a pull and then a push.
  sync_cycle-pull :
      (m : Mesh S) (p : Peer) (id key : String)
      → get_peer id m.peers ≡ some p
      → p.enabled ≡ true
      → is_blank p.their_key_for_us ≡ false
      → decrypt_their_key world.vault p.their_key_for_us ≡ some key
      → key ≢ ""
      → sync_cycle node world id pulled_at pushed_at m
        ≡ pull_then_push node world p key pulled_at pushed_at m
  unfolding sync_cycle
  sync_cycle-pull m p id key found on keyed plain usable =
      rw (found, sync_cycle) (ground (arith, on, keyed, plain, eq_iff key ""))

  -- A cycle with a peer that is disabled or that has given no key changes nothing and raises
  -- nothing.
  pub sync_cycle-idle :
      (m : Mesh S) (p : Peer) (id : String)
      → get_peer id m.peers ≡ some p
      → (p.enabled ≡ false) ⊎ (is_blank p.their_key_for_us ≡ true)
      → sync_cycle node world id pulled_at pushed_at m ≡ (ok tt, m)
  unfolding sync_cycle push_cycle
  sync_cycle-idle m p id found idle = rw (found, sync_cycle) (ground arith)

  sync_cycle-pull_failed :
      (m : Mesh S) (p : Peer) (id key : String) (e : Error)
      → world.call_peer_pull p.base_url key
          (since p.last_pulled_ts)
          (build_scope m.subscriptions p)
          (node.local_node_id ∷ [])
        ≡ err e
      → pull_then_push node world p key pulled_at pushed_at m ≡ (err e, m)
  unfolding pull_then_push
  sync_cycle-pull_failed m p id key e failed = rw (failed, pull_then_push)

  -- The push records its success on the peer that it was made to, or changes nothing.
  push_cycle-cases :
      (m : Mesh S) (p : Peer) (bundle_bytes : String)
      → let m' = (push_cycle node world pushed_at p bundle_bytes m).1 in
        (m' ≡ m) ⊎ (m' ≡ record m { peers = record_push_success p.id pushed_at m.peers })
  unfolding push_cycle pushed_to
  push_cycle-cases m p bundle_bytes = ground arith

  push_back-pulled :
      (m : Mesh S) (p : Peer)
      → get_peer p.id m.peers ≡ some p
      → let m' = (push_back node world p.id pushed_at m).1 in
        (m'.tables ≡ m.tables)
        × ((get_peer p.id m'.peers ≡ some p) ⊎ (get_peer p.id m'.peers ≡ some (pushed pushed_at p)))
  unfolding push_back record_push_success
  push_back-pulled m p found = elim (push_cycle-cases m p (build_push_bundle node world p m)) [
    | inl e ↦ rw (found, push_back) (ap (λ (x : Mesh S). x.tables) e, inl (rw e found))
    | inr e ↦
        rw (found, push_back)
          (
            ap (λ (x : Mesh S). x.tables) e,
            inr (rw e (get_peer-update_peers p.id _ m.peers p (λ x. refl) found)),
          )
  ]

  -- Once a peer has answered the pull, the bundle's rows stay applied, the time of the pull is
  -- recorded and the error and the backoff are cleared, whatever becomes of the push that follows.
  pull_is_kept :
      (m : Mesh S) (p : Peer) (key bundle_bytes : String)
      → get_peer p.id m.peers ≡ some p
      → world.call_peer_pull p.base_url key
          (since p.last_pulled_ts)
          (build_scope m.subscriptions p)
          (node.local_node_id ∷ [])
        ≡ ok bundle_bytes
      → let m' = (pull_then_push node world p key pulled_at pushed_at m).1 in
        (m'.tables ≡ (apply_bundle node bundle_bytes p.id none m.tables).1)
        × (q : Peer) × (get_peer p.id m'.peers ≡ some q)
        × (q.last_pulled_ts ≡ some pulled_at)
        × (q.last_error ≡ none)
        × (q.backoff_seconds ≡ 0)
  unfolding pull_then_push pulled_from record_pull_success
  pull_is_kept m p key bundle_bytes found answered =
      let after = pulled_from node world p.id bundle_bytes pulled_at m in
      let (tables, either) =
        push_back-pulled after (pulled pulled_at p)
          (get_peer-update_peers p.id _ m.peers p (λ x. refl) found) in
      elim either [
        | inl kept ↦
            rw (answered, pull_then_push) (tables, pulled pulled_at p, kept, refl, refl, refl)
        | inr kept ↦
            rw (answered, pull_then_push)
              (tables, pushed pushed_at (pulled pulled_at p), kept, refl, refl, refl)
      ]

  -- A pulled bundle that does not parse changes no table, and the time of the pull advances all
  -- the same.
  garbled_pull_advances :
      (m : Mesh S) (p : Peer) (key bundle_bytes : String) (e : Error)
      → get_peer p.id m.peers ≡ some p
      → world.call_peer_pull p.base_url key
          (since p.last_pulled_ts)
          (build_scope m.subscriptions p)
          (node.local_node_id ∷ [])
        ≡ ok bundle_bytes
      → extract_bundle node.codec bundle_bytes ≡ err e
      → let m' = (pull_then_push node world p key pulled_at pushed_at m).1 in
        (m'.tables ≡ m.tables)
        × (q : Peer) × (get_peer p.id m'.peers ≡ some q)
        × (q.last_pulled_ts ≡ some pulled_at)
  unfolding apply_bundle
  garbled_pull_advances m p key bundle_bytes e found answered garbled =
      let (tables, q, at, pulled_q, clean, rested) =
        pull_is_kept m p key bundle_bytes found answered in
      (tables ∙ ground (arith, garbled), q, at, pulled_q)
