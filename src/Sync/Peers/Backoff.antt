-- ===== src/Sync/Peers/Backoff.antt =====
-- The exponential backoff of a peer.
use fastapi_modular_template.Base.{
  ℕ, zero, suc, ◌*◌, ◌^◌, min, String, ◌≡◌, refl, ap, ◌∙◌, some, List, [], ◌∷◌, arith,
}
use native.Mathlib.Nat.{pow-suc, one-le-pow}
use fastapi_modular_template.Sync.Lww.{Datetime}
use fastapi_modular_template.Sync.Peers.{
  Peer, get_peer, update_peers, next_backoff, max_backoff_s, handle_error, failed,
  record_peer_error,
}

pub get_peer-update_peers :
    (id : String) (f : Peer → Peer) (ps : List Peer) (p : Peer)
    → ((x : Peer) → (f x).id ≡ x.id)
    → get_peer id ps ≡ some p
    → get_peer id (update_peers id f ps) ≡ some (f p)
unfolding get_peer update_peers
get_peer-update_peers id f [] p same h = cc
get_peer-update_peers id f (x ∷ ps) p same h =
    ground (arith, same x, get_peer-update_peers id f ps p same)

next_backoff-pow :
    (k : ℕ) → next_backoff (min (30 * 2 ^ k) max_backoff_s) ≡ min (30 * 2 ^ suc k) max_backoff_s
unfolding next_backoff
next_backoff-pow k = omega (arith, pow-suc 2 k, one-le-pow k 2 (omega arith))

-- The failure of `n` cycles in a row.
fail_times : ℕ → String → String → Datetime → List Peer → List Peer
fail_times zero id error now peers = peers
fail_times (suc n) id error now peers =
    (handle_error id error now (fail_times n id error now peers)).1

module _ (id error : String) (now : Datetime) where
  sleep-handle_error :
      (ps : List Peer) (p : Peer)
      → get_peer id ps ≡ some p
      → (handle_error id error now ps).0 ≡ next_backoff p.backoff_seconds
  unfolding handle_error
  sleep-handle_error ps p found = rw (found, handle_error)

  get_peer-handle_error :
      (ps : List Peer) (p : Peer)
      → get_peer id ps ≡ some p
      → get_peer id (handle_error id error now ps).1
        ≡ some (failed error now (next_backoff p.backoff_seconds) p)
  unfolding handle_error record_peer_error
  get_peer-handle_error ps p found =
      rw (found, handle_error) (get_peer-update_peers id _ ps p (λ x. refl) found)

  -- What `n` failures in a row leave.
  fail_times-backoff :
      (n : ℕ) (ps : List Peer) (p : Peer)
      → get_peer id ps ≡ some p
      → p.backoff_seconds ≡ 0
      → (q : Peer) × (get_peer id (fail_times n id error now ps) ≡ some q)
        × (next_backoff q.backoff_seconds ≡ min (30 * 2 ^ n) max_backoff_s)
  unfolding fail_times
  fail_times-backoff zero ps p found fresh = (p, found, unfold next_backoff in rw fresh refl)
  fail_times-backoff (suc n) ps p found fresh =
      let (q, found_q, backoff_q) = fail_times-backoff n ps p found fresh in
      (
        failed error now (next_backoff q.backoff_seconds) q,
        get_peer-handle_error (fail_times n id error now ps) q found_q,
        ap next_backoff backoff_q ∙ next_backoff-pow n,
      )

  -- From a peer without backoff, the failure that follows n failures in a row sleeps the lesser of
  -- 30 * 2 ^ n seconds and an hour.
  backoff_doubles :
      (n : ℕ) (ps : List Peer) (p : Peer)
      → get_peer id ps ≡ some p
      → p.backoff_seconds ≡ 0
      → (handle_error id error now (fail_times n id error now ps)).0
        ≡ min (30 * 2 ^ n) max_backoff_s
  backoff_doubles n ps p found fresh =
      let (q, found_q, backoff_q) = fail_times-backoff n ps p found fresh in
      sleep-handle_error (fail_times n id error now ps) q found_q ∙ backoff_q
