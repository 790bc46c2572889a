-- ===== src/Sync/Lww.antt =====
-- Last write wins, `_lww_remote_wins` of scottycore/services/sync/engine.py.
use fastapi_modular_template.Base.{
  ℕ, ◌<◌, String, ◌≡◌, ◌≢◌, ◌↔◌, ◌⊎◌, Bool, true, false, not, ◌&&◌, ◌||◌, Option, none, some, arith,
  ltb, if◌then◌else◌, str_leb, str_leb_total, str_leb_antisymm, Result, ◌>>=◌, type_error, ok, err,
}

-- A `datetime`: an instant in microseconds, and whether it has a time zone.
pub record Datetime : Type 0 where
  pub aware : Bool
  pub instant : ℕ

abbrev same_kind : Datetime → Datetime → Bool
same_kind a b = (a.aware && b.aware) || (not a.aware && not b.aware)

-- `a > b`; Python raises TypeError between an aware and a naive value.
abbrev later : Datetime → Datetime → Result Bool
later a b = if same_kind a b then ok (ltb b.instant a.instant) else err type_error

unfoldable pub lww_remote_wins : Option Datetime → Option Datetime → String → String → Result Bool
lww_remote_wins none local_ts remote_node_id local_node_id = ok true
lww_remote_wins (some remote) none remote_node_id local_node_id = ok true
lww_remote_wins (some remote) (some local) remote_node_id local_node_id = do
  newer ← later remote local
  older ← later local remote
  ok (if newer then true else if older then false else str_leb local_node_id remote_node_id)

-- Of two timestamps of one kind, the remote version wins exactly if it is later, or equally late
-- and from a node whose identifier is not the smaller.
lww_remote_wins_iff :
    (remote local : Datetime) (m n : String)
    → remote.aware ≡ local.aware
    → (lww_remote_wins (some remote) (some local) m n ≡ ok true) ↔ (
        (local.instant < remote.instant)
        ⊎ ((local.instant ≡ remote.instant) × (str_leb n m ≡ true)))
unfolding lww_remote_wins
lww_remote_wins_iff remote local m n k = (λ h. ground arith, λ h. ground arith)

abbrev opposite : Result Bool → Result Bool
opposite r = do wins ← r; ok (not wins)

-- Two nodes with different identifiers that compare the same two timestamps come to opposite
-- verdicts, or both raise.
lww_agree :
    (a b : Datetime) (m n : String)
    → m ≢ n
    → lww_remote_wins (some a) (some b) m n ≡ opposite (lww_remote_wins (some b) (some a) n m)
unfolding lww_remote_wins
lww_agree a b m n d = ground (arith, str_leb_total m n, str_leb_antisymm m n)

-- Two timestamps of one kind compare without a raise.
lww_remote_wins-ok :
    (a b : Datetime) (m n : String)
    → a.aware ≡ b.aware
    → (w : Bool) × (lww_remote_wins (some a) (some b) m n ≡ ok w)
unfolding lww_remote_wins
lww_remote_wins-ok a b m n k = (
  (if ltb b.instant a.instant
      then true
      else if ltb a.instant b.instant
      then false
      else str_leb n m),
  ground arith,
)
