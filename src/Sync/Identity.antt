-- ===== src/Sync/Identity.antt =====
-- The identity of a node: `ensure_local_node` and `get_local_node_info` of
-- scottycore/services/sync/service.py and the node rows of
-- scottycore/services/sync/repository.py.
use fastapi_modular_template.Base.{
  ℕ, String, ◌≡◌, refl, ◌≢◌, Bool, true, Option, none, some, List, [], ◌∷◌, ◌++◌, arith, ◌==◌,
  eq_iff, eq_refl, if◌then◌else◌, any, Result, other_error, ok, err,
}
use mathlib.Core.Option
use fastapi_modular_template.Sync.Lww.{Datetime}
use fastapi_modular_template.Sync.Apply.{
  applied, filter_rows_by_origin, Tables, apply_contributor, apply_row, write_row, Contributor,
  keep_local, apply_rows_from, apply_contributor_rows,
}
use fastapi_modular_template.Sync.Rows.{get-upsert_row_origin, Row, get_row_origin, RowOrigin}

pub record PlatformNode : Type 0 where
  pub id : String
  pub node_name : String

abbrev pub singleton_id : String
singleton_id = "singleton"

-- `INSERT OR IGNORE`, on the primary key
unfoldable pub create_platform_node_idempotent : String → List PlatformNode → List PlatformNode
create_platform_node_idempotent node_name nodes =
    if any (λ n. n.id == singleton_id) nodes
    then nodes
    else nodes ++ record { id = singleton_id; node_name = node_name } ∷ []

unfoldable pub get_platform_node : List PlatformNode → Option PlatformNode
get_platform_node [] = none
get_platform_node (n ∷ ns) = some n

unfoldable pub ensure_local_node :
    String → List PlatformNode → Result PlatformNode × List PlatformNode
ensure_local_node node_name nodes =
    let nodes' = create_platform_node_idempotent node_name nodes in
    (
      elim (get_platform_node nodes') [
        | none ↦ err (other_error "Failed to create PlatformNode")
        | some n ↦ ok n
      ],
      nodes',
    )

abbrev pub schema_version : ℕ
schema_version = 1

pub record NodeInfo : Type 0 where
  pub node_id : String
  pub node_name : String
  pub schema_version : ℕ
  pub capabilities : List String

unfoldable pub get_local_node_info : List PlatformNode → Result NodeInfo
get_local_node_info nodes = elim (get_platform_node nodes) [
  | none ↦ err (other_error "PlatformNode not initialised")
  | some n ↦ ok (record {
    node_id = n.id;
    node_name = n.node_name;
    schema_version = schema_version;
    capabilities = "delta_export" ∷ "lww_conflict" ∷ [];
  })
]

any-last :
    (p : PlatformNode → Bool) (ns : List PlatformNode) (n : PlatformNode)
    → p n ≡ true
    → any p (ns ++ n ∷ []) ≡ true
any-last p [] n h = ground (arith, h)
any-last p (x ∷ ns) n h = ground (arith, any-last p ns n h)

created_once :
    (a b : String) (nodes : List PlatformNode)
    → create_platform_node_idempotent b (create_platform_node_idempotent a nodes)
      ≡ create_platform_node_idempotent a nodes
unfolding create_platform_node_idempotent
created_once a b nodes = ground (
  arith,
  any-last (λ n. n.id == singleton_id) nodes (record { id = singleton_id; node_name = a }) refl,
)

-- The start of a node is idempotent: it finds the node that an earlier start made, and adds none.
ensure_local_node_idempotent :
    (a b : String) (nodes : List PlatformNode)
    → ensure_local_node b (ensure_local_node a nodes).1 ≡ ensure_local_node a nodes
unfolding ensure_local_node
ensure_local_node_idempotent a b nodes = rw (created_once a b nodes) refl

-- Any two new nodes start under one identifier.
new_nodes_share_id :
    (a b : String) (m n : PlatformNode)
    → (ensure_local_node a []).0 ≡ ok m
    → (ensure_local_node b []).0 ≡ ok n
    → m.id ≡ n.id
unfolding ensure_local_node create_platform_node_idempotent get_platform_node
new_nodes_share_id a b m n hm hn = ground arith

module _ {S : Type 0} (fromisoformat : String → Option Datetime) where
  -- A row that is applied is recorded under the sender's identifier.
  applied-origin :
      (local_id : String) (c : Contributor S) (cid peer_id origin : String) (row : Row)
      (t t' : Tables S)
      → apply_row fromisoformat local_id c cid peer_id origin row t ≡ (applied, t')
      → Option.map (λ (x : RowOrigin). x.origin_node_id) (get_row_origin t'.origins cid row.id)
        ≡ some origin
  unfolding apply_row write_row keep_local
  applied-origin local_id c cid peer_id origin row t t' h = ground (
    arith,
    h,
    get-upsert_row_origin t.origins cid row.id origin cid row.id,
    eq_refl cid,
    eq_refl row.id,
  )

  -- Two nodes that start with an empty node table: once a row that one sent has been applied on
  -- the other, every later version of a row with that identifier, not the empty one, from there is
  -- skipped and changes nothing.
  pub shared_id_drops_updates :
      (a b : String) (receiver sender : PlatformNode) (c : Contributor S) (cid peer_id : String)
      (row newer : Row) (t t' : Tables S)
      → (ensure_local_node a []).0 ≡ ok receiver
      → (ensure_local_node b []).0 ≡ ok sender
      → apply_row fromisoformat receiver.id c cid peer_id sender.id row t ≡ (applied, t')
      → row.id ≢ ""
      → newer.id ≡ row.id
      → apply_contributor fromisoformat receiver.id c cid peer_id sender.id (newer ∷ []) t'
        ≡ (record { rows_applied = 0; rows_skipped = 1; conflicts_created = 0 }, t')
  unfolding apply_contributor apply_contributor_rows apply_rows_from filter_rows_by_origin
  shared_id_drops_updates a b receiver sender c cid peer_id row newer t t' ha hb h named same =
      ground (
        arith,
        new_nodes_share_id a b receiver sender ha hb,
        applied-origin receiver.id c cid peer_id sender.id row t t' h,
        eq_iff newer.id "",
        eq_refl sender.id,
      )
