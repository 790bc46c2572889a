-- ===== src/Sync/Apply/Counts.antt =====
-- What the counters of an applied bundle mean.
use fastapi_modular_template.Base.{
  ℕ, ◌+◌, ◌≤◌, String, ◌≡◌, refl, inl, inr, Option, none, some, List, [], ◌∷◌, arith, Option-cases,
  length, length-append, length-filter-le, Dict, lookup,
}
use fastapi_modular_template.Sync.Lww.{Datetime}
use fastapi_modular_template.Sync.Rows.{Row, create_conflict}
use fastapi_modular_template.Sync.Apply.{
  Contributor, Tables, Tally, no_rows, count_verdict, add_tally, total, filter_rows_by_origin,
  write_row, keep_local, apply_row, apply_rows_from, apply_contributor_rows, apply_contributor,
  apply_contributors, Verdict,
}

-- The rows of the contributors that are registered here.
abbrev pub known_rows {ℓ κ} : {A : Type ℓ} {B : Type κ} → Dict A → Dict (List B) → ℕ
known_rows registered [] = 0
known_rows registered ((cid, rows) ∷ more) = elim (lookup cid registered) [
  | none ↦ known_rows registered more
  | some c ↦ length rows + known_rows registered more
]

module _ {S : Type 0} (fromisoformat : String → Option Datetime) (local_node_id : String) where
  apply_rows_from-total :
      (c : Contributor S) (cid peer origin : String) (rows : List Row) (n : Tally) (t : Tables S)
      → total (apply_rows_from fromisoformat local_node_id c cid peer origin rows n t).0
        ≡ total n + length rows
  unfolding apply_rows_from
  apply_rows_from-total c cid peer origin [] n t = omega arith
  apply_rows_from-total c cid peer origin (row ∷ rows) n t =
      let (v, t') = apply_row fromisoformat local_node_id c cid peer origin row t in
      ground (arith, apply_rows_from-total c cid peer origin rows (count_verdict v n) t')

  apply_contributor-total :
      (c : Contributor S) (cid peer origin : String) (rows : List Row) (t : Tables S)
      → total (apply_contributor fromisoformat local_node_id c cid peer origin rows t).0
        ≡ length rows
  unfolding apply_contributor apply_contributor_rows
  apply_contributor-total c cid peer origin rows t =
      let kept = filter_rows_by_origin t.origins rows cid (local_node_id ∷ []) in
      let all : total
            (apply_rows_from fromisoformat local_node_id c cid peer origin kept no_rows t).0
          ≡ total no_rows + length kept =
        apply_rows_from-total c cid peer origin kept no_rows t in
      let fewer : length kept ≤ length rows =
        unfold filter_rows_by_origin in length-filter-le _ rows in
      omega arith

  -- Every row of the contributors that are registered here is counted exactly once, as applied, as
  -- skipped or as a conflict.
  pub apply_contributors-total :
      (registered : Dict (Contributor S)) (peer origin : String) (bundle : Dict (List Row))
      (n : Tally) (t : Tables S)
      → total (apply_contributors fromisoformat local_node_id registered peer origin bundle n t).0
        ≡ total n + known_rows registered bundle
  unfolding apply_contributors
  apply_contributors-total registered peer origin [] n t = omega arith
  apply_contributors-total registered peer origin ((cid, rows) ∷ more) n t =
      elim (Option-cases (lookup cid registered)) [
        | inl missing ↦
            rw (missing, apply_contributors, known_rows)
              (apply_contributors-total registered peer origin more n t)
        | inr (c, found) ↦
            let (m, t') = apply_contributor fromisoformat local_node_id c cid peer origin rows t in
            rw (found, apply_contributors, known_rows)
              (omega (
                arith,
                apply_contributors-total registered peer origin more (add_tally n m) t',
                apply_contributor-total c cid peer origin rows t,
              ))
      ]

  -- What `write_row` and `keep_local` do to the conflicts table and say of it.
  Accounted : Verdict × Tables S → Tables S → Type 0
  Accounted r t =
      (n : Tally)
      → length r.1.conflicts + n.conflicts_created
        ≡ length t.conflicts + (count_verdict r.0 n).conflicts_created

  Accounted-write_row :
      (c : Contributor S) (cid : String) (row : Row) (origin : String) (t : Tables S)
      → Accounted (write_row c cid row origin t) t
  unfolding Accounted write_row
  Accounted-write_row c cid row origin t n = ground arith

  Accounted-keep_local :
      (cid peer : String) (row : Row) (old : Option Row) (t : Tables S)
      → Accounted (keep_local cid peer row old t) t
  unfolding Accounted keep_local create_conflict
  Accounted-keep_local cid peer row old t n = omega (arith, length-append {0} t.conflicts)

  Accounted-apply_row :
      (c : Contributor S) (cid peer origin : String) (row : Row) (t : Tables S)
      → Accounted (apply_row fromisoformat local_node_id c cid peer origin row t) t
  unfolding apply_row Accounted
  Accounted-apply_row c cid peer origin row t n =
      grind (arith, Accounted-write_row, Accounted-keep_local)

  apply_rows_from-conflicts :
      (c : Contributor S) (cid peer origin : String) (rows : List Row) (n : Tally) (t : Tables S)
      → let (n', t') = apply_rows_from fromisoformat local_node_id c cid peer origin rows n t in
        length t'.conflicts + n.conflicts_created ≡ length t.conflicts + n'.conflicts_created
  unfolding apply_rows_from Accounted
  apply_rows_from-conflicts c cid peer origin [] n t = refl
  apply_rows_from-conflicts c cid peer origin (row ∷ rows) n t =
      let (v, t') = apply_row fromisoformat local_node_id c cid peer origin row t in
      omega (
        arith,
        Accounted-apply_row c cid peer origin row t n,
        apply_rows_from-conflicts c cid peer origin rows (count_verdict v n) t',
      )

  -- The conflicts table grows by exactly the number of conflicts that the tally of a bundle gains.
  apply_contributors-conflicts :
      (registered : Dict (Contributor S)) (peer origin : String) (bundle : Dict (List Row))
      (n : Tally) (t : Tables S)
      → let (n', t') =
          apply_contributors fromisoformat local_node_id registered peer origin bundle n t in
        length t'.conflicts + n.conflicts_created ≡ length t.conflicts + n'.conflicts_created
  unfolding apply_contributors apply_contributor apply_contributor_rows
  apply_contributors-conflicts registered peer origin [] n t = refl
  apply_contributors-conflicts registered peer origin ((cid, rows) ∷ more) n t =
      elim (Option-cases (lookup cid registered)) [
        | inl missing ↦
            rw (missing, apply_contributors)
              (apply_contributors-conflicts registered peer origin more n t)
        | inr (c, found) ↦
            let (m, t') = apply_contributor fromisoformat local_node_id c cid peer origin rows t in
            rw (found, apply_contributors)
              (omega (
                arith,
                apply_contributors-conflicts registered peer origin more (add_tally n m) t',
                apply_rows_from-conflicts c cid peer origin
                    (filter_rows_by_origin t.origins rows cid (local_node_id ∷ [])) no_rows t,
              ))
      ]
