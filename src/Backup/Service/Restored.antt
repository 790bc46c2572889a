-- ===== src/Backup/Service/Restored.antt =====
-- What a restore does with what an export wrote.
use fastapi_modular_template.Base.{
  ℕ, ◌+◌, String, ◌≡◌, refl, sym, ap, ◌∙◌, any, inl, inr, true, false, Option, none, some, List, [],
  ◌∷◌, ◌++◌, arith, if◌then◌else◌, Bool-cases, Option-cases, All, ◌⧺◌, Dict, lookup, Result, ok,
  err,
}
use mathlib.Core.List.{append_assoc, append-nil}
use fastapi_modular_template.Backup.Bundle.RoundTrip.{IsFaithful, extract-build}
use fastapi_modular_template.Backup.Bundle.{BundleScope, platform, tenant, Export, build_tarball}
use fastapi_modular_template.Backup.Service.{
  BackupContributor, Platform, takes_part, same_scope, note, restore_one, restore_all,
  RestoreSummary, nothing_restored, manifest_of, resolve_tenant_id, collect, full_export,
  run_full_export, restore_bundle, delta_export, run_delta_export,
}
use fastapi_modular_template.Backup.Service.Expected.{
  declares, IsExported, Call, with_call, calls, carry_out, restored, rows_upserted, warnings_of,
  summary_of, then_also, tenant_of, resolve_tenant_id-tenant_of,
}

module _ {Row S : Type 0} where
  takes_part-declares :
      (scope : BundleScope) (c : BackupContributor Row S)
      → takes_part scope c ≡ declares scope c.scopes
  takes_part-declares scope c = go scope c.scopes
    where
      go :
          (scope : BundleScope) (scopes : List BundleScope)
          → any (same_scope scope) scopes ≡ declares scope scopes
      go platform [] = refl
      go tenant [] = refl
      go platform (platform ∷ scopes) = refl
      go platform (tenant ∷ scopes) = go platform scopes
      go tenant (tenant ∷ scopes) = refl
      go tenant (platform ∷ scopes) = go tenant scopes

  collect-IsExported :
      (scope : BundleScope) (tenant_id : Option String) (store : S)
      (contributors : Dict (BackupContributor Row S)) (payloads : Dict (Export Row))
      → IsExported scope tenant_id store contributors payloads
      → collect (full_export scope tenant_id store) scope contributors ≡ ok payloads
  unfolding collect
  collect-IsExported scope tenant_id store [] payloads h = rw h refl
  collect-IsExported scope tenant_id store ((cid, c) ∷ more) payloads (inl (leaves, h)) =
      rw (takes_part-declares scope c, leaves)
        (collect-IsExported scope tenant_id store more payloads h)
  collect-IsExported scope tenant_id store ((cid, c) ∷ more) payloads
        (inr (takes, e, exported, rest, made, h)) =
      rw
        (
          takes_part-declares scope c,
          takes,
          exported,
          collect-IsExported scope tenant_id store more rest h,
          made,
        )
        refl

module _ {Row : Type 0} (env : Platform Row) where
  note-then_also :
      (cid : String) (r : Result ℕ) (summary : RestoreSummary) (outcomes : List (String × Result ℕ))
      → then_also env.message (note env cid r summary) outcomes
        ≡ then_also env.message summary ((cid, r) ∷ outcomes)
  unfolding note
  note-then_also cid (ok n) summary outcomes =
      let sum : summary.total_rows_upserted + n + rows_upserted outcomes
          ≡ summary.total_rows_upserted + (n + rows_upserted outcomes) =
        omega arith in
      λ i. record {
        contributors_restored =
            append_assoc summary.contributors_restored (cid ∷ []) (restored outcomes) i;
        total_rows_upserted = sum i;
        warnings = summary.warnings ++ warnings_of env.message outcomes;
      }
  note-then_also cid (err e) summary outcomes = λ i. record {
    contributors_restored = summary.contributors_restored ++ restored outcomes;
    total_rows_upserted = summary.total_rows_upserted + rows_upserted outcomes;
    warnings =
        append_assoc summary.warnings ((cid ⧺ ": " ⧺ env.message e) ∷ [])
          (warnings_of env.message outcomes) i;
  }

  then_also-nil : (summary : RestoreSummary) → then_also env.message summary [] ≡ summary
  then_also-nil summary =
      let sum : summary.total_rows_upserted + 0 ≡ summary.total_rows_upserted = omega arith in
      λ i. record {
        contributors_restored = append-nil summary.contributors_restored i;
        total_rows_upserted = sum i;
        warnings = append-nil summary.warnings i;
      }

  then_also-nothing :
      (outcomes : List (String × Result ℕ))
      → then_also env.message nothing_restored outcomes ≡ summary_of env.message outcomes
  then_also-nothing outcomes =
      let sum : 0 + rows_upserted outcomes ≡ rows_upserted outcomes = omega arith in
      λ i. record {
        contributors_restored = restored outcomes;
        total_rows_upserted = sum i;
        warnings = warnings_of env.message outcomes;
      }

module _ {Row S : Type 0} (env : Platform Row) where
  restore_one-missing :
      (scope : BundleScope) (tenant_id : Option String) (cid : String) (c : BackupContributor Row S)
      (found : Dict (Export Row)) (state : RestoreSummary × S)
      → lookup cid found ≡ none
      → restore_one env scope tenant_id cid c found state ≡ state
  unfolding restore_one
  restore_one-missing scope tenant_id cid c found state missing = ground (arith, missing)

  restore_one-leaving :
      (scope : BundleScope) (tenant_id : Option String) (cid : String) (c : BackupContributor Row S)
      (found : Dict (Export Row)) (state : RestoreSummary × S)
      → declares scope c.scopes ≡ false
      → restore_one env scope tenant_id cid c found state ≡ state
  unfolding restore_one
  restore_one-leaving scope tenant_id cid c found state leaves =
      rw (takes_part-declares scope c, leaves, restore_one) refl

  restore_one-taking :
      (scope : BundleScope) (tenant_id : Option String) (cid : String) (c : BackupContributor Row S)
      (found : Dict (Export Row)) (summary : RestoreSummary) (store : S) (e : Export Row)
      → declares scope c.scopes ≡ true
      → lookup cid found ≡ some e
      → let (r, store') = c.restore scope tenant_id e.rows e.files store in
        restore_one env scope tenant_id cid c found (summary, store)
        ≡ (note env cid r summary, store')
  unfolding restore_one
  restore_one-taking scope tenant_id cid c found summary store e takes there =
      rw (takes_part-declares scope c, takes, there, restore_one) refl

  -- The summary and the store after calls
  abbrev after_calls :
      BundleScope → Option String → RestoreSummary → S → List (Call Row S) → RestoreSummary × S
  after_calls scope tenant_id summary store cs =
      let (outcomes, after) = carry_out scope tenant_id cs store in
      (then_also env.message summary outcomes, after)

  restore_all-carry_out :
      (scope : BundleScope) (tenant_id : Option String)
      (contributors : Dict (BackupContributor Row S)) (found : Dict (Export Row))
      (summary : RestoreSummary) (store : S)
      → restore_all env scope tenant_id contributors found (summary, store)
        ≡ after_calls scope tenant_id summary store (calls scope contributors found)
  unfolding restore_all
  restore_all-carry_out scope tenant_id [] found summary store =
      ap (λ x. (x, store)) (sym (then_also-nil env summary))
  restore_all-carry_out scope tenant_id ((cid, c) ∷ more) found summary store =
      elim (Option-cases (lookup cid found)) [
        | inl missing ↦
            skip (restore_all-carry_out scope tenant_id more found summary store)
              (restore_one-missing scope tenant_id cid c found (summary, store) missing)
              (ap (λ o. with_call scope cid c o rest) missing)
        | inr (e, there) ↦
            let here = ap (λ o. with_call scope cid c o rest) there in
            elim (Bool-cases (declares scope c.scopes)) [
              | inr leaves ↦
                  skip (restore_all-carry_out scope tenant_id more found summary store)
                    (restore_one-leaving scope tenant_id cid c found (summary, store) leaves)
                    (here ∙ ap (λ b. if b then (cid, c, e.rows, e.files) ∷ rest else rest) leaves)
              | inl takes ↦
                  let (r, store') = c.restore scope tenant_id e.rows e.files store in
                  let (outcomes, after) = carry_out scope tenant_id rest store' in
                  ap (restore_all env scope tenant_id more found)
                    (restore_one-taking scope tenant_id cid c found summary store e takes there)
                  ∙ restore_all-carry_out scope tenant_id more found (note env cid r summary) store'
                  ∙ ap (λ x. (x, after)) (note-then_also env cid r summary outcomes)
                  ∙ ap (after_calls scope tenant_id summary store) (
                      sym (
                        here
                        ∙ ap (λ b. if b then (cid, c, e.rows, e.files) ∷ rest else rest) takes))
            ]
      ]
    where
      rest : List (Call Row S)
      rest = calls scope more found

      skip :
          restore_all env scope tenant_id more found (summary, store)
            ≡ after_calls scope tenant_id summary store rest
          → restore_one env scope tenant_id cid c found (summary, store) ≡ (summary, store)
          → calls scope ((cid, c) ∷ more) found ≡ rest
          → restore_all env scope tenant_id ((cid, c) ∷ more) found (summary, store)
            ≡ after_calls scope tenant_id summary store (calls scope ((cid, c) ∷ more) found)
      skip later unchanged left_out =
          ap (restore_all env scope tenant_id more found) unchanged
          ∙ later
          ∙ ap (after_calls scope tenant_id summary store) (sym left_out)

  restore-resolved :
      (scope : BundleScope) (tenant_id tenant_slug : Option String) (now : ℕ)
      (contributors target : Dict (BackupContributor Row S)) (payloads : Dict (Export Row))
      (store target_store : S)
      → IsExported scope tenant_id store contributors payloads
      → IsFaithful env.formats (manifest_of env scope tenant_slug now payloads) payloads
      → let id = resolve_tenant_id env (manifest_of env scope tenant_slug now payloads) payloads in
        let (outcomes, after) = carry_out scope id (calls scope target payloads) target_store in
        (bundle : String) × (run_full_export env scope tenant_id tenant_slug now contributors store
          ≡ ok bundle)
        × (restore_bundle env target bundle target_store
            ≡ (ok (summary_of env.message outcomes), after))
  unfolding run_full_export restore_bundle
  restore-resolved scope tenant_id tenant_slug now contributors target payloads store target_store
        exported faithful =
      let manifest = manifest_of env scope tenant_slug now payloads in
      (
        build_tarball env.formats manifest payloads,
        rw (collect-IsExported scope tenant_id store contributors payloads exported) refl,
        rw
            (
              extract-build env.formats manifest payloads faithful,
              restore_bundle,
              restore_all-carry_out scope (resolve_tenant_id env manifest payloads) target payloads
                  nothing_restored target_store,
            )
            (ap
              (λ x. (
                ok x,
                (carry_out scope (resolve_tenant_id env manifest payloads)
                    (calls scope target payloads) target_store).1,
              ))
              (then_also-nothing env
                (carry_out scope (resolve_tenant_id env manifest payloads)
                  (calls scope target payloads) target_store).0)),
      )

  -- Where each contributor that declares the scope exports without a raise, and the archive, its
  -- manifest and the rows load again and the contributors' identifiers differ and have no slash, a
  -- full export succeeds, and a restore of its bundle calls the restore of each of the target's
  -- contributors that declares the scope and has something in the bundle, in the order of
  -- registration and with exactly the rows and the files that were exported, for the tenant whose
  -- row of the bundle has the slug that the export was given; the summary names those that
  -- succeed, adds up their rows and has a warning with the error of each of the others.
  pub restore-export :
      (scope : BundleScope) (tenant_id tenant_slug : Option String) (now : ℕ)
      (contributors target : Dict (BackupContributor Row S)) (payloads : Dict (Export Row))
      (store target_store : S)
      → IsExported scope tenant_id store contributors payloads
      → IsFaithful env.formats (manifest_of env scope tenant_slug now payloads) payloads
      → let id = tenant_of env scope tenant_slug payloads in
        let (outcomes, after) = carry_out scope id (calls scope target payloads) target_store in
        (bundle : String) × (run_full_export env scope tenant_id tenant_slug now contributors store
          ≡ ok bundle)
        × (restore_bundle env target bundle target_store
            ≡ (ok (summary_of env.message outcomes), after))
  restore-export scope tenant_id tenant_slug now contributors target payloads store target_store
        exported faithful =
      rw (← resolve_tenant_id-tenant_of env scope tenant_slug now payloads) (
        restore-resolved scope tenant_id tenant_slug now contributors target payloads store
          target_store exported faithful)

  -- The exports agree where no contributor has an `export_delta`.
  collect-delta :
      (scope : BundleScope) (tenant_id : Option String) (since : Option ℕ)
      (exclude_origins : List String) (contributors : Dict (BackupContributor Row S)) (store : S)
      → All (λ (b : String × BackupContributor Row S). b.1.export_delta ≡ none) contributors
      → collect (delta_export scope tenant_id since exclude_origins store) scope contributors
        ≡ collect (full_export scope tenant_id store) scope contributors
  unfolding collect delta_export
  collect-delta scope tenant_id since exclude_origins [] store h = refl
  collect-delta scope tenant_id since exclude_origins ((cid, c) ∷ more) store h =
      rw (collect-delta scope tenant_id since exclude_origins more store h.1, h.0, delta_export)
        refl

  -- Where no contributor can export a delta, a delta export gives the same result as a full
  -- export, a raise included.
  delta-full :
      (scope : BundleScope) (tenant_id tenant_slug : Option String) (since : Option ℕ)
      (exclude_origins : List String) (now : ℕ) (contributors : Dict (BackupContributor Row S))
      (store : S)
      → All (λ (b : String × BackupContributor Row S). b.1.export_delta ≡ none) contributors
      → run_delta_export env scope tenant_id tenant_slug since exclude_origins now contributors
          store
        ≡ run_full_export env scope tenant_id tenant_slug now contributors store
  unfolding run_delta_export run_full_export
  delta-full scope tenant_id tenant_slug since exclude_origins now contributors store h =
      rw (collect-delta scope tenant_id since exclude_origins contributors store h) refl
