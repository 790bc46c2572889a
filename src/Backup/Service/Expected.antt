-- ===== src/Backup/Service/Expected.antt =====
-- What an export and a restore are expected to do, described apart from the code: the calls of the
-- contributors, their outcomes, the summary and the tenant.
use fastapi_modular_template.Base.{
  ℕ, ◌+◌, String, ◌≡◌, refl, ◌⊎◌, filter, ◌==◌, eq_iff, inl, inr, Bool, true, false, Option, none,
  some, List, [], ◌∷◌, ◌++◌, arith, if◌then◌else◌, Option-cases, ◌⧺◌, Dict, lookup, Error, Result,
  ok, err,
}
use fastapi_modular_template.Backup.Bundle.{BundleScope, platform, tenant, Export}
use fastapi_modular_template.Backup.Service.{
  BackupContributor, Platform, RestoreSummary, manifest_of, resolve_tenant_id, tenant_row_id,
}

-- Whether a scope is among those that a contributor declares
abbrev pub declares : BundleScope → List BundleScope → Bool
declares scope [] = false
declares platform (platform ∷ scopes) = true
declares platform (tenant ∷ scopes) = declares platform scopes
declares tenant (tenant ∷ scopes) = true
declares tenant (platform ∷ scopes) = declares tenant scopes

-- What the contributors of the scope export, in their order
abbrev pub IsExported :
    {Row S : Type 0}
    → BundleScope
    → Option String
    → S
    → Dict (BackupContributor Row S)
    → Dict (Export Row)
    → Type 0
IsExported scope tenant_id store [] payloads = payloads ≡ []
IsExported {Row} scope tenant_id store ((cid, c) ∷ more) payloads =
    ((declares scope c.scopes ≡ false) × IsExported scope tenant_id store more payloads)
    ⊎ ((declares scope c.scopes ≡ true)
        × (e : Export Row) × (c.export scope tenant_id store ≡ ok e)
        × (rest : Dict (Export Row)) × (payloads ≡ (cid, e) ∷ rest)
        × IsExported scope tenant_id store more rest)

-- The contributors of the scope that the bundle has something of, each with its rows and files.
abbrev pub Call : Type 0 → Type 0 → Type 0
Call Row S = String × BackupContributor Row S × List Row × List (String × String)

abbrev pub with_call :
    {Row S : Type 0}
    → BundleScope
    → String
    → BackupContributor Row S
    → Option (Export Row)
    → List (Call Row S)
    → List (Call Row S)
with_call scope cid c none rest = rest
with_call scope cid c (some e) rest =
    if declares scope c.scopes then (cid, c, e.rows, e.files) ∷ rest else rest

abbrev pub calls :
    {Row S : Type 0}
    → BundleScope
    → Dict (BackupContributor Row S)
    → Dict (Export Row)
    → List (Call Row S)
calls scope [] found = []
calls scope ((cid, c) ∷ more) found =
    with_call scope cid c (lookup cid found) (calls scope more found)

-- The outcome of each of the calls, made one after the other, and the store after them.
abbrev pub carry_out :
    {Row S : Type 0}
    → BundleScope
    → Option String
    → List (Call Row S)
    → S
    → List (String × Result ℕ) × S
carry_out scope tenant_id [] store = ([], store)
carry_out scope tenant_id ((cid, c, rows, files) ∷ more) store =
    let (r, store') = c.restore scope tenant_id rows files store in
    let (rs, after) = carry_out scope tenant_id more store' in ((cid, r) ∷ rs, after)

abbrev pub restored : List (String × Result ℕ) → List String
restored [] = []
restored ((cid, ok n) ∷ rs) = cid ∷ restored rs
restored ((cid, err e) ∷ rs) = restored rs

abbrev pub rows_upserted : List (String × Result ℕ) → ℕ
rows_upserted [] = 0
rows_upserted ((cid, ok n) ∷ rs) = n + rows_upserted rs
rows_upserted ((cid, err e) ∷ rs) = rows_upserted rs

abbrev pub warnings_of : (Error → String) → List (String × Result ℕ) → List String
warnings_of message [] = []
warnings_of message ((cid, ok n) ∷ rs) = warnings_of message rs
warnings_of message ((cid, err e) ∷ rs) = (cid ⧺ ": " ⧺ message e) ∷ warnings_of message rs

abbrev pub summary_of : (Error → String) → List (String × Result ℕ) → RestoreSummary
summary_of message outcomes = record {
  contributors_restored = restored outcomes;
  total_rows_upserted = rows_upserted outcomes;
  warnings = warnings_of message outcomes;
}

-- A summary, and after it what the outcomes add
abbrev pub then_also : (Error → String) → RestoreSummary → List (String × Result ℕ) → RestoreSummary
then_also message summary outcomes = record {
  contributors_restored = summary.contributors_restored ++ restored outcomes;
  total_rows_upserted = summary.total_rows_upserted + rows_upserted outcomes;
  warnings = summary.warnings ++ warnings_of message outcomes;
}

-- The tenant that a bundle names: the identifier of the first of its tenants with the slug
abbrev pub has_slug : {Row : Type 0} → Platform Row → String → Row → Bool
has_slug env slug row = elim (env.slug_of row) [ none ↦ false | some s ↦ s == slug ]

abbrev pub first_id : {Row : Type 0} → Platform Row → List Row → Option String
first_id env [] = none
first_id env (row ∷ rows) = some (env.id_text row)

abbrev pub tenant_of :
    {Row : Type 0} → Platform Row → BundleScope → Option String → Dict (Export Row) → Option String
tenant_of env platform tenant_slug payloads = none
tenant_of env tenant none payloads = none
tenant_of env tenant (some slug) payloads =
    if slug == "" then none else elim (lookup "tenants" payloads) [
      | none ↦ none
      | some e ↦ first_id env (filter (has_slug env slug) e.rows)
    ]

module _ {Row : Type 0} (env : Platform Row) where
  tenant_row_id-first :
      (slug : String) (rows : List Row)
      → tenant_row_id env slug rows ≡ first_id env (filter (has_slug env slug) rows)
  unfolding tenant_row_id
  tenant_row_id-first slug [] = refl
  tenant_row_id-first slug (row ∷ rows) = elim (Option-cases (env.slug_of row)) [
    | inl none_given ↦ ground (arith, none_given, tenant_row_id-first slug rows)
    | inr (s, given) ↦ ground (arith, given, tenant_row_id-first slug rows)
  ]

  pub resolve_tenant_id-tenant_of :
      (scope : BundleScope) (tenant_slug : Option String) (now : ℕ) (payloads : Dict (Export Row))
      → resolve_tenant_id env (manifest_of env scope tenant_slug now payloads) payloads
        ≡ tenant_of env scope tenant_slug payloads
  unfolding resolve_tenant_id
  resolve_tenant_id-tenant_of platform tenant_slug now payloads = refl
  resolve_tenant_id-tenant_of tenant none now payloads = refl
  resolve_tenant_id-tenant_of tenant (some slug) now payloads =
      elim (Option-cases (lookup "tenants" payloads)) [
        | inl missing ↦ ground (arith, missing, eq_iff slug "")
        | inr (e, there) ↦ ground (arith, there, tenant_row_id-first slug e.rows, eq_iff slug "")
      ]
