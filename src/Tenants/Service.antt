-- ===== src/Tenants/Service.antt =====
-- The tenants service that changes tenants: `_slugify`, `create`, `update` and `list` of
-- scottycore/services/tenants/service.py with the rows of scottycore/services/tenants/repository.py.
-- A table of tenants has unique names and slugs; the database raises where a change breaks that.
use fastapi_modular_template.Base.{
  ℕ, zero, suc, ◌-◌, ◌*◌, String, Bool, true, false, not, ◌&&◌, ◌||◌, Option, none, some, List, [],
  ◌∷◌, ◌++◌, ◌==◌, eqb, if◌then◌else◌, is_some, length, filter, take, elem, str_leb, truthy, Result,
  conflict_error, not_found_error, other_error, ok, err,
}
use Prim.Native.Char.{Char, code}
use fastapi_modular_template.Files.{lstrip, rstrip}
use fastapi_modular_template.Tenants.{Tenant, tenant_by_slug, update_tenants}

-- `\w` and `\s`, and `str.lower`
pub record Letters : Type 0 where
  pub word : Char → Bool
  pub space : Char → Bool
  pub lower : String → String

abbrev pub strip : (Char → Bool) → String → String
strip p s = rstrip p (lstrip p s)

abbrev pub is_hyphen : Char → Bool
is_hyphen c = eqb (code c) b'-'

abbrev pub is_gap : Letters → Char → Bool
is_gap l c = l.space c || eqb (code c) b'_'

-- `re.sub` of the characters outside a class by nothing
unfoldable pub keep : (Char → Bool) → String → String
keep p String.[] = ""
keep p (String.◌∷◌ c s) = let rest = keep p s in if p c then String.◌∷◌ c rest else rest

-- `re.sub` of each run of a class by a hyphen; `inside` is whether a run goes on
unfoldable pub collapse : (Char → Bool) → Bool → String → String
collapse p inside String.[] = ""
collapse p inside (String.◌∷◌ c s) =
    let rest = collapse p (p c) s in
    if p c then (if inside then rest else String.◌∷◌ "-" rest) else String.◌∷◌ c rest

unfoldable pub slugify : Letters → String → String
slugify l name = strip is_hyphen (
    collapse is_hyphen false (
      collapse (is_gap l) false
        (keep (λ c. l.word c || l.space c || is_hyphen c) (strip l.space (l.lower name)))))

-- Another tenant has the name or the slug.
unfoldable pub is_taken : String → String → String → List Tenant → Bool
is_taken id name slug [] = false
is_taken id name slug (t ∷ ts) =
    (not (t.id == id) && (t.name == name || t.slug == slug)) || is_taken id name slug ts

-- `id` is the new identifier.
unfoldable pub create : Letters → String → String → List Tenant → Result Tenant × List Tenant
create l name id tenants =
    let slug = slugify l name in
    let made : Tenant = record {
      id = id;
      name = name;
      slug = slug;
      api_key_hash = none;
      api_key_prefix = none;
      is_active = true;
    } in
    if is_some (tenant_by_slug slug tenants)
    then (err (conflict_error "Tenant"), tenants)
    else if is_taken id name slug tenants
    then (err (other_error "IntegrityError"), tenants)
    else (ok made, tenants ++ made ∷ [])

-- `TenantUpdate`: what is not given, or None, stays.
pub record TenantUpdate : Type 0 where
  pub name : Option String
  pub is_active : Option Bool

abbrev or_keep {ℓ} : {A : Type ℓ} → A → Option A → A
or_keep old none = old
or_keep old (some new) = new

abbrev new_slug : Letters → String → Option String → String
new_slug l old name = elim (truthy name) [ none ↦ old | some n ↦ slugify l n ]

unfoldable pub updated : Letters → TenantUpdate → Tenant → Tenant
updated l given t = record t {
  name = or_keep t.name given.name;
  slug = new_slug l t.slug given.name;
  is_active = or_keep t.is_active given.is_active;
}

unfoldable pub update : Letters → String → TenantUpdate → List Tenant → Result Tenant × List Tenant
update l slug given tenants = elim (tenant_by_slug slug tenants) [
  | none ↦ (err (not_found_error "Tenant"), tenants)
  | some t ↦
      let t' = updated l given t in
      if is_taken t.id t'.name t'.slug tenants
      then (err (other_error "IntegrityError"), tenants)
      else (ok t', update_tenants t.id (updated l given) tenants)
]

-- `TenantFilter`; `matches` is the database's `ilike`.
pub record TenantFilter : Type 0 where
  pub is_active : Option Bool
  pub search : Option String
  pub page : ℕ
  pub per_page : ℕ

abbrev same_flag : Bool → Bool → Bool
same_flag true b = b
same_flag false b = not b

abbrev is_allowed : Option (List String) → Tenant → Bool
is_allowed none t = true
is_allowed (some slugs) t = elem t.slug slugs

abbrev is_wanted : (String → String → Bool) → TenantFilter → Tenant → Bool
is_wanted matches filters t =
    elim filters.is_active [ none ↦ true | some b ↦ same_flag b t.is_active ]
    && elim (truthy filters.search) [ none ↦ true | some s ↦ matches s t.name ]

unfoldable pub insert_by_name : Tenant → List Tenant → List Tenant
insert_by_name t [] = t ∷ []
insert_by_name t (u ∷ us) = if str_leb t.name u.name then t ∷ u ∷ us else u ∷ insert_by_name t us

unfoldable pub ordered_by_name : List Tenant → List Tenant
ordered_by_name [] = []
ordered_by_name (t ∷ ts) = insert_by_name t (ordered_by_name ts)

unfoldable pub skip : ℕ → List Tenant → List Tenant
skip zero ts = ts
skip (suc n) [] = []
skip (suc n) (t ∷ ts) = skip n ts

-- The page of the tenants that are allowed and wanted, and the number of all of them
unfoldable pub list_tenants :
    (String → String → Bool) → TenantFilter → Option (List String) → List Tenant → List Tenant × ℕ
list_tenants matches filters allowed tenants =
    let found =
      filter (λ (t : Tenant). is_allowed allowed t && is_wanted matches filters t) tenants in
    (
      take filters.per_page (skip ((filters.page - 1) * filters.per_page) (ordered_by_name found)),
      length found,
    )
