-- ===== src/Settings/RoundTrip.antt =====
-- What a change of a tier stores is what the tier then holds.
use fastapi_modular_template.Base.{
  String, ◌≡◌, refl, inl, inr, true, Option, none, some, List, [], ◌∷◌, arith, eq_iff, Option-cases,
  Dict, lookup, Result-cases, ok,
}
use fastapi_modular_template.Settings.Rows.{get_setting, Setting, list_by_scope, upsert}
use fastapi_modular_template.Settings.Schemas.{
  Value, Field, accepts, Coercion, validate, within, tenant_settings, user_settings,
  global_settings,
}
use fastapi_modular_template.Settings.Validation.{
  distinct, well_formed, validate-distinct, validate-again,
}
use fastapi_modular_template.Settings.Loading.{
  KeepsAccepted, LoadsBack, one_row_each, json_at, json-upsert, one_row-upsert, loads_all,
  loads_all-upsert, loaded, loads_all-loaded, loaded-present,
}
use fastapi_modular_template.Settings.Service.{
  default_of, Json, stored_from, load_tier, upsert_all, merge, store_tier, get_tenant, set_tenant,
  get_user, set_user, get_global, set_global, mask, unmasked, incoming, real_smtp_password,
}

module _ {J : Type 0} (json : Json J) (back : LoadsBack json) (coerce : Coercion)
    (keeps : KeepsAccepted coerce) (scope : String) (scope_id : Option String)
    (by : Option String) where
  all-one_row :
      (d : Dict Value) (settings : List (Setting J))
      → one_row_each settings ≡ true
      → one_row_each (upsert_all json coerce scope scope_id by d settings) ≡ true
  unfolding upsert_all
  all-one_row [] settings h = h
  all-one_row ((key, v) ∷ more) settings h =
      all-one_row more _ (one_row-upsert scope scope_id key (json.dumps v) by settings h)

  all-loads :
      (d : Dict Value) (settings : List (Setting J))
      → loads_all json scope scope_id settings ≡ true
      → loads_all json scope scope_id (upsert_all json coerce scope scope_id by d settings) ≡ true
  unfolding upsert_all
  all-loads [] settings h = h
  all-loads ((key, v) ∷ more) settings h =
      all-loads more _ (loads_all-upsert json scope scope_id key by v settings back h)

  -- The row of a key after all of a dictionary has been stored
  abbrev pub json_or : Option Value → Option J → Option J
  json_or none old = old
  json_or (some v) old = some (json.dumps v)

  pub all-lookup :
      (d : Dict Value) (settings : List (Setting J)) (key : String)
      → distinct d ≡ true
      → json_at
          (get_setting scope scope_id key (upsert_all json coerce scope scope_id by d settings))
        ≡ json_or (lookup key d) (json_at (get_setting scope scope_id key settings))
  unfolding upsert_all distinct lookup
  all-lookup [] settings key h = refl
  all-lookup ((k, v) ∷ more) settings key h = ground (
    arith,
    all-lookup more (upsert scope scope_id k (json.dumps v) by settings) key,
    json-upsert scope scope_id k key (json.dumps v) by settings,
    eq_iff k key,
  )

  stored-lookup :
      (d stored : Dict Value) (settings : List (Setting J)) (key : String) (v : Value)
      → distinct d ≡ true
      → one_row_each settings ≡ true
      → stored_from json
          (list_by_scope scope scope_id (upsert_all json coerce scope scope_id by d settings))
          []
        ≡ ok stored
      → lookup key d ≡ some v
      → lookup key stored ≡ some v
  stored-lookup d stored settings key v apart one e held =
      let settings' = upsert_all json coerce scope scope_id by d settings in
      elim (Option-cases (get_setting scope scope_id key settings')) [
        | inl absent ↦ ground (arith, absent, held, all-lookup d settings key apart)
        | inr (row, found) ↦
            loaded-present json scope scope_id settings' [] stored key row v
              (all-one_row d settings one) found
              (ground (arith, found, held, all-lookup d settings key apart, back v)) e
      ]

  -- A validated dictionary that is stored over rows that load is what the tier holds.
  load-upsert_all :
      (fs : List Field) (given d old : Dict Value) (settings : List (Setting J))
      → well_formed fs ≡ true
      → one_row_each settings ≡ true
      → stored_from json (list_by_scope scope scope_id settings) [] ≡ ok old
      → validate coerce fs given ≡ ok d
      → load_tier json coerce fs scope scope_id
          (upsert_all json coerce scope scope_id by d settings)
        ≡ ok d
  unfolding load_tier
  load-upsert_all fs given d old settings w one before valid =
      let settings' = upsert_all json coerce scope scope_id by d settings in
      let (stored, e) =
        loads_all-loaded json scope scope_id settings' []
          (all-loads d settings (loaded json scope scope_id settings [] old before)) in
      ground (
        arith,
        e,
        validate-again coerce keeps fs given d stored w valid (λ key v held.
            stored-lookup d stored settings key v
              (validate-distinct coerce keeps fs given d w valid) one e held),
      )

-- The tenants' and the users' settings
module _ {J : Type 0} (json : Json J) (back : LoadsBack json) (coerce : Coercion)
    (keeps : KeepsAccepted coerce) where
  store-load :
      (fs : List Field) (scope : String) (scope_id : Option String) (by : String)
      (given shown : Dict Value) (settings : List (Setting J))
      → well_formed fs ≡ true
      → one_row_each settings ≡ true
      → (store_tier json coerce fs scope scope_id by given settings).0 ≡ ok shown
      → load_tier json coerce fs scope scope_id
          (store_tier json coerce fs scope scope_id by given settings).1
        ≡ ok shown
  unfolding store_tier load_tier
  store-load fs scope scope_id by given shown settings w one h =
      elim (Result-cases (stored_from json (list_by_scope scope scope_id settings) [])) [
        | inl (old, read) ↦ elim (Result-cases (validate coerce fs old)) [
          | inl (current, ok_old) ↦ elim (Result-cases (validate coerce fs (merge current given))) [
            | inl (d, valid) ↦ ground (
              arith,
              read,
              ok_old,
              valid,
              load-upsert_all json back coerce keeps scope scope_id (some by) fs
                  (merge current given) d old settings w one read valid,
            )
            | inr (e, refused) ↦ ground (arith, read, ok_old, refused)
          ]
          | inr (e, refused) ↦ ground (arith, read, refused)
        ]
        | inr (e, unread) ↦ ground (arith, unread)
      ]

  -- What a change of a tenant's and a change of a user's settings that succeed return is what the
  -- next readings of them return, if every setting has one row, JSON loads what it dumped and a
  -- value that a field accepts is left as it is.
  set-get :
      (settings : List (Setting J)) (owner by : String) (given shown given' shown' : Dict Value)
      → one_row_each settings ≡ true
      → (set_tenant json coerce owner given by settings).0 ≡ ok shown
      → (set_user json coerce owner given' settings).0 ≡ ok shown'
      → (get_tenant json coerce owner (set_tenant json coerce owner given by settings).1 ≡ ok shown)
        × (get_user json coerce owner (set_user json coerce owner given' settings).1 ≡ ok shown')
  unfolding set_tenant get_tenant set_user get_user well_formed accepts within default_of
  set-get settings owner by given shown given' shown' one h k = (
    store-load tenant_settings "tenant" (some owner) by given shown settings refl one h,
    store-load user_settings "user" (some owner) owner given' shown' settings refl one k,
  )

  -- A change of the platform's settings that returns has stored a validated dictionary.
  pub set_global-stored :
      (settings : List (Setting J)) (by : String) (given shown : Dict Value)
      → (set_global json coerce given by settings).0 ≡ ok shown
      → (old : Dict Value) × (current : Dict Value) × (password : Value) × (d : Dict Value)
        × (stored_from json (list_by_scope "global" none settings) [] ≡ ok old)
        × (real_smtp_password json coerce settings ≡ ok password)
        × (validate coerce global_settings (merge (unmasked password current) (incoming given))
            ≡ ok d)
        × (set_global json coerce given by settings
            ≡ (ok (mask d), upsert_all json coerce "global" none (some by) d settings))
        × (shown ≡ mask d)
  unfolding set_global get_global load_tier
  set_global-stored settings by given shown h =
      elim (Result-cases (stored_from json (list_by_scope "global" none settings) [])) [
        | inr (e, unread) ↦ ground (arith, unread)
        | inl (old, read) ↦ elim (Result-cases (validate coerce global_settings old)) [
          | inr (e, refused) ↦ ground (arith, read, refused)
          | inl (current, fine) ↦ elim (Result-cases (real_smtp_password json coerce settings)) [
            | inr (e, lost) ↦ ground (arith, read, fine, lost)
            | inl (password, kept) ↦
                elim (Result-cases (
                  validate coerce global_settings
                    (merge (unmasked password (mask current)) (incoming given)))) [
                      | inr (e, refused) ↦ ground (arith, read, fine, kept, refused)
                      | inl (d, valid) ↦ (
                        old,
                        mask current,
                        password,
                        d,
                        read,
                        kept,
                        valid,
                        ground (arith, read, fine, kept, valid),
                        ground (arith, read, fine, kept, valid),
                      )
                    ]
          ]
        ]
      ]

  -- What a change of the platform's settings that succeeds returns is what the next reading of
  -- them returns, if every setting has one row, JSON loads what it dumped and a value that a field
  -- accepts is left as it is.
  pub set_global-get_global :
      (settings : List (Setting J)) (by : String) (given shown : Dict Value)
      → one_row_each settings ≡ true
      → (set_global json coerce given by settings).0 ≡ ok shown
      → get_global json coerce (set_global json coerce given by settings).1 ≡ ok shown
  unfolding get_global well_formed accepts within default_of
  set_global-get_global settings by given shown one h =
      let (old, current, password, d, read, kept, valid, did, seen) =
        set_global-stored settings by given shown h in
      ground (
        arith,
        did,
        seen,
        load-upsert_all json back coerce keeps "global" none (some by) global_settings
            (merge (unmasked password current) (incoming given)) d old settings refl one read valid,
      )
