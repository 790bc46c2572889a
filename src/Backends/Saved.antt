-- ===== src/Backends/Saved.antt =====
-- What saving and loading do to the keys and to what the environment sets.
use fastapi_modular_template.Base.{
  String, ◌≡◌, refl, ◌∙◌, ap, inl, inr, true, false, some, List, [], ◌∷◌, map, arith, ◌==◌, eq_iff,
  elem, All, Bool-cases, Dict, lookup, insert, remove, lookup-insert, lookup-remove, lookup-alter,
  Result-cases, ok,
}
use mathlib.Core.Option
use fastapi_modular_template.Settings.Schemas.{
  Value, Coercion, global_settings, endpoint, endpoint_setting, accepts,
}
use fastapi_modular_template.Settings.Rows.{Setting}
use fastapi_modular_template.Settings.Loading.{LoadsBack, KeepsAccepted, one_row_each}
use fastapi_modular_template.Settings.Validation.{distinct}
use fastapi_modular_template.Settings.RoundTrip.{set_global-stored, set_global-get_global}
use fastapi_modular_template.Settings.Secrets.{lookup-merge, kind_of, lookup-validated}
use fastapi_modular_template.Settings.Service.{
  Json, merge, mask, mask_value, get_global, set_global, incoming, unmasked,
}
use fastapi_modular_template.Backends.{Provider, BackendConfig, setting_map, load_from_settings}
use fastapi_modular_template.Backends.Endpoints.{
  Card, Given, card, complete, ai_api_key_masked, strip_masked, body_of, ai_config_save,
}

-- In a merge the given value of a key wins.
merge-given :
    (key : String) (v : Value) (current given : Dict Value)
    → distinct given ≡ true
    → lookup key given ≡ some v
    → lookup key (merge current given) ≡ some v
unfolding merge lookup distinct
merge-given key v current [] d h = ground arith
merge-given key v current ((k, w) ∷ given) d h = elim (Bool-cases (k == key)) [
  | inl same ↦ ground (
    arith,
    same,
    eq_iff k key,
    lookup-merge key (insert k w current) given,
    lookup-insert k key w current,
  )
  | inr other ↦ ground (arith, merge-given key v (insert k w current) given, other)
]

All-elem {κ} :
    (P : String → Type κ) (keys : List String) (key : String)
    → All P keys
    → elem key keys ≡ true
    → P key
All-elem P [] key h found = absurd (cc)
All-elem P (k ∷ keys) key h found = elim (Bool-cases (k == key)) [
  | inl same ↦ rw (← (eq_iff k key).0 same) h.0
  | inr other ↦ All-elem P keys key h.1 (ground (arith, other))
]

abbrev pub endpoint_keys : List String
endpoint_keys = map (λ (b : Provider × String). b.1) setting_map

endpoint_key-kind :
    (key : String)
    → elem key endpoint_keys ≡ true
    → (kind_of global_settings key ≡ some endpoint_setting) × (("smtp_password" == key) ≡ false)
unfolding kind_of
endpoint_key-kind key h =
    All-elem
      (λ k. (kind_of global_settings k ≡ some endpoint_setting) × (("smtp_password" == k) ≡ false))
      endpoint_keys key
      (
        (refl, refl),
        ((refl, refl), ((refl, refl), ((refl, refl), ((refl, refl), ((refl, refl), tt))))),
      )
      h

incoming-other :
    (key : String) (given : Dict Value)
    → ("smtp_password" == key) ≡ false
    → lookup key (incoming given) ≡ lookup key given
incoming-other key given other = ground (arith, lookup-remove "smtp_password" key given)

remove-distinct :
    (key : String) (d : Dict Value) → distinct d ≡ true → distinct (remove key d) ≡ true
unfolding distinct remove
remove-distinct key [] h = h
remove-distinct key ((k, v) ∷ d) h = ground (arith, remove-distinct key d, lookup-remove key k d)

incoming-distinct : (given : Dict Value) → distinct given ≡ true → distinct (incoming given) ≡ true
incoming-distinct given h = ground (arith, remove-distinct "smtp_password" given)

lookup-body :
    (key : String) (body : Dict Given)
    → lookup key (body_of body) ≡ Option.map strip_masked (lookup key body)
unfolding lookup body_of
lookup-body key [] = refl
lookup-body key ((k, g) ∷ body) = ground (arith, lookup-body key body)

module _ {J : Type 0} (json : Json J) (back : LoadsBack json) (coerce : Coercion)
    (keeps : KeepsAccepted coerce) where
  -- An endpoint that a change gives is stored whole.
  endpoint-stored :
      (settings : List (Setting J)) (by key : String) (given shown : Dict Value) (v : Value)
      → one_row_each settings ≡ true
      → (set_global json coerce given by settings).0 ≡ ok shown
      → distinct given ≡ true
      → elem key endpoint_keys ≡ true
      → lookup key given ≡ some v
      → accepts endpoint_setting v ≡ true
      → (get_global json coerce (set_global json coerce given by settings).1 ≡ ok shown)
        × (lookup key shown ≡ some v)
  unfolding mask
  endpoint-stored settings by key given shown v one done apart named held fine =
      let (old, current, password, d, read, kept, valid, did, seen) =
        set_global-stored json back coerce keeps settings by given shown done in
      let (kind, other) = endpoint_key-kind key named in
      let merged : lookup key (merge (unmasked password current) (incoming given)) ≡ some v =
        merge-given key v (unmasked password current) (incoming given)
          (incoming-distinct given apart) (incoming-other key given other ∙ held) in
      (
        set_global-get_global json back coerce keeps settings by given shown one done,
        ground (
          arith,
          seen,
          other,
          lookup-alter "smtp_password" key mask_value d,
          lookup-validated coerce global_settings
              (merge (unmasked password current) (incoming given)) d key endpoint_setting v keeps
              kind merged fine valid,
        ),
      )

  save-settings :
      (environ : String → String) (settings : List (Setting J)) (config : BackendConfig)
      (by : String) (body : Dict Given)
      → (ai_config_save json coerce environ body by (settings, config)).1
        ≡ (set_global json coerce (body_of body) by settings).1
  unfolding ai_config_save
  save-settings environ settings config by body =
      let saved = set_global json coerce (body_of body) by settings in
      ground (
        arith,
        Result-cases saved.0,
        Result-cases (load_from_settings environ (some (get_global json coerce saved.1)) config),
      )

  -- After a successful saving of an AI endpoint with the mask for its key, the settings are read
  -- with the empty key for it, whatever key was stored before, if every setting has one row, no
  -- key of the body is repeated, JSON loads what it dumped and a value that a field accepts is
  -- left as it is.
  pub masked_key_erased :
      (environ : String → String) (settings : List (Setting J)) (config : BackendConfig)
      (by key : String) (body : Dict Given) (c : Card)
      → one_row_each settings ≡ true
      → distinct (body_of body) ≡ true
      → elem key endpoint_keys ≡ true
      → lookup key body ≡ some (card c)
      → c.api_key ≡ some ai_api_key_masked
      → (ai_config_save json coerce environ body by (settings, config)).0 ≡ ok tt
      → (shown : Dict Value) × (get_global json coerce
            (ai_config_save json coerce environ body by (settings, config)).1
          ≡ ok shown)
        × (lookup key shown ≡ some (endpoint (record (complete c) { api_key = "" })))
  unfolding ai_config_save strip_masked complete accepts
  masked_key_erased environ settings config by key body c one apart named held masked done =
      elim (Result-cases (set_global json coerce (body_of body) by settings).0) [
        | inr (e, refused) ↦ ground (arith, refused)
        | inl (shown, saved) ↦
            let stored =
              endpoint-stored settings by key (body_of body) shown
                (endpoint (record (complete c) { api_key = "" })) one saved apart named
                (lookup-body key body ∙ ground (arith, held, masked)) refl in
            (
              shown,
              ap (get_global json coerce) (save-settings environ settings config by body)
                  ∙ stored.0,
              stored.1,
            )
      ]
