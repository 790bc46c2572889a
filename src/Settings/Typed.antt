-- ===== src/Settings/Typed.antt =====
-- What is read of a tier has its schema's types.
use fastapi_modular_template.Base.{
  String, ◌≡◌, refl, ap, ◌∙◌, inl, inr, Bool, true, false, not, ◌&&◌, ◌||◌, Option, none, some,
  List, [], ◌∷◌, arith, ◌==◌, eq_iff, eq_refl, Option-cases, Bool-cases, All, Dict, lookup,
  lookup-alter, Result-cases, ok,
}
use fastapi_modular_template.Settings.Schemas.{
  Value, FieldType, Field, accepts, within, Coercion, validate, global_settings, tenant_settings,
  user_settings, optional_string,
}
use fastapi_modular_template.Settings.Rows.{Setting, list_by_scope}
use fastapi_modular_template.Settings.Service.{
  Json, default_of, stored_from, mask, mask_value, load_tier, get_global, get_tenant, get_user,
}
use fastapi_modular_template.Settings.Loading.{KeepsAccepted}
use fastapi_modular_template.Settings.Validation.{well_formed, validated-head}

-- Every field of a schema has a value that it accepts.
abbrev pub IsTyped : List Field → Dict Value → Type 0
IsTyped fs d =
    All (λ (f : Field). (v : Value) × (lookup f.key d ≡ some v) × (accepts f.kind v ≡ true)) fs

IsTyped-eq : (fs : List Field) (d d' : Dict Value) → d ≡ d' → IsTyped fs d' → IsTyped fs d
IsTyped-eq [] d d' same h = tt
IsTyped-eq (f ∷ fs) d d' same ((v, found, fine), more) =
    ((v, ap (lookup f.key) same ∙ found, fine), IsTyped-eq fs d d' same more)

IsTyped-cons :
    (fs : List Field) (rest : Dict Value) (key : String) (w : Value)
    → default_of fs key ≡ none
    → IsTyped fs rest
    → IsTyped fs ((key, w) ∷ rest)
unfolding lookup default_of
IsTyped-cons [] rest key w new h = tt
IsTyped-cons (f ∷ fs) rest key w new ((v, found, fine), more) = (
  (v, ground (arith, eq_iff f.key key, eq_iff key f.key), fine),
  IsTyped-cons fs rest key w (ground arith) more,
)

is_optional_string : FieldType → Bool
is_optional_string optional_string = true
is_optional_string _ = false

-- A field that is masked may be any text.
unfoldable masked_is_text : List Field → Bool
masked_is_text [] = true
masked_is_text (f ∷ fs) =
    (not ("smtp_password" == f.key) || is_optional_string f.kind) && masked_is_text fs

mask_value-fine :
    (kind : FieldType) (v : Value)
    → is_optional_string kind ≡ true
    → accepts kind v ≡ true
    → accepts kind (mask_value v) ≡ true
unfolding is_optional_string accepts
mask_value-fine kind v text fine = ground arith

mask-IsTyped :
    (fs : List Field) (d : Dict Value)
    → masked_is_text fs ≡ true
    → IsTyped fs d
    → IsTyped fs (mask d)
unfolding masked_is_text mask
mask-IsTyped [] d text h = tt
mask-IsTyped (f ∷ fs) d text ((v, found, fine), more) =
    let rest = mask-IsTyped fs d (ground arith) more in
    elim (Bool-cases ("smtp_password" == f.key)) [
      | inl masked ↦ (
        (
          mask_value v,
          ground (arith, masked, found, lookup-alter "smtp_password" f.key mask_value d),
          mask_value-fine f.kind v (ground (arith, masked)) fine,
        ),
        rest,
      )
      | inr plain ↦ (
        (v, ground (arith, plain, found, lookup-alter "smtp_password" f.key mask_value d), fine),
        rest,
      )
    ]

module _ (coerce : Coercion) (keeps : KeepsAccepted coerce) where
  validate-IsTyped :
      (fs : List Field) (given d : Dict Value)
      → well_formed fs ≡ true
      → validate coerce fs given ≡ ok d
      → IsTyped fs d
  unfolding well_formed
  validate-IsTyped [] given d w h = tt
  validate-IsTyped (f ∷ fs) given d w h =
      let (rest, v, e, same, fine) = validated-head coerce keeps f fs given d w h in
      let held : lookup f.key ((f.key, v) ∷ rest) ≡ some v =
        unfold lookup in ground (arith, eq_refl f.key) in
      IsTyped-eq (f ∷ fs) d ((f.key, v) ∷ rest) same (
        (v, held, fine),
        IsTyped-cons fs rest f.key v (ground (arith, Option-cases (default_of fs f.key)))
            (validate-IsTyped fs given rest (ground arith) e),
      )

  load_tier-IsTyped :
      {J : Type 0} (json : Json J) (fs : List Field) (scope : String) (owner : Option String)
      (settings : List (Setting J)) (d : Dict Value)
      → well_formed fs ≡ true
      → load_tier json coerce fs scope owner settings ≡ ok d
      → IsTyped fs d
  unfolding load_tier
  load_tier-IsTyped json fs scope owner settings d w h =
      elim (Result-cases (stored_from json (list_by_scope scope owner settings) [])) [
        | inr (e, refused) ↦ ground (arith, refused)
        | inl (stored, read) ↦ validate-IsTyped fs stored d w (ground (arith, read))
      ]

  global-IsTyped :
      {J : Type 0} (json : Json J) (settings : List (Setting J)) (d : Dict Value)
      → well_formed global_settings ≡ true
      → masked_is_text global_settings ≡ true
      → get_global json coerce settings ≡ ok d
      → IsTyped global_settings d
  unfolding get_global
  global-IsTyped json settings d w text h =
      elim (Result-cases (load_tier json coerce global_settings "global" none settings)) [
        | inr (e, refused) ↦ absurd (ground (arith, refused))
        | inl (current, read) ↦ IsTyped-eq global_settings d (mask current) (ground (arith, read)) (
            mask-IsTyped global_settings current text
              (load_tier-IsTyped json global_settings "global" none settings current w read))
      ]

  -- What is read of the platform's, a tenant's and a user's settings has for every field of the
  -- tier's schema a value that the field accepts, the mask of the mail password included, if a
  -- value that a field accepts is left as it is.
  pub loaded-IsTyped :
      {J : Type 0} (json : Json J) (settings : List (Setting J)) (tenant_id user_id : String)
      (global tenant user : Dict Value)
      → get_global json coerce settings ≡ ok global
      → get_tenant json coerce tenant_id settings ≡ ok tenant
      → get_user json coerce user_id settings ≡ ok user
      → IsTyped global_settings global × IsTyped tenant_settings tenant × IsTyped user_settings user
  unfolding get_tenant get_user well_formed accepts within default_of masked_is_text
      is_optional_string
  loaded-IsTyped json settings tenant_id user_id global tenant user g t u = (
    global-IsTyped json settings global refl refl g,
    load_tier-IsTyped json tenant_settings "tenant" (some tenant_id) settings tenant refl t,
    load_tier-IsTyped json user_settings "user" (some user_id) settings user refl u,
  )
