-- ===== src/Settings/Secrets.antt =====
-- The mail password: never shown, and kept by a change that leaves it alone.
use fastapi_modular_template.Base.{
  String, ◌≡◌, refl, ◌∙◌, ◌⊎◌, inl, inr, true, false, Option, none, some, List, [], ◌∷◌, arith,
  ◌==◌, eq_iff, eq_refl, if◌then◌else◌, Dict, lookup, insert, lookup-alter, lookup-insert,
  lookup-remove, Result-cases, ok,
}
use fastapi_modular_template.Settings.Validation.{well_formed, validate-distinct}
use fastapi_modular_template.Settings.Schemas.{
  Value, FieldType, Field, within, accepts, Coercion, validate, smtp_password_masked,
  global_settings, words, optional_string,
}
use fastapi_modular_template.Settings.Rows.{Setting}
use fastapi_modular_template.Settings.Loading.{LoadsBack, KeepsAccepted}
use fastapi_modular_template.Settings.RoundTrip.{set_global-stored, all-lookup}
use fastapi_modular_template.Settings.Service.{
  Json, merge, is_truthy, mask_value, mask, is_left_alone, default_of, incoming, load_tier,
  get_global, real_smtp_password, set_global, unmasked,
}

-- A reading of the platform's settings shows the mask in place of a password that is set.
get_global-hides :
    {J : Type 0} (json : Json J) (coerce : Coercion) (settings : List (Setting J)) (d : Dict Value)
    (v : Value)
    → get_global json coerce settings ≡ ok d
    → lookup "smtp_password" d ≡ some v
    → (v ≡ words smtp_password_masked) ⊎ (is_truthy v ≡ false)
unfolding get_global mask
get_global-hides json coerce settings d v h found =
    elim (Result-cases (load_tier json coerce global_settings "global" none settings)) [
      | inr (e, refused) ↦ ground (arith, refused)
      | inl (current, read) ↦ ground (
        arith,
        read,
        lookup-alter "smtp_password" "smtp_password" mask_value current,
        eq_refl "smtp_password",
      )
    ]

pub lookup-merge :
    (key : String) (current given : Dict Value)
    → lookup key given ≡ none
    → lookup key (merge current given) ≡ lookup key current
unfolding merge lookup
lookup-merge key current [] h = refl
lookup-merge key current ((k, v) ∷ given) h =
    ground (arith, lookup-merge key (insert k v current) given, lookup-insert k key v current)

unfoldable pub kind_of : List Field → String → Option FieldType
kind_of [] key = none
kind_of (f ∷ fs) key = if f.key == key then some f.kind else kind_of fs key

pub lookup-validated :
    (coerce : Coercion) (fs : List Field) (given d : Dict Value) (key : String) (kind : FieldType)
    (v : Value)
    → KeepsAccepted coerce
    → kind_of fs key ≡ some kind
    → lookup key given ≡ some v
    → accepts kind v ≡ true
    → validate coerce fs given ≡ ok d
    → lookup key d ≡ some v
unfolding validate kind_of lookup
lookup-validated coerce [] given d key kind v keeps field held fine valid = ground arith
lookup-validated coerce (f ∷ fs) given d key kind v keeps field held fine valid =
    elim (Result-cases (validate coerce fs given)) [
      | inr (e, refused) ↦ ground (arith, refused)
      | inl (rest, read) ↦ ground (
        arith,
        read,
        keeps kind v fine,
        eq_iff f.key key,
        lookup-validated coerce fs given rest key kind v keeps,
      )
    ]

incoming-absent :
    (given : Dict Value)
    → is_left_alone (lookup "smtp_password" given) ≡ true
    → lookup "smtp_password" (incoming given) ≡ none
incoming-absent given alone =
    ground (arith, lookup-remove "smtp_password" "smtp_password" given, eq_refl "smtp_password")

kept-validated :
    (coerce : Coercion) (current given d : Dict Value) (password : Value)
    → KeepsAccepted coerce
    → is_left_alone (lookup "smtp_password" given) ≡ true
    → accepts optional_string password ≡ true
    → validate coerce global_settings (merge (unmasked password current) (incoming given)) ≡ ok d
    → lookup "smtp_password" d ≡ some password
unfolding kind_of
kept-validated coerce current given d password keeps alone fine valid =
    lookup-validated coerce global_settings (merge (unmasked password current) (incoming given)) d
      "smtp_password" optional_string password keeps refl
      (lookup-merge "smtp_password" (unmasked password current) (incoming given)
          (incoming-absent given alone)
        ∙ lookup-insert "smtp_password" "smtp_password" password current)
      fine valid

-- A change of the platform's settings that succeeds and gives no mail password, the empty one or
-- the mask leaves the stored password, a text or None, as it is, if JSON loads what it dumped and
-- a value that a field accepts is left as it is.
pub set_global-keeps_password :
    {J : Type 0} (json : Json J) (coerce : Coercion) (settings : List (Setting J)) (by : String)
    (given shown : Dict Value) (password : Value)
    → LoadsBack json
    → KeepsAccepted coerce
    → is_left_alone (lookup "smtp_password" given) ≡ true
    → real_smtp_password json coerce settings ≡ ok password
    → accepts optional_string password ≡ true
    → (set_global json coerce given by settings).0 ≡ ok shown
    → real_smtp_password json coerce (set_global json coerce given by settings).1 ≡ ok password
unfolding real_smtp_password well_formed accepts within default_of
set_global-keeps_password json coerce settings by given shown password back keeps alone stored fine
      h =
    let (old, current, password', d, read, kept, valid, did, seen) =
      set_global-stored json back coerce keeps settings by given shown h in
    let same : password' ≡ password = ground (arith, kept, stored) in
    ground (
      arith,
      did,
      kept-validated coerce current given d password' keeps alone (ground (arith, same, fine))
          valid,
      same,
      back password,
      all-lookup json back coerce keeps "global" none (some by) d settings "smtp_password"
          (validate-distinct coerce keeps global_settings _ d refl valid),
    )
