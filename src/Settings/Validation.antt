-- ===== src/Settings/Validation.antt =====
-- What the validation of a tier's values gives, and that it gives the same of what it gave.
use fastapi_modular_template.Base.{
  String, ◌≡◌, inl, inr, Bool, true, not, ◌&&◌, some, List, [], ◌∷◌, arith, eq_iff, eq_refl,
  Option-cases, is_some, Dict, lookup, Result-cases, ok,
}
use fastapi_modular_template.Settings.Schemas.{Value, Field, accepts, Coercion, validate}
use fastapi_modular_template.Settings.Service.{default_of}
use fastapi_modular_template.Settings.Loading.{KeepsAccepted}

unfoldable pub distinct : Dict Value → Bool
distinct [] = true
distinct ((key, v) ∷ more) = not (is_some (lookup key more)) && distinct more

-- The keys of a schema differ, and its fields accept their defaults.
unfoldable pub well_formed : List Field → Bool
well_formed [] = true
well_formed (f ∷ fs) =
    not (is_some (default_of fs f.key)) && accepts f.kind f.default && well_formed fs

module _ (coerce : Coercion) (keeps : KeepsAccepted coerce) where
  lookup-validate :
      (fs : List Field) (given d : Dict Value) (key : String)
      → validate coerce fs given ≡ ok d
      → is_some (lookup key d) ≡ is_some (default_of fs key)
  unfolding validate default_of lookup
  lookup-validate [] given d key h = ground arith
  lookup-validate (f ∷ fs) given d key h = elim (Result-cases (validate coerce fs given)) [
    | inl (rest, e) ↦ ground (arith, e, lookup-validate fs given rest key e)
    | inr (e, refused) ↦ ground (arith, refused)
  ]

  pub validate-distinct :
      (fs : List Field) (given d : Dict Value)
      → well_formed fs ≡ true
      → validate coerce fs given ≡ ok d
      → distinct d ≡ true
  unfolding validate distinct well_formed
  validate-distinct [] given d w h = ground arith
  validate-distinct (f ∷ fs) given d w h = elim (Result-cases (validate coerce fs given)) [
    | inl (rest, e) ↦
        ground (arith, e, lookup-validate fs given rest f.key e, validate-distinct fs given rest)
    | inr (e, refused) ↦ ground (arith, refused)
  ]

  -- What a field contributes to a validated dictionary
  pub validated-head :
      (f : Field) (fs : List Field) (given d : Dict Value)
      → well_formed (f ∷ fs) ≡ true
      → validate coerce (f ∷ fs) given ≡ ok d
      → (rest : Dict Value) × (w : Value) × (validate coerce fs given ≡ ok rest)
        × (d ≡ (f.key, w) ∷ rest)
        × (accepts f.kind w ≡ true)
  unfolding validate well_formed
  validated-head f fs given d w h = elim (Result-cases (validate coerce fs given)) [
    | inl (rest, e) ↦ elim (Option-cases (lookup f.key given)) [
      | inl absent ↦ (rest, f.default, e, ground (arith, e, absent), ground arith)
      | inr (v, found) ↦
          (rest, coerce f.kind v, e, ground (arith, e, found), ground (arith, e, found))
    ]
    | inr (e, refused) ↦ ground (arith, refused)
  ]

  -- A dictionary that agrees with one that was validated is validated to it.
  pub validate-again :
      (fs : List Field) (given d stored : Dict Value)
      → well_formed fs ≡ true
      → validate coerce fs given ≡ ok d
      → ((key : String) (v : Value) → lookup key d ≡ some v → lookup key stored ≡ some v)
      → validate coerce fs stored ≡ ok d
  unfolding validate well_formed lookup
  validate-again [] given d stored w h agree = ground arith
  validate-again (f ∷ fs) given d stored w h agree =
      let (rest, v, e, same, fine) = validated-head f fs given d w h in
      ground (
        arith,
        same,
        fine,
        keeps f.kind v fine,
        agree f.key v (ground (arith, same, eq_refl f.key)),
        validate-again fs given rest stored (ground arith) e (λ key u held.
            agree key u
              (ground (arith, same, held, eq_iff f.key key, lookup-validate fs given rest key e))),
      )
