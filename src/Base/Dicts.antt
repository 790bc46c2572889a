-- ===== src/Base/Dicts.antt =====
-- Python's `dict` with string keys: an association list in insertion order. Assigning to a key
-- that is there keeps its place.
use Prim.Native.String.{String}
use mathlib.Core.Path.{◌≡◌, refl}
use mathlib.Core.Option
use mathlib.Core.Option.{Option, none, some}
use mathlib.Core.List.{List, [], ◌∷◌, ◌++◌, map}
use text.Mathlib.TextPositions.{eq_refl}
use native.Mathlib.Omega.{arith}
use text.Mathlib.Text.{◌==◌}
use text.Mathlib.TextEquality.{eq_iff}
use fastapi_modular_template.Base.Lists.{elem}
use fastapi_modular_template.Base.Tests.{is_some, if◌then◌else◌}

abbrev pub Dict {ℓ} : Type ℓ → Type ℓ
Dict V = List (String × V)

module _ {ℓ} {V : Type ℓ} where
  -- `d.get(k)`
  unfoldable pub lookup : String → Dict V → Option V
  lookup key [] = none
  lookup key ((other, value) ∷ dict) = if other == key then some value else lookup key dict

  -- `d[k] = v`
  unfoldable pub insert : String → V → Dict V → Dict V
  insert key value [] = (key, value) ∷ []
  insert key value ((other, old) ∷ dict) =
      if other == key then (key, value) ∷ dict else (other, old) ∷ insert key value dict

  -- `d.pop(k, None)`
  unfoldable pub remove : String → Dict V → Dict V
  remove key [] = []
  remove key ((other, value) ∷ dict) =
      let rest = remove key dict in if other == key then rest else (other, value) ∷ rest

  -- A change of the value of a key, if it is there.
  unfoldable pub alter : String → (V → V) → Dict V → Dict V
  alter key f [] = []
  alter key f ((other, value) ∷ dict) =
      (other, if other == key then f value else value) ∷ alter key f dict

  pub lookup-alter :
      (key other : String) (f : V → V) (dict : Dict V)
      → lookup other (alter key f dict)
        ≡ (if key == other then Option.map f (lookup other dict) else lookup other dict)
  unfolding lookup alter
  lookup-alter key other f [] = ground arith
  lookup-alter key other f ((first, value) ∷ dict) =
      ground (
        arith,
        lookup-alter key other f dict,
        eq_iff first key,
        eq_iff first other,
        eq_iff key other,
      )

  pub lookup-insert :
      (key other : String) (value : V) (dict : Dict V)
      → lookup other (insert key value dict)
        ≡ (if key == other then some value else lookup other dict)
  unfolding lookup insert
  lookup-insert key other value [] = refl
  lookup-insert key other value ((first, old) ∷ dict) = ground (
    arith,
    eq_iff key other,
    eq_iff first key,
    eq_iff first other,
    lookup-insert key other value dict,
  )

  pub lookup-remove :
      (key other : String) (dict : Dict V)
      → lookup other (remove key dict) ≡ (if key == other then none else lookup other dict)
  unfolding lookup remove
  lookup-remove key other [] = ground arith
  lookup-remove key other ((first, value) ∷ dict) =
      ground (
        arith,
        lookup-remove key other dict,
        eq_iff first key,
        eq_iff first other,
        eq_iff key other,
      )

abbrev pub keys {ℓ} : {V : Type ℓ} → Dict V → List String
keys dict = map (λ b. b.0) dict

pub elem-keys :
    {V : Type 0} (dict : Dict V) (id : String) → elem id (keys dict) ≡ is_some (lookup id dict)
unfolding lookup
elem-keys [] id = refl
elem-keys ((key, value) ∷ dict) id = ground (arith, elem-keys dict id)

pub ruleset dict_laws = (lookup-insert, lookup-remove, lookup-alter)

-- A key that is not there is put last; the last key's value is replaced in its place.
module _ {ℓ} {V : Type ℓ} (key : String) where
  pub insert-new :
      (value : V) (dict : Dict V)
      → lookup key dict ≡ none
      → insert key value dict ≡ dict ++ (key, value) ∷ []
  unfolding lookup insert
  insert-new value [] new = refl
  insert-new value ((first, old) ∷ dict) new = ground (arith, insert-new value dict)

  pub insert-last :
      (value old : V) (dict : Dict V)
      → lookup key dict ≡ none
      → insert key value (dict ++ (key, old) ∷ []) ≡ dict ++ (key, value) ∷ []
  unfolding lookup insert
  insert-last value old [] new = ground (arith, eq_refl key)
  insert-last value old ((first, other) ∷ dict) new = ground (arith, insert-last value old dict)

  pub lookup-last :
      (value : V) (dict : Dict V)
      → lookup key dict ≡ none
      → lookup key (dict ++ (key, value) ∷ []) ≡ some value
  unfolding lookup
  lookup-last value [] new = ground (arith, eq_refl key)
  lookup-last value ((first, old) ∷ dict) new = ground (arith, lookup-last value dict)
