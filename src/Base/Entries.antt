-- ===== src/Base/Entries.antt =====
-- A test of every entry of a dictionary, and what a change of the dictionary does to it.
use Prim.Native.String.{String}
use mathlib.Core.Path.{◌≡◌, refl}
use mathlib.Core.Bool.{Bool, true, false, ◌&&◌}
use mathlib.Core.Option.{none, some}
use mathlib.Core.List.{[], ◌∷◌}
use native.Mathlib.Omega.{arith}
use text.Mathlib.Text.{◌==◌}
use text.Mathlib.TextEquality.{eq_iff}
use fastapi_modular_template.Base.Dicts.{Dict, lookup, insert, remove, alter}

-- A test of every entry of a dictionary.
unfoldable pub every {ℓ} : {V : Type ℓ} → (String → V → Bool) → Dict V → Bool
every P [] = true
every P ((key, value) ∷ dict) = P key value && every P dict

module _ {ℓ} {V : Type ℓ} (P Q : String → V → Bool) where
  pub every-alter :
      (key : String) (f : V → V) (dict : Dict V)
      → every P dict ≡ true
      → ((v : V) → P key v ≡ true → Q key (f v) ≡ true)
      → ((k : String) (v : V) → (key == k) ≡ false → P k v ≡ true → Q k v ≡ true)
      → every Q (alter key f dict) ≡ true
  unfolding every alter
  every-alter key f [] h new other = refl
  every-alter key f ((k, v) ∷ dict) h new other =
      ground (arith, new v, other k v, every-alter key f dict, eq_iff k key, eq_iff key k)

  pub every-same :
      (dict : Dict V)
      → every P dict ≡ true
      → ((k : String) (v : V) → P k v ≡ true → Q k v ≡ true)
      → every Q dict ≡ true
  unfolding every
  every-same [] h each = refl
  every-same ((k, v) ∷ dict) h each = ground (arith, each k v, every-same dict)

  pub every-insert :
      (key : String) (value : V) (dict : Dict V)
      → lookup key dict ≡ none
      → every P dict ≡ true
      → Q key value ≡ true
      → ((k : String) (v : V) → (key == k) ≡ false → P k v ≡ true → Q k v ≡ true)
      → every Q (insert key value dict) ≡ true
  unfolding every insert lookup
  every-insert key value [] fresh h new each = ground arith
  every-insert key value ((k, v) ∷ dict) fresh h new each =
      ground (arith, each k v, every-insert key value dict, eq_iff k key, eq_iff key k)

  pub every-remove :
      (key : String) (dict : Dict V)
      → every P dict ≡ true
      → ((k : String) (v : V) → (key == k) ≡ false → P k v ≡ true → Q k v ≡ true)
      → every Q (remove key dict) ≡ true
  unfolding every remove
  every-remove key [] h other = refl
  every-remove key ((k, v) ∷ dict) h other =
      ground (arith, other k v, every-remove key dict, eq_iff k key, eq_iff key k)

module _ {ℓ} {V : Type ℓ} (P : String → V → Bool) where
  pub every-lookup :
      (key : String) (v : V) (dict : Dict V)
      → every P dict ≡ true
      → lookup key dict ≡ some v
      → P key v ≡ true
  unfolding every lookup
  every-lookup key v [] h found = ground arith
  every-lookup key v ((k, w) ∷ dict) h found = ground (arith, every-lookup key v dict, eq_iff k key)

  pub every-set :
      (key : String) (value : V) (dict : Dict V)
      → every P dict ≡ true
      → P key value ≡ true
      → every P (insert key value dict) ≡ true
  unfolding every insert
  every-set key value [] h new = ground arith
  every-set key value ((k, v) ∷ dict) h new = ground (arith, every-set key value dict, eq_iff k key)
