-- ===== src/Base/Texts.antt =====
-- Cutting a known prefix or suffix off a Python string.
use Prim.Native.Char.{Char, code}
use Prim.Native.Nat.{ℕ, zero, suc, ◌≤◌}
use Prim.Native.String
use Prim.Native.String.{String}
use mathlib.Core.Path.{◌≡◌, refl, ap}
use mathlib.Core.Logic.{inl, inr}
use mathlib.Core.Option
use mathlib.Core.Option.{Option, none, some}
use native.Mathlib.Omega.{arith}
use text.Mathlib.Text.{◌==◌}
use text.Mathlib.TextEquality.{eq_iff}
use text.Mathlib.TextPositions.{eq_refl}
use text.Mathlib.TextLemmas.{length-cons, length-append, nil-append, cons-append}
use fastapi_modular_template.Base.Tests.{if◌then◌else◌, eqb, Bool-cases}

infixr 65 ◌⧺◌
abbrev pub ◌⧺◌ : String → String → String
s ⧺ t = String.◌++◌ s t

-- `name[len(prefix):]` if `name.startswith(prefix)`
unfoldable pub cut_prefix : String → String → Option String
cut_prefix String.[] s = some s
cut_prefix (String.◌∷◌ c p) String.[] = none
cut_prefix (String.◌∷◌ c p) (String.◌∷◌ d s) =
    if eqb (code c) (code d) then cut_prefix p s else none

-- `name[:-len(suffix)]` if `name.endswith(suffix)`
unfoldable pub cut_suffix : String → String → Option String
cut_suffix t String.[] = if String.[] == t then some String.[] else none
cut_suffix t (String.◌∷◌ c s) =
    if String.◌∷◌ c s == t
    then some String.[]
    else Option.map (λ r. String.◌∷◌ c r) (cut_suffix t s)

pub cut_prefix-append : (p s : String) → cut_prefix p (p ⧺ s) ≡ some s
unfolding cut_prefix
cut_prefix-append String.[] s = rw nil-append
cut_prefix-append (String.◌∷◌ c p) s = rw cons-append (ground (arith, cut_prefix-append p s))

longer-ne : (c : Char) (s t : String) → ¬ (String.◌∷◌ c (s ⧺ t) ≡ t)
longer-ne c s t e =
    absurd (omega (arith, ap String.count e, length-cons c (s ⧺ t), length-append s t))

cut_suffix_self : (t : String) → cut_suffix t t ≡ some ""
unfolding cut_suffix
cut_suffix_self String.[] = refl
cut_suffix_self (String.◌∷◌ c t) = rw (eq_refl (String.◌∷◌ c t)) refl

pub cut_suffix-append : (t s : String) → cut_suffix t (s ⧺ t) ≡ some s
unfolding cut_suffix
cut_suffix-append t String.[] = rw nil-append (cut_suffix_self t)
cut_suffix-append t (String.◌∷◌ c s) =
    rw cons-append (elim (Bool-cases (String.◌∷◌ c (s ⧺ t) == t)) [
      | inl same ↦ absurd (longer-ne c s t ((eq_iff _ _).0 same))
      | inr differs ↦ rw (differs, cut_suffix, cut_suffix-append t s) refl
    ])

-- `if value:` of a text that may be None
abbrev pub truthy : Option String → Option String
truthy none = none
truthy (some s) = if s == "" then none else some s

-- `s[:n]`
unfoldable pub first_chars : ℕ → String → String
first_chars zero s = ""
first_chars (suc n) String.[] = ""
first_chars (suc n) (String.◌∷◌ c s) = String.◌∷◌ c (first_chars n s)

-- `s.split(mark, 1)` of a text that has the mark, given by its code point
unfoldable pub cut_at : ℕ → String → Option (String × String)
cut_at mark String.[] = none
cut_at mark (String.◌∷◌ c s) =
    if eqb (code c) mark
    then some ("", s)
    else Option.map (λ (p : String × String). (String.◌∷◌ c p.0, p.1)) (cut_at mark s)

pub cut_at-append :
    (mark : ℕ) (c : Char) (s t : String)
    → code c ≡ mark
    → cut_at mark s ≡ none
    → cut_at mark (s ⧺ String.◌∷◌ c t) ≡ some (s, t)
unfolding cut_at
cut_at-append mark c String.[] t e h = rw nil-append (ground (arith, e))
cut_at-append mark c (String.◌∷◌ d s) t e h =
    rw cons-append (ground (arith, cut_at-append mark c s t e))

-- The mark as a text of its own
pub cut_at-mark :
    (mark : ℕ) (c : Char) (s t : String)
    → code c ≡ mark
    → cut_at mark s ≡ none
    → cut_at mark (s ⧺ (String.◌∷◌ c "") ⧺ t) ≡ some (s, t)
cut_at-mark mark c s t e h = rw (cons-append c "" t, nil-append t) (cut_at-append mark c s t e h)

pub first_chars-twice :
    (m n : ℕ) (s : String) → m ≤ n → first_chars m (first_chars n s) ≡ first_chars m s
unfolding first_chars
first_chars-twice zero n s h = refl
first_chars-twice (suc m) zero s h = absurd (omega arith)
first_chars-twice (suc m) (suc n) String.[] h = refl
first_chars-twice (suc m) (suc n) (String.◌∷◌ c s) h =
    ap (String.◌∷◌ c) (first_chars-twice m n s (omega arith))

pub count-first_chars :
    (n : ℕ) (s : String) → n ≤ String.count s → String.count (first_chars n s) ≡ n
unfolding first_chars
count-first_chars zero s h = refl
count-first_chars (suc n) String.[] h = absurd (omega arith)
count-first_chars (suc n) (String.◌∷◌ c s) h = omega (
  arith,
  length-cons c s,
  length-cons c (first_chars n s),
  count-first_chars n s (omega (arith, length-cons c s)),
)
