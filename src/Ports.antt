-- ===== src/Ports.antt =====
-- `pick_next_port` of scripts/scottycore-init.py.
use fastapi_modular_template.Base.{
  ℕ, zero, suc, ◌+◌, ◌≤◌, ◌<◌, ◌≡◌, sym, ap, ◌∙◌, String, Bool, true, false, Option, none, some,
  List, [], ◌∷◌, arith, leb, eqb, length, length-filter-le, Bool-cases, ◌⊎◌, inl, inr, filter, any,
  Result, ok, err,
}

abbrev pub port_base : ℕ
port_base = 8100

-- `port in used`
abbrev pub is_used : ℕ → List ℕ → Bool
is_used port used = any (λ u. eqb u port) used

-- The loop, on fuel
unfoldable pub next_free : ℕ → List ℕ → ℕ → Option ℕ
next_free zero used port = none
next_free (suc fuel) used port = elim (is_used port used) [
  | false ↦ some port
  | true ↦ next_free fuel used (suc port)
]

-- Python's `str.isdigit` and `int`
pub record PortTexts : Type 0 where
  pub isdigit : String → Bool
  pub int : String → Result ℕ

-- The ports that are recorded. An app is no mapping, or has the text of its port, the empty one where
-- there is none.
unfoldable pub used_ports : PortTexts → List (Option String) → Result (List ℕ)
used_ports texts [] = ok []
used_ports texts (none ∷ apps) = used_ports texts apps
used_ports texts (some port ∷ apps) = elim (texts.isdigit port) [
  | false ↦ used_ports texts apps
  | true ↦ elim (texts.int port) [
    | err e ↦ err e
    | ok p ↦ elim (used_ports texts apps) [ err e ↦ err e | ok used ↦ ok (p ∷ used) ]
  ]
]

unfoldable pub pick_next_port : PortTexts → List (Option String) → Result (Option ℕ)
pick_next_port texts apps = elim (used_ports texts apps) [
  | err e ↦ err e
  | ok used ↦ ok (next_free (suc (length used)) used port_base)
]

-- The recorded ports from a port on
at_least : ℕ → List ℕ → List ℕ
at_least port used = filter (leb port) used

length-at_least-suc :
    (port : ℕ) (used : List ℕ) → length (at_least (suc port) used) ≤ length (at_least port used)
unfolding at_least
length-at_least-suc port [] = omega arith
length-at_least-suc port (u ∷ used) = ground (arith, length-at_least-suc port used)

length-at_least-used :
    (port : ℕ) (used : List ℕ)
    → is_used port used ≡ true
    → length (at_least (suc port) used) < length (at_least port used)
unfolding at_least
length-at_least-used port [] h = cc
length-at_least-used port (u ∷ used) h =
    ground (arith, length-at_least-suc port used, length-at_least-used port used)

-- The least port from a port on that is not recorded, and how far off it may be
abbrev pub IsFirstFree : ℕ → ℕ → List ℕ → ℕ → Type 0
IsFirstFree port bound used q =
    port ≤ q
    × q ≤ port + bound
    × is_used q used ≡ false
    × ((p : ℕ) → port ≤ p → p < q → is_used p used ≡ true)

next_free_used :
    (fuel : ℕ) (used : List ℕ) (port : ℕ)
    → is_used port used ≡ true
    → next_free (suc fuel) used port ≡ next_free fuel used (suc port)
unfolding next_free
next_free_used fuel used port h = ground arith

next_free_free :
    (fuel : ℕ) (used : List ℕ) (port : ℕ)
    → is_used port used ≡ false
    → next_free (suc fuel) used port ≡ some port
unfolding next_free
next_free_free fuel used port h = ground arith

le-split : (m n : ℕ) → m ≤ n → (m ≡ n) ⊎ (suc m ≤ n)
le-split m n h = ground arith

next_free-IsFirstFree :
    (fuel : ℕ) (used : List ℕ) (port : ℕ)
    → length (at_least port used) < fuel
    → (q : ℕ) × (next_free fuel used port ≡ some q)
      × IsFirstFree port (length (at_least port used)) used q
unfolding next_free
next_free-IsFirstFree zero used port h = ground arith
next_free-IsFirstFree (suc fuel) used port h = elim (Bool-cases (is_used port used)) [
  | inl taken ↦
      let fewer = length-at_least-used port used taken in
      let (q, found, first) = next_free-IsFirstFree fuel used (suc port) (omega (arith, fewer)) in
      let (above, near, free, below) = first in
      (
        q,
        next_free_used fuel used port taken ∙ found,
        (
          omega arith,
          omega (arith, fewer),
          free,
          λ p le lt. elim (le-split port p le) [ inl e ↦ rw (sym e) taken | inr l ↦ below p l lt ],
        ),
      )
  | inr free ↦ (
    port,
    next_free_free fuel used port free,
    (omega arith, omega arith, free, λ p le lt. ground arith),
  )
]

length-at_least-le : (port : ℕ) (used : List ℕ) → length (at_least port used) ≤ length used
unfolding at_least
length-at_least-le port used = length-filter-le (leb port) used

pick_next_port_lem :
    (texts : PortTexts) (apps : List (Option String)) (used : List ℕ)
    → used_ports texts apps ≡ ok used
    → pick_next_port texts apps ≡ ok (next_free (suc (length used)) used port_base)
unfolding pick_next_port
pick_next_port_lem texts apps used h = rw (pick_next_port, h)

-- If the ports that the registered apps record are read, the search for a port ends, with the
-- least port from the base on that is none of them, which is at most as far from the base as there
-- are recorded ports.
pub pick_next_port-IsFirstFree :
    (texts : PortTexts) (apps : List (Option String)) (used : List ℕ)
    → used_ports texts apps ≡ ok used
    → (q : ℕ) × (pick_next_port texts apps ≡ ok (some q))
      × IsFirstFree port_base (length used) used q
pick_next_port-IsFirstFree texts apps used h =
    let few = length-at_least-le port_base used in
    let (q, found, first) =
      next_free-IsFirstFree (suc (length used)) used port_base (omega (arith, few)) in
    let (above, near, free, below) = first in
    (
      q,
      pick_next_port_lem texts apps used h ∙ ap (λ o. ok o) found,
      (above, omega (arith, few), free, below),
    )
