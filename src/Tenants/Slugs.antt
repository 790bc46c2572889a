-- ===== src/Tenants/Slugs.antt =====
-- The shape of a slug.
use fastapi_modular_template.Base.{
  String, ◌≡◌, refl, ap, ◌∙◌, inl, inr, Bool, true, false, not, ◌&&◌, ◌||◌, arith, ◌==◌, eq_iff,
  if◌then◌else◌, Bool-cases,
}
use Prim.Native.Char.{Char}
use text.Mathlib.TextEquality.{Char-path}
use fastapi_modular_template.Files.{lstrip, rstrip}
use fastapi_modular_template.Tenants.Service.{
  Letters, strip, is_hyphen, is_gap, keep, collapse, slugify,
}

unfoldable pub all_chars : (Char → Bool) → String → Bool
all_chars q String.[] = true
all_chars q (String.◌∷◌ c s) = q c && all_chars q s

-- No hyphen follows a hyphen; `after` is whether one stands before the text.
unfoldable pub single : Bool → String → Bool
single after String.[] = true
single after (String.◌∷◌ c s) = (not (is_hyphen c) || not after) && single (is_hyphen c) s

unfoldable pub starts : String → Bool
starts String.[] = false
starts (String.◌∷◌ c s) = is_hyphen c

unfoldable pub ends : String → Bool
ends String.[] = false
ends (String.◌∷◌ c s) = if s == "" then is_hyphen c else ends s

abbrev pub is_slug_char : Letters → Char → Bool
is_slug_char l c = is_hyphen c || (l.word c && not (is_gap l c))

chars-keep : (p : Char → Bool) (s : String) → all_chars p (keep p s) ≡ true
unfolding all_chars keep
chars-keep p String.[] = refl
chars-keep p (String.◌∷◌ c s) = ground (arith, chars-keep p s)

chars-lstrip :
    (q p : Char → Bool) (s : String) → all_chars q s ≡ true → all_chars q (lstrip p s) ≡ true
unfolding all_chars lstrip
chars-lstrip q p String.[] h = refl
chars-lstrip q p (String.◌∷◌ c s) h = ground (arith, chars-lstrip q p s)

chars-rstrip :
    (q p : Char → Bool) (s : String) → all_chars q s ≡ true → all_chars q (rstrip p s) ≡ true
unfolding all_chars rstrip
chars-rstrip q p String.[] h = refl
chars-rstrip q p (String.◌∷◌ c s) h = elim (Bool-cases (rstrip p s == "")) [
  | inl e ↦ elim (Bool-cases (p c)) [
    | inl cut ↦ rw (e, cut) refl
    | inr kept ↦ rw (e, kept) (ground (arith, kept))
  ]
  | inr e ↦ rw e (ground (arith, e, chars-rstrip q p s))
]

chars-gap :
    (l : Letters) (inside : Bool) (s : String)
    → all_chars (λ c. l.word c || l.space c || is_hyphen c) s ≡ true
    → all_chars (is_slug_char l) (collapse (is_gap l) inside s) ≡ true
unfolding all_chars collapse
chars-gap l inside String.[] h = refl
chars-gap l inside (String.◌∷◌ c s) h = ground (arith, chars-gap l (is_gap l c) s)

chars-hyphens :
    (l : Letters) (inside : Bool) (s : String)
    → all_chars (is_slug_char l) s ≡ true
    → all_chars (is_slug_char l) (collapse is_hyphen inside s) ≡ true
unfolding all_chars collapse
chars-hyphens l inside String.[] h = refl
chars-hyphens l inside (String.◌∷◌ c s) h = ground (arith, chars-hyphens l (is_hyphen c) s)

single-collapse : (inside : Bool) (s : String) → single inside (collapse is_hyphen inside s) ≡ true
unfolding single collapse
single-collapse inside String.[] = refl
single-collapse true (String.◌∷◌ c s) = ground (arith, single-collapse (is_hyphen c) s)
single-collapse false (String.◌∷◌ c s) = ground (arith, single-collapse (is_hyphen c) s)

single-lstrip :
    (after before : Bool) (s : String)
    → single after s ≡ true
    → single before (lstrip is_hyphen s) ≡ true
unfolding single lstrip
single-lstrip after before String.[] h = refl
single-lstrip after before (String.◌∷◌ c s) h = ground (arith, single-lstrip (is_hyphen c) before s)

single-rstrip :
    (after : Bool) (s : String) → single after s ≡ true → single after (rstrip is_hyphen s) ≡ true
unfolding single rstrip
single-rstrip after String.[] h = refl
single-rstrip after (String.◌∷◌ c s) h = elim (Bool-cases (rstrip is_hyphen s == "")) [
  | inl e ↦ elim (Bool-cases (is_hyphen c)) [
    | inl cut ↦ rw (e, cut) refl
    | inr kept ↦ rw (e, kept) (ground (arith, kept))
  ]
  | inr e ↦ rw e (ground (arith, e, single-rstrip (is_hyphen c) s))
]

starts-lstrip : (s : String) → starts (lstrip is_hyphen s) ≡ false
unfolding starts lstrip
starts-lstrip String.[] = refl
starts-lstrip (String.◌∷◌ c s) = ground (arith, starts-lstrip s)

starts-rstrip : (s : String) → starts s ≡ false → starts (rstrip is_hyphen s) ≡ false
unfolding starts rstrip
starts-rstrip String.[] h = refl
starts-rstrip (String.◌∷◌ c s) h = ground arith

ends-rstrip : (s : String) → ends (rstrip is_hyphen s) ≡ false
unfolding ends rstrip
ends-rstrip String.[] = refl
ends-rstrip (String.◌∷◌ c s) = elim (Bool-cases (rstrip is_hyphen s == "")) [
  | inl e ↦ elim (Bool-cases (is_hyphen c)) [
    | inl cut ↦ rw (e, cut) refl
    | inr kept ↦ rw (e, kept) (ground (arith, kept))
  ]
  | inr e ↦ rw e (ground (arith, e, ends-rstrip s))
]

-- Each step leaves a text of the shape as it is.
keep_same : (p : Char → Bool) (s : String) → all_chars p s ≡ true → keep p s ≡ s
unfolding all_chars keep
keep_same p String.[] h = refl
keep_same p (String.◌∷◌ c s) h = ground (arith, keep_same p s)

collapse_none :
    (p : Char → Bool) (inside : Bool) (s : String)
    → all_chars (λ c. not (p c)) s ≡ true
    → collapse p inside s ≡ s
unfolding all_chars collapse
collapse_none p inside String.[] h = refl
collapse_none p inside (String.◌∷◌ c s) h = ground (arith, collapse_none p (p c) s)

rstrip_none : (p : Char → Bool) (s : String) → all_chars (λ c. not (p c)) s ≡ true → rstrip p s ≡ s
unfolding all_chars rstrip
rstrip_none p String.[] h = refl
rstrip_none p (String.◌∷◌ c s) h =
    let same = rstrip_none p s (ground arith) in
    elim (Bool-cases (s == "")) [
      | inl e ↦ rw (same, e) (ground (arith, eq_iff s ""))
      | inr e ↦ rw (same, e) refl
    ]

strip_none : (p : Char → Bool) (s : String) → all_chars (λ c. not (p c)) s ≡ true → strip p s ≡ s
unfolding all_chars lstrip
strip_none p String.[] h = rstrip_none p "" refl
strip_none p (String.◌∷◌ c s) h =
    let first : p c ≡ false = ground arith in rw first (rstrip_none p (String.◌∷◌ c s) h)

-- Without hyphens at its ends and side by side, a text is left by the last two steps.
collapse-single :
    (inside : Bool) (s : String) → single inside s ≡ true → collapse is_hyphen inside s ≡ s
unfolding single collapse
collapse-single inside String.[] h = refl
collapse-single true (String.◌∷◌ c s) h = ground (arith, collapse-single (is_hyphen c) s)
collapse-single false (String.◌∷◌ c s) h = elim (Bool-cases (is_hyphen c)) [
  | inr other ↦ ground (arith, other, collapse-single false s)
  | inl hyphen ↦
      let rest : collapse is_hyphen true s ≡ s = collapse-single true s (ground (arith, hyphen)) in
      rw hyphen (λ i. String.◌∷◌ (Char-path "-" c (ground (arith, hyphen)) i) (rest i))
]

rstrip_ended : (s : String) → ends s ≡ false → rstrip is_hyphen s ≡ s
unfolding ends rstrip
rstrip_ended String.[] h = refl
rstrip_ended (String.◌∷◌ c s) h = elim (Bool-cases (s == "")) [
  | inl e ↦
      let last : is_hyphen c ≡ false = ground (arith, e) in rw ((eq_iff s "").0 e) (rw last refl)
  | inr e ↦ rw (rstrip_ended s (ground (arith, e)), e) refl
]

strip_hyphens : (s : String) → starts s ≡ false → ends s ≡ false → strip is_hyphen s ≡ s
unfolding starts lstrip
strip_hyphens String.[] h k = rstrip_ended "" k
strip_hyphens (String.◌∷◌ c s) h k = rw h (rstrip_ended (String.◌∷◌ c s) k)

all_chars_mono :
    (p q : Char → Bool) (s : String)
    → ((c : Char) → p c ≡ true → q c ≡ true)
    → all_chars p s ≡ true
    → all_chars q s ≡ true
unfolding all_chars
all_chars_mono p q String.[] imp h = refl
all_chars_mono p q (String.◌∷◌ c s) imp h = ground (arith, imp c, all_chars_mono p q s imp)

module _ (l : Letters) (name : String) where
  slugify-chars : all_chars (is_slug_char l) (slugify l name) ≡ true
  unfolding slugify
  slugify-chars = chars-rstrip (is_slug_char l) is_hyphen _ (
      chars-lstrip (is_slug_char l) is_hyphen _ (
        chars-hyphens l false _ (
          chars-gap l false _ (
            chars-keep (λ c. l.word c || l.space c || is_hyphen c)
              (strip l.space (l.lower name))))))

  slugify-single : single false (slugify l name) ≡ true
  unfolding slugify
  slugify-single = single-rstrip false _ (single-lstrip false false _ (single-collapse false _))

  slugify-starts : starts (slugify l name) ≡ false
  unfolding slugify
  slugify-starts = starts-rstrip _ (starts-lstrip _)

  slugify-ends : ends (slugify l name) ≡ false
  unfolding slugify
  slugify-ends = ends-rstrip _

slug_char-space :
    (l : Letters)
    → l.space "-" ≡ false
    → (c : Char) → is_slug_char l c ≡ true
    → not (l.space c) ≡ true
slug_char-space l blank c h = elim (Bool-cases (is_hyphen c)) [
  | inr other ↦ ground (arith, other)
  | inl hyphen ↦
      let same : l.space c ≡ false =
        ap l.space (λ i. Char-path c "-" (ground (arith, hyphen)) i) ∙ blank in
      ground (arith, same)
]

slug_char-gap :
    (l : Letters)
    → l.space "-" ≡ false
    → (c : Char) → is_slug_char l c ≡ true
    → not (is_gap l c) ≡ true
slug_char-gap l blank c h = ground (arith, slug_char-space l blank c h)

-- A text of the shape is its own slug.
slugify_same :
    (l : Letters) (s : String)
    → l.space "-" ≡ false
    → l.lower s ≡ s
    → all_chars (is_slug_char l) s ≡ true
    → single false s ≡ true
    → starts s ≡ false
    → ends s ≡ false
    → slugify l s ≡ s
unfolding slugify
slugify_same l s blank lower chars alone first last =
    let no_space =
      all_chars_mono (is_slug_char l) (λ c. not (l.space c)) s (slug_char-space l blank) chars in
    let no_gap =
      all_chars_mono (is_slug_char l) (λ c. not (is_gap l c)) s (slug_char-gap l blank) chars in
    let allowed =
      all_chars_mono (is_slug_char l) (λ c. l.word c || l.space c || is_hyphen c) s
        (λ c h. ground arith) chars in
    rw
      (
        lower,
        strip_none l.space s no_space,
        keep_same (λ c. l.word c || l.space c || is_hyphen c) s allowed,
        collapse_none (is_gap l) false s no_gap,
        collapse-single false s alone,
      )
      (strip_hyphens s first last)

-- A slug has only word characters other than the underscore and white space, and hyphens, none at
-- its ends and no two in a row, and is its own slug, if lower-casing leaves it as it is and a
-- hyphen is no white space.
pub slugify-again :
    (l : Letters) (name : String)
    → l.space "-" ≡ false
    → l.lower (slugify l name) ≡ slugify l name
    → (all_chars (is_slug_char l) (slugify l name) ≡ true)
      × (single false (slugify l name) ≡ true)
      × (starts (slugify l name) ≡ false)
      × (ends (slugify l name) ≡ false)
      × (slugify l (slugify l name) ≡ slugify l name)
slugify-again l name blank lower = (
  slugify-chars l name,
  slugify-single l name,
  slugify-starts l name,
  slugify-ends l name,
  slugify_same l (slugify l name) blank lower (slugify-chars l name) (slugify-single l name)
      (slugify-starts l name) (slugify-ends l name),
)
