-- ===== src/Scheduler/Retention/Survivors.antt =====
-- A pruning leaves the runs that its reference keeps.
use fastapi_modular_template.Base.{
  ℕ, zero, suc, ◌≤◌, String, ◌≡◌, refl, sym, ap, ◌∙◌, Bool, true, false, not, ◌&&◌, ◌||◌, Option,
  none, some, List, [], ◌∷◌, ◌++◌, arith, ◌==◌, eq_iff, ltb, eqb, if◌then◌else◌, is_some,
  Bool-cases, inl, inr, length, length-append, take, filter, elem, Result,
}
use mathlib.Core.List.{append_assoc, append-nil}
use fastapi_modular_template.Tasks.{ℤ, pos, negsuc}
use fastapi_modular_template.Scheduler.Tables.{Schedule, Run}
use fastapi_modular_template.Scheduler.Retention.{
  or_zero, is_zero, is_after_cutoff, slice, recent_enough, ids, prune, insert_newest, newest_first,
  successful_runs, keeps_everything,
}
use fastapi_modular_template.Scheduler.Retention.Kept.{elem-prune}
use fastapi_modular_template.Scheduler.Retention.Reference.{
  IsChronologicalFrom, IsChronological, HasDistinctIds, is_mine, allowance, is_young, has_no_limit,
  survivors,
}

abbrev has : String → List Run → Bool
has id runs = elem id (ids runs)

abbrev backwards : List Run → List Run
backwards [] = []
backwards (r ∷ rs) = backwards rs ++ r ∷ []

has-append : (id : String) (xs ys : List Run) → has id (xs ++ ys) ≡ (has id xs || has id ys)
has-append id [] ys = refl
has-append id (x ∷ xs) ys = ground (arith, has-append id xs ys)

has-filter :
    (id : String) (p : Run → Bool) (xs : List Run)
    → has id xs ≡ false
    → has id (filter p xs) ≡ false
has-filter id p [] h = refl
has-filter id p (x ∷ xs) h = ground (arith, has-filter id p xs)

has-take : (id : String) (n : ℕ) (xs : List Run) → has id xs ≡ false → has id (take n xs) ≡ false
has-take id zero xs h = refl
has-take id (suc n) [] h = refl
has-take id (suc n) (x ∷ xs) h = ground (arith, has-take id n xs)

has-backwards : (id : String) (xs : List Run) → has id (backwards xs) ≡ has id xs
has-backwards id [] = refl
has-backwards id (x ∷ xs) =
    ground (arith, has-append id (backwards xs) (x ∷ []), has-backwards id xs)

length-backwards : (xs : List Run) → length (backwards xs) ≡ length xs
length-backwards [] = refl
length-backwards (x ∷ xs) =
    omega (arith, length-append (backwards xs) (x ∷ []), length-backwards xs)

has-take_last :
    (id : String) (n : ℕ) (xs : List Run) (r : Run)
    → has id (take n (xs ++ r ∷ [])) ≡ (has id (take n xs) || (ltb (length xs) n && r.id == id))
has-take_last id zero xs r = ground arith
has-take_last id (suc zero) [] r = ground arith
has-take_last id (suc (suc n)) [] r = ground arith
has-take_last id (suc n) (x ∷ xs) r = ground (arith, has-take_last id n xs r)

has-filter_last :
    (id : String) (p : Run → Bool) (xs : List Run) (r : Run)
    → has id (filter p (xs ++ r ∷ [])) ≡ (has id (filter p xs) || (p r && r.id == id))
has-filter_last id p [] r = ground arith
has-filter_last id p (x ∷ xs) r = ground (arith, has-filter_last id p xs r)

-- The first of a list is the newest, and not later than a time.
abbrev StartsBy : ℕ → List Run → Type 0
StartsBy t [] = Unit
StartsBy t (y ∷ ys) = y.created_at ≤ t

StartsBy-later : (s t : ℕ) (ys : List Run) → s ≤ t → StartsBy s ys → StartsBy t ys
StartsBy-later s t [] le h = tt
StartsBy-later s t (y ∷ ys) le h = omega (arith, le, h)

insert_newest-latest :
    (x : Run) (ys : List Run) → StartsBy x.created_at ys → insert_newest x ys ≡ x ∷ ys
unfolding insert_newest
insert_newest-latest x [] h = refl
insert_newest-latest x (y ∷ ys) h = ground (arith, h)

sorted-backwards :
    (p : Run → Bool) (t : ℕ) (xs sorted : List Run)
    → IsChronologicalFrom t xs
    → StartsBy t sorted
    → newest_first (filter p xs) sorted ≡ backwards (filter p xs) ++ sorted
unfolding newest_first
sorted-backwards p t [] sorted h k = refl
sorted-backwards p t (x ∷ xs) sorted h k =
    let k' = StartsBy-later t x.created_at sorted h.0 k in
    ground (
      arith,
      insert_newest-latest x sorted k',
      sorted-backwards p x.created_at xs sorted h.1 k',
      sorted-backwards p x.created_at xs (x ∷ sorted) h.1 (omega arith),
      append_assoc (backwards (filter p xs)) (x ∷ []) sorted,
    )

young-recent_enough :
    (s : Schedule) (now : ℕ) (r : Run) → recent_enough s now r ≡ is_young s.retention_days now r
young-recent_enough s now r = days s.retention_days
  where
    days :
        (o : Option ℤ)
        → (not (is_zero (or_zero o)) && is_after_cutoff (or_zero o) now r.created_at)
          ≡ is_young o now r
    days none = refl
    days (some (pos zero)) = refl
    days (some (pos (suc d))) = ground arith
    days (some (negsuc d)) = refl

slice-allowance :
    (o : Option ℤ) (xs : List Run) → slice (or_zero o) xs ≡ take (allowance o (length xs)) xs
slice-allowance none xs = refl
slice-allowance (some (pos k)) xs = refl
slice-allowance (some (negsuc k)) xs = refl

-- The step below, over the tests' values: no limit, one of the schedule, the run itself, young, few
-- enough newer ones, and where the run stands among the later, the sorted, the newest, the young and
-- the kept ones.
decide :
    (limitless mine same young few later sorted newest fresh kept : Bool)
    → (later && (limitless || not sorted || newest || fresh)) ≡ kept
    → (same ≡ true → later ≡ false)
    → (later ≡ false → sorted ≡ false)
    → (sorted ≡ false → newest ≡ false)
    → (sorted ≡ false → fresh ≡ false)
    → (later ≡ false → kept ≡ false)
    → ((same || later)
        && (if mine
            then limitless
              || not (sorted || same)
              || (newest || (few && same))
              || (fresh || (young && same))
            else limitless || not sorted || newest || fresh))
      ≡ (if limitless || not mine || young || few then same || kept else kept)
decide limitless mine true young few later sorted newest fresh kept ih h1 h2 h3 h4 h5 =
    ground (arith, h1 refl, h2 (h1 refl), h3 (h2 (h1 refl)), h4 (h2 (h1 refl)), h5 (h1 refl))
decide limitless mine false young few later sorted newest fresh kept ih h1 h2 h3 h4 h5 =
    ground (arith, ih)

has-if :
    (c : Bool) (id : String) (r : Run) (rest : List Run)
    → has id (if c then r ∷ rest else rest) ≡ (if c then r.id == id || has id rest else has id rest)
has-if true id r rest = refl
has-if false id r rest = refl

has-append_last :
    (id : String) (xs : List Run) (r : Run) → has id (xs ++ r ∷ []) ≡ (has id xs || r.id == id)
has-append_last id [] r = ground arith
has-append_last id (x ∷ xs) r = ground (arith, has-append_last id xs r)

module _ (s : Schedule) (now total : ℕ) (id : String) where
  abbrev has_kept : List Run → Bool
  has_kept mine =
      has_no_limit s
      || not (has id mine)
      || has id (take (allowance s.keep_last total) mine)
      || has id (filter (is_young s.retention_days now) mine)

  has-survivors_none :
      (runs : List Run) → has id runs ≡ false → has id (survivors s now total runs) ≡ false
  has-survivors_none [] h = refl
  has-survivors_none (r ∷ later) h = ground (arith, has-survivors_none later)

  -- What one more run does to `has_kept`, of the runs that come before it in `mine`
  abbrev one_more : List Run → Run → Bool
  one_more mine r =
      has_no_limit s
      || not (has id mine || r.id == id)
      || (has id (take (allowance s.keep_last total) mine)
          || (ltb (length mine) (allowance s.keep_last total) && r.id == id))
      || (has id (filter (is_young s.retention_days now) mine)
          || (is_young s.retention_days now r && r.id == id))

  abbrev stays : Run → List Run → Bool
  stays r later =
      has_no_limit s
      || not (is_mine s r)
      || is_young s.retention_days now r
      || ltb (length (filter (is_mine s) later)) (allowance s.keep_last total)

  has_kept-last : (mine : List Run) (r : Run) → has_kept (mine ++ r ∷ []) ≡ one_more mine r
  has_kept-last mine r =
      rw
        (
          has-append_last id mine r,
          has-take_last id (allowance s.keep_last total) mine r,
          has-filter_last id (is_young s.retention_days now) mine r,
        )
        refl

  has_kept-more :
      (r : Run) (later : List Run)
      → has_kept (backwards (filter (is_mine s) (r ∷ later))) ≡ (
          if is_mine s r
          then one_more (backwards (filter (is_mine s) later)) r
          else has_kept (backwards (filter (is_mine s) later)))
  has_kept-more r later = elim (Bool-cases (is_mine s r)) [
    | inl mine ↦ rw mine (has_kept-last (backwards (filter (is_mine s) later)) r)
    | inr other ↦ rw other refl
  ]

  has-survivors :
      (runs : List Run)
      → HasDistinctIds runs
      → (has id runs && has_kept (backwards (filter (is_mine s) runs)))
        ≡ has id (survivors s now total runs)
  has-survivors [] h = refl
  has-survivors (r ∷ later) h =
      let mine = backwards (filter (is_mine s) later) in
      ap (λ k. (r.id == id || has id later) && k) (has_kept-more r later)
      ∙ decide (has_no_limit s) (is_mine s r) (r.id == id) (is_young s.retention_days now r)
          (ltb (length mine) (allowance s.keep_last total)) (has id later) (has id mine)
          (has id (take (allowance s.keep_last total) mine))
          (has id (filter (is_young s.retention_days now) mine))
          (has id (survivors s now total later)) (has-survivors later h.1)
          (λ e. ap (λ x. has x later) (sym ((eq_iff r.id id).0 e)) ∙ h.0)
          (λ e. has-backwards id (filter (is_mine s) later) ∙ has-filter id (is_mine s) later e)
          (has-take id (allowance s.keep_last total) mine)
          (has-filter id (is_young s.retention_days now) mine) (has-survivors_none later)
      ∙ rw (length-backwards (filter (is_mine s) later))
          (sym (has-if (stays r later) id r (survivors s now total later)))

keeps_everything-has_no_limit : (s : Schedule) → keeps_everything s ≡ has_no_limit s
keeps_everything-has_no_limit s = days s.retention_days
  where
    days :
        (o : Option ℤ)
        → (is_zero (or_zero o) && not (is_some s.keep_last)) ≡ (
            not (is_some s.keep_last)
            && elim o [ none ↦ true | some (pos n) ↦ eqb n 0 | some (negsuc n) ↦ false ])
    days none = ground arith
    days (some (pos n)) = ground arith
    days (some (negsuc n)) = ground arith

kept-same :
    (s : Schedule) (now : ℕ) (id : String) (mine : List Run)
    → (keeps_everything s
        || not (has id mine)
        || has id (slice (or_zero s.keep_last) mine)
        || has id (filter (recent_enough s now) mine))
      ≡ has_kept s now (length mine) id mine
kept-same s now id mine = λ i.
    keeps_everything-has_no_limit s i
    || not (has id mine)
    || has id (slice-allowance s.keep_last mine i)
    || has id (filter (λ r. young-recent_enough s now r i) mine)

-- If the runs stand in the order of their creation and have different identifiers, a pruning
-- leaves exactly those that are no successful runs of the schedule, are at most retention_days
-- old, or have fewer than keep_last later successful runs of the schedule, whatever the sink's
-- deletions do; a keep_last below 0 leaves out that many of the oldest, a retention_days below 0
-- makes every run too old that is not created as far ahead, and without both every run stays.
pub prune-survivors :
    {S : Type 0} (delete : String → S → Result (Unit {0}) × S) (s : Schedule) (now : ℕ)
    (runs : List Run) (storage : S) (id : String)
    → IsChronological runs
    → HasDistinctIds runs
    → elem id (ids (prune delete s now runs storage).0)
      ≡ elem id (ids (survivors s now (length (filter (is_mine s) runs)) runs))
unfolding successful_runs
prune-survivors delete s now runs storage id chronological distinct =
    let mine = filter (is_mine s) runs in
    let sorted : successful_runs s.id runs ≡ backwards mine =
      sorted-backwards (is_mine s) 0 runs [] chronological tt ∙ append-nil (backwards mine) in
    elem-prune delete s now runs storage id
    ∙ ap (λ k. has id runs && k)
        (kept-same s now id (successful_runs s.id runs) ∙ rw (sorted, length-backwards mine) refl)
    ∙ has-survivors s now (length mine) id runs distinct
