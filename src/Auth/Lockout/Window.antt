-- ===== src/Auth/Lockout/Window.antt =====
-- When an account is locked, in terms of the attempts of the last fifteen minutes alone.
use fastapi_modular_template.Base.{
  ℕ, suc, ◌+◌, ◌-◌, ◌≤◌, ◌<◌, String, ◌≡◌, refl, ap, ◌∙◌, Bool, true, false, ◌&&◌, ◌==◌,
  if◌then◌else◌, List, [], ◌∷◌, arith, eq_iff, leb, length, filter, All,
}
use fastapi_modular_template.Auth.Lockout.{
  LoginAttempt, insert_desc, sort_desc, in_window, consecutive_failures, newest_within,
  recent_attempts, check_lockout, max_failed_attempts,
}

abbrev Since : ℕ → LoginAttempt → Type 0
Since start a = start ≤ a.attempted_at

insert_desc-Since :
    (start : ℕ) (x : LoginAttempt) (ys : List LoginAttempt)
    → Since start x
    → All (Since start) ys
    → All (Since start) (insert_desc x ys)
unfolding insert_desc
insert_desc-Since start x [] h k = (h, tt)
insert_desc-Since start x (y ∷ ys) h k = ground (arith, insert_desc-Since start x ys h k.1)

sort_desc-Since :
    (start : ℕ) (xs sorted : List LoginAttempt)
    → All (Since start) xs
    → All (Since start) sorted
    → All (Since start) (sort_desc xs sorted)
unfolding sort_desc
sort_desc-Since start [] sorted h k = k
sort_desc-Since start (x ∷ xs) sorted h k =
    sort_desc-Since start xs (insert_desc x sorted) h.1 (insert_desc-Since start x sorted h.0 k)

filter-Since :
    (email : String) (start : ℕ) (xs : List LoginAttempt)
    → All (Since start) (filter (in_window email start) xs)
filter-Since email start [] = tt
filter-Since email start (x ∷ xs) = ground (arith, filter-Since email start xs)

newest_within_of_Since :
    (start earlier : ℕ) (xs : List LoginAttempt)
    → earlier ≤ start
    → All (Since start) xs
    → 0 < consecutive_failures xs
    → newest_within earlier xs ≡ true
unfolding newest_within consecutive_failures
newest_within_of_Since start earlier [] le h pos = absurd (omega arith)
newest_within_of_Since start earlier (x ∷ xs) le h pos = ground arith

check_lockout-recent :
    (lower : String → String) (now : ℕ) (email : String) (attempts : List LoginAttempt)
    → check_lockout lower now email attempts
      ≡ leb max_failed_attempts (consecutive_failures (recent_attempts lower now email attempts))
unfolding check_lockout recent_attempts
check_lockout-recent lower now email attempts =
    let start : ℕ = now - 900 in
    let recent = filter (in_window (lower email) start) attempts in
    ground (
      arith,
      newest_within_of_Since start (now - 1800) (sort_desc recent []) (omega arith)
          (sort_desc-Since start recent [] (filter-Since (lower email) start attempts) tt),
    )

-- No attempt is earlier than the one before it, nor than a time.
abbrev IsChronologicalFrom : ℕ → List LoginAttempt → Type 0
IsChronologicalFrom t [] = Unit
IsChronologicalFrom t (a ∷ later) = t ≤ a.attempted_at × IsChronologicalFrom a.attempted_at later

abbrev pub IsChronological : List LoginAttempt → Type 0
IsChronological attempts = IsChronologicalFrom 0 attempts

-- Whether an attempt is one on the account in the quarter of an hour before `now`
abbrev pub counts : String → ℕ → LoginAttempt → Bool
counts account now a = a.email == account && leb now (a.attempted_at + 900)

-- How many failures in a row there were last, counted forward in time from n
abbrev pub failures_in_a_row : String → ℕ → ℕ → List LoginAttempt → ℕ
failures_in_a_row account now n [] = n
failures_in_a_row account now n (a ∷ later) =
    failures_in_a_row account now
      (if counts account now a then (if a.success then 0 else suc n) else n) later

IsChronologicalFrom-earlier :
    (s t : ℕ) (xs : List LoginAttempt) → s ≤ t → IsChronologicalFrom t xs → IsChronologicalFrom s xs
IsChronologicalFrom-earlier s t [] le h = tt
IsChronologicalFrom-earlier s t (x ∷ xs) le h = (omega (arith, le, h.0), h.1)

-- The first of a list is the newest, and not later than a time.
abbrev StartsBy : ℕ → List LoginAttempt → Type 0
StartsBy t [] = Unit
StartsBy t (y ∷ ys) = y.attempted_at ≤ t

insert_desc-newest :
    (x : LoginAttempt) (ys : List LoginAttempt)
    → StartsBy x.attempted_at ys
    → insert_desc x ys ≡ x ∷ ys
unfolding insert_desc
insert_desc-newest x [] h = refl
insert_desc-newest x (y ∷ ys) h = ground (arith, h)

StartsBy-later : (s t : ℕ) (ys : List LoginAttempt) → s ≤ t → StartsBy s ys → StartsBy t ys
StartsBy-later s t [] le h = tt
StartsBy-later s t (y ∷ ys) le h = omega (arith, le, h)

sorted-failures_in_a_row :
    (email : String) (now t : ℕ) (xs sorted : List LoginAttempt)
    → IsChronologicalFrom t xs
    → StartsBy t sorted
    → consecutive_failures (sort_desc (filter (in_window email (now - 900)) xs) sorted)
      ≡ failures_in_a_row email now (consecutive_failures sorted) xs
unfolding sort_desc consecutive_failures
sorted-failures_in_a_row email now t [] sorted h k = refl
sorted-failures_in_a_row email now t (x ∷ xs) sorted h k = ground (
  arith,
  insert_desc-newest x sorted (StartsBy-later t x.attempted_at sorted h.0 k),
  sorted-failures_in_a_row email now x.attempted_at xs sorted h.1
      (StartsBy-later t x.attempted_at sorted h.0 k),
  sorted-failures_in_a_row email now x.attempted_at xs (x ∷ sorted) h.1 (omega arith),
)

-- If the attempts are recorded in the order of their times, an account is locked exactly if its
-- attempts of the last fifteen minutes end in at least five failures with no success between them;
-- the thirty minutes of the lockout duration have no effect.
pub check_lockout-window :
    (lower : String → String) (now : ℕ) (email : String) (attempts : List LoginAttempt)
    → IsChronological attempts
    → check_lockout lower now email attempts
      ≡ leb 5 (failures_in_a_row (lower email) now 0 attempts)
unfolding recent_attempts consecutive_failures
check_lockout-window lower now email attempts chronological =
    check_lockout-recent lower now email attempts
    ∙ ap (leb max_failed_attempts)
        (sorted-failures_in_a_row (lower email) now 0 attempts [] chronological tt)

filter-none :
    (email : String) (now : ℕ) (xs : List LoginAttempt)
    → All (λ a. a.email ≡ email → a.attempted_at + 900 < now) xs
    → filter (in_window email (now - 900)) xs ≡ []
filter-none email now [] h = refl
filter-none email now (x ∷ xs) h =
    ground (arith, filter-none email now xs h.1, eq_iff x.email email, h.0)

-- More than fifteen minutes after the last attempt on it an account is not locked.
lockout_ends_early :
    (lower : String → String) (now : ℕ) (email : String) (attempts : List LoginAttempt)
    → All (λ a. a.email ≡ lower email → a.attempted_at + 900 < now) attempts
    → check_lockout lower now email attempts ≡ false
unfolding check_lockout recent_attempts sort_desc consecutive_failures
lockout_ends_early lower now email attempts h = rw (filter-none (lower email) now attempts h) refl

length-insert_desc :
    (x : LoginAttempt) (ys : List LoginAttempt) → length (insert_desc x ys) ≡ suc (length ys)
unfolding insert_desc
length-insert_desc x [] = refl
length-insert_desc x (y ∷ ys) = ground (arith, length-insert_desc x ys)

length-sort_desc :
    (xs sorted : List LoginAttempt) → length (sort_desc xs sorted) ≡ length xs + length sorted
unfolding sort_desc
length-sort_desc [] sorted = omega arith
length-sort_desc (x ∷ xs) sorted =
    omega (arith, length-sort_desc xs (insert_desc x sorted), length-insert_desc x sorted)

abbrev Failed : LoginAttempt → Type 0
Failed a = a.success ≡ false

insert_desc-Failed :
    (x : LoginAttempt) (ys : List LoginAttempt)
    → Failed x
    → All Failed ys
    → All Failed (insert_desc x ys)
unfolding insert_desc
insert_desc-Failed x [] h k = (h, tt)
insert_desc-Failed x (y ∷ ys) h k = ground (arith, insert_desc-Failed x ys h k.1)

sort_desc-Failed :
    (xs sorted : List LoginAttempt)
    → All Failed xs
    → All Failed sorted
    → All Failed (sort_desc xs sorted)
unfolding sort_desc
sort_desc-Failed [] sorted h k = k
sort_desc-Failed (x ∷ xs) sorted h k =
    sort_desc-Failed xs (insert_desc x sorted) h.1 (insert_desc-Failed x sorted h.0 k)

consecutive_failures_of_Failed :
    (xs : List LoginAttempt) → All Failed xs → consecutive_failures xs ≡ length xs
unfolding consecutive_failures
consecutive_failures_of_Failed [] h = refl
consecutive_failures_of_Failed (x ∷ xs) h = ground (arith, consecutive_failures_of_Failed xs h.1)

-- Five or more attempts on an account within fifteen minutes, all of them failed, lock it.
five_failures_lock :
    (lower : String → String) (now : ℕ) (email : String) (attempts : List LoginAttempt)
    → let recent = filter (in_window (lower email) (now - 900)) attempts in
      All (λ a. a.success ≡ false) recent
      → max_failed_attempts ≤ length recent
      → check_lockout lower now email attempts ≡ true
unfolding recent_attempts
five_failures_lock lower now email attempts failed enough =
    let recent = filter (in_window (lower email) (now - 900)) attempts in
    ground (
      arith,
      check_lockout-recent lower now email attempts,
      consecutive_failures_of_Failed (sort_desc recent []) (sort_desc-Failed recent [] failed tt),
      length-sort_desc recent [],
    )
