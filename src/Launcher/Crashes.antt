-- ===== src/Launcher/Crashes.antt =====
-- When the launcher gives up on a server that keeps crashing.
use fastapi_modular_template.Base.{
  ℕ, zero, suc, ◌+◌, ◌≤◌, ◌<◌, ◌≡◌, ◌↔◌, refl, sym, ap, ◌∙◌, ◌⊎◌, inl, inr, Bool, true, false, List,
  [], ◌∷◌, ◌++◌, arith, length, length-append,
}
use fastapi_modular_template.Launcher.{
  Round, Kind, restart_requested, clean, crash, kind, Launcher, running, shut_down, gave_up, recent,
  after_crash, after_exit, turn, run_server, max_rapid_crashes, rapid_crash_window,
}

-- The crashes that are counted after one more run of the server
unfoldable pub with_crash : Kind → ℕ → List ℕ → List ℕ
with_crash restart_requested now all = all
with_crash clean now all = all
with_crash crash now all = all ++ now ∷ []

-- The times of all crashes among the first n runs
unfoldable pub crashes : (ℕ → Round) → ℕ → List ℕ
crashes server zero = []
crashes server (suc n) = with_crash (kind (server n).exit) (server n).now (crashes server n)

-- The clock does not go back.
abbrev pub IsMonotone : (ℕ → Round) → Type 0
IsMonotone server = (m n : ℕ) → m ≤ n → (server m).now ≤ (server n).now

recent-append : (now : ℕ) (xs ys : List ℕ) → recent now (xs ++ ys) ≡ recent now xs ++ recent now ys
recent-append now [] ys = refl
recent-append now (x ∷ xs) ys = ground (arith, recent-append now xs ys)

recent-recent : (c now : ℕ) (xs : List ℕ) → c ≤ now → recent now (recent c xs) ≡ recent now xs
recent-recent c now [] h = refl
recent-recent c now (x ∷ xs) h = ground (arith, recent-recent c now xs h)

-- Whether the launcher stopped
abbrev pub has_stopped : Launcher → Bool
has_stopped (running ts) = false
has_stopped shut_down = true
has_stopped gave_up = true

Kind-cases : (k : Kind) → (k ≡ restart_requested) ⊎ ((k ≡ clean) ⊎ (k ≡ crash))
Kind-cases restart_requested = inl refl
Kind-cases clean = inr (inl refl)
Kind-cases crash = inr (inr refl)

Launcher-cases : (l : Launcher) → (has_stopped l ≡ true) ⊎ ((ts : List ℕ) × (l ≡ running ts))
Launcher-cases (running ts) = inr (ts, refl)
Launcher-cases shut_down = inl refl
Launcher-cases gave_up = inl refl

has_stopped-turn : (r : Round) (l : Launcher) → has_stopped l ≡ true → has_stopped (turn r l) ≡ true
unfolding turn
has_stopped-turn r (running ts) h = cc
has_stopped-turn r shut_down h = refl
has_stopped-turn r gave_up h = refl

-- Crashes that are counted a first and a second time are those that are counted once.
recent-kept :
    (c now : ℕ) (ts all : List ℕ)
    → c ≤ now
    → recent now ts ≡ recent now all
    → recent now (recent c (ts ++ c ∷ [])) ≡ recent now (all ++ c ∷ [])
recent-kept c now ts all h same =
    recent-recent c now (ts ++ c ∷ []) h
    ∙ recent-append now ts (c ∷ [])
    ∙ ap (λ xs. xs ++ recent now (c ∷ [])) same
    ∙ sym (recent-append now all (c ∷ []))

after_exit-running :
    (k : Kind) (r : Round) (ts ts' : List ℕ)
    → after_exit k r ts ≡ running ts'
    → ((k ≡ restart_requested) × (ts' ≡ ts))
      ⊎ ((k ≡ crash) × (ts' ≡ recent r.now (ts ++ r.now ∷ [])))
unfolding after_exit after_crash
after_exit-running restart_requested r ts ts' h = inl (refl, ground arith)
after_exit-running clean r ts ts' h = cc
after_exit-running crash r ts ts' h = inr (refl, ground arith)

turn-running :
    (r : Round) (l : Launcher) (ts' : List ℕ)
    → turn r l ≡ running ts'
    → (ts : List ℕ) × (l ≡ running ts) × (after_exit (kind r.exit) r ts ≡ running ts')
unfolding turn
turn-running r (running ts) ts' h = (ts, refl, h)
turn-running r shut_down ts' h = cc
turn-running r gave_up ts' h = cc

length-recent-with_crash :
    (k : Kind) (c now : ℕ) (all : List ℕ)
    → length (recent now all) ≤ length (recent now (with_crash k c all))
unfolding with_crash
length-recent-with_crash restart_requested c now all = omega arith
length-recent-with_crash clean c now all = omega arith
length-recent-with_crash crash c now all =
    ground
      (arith, recent-append now all (c ∷ []), length-append (recent now all) (recent now (c ∷ [])))

length-recent_crash :
    (c now : ℕ) (all : List ℕ)
    → now < c + rapid_crash_window
    → suc (length (recent now all)) ≤ length (recent now (with_crash crash c all))
unfolding with_crash
length-recent_crash c now all h =
    ground
      (arith, recent-append now all (c ∷ []), length-append (recent now all) (recent now (c ∷ [])))

recent-after_exit :
    (r : Round) (ts all ts' : List ℕ) (now : ℕ)
    → after_exit (kind r.exit) r ts ≡ running ts'
    → r.now ≤ now
    → recent now ts ≡ recent now all
    → recent now ts' ≡ recent now (with_crash (kind r.exit) r.now all)
unfolding with_crash
recent-after_exit r ts all ts' now h le same = elim (after_exit-running (kind r.exit) r ts ts' h) [
  | inl (k, e) ↦ rw (k, e, same)
  | inr (k, e) ↦ rw (k, e, recent-kept r.now now ts all le same)
]

le-cases : (n m : ℕ) → n ≤ suc m → (n ≤ m) ⊎ (n ≡ suc m)
le-cases n m h = ground arith

le_refl : (n : ℕ) → n ≤ n
le_refl n = omega arith

module _ (server : ℕ → Round) where
  recent-running :
      (n : ℕ) (ts : List ℕ) (now : ℕ)
      → run_server server n ≡ running ts
      → ((m : ℕ) → m < n → (server m).now ≤ now)
      → recent now ts ≡ recent now (crashes server n)
  unfolding run_server crashes
  recent-running zero ts now h le = ground arith
  recent-running (suc n) ts now h le =
      let (ts0, e, s) = turn-running (server n) (run_server server n) ts h in
      recent-after_exit (server n) ts0 (crashes server n) ts now s (le n (omega arith))
        (recent-running n ts0 now e (λ m k. le m (omega arith)))

  length-recent-crashes :
      (now n m : ℕ)
      → n ≤ m
      → length (recent now (crashes server n)) ≤ length (recent now (crashes server m))
  unfolding crashes
  length-recent-crashes now n zero h = let e : n ≡ 0 = omega arith in rw e (le_refl 0)
  length-recent-crashes now n (suc m) h = elim (le-cases n m h) [
    | inl le ↦ omega (
      arith,
      length-recent-crashes now n m le,
      length-recent-with_crash (kind (server m).exit) (server m).now now (crashes server m),
    )
    | inr e ↦ rw e (le_refl (length (recent now (crashes server (suc m)))))
  ]

  length-recent-crash :
      (now n : ℕ)
      → kind (server n).exit ≡ crash
      → now < (server n).now + rapid_crash_window
      → suc (length (recent now (crashes server n))) ≤ length (recent now (crashes server (suc n)))
  unfolding crashes
  length-recent-crash now n k h = rw k (length-recent_crash (server n).now now (crashes server n) h)

after_exit-gave_up :
    (k : Kind) (r : Round) (ts : List ℕ)
    → (after_exit k r ts ≡ gave_up)
      ↔ ((k ≡ crash) × (max_rapid_crashes ≤ length (recent r.now (ts ++ r.now ∷ []))))
unfolding after_exit after_crash
after_exit-gave_up restart_requested r ts = (λ h. cc, λ h. cc)
after_exit-gave_up clean r ts = (λ h. cc, λ h. cc)
after_exit-gave_up crash r ts = (λ h. (refl, ground arith), λ h. ground arith)

turn-gave_up :
    (r : Round) (ts all : List ℕ)
    → recent r.now ts ≡ recent r.now all
    → (turn r (running ts) ≡ gave_up) ↔ (
        (kind r.exit ≡ crash)
        × (max_rapid_crashes ≤ length (recent r.now (with_crash (kind r.exit) r.now all))))
unfolding turn with_crash
turn-gave_up r ts all same =
    let kept =
      recent-append r.now ts (r.now ∷ [])
      ∙ ap (λ xs. xs ++ recent r.now (r.now ∷ [])) same
      ∙ sym (recent-append r.now all (r.now ∷ [])) in
    let (there, back) = after_exit-gave_up (kind r.exit) r ts in
    (
      λ h. let (k, le) = there h in (k, rw (k, sym kept) le),
      λ h.
          let now_crashed : with_crash (kind r.exit) r.now all ≡ all ++ r.now ∷ [] = rw h.0 in
          back (h.0, rw (kept, sym now_crashed) h.1),
    )

module _ (server : ℕ → Round) (mono : IsMonotone server) where
  -- A running launcher gives up after the next run exactly if it is a crash, and the third or a later
  -- one within a minute, among all crashes so far.
  run_server-gave_up :
      (n : ℕ) (crash_times : List ℕ)
      → run_server server n ≡ running crash_times
      → (run_server server (suc n) ≡ gave_up) ↔ (
          (kind (server n).exit ≡ crash)
          × (max_rapid_crashes ≤ length (recent (server n).now (crashes server (suc n)))))
  unfolding run_server crashes
  run_server-gave_up n ts e = rw e (
      turn-gave_up (server n) ts (crashes server n)
        (recent-running server n ts (server n).now e (λ m k. mono m n (omega arith))))

  length-recent-three :
      (i j k : ℕ)
      → i < j
      → j < k
      → kind (server i).exit ≡ crash
      → kind (server j).exit ≡ crash
      → kind (server k).exit ≡ crash
      → (server k).now < (server i).now + rapid_crash_window
      → max_rapid_crashes ≤ length (recent (server k).now (crashes server (suc k)))
  length-recent-three i j k ij jk ci cj ck h =
      let now = (server k).now in
      omega (
        arith,
        length-recent-crash server now i ci h,
        length-recent-crashes server now (suc i) j ij,
        length-recent-crash server now j cj (omega (arith, mono i j (omega arith), h)),
        length-recent-crashes server now (suc j) k jk,
        length-recent-crash server now k ck (omega arith),
      )

  -- The launcher stops at the latest with the third of three crashes of the server of which the
  -- last is less than a minute after the first, whatever runs, restarts that were asked for
  -- included, lie between them, if the clock never goes back.
  pub crash_loop_ends :
      (i j k : ℕ)
      → i < j
      → j < k
      → kind (server i).exit ≡ crash
      → kind (server j).exit ≡ crash
      → kind (server k).exit ≡ crash
      → (server k).now < (server i).now + rapid_crash_window
      → has_stopped (run_server server (suc k)) ≡ true
  unfolding run_server
  crash_loop_ends i j k ij jk ci cj ck h = elim (Launcher-cases (run_server server k)) [
    | inl stopped ↦ has_stopped-turn (server k) (run_server server k) stopped
    | inr (ts, e) ↦
        rw ((run_server-gave_up k ts e).1 (ck, length-recent-three i j k ij jk ci cj ck h))
  ]
