-- ===== src/Auth/Lockout.antt =====
-- Account lockout: `LoginAttempt` of scottycore/services/auth/models.py, `record_login_attempt` and
-- `check_lockout` of scottycore/services/auth/service.py. Times are in seconds.
pub mod Window
use fastapi_modular_template.Base.{
  ℕ, ◌+◌, ◌-◌, ◌*◌, String, Bool, false, ◌&&◌, List, [], ◌∷◌, ◌++◌, ◌==◌, ltb, leb, if◌then◌else◌,
  filter,
}

pub record LoginAttempt : Type 0 where
  pub email : String
  pub success : Bool
  pub ip_address : String
  pub attempted_at : ℕ

abbrev pub max_failed_attempts : ℕ
max_failed_attempts = 5

abbrev pub lockout_window_minutes : ℕ
lockout_window_minutes = 15

abbrev pub lockout_duration_minutes : ℕ
lockout_duration_minutes = 30

-- A failure to write is silent, and is not modelled. `lower` is `str.lower`.
unfoldable pub record_login_attempt :
    (String → String) → ℕ → String → Bool → String → List LoginAttempt → List LoginAttempt
record_login_attempt lower now email success ip_address attempts =
    attempts
    ++ record {
      email = lower email;
      success = success;
      ip_address = ip_address;
      attempted_at = now;
    }
      ∷ []

-- `ORDER BY attempted_at DESC`; of equal times the later row comes first.
unfoldable pub insert_desc : LoginAttempt → List LoginAttempt → List LoginAttempt
insert_desc x [] = x ∷ []
insert_desc x (y ∷ ys) =
    if leb y.attempted_at x.attempted_at then x ∷ y ∷ ys else y ∷ insert_desc x ys

unfoldable pub sort_desc : List LoginAttempt → List LoginAttempt → List LoginAttempt
sort_desc [] sorted = sorted
sort_desc (x ∷ xs) sorted = sort_desc xs (insert_desc x sorted)

abbrev pub in_window : String → ℕ → LoginAttempt → Bool
in_window email window_start a = a.email == email && leb window_start a.attempted_at

-- The failures before the first success; the list is newest first.
unfoldable pub consecutive_failures : List LoginAttempt → ℕ
consecutive_failures [] = 0
consecutive_failures (a ∷ older) =
    let rest = consecutive_failures older in if a.success then 0 else rest + 1

-- `recent_attempts and recent_attempts[0].attempted_at >= lockout_start`
unfoldable pub newest_within : ℕ → List LoginAttempt → Bool
newest_within lockout_start [] = false
newest_within lockout_start (a ∷ older) = leb lockout_start a.attempted_at

unfoldable pub recent_attempts :
    (String → String) → ℕ → String → List LoginAttempt → List LoginAttempt
recent_attempts lower now email attempts =
    sort_desc (filter (in_window (lower email) (now - lockout_window_minutes * 60)) attempts) []

unfoldable pub check_lockout : (String → String) → ℕ → String → List LoginAttempt → Bool
check_lockout lower now email attempts =
    let recent = recent_attempts lower now email attempts in
    if ltb (consecutive_failures recent) max_failed_attempts
    then false
    else newest_within (now - lockout_duration_minutes * 60) recent
