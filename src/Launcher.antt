-- ===== src/Launcher.antt =====
-- The supervisor of the web server, `run_server_with_crash_watch` of launch.py. What is printed, the
-- waits, the installation of dependencies on a restart and the flag open_browser, which no code reads,
-- are left out.
pub mod Crashes
use fastapi_modular_template.Base.{
  ℕ, zero, suc, ◌+◌, ◌-◌, String, Bool, true, false, Option, none, some, List, [], ◌∷◌, ◌++◌, ltb,
  leb, eqb, if◌then◌else◌, length, filter, any, Result, ok, err,
}

-- What `start_server_subprocess` returns: None on Ctrl-C, an exit code, or minus a signal.
pub data Exit : Type 0 where
  keyboard_interrupt : Exit
  code : ℕ → Exit
  signal : ℕ → Exit

-- One run of the server: how it ends, the clock then, and whether Ctrl-C ends the wait before a
-- restart.
pub record Round : Type 0 where
  pub exit : Exit
  pub now : ℕ
  pub cancelled : Bool

pub data Kind : Type 0 where
  restart_requested : Kind
  clean : Kind
  crash : Kind

abbrev pub restart_exit_code : ℕ
restart_exit_code = 75

abbrev pub max_rapid_crashes : ℕ
max_rapid_crashes = 3

abbrev pub rapid_crash_window : ℕ
rapid_crash_window = 60

unfoldable pub kind : Exit → Kind
kind keyboard_interrupt = clean
kind (code n) =
    if eqb n restart_exit_code then restart_requested else if eqb n 0 then clean else crash
kind (signal n) = crash

pub data Launcher : Type 0 where
  running : (crash_times : List ℕ) → Launcher
  shut_down : Launcher
  gave_up : Launcher

-- `[t for t in crash_times if now - t < RAPID_CRASH_WINDOW]`
abbrev pub recent : ℕ → List ℕ → List ℕ
recent now crash_times = filter (λ t. ltb (now - t) rapid_crash_window) crash_times

unfoldable pub after_crash : Bool → List ℕ → Launcher
after_crash cancelled crash_times =
    if leb max_rapid_crashes (length crash_times)
    then gave_up
    else if cancelled
    then shut_down
    else running crash_times

unfoldable pub after_exit : Kind → Round → List ℕ → Launcher
after_exit restart_requested r crash_times = running crash_times
after_exit clean r crash_times = shut_down
after_exit crash r crash_times = after_crash r.cancelled (recent r.now (crash_times ++ r.now ∷ []))

-- One turn of the loop
unfoldable pub turn : Round → Launcher → Launcher
turn r (running crash_times) = after_exit (kind r.exit) r crash_times
turn r shut_down = shut_down
turn r gave_up = gave_up

-- The launcher after n turns, where the m-th run of the server goes as `server m` says
unfoldable pub run_server : (ℕ → Round) → ℕ → Launcher
run_server server zero = running []
run_server server (suc n) = turn (server n) (run_server server n)
