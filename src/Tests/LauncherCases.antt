-- ===== src/Tests/LauncherCases.antt =====
-- The theorems on the launcher and on the choice of ports at concrete inputs.
use fastapi_modular_template.Base.{
  ℕ, ◌*◌, ◌≡◌, refl, true, false, not, if◌then◌else◌, none, some, [], ◌∷◌, arith, ◌==◌, ok,
}
use fastapi_modular_template.Launcher.{Round, code, kind, run_server}
use fastapi_modular_template.Launcher.Crashes.{has_stopped, crash_loop_ends}
use fastapi_modular_template.Ports.{
  PortTexts, used_ports, pick_next_port, port_base, IsFirstFree, pick_next_port-IsFirstFree,
}

-- A server that exits with code 1 every ten seconds
abbrev crashing : ℕ → Round
crashing n = record { exit = code 1; now = 10 * n; cancelled = false }

crash_loop_ends_example : has_stopped (run_server crashing 4) ≡ true
unfolding run_server kind
crash_loop_ends_example =
    crash_loop_ends crashing (λ m n h. omega arith) 0 2 3 (omega arith) (omega arith) refl refl refl
      (omega arith)

-- Two apps have the ports 8100 and 8101, one has none, and one is no mapping.
abbrev port_texts : PortTexts
port_texts = record {
  isdigit = λ s. not (s == "");
  int = λ s. ok (if s == "8100" then 8100 else 8101);
}

pick_next_port-IsFirstFree_example :
    (q : ℕ) × (pick_next_port port_texts (some "8100" ∷ some "" ∷ none ∷ some "8101" ∷ [])
      ≡ ok (some q))
    × IsFirstFree port_base 2 (8100 ∷ 8101 ∷ []) q
unfolding used_ports
pick_next_port-IsFirstFree_example =
    pick_next_port-IsFirstFree port_texts (some "8100" ∷ some "" ∷ none ∷ some "8101" ∷ [])
      (8100 ∷ 8101 ∷ []) refl
