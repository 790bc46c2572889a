-- ===== src/Tests/SyncCases.antt =====
-- The theorems on the sync engine at concrete inputs.
use fastapi_modular_template.Base.{
  ℕ, String, ◌≡◌, true, Option, none, some, List, [], ◌∷◌, Dict, lookup, value_error, other_error,
  ok, err,
}
use fastapi_modular_template.Sync.Lww.{Datetime}
use fastapi_modular_template.Sync.Rows.{Row, moment}
use fastapi_modular_template.Sync.Apply.{Contributor, Tables, total, no_rows, apply_contributors}
use fastapi_modular_template.Sync.Apply.Counts.{apply_contributors-total}
use fastapi_modular_template.Sync.Bundle.{Codec, Node}
use fastapi_modular_template.Sync.Cycle.{World}

abbrev at : ℕ → Datetime
at n = record { aware = true; instant = n }

-- A store of one row.
abbrev one_row : Contributor Row
one_row = record { get_row = some (λ id s. ok (some s)); restore = λ tenant row s. (ok 1, row) }

abbrev version : String → Row
version text = record { id = "r1"; tenant_id = none; updated_at = moment (at 5); payload = text }

abbrev tables_of : Row → Tables Row
tables_of r = record { store = r; origins = []; conflicts = [] }

abbrev no_dates : String → Option Datetime
no_dates s = none

abbrev registered : Dict (Contributor Row)
registered = ("items", one_row) ∷ []

abbrev bundle : Dict (List Row)
bundle = ("items", version "b" ∷ version "c" ∷ []) ∷ ("ghosts", version "d" ∷ []) ∷ []

apply_contributors-total_example :
    total
      (apply_contributors no_dates "n1" registered "p2" "n2" bundle no_rows
        (tables_of (version "a"))).0
    ≡ 2
unfolding lookup
apply_contributors-total_example =
    apply_contributors-total no_dates "n1" registered "p2" "n2" bundle no_rows
      (tables_of (version "a"))

abbrev codec : Codec
codec = record {
  open_tar = λ s. err (value_error "not a tar file");
  loads_rows = λ s. ok [];
  validate_manifest = λ s. ok tt;
}

abbrev node : Node Row
node = record {
  local_node_id = "n1";
  contributors = registered;
  fromisoformat = no_dates;
  codec = codec;
}

abbrev world : World Row
world = record {
  call_peer_pull = λ url key from scope exclude. ok "bytes";
  call_peer_push = λ url key bytes origin. err (other_error "refused");
  export_platform_delta = λ from exclude t. ok "delta";
  vault = record {
    session_key = none;
    seal = λ key nonce plain. plain;
    unseal = λ key nonce sealed. ok sealed;
  };
}
