-- ===== src/Tests/UpdateCases.antt =====
-- The theorems on the automatic update at concrete inputs. A version is the length of its text here.
use fastapi_modular_template.Base.{
  ℕ, String, ◌≡◌, refl, ◌⊎◌, true, false, none, some, [], ◌∷◌, arith, ltb, cut_prefix, ok,
}
use Prim.Native.String
use fastapi_modular_template.Settings.Schemas.{Value, words}
use fastapi_modular_template.AutoUpdate.{
  mode_auto, Host, Response, World, replace_first, fetch_latest_tag, is_newer, read_mode,
  check_once, done, falsy, text,
}
use fastapi_modular_template.AutoUpdate.Polls.{bumped, check_once-pin, check_once-settles}

abbrev release_of : String → Response
release_of tag = record { status_code = 200; release = some (text tag, falsy); tags = none }

-- The file is the pin after its mark.
abbrev world : World ℕ Value
world = record {
  get = λ url. some (release_of "v1.10");
  search_pin = λ content. cut_prefix "@" content;
  version = λ s. some (String.count s);
  earlier = λ v w. ltb v w;
  loads = λ v. ok v;
  dumps_pending = λ current latest now. words latest;
  mode_key = "scottycore.update.mode";
  pending_key = "scottycore.update.pending";
  settings_answer = true;
  forge_api = "https://api";
}

abbrev host : Host Value
host = record {
  pyproject = some "@v1.9";
  rebuild_flag = false;
  settings =
      record {
        scope = "global";
        scope_id = none;
        key = "scottycore.update.mode";
        value_json = words "auto";
        updated_by = some "u1";
      }
      ∷ [];
}

check_once-settles_example :
    (check_once world 7 (bumped world 7 "v1.9" "v1.10" "@v1.9" host)).1
    ≡ bumped world 7 "v1.9" "v1.10" "@v1.9" host
unfolding fetch_latest_tag replace_first cut_prefix
check_once-settles_example =
    check_once-settles world 7 "v1.9" "v1.10" "@v1.9" host refl refl (λ v. ground arith)

check_once-pin_example :
    ((check_once world 7 host).1.pyproject ≡ host.pyproject)
    ⊎ ((current : String) × (latest : String) × (content : String) × (host.pyproject ≡ some content)
        × (world.search_pin content ≡ some current)
        × (fetch_latest_tag world ≡ done latest)
        × (is_newer world current latest ≡ true)
        × (read_mode world host ≡ mode_auto)
        × ((check_once world 7 host).1 ≡ bumped world 7 current latest content host))
check_once-pin_example = check_once-pin world 7 host
