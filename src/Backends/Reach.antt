-- ===== src/Backends/Reach.antt =====
-- Which backends answer: the checks, the choice of a provider and the report on all of them of
-- scottycore/services/ai_backends/service.py. A call takes no time here: `now` is its one time.
use fastapi_modular_template.Base.{
  ℕ, ◌-◌, Bool, true, false, not, ◌&&◌, ◌||◌, Option, none, some, List, [], ◌∷◌, ◌==◌, ltb, eqb,
  if◌then◌else◌, take, ◌⧺◌, first_chars, Dict, lookup, insert, Result, ok, err,
}
use Prim.Native.String.{String}
use Prim.Native.Nat.{◌/◌}
use Prim.Native.Char.{code}
use fastapi_modular_template.Backends.{
  Provider, claude_cli, claude_api, ollama, dgx, same_provider, EndpointConfig, Endpoints,
  BackendConfig, endpoint_at, provider_of,
}

-- What an address answers: an exception, a text that is no JSON object, or the names of its models.
pub data Answer : Type 0 where
  raised : String → Answer
  unreadable : Answer
  models : List String → Answer

-- `get` asks an address, `size_vram` the first model that a host has loaded.
pub record World : Type 0 where
  pub get : String → Answer
  pub size_vram : String → Option ℕ
  pub claude_on_path : Bool
  pub now : ℕ

-- What the last checks found, and when
abbrev pub Cache : Type 0
Cache = Dict (Bool × ℕ)

abbrev pub health_ttl : ℕ
health_ttl = 30

abbrev pub tags_path : String
tags_path = "/api/tags"

-- `url.rstrip("/")`
unfoldable pub rstrip_slash : String → String
rstrip_slash String.[] = ""
rstrip_slash (String.◌∷◌ c s) =
    let rest = rstrip_slash s in if rest == "" && eqb (code c) b'/' then "" else String.◌∷◌ c rest

-- `", ".join(names)`
unfoldable pub comma_joined : List String → String
comma_joined [] = ""
comma_joined (s ∷ more) =
    let rest = comma_joined more in elim more [ [] ↦ s | t ∷ ts ↦ s ⧺ ", " ⧺ rest ]

-- What an answer says of the address
abbrev pub read_answer : Answer → Bool × String
read_answer (raised text) = (false, first_chars 100 text)
read_answer unreadable = (true, "reachable")
read_answer (models []) = (true, "reachable")
read_answer (models (m ∷ ms)) = (true, "models: " ⧺ comma_joined (take 3 (m ∷ ms)))

module _ (world : World) where
  abbrev pub is_fresh : ℕ → Bool
  is_fresh at = ltb (world.now - at) health_ttl

  abbrev pub ask : String → Bool × String
  ask url = read_answer (world.get (rstrip_slash url ⧺ tags_path))

  -- The verdict, and the cache
  abbrev pub asked : String → Cache → (Bool × String) × Cache
  asked url cache = (ask url, insert (url ⧺ tags_path) ((ask url).0, world.now) cache)

  unfoldable pub check_url_reachable : String → Cache → (Bool × String) × Cache
  check_url_reachable url cache = elim (lookup (url ⧺ tags_path) cache) [
    | none ↦ asked url cache
    | some (verdict, at) ↦ if is_fresh at then ((verdict, "cached"), cache) else asked url cache
  ]

  -- One step of the choice: whether a provider serves, and the cache
  unfoldable pub try_url : EndpointConfig → Cache → Bool × Cache
  try_url e cache =
      if not e.enabled
      then (false, cache)
      else if e.url == ""
      then (false, cache)
      else ((check_url_reachable e.url cache).0.0, (check_url_reachable e.url cache).1)

  unfoldable pub try_provider : Provider → Endpoints → Cache → Bool × Cache
  try_provider p endpoints cache = elim (endpoint_at p endpoints) [
    | none ↦ (false, cache)
    | some e ↦
        if same_provider p claude_cli
        then (e.enabled && world.claude_on_path, cache)
        else try_url e cache
  ]

  unfoldable pub walk_chain : List Provider → Endpoints → Cache → Provider × Cache
  walk_chain [] endpoints cache = (claude_cli, cache)
  walk_chain (p ∷ ps) endpoints cache =
      let (serves, cache') = try_provider p endpoints cache in
      let later = walk_chain ps endpoints cache' in if serves then (p, cache') else later

  -- A provider asked for that is the command line is not checked.
  unfoldable pub resolve_requested : Provider → BackendConfig → Cache → Provider × Cache
  resolve_requested p config cache =
      if same_provider p claude_cli
      then (p, cache)
      else let (serves, cache') = try_provider p config.endpoints cache in
        if serves then (p, cache') else walk_chain config.fallback_chain config.endpoints cache'

  unfoldable pub resolve_provider : String → BackendConfig → Cache → Result Provider × Cache
  resolve_provider requested config cache =
      if requested == "auto"
      then (
        ok (walk_chain config.fallback_chain config.endpoints cache).0,
        (walk_chain config.fallback_chain config.endpoints cache).1,
      )
      else elim (provider_of requested) [
        | err e ↦ (err e, cache)
        | ok p ↦ (ok (resolve_requested p config cache).0, (resolve_requested p config cache).1)
      ]

pub record EndpointHealth : Type 0 where
  pub provider : Provider
  pub url : String
  pub reachable : Bool
  pub model : String
  pub detail : String
  pub gpu_vram_mb : Option ℕ

pub record BackendStatus : Type 0 where
  pub active_provider : Option Provider
  pub endpoints : List EndpointHealth
  pub claude_cli_available : Bool

abbrev pub report : Provider → String → Bool → String → String → Option ℕ → EndpointHealth
report provider url reachable model detail vram = record {
  provider = provider;
  url = url;
  reachable = reachable;
  model = model;
  detail = detail;
  gpu_vram_mb = vram;
}

-- The report on the first provider goes before; the first that answers is the active one.
abbrev pub with_report : EndpointHealth → Bool → BackendStatus → BackendStatus
with_report h counts later = record later {
  active_provider = if counts && h.reachable then some h.provider else later.active_provider;
  endpoints = h ∷ later.endpoints;
}

-- `vram // (1024 * 1024)`, if there is any
abbrev pub megabytes : Option ℕ → Option ℕ
megabytes none = none
megabytes (some n) = if eqb n 0 then none else some (n / 1048576)

module _ (world : World) where
  abbrev pub vram_of : Provider → String → Bool → Option ℕ
  vram_of p url reached =
      if reached && (same_provider p ollama || same_provider p dgx)
      then megabytes (world.size_vram (rstrip_slash url ⧺ "/api/ps"))
      else none

  unfoldable pub check_all_health : Endpoints → Cache → BackendStatus × Cache
  check_all_health [] cache = (
    record { active_provider = none; endpoints = []; claude_cli_available = world.claude_on_path },
    cache,
  )
  check_all_health ((p, e) ∷ more) cache =
      let same = check_all_health more cache in
      let checked = check_url_reachable world e.url cache in
      let later = check_all_health more checked.1 in
      if not e.enabled
      then same
      else if same_provider p claude_cli
      then (
        with_report
            (report p "(local CLI)" world.claude_on_path e.model
              (if world.claude_on_path then "claude binary found" else "claude binary not in PATH")
              none)
            true same.0,
        same.1,
      )
      else if same_provider p claude_api
      then (
        with_report
            (report p "api.anthropic.com" (not (e.api_key == "")) e.model
              (if e.api_key == "" then "no API key" else "API key configured") none)
            false same.0,
        same.1,
      )
      else if e.url == ""
      then same
      else (
        with_report (report p e.url checked.0.0 e.model checked.0.1 (vram_of p e.url checked.0.0))
            true later.0,
        later.1,
      )
