-- ===== src/Backends/Chosen.antt =====
-- The provider that is chosen, described by what answered before the choice.
use fastapi_modular_template.Base.{
  String, ◌≡◌, refl, ap, inl, inr, Bool, true, false, not, ◌&&◌, ◌||◌, none, some, List, [], ◌∷◌,
  arith, ◌==◌, eq_iff, if◌then◌else◌, Bool-cases, Option-cases, ◌⧺◌, cut_suffix, cut_suffix-append,
  lookup, lookup-insert, ok, ◌>>=◌, Result-cases,
}
use fastapi_modular_template.Backends.{
  Provider, claude_cli, same_provider, Endpoints, BackendConfig, endpoint_at, provider_of,
}
use fastapi_modular_template.Backends.Reach.{
  Answer, raised, unreadable, models, World, Cache, rstrip_slash, tags_path, check_url_reachable,
  try_url, try_provider, walk_chain, resolve_requested, resolve_provider, read_answer, is_fresh,
  ask,
}

abbrev pub answers : Answer → Bool
answers (raised text) = false
answers unreadable = true
answers (models names) = true

answers-read : (a : Answer) → (read_answer a).0 ≡ answers a
answers-read (raised text) = refl
answers-read unreadable = refl
answers-read (models []) = refl
answers-read (models (m ∷ ms)) = refl

module _ (world : World) where
  -- A verdict of the last thirty seconds counts, else whether the address answers.
  abbrev pub reachable : Cache → String → Bool
  reachable cache url = elim (lookup (url ⧺ tags_path) cache) [
    | none ↦ answers (world.get (rstrip_slash url ⧺ tags_path))
    | some (verdict, at) ↦
        if is_fresh world at then verdict else answers (world.get (rstrip_slash url ⧺ tags_path))
  ]

  abbrev pub usable : Cache → Endpoints → Provider → Bool
  usable cache endpoints p = elim (endpoint_at p endpoints) [
    | none ↦ false
    | some e ↦
        e.enabled
        && (if same_provider p claude_cli
            then world.claude_on_path
            else not (e.url == "") && reachable cache e.url)
  ]

  -- The first of the chain that can be used, or the command line
  unfoldable pub first_usable : Cache → Endpoints → List Provider → Provider
  first_usable cache endpoints [] = claude_cli
  first_usable cache endpoints (p ∷ ps) =
      let later = first_usable cache endpoints ps in if usable cache endpoints p then p else later

  check-reachable :
      (url : String) (cache : Cache)
      → (check_url_reachable world url cache).0.0 ≡ reachable cache url
  unfolding check_url_reachable
  check-reachable url cache =
      ground (arith, answers-read (world.get (rstrip_slash url ⧺ tags_path)))

  same_key : (url other : String) → url ⧺ tags_path ≡ other ⧺ tags_path → url ≡ other
  same_key url other e = cc (
    ap (cut_suffix tags_path) e,
    cut_suffix-append tags_path url,
    cut_suffix-append tags_path other,
  )

  check-keeps_reachable :
      (url other : String) (cache : Cache)
      → reachable (check_url_reachable world url cache).1 other ≡ reachable cache other
  unfolding check_url_reachable
  check-keeps_reachable url other cache = ground (
    arith,
    answers-read (world.get (rstrip_slash url ⧺ tags_path)),
    lookup-insert (url ⧺ tags_path) (other ⧺ tags_path) ((ask world url).0, world.now) cache,
    eq_iff (url ⧺ tags_path) (other ⧺ tags_path),
    same_key url other,
  )

  check-keeps_usable :
      (url : String) (cache : Cache) (endpoints : Endpoints) (p : Provider)
      → usable (check_url_reachable world url cache).1 endpoints p ≡ usable cache endpoints p
  check-keeps_usable url cache endpoints p = elim (Option-cases (endpoint_at p endpoints)) [
    | inl e ↦ ground (arith, e)
    | inr (found, e) ↦ ground (arith, e, check-keeps_reachable url found.url cache)
  ]

  try_provider-usable :
      (p : Provider) (endpoints : Endpoints) (cache : Cache)
      → (try_provider world p endpoints cache).0 ≡ usable cache endpoints p
  unfolding try_provider try_url
  try_provider-usable p endpoints cache = elim (Option-cases (endpoint_at p endpoints)) [
    | inl e ↦ ground (arith, e)
    | inr (found, e) ↦ ground (arith, e, check-reachable found.url cache)
  ]

  try_provider-keeps_usable :
      (p q : Provider) (endpoints : Endpoints) (cache : Cache)
      → usable (try_provider world p endpoints cache).1 endpoints q ≡ usable cache endpoints q
  unfolding try_provider try_url
  try_provider-keeps_usable p q endpoints cache = elim (Option-cases (endpoint_at p endpoints)) [
    | inl e ↦ ground (arith, e)
    | inr (found, e) ↦ ground (arith, e, check-keeps_usable found.url cache endpoints q)
  ]

  first_usable-same :
      (cache cache' : Cache) (endpoints : Endpoints) (chain : List Provider)
      → ((q : Provider) → usable cache' endpoints q ≡ usable cache endpoints q)
      → first_usable cache' endpoints chain ≡ first_usable cache endpoints chain
  unfolding first_usable
  first_usable-same cache cache' endpoints [] same = refl
  first_usable-same cache cache' endpoints (p ∷ ps) same =
      rw (same p, first_usable-same cache cache' endpoints ps same) refl

  walk_chain-first :
      (chain : List Provider) (endpoints : Endpoints) (cache : Cache)
      → (walk_chain world chain endpoints cache).0 ≡ first_usable cache endpoints chain
  unfolding walk_chain first_usable
  walk_chain-first [] endpoints cache = refl
  walk_chain-first (p ∷ ps) endpoints cache =
      let tried = try_provider world p endpoints cache in
      ground (
        arith,
        try_provider-usable p endpoints cache,
        walk_chain-first ps endpoints tried.1,
        first_usable-same cache tried.1 endpoints ps
            (λ q. try_provider-keeps_usable p q endpoints cache),
      )

  resolve_requested-first :
      (p : Provider) (config : BackendConfig) (cache : Cache)
      → (resolve_requested world p config cache).0 ≡ (
          if same_provider p claude_cli || usable cache config.endpoints p
          then p
          else first_usable cache config.endpoints config.fallback_chain)
  unfolding resolve_requested
  resolve_requested-first p config cache =
      let tried = try_provider world p config.endpoints cache in
      ground (
        arith,
        try_provider-usable p config.endpoints cache,
        walk_chain-first config.fallback_chain config.endpoints tried.1,
        first_usable-same cache tried.1 config.endpoints config.fallback_chain
            (λ q. try_provider-keeps_usable p q config.endpoints cache),
      )

  -- The provider that is resolved is the one asked for, if it is the command line or can be used,
  -- else the first of the fallback chain, in the order of the chain, that can be used, else the
  -- command line; neither the default provider nor the priorities of the endpoints have a say. The
  -- command line can be used if it is enabled and is found on the path, another provider if it is
  -- enabled, has an address, and the verdict on that address of the last thirty seconds is good
  -- or, without such a verdict, the address answers.
  pub resolve_provider-first :
      (requested : String) (config : BackendConfig) (cache : Cache)
      → (resolve_provider world requested config cache).0 ≡ (
          if requested == "auto"
          then ok (first_usable cache config.endpoints config.fallback_chain)
          else (provider_of requested >>= λ p. ok (
              if same_provider p claude_cli || usable cache config.endpoints p
              then p
              else first_usable cache config.endpoints config.fallback_chain)))
  unfolding resolve_provider
  resolve_provider-first requested config cache = elim (Bool-cases (requested == "auto")) [
    | inl auto ↦ rw auto (ap ok (walk_chain-first config.fallback_chain config.endpoints cache))
    | inr other ↦ rw other (elim (Result-cases (provider_of requested)) [
      | inl (p, e) ↦ rw e (ap ok (resolve_requested-first p config cache))
      | inr (e, h) ↦ rw h refl
    ])
  ]
