-- ===== src/Auth/Resolve/Access.antt =====
-- Who gets in, and as what.
use fastapi_modular_template.Base.{
  ℕ, ◌≤◌, String, ◌≡◌, refl, sym, ap, ◌∙◌, ◌≢◌, ◌↔◌, ◌⊎◌, inl, inr, true, false, Option, some, List,
  arith, eq_iff, Bool-cases, Option-cases, truthy, lookup, succeeded, ok,
}
use fastapi_modular_template.Users.Rows.{user_by_id-update_users}
use fastapi_modular_template.Users.Service.{build_user_context, promote_to_superadmin}
use fastapi_modular_template.Auth.Tokens.{Claims, decode_token}
use fastapi_modular_template.Roles.{RoleName, has_minimum_role, UserContext}
use fastapi_modular_template.Tenants.{Tenant}
use fastapi_modular_template.Users.{User, UserDb, user_by_email, user_by_id}
use fastapi_modular_template.Auth.Resolve.{
  Request, Settings, Libraries, Fresh, resolve_external_user, dev_token, resolve_credentials,
  require_auth, require_role, token_sv, bearer, is_admin_email, promote_and_build, resolve_session,
  resolve_claims, resolve_jwt_user, resolve_api_key_user, resolve_dev_bypass,
}

-- The ways past `require_role`: superadmin, or a role in the tenant of the path that is at least
-- the one asked for.
abbrev pub MayAct : RoleName → Option String → UserContext → Type 0
MayAct minimum slug u =
    (u.is_superadmin ≡ true)
    ⊎ ((s : String) × (truthy slug ≡ some s)
        × (role : RoleName) × (lookup s u.tenant_roles ≡ some role)
        × (has_minimum_role role minimum ≡ true))

-- A user passes require_role exactly if the user is a superadmin or has at least that role in the
-- tenant of the path.
require_role_iff :
    (minimum : RoleName) (slug : Option String) (u : UserContext)
    → (require_role minimum slug (some u) ≡ ok u) ↔ MayAct minimum slug u
unfolding require_role require_auth
require_role_iff minimum slug u = (to, from)
  where
    to : require_role minimum slug (some u) ≡ ok u → MayAct minimum slug u
    to h = elim (Bool-cases u.is_superadmin) [
      | inl super ↦ inl super
      | inr plain ↦ elim (Option-cases (truthy slug)) [
        | inl none_given ↦ absurd (ground (arith, plain, none_given))
        | inr (s, given) ↦ elim (Option-cases (lookup s u.tenant_roles)) [
          | inl no_role ↦ absurd (ground (arith, plain, given, no_role))
          | inr (role, has) ↦ inr (s, given, role, has, ground (arith, plain, given, has))
        ]
      ]
    ]

    from : MayAct minimum slug u → require_role minimum slug (some u) ≡ ok u
    from (inl super) = ground (arith, super)
    from (inr (s, given, role, has, enough)) = ground (arith, given, has, enough)

module _ (libs : Libraries) (settings : Settings) where
  -- A token resolves to a context only if it decodes, is no partial token, names an active user
  -- and is not of an earlier session version; the context is built from that user.
  pub resolve_jwt_user_sound :
      (now : ℕ) (tenants : List Tenant) (db : UserDb) (token : String) (ctx : UserContext)
      → resolve_jwt_user libs settings now tenants db token ≡ ok (some ctx)
      → (c : Claims) × (libs.jwt.decode now token ≡ some c)
        × (c.totp_pending ≡ false)
        × (id : String) × (truthy c.sub ≡ some id)
        × (u : User) × (user_by_id id db.users ≡ some u)
        × (u.is_active ≡ true)
        × (u.session_version ≤ token_sv c)
        × (ctx ≡ build_user_context tenants db u)
  unfolding resolve_jwt_user decode_token resolve_claims resolve_session
  resolve_jwt_user_sound now tenants db token ctx h =
      elim (Option-cases (libs.jwt.decode now token)) [
        | inl bad ↦ absurd (ground (arith, bad))
        | inr (c, good) ↦ elim (Option-cases (truthy c.sub)) [
          | inl anonymous ↦ absurd (ground (arith, good, anonymous))
          | inr (id, named) ↦ elim (Option-cases (user_by_id id db.users)) [
            | inl missing ↦ absurd (ground (arith, good, named, missing))
            | inr (u, found) ↦ (
              c,
              good,
              ground arith,
              id,
              named,
              u,
              found,
              ground arith,
              ground arith,
              ground arith,
            )
          ]
        ]
      ]

  api_key_is_no_superadmin :
      (tenants : List Tenant) (key : String) (ctx : UserContext)
      → resolve_api_key_user libs settings tenants key ≡ ok (some ctx)
      → ctx.is_superadmin ≡ false
  unfolding resolve_api_key_user
  api_key_is_no_superadmin tenants key ctx h = ground arith

  bypass_sound :
      (req : Request) (ctx : UserContext)
      → resolve_dev_bypass libs settings req ≡ ok (some ctx)
      → (settings.dev_bypass_token ≢ "") × (dev_token req ≡ some settings.dev_bypass_token)
  unfolding resolve_dev_bypass
  bypass_sound req ctx h = elim (Option-cases (dev_token req)) [
    | inl missing ↦ absurd (ground (arith, missing))
    | inr (t, given) ↦ (
      ground (arith, given, eq_iff settings.dev_bypass_token ""),
      ground (arith, given, eq_iff t settings.dev_bypass_token),
    )
  ]

  -- What a token must be for its context to be one of a superadmin: it decodes, is no partial
  -- token, and names a user who is an active superadmin, is of no later session version, and is the
  -- user of the context.
  abbrev pub IsOfSuperadmin : ℕ → List Tenant → UserDb → Option String → UserContext → Type 0
  IsOfSuperadmin now tenants db credential ctx =
      (token : String) × (credential ≡ some token)
      × (c : Claims) × (libs.jwt.decode now token ≡ some c)
      × (c.totp_pending ≡ false)
      × (id : String) × (truthy c.sub ≡ some id)
      × (u : User) × (user_by_id id db.users ≡ some u)
      × (u.is_superadmin ≡ true)
      × (u.is_active ≡ true)
      × (u.session_version ≤ token_sv c)
      × (ctx ≡ build_user_context tenants db u)

  superadmin_session :
      (now : ℕ) (tenants : List Tenant) (db : UserDb) (token : String) (ctx : UserContext)
      (credential : Option String)
      → credential ≡ some token
      → resolve_jwt_user libs settings now tenants db token ≡ ok (some ctx)
      → ctx.is_superadmin ≡ true
      → IsOfSuperadmin now tenants db credential ctx
  unfolding build_user_context
  superadmin_session now tenants db token ctx credential given h super =
      let (c, good, full, id, named, u, found, active, current, same) =
        resolve_jwt_user_sound now tenants db token ctx h in
      let of_user = ap (λ (x : UserContext). x.is_superadmin) (sym same) ∙ super in
      (token, given, c, good, full, id, named, u, found, of_user, active, current, same)

  -- A superadmin context from a token, an API key or the bypass comes from the session cookie or
  -- the bearer token, which decodes, is no partial token and names an active superadmin of no
  -- later session version, and is the context of that very user; or it comes with the bypass
  -- token, which is then configured.
  pub superadmin_sound :
      (now : ℕ) (tenants : List Tenant) (db : UserDb) (req : Request) (ctx : UserContext)
      → resolve_credentials libs settings now tenants db req ≡ ok (some ctx)
      → ctx.is_superadmin ≡ true
      → IsOfSuperadmin now tenants db (truthy req.session_cookie) ctx
        ⊎ IsOfSuperadmin now tenants db (bearer req) ctx
        ⊎ ((settings.dev_bypass_token ≢ "") × (dev_token req ≡ some settings.dev_bypass_token))
  unfolding resolve_credentials
  superadmin_sound now tenants db req ctx h super =
      elim (Option-cases (truthy req.session_cookie)) [
        | inr (cookie, given) ↦ inl (
            superadmin_session now tenants db cookie ctx (truthy req.session_cookie) given
              (ground (arith, given)) super)
        | inl no_cookie ↦ elim (Option-cases (bearer req)) [
          | inr (token, given) ↦ inr (
              inl (
                superadmin_session now tenants db token ctx (bearer req) given
                  (ground (arith, given, no_cookie)) super))
          | inl no_token ↦ elim (Option-cases (truthy req.x_api_key)) [
            | inr (key, given) ↦ absurd (
                ground
                  (arith, given, no_cookie, no_token, api_key_is_no_superadmin tenants key ctx))
            | inl no_key ↦
                inr (inr (bypass_sound req ctx (ground (arith, no_cookie, no_token, no_key))))
          ]
        ]
      ]

  -- A user known by email gets in through an external provider, although the account is inactive.
  external_ignores_is_active :
      (fresh : Fresh) (tenants : List Tenant) (email : String) (db : UserDb) (u : User)
      → user_by_email email db.users ≡ some u
      → u.is_active ≡ false
      → succeeded (resolve_external_user libs settings fresh tenants email db).0 ≡ true
  unfolding resolve_external_user
  external_ignores_is_active fresh tenants email db u found inactive = ground arith

  -- The request on which the configured administrator is promoted is answered with a context
  -- without superadmin rights, although the database then has the promotion.
  promotion_comes_late :
      (fresh : Fresh) (tenants : List Tenant) (email : String) (db : UserDb) (u : User)
      → user_by_email email db.users ≡ some u
      → user_by_id u.id db.users ≡ some u
      → u.is_superadmin ≡ false
      → is_admin_email libs settings email ≡ true
      → let (r, db') = resolve_external_user libs settings fresh tenants email db in
        (ctx : UserContext) × (r ≡ ok (some ctx))
        × (ctx.is_superadmin ≡ false)
        × (w : User) × (user_by_id u.id db'.users ≡ some w)
        × (w.is_superadmin ≡ true)
  unfolding resolve_external_user promote_and_build build_user_context promote_to_superadmin
  promotion_comes_late fresh tenants email db u found by_id plain chosen =
      let promoted = λ (x : User). record x { is_superadmin = true } in
      (
        (promote_and_build libs settings tenants email u db).0,
        ground (arith, found),
        ground arith,
        promoted u,
        ground (arith, found, user_by_id-update_users u.id promoted db.users u (λ x. refl) by_id),
        refl,
      )
