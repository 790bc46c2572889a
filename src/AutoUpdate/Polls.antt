-- ===== src/AutoUpdate/Polls.antt =====
-- What a poll changes, and when it stops to.
use fastapi_modular_template.Base.{
  ℕ, String, ◌≡◌, refl, ap, ◌⊎◌, inl, inr, true, false, ◌&&◌, some, arith, ◌==◌, eq_iff, eq_refl,
  Bool-cases, Option-cases, ◌⧺◌,
}
use fastapi_modular_template.AutoUpdate.{
  mode_off, mode_auto, Host, World, replace_first, fetch_latest_tag, is_newer, read_current_pin,
  read_mode, emit_notify, bump_pin, act, check_once, done, Raise, Attempt, lstrip_v, raised,
  mode_notify,
}

Attempt-cases :
    {A : Type 0} (r : Attempt A) → ((a : A) × (r ≡ done a)) ⊎ ((e : Raise) × (r ≡ raised e))
Attempt-cases (done a) = inl (a, refl)
Attempt-cases (raised e) = inr (e, refl)

module _ {V J : Type 0} (world : World V J) (now : ℕ) where
  act-quiet :
      (current latest : String) (h : Host J)
      → (is_newer world current latest && read_mode world h == mode_auto) ≡ false
      → (act world current latest now h).1.pyproject ≡ h.pyproject
  unfolding act emit_notify
  act-quiet current latest h quiet = ground arith

  -- The pin of the file is replaced, or the file has no such text and stays.
  abbrev pub bumped : String → String → String → Host J → Host J
  bumped current latest content h = record h {
    pyproject = some (replace_first ("@" ⧺ current) ("@" ⧺ latest) content);
    rebuild_flag = true;
  }

  act-auto :
      (current latest content : String) (h : Host J)
      → is_newer world current latest ≡ true
      → read_mode world h ≡ mode_auto
      → h.pyproject ≡ some content
      → ((act world current latest now h).1 ≡ h)
        ⊎ ((act world current latest now h).1 ≡ bumped current latest content h)
  unfolding act bump_pin
  act-auto current latest content h newer auto file = ground (
    arith,
    newer,
    file,
    ap (λ m. m == mode_off) auto,
    ap (λ m. m == mode_notify) auto,
    ap (λ m. m == mode_auto) auto,
  )

  -- A poll leaves the project file as it is, or it is in the mode auto, the forge's latest tag is
  -- newer than the pin that the pattern finds, and the poll replaces the pin in the file and asks
  -- for a rebuild.
  pub check_once-pin :
      (h : Host J)
      → ((check_once world now h).1.pyproject ≡ h.pyproject)
        ⊎ ((current : String) × (latest : String) × (content : String) × (h.pyproject
              ≡ some content)
            × (world.search_pin content ≡ some current)
            × (fetch_latest_tag world ≡ done latest)
            × (is_newer world current latest ≡ true)
            × (read_mode world h ≡ mode_auto)
            × ((check_once world now h).1 ≡ bumped current latest content h))
  unfolding check_once read_current_pin
  check_once-pin h = elim (Option-cases h.pyproject) [
    | inl absent ↦ inl (ground (arith, absent))
    | inr (content, file) ↦ elim (Option-cases (world.search_pin content)) [
      | inl missing ↦ inl (ground (arith, file, missing))
      | inr (current, pin) ↦ elim (Attempt-cases (fetch_latest_tag world)) [
        | inr (e, failed) ↦ inl (ground (arith, file, pin, failed))
        | inl (latest, fetched) ↦
            elim (Bool-cases (is_newer world current latest && read_mode world h == mode_auto)) [
              | inr quiet ↦
                  inl (ground (arith, file, pin, fetched, act-quiet current latest h quiet))
              | inl both ↦
                  let newer : is_newer world current latest ≡ true = ground arith in
                  let auto : read_mode world h ≡ mode_auto =
                    ground (arith, eq_iff (read_mode world h) mode_auto) in
                  elim (act-auto current latest content h newer auto file) [
                    | inl same ↦ inl (ground (arith, file, pin, fetched, same))
                    | inr changed ↦ inr (
                      current,
                      latest,
                      content,
                      file,
                      pin,
                      fetched,
                      newer,
                      auto,
                      ground (arith, file, pin, fetched, changed),
                    )
                  ]
            ]
      ]
    ]
  ]

  -- In the mode off a poll changes nothing.
  check_once-off : (h : Host J) → read_mode world h ≡ mode_off → (check_once world now h).1 ≡ h
  unfolding check_once act
  check_once-off h off = elim (Attempt-cases (read_current_pin world h)) [
    | inr (e, failed) ↦ ground (arith, failed)
    | inl (current, pin) ↦ elim (Attempt-cases (fetch_latest_tag world)) [
      | inr (e, failed) ↦ ground (arith, pin, failed)
      | inl (latest, fetched) ↦ ground (arith, pin, fetched, ap (λ m. m == mode_off) off)
    ]
  ]

  -- After a poll has replaced the pin, the next poll changes nothing, if the forge still has the
  -- same latest tag, the pattern finds the new pin in the new file and no version is earlier than
  -- itself.
  pub check_once-settles :
      (current latest content : String) (h : Host J)
      → fetch_latest_tag world ≡ done latest
      → world.search_pin (replace_first ("@" ⧺ current) ("@" ⧺ latest) content) ≡ some latest
      → ((v : V) → world.earlier v v ≡ false)
      → (check_once world now (bumped current latest content h)).1 ≡ bumped current latest content h
  unfolding check_once act read_current_pin is_newer
  check_once-settles current latest content h fetched found irreflexive =
      elim (Option-cases (world.version (lstrip_v latest))) [
        | inl unversioned ↦ ground (arith, fetched, found, unversioned, eq_refl latest)
        | inr (v, versioned) ↦ ground (arith, fetched, found, versioned, irreflexive v)
      ]
