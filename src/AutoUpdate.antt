-- ===== src/AutoUpdate.antt =====
-- The automatic update of the framework: scottycore/services/auto_update/service.py.
pub mod Polls
use fastapi_modular_template.Base.{
  ℕ, String, Bool, true, false, not, ◌||◌, Option, none, some, List, [], ◌∷◌, ◌==◌, leb, eqb,
  if◌then◌else◌, str_leb, elem, ◌⧺◌, cut_prefix, cut_suffix, Result, ok, err,
}
use Prim.Native.String
use Prim.Native.Char.{code}
use fastapi_modular_template.Settings.Schemas.{Value, words}
use fastapi_modular_template.Settings.Rows.{Setting, get_setting, upsert}

abbrev pub mode_off : String
mode_off = "off"

abbrev pub mode_notify : String
mode_notify = "notify"

abbrev pub mode_auto : String
mode_auto = "auto"

abbrev pub modes : List String
modes = mode_off ∷ mode_notify ∷ mode_auto ∷ []

abbrev pub default_mode : String
default_mode = mode_notify

abbrev pub default_repo : String
default_repo = "https://api.github.com/repos/scrampker/scottycore"

-- `url` has no slash at its end.
unfoldable pub default_forge_api : String → String
default_forge_api url =
    let repo : String = elim (cut_suffix ".git" url) [ none ↦ url | some cut ↦ cut ] in
    elim (cut_prefix "https://github.com/" repo) [
      | none ↦ default_repo
      | some owner_repo ↦ "https://api.github.com/repos/" ⧺ owner_repo
    ]

-- What `update_check` may raise: the service's own error, or another exception.
pub data Raise : Type 0 where
  auto_update_error : String → Raise
  other_exception : Raise

pub data Attempt {ℓ} (A : Type ℓ) : Type ℓ where
  done : A → Attempt A
  raised : Raise → Attempt A

-- The files and the settings of the host
pub record Host (J : Type 0) : Type 0 where
  pub pyproject : Option String
  pub rebuild_flag : Bool
  pub settings : List (Setting J)

-- A value under a key of the forge's JSON
pub data Entry : Type 0 where
  falsy : Entry
  text : String → Entry
  odd : Entry

-- The answer of an HTTP call, and its JSON in the two forms that are asked for, if it has one.
pub record Response : Type 0 where
  pub status_code : ℕ
  pub release : Option (Entry × Entry)
  pub tags : Option (List Entry)

-- `get` answers an address, or raises an HTTP error; `search_pin` is the brand's pattern, `version`
-- and `earlier` are the packaging library's. The settings may fail to answer.
pub record World (V J : Type 0) : Type 0 where
  pub get : String → Option Response
  pub search_pin : String → Option String
  pub version : String → Option V
  pub earlier : V → V → Bool
  pub loads : J → Result Value
  pub dumps_pending : String → String → ℕ → J
  pub mode_key : String
  pub pending_key : String
  pub settings_answer : Bool
  pub forge_api : String

-- `tag.lstrip("v")`
unfoldable pub lstrip_v : String → String
lstrip_v String.[] = ""
lstrip_v (String.◌∷◌ c s) =
    let rest = lstrip_v s in if eqb (code c) b'v' then rest else String.◌∷◌ c s

-- `text.replace(old, new, 1)`
unfoldable pub replace_first : String → String → String → String
replace_first old new String.[] = ""
replace_first old new (String.◌∷◌ c s) =
    let later = replace_first old new s in
    elim (cut_prefix old (String.◌∷◌ c s)) [ none ↦ String.◌∷◌ c later | some rest ↦ new ⧺ rest ]

-- `a or b`
abbrev pub or_else : Entry → Entry → Entry
or_else falsy b = b
or_else (text s) b = if s == "" then b else text s
or_else odd b = odd

-- The texts among the names of the tags
unfoldable pub names_of : List Entry → List String
names_of [] = []
names_of (text s ∷ more) = s ∷ names_of more
names_of (falsy ∷ more) = names_of more
names_of (odd ∷ more) = names_of more

pub record UpdateCheckResult : Type 0 where
  pub current_pin : Option String
  pub latest_pin : Option String
  pub mode : String
  pub action_taken : String

module _ {V J : Type 0} (world : World V J) where
  -- `_version_key(a) <= _version_key(b)`
  unfoldable pub key_leb : String → String → Bool
  key_leb a b = elim (world.version (lstrip_v a)) [
    | none ↦ elim (world.version (lstrip_v b)) [ none ↦ str_leb a b | some w ↦ true ]
    | some v ↦ elim (world.version (lstrip_v b)) [ none ↦ false | some w ↦ not (world.earlier w v) ]
  ]

  -- `sorted(tags, key=_version_key, reverse=True)`
  unfoldable pub insert_tag : String → List String → List String
  insert_tag t [] = t ∷ []
  insert_tag t (u ∷ us) = if key_leb u t then t ∷ u ∷ us else u ∷ insert_tag t us

  unfoldable pub tags_sorted : List String → List String
  tags_sorted [] = []
  tags_sorted (t ∷ ts) = insert_tag t (tags_sorted ts)

  unfoldable pub fetch_latest_from_tags : Attempt String
  fetch_latest_from_tags = elim (world.get (world.forge_api ⧺ "/tags")) [
    | none ↦ raised other_exception
    | some r ↦
        if leb 400 r.status_code then raised (auto_update_error "forge tags API") else elim r.tags [
          | none ↦ raised other_exception
          | some entries ↦ elim (tags_sorted (names_of entries)) [
            | [] ↦ raised (auto_update_error "no tags on remote")
            | t ∷ ts ↦ done t
          ]
        ]
  ]

  abbrev pub named : Entry → Attempt String
  named falsy = raised (auto_update_error "release payload missing tag name")
  named (text s) =
      if s == "" then raised (auto_update_error "release payload missing tag name") else done s
  named odd = raised (auto_update_error "release payload missing tag name")

  unfoldable pub fetch_latest_tag : Attempt String
  fetch_latest_tag = elim (world.get (world.forge_api ⧺ "/releases/latest")) [
    | none ↦ raised (auto_update_error "forge HTTP error")
    | some r ↦
        if eqb r.status_code 404
        then fetch_latest_from_tags
        else if leb 400 r.status_code
        then raised (auto_update_error "forge release API")
        else elim r.release [
          | none ↦ raised (auto_update_error "malformed release JSON")
          | some (tag_name, name) ↦ named (or_else tag_name name)
        ]
  ]

  unfoldable pub is_newer : String → String → Bool
  is_newer current latest =
      if current == "" || latest == "" then false else elim (world.version (lstrip_v current)) [
        | none ↦ not (current == latest)
        | some c ↦ elim (world.version (lstrip_v latest)) [
          | none ↦ not (current == latest)
          | some l ↦ world.earlier c l
        ]
      ]

  unfoldable pub read_current_pin : Host J → Attempt String
  read_current_pin h = elim h.pyproject [
    | none ↦ raised (auto_update_error "no pyproject.toml")
    | some content ↦ elim (world.search_pin content) [
      | none ↦ raised (auto_update_error "dep not found in pyproject")
      | some pin ↦ done pin
    ]
  ]

  unfoldable pub read_mode : Host J → String
  read_mode h =
      if not world.settings_answer
      then default_mode
      else elim (get_setting "global" none world.mode_key h.settings) [
        | none ↦ default_mode
        | some row ↦ elim (world.loads row.value_json) [
          | ok (words raw) ↦ if elem raw modes then raw else default_mode
          | ok _ ↦ default_mode
          | err e ↦ default_mode
        ]
      ]

  unfoldable pub emit_notify : String → String → ℕ → Host J → Host J
  emit_notify current latest now h = if not world.settings_answer then h else record h {
    settings =
        upsert "global" none world.pending_key (world.dumps_pending current latest now) none
          h.settings;
  }

  unfoldable pub bump_pin : String → String → Host J → Attempt (Host J)
  bump_pin current latest h = elim h.pyproject [
    | none ↦ raised other_exception
    | some content ↦
        if replace_first ("@" ⧺ current) ("@" ⧺ latest) content == content
        then raised (auto_update_error "failed to bump pin")
        else done
            (record h { pyproject = some (replace_first ("@" ⧺ current) ("@" ⧺ latest) content) })
  ]

  abbrev touch_rebuild_flag : Host J → Host J
  touch_rebuild_flag h = record h { rebuild_flag = true }

  abbrev report : Option String → Option String → String → String → UpdateCheckResult
  report current latest mode action = record {
    current_pin = current;
    latest_pin = latest;
    mode = mode;
    action_taken = action;
  }

  -- From the reading of the mode on
  unfoldable pub act : String → String → ℕ → Host J → Attempt UpdateCheckResult × Host J
  act current latest now h =
      let mode = read_mode h in
      if not (is_newer current latest)
      then (done (report (some current) (some latest) mode "none"), h)
      else if mode == mode_off
      then (done (report (some current) (some latest) mode "none"), h)
      else if mode == mode_notify
      then (
        done (report (some current) (some latest) mode "notified"),
        emit_notify current latest now h,
      )
      else if mode == mode_auto
      then elim (bump_pin current latest h) [
        | raised e ↦ (raised e, h)
        | done h' ↦
            (done (report (some current) (some latest) mode "auto-updated"), touch_rebuild_flag h')
      ]
      else (done (report (some current) (some latest) mode "error"), h)

  unfoldable pub check_once : ℕ → Host J → Attempt UpdateCheckResult × Host J
  check_once now h = elim (read_current_pin h) [
    | raised other_exception ↦ (raised other_exception, h)
    | raised (auto_update_error m) ↦ (done (report none none mode_off "error"), h)
    | done current ↦ elim fetch_latest_tag [
      | raised other_exception ↦ (raised other_exception, h)
      | raised (auto_update_error m) ↦ (done (report (some current) none (read_mode h) "error"), h)
      | done latest ↦ act current latest now h
    ]
  ]
