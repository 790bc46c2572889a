-- ===== src/Items.antt =====
-- The items of the tenants: scottycore/services/items/models.py, the rows of
-- scottycore/services/items/repository.py and scottycore/services/items/service.py, with the entries
-- that scottycore/services/audit/service.py logs of them.
pub mod Isolated
use fastapi_modular_template.Base.{
  ℕ, zero, suc, ◌-◌, ◌*◌, String, Bool, true, false, not, ◌&&◌, ◌||◌, Option, none, some, List, [],
  ◌∷◌, ◌++◌, ◌==◌, ltb, leb, if◌then◌else◌, length, filter, take, str_leb, truthy, ◌⧺◌, Result,
  not_found_error, forbidden_error, other_error, ok, err,
}

pub record Item : Type 0 where
  pub id : String
  pub tenant_id : String
  pub name : String
  pub description : Option String
  pub is_active : Bool
  pub created_by : Option String
  pub search_vector : Option String
  pub created_at : ℕ

-- Who acts, from where
pub record AuditContext : Type 0 where
  pub user_id : String
  pub ip_address : String

pub record AuditEntry : Type 0 where
  pub user_id : String
  pub tenant_id : Option String
  pub action : String
  pub target_type : String
  pub target_id : String
  pub ip_address : String

-- The table of the items and the audit log, which a failing database may refuse to write
pub record Store : Type 0 where
  pub items : List Item
  pub audit : List AuditEntry
  pub audit_writable : Bool

-- `AuditService.log`: what it raises is swallowed.
unfoldable pub log : AuditEntry → Store → Store
log entry s = if s.audit_writable then record s { audit = s.audit ++ entry ∷ [] } else s

abbrev pub entry_of : String → String → String → AuditContext → AuditEntry
entry_of tenant_id action target_id ctx = record {
  user_id = ctx.user_id;
  tenant_id = some tenant_id;
  action = action;
  target_type = "item";
  target_id = target_id;
  ip_address = ctx.ip_address;
}

-- `log_data_access`, where the caller gives a context
abbrev pub log_data_access : String → String → String → Option AuditContext → Store → Store
log_data_access tenant_id action target_id none s = s
log_data_access tenant_id action target_id (some ctx) s =
    log (entry_of tenant_id action target_id ctx) s

-- The text that a search looks into
abbrev pub search_text : String → Option String → String
search_text name description = elim (truthy description) [ none ↦ name | some d ↦ name ⧺ " " ⧺ d ]

unfoldable pub update_search_vector : Item → Item
update_search_vector item = record item {
  search_vector = some (search_text item.name item.description);
}

unfoldable pub item_by_id : String → List Item → Option Item
item_by_id id [] = none
item_by_id id (x ∷ xs) = if x.id == id then some x else item_by_id id xs

-- The row of an identifier is replaced, or deleted.
unfoldable pub put_item : String → Item → List Item → List Item
put_item id item [] = []
put_item id item (x ∷ xs) = if x.id == id then item ∷ xs else x ∷ put_item id item xs

unfoldable pub drop_item : String → List Item → List Item
drop_item id [] = []
drop_item id (x ∷ xs) = if x.id == id then xs else x ∷ drop_item id xs

pub record ItemCreate : Type 0 where
  pub name : String
  pub description : Option String

-- A field that is not set, or is set, to None as well
pub record ItemUpdate : Type 0 where
  pub name : Option (Option String)
  pub description : Option (Option String)
  pub is_active : Option (Option Bool)

-- `id` is the new identifier.
unfoldable pub create :
    String → ItemCreate → AuditContext → String → ℕ → Store → Result Item × Store
create tenant_id given ctx id now s =
    let item : Item = update_search_vector (record {
      id = id;
      tenant_id = tenant_id;
      name = given.name;
      description = given.description;
      is_active = true;
      created_by = some ctx.user_id;
      search_vector = none;
      created_at = now;
    }) in
    (
      ok item,
      log (entry_of tenant_id "item.create" id ctx) (record s { items = s.items ++ item ∷ [] }),
    )

-- The item, if it is the tenant's
unfoldable pub owned : String → String → List Item → Result Item
owned item_id tenant_id items = elim (item_by_id item_id items) [
  | none ↦ err (not_found_error "Item")
  | some item ↦
      if item.tenant_id == tenant_id then ok item else err (forbidden_error "Item not accessible")
]

unfoldable pub get_item : String → String → Option AuditContext → Store → Result Item × Store
get_item item_id tenant_id ctx s = elim (owned item_id tenant_id s.items) [
  | err e ↦ (err e, s)
  | ok item ↦ (ok item, log_data_access tenant_id "item.view" item_id ctx s)
]

abbrev pub or_keep {ℓ} : {A : Type ℓ} → A → Option A → A
or_keep old none = old
or_keep old (some new) = new

abbrev pub is_none_set {ℓ} : {A : Type ℓ} → Option (Option A) → Bool
is_none_set (some none) = true
is_none_set _ = false

abbrev pub set_or_keep {ℓ} : {A : Type ℓ} → A → Option (Option A) → A
set_or_keep old (some (some new)) = new
set_or_keep old _ = old

-- `setattr` of what is set; None in a column that must not be empty is refused.
unfoldable pub set_fields : ItemUpdate → Item → Option Item
set_fields given item =
    if is_none_set given.name || is_none_set given.is_active
    then none
    else some (record item {
      name = set_or_keep item.name given.name;
      description = or_keep item.description given.description;
      is_active = set_or_keep item.is_active given.is_active;
    })

unfoldable pub update : String → String → ItemUpdate → AuditContext → Store → Result Item × Store
update item_id tenant_id given ctx s = elim (owned item_id tenant_id s.items) [
  | err e ↦ (err e, s)
  | ok item ↦ elim (set_fields given item) [
    | none ↦ (err (other_error "IntegrityError"), s)
    | some changed ↦ (
      ok (update_search_vector changed),
      log (entry_of tenant_id "item.update" item_id ctx)
          (record s { items = put_item item_id (update_search_vector changed) s.items }),
    )
  ]
]

unfoldable pub delete : String → String → AuditContext → Store → Result (Unit {0}) × Store
delete item_id tenant_id ctx s = elim (owned item_id tenant_id s.items) [
  | err e ↦ (err e, s)
  | ok item ↦ (
    ok tt,
    log (entry_of tenant_id "item.delete" item_id ctx)
        (record s { items = drop_item item_id s.items }),
  )
]

-- `ItemFilter`; `matches` is the database's `ilike`.
pub record ItemFilter : Type 0 where
  pub is_active : Option Bool
  pub search : Option String
  pub page : ℕ
  pub per_page : ℕ

abbrev pub same_flag : Bool → Bool → Bool
same_flag true b = b
same_flag false b = not b

abbrev pub found_in : (String → String → Bool) → String → Option String → Bool
found_in matches s none = false
found_in matches s (some text) = matches s text

abbrev pub is_wanted : (String → String → Bool) → ItemFilter → Item → Bool
is_wanted matches filters x =
    elim filters.is_active [ none ↦ true | some b ↦ same_flag b x.is_active ]
    && elim (truthy filters.search) [
      | none ↦ true
      | some s ↦ matches s x.name || found_in matches s x.description
    ]

unfoldable pub insert_item : (Item → Item → Bool) → Item → List Item → List Item
insert_item before x [] = x ∷ []
insert_item before x (y ∷ ys) = if before x y then x ∷ y ∷ ys else y ∷ insert_item before x ys

-- `order_by`
unfoldable pub ordered : (Item → Item → Bool) → List Item → List Item
ordered before [] = []
ordered before (x ∷ xs) = insert_item before x (ordered before xs)

unfoldable pub skip : ℕ → List Item → List Item
skip zero xs = xs
skip (suc n) [] = []
skip (suc n) (x ∷ xs) = skip n xs

-- The page, and the number of all the items that are wanted
unfoldable pub list_items :
    (String → String → Bool)
    → String
    → ItemFilter
    → Option AuditContext
    → Store
    → (List Item × ℕ) × Store
list_items matches tenant_id filters ctx s =
    let found =
      filter (λ (x : Item). x.tenant_id == tenant_id && is_wanted matches filters x) s.items in
    (
      (
        take filters.per_page (
            skip ((filters.page - 1) * filters.per_page)
              (ordered (λ x y. str_leb x.name y.name) found)),
        length found,
      ),
      log_data_access tenant_id "item.list" "list" ctx s,
    )

-- The report on the items created more than `retention_days` before `now`, in seconds
unfoldable pub check_retention : String → ℕ → ℕ → Store → List Item
check_retention tenant_id retention_days now s =
    ordered (λ x y. leb x.created_at y.created_at)
      (filter
        (λ (x : Item). x.tenant_id == tenant_id && ltb x.created_at (now - retention_days * 86400))
        s.items)
