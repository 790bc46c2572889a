-- ===== src/Items/Isolated.antt =====
-- What the operations of one tenant leave of the others' items, and of the texts for the search.
use fastapi_modular_template.Base.{
  ℕ, String, ◌≡◌, refl, ap, ◌∙◌, inl, inr, Bool, false, Option, none, some, List, [], ◌∷◌, ◌++◌,
  arith, ◌==◌, eq_iff, filter, Option-cases, Bool-cases, Result-cases, All, All-append, ok,
}
use mathlib.Core.List.{append-nil}
use fastapi_modular_template.Items.{
  Item, AuditContext, AuditEntry, Store, log, entry_of, log_data_access, search_text,
  update_search_vector, item_by_id, put_item, drop_item, ItemCreate, ItemUpdate, ItemFilter, create,
  owned, get_item, set_fields, update, delete, list_items,
}

-- A call in the name of a tenant
pub data Call : Type 0 where
  creating : ItemCreate → AuditContext → String → ℕ → Call
  getting : String → Option AuditContext → Call
  updating : String → ItemUpdate → AuditContext → Call
  deleting : String → AuditContext → Call
  listing : ItemFilter → Option AuditContext → Call

module _ (matches : String → String → Bool) (tenant_id : String) where
  unfoldable pub after : Call → Store → Store
  after (creating given ctx id now) s = (create tenant_id given ctx id now s).1
  after (getting id ctx) s = (get_item id tenant_id ctx s).1
  after (updating id given ctx) s = (update id tenant_id given ctx s).1
  after (deleting id ctx) s = (delete id tenant_id ctx s).1
  after (listing filters ctx) s = (list_items matches tenant_id filters ctx s).1

  unfoldable pub after_all : List Call → Store → Store
  after_all [] s = s
  after_all (c ∷ cs) s = after_all cs (after c s)

abbrev pub items_of : String → List Item → List Item
items_of tenant_id items = filter (λ (x : Item). x.tenant_id == tenant_id) items

-- The text for the search is that of the name and the description.
abbrev pub IsSearchable : Item → Type 0
IsSearchable x = x.search_vector ≡ some (search_text x.name x.description)

log-items : (entry : AuditEntry) (s : Store) → (log entry s).items ≡ s.items
unfolding log
log-items entry s = ground arith

access-items :
    (tenant_id action target_id : String) (ctx : Option AuditContext) (s : Store)
    → (log_data_access tenant_id action target_id ctx s).items ≡ s.items
access-items tenant_id action target_id none s = refl
access-items tenant_id action target_id (some ctx) s =
    log-items (entry_of tenant_id action target_id ctx) s

module _ (other : String) where
  items_of-append :
      (xs ys : List Item) → items_of other (xs ++ ys) ≡ items_of other xs ++ items_of other ys
  items_of-append [] ys = refl
  items_of-append (x ∷ xs) ys = ground (arith, items_of-append xs ys)

  items_of-put :
      (id : String) (old new : Item) (xs : List Item)
      → item_by_id id xs ≡ some old
      → (old.tenant_id == other) ≡ false
      → (new.tenant_id == other) ≡ false
      → items_of other (put_item id new xs) ≡ items_of other xs
  unfolding item_by_id put_item
  items_of-put id old new [] found a b = refl
  items_of-put id old new (x ∷ xs) found a b = ground (arith, items_of-put id old new xs)

  items_of-drop :
      (id : String) (old : Item) (xs : List Item)
      → item_by_id id xs ≡ some old
      → (old.tenant_id == other) ≡ false
      → items_of other (drop_item id xs) ≡ items_of other xs
  unfolding item_by_id drop_item
  items_of-drop id old [] found a = refl
  items_of-drop id old (x ∷ xs) found a = ground (arith, items_of-drop id old xs)

owned-found :
    (id tenant_id : String) (items : List Item) (item : Item)
    → owned id tenant_id items ≡ ok item
    → (item_by_id id items ≡ some item) × (item.tenant_id ≡ tenant_id)
unfolding owned
owned-found id tenant_id items item h = elim (Option-cases (item_by_id id items)) [
  | inl e ↦ ground (arith, e)
  | inr (x, e) ↦ ground (arith, e, eq_iff x.tenant_id tenant_id)
]

set_fields-tenant :
    (given : ItemUpdate) (item changed : Item)
    → set_fields given item ≡ some changed
    → (update_search_vector changed).tenant_id ≡ item.tenant_id
unfolding set_fields update_search_vector
set_fields-tenant given item changed h = ground arith

module _ (matches : String → String → Bool) (tenant_id other : String)
    (apart : (tenant_id == other) ≡ false) where
  after-others :
      (c : Call) (s : Store)
      → items_of other (after matches tenant_id c s).items ≡ items_of other s.items
  unfolding after create update get_item delete list_items
  after-others (creating given ctx id now) s = rw log-items (
      items_of-append other s.items _
      ∙ unfold update_search_vector in (rw apart (append-nil (items_of other s.items))))
  after-others (getting id ctx) s = elim (Result-cases (owned id tenant_id s.items)) [
    | inr (e, refused) ↦ ground (arith, refused)
    | inl (item, found) ↦ ground (arith, found, access-items tenant_id "item.view" id ctx s)
  ]
  after-others (updating id given ctx) s = elim (Result-cases (owned id tenant_id s.items)) [
    | inr (e, refused) ↦ ground (arith, refused)
    | inl (item, found) ↦ elim (Option-cases (set_fields given item)) [
      | inl e ↦ ground (arith, found, e)
      | inr (changed, e) ↦
          let (there, mine) = owned-found id tenant_id s.items item found in
          let new = update_search_vector changed in
          ground (
            arith,
            found,
            e,
            mine,
            set_fields-tenant given item changed e,
            log-items (entry_of tenant_id "item.update" id ctx)
                (record s { items = put_item id new s.items }),
            items_of-put other id item new s.items there,
          )
    ]
  ]
  after-others (deleting id ctx) s = elim (Result-cases (owned id tenant_id s.items)) [
    | inr (e, refused) ↦ ground (arith, refused)
    | inl (item, found) ↦
        let (there, mine) = owned-found id tenant_id s.items item found in
        ground (
          arith,
          found,
          mine,
          log-items (entry_of tenant_id "item.delete" id ctx)
              (record s { items = drop_item id s.items }),
          items_of-drop other id item s.items there,
        )
  ]
  after-others (listing filters ctx) s =
      ap (items_of other) (access-items tenant_id "item.list" "list" ctx s)

put-All :
    (id : String) (new : Item) (xs : List Item)
    → All IsSearchable xs
    → IsSearchable new
    → All IsSearchable (put_item id new xs)
unfolding put_item
put-All id new [] h k = h
put-All id new (x ∷ xs) h k = elim (Bool-cases (x.id == id)) [
  | inl same ↦ rw same (k, h.1)
  | inr differs ↦ rw differs (h.0, put-All id new xs h.1 k)
]

drop-All : (id : String) (xs : List Item) → All IsSearchable xs → All IsSearchable (drop_item id xs)
unfolding drop_item
drop-All id [] h = h
drop-All id (x ∷ xs) h = elim (Bool-cases (x.id == id)) [
  | inl same ↦ rw same h.1
  | inr differs ↦ rw differs (h.0, drop-All id xs h.1)
]

vector-IsSearchable : (x : Item) → IsSearchable (update_search_vector x)
unfolding update_search_vector
vector-IsSearchable x = refl

module _ (matches : String → String → Bool) (tenant_id : String) where
  after-IsSearchable :
      (c : Call) (s : Store)
      → All IsSearchable s.items
      → All IsSearchable (after matches tenant_id c s).items
  unfolding after create update get_item delete list_items
  after-IsSearchable (creating given ctx id now) s h =
      rw log-items (All-append IsSearchable s.items _ h (vector-IsSearchable _, tt))
  after-IsSearchable (getting id ctx) s h =
      let same : (get_item id tenant_id ctx s).1.items ≡ s.items =
        elim (Result-cases (owned id tenant_id s.items)) [
          | inr (e, refused) ↦ ground (arith, refused)
          | inl (item, found) ↦ ground (arith, found, access-items tenant_id "item.view" id ctx s)
        ] in
      rw same h
  after-IsSearchable (updating id given ctx) s h =
      elim (Result-cases (owned id tenant_id s.items)) [
        | inr (e, refused) ↦
            let same : (update id tenant_id given ctx s).1 ≡ s = ground (arith, refused) in
            rw same h
        | inl (item, found) ↦ elim (Option-cases (set_fields given item)) [
          | inl e ↦
              let same : (update id tenant_id given ctx s).1 ≡ s = ground (arith, found, e) in
              rw same h
          | inr (changed, e) ↦
              let new = update_search_vector changed in
              let put : (update id tenant_id given ctx s).1.items ≡ put_item id new s.items =
                ground (
                  arith,
                  found,
                  e,
                  log-items (entry_of tenant_id "item.update" id ctx)
                      (record s { items = put_item id new s.items }),
                ) in
              rw put (put-All id new s.items h (vector-IsSearchable changed))
        ]
      ]
  after-IsSearchable (deleting id ctx) s h = elim (Result-cases (owned id tenant_id s.items)) [
    | inr (e, refused) ↦
        let same : (delete id tenant_id ctx s).1 ≡ s = ground (arith, refused) in rw same h
    | inl (item, found) ↦
        let dropped : (delete id tenant_id ctx s).1.items ≡ drop_item id s.items = ground (
          arith,
          found,
          log-items (entry_of tenant_id "item.delete" id ctx)
              (record s { items = drop_item id s.items }),
        ) in
        rw dropped (drop-All id s.items h)
  ]
  after-IsSearchable (listing filters ctx) s h =
      rw (access-items tenant_id "item.list" "list" ctx s) h

  -- No sequence of calls of the items service in the name of one tenant changes the items of
  -- another, or breaks the rule that the text for the search of every item is made of its name and
  -- description.
  pub after_all-isolated :
      (other : String) (calls : List Call) (s : Store)
      → (tenant_id == other) ≡ false
      → All IsSearchable s.items
      → (items_of other (after_all matches tenant_id calls s).items ≡ items_of other s.items)
        × All IsSearchable (after_all matches tenant_id calls s).items
  unfolding after_all
  after_all-isolated other [] s apart h = (refl, h)
  after_all-isolated other (c ∷ cs) s apart h =
      let (same, fine) =
        after_all-isolated other cs (after matches tenant_id c s) apart
          (after-IsSearchable c s h) in
      (same ∙ after-others matches tenant_id other apart c s, fine)
