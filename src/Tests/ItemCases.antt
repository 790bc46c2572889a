-- ===== src/Tests/ItemCases.antt =====
-- The theorem on the items at a concrete input.
use fastapi_modular_template.Base.{
  String, ◌≡◌, refl, Bool, true, none, some, List, [], ◌∷◌, ◌==◌, All,
}
use fastapi_modular_template.Items.{AuditContext, Store}
use fastapi_modular_template.Items.Isolated.{
  Call, creating, updating, deleting, after_all, items_of, IsSearchable, after_all-isolated,
}

abbrev matches : String → String → Bool
matches = λ s text. s == text

abbrev ctx : AuditContext
ctx = record { user_id = "u1"; ip_address = "unknown" }

abbrev store : Store
store = record {
  items =
      record {
        id = "i1";
        tenant_id = "t2";
        name = "chair";
        description = none;
        is_active = true;
        created_by = none;
        search_vector = some "chair";
        created_at = 1;
      }
      ∷ [];
  audit = [];
  audit_writable = true;
}

abbrev calls : List Call
calls =
    creating (record { name = "desk"; description = some "oak" }) ctx "i2" 7
    ∷ updating "i2" (record { name = some (some "table"); description = none; is_active = none })
        ctx
    ∷ deleting "i1" ctx
    ∷ []

after_all-isolated_example :
    (items_of "t2" (after_all matches "t1" calls store).items ≡ items_of "t2" store.items)
    × All IsSearchable (after_all matches "t1" calls store).items
after_all-isolated_example = after_all-isolated matches "t1" "t2" calls store refl (refl, tt)
