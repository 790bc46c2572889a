-- ===== src/Tests/BackupCases.antt =====
-- The theorems on bundles at concrete inputs. A row is a text, and so is a store.
use fastapi_modular_template.Base.{
  String, ◌≡◌, refl, inr, none, List, [], ◌∷◌, ◌==◌, if◌then◌else◌, length, Dict, lookup,
  value_error, ok,
}
use fastapi_modular_template.Backup.Bundle.RoundTrip.{IsFaithful}
use fastapi_modular_template.Backup.Service.Expected.{carry_out, calls, summary_of}
use fastapi_modular_template.Backup.Service.Restored.{restore-export}
use fastapi_modular_template.Archive.{Member}
use fastapi_modular_template.Backup.Bundle.{
  platform, Manifest, Export, Formats, members_of, file_of, file_members, payload_members,
}
use fastapi_modular_template.Backup.Service.{
  BackupContributor, Platform, entries, run_full_export, restore_bundle,
}

abbrev exported_users : Export String
exported_users = record { rows = "ann" ∷ []; files = [] }

abbrev exported_files : Export String
exported_files = record { rows = []; files = ("a/b.txt", "text") ∷ [] }

abbrev payloads : Dict (Export String)
payloads = ("users", exported_users) ∷ ("files", exported_files) ∷ []

abbrev members : List Member
members =
    file_of "manifest.json" "manifest"
    ∷ file_of "data/users.json" "[ann]"
    ∷ file_of "data/files.json" "[]"
    ∷ file_of "files/files/a/b.txt" "text"
    ∷ []

abbrev manifest : Manifest
manifest = record {
  schema_version = 1;
  scope = platform;
  tenant_slug = none;
  timestamp = 1000;
  app_name = "app";
  app_version = "1.0";
  contributors =
      record { id = "users"; rows = 1; files = 0 }
      ∷ record { id = "files"; rows = 0; files = 1 }
      ∷ [];
}

abbrev formats : Formats String
formats = record {
  pack = λ ms. "tar";
  unpack = λ s. ok members;
  dumps = λ rows. elim rows [ [] ↦ "[]" | x ∷ xs ↦ "[ann]" ];
  loads = λ s. if s == "[]" then ok [] else ok ("ann" ∷ []);
  dump_manifest = λ m. "manifest";
  validate_manifest = λ s. ok manifest;
}

formats-IsFaithful : IsFaithful formats manifest payloads
unfolding members_of payload_members file_members lookup
formats-IsFaithful = (refl, refl, (refl, refl, refl, (refl, refl, refl, tt)))

abbrev env : Platform String
env = record {
  formats = formats;
  slug_of = λ row. none;
  id_text = λ row. row;
  message = λ e. "failed";
  unsupported = λ n. value_error "unsupported";
  app_name = "app";
  app_version = "1.0";
}

-- It exports what it is given, and its restore keeps the rows' number.
abbrev contributor : Export String → BackupContributor String String
contributor e = record {
  scopes = platform ∷ [];
  export = λ scope tenant_id store. ok e;
  export_delta = none;
  restore = λ scope tenant_id rows files store. (ok (length rows), "restored");
}

abbrev source : Dict (BackupContributor String String)
source = ("users", contributor exported_users) ∷ ("files", contributor exported_files) ∷ []

abbrev target : Dict (BackupContributor String String)
target = ("users", contributor (record { rows = []; files = [] })) ∷ []

restore-export_example :
    let (outcomes, after) = carry_out platform none (calls platform target payloads) "empty" in
    (bundle : String) × (run_full_export env platform none none 1000 source "full" ≡ ok bundle)
    × (restore_bundle env target bundle "empty" ≡ (ok (summary_of env.message outcomes), after))
unfolding entries lookup
restore-export_example =
    restore-export env platform none none 1000 source target payloads "full" "empty"
      (inr (
        refl,
        exported_users,
        refl,
        ("files", exported_files) ∷ [],
        refl,
        inr (refl, exported_files, refl, [], refl, refl),
      ))
      formats-IsFaithful
