-- ===== src/Tests/ExchangeCases.antt =====
-- The engine's reading of a bundle at a concrete input.
use fastapi_modular_template.Base.{◌≡◌, refl, none, List, [], ◌∷◌, Dict, lookup, ok}
use fastapi_modular_template.Archive.{Member}
use fastapi_modular_template.Sync.Rows.{Row, absent}
use fastapi_modular_template.Sync.Bundle.{Codec, extract_bundle}
use fastapi_modular_template.Backup.Bundle.{
  platform, Manifest, Export, Formats, build_tarball, file_of, members_of, payload_members,
  file_members,
}
use fastapi_modular_template.Backup.Bundle.Exchange.{rows_of, extract_bundle-build}

abbrev item : Row
item = record { id = "r1"; tenant_id = none; updated_at = absent; payload = "{}" }

abbrev exported : Dict (Export Row)
exported = ("items", record { rows = item ∷ []; files = ("a.txt", "text") ∷ [] }) ∷ []

abbrev written : List Member
written =
    file_of "manifest.json" "manifest"
    ∷ file_of "data/items.json" "[r1]"
    ∷ file_of "files/items/a.txt" "text"
    ∷ []

abbrev head : Manifest
head = record {
  schema_version = 1;
  scope = platform;
  tenant_slug = none;
  timestamp = 1000;
  app_name = "app";
  app_version = "1.0";
  contributors = record { id = "items"; rows = 1; files = 1 } ∷ [];
}

abbrev writer : Formats Row
writer = record {
  pack = λ ms. "tar";
  unpack = λ s. ok written;
  dumps = λ rows. "[r1]";
  loads = λ s. ok (item ∷ []);
  dump_manifest = λ m. "manifest";
  validate_manifest = λ s. ok head;
}

abbrev reader : Codec
reader = record {
  open_tar = λ s. ok written;
  loads_rows = λ s. ok (item ∷ []);
  validate_manifest = λ s. ok tt;
}

extract_bundle-build_example :
    extract_bundle reader (build_tarball writer head exported) ≡ ok (rows_of exported)
unfolding members_of payload_members file_members lookup
extract_bundle-build_example =
    extract_bundle-build writer reader head exported refl refl (refl, refl, tt)
