-- ===== src/Tests/FilesCases.antt =====
-- The theorems on the files service at concrete inputs. The host has no links.
use fastapi_modular_template.Base.{◌≡◌, refl, ◌||◌, [], ◌∷◌, leb, eqb, ok}
use Prim.Native.Char.{code}
use fastapi_modular_template.Scheduler.Disk.{FilePath, parts, walk, same_path}
use fastapi_modular_template.Files.{Host, secure_filename, safe_chars, lstrip, rstrip, tenant_root}
use fastapi_modular_template.Files.Service.{
  folder, file, Tree, node_at, without, list_files, mkdir, rename, delete,
}
use fastapi_modular_template.Files.Confined.{Outside, operations-Outside}
use fastapi_modular_template.Files.Names.{delete-outside}

abbrev host : Host
host = record {
  word = λ c. leb 48 (code c);
  space = λ c. eqb (code c) 9 || eqb (code c) 32;
  realpath = walk;
}

abbrev base : FilePath
base = "uploads" ∷ "srv" ∷ []

abbrev tree : Tree
tree =
    ("srv" ∷ [], folder 1)
    ∷ ("app.db" ∷ "srv" ∷ [], file 9 2)
    ∷ (base, folder 1)
    ∷ ("acme" ∷ base, folder 1)
    ∷ ("a.txt" ∷ "acme" ∷ base, file 5 3)
    ∷ []

operations-Outside_example :
    Outside ("acme" ∷ base) tree (list_files host base 7 (λ s. s) "acme" "" tree).1
    × Outside ("acme" ∷ base) tree (mkdir host base 7 "acme" "" "b" tree).1
    × Outside ("acme" ∷ base) tree (rename host base 7 "acme" "" "b" tree).1
    × Outside ("acme" ∷ base) tree (delete host base 7 "acme" "" tree).1
unfolding tenant_root secure_filename parts safe_chars lstrip rstrip walk node_at same_path
operations-Outside_example =
    operations-Outside host base 7 "acme" ("acme" ∷ base) refl (λ s. s) "" "b" tree refl

delete-outside_example :
    delete host base 7 "\t.." "app.db" tree ≡ (ok tt, without ("app.db" ∷ "srv" ∷ []) tree)
unfolding tenant_root secure_filename parts safe_chars lstrip rstrip walk node_at same_path
delete-outside_example =
    delete-outside host "\t" refl refl refl base 7 1 9 2 "app.db" tree (λ path names. refl) refl
      refl refl refl refl
