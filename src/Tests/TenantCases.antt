-- ===== src/Tests/TenantCases.antt =====
-- The theorem on slugs at a concrete input.
use fastapi_modular_template.Base.{◌≡◌, refl, true, false, leb, eqb}
use Prim.Native.Char.{code}
use fastapi_modular_template.Files.{lstrip, rstrip}
use fastapi_modular_template.Tenants.Service.{Letters, keep, collapse, slugify}
use fastapi_modular_template.Tenants.Slugs.{
  all_chars, single, starts, ends, is_slug_char, slugify-again,
}

abbrev letters : Letters
letters = record { word = λ c. leb 48 (code c); space = λ c. eqb (code c) 32; lower = λ s. s }

slugify_test : slugify letters " my  app_1! -" ≡ "my-app-1"
unfolding slugify keep collapse lstrip rstrip
slugify_test = refl

slugify-again_example :
    (all_chars (is_slug_char letters) (slugify letters " my  app_1! -") ≡ true)
    × (single false (slugify letters " my  app_1! -") ≡ true)
    × (starts (slugify letters " my  app_1! -") ≡ false)
    × (ends (slugify letters " my  app_1! -") ≡ false)
    × (slugify letters (slugify letters " my  app_1! -") ≡ slugify letters " my  app_1! -")
slugify-again_example = slugify-again letters " my  app_1! -" refl refl
