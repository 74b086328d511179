-- ===== src/Tests/Applications.antt =====
-- Catalog applications that are checked, stored and mounted.
use home_server_deployer.Prelude.{
  String, ◌≡◌, refl, Bool, true, false, not, ◌&&◌, Option, none, some, List, [], ◌∷◌, str_eq,
}
use home_server_deployer.Act.{ok}
use home_server_deployer.Security.{mount_suffix}
use home_server_deployer.Catalog.Store.{CatalogStore}
use home_server_deployer.Catalog.Validation.{
  input_names, validate, new_store, has_resources, security_intents,
}
use home_server_deployer.Catalog.ValidationLaws.{
  resource_names, all_valid, is_distinct, validate-resource_names, IsChecked, new_store-IsChecked,
  refuses, mount_suffix-security_intents,
}
use home_server_deployer.Prelude.{All}
use home_server_deployer.Prelude.Dict.{Dict, lookup, is_some}
use home_server_deployer.Catalog.Parameters.{resolve_parameters, check_resolved, value_of}
use home_server_deployer.Catalog.ParameterLaws.{resolve_parameters-input_names}
use home_server_deployer.Tests.Fake.{fake_app}

valid : validate fake_app ≡ none
unfolding validate
valid = refl

validate-resource_names_example :
    (has_resources fake_app.spec.resources ≡ true)
    × (all_valid (resource_names fake_app.spec.resources) ≡ true)
    × (is_distinct (resource_names fake_app.spec.resources) ≡ true)
validate-resource_names_example = validate-resource_names fake_app valid

abbrev one_app : CatalogStore
one_app = record { root = "/catalog"; apps = ("app", fake_app) ∷ [] }

stored : new_store "/catalog" (fake_app ∷ []) ≡ ok one_app
unfolding new_store
stored = refl

new_store-IsChecked_example : IsChecked one_app.apps
new_store-IsChecked_example = new_store-IsChecked "/catalog" (fake_app ∷ []) one_app stored

known_intent : home_server_deployer.Prelude.contains security_intents "readonly-media" ≡ true
unfolding home_server_deployer.Prelude.contains
known_intent = refl

mount_suffix-security_intents_example :
    refuses (mount_suffix "readonly-media" false)
    ≡ (str_eq "readonly-media" "readonly-media" && not false)
mount_suffix-security_intents_example =
    mount_suffix-security_intents "readonly-media" false known_intent

abbrev supplied : Dict String
supplied = ("data", "web/data") ∷ []

resolved : resolve_parameters fake_app supplied ≡ ok supplied
unfolding resolve_parameters
resolved = refl

resolve_parameters-input_names_example :
    ((k : String)
      → is_some (lookup k supplied)
        ≡ home_server_deployer.Prelude.contains (input_names fake_app.spec.inputs) k)
    × All (λ i. check_resolved i (value_of supplied i.name) ≡ none) fake_app.spec.inputs
resolve_parameters-input_names_example =
    resolve_parameters-input_names fake_app supplied supplied resolved
