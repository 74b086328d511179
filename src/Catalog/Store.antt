-- ===== src/Catalog/Store.antt =====
-- internal/catalog/catalog.go: `Store` and its methods `Get`, `List` and `Template`.
use home_server_deployer.Prelude.{
  String, Bool, true, false, Option, none, some, List, [], ◌∷◌, str_eq, if◌then◌else◌,
}
use home_server_deployer.Prelude.Dict.{Dict, lookup, values}
use home_server_deployer.Prelude.Sort.{sort_by}
use home_server_deployer.Model.{Catalog, ResourceSpec}
use home_server_deployer.Error.{unknown_application, undeclared_template}
use home_server_deployer.Act.{Act, raise}
use home_server_deployer.Services.{Platform}
use home_server_deployer.Paths.Filepath.{filepath_join}

pub record CatalogStore : Type 0 where
  pub root : String
  pub apps : Dict Catalog

unfoldable pub get_app : CatalogStore → String → Option Catalog
unfolding lookup
get_app s id = lookup id s.apps

unfoldable pub list_apps : CatalogStore → List Catalog
unfolding values sort_by
list_apps s = sort_by (λ (c : Catalog). c.metadata.id) (values s.apps)

-- The loop of `Template` over the declared resources.
unfoldable pub declares : List ResourceSpec → String → Bool
declares [] name = false
declares (r ∷ rs) name =
    let rest = declares rs name in if str_eq r.template name then true else rest

unfoldable pub template_of :
    {W : Type 0} → Platform W → CatalogStore → String → String → Act W String
unfolding get_app declares filepath_join
template_of platform s app_id name = elim (get_app s app_id) [
  | none ↦ raise (unknown_application app_id)
  | some app ↦
      if declares app.spec.resources name
      then platform.read_file (filepath_join (filepath_join s.root app_id) name)
      else raise (undeclared_template name app_id)
]
