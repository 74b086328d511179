-- ===== src/Tests/Documents.antt =====
-- Documents and a catalog on the disk in memory.
use home_server_deployer.Prelude.{◌<>◌, ◌≡◌, refl, ◌⊎◌, true, false, [], ◌∷◌, ◌++◌}
use home_server_deployer.Error.{unsupported_document, not_exist}
use home_server_deployer.Act.{ok, err}
use home_server_deployer.Names.{state_safe_id}
use home_server_deployer.Paths.Filepath.{is_abs, join_parts}
use home_server_deployer.Paths.ContainmentLaws.{names_of}
use home_server_deployer.Model.{Instance}
use home_server_deployer.State.{Json}
use home_server_deployer.Catalog.Store.{CatalogStore}
use home_server_deployer.Catalog.Load.{load_catalog}
use home_server_deployer.Catalog.LoadLaws.{load_catalog-IsChecked}
use home_server_deployer.Catalog.ValidationLaws.{IsChecked}
use home_server_deployer.Docsgen.{read_document}
use home_server_deployer.Docsgen.Laws.{IsDocument, read_document-contained}
use home_server_deployer.Tests.Fake.{fake_app}
use home_server_deployer.Tests.Files.{Files, disk_in_memory, disk}

abbrev no_json : Json Instance
no_json = record { marshal = λ v. ok v.id; unmarshal = λ s. err (not_exist s) }

is_root : is_abs "/docs" ≡ true
unfolding is_abs
is_root = refl

is_id : state_safe_id "web-1" ≡ true
unfolding state_safe_id
is_id = refl

read_document-contained_example :
    (read_document disk_in_memory "/docs" no_json (λ _. "") "web-1" "README.md" (disk false)
      ≡ (err unsupported_document, disk false))
    ⊎ (IsDocument "README.md"
        × (read_document disk_in_memory "/docs" no_json (λ _. "") "web-1" "README.md" (disk false)
            ≡ disk_in_memory.read_file
                ("/" <> join_parts (names_of "/docs" ++ "web-1" ∷ "README.md" ∷ []))
                (disk false)))
read_document-contained_example =
    read_document-contained disk_in_memory "/docs" no_json (λ _. "") "web-1" "README.md"
      (disk false) is_root is_id

-- A root with one application.
abbrev catalog_disk : home_server_deployer.State.Disk Files
catalog_disk = record disk_in_memory {
  read_dir = λ d w. (
    ok (
        record { name = "notes.txt"; is_dir = false }
        ∷ record { name = "app"; is_dir = true }
        ∷ []),
    w,
  );
}

abbrev loaded_store : CatalogStore
loaded_store = record { root = "/catalog"; apps = ("app", fake_app) ∷ [] }

loads : (load_catalog catalog_disk (λ _. ok fake_app) "/catalog" (disk false)).0 ≡ ok loaded_store
unfolding load_catalog
loads = refl

load_catalog-IsChecked_example : (loaded_store.root ≡ "/catalog") × IsChecked loaded_store.apps
load_catalog-IsChecked_example =
    load_catalog-IsChecked catalog_disk (λ _. ok fake_app) "/catalog" loaded_store (disk false)
      loads
