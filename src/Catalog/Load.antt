-- ===== src/Catalog/Load.antt =====
-- internal/catalog/catalog.go: `Load`, over the calls of package os and the YAML decoder.
use home_server_deployer.Prelude.{String, true, false, none, some, List, [], ◌∷◌, if◌then◌else◌}
use home_server_deployer.Prelude.Dict.{Dict, lookup, insert, is_some}
use home_server_deployer.Model.{Catalog}
use home_server_deployer.Error.{
  is_not_exist, read_catalog_failed, decode_failed, validate_failed, duplicate_catalog,
}
use home_server_deployer.Act.{Result, ok, err, Act}
use home_server_deployer.State.{Disk, DirEntry}
use home_server_deployer.Paths.Filepath.{filepath_join}
use home_server_deployer.Catalog.Store.{CatalogStore}
use home_server_deployer.Catalog.Validation.{validate}

-- The three tests on an application that was read, and the map with it.
unfoldable pub admit : String → Result Catalog → Dict Catalog → Result (Dict Catalog)
unfolding validate lookup insert
admit manifest (err c) apps = err (decode_failed manifest c)
admit manifest (ok app) apps = elim (validate app) [
  | some c ↦ err (validate_failed manifest c)
  | none ↦
      if is_some (lookup app.metadata.id apps)
      then err (duplicate_catalog app.metadata.id)
      else ok (insert app.metadata.id app apps)
]

-- What a manifest adds. One that is not there adds nothing.
abbrev pub admit_read :
    (String → Result Catalog) → String → Result String → Dict Catalog → Result (Dict Catalog)
admit_read decode manifest (err c) apps = if is_not_exist c then ok apps else err c
admit_read decode manifest (ok text) apps = admit manifest (decode text) apps

module _ {W : Type 0} (disk : Disk W) (decode : String → Result Catalog) (root : String) where
  abbrev pub manifest_of : DirEntry → String
  manifest_of entry = filepath_join (filepath_join root entry.name) "app.yaml"

  abbrev pub go_on :
      (Dict Catalog → Act W (Dict Catalog)) → Result (Dict Catalog) → Act W (Dict Catalog)
  go_on next (err c) w = (err c, w)
  go_on next (ok apps) w = next apps w

  -- The loop over the entries, directories only.
  unfoldable pub load_entries : List DirEntry → Dict Catalog → Act W (Dict Catalog)
  unfolding filepath_join admit
  load_entries [] apps w = (ok apps, w)
  load_entries (entry ∷ rest) apps w = elim entry.is_dir [
    | false ↦ load_entries rest apps w
    | true ↦
        let (r, w') = disk.read_file (manifest_of entry) w in
        go_on (load_entries rest) (admit_read decode (manifest_of entry) r apps) w'
  ]

  abbrev pub store_of : Result (Dict Catalog) × W → Result CatalogStore × W
  store_of (err c, w) = (err c, w)
  store_of (ok apps, w) = (ok (record { root = root; apps = apps }), w)

  abbrev pub loaded : Result (List DirEntry) → Act W CatalogStore
  loaded (err c) w = (err (read_catalog_failed c), w)
  loaded (ok entries) w = store_of (load_entries entries [] w)

  unfoldable pub load_catalog : Act W CatalogStore
  unfolding load_entries
  load_catalog w = let (r, w') = disk.read_dir root w in loaded r w'
