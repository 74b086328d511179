-- ===== src/Catalog/LoadLaws.antt =====
-- internal/catalog/catalog.go: what `Load` lets into the catalog.
use home_server_deployer.Prelude.{
  subst, String, ◌≡◌, refl, List, [], ◌∷◌, Bool-cases, inl, inr, Option-cases,
}
use home_server_deployer.Prelude.Dict.{Dict, lookup, is_some}
use home_server_deployer.Model.{Catalog}
use home_server_deployer.Error.{is_not_exist}
use home_server_deployer.Act.{Result, ok, err, ok-injective}
use home_server_deployer.State.{Disk, DirEntry}
use home_server_deployer.Catalog.Store.{CatalogStore}
use home_server_deployer.Catalog.Validation.{validate}
use home_server_deployer.Catalog.ValidationLaws.{IsChecked, insert-IsChecked}
use home_server_deployer.Catalog.Load.{
  admit, admit_read, manifest_of, go_on, load_entries, store_of, loaded, load_catalog,
}

empty-IsChecked : IsChecked []
unfolding lookup
empty-IsChecked k app h = cc

admit-IsChecked :
    (manifest : String) (r : Result Catalog) (apps next : Dict Catalog)
    → IsChecked apps
    → admit manifest r apps ≡ ok next
    → IsChecked next
unfolding admit
admit-IsChecked manifest (err c) apps next all h = cc
admit-IsChecked manifest (ok app) apps next all h = elim (Option-cases (validate app)) [
  | inr (c, failed) ↦ cc (rw (failed, admit) at h)
  | inl valid ↦ elim (Bool-cases (is_some (lookup app.metadata.id apps))) [
    | inl twice ↦ cc (rw (valid, twice, admit) at h)
    | inr once ↦
        subst IsChecked (ok-injective (rw (valid, once, admit) at h))
          (insert-IsChecked apps all app valid)
  ]
]

admit_read-IsChecked :
    (decode : String → Result Catalog) (manifest : String) (r : Result String)
    (apps next : Dict Catalog)
    → IsChecked apps
    → admit_read decode manifest r apps ≡ ok next
    → IsChecked next
admit_read-IsChecked decode manifest (ok text) apps next all h =
    admit-IsChecked manifest (decode text) apps next all h
admit_read-IsChecked decode manifest (err c) apps next all h = elim (Bool-cases (is_not_exist c)) [
  | inl missing ↦ subst IsChecked (ok-injective (rw missing at h)) all
  | inr failed ↦ cc (rw failed at h)
]

module _ {W : Type 0} (disk : Disk W) (decode : String → Result Catalog) (root : String) where
  load_entries-IsChecked :
      (entries : List DirEntry) (apps next : Dict Catalog) (w : W)
      → IsChecked apps
      → (load_entries disk decode root entries apps w).0 ≡ ok next
      → IsChecked next
  unfolding load_entries
  load_entries-IsChecked [] apps next w all h = subst IsChecked (ok-injective h) all
  load_entries-IsChecked (entry ∷ rest) apps next w all h = elim (Bool-cases entry.is_dir) [
    | inr file ↦ load_entries-IsChecked rest apps next w all (rw file at h)
    | inl directory ↦
        let manifest = manifest_of disk decode root entry in
        let (r, w') = disk.read_file manifest w in
        admitted w' (load_entries-IsChecked rest) (admit_read decode manifest r apps)
          (λ added. admit_read-IsChecked decode manifest r apps added all) (rw directory at h)
  ]
    where
      admitted :
          (v : W)
          → ((as' bs : Dict Catalog) (u : W)
              → IsChecked as'
              → (load_entries disk decode root rest as' u).0 ≡ ok bs
              → IsChecked bs)
          → (r : Result (Dict Catalog)) → ((added : Dict Catalog) → r ≡ ok added → IsChecked added)
          → (go_on disk decode root (load_entries disk decode root rest) r v).0 ≡ ok next
          → IsChecked next
      admitted v rec (err c) good k = cc
      admitted v rec (ok added) good k = rec added next v (good added refl) k

  loaded-IsChecked :
      (r : Result (List DirEntry)) (w : W) (store : CatalogStore)
      → (loaded disk decode root r w).0 ≡ ok store
      → (store.root ≡ root) × IsChecked store.apps
  loaded-IsChecked (err c) w store h = cc
  loaded-IsChecked (ok entries) w store h =
      stored (load_entries disk decode root entries [] w)
        (λ apps. load_entries-IsChecked entries [] apps w empty-IsChecked) h
    where
      stored :
          (r : Result (Dict Catalog) × W)
          → ((apps : Dict Catalog) → r.0 ≡ ok apps → IsChecked apps)
          → (store_of disk decode root r).0 ≡ ok store
          → (store.root ≡ root) × IsChecked store.apps
      stored (err c, v) good k = cc
      stored (ok apps, v) good k =
          subst (λ (s : CatalogStore). (s.root ≡ root) × IsChecked s.apps) (ok-injective k)
            (refl, good apps refl)

  -- Every application of a catalog that Load returns has passed Validate and stands under its own
  -- ID, and the catalog has the root that was given.
  pub load_catalog-IsChecked :
      (store : CatalogStore) (w : W)
      → (load_catalog disk decode root w).0 ≡ ok store
      → (store.root ≡ root) × IsChecked store.apps
  unfolding load_catalog
  load_catalog-IsChecked store w h =
      loaded-IsChecked (disk.read_dir root w).0 (disk.read_dir root w).1 store h
