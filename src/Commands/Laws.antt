-- ===== src/Commands/Laws.antt =====
-- cmd/deployer-agent/main.go: what holds of the engine of an agent that started.
use home_server_deployer.Prelude.{
  String, ◌≡◌, refl, sym, subst, ◌∙◌, Option, none, some, List, [], ◌∷◌, str_eq, eq_iff, Bool-cases,
  inl, inr,
}
use home_server_deployer.Prelude.Dict.{Dict, lookup, insert, lookup-insert}
use home_server_deployer.Error.{connect_failed}
use home_server_deployer.Act.{Result, Act, ok, raise, pure, attempt, ok-injective}
use home_server_deployer.Act.Rules.{attempt_rule, bind_rule}
use home_server_deployer.Paths.{Root}
use home_server_deployer.Config.{Config, check_roots, validate_config, load_config}
use home_server_deployer.Config.Laws.{
  load_config-ok, IsUsableRoot, check_roots-cons, validate_config-check_roots,
}
use home_server_deployer.State.{init}
use home_server_deployer.Podman.Client.{Client}
use home_server_deployer.Catalog.Store.{CatalogStore}
use home_server_deployer.Catalog.Load.{load_catalog}
use home_server_deployer.Catalog.ValidationLaws.{IsChecked}
use home_server_deployer.Catalog.LoadLaws.{load_catalog-IsChecked}
use home_server_deployer.Systemd.{Bus}
use home_server_deployer.Engine.{Engine}
use home_server_deployer.Commands.{
  Machine, roots_of, config_path, new_engine, renew, open_socket, start_agent,
}

-- Each root stands under its own ID and can be resolved against.
abbrev pub HasUsableRoots : Dict Root → Type 0
HasUsableRoots m = (id : String) (r : Root) → lookup id m ≡ some r → IsUsableRoot r × (r.id ≡ id)

insert-HasUsableRoots :
    (r : Root) (m : Dict Root)
    → IsUsableRoot r
    → HasUsableRoots m
    → HasUsableRoots (insert r.id r m)
insert-HasUsableRoots r m usable all id other found = elim (Bool-cases (str_eq r.id id)) [
  | inl same ↦
      let here : some r ≡ some other = sym (lookup-insert r.id id r m ∙ rw same refl) ∙ found in
      let e : r ≡ other = cc in
      subst (λ (x : Root). IsUsableRoot x × (x.id ≡ id)) e (usable, (eq_iff r.id id).0 same)
  | inr different ↦ all id other (sym (lookup-insert r.id id r m ∙ rw different refl) ∙ found)
]

roots_of-HasUsableRoots :
    (rs : List Root) (seen : List String) (m : Dict Root)
    → check_roots rs seen ≡ none
    → HasUsableRoots m
    → HasUsableRoots (roots_of rs m)
unfolding roots_of
roots_of-HasUsableRoots [] seen m h all = all
roots_of-HasUsableRoots (r ∷ rs) seen m h all =
    let (usable, _, later) = check_roots-cons r rs seen h in
    roots_of-HasUsableRoots rs (r.id ∷ seen) (insert r.id r m) later
      (insert-HasUsableRoots r m usable all)

no_roots : HasUsableRoots []
unfolding lookup
no_roots id r found = cc

module _ {V : Type 0} (host : Machine V) where
  open host use {disk}

  -- The configuration that is read, and the world after it; then the worlds after the state store
  -- was set up and after the catalog was read.
  abbrev read_config : Option String → Act (Client × V) Config
  read_config flag w = load_config disk.read_file host.decode_config (config_path host flag w) w

  abbrev set_up : Config → Client × V → Client × V
  set_up cfg w = (init disk cfg.state_root host.instance_json host.plan_json w).1

  abbrev read_catalog : Config → Act (Client × V) CatalogStore
  read_catalog cfg = load_catalog disk host.decode_app cfg.catalog_root

  -- The engine is that of the configuration and the catalog that were read and of the connection
  -- that was made, in this order.
  abbrev pub IsReady : Option String → Client × V → Engine (Client × V) → Type 0
  IsReady flag w e =
      (cfg : Config) × (store : CatalogStore) × (bus : Bus (Client × V)) × ((read_config flag w).0
        ≡ ok cfg)
      × ((read_catalog cfg (set_up cfg (read_config flag w).1)).0 ≡ ok store)
      × ((host.connect (read_catalog cfg (set_up cfg (read_config flag w).1)).1).0 ≡ ok bus)
      × (e ≡ new_engine host cfg store bus)
      × (validate_config cfg ≡ none)
      × (store.root ≡ cfg.catalog_root)
      × IsChecked e.catalog.apps
      × HasUsableRoots e.roots

  connected :
      (w : Client × V) (bus : Bus (Client × V))
      → (attempt host.connect (λ c. raise (connect_failed c)) pure w).0 ≡ ok bus
      → (host.connect w).0 ≡ ok bus
  connected w bus =
      attempt_rule
        (λ (r : Result (Bus (Client × V)) × (Client × V)).
          r.0 ≡ ok bus → (host.connect w).0 ≡ ok bus)
        host.connect (λ c. raise (connect_failed c)) pure w (λ b made h. made ∙ h) (λ c _ h. cc)

  ready-roots :
      (cfg : Config) (store : CatalogStore) (bus : Bus (Client × V))
      → validate_config cfg ≡ none
      → HasUsableRoots (new_engine host cfg store bus).roots
  unfolding new_engine
  ready-roots cfg store bus valid =
      roots_of-HasUsableRoots cfg.approved_roots [] [] (validate_config-check_roots cfg valid)
        no_roots

  ready-apps :
      (cfg : Config) (store : CatalogStore) (bus : Bus (Client × V))
      → IsChecked store.apps
      → IsChecked (new_engine host cfg store bus).catalog.apps
  unfolding new_engine
  ready-apps cfg store bus checked = checked

  -- If the agent starts, its engine is made from the configuration that was read at the path of
  -- the flag or the variable, from the catalog that was then read at the root which that
  -- configuration names, and from the connection to systemd that was then made; the configuration
  -- passes Validate, every application of the catalog has passed its checks, and every approved
  -- root stands under its own ID and has an ID and two absolute paths.
  pub start_agent-IsReady :
      (flag : Option String) (w : Client × V) (e : Engine (Client × V))
      → (start_agent host flag w).0 ≡ ok e
      → IsReady flag w e
  unfolding start_agent
  start_agent-IsReady flag w =
      bind_rule P (load_config disk.read_file host.decode_config (config_path host flag w)) _ w
        λ cfg loaded.
          let valid =
            load_config-ok disk.read_file host.decode_config (config_path host flag w) w cfg
              loaded in
          bind_rule P (init disk cfg.state_root host.instance_json host.plan_json) _ _ λ _ _.
            bind_rule P (load_catalog disk host.decode_app cfg.catalog_root) _ _ λ store read.
              let (root, checked) =
                load_catalog-IsChecked disk host.decode_app cfg.catalog_root store _ read in
              bind_rule P (attempt host.connect (λ c. raise (connect_failed c)) pure) _ _
                λ bus made. bind_rule P (renew host) _ _ λ _ _.
                  bind_rule P (open_socket host cfg.listen_socket) _ _ λ _ _ e h. (
                    cfg,
                    store,
                    bus,
                    loaded,
                    read,
                    connected _ bus made,
                    sym (ok-injective h),
                    valid,
                    root,
                    subst (λ (x : Engine (Client × V)). IsChecked x.catalog.apps) (ok-injective h)
                        (ready-apps cfg store bus checked),
                    subst (λ (x : Engine (Client × V)). HasUsableRoots x.roots) (ok-injective h)
                        (ready-roots cfg store bus valid),
                  )
    where
      P : Engine (Client × V) → Client × V → Type 0
      P e _ = IsReady flag w e
