-- ===== src/Engine/QueryLaws.antt =====
-- What `Discover`, `Logs` and `Lifecycle` show and touch.
use home_server_deployer.Prelude.{
  ℕ, String, ◌≡◌, refl, subst, ◌∙◌, inl, inr, Bool, true, false, not, ◌&&◌, ◌||◌, List, [], ◌∷◌,
  str_eq, eq_iff, contains, All, or_false, arith, Bool-cases,
}
use home_server_deployer.Prelude.Dict.{Dict, lookup, insert, lookup-insert, keys, values, is_some}
use home_server_deployer.Prelude.Sort.{All-sort_by}
use home_server_deployer.Model.{Quadlet, RuntimeContainer, DiscoveredQuadlet, Instance}
use home_server_deployer.Act.{ok, ok-injective}
use home_server_deployer.Act.Rules.{bind_rule}
use home_server_deployer.Engine.{Engine}
use home_server_deployer.Engine.Queries.{
  manage_names, managed_by, containers_by_unit, discovered, discovered_all, discover, unit_names,
  collect_logs, logs,
}

-- Some instance that is not removed has a resource of this name.
unfoldable pub owned : List Instance → String → Bool
unfolding contains keys
owned [] n = false
owned (in' ∷ ins) n =
    (not (is_some in'.removed_at) && contains (keys in'.resources) n) || owned ins n

manage_names-contains :
    (ns : List String) (id : String) (m : Dict String) (n : String)
    → is_some (lookup n (manage_names ns id m)) ≡ (contains ns n || is_some (lookup n m))
unfolding manage_names contains
manage_names-contains [] id m n = refl
manage_names-contains (x ∷ ns) id m n =
    manage_names-contains ns id (insert x id m) n
    ∙ rw (lookup-insert x n id m) (ground (arith, eq_iff x n))

managed_by-owned :
    (ins : List Instance) (m : Dict String) (n : String)
    → is_some (lookup n (managed_by ins m)) ≡ (owned ins n || is_some (lookup n m))
unfolding managed_by owned
managed_by-owned [] m n = refl
managed_by-owned (in' ∷ ins) m n = elim (Bool-cases (is_some in'.removed_at)) [
  | inl gone ↦ rw (gone) (managed_by-owned ins m n)
  | inr there ↦ rw (there) (
      managed_by-owned ins (manage_names (keys in'.resources) in'.id m) n
      ∙ rw (manage_names-contains (keys in'.resources) in'.id m n) (ground arith))
]

module _ (ins : List Instance) (by_unit : Dict RuntimeContainer) where
  abbrev pub ShowsOwner : DiscoveredQuadlet → Type 0
  ShowsOwner d = d.managed ≡ owned ins d.quadlet.name

  discovered_all-owned :
      (qs : List Quadlet) → All ShowsOwner (discovered_all (managed_by ins []) by_unit qs)
  unfolding discovered_all discovered
  discovered_all-owned [] = tt
  discovered_all-owned (q ∷ qs) =
      (managed_by-owned ins [] q.name ∙ or_false (owned ins q.name), discovered_all-owned qs)

-- Some container of this name runs in one of the units.
unfoldable pub runs_in : List String → List RuntimeContainer → String → Bool
unfolding contains
runs_in units [] name = false
runs_in units (c ∷ cs) name =
    (str_eq c.name name && contains units c.systemd_unit) || runs_in units cs name

module _ {W : Type 0} (e : Engine W) where
  open e use {podman, state}

  -- In what Discover returns, a Quadlet is marked as managed exactly if some stored instance that
  -- is not removed has a resource of its name.
  pub discover-owned :
      (w : W) (out : List DiscoveredQuadlet)
      → (discover e w).0 ≡ ok out
      → (ins : List Instance) × ((v : W) × ((state.list_instances v).0 ≡ ok ins))
        × All (ShowsOwner ins []) out
  unfolding discover
  discover-owned w = bind_rule P podman.list_quadlets _ w λ qs _.
      bind_rule P podman.list_containers _ _ λ cs _.
        bind_rule P state.list_instances _ _ λ ins listed out h. (
          ins,
          (_, listed),
          subst (All (ShowsOwner ins [])) (ok-injective h) (
              All-sort_by (λ (d : DiscoveredQuadlet). d.quadlet.name) (ShowsOwner ins []) _
                (discovered_all-owned ins (containers_by_unit cs []) qs)),
        )
    where
      P : List DiscoveredQuadlet → W → Type 0
      P out u =
          (ins : List Instance) × ((v : W) × ((state.list_instances v).0 ≡ ok ins))
          × All (ShowsOwner ins []) out

  collect_logs-runs_in :
      (units : List String) (tail : ℕ) (cs : List RuntimeContainer) (o : Dict String) (w : W)
      → (out : Dict String) → (collect_logs e units tail cs o w).0 ≡ ok out
      → (name : String)
      → is_some (lookup name out) ≡ (runs_in units cs name || is_some (lookup name o))
  unfolding collect_logs runs_in
  collect_logs-runs_in units tail [] o w = λ out h name.
      subst (λ x. is_some (lookup name x) ≡ is_some (lookup name o)) (ok-injective h) refl
  collect_logs-runs_in units tail (c ∷ cs) o w = elim (Bool-cases (contains units c.systemd_unit)) [
    | inl ours ↦ rw (ours) (
        bind_rule P (podman.container_logs c.id tail) _ w λ s _ out h name.
          collect_logs-runs_in units tail cs (insert c.name s o) _ out h name
          ∙ rw (lookup-insert c.name name s o) (ground (arith, eq_iff c.name name)))
    | inr other ↦
        rw (other) (λ out h name. collect_logs-runs_in units tail cs o w out h name ∙ ground arith)
  ]
    where
      P : Dict String → W → Type 0
      P out v =
          (name : String)
          → is_some (lookup name out)
            ≡ (((str_eq c.name name && true) || runs_in units cs name) || is_some (lookup name o))

  -- Logs returns a log for exactly the names of the containers that run in a unit which the
  -- instance records for one of its resources, an empty unit name included.
  pub logs-runs_in :
      (id : String) (tail : ℕ) (w : W) (out : Dict String)
      → (logs e id tail w).0 ≡ ok out
      → (in' : Instance) × (cs : List RuntimeContainer) × ((v : W) × ((state.get_instance id v).0
            ≡ ok in'))
        × ((v : W) × ((podman.list_containers v).0 ≡ ok cs))
        × ((name : String)
            → is_some (lookup name out) ≡ runs_in (unit_names (values in'.resources)) cs name)
  unfolding logs lookup runs_in
  logs-runs_in id tail w = bind_rule P (state.get_instance id) _ w λ in' found.
      bind_rule P podman.list_containers _ _ λ cs listed out h. (
        in',
        cs,
        (_, found),
        (_, listed),
        λ name.
            collect_logs-runs_in (unit_names (values in'.resources)) tail cs [] _ out h name
            ∙ or_false (runs_in (unit_names (values in'.resources)) cs name),
      )
    where
      P : Dict String → W → Type 0
      P out u =
          (in' : Instance) × (cs : List RuntimeContainer) × ((v : W) × ((state.get_instance id v).0
              ≡ ok in'))
          × ((v : W) × ((podman.list_containers v).0 ≡ ok cs))
          × ((name : String)
              → is_some (lookup name out) ≡ runs_in (unit_names (values in'.resources)) cs name)
