-- ===== src/Catalog/ValidationLaws.antt =====
-- What `Validate` and `NewStore` let in.
use home_server_deployer.Prelude.{
  String, ◌≡◌, refl, sym, ◌∙◌, subst, inl, inr, Bool, true, false, not, ◌&&◌, Bool-cases, none,
  some, List, [], ◌∷◌, str_eq, eq_iff, contains, All, arith,
}
use home_server_deployer.Prelude.Dict.{Dict, lookup, insert, lookup-insert}
use home_server_deployer.Model.{Catalog, ResourceSpec}
use home_server_deployer.Error.{Error, and_then, check, and_then-eq-none}
use home_server_deployer.Act.{Result, ok, err, ok-injective, unless-eq-ok}
use home_server_deployer.Names.{valid_quadlet_name}
use home_server_deployer.Security.{mount_suffix}
use home_server_deployer.Catalog.Store.{CatalogStore}
use home_server_deployer.Catalog.Validation.{
  check_resources, check_metadata, check_inputs, check_directories, input_names, has_resources,
  validate, add_apps, new_store, security_intents, stored_at,
}

check-eq-none : (b : Bool) (c : Error) → check b c ≡ none → b ≡ true
check-eq-none true c h = refl
check-eq-none false c h = cc

some_inj : {A : Type 0} {a b : A} → some a ≡ some b → a ≡ b
some_inj h = cc

both_true : (a b : Bool) → (a && b) ≡ true → (a ≡ true) × (b ≡ true)
both_true true b h = (refl, h)
both_true false b h = cc

unfoldable pub resource_names : List ResourceSpec → List String
resource_names [] = []
resource_names (r ∷ rs) = r.name ∷ resource_names rs

unfoldable pub is_distinct : List String → Bool
unfolding contains
is_distinct [] = true
is_distinct (n ∷ ns) = not (contains ns n) && is_distinct ns

unfoldable pub all_valid : List String → Bool
unfolding valid_quadlet_name
all_valid [] = true
all_valid (n ∷ ns) = valid_quadlet_name n && all_valid ns

-- None of the names has been seen.
unfoldable pub all_new : List String → List String → Bool
unfolding contains
all_new seen [] = true
all_new seen (n ∷ ns) = not (contains seen n) && all_new seen ns

all_new-cons :
    (n : String) (seen ns : List String)
    → all_new (n ∷ seen) ns ≡ true
    → (all_new seen ns ≡ true) × (contains ns n ≡ false)
unfolding all_new contains
all_new-cons n seen [] h = (refl, refl)
all_new-cons n seen (m ∷ ns) h =
    let (u, v) = both_true _ (all_new (n ∷ seen) ns) h in
    let (p, q) = all_new-cons n seen ns v in
    (ground (arith, u, p), ground (arith, u, q, eq_iff n m, eq_iff m n))

check_resources-resource_names :
    (rs : List ResourceSpec) (seen : List String)
    → check_resources rs seen ≡ none
    → (all_valid (resource_names rs) ≡ true)
      × (is_distinct (resource_names rs) ≡ true)
      × (all_new seen (resource_names rs) ≡ true)
unfolding check_resources all_valid is_distinct all_new resource_names
check_resources-resource_names [] seen h = (refl, refl, refl)
check_resources-resource_names (r ∷ rs) seen h =
    let (valid, rest) = and_then-eq-none (check (valid_quadlet_name r.name) _) _ h in
    let (template, rest') = and_then-eq-none (check _ _) _ rest in
    let (fresh, later) = and_then-eq-none (check (not (contains seen r.name)) _) _ rest' in
    let (valids, distinct, news) = check_resources-resource_names rs (r.name ∷ seen) later in
    let (news', apart) = all_new-cons r.name seen (resource_names rs) news in
    (rw (check-eq-none _ _ valid) valids, rw (apart) distinct, rw (check-eq-none _ _ fresh) news')

-- An application that passes Validate has at least one resource, its resources have valid Quadlet
-- names, and no two of them have the same name.
pub validate-resource_names :
    (app : Catalog)
    → validate app ≡ none
    → (has_resources app.spec.resources ≡ true)
      × (all_valid (resource_names app.spec.resources) ≡ true)
      × (is_distinct (resource_names app.spec.resources) ≡ true)
unfolding validate
validate-resource_names app h =
    let (_, a) = and_then-eq-none (check_metadata app) _ h in
    let (_, b) = and_then-eq-none (check_inputs app.spec.inputs []) _ a in
    let (_, c) =
      and_then-eq-none (check_directories (input_names app.spec.inputs) app.spec.directories) _ b in
    let (some_there, d) = and_then-eq-none (check (has_resources app.spec.resources) _) _ c in
    let (names, _) = and_then-eq-none (check_resources app.spec.resources []) _ d in
    let (valids, distinct, _) = check_resources-resource_names app.spec.resources [] names in
    (check-eq-none _ _ some_there, valids, distinct)

-- Every application of the map has passed the checks, and stands under its own ID.
abbrev pub IsChecked : Dict Catalog → Type 0
IsChecked apps =
    (id : String) (app : Catalog)
    → lookup id apps ≡ some app
    → (validate app ≡ none) × (app.metadata.id ≡ id)

pub insert-IsChecked :
    (apps : Dict Catalog)
    → IsChecked apps
    → (app : Catalog) → validate app ≡ none
    → IsChecked (insert app.metadata.id app apps)
insert-IsChecked apps i app valid id other found = elim (Bool-cases (str_eq app.metadata.id id)) [
  | inl here ↦
      subst (λ a. (validate a ≡ none) × (a.metadata.id ≡ id)) (some_inj (sym (now here) ∙ found))
        (valid, (eq_iff app.metadata.id id).0 here)
  | inr other_id ↦ i id other (sym (now' other_id) ∙ found)
]
  where
    now : str_eq app.metadata.id id ≡ true → lookup id (insert app.metadata.id app apps) ≡ some app
    now h = lookup-insert app.metadata.id id app apps ∙ rw (h) refl

    now' :
        str_eq app.metadata.id id ≡ false
        → lookup id (insert app.metadata.id app apps) ≡ lookup id apps
    now' h = lookup-insert app.metadata.id id app apps ∙ rw (h) refl

add_apps-IsChecked :
    (rest : List Catalog) (apps out : Dict Catalog)
    → IsChecked apps
    → add_apps rest apps ≡ ok out
    → IsChecked out
unfolding add_apps
add_apps-IsChecked [] apps out i h = subst IsChecked (ok-injective h) i
add_apps-IsChecked (app ∷ rest) apps out i h =
    let (good, later) =
      unless-eq-ok (and_then (validate app) _) (add_apps rest (insert app.metadata.id app apps)) out
        h in
    let (valid, _) = and_then-eq-none (validate app) _ good in
    add_apps-IsChecked rest (insert app.metadata.id app apps) out
      (λ id other found. insert-IsChecked apps i app valid id other found) later

-- Every application that a store made by NewStore holds has passed Validate and stands under its
-- own ID.
pub new_store-IsChecked :
    (root : String) (apps : List Catalog) (s : CatalogStore)
    → new_store root apps ≡ ok s
    → IsChecked s.apps
unfolding new_store lookup
new_store-IsChecked root apps s h = go (add_apps apps []) refl h
  where
    go :
        (r : Result (Dict Catalog))
        → add_apps apps [] ≡ r
        → stored_at root r ≡ ok s
        → IsChecked s.apps
    go (ok out) p k =
        subst (λ (x : CatalogStore). IsChecked x.apps) (ok-injective k)
          (add_apps-IsChecked apps [] out (λ id app found. cc) p)
    go (err c) p k = cc

-- What holds of every text of a list holds of a text that the list contains.
members_rule :
    (P : String → Type 0) (xs : List String) → All P xs → (a : String) → contains xs a ≡ true → P a
unfolding contains
members_rule P [] ps a h = cc
members_rule P (x ∷ xs) (p, ps) a h = elim (Bool-cases (str_eq x a)) [
  | inl here ↦ subst P ((eq_iff x a).0 here) p
  | inr other ↦ members_rule P xs ps a (rw (← later other) h)
]
  where
    later : str_eq x a ≡ false → contains (x ∷ xs) a ≡ contains xs a
    later k = rw (k) refl

abbrev pub refuses : Result String → Bool
refuses (ok _) = false
refuses (err _) = true

abbrev AsPlanned : String → Type 0
AsPlanned intent =
    (read_only : Bool)
    → refuses (mount_suffix intent read_only) ≡ (str_eq intent "readonly-media" && not read_only)

media-AsPlanned : AsPlanned "readonly-media"
unfolding mount_suffix
media-AsPlanned true = refl
media-AsPlanned false = refl

-- For a security intent that Validate accepts, the SELinux backend refuses to give mount options
-- exactly if the intent is readonly-media and the directory is not read-only.
pub mount_suffix-security_intents :
    (intent : String) (read_only : Bool)
    → contains security_intents intent ≡ true
    → refuses (mount_suffix intent read_only) ≡ (str_eq intent "readonly-media" && not read_only)
unfolding mount_suffix
mount_suffix-security_intents intent read_only h =
    members_rule AsPlanned security_intents
      ((λ _. refl), ((λ _. refl), (media-AsPlanned, ((λ _. refl), ((λ _. refl), tt))))) intent h
      read_only
