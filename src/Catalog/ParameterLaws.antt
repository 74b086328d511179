-- ===== src/Catalog/ParameterLaws.antt =====
-- What `ResolveParameters` gives back.
use home_server_deployer.Prelude.{
  String, ◌≡◌, refl, sym, ◌∙◌, ap, subst, inl, inr, true, ◌||◌, Option, none, some, List, [], ◌∷◌,
  str_eq, eq_iff, contains, All, or_false, arith, Bool-cases,
}
use home_server_deployer.Prelude.Dict.{Dict, lookup, insert, lookup-insert, is_some}
use home_server_deployer.Model.{Catalog, InputSpec}
use home_server_deployer.Error.{and_then-eq-none}
use home_server_deployer.Act.{Result, ok, err, ok-injective, unless-eq-ok}
use home_server_deployer.Catalog.Parameters.{
  known_inputs, defaults, check_known, check_supplied, supply, value_of, check_resolved, check_all,
  resolve_parameters, checked,
}
use home_server_deployer.Catalog.Validation.{input_names}

defaults-input_names :
    (is : List InputSpec) (out : Dict String) (k : String)
    → is_some (lookup k (defaults is out)) ≡ (contains (input_names is) k || is_some (lookup k out))
unfolding defaults contains input_names
defaults-input_names [] out k = refl
defaults-input_names (i ∷ is) out k =
    defaults-input_names is (insert i.name i.default out) k
    ∙ rw (lookup-insert i.name k i.default out) (ground (arith, eq_iff i.name k))

known_inputs-input_names :
    (is : List InputSpec) (known : Dict InputSpec) (k : String)
    → is_some (lookup k (known_inputs is known))
      ≡ (contains (input_names is) k || is_some (lookup k known))
unfolding known_inputs contains input_names
known_inputs-input_names [] known k = refl
known_inputs-input_names (i ∷ is) known k =
    known_inputs-input_names is (insert i.name i known) k
    ∙ rw (lookup-insert i.name k i known) (ground (arith, eq_iff i.name k))

known_if : (o : Option InputSpec) (k v : String) → check_known o k v ≡ none → is_some o ≡ true
known_if none k v h = cc
known_if (some input) k v h = refl

-- A supplied value that is accepted is one of a known input.
check_supplied-known :
    (known : Dict InputSpec) (k v : String)
    → check_supplied known k v ≡ none
    → is_some (lookup k known) ≡ true
unfolding check_supplied
check_supplied-known known k v h = known_if (lookup k known) k v h

supply-keys :
    (known : Dict InputSpec) (supplied out out' : Dict String)
    → ((k : String) → is_some (lookup k known) ≡ is_some (lookup k out))
    → supply known supplied out ≡ ok out'
    → (k : String) → is_some (lookup k known) ≡ is_some (lookup k out')
unfolding supply
supply-keys known [] out out' same h =
    subst (λ o. (k : String) → is_some (lookup k known) ≡ is_some (lookup k o)) (ok-injective h)
      same
supply-keys known ((j, v) ∷ supplied) out out' same h =
    let (fine, later) =
      unless-eq-ok (check_supplied known j v) (supply known supplied (insert j v out)) out' h in
    supply-keys known supplied (insert j v out) out'
      (λ k. still_same k (check_supplied-known known j v fine)) later
  where
    still_same :
        (k : String)
        → is_some (lookup j known) ≡ true
        → is_some (lookup k known) ≡ is_some (lookup k (insert j v out))
    still_same k there = elim (Bool-cases (str_eq j k)) [
      | inl here ↦
          ap is_some (ap (λ n. lookup n known) (sym ((eq_iff j k).0 here)))
          ∙ (there ∙ sym (ap is_some (lookup-insert j k v out) ∙ rw (here) refl))
      | inr other ↦ same k ∙ sym (ap is_some (lookup-insert j k v out) ∙ rw (other) refl)
    ]

check_all-eq-none :
    (is : List InputSpec) (out : Dict String)
    → check_all is out ≡ none
    → All (λ i. check_resolved i (value_of out i.name) ≡ none) is
unfolding check_all
check_all-eq-none [] out h = tt
check_all-eq-none (i ∷ is) out h =
    let (this, rest) = and_then-eq-none (check_resolved i (value_of out i.name)) _ h in
    (this, check_all-eq-none is out rest)

known_inputs-input_names_only :
    (is : List InputSpec) (k : String)
    → is_some (lookup k (known_inputs is [])) ≡ contains (input_names is) k
unfolding lookup
known_inputs-input_names_only is k = known_inputs-input_names is [] k ∙ or_false _

defaults-input_names_only :
    (is : List InputSpec) (k : String)
    → is_some (lookup k (defaults is [])) ≡ contains (input_names is) k
unfolding lookup
defaults-input_names_only is k = defaults-input_names is [] k ∙ or_false _

-- The values that ResolveParameters returns have exactly the names of the application's inputs,
-- and for each input the value is valid for its type, or it is empty and the input is not
-- required.
pub resolve_parameters-input_names :
    (app : Catalog) (supplied out : Dict String)
    → resolve_parameters app supplied ≡ ok out
    → ((k : String) → is_some (lookup k out) ≡ contains (input_names app.spec.inputs) k)
      × All (λ i. check_resolved i (value_of out i.name) ≡ none) app.spec.inputs
unfolding resolve_parameters
resolve_parameters-input_names app supplied out h = go (supply known supplied start) refl h
  where
    known : Dict InputSpec
    known = known_inputs app.spec.inputs []

    start : Dict String
    start = defaults app.spec.inputs []

    both : (n : String) → is_some (lookup n known) ≡ is_some (lookup n start)
    both n =
        known_inputs-input_names_only app.spec.inputs n
        ∙ sym (defaults-input_names_only app.spec.inputs n)

    go :
        (r : Result (Dict String))
        → supply known supplied start ≡ r
        → checked app.spec.inputs r ≡ ok out
        → ((k : String) → is_some (lookup k out) ≡ contains (input_names app.spec.inputs) k)
          × All (λ i. check_resolved i (value_of out i.name) ≡ none) app.spec.inputs
    go (err c) p k = cc
    go (ok o) p k =
        let (fine, same) = unless-eq-ok (check_all app.spec.inputs o) (ok o) out k in
        subst
          (λ x.
            ((n : String) → is_some (lookup n x) ≡ contains (input_names app.spec.inputs) n)
            × All (λ i. check_resolved i (value_of x i.name) ≡ none) app.spec.inputs)
          (ok-injective same)
          (
            (λ n.
                sym (supply-keys known supplied start o both p n)
                ∙ known_inputs-input_names_only app.spec.inputs n),
            check_all-eq-none app.spec.inputs o fine,
          )
