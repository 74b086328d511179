-- ===== src/Engine/TransactionLaws.antt =====
-- How a transaction can end, and rules for the loops that the transactions share.
use mathlib.Core.List.{append-nil, append_assoc, reverse-append}
use home_server_deployer.Prelude.{
  String, ◌≡◌, refl, sym, ◌∙◌, ap, ◌⊎◌, inl, inr, true, false, none, some, List, [], ◌∷◌, ◌++◌,
  reverse, contains, contains-append,
}
use home_server_deployer.Model.{Instance, Catalog, RenderedResource}
use home_server_deployer.Error.{Error}
use home_server_deployer.Act.{Act, Result, ok, err, each}
use home_server_deployer.Act.Rules.{each_rule}
use home_server_deployer.Engine.{Engine}
use home_server_deployer.Engine.Transaction.{save_and_document}
use home_server_deployer.Engine.Sources.{
  Sources, IsLawful, assign, assign-assign_of_absent, without_all, with_all,
}
use home_server_deployer.Engine.RollbackLaws.{RollbackFailed}

without_all-append :
    (ns : List String) (n : String) (f : Sources)
    → without_all (ns ++ n ∷ []) f ≡ assign n none (without_all ns f)
unfolding without_all
without_all-append [] n f = refl
without_all-append (m ∷ ns) n f = without_all-append ns n (assign m none f)

reverse-snoc : (xs : List String) (x : String) → reverse (xs ++ x ∷ []) ≡ x ∷ reverse xs
reverse-snoc xs x = reverse-append xs (x ∷ [])

module _ {W : Type 0} (e : Engine W) (source : W → Sources) where
  -- A transaction ends in one of three ways: it reports that its rollback failed too; it reports
  -- an error and every source is as before; or all sources are the new ones, and it has come to
  -- saving the instance and its documents.
  abbrev pub Settled : Sources → Sources → Catalog → Result (Unit {0}) × W → Type 0
  Settled before after app r =
      RollbackFailed r.0
      ⊎ (((c : Error) × (r.0 ≡ err c)) × (source r.1 ≡ before))
      ⊎ ((in' : Instance) × (v : W) × (source v ≡ after) × (r ≡ save_and_document e in' app v))

  -- A rollback that restores settles a transaction.
  pub Settled-rollback :
      (before after : Sources) (app : Catalog) (cause : Error) (r : Result (Unit {0}) × W)
      → RollbackFailed r.0 ⊎ ((r.0 ≡ err cause) × (source r.1 ≡ before))
      → Settled before after app r
  Settled-rollback before after app cause r (inl failed) = inl failed
  Settled-rollback before after app cause r (inr (p, q)) = inr (inl ((cause, p), q))

module _ {W : Type 0} (e : Engine W) (source : W → Sources) (lawful : IsLawful e source) where
  open e use {podman, systemd, platform}

  -- Installing the rendered sources: on an error what was installed can be taken away again.
  module _ (Q : Result (Unit {0}) × W → Type 0) (base after : Sources)
      (fail : List String → Error → Act W (Unit {0})) (next : List String → Act W (Unit {0}))
      (at_fail : (installed : List String) (c : Error) (w : W)
        → without_all (reverse installed) (source w) ≡ base
        → Q (fail installed c w))
      (at_end : (installed : List String) (w : W)
        → without_all (reverse installed) (source w) ≡ base
        → source w ≡ after
        → Q (next installed w)) where
    abbrev Installing : List String → List RenderedResource → W → Type 0
    Installing installed rs w =
        (without_all (reverse installed) (source w) ≡ base) × (with_all rs (source w) ≡ after)

    install_step :
        (installed : List String) (r : RenderedResource) (rs : List RenderedResource) (w : W)
        → Installing installed (r ∷ rs) w
        → (b : Unit {0}) → (podman.install_quadlet r.name r.content w).0 ≡ ok b
        → Installing (installed ++ r.name ∷ []) rs (podman.install_quadlet r.name r.content w).1
    unfolding without_all with_all
    install_step installed r rs w (undo, rest) b good =
        let (absent, written) = lawful.leaves.writes.install_ok r.name r.content w good in
        (
          rw (written, reverse-snoc installed r.name)
              (ap (without_all (reverse installed))
                  (assign-assign_of_absent r.name (some r.content) (source w) absent)
                ∙ undo),
          rw written rest,
        )

    pub install_all_rule :
        (rs : List RenderedResource) (w : W)
        → source w ≡ base
        → with_all rs base ≡ after
        → Q (
            each
              (λ (r : RenderedResource). r.name)
              (λ r. podman.install_quadlet r.name r.content)
              fail
              next
              rs
              []
              w)
    unfolding without_all with_all
    install_all_rule rs w h k =
        each_rule Q Installing (λ (r : RenderedResource). r.name)
          (λ r. podman.install_quadlet r.name r.content) fail next install_step
          (λ installed r rs' v i c bad.
            at_fail installed c _ (rw (lawful.keeps.install_err r.name r.content v bad) i.0))
          (λ installed v i. at_end installed v i.0 i.1) rs [] w (h, rw h k)

  -- Removing the old sources, in order: what is gone is what was removed so far.
  module _ (Q : Result (Unit {0}) × W → Type 0) (before : Sources) (names : List String)
      (fail : List String → Error → Act W (Unit {0})) (next : List String → Act W (Unit {0}))
      (at_fail : (removed : List String) (c : Error) (w : W)
        → source w ≡ without_all removed before
        → ((j : String) → contains removed j ≡ true → contains names j ≡ true)
        → Q (fail removed c w))
      (at_end : (removed : List String) (w : W)
        → removed ≡ names
        → source w ≡ without_all removed before
        → Q (next removed w)) where
    abbrev Removing : List String → List String → W → Type 0
    Removing removed rest w = (source w ≡ without_all removed before) × (removed ++ rest ≡ names)

    remove_step :
        (removed : List String) (n : String) (rest : List String) (w : W)
        → Removing removed (n ∷ rest) w
        → (b : Unit {0}) → (podman.remove_quadlet n false w).0 ≡ ok b
        → Removing (removed ++ n ∷ []) rest (podman.remove_quadlet n false w).1
    remove_step removed n rest w (gone, all) b good = (
      lawful.leaves.writes.remove_ok n false w good
          ∙ (ap (assign n none) gone ∙ sym (without_all-append removed n before)),
      append_assoc removed (n ∷ []) rest ∙ all,
    )

    within :
        (removed rest : List String) (j : String)
        → removed ++ rest ≡ names
        → contains removed j ≡ true
        → contains names j ≡ true
    within removed rest j all h = rw (← all) (rw (contains-append removed rest j, h))

    pub remove_all_rule :
        (w : W)
        → source w ≡ before
        → Q (each (λ (n : String). n) (λ n. podman.remove_quadlet n false) fail next names [] w)
    unfolding without_all
    remove_all_rule w h =
        each_rule Q Removing (λ (n : String). n) (λ n. podman.remove_quadlet n false) fail next
          remove_step
          (λ removed n rest v i c bad.
            at_fail removed c _ (lawful.keeps.remove_err n false v bad ∙ i.0)
              (λ j. within removed (n ∷ rest) j i.1))
          (λ removed v i. at_end removed v (sym (append-nil removed) ∙ i.1) i.0) names [] w
          (h, refl)
