-- ===== src/Engine/Restore.antt =====
-- Snapshots of source files, and what writing them back restores.
use home_server_deployer.Prelude.{
  String, ◌≡◌, refl, ◌∙◌, fun_ext, subst, Bool-cases, inl, inr, true, none, some, List, [], ◌∷◌,
  ◌++◌, str_eq, eq_iff, contains, contains-append, arith, if◌then◌else◌,
}
use mathlib.Core.List.{append-nil, append_assoc}
use home_server_deployer.Prelude.Dict.{Dict, lookup, insert, lookup-insert, keys, contains-keys}
use home_server_deployer.Prelude.Sort.{contains-sort_strings}
use home_server_deployer.Act.{Result, ok, ok-injective}
use home_server_deployer.Act.Rules.{attempt_rule}
use home_server_deployer.Engine.{Engine}
use home_server_deployer.Engine.Transaction.{snapshot}
use home_server_deployer.Engine.Support.{sorted_string_map_keys}
use home_server_deployer.Engine.Rollback.{content_of}
use home_server_deployer.Engine.Sources.{Sources, IsLawful, assign, without_all, without_all_at}

-- `old` holds the sources of exactly the given names.
pub record IsSnapshot (names : List String) (old : Dict String) (f : Sources) : Type 0 where
  pub at : (j : String) → lookup j old ≡ (if contains names j then f j else none)
  pub present : (j : String) → contains names j ≡ true → (s : String) × (f j ≡ some s)

-- The files after the snapshot is written back under the given names.
unfoldable pub restore : Dict String → List String → Sources → Sources
restore old [] f = f
restore old (n ∷ ns) f = restore old ns (assign n (some (content_of old n)) f)

restore_at :
    (old : Dict String) (ns : List String) (f : Sources) (j : String)
    → restore old ns f j ≡ (if contains ns j then some (content_of old j) else f j)
unfolding restore contains assign
restore_at old [] f j = refl
restore_at old (n ∷ ns) f j =
    ground (arith, restore_at old ns (assign n (some (content_of old n)) f) j, eq_iff n j)

content_of_snapshot :
    {names : List String} {old : Dict String} {f : Sources}
    → IsSnapshot names old f
    → (j : String) → contains names j ≡ true
    → some (content_of old j) ≡ f j
unfolding content_of
content_of_snapshot snap j h = let (s, p) = snap.present j h in ground (arith, snap.at j, p)

-- Removing some files of a snapshot and writing them back changes nothing.
pub restore-without_all :
    {names : List String} {old : Dict String} {f : Sources} (removed written : List String)
    → IsSnapshot names old f
    → ((j : String) → contains written j ≡ contains removed j)
    → ((j : String) → contains removed j ≡ true → contains names j ≡ true)
    → restore old written (without_all removed f) ≡ f
restore-without_all {old} {f} removed written snap same within = fun_ext λ j.
    restore_at old written (without_all removed f) j
    ∙ ground (arith, same j, without_all_at removed f j, within j, content_of_snapshot snap j)

pub contains-sorted_keys :
    {names : List String} {old : Dict String} {f : Sources}
    → IsSnapshot names old f
    → (j : String) → contains (sorted_string_map_keys old) j ≡ contains names j
unfolding sorted_string_map_keys
contains-sorted_keys {old} snap j =
    contains-sort_strings (keys old) j
    ∙ (contains-keys old j ∙ ground (arith, snap.at j, snap.present j))

pub IsSnapshot-nil : (f : Sources) → IsSnapshot [] [] f
unfolding lookup contains
IsSnapshot-nil f = record { at = λ j. refl; present = λ j h. cc }

IsSnapshot-insert :
    {names : List String} {old : Dict String} {f : Sources} (n s : String)
    → IsSnapshot names old f
    → f n ≡ some s
    → IsSnapshot (names ++ n ∷ []) (insert n s old) f
unfolding contains
IsSnapshot-insert {names} {old} {f} n s snap h = record {
  at = λ j.
      lookup-insert n j s old
      ∙ ground (arith, snap.at j, contains-append names (n ∷ []) j, eq_iff n j);
  present = λ j c. present_at j (ground (arith, contains-append names (n ∷ []) j));
}
  where
    present_at :
        (j : String)
        → (if contains names j then true else str_eq n j) ≡ true
        → (v : String) × (f j ≡ some v)
    present_at j c = elim (Bool-cases (contains names j)) [
      | inl old' ↦ snap.present j old'
      | inr new ↦ (s, ground (arith, eq_iff n j))
    ]

module _ {W : Type 0} (e : Engine W) (source : W → Sources) (lawful : IsLawful e source) where
  -- What a finished snapshot says, whatever it held before.
  abbrev Snapped : List String → W → Result (Dict String) × W → Type 0
  Snapped names w r = (old : Dict String) → r.0 ≡ ok old → IsSnapshot names old (source w)

  snapshot_onto :
      (names done : List String) (old : Dict String) (w v : W)
      → source v ≡ source w
      → IsSnapshot done old (source w)
      → Snapped (done ++ names) w (snapshot e names old v)
  unfolding snapshot
  snapshot_onto [] done old w v q snap =
      λ old' h. rw append-nil (subst (λ o. IsSnapshot done o (source w)) (ok-injective h) snap)
  snapshot_onto (n ∷ names) done old w v q snap =
      attempt_rule (Snapped (done ++ n ∷ names) w) (e.podman.get_quadlet n) _ _ v
        (λ s got. rw (← append_assoc done (n ∷ []) names) (
          snapshot_onto names (done ++ n ∷ []) (insert n s old) w (e.podman.get_quadlet n v).1
            (lawful.leaves.writes.quiet_get n v ∙ q)
            (IsSnapshot-insert n s snap (rw (← q) (lawful.keeps.get_ok n v got)))))
        (λ c bad old' h. cc)

  -- A finished snapshot holds the sources that the host had.
  pub snapshot-IsSnapshot :
      (names : List String) (w : W) (old : Dict String)
      → (snapshot e names [] w).0 ≡ ok old
      → IsSnapshot names old (source w)
  snapshot-IsSnapshot names w = snapshot_onto names [] [] w w refl (IsSnapshot-nil (source w))
