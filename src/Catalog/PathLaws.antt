-- ===== src/Catalog/PathLaws.antt =====
-- The catalog's test on path parameters against the test of `Resolve`.
use text.Mathlib.TextLemmas.{nil-append as text_nil, cons-append as text_cons}
use home_server_deployer.Prelude.{
  String, ◌≡◌, refl, sym, ap, subst, ◌∙◌, inl, inr, Bool, true, false, not, ◌||◌, Bool-cases,
  Option, none, List, [], ◌∷◌, ◌<>◌, reverse, str_eq, eq_iff, All, arith, if◌then◌else◌,
}
use home_server_deployer.Error.{not_clean}
use home_server_deployer.Act.{ok, err}
use home_server_deployer.Text.{split, contains_any, has_prefix, contains_text}
use home_server_deployer.Text.SplitLaws.{NoneHolds, split-NoneHolds, split-NoneHolds_of_text}
use home_server_deployer.Paths.{unsafe_part, check_relative}
use home_server_deployer.Paths.Filepath.{slash, is_abs, clean, clean_parts, join_parts}
use home_server_deployer.Paths.ContainmentLaws.{kept_after, clean_parts-kept, none_if}
use home_server_deployer.Paths.CleanLaws.{
  Tidy, IsName, IsDown, kept_after-Tidy, Tidy-cases, Tidy-IsName, All-reverse, split-join_parts,
}
use home_server_deployer.Catalog.Parameters.{is_bad_path}

-- What is kept of the parts of `v`, the last one first.
abbrev kept_of : String → List String
kept_of v = kept_after false [] (split slash v)

kept_of-Tidy : (v : String) → Tidy (kept_of v)
kept_of-Tidy v = kept_after-Tidy (split slash v) [] (split-NoneHolds slash v) tt

clean_lem :
    (v : String)
    → is_abs v ≡ false
    → clean v ≡ (
        if str_eq (join_parts (clean_parts false [] (split slash v))) ""
        then "."
        else join_parts (clean_parts false [] (split slash v)))
unfolding clean
clean_lem v relative = rw (relative) refl

body_if_clean :
    (body v : String) → (if str_eq body "" then "." else body) ≡ v → str_eq v "." ≡ false → body ≡ v
body_if_clean body v h named = elim (Bool-cases (str_eq body "")) [
  | inl empty ↦ ground (arith, h, named, empty, eq_iff v ".")
  | inr more ↦ sym (rw (more) refl) ∙ h
]

-- A clean relative path that is not the dot is its kept parts, joined.
clean-join_parts :
    (v : String)
    → is_abs v ≡ false
    → clean v ≡ v
    → str_eq v "." ≡ false
    → join_parts (reverse (kept_of v)) ≡ v
clean-join_parts v relative same named =
    ap join_parts (sym (clean_parts-kept false [] (split slash v)))
    ∙ body_if_clean _ v (sym (clean_lem v relative) ∙ same) named

up_prefix : (x : String) → has_prefix (".." <> ("/" <> x)) "../" ≡ true
unfolding has_prefix
up_prefix x =
    rw
      (
        text_cons "." "." ("/" <> x),
        text_cons "." String.[] ("/" <> x),
        text_nil ("/" <> x),
        text_cons "/" String.[] x,
      )
      refl

not_both : {A : Type 0} (b : Bool) → b ≡ true → b ≡ false → A
not_both true h k = cc
not_both false h k = cc

-- A path that begins with a double dot is one, or has the prefix.
no_double_dot :
    {A : Type 0} (v : String) (rest : List String)
    → join_parts (".." ∷ rest) ≡ v
    → str_eq v ".." ≡ false
    → has_prefix v "../" ≡ false
    → A
unfolding join_parts
no_double_dot v [] h a b = not_both (str_eq v "..") ((eq_iff v "..").1 (sym h)) a
no_double_dot v (q ∷ qs) h a b =
    not_both (has_prefix v "../")
      (subst (λ t. has_prefix t "../" ≡ true) h (up_prefix (join_parts (q ∷ qs)))) b

unsafe_part-eq-none :
    (ps : List String) → All IsName ps → All IsDown ps → NoneHolds 0 ps → unsafe_part ps ≡ none
unfolding unsafe_part
unsafe_part-eq-none [] names downs plain = refl
unsafe_part-eq-none (p ∷ ps) ((a, b, c), names) (d, downs) (n, ns) =
    rw (a, b, d, n) (unsafe_part-eq-none ps names downs ns)

parts_safe :
    (v : String) (ps : List String)
    → All IsName ps
    → All IsDown ps
    → join_parts ps ≡ v
    → str_eq v "" ≡ false
    → contains_any v (0 ∷ []) ≡ false
    → unsafe_part (split slash v) ≡ none
unfolding join_parts
parts_safe v [] names downs h more plain = not_both (str_eq v "") ((eq_iff v "").1 (sym h)) more
parts_safe v (p ∷ ps) names downs h more plain =
    let parts : split slash v ≡ p ∷ ps = ap (split slash) (sym h) ∙ split-join_parts p ps names in
    rw (parts) (
      unsafe_part-eq-none (p ∷ ps) names downs
        (subst (NoneHolds 0) parts (split-NoneHolds_of_text 0 slash v plain)))

-- The kept parts of a path that the catalog takes.
kept_of-safe :
    (v : String) (kept : List String)
    → Tidy kept
    → join_parts (reverse kept) ≡ v
    → str_eq v "" ≡ false
    → str_eq v ".." ≡ false
    → has_prefix v "../" ≡ false
    → contains_any v (0 ∷ []) ≡ false
    → unsafe_part (split slash v) ≡ none
kept_of-safe v kept tidy joined more up prefix plain = elim (Tidy-cases kept tidy) [
  | inr (rest, begins) ↦ no_double_dot v rest (ap join_parts (sym begins) ∙ joined) up prefix
  | inl downs ↦
      parts_safe v (reverse kept) (All-reverse IsName kept (Tidy-IsName kept tidy))
        (All-reverse IsDown kept downs) joined more plain
]

-- The tests of `is_bad_path` that passed.
tests_of :
    (empty absolute same dot prefix inner : Bool)
    → (empty || (absolute || (not same || (dot || (prefix || inner))))) ≡ false
    → (empty ≡ false) × (absolute ≡ false) × (same ≡ true) × (dot ≡ false) × (prefix ≡ false)
tests_of empty absolute same dot prefix inner h =
    (ground arith, ground arith, ground arith, ground arith, ground arith)

no_test_fails :
    (empty absolute same dot : Bool)
    → empty ≡ false
    → absolute ≡ false
    → same ≡ true
    → dot ≡ false
    → (empty || (absolute || (not same || dot))) ≡ false
no_test_fails empty absolute same dot a b c d = ground (arith, a, b, c, d)

passes :
    (bad : Bool) (o : Option String)
    → bad ≡ false
    → o ≡ none
    → (if bad then err not_clean else none_if o) ≡ ok tt
passes bad o a b = rw (a, b) refl

-- A value without a null character that validateInput accepts for a path, other than the double
-- dot, passes the tests that Resolve makes of a relative path.
pub check_relative-is_bad_path :
    (v : String)
    → is_bad_path v ≡ false
    → contains_any v (0 ∷ []) ≡ false
    → str_eq v ".." ≡ false
    → check_relative v ≡ ok tt
unfolding is_bad_path check_relative
check_relative-is_bad_path v good plain up =
    let (more, relative, same, named, prefix) =
      tests_of (str_eq v "") (is_abs v) (str_eq (clean v) v) (str_eq v ".") (has_prefix v "../")
        (contains_text v "/../") good in
    passes _ (unsafe_part (split slash v))
      (no_test_fails (str_eq v "") (is_abs v) (str_eq (clean v) v) (str_eq v ".") more relative same
        named)
      (kept_of-safe v (kept_of v) (kept_of-Tidy v)
        (clean-join_parts v relative ((eq_iff (clean v) v).0 same) named) more up prefix plain)
