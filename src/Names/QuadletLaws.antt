-- ===== src/Names/QuadletLaws.antt =====
-- The catalog's test on Quadlet names against that of the Podman client.
use home_server_deployer.Prelude.{
  ℕ, String, ◌≡◌, refl, sym, subst, ◌∙◌, Bool, true, false, Bool-cases, ◌⊎◌, inl, inr, not, ◌&&◌,
  ◌||◌, List, [], ◌∷◌, arith, str_eq, eq_iff, if◌then◌else◌,
}
use home_server_deployer.Text.SplitLaws.{NoneHolds, split-NoneHolds}
use home_server_deployer.Text.{contains_any, split, has_suffix_of}
use home_server_deployer.Paths.Filepath.{slash, base, last_part}
use home_server_deployer.Names.{valid_name, valid_quadlet_name, quadlet_extensions}

contains_any-cons :
    (s : String) (c : ℕ) (cs : List ℕ)
    → contains_any s (c ∷ cs) ≡ (contains_any s (c ∷ []) || contains_any s cs)
unfolding contains_any
contains_any-cons String.[] c cs = refl
contains_any-cons (String.◌∷◌ d s) c cs = ground (arith, contains_any-cons s c cs)

last_part-NoneHolds :
    (c : ℕ) (ps : List String) (found : String)
    → contains_any found (c ∷ []) ≡ false
    → NoneHolds c ps
    → contains_any (last_part found ps) (c ∷ []) ≡ false
unfolding last_part
last_part-NoneHolds c [] found h n = h
last_part-NoneHolds c (p ∷ ps) found h (n, ns) =
    last_part-NoneHolds c ps (if str_eq p "" then found else p) (ground arith) ns

base_lem :
    (s : String)
    → base s ≡ (
        if str_eq s ""
        then "."
        else if str_eq (last_part "" (split slash s)) ""
        then "/"
        else last_part "" (split slash s))
unfolding base
base_lem s = refl

no_slash_in_nil : contains_any "" (slash ∷ []) ≡ false
unfolding contains_any
no_slash_in_nil = refl

no_slash_in_last : (s : String) → contains_any (last_part "" (split slash s)) (slash ∷ []) ≡ false
no_slash_in_last s =
    last_part-NoneHolds slash (split slash s) "" no_slash_in_nil (split-NoneHolds slash s)

-- A text that is its own base holds no slash, unless it is the root.
slash_of_base : (s : String) → base s ≡ s → (contains_any s (slash ∷ []) ≡ false) ⊎ (s ≡ "/")
slash_of_base s h = elim (Bool-cases (str_eq s "")) [
  | inl empty ↦ inl (rw ((eq_iff s "").0 empty) no_slash_in_nil)
  | inr more ↦ elim (Bool-cases (str_eq (last_part "" (split slash s)) "")) [
    | inl root ↦ inr (sym h ∙ (base_lem s ∙ rw (more, root) refl))
    | inr part ↦ inl (
        subst (λ t. contains_any t (slash ∷ []) ≡ false)
          (sym (base_lem s ∙ rw (more, part) refl) ∙ h) (no_slash_in_last s))
  ]
]

no_quadlet_suffix :
    (has_suffix_of quadlet_extensions "" ≡ false) × (has_suffix_of quadlet_extensions "/" ≡ false)
unfolding has_suffix_of
no_quadlet_suffix = (refl, refl)

-- The tests as one question about their parts.
same_test :
    (empty base slash' backslash control suffix : Bool)
    → (base ≡ true → slash' ≡ true → suffix ≡ false)
    → (empty ≡ true → suffix ≡ false)
    → (if empty || (not base || (slash' || (backslash || control))) then false else suffix)
      ≡ ((if not base || control then false else suffix) && not backslash)
same_test empty base slash' backslash control suffix h k = ground arith

-- The Podman client takes exactly the names that the catalog takes, less those with a backslash.
pub valid_name-eq-valid_quadlet_name :
    (name : String)
    → valid_name name ≡ (valid_quadlet_name name && not (contains_any name (b'\\' ∷ [])))
unfolding valid_name valid_quadlet_name
valid_name-eq-valid_quadlet_name name =
    rw
      (
        contains_any-cons name slash (b'\\' ∷ b'\r' ∷ b'\n' ∷ 0 ∷ []),
        contains_any-cons name b'\\' (b'\r' ∷ b'\n' ∷ 0 ∷ []),
      )
      (same_test (str_eq name "") (str_eq (base name) name) (contains_any name (slash ∷ []))
        (contains_any name (b'\\' ∷ [])) (contains_any name (b'\r' ∷ b'\n' ∷ 0 ∷ []))
        (has_suffix_of quadlet_extensions name)
        (λ own slashed. elim (slash_of_base name ((eq_iff (base name) name).0 own)) [
          | inl none_here ↦ cc
          | inr root ↦ rw root no_quadlet_suffix.1
        ])
        (λ empty. rw ((eq_iff name "").0 empty) no_quadlet_suffix.0))
