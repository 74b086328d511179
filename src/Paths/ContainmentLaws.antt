-- ===== src/Paths/ContainmentLaws.antt =====
-- `Resolve` does not lead out of the root.
use mathlib.Core.List.{append-nil, append_assoc, reverse-cons}
use text.Mathlib.TextLemmas.{cons-append as text_cons}
use home_server_deployer.Prelude.{
  String, ◌≡◌, refl, sym, ap, ◌∙◌, Bool, true, false, not, ◌||◌, Option, none, some, List, [], ◌∷◌,
  ◌++◌, ◌<>◌, reverse, str_eq, arith, if◌then◌else◌,
}
use home_server_deployer.Error.{invalid_root, not_clean, unsafe_component}
use home_server_deployer.Act.{Result, ok, err}
use home_server_deployer.Text.SplitLaws.{split-append}
use home_server_deployer.Text.{split, has_prefix}
use home_server_deployer.Paths.{Root, paths_if, resolve, check_relative, unsafe_part}
use home_server_deployer.Paths.Filepath.{
  slash, is_abs, clean, clean_parts, clean_step, filepath_join, join_parts,
}

is_abs-append : (a b : String) → is_abs a ≡ true → is_abs (a <> b) ≡ true
unfolding is_abs has_prefix
is_abs-append String.[] b h = cc
is_abs-append (String.◌∷◌ d a) b h = rw (text_cons d a b) (ground arith)

unfoldable pub kept_after : Bool → List String → List String → List String
kept_after rooted kept [] = kept
kept_after rooted kept (x ∷ xs) = kept_after rooted (clean_step rooted kept x) xs

pub clean_parts-kept :
    (rooted : Bool) (kept xs : List String)
    → clean_parts rooted kept xs ≡ reverse (kept_after rooted kept xs)
unfolding clean_parts kept_after
clean_parts-kept rooted kept [] = refl
clean_parts-kept rooted kept (x ∷ xs) = clean_parts-kept rooted (clean_step rooted kept x) xs

clean_parts-append :
    (rooted : Bool) (kept xs ys : List String)
    → clean_parts rooted kept (xs ++ ys) ≡ clean_parts rooted (kept_after rooted kept xs) ys
unfolding clean_parts kept_after
clean_parts-append rooted kept [] ys = refl
clean_parts-append rooted kept (x ∷ xs) ys =
    clean_parts-append rooted (clean_step rooted kept x) xs ys

safe_step :
    (rooted : Bool) (kept : List String) (y : String) (ys : List String)
    → unsafe_part (y ∷ ys) ≡ none
    → (clean_step rooted kept y ≡ y ∷ kept) × (unsafe_part ys ≡ none)
unfolding unsafe_part clean_step
safe_step rooted kept y ys h = (ground arith, ground arith)

-- Safe names stay as they are.
clean_parts-safe :
    (rooted : Bool) (kept ys : List String)
    → unsafe_part ys ≡ none
    → clean_parts rooted kept ys ≡ reverse kept ++ ys
unfolding clean_parts
clean_parts-safe rooted kept [] h = sym (append-nil (reverse kept))
clean_parts-safe rooted kept (y ∷ ys) h =
    let (step, rest) = safe_step rooted kept y ys h in
    rw (step, clean_parts-safe rooted (y ∷ kept) ys rest)
      (ap (λ t. t ++ ys) (reverse-cons y kept) ∙ append_assoc (reverse kept) (y ∷ []) ys)

-- The names on the way from the file system's root.
abbrev pub names_of : String → List String
names_of s = clean_parts true [] (split slash s)

pub filepath_join-names :
    (a b : String)
    → is_abs a ≡ true
    → unsafe_part (split slash b) ≡ none
    → filepath_join a b ≡ "/" <> join_parts (names_of a ++ split slash b)
unfolding filepath_join clean
filepath_join-names a b h safe =
    rw (is_abs-append a ("/" <> b) h, split-append a b)
      (rw (clean_parts-append true [] (split slash a) (split slash b)) (
        rw (clean_parts-safe true (kept_after true [] (split slash a)) (split slash b) safe)
          (rw (← clean_parts-kept true [] (split slash a)) refl)))

abbrev pub none_if : Option String → Result (Unit {0})
none_if (some part) = err (unsafe_component part)
none_if none = ok tt

-- The tests of `Resolve` that passed.
passed :
    (bad : Bool) (r : Result (Unit {0})) (x y agent host : String)
    → (if bad then err invalid_root else paths_if r (x, y)) ≡ ok (agent, host)
    → (bad ≡ false) × (r ≡ ok tt) × (x ≡ agent) × (y ≡ host)
passed bad r x y agent host h = ground arith

safe_if_passed :
    (bad : Bool) (o : Option String) → (if bad then err not_clean else none_if o) ≡ ok tt → o ≡ none
safe_if_passed bad o h = ground arith

check_relative-unsafe_part :
    (relative : String)
    → check_relative relative ≡ ok tt
    → unsafe_part (split slash relative) ≡ none
unfolding check_relative
check_relative-unsafe_part relative h = safe_if_passed _ (unsafe_part (split slash relative)) h

abs_if_passed :
    (bad agent host : Bool)
    → (bad || (not agent || not host)) ≡ false
    → (agent ≡ true) × (host ≡ true)
abs_if_passed bad agent host h = (ground arith, ground arith)

-- A path that Resolve returns, in the agent and on the host, consists of the names of the cleaned
-- root followed by the names of the relative path, and none of the latter is empty, a dot, a
-- double dot or holds a null character.
pub resolve-names :
    (root : Root) (relative agent host : String)
    → resolve root relative ≡ ok (agent, host)
    → (unsafe_part (split slash relative) ≡ none)
      × (agent ≡ "/" <> join_parts (names_of root.agent_path ++ split slash relative))
      × (host ≡ "/" <> join_parts (names_of root.host_path ++ split slash relative))
unfolding resolve
resolve-names root relative agent host h =
    let (good, checked, p, q) =
      passed (str_eq root.id "" || (not (is_abs root.agent_path) || not (is_abs root.host_path)))
        (check_relative relative) (filepath_join root.agent_path relative)
        (filepath_join root.host_path relative) agent host h in
    let safe = check_relative-unsafe_part relative checked in
    let (a, b) = abs_if_passed _ (is_abs root.agent_path) (is_abs root.host_path) good in
    (
      safe,
      sym p ∙ filepath_join-names root.agent_path relative a safe,
      sym q ∙ filepath_join-names root.host_path relative b safe,
    )
