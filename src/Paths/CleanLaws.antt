-- ===== src/Paths/CleanLaws.antt =====
-- The parts of a clean relative path.
use mathlib.Core.List.{reverse-cons}
use home_server_deployer.Prelude.{
  String, ◌≡◌, refl, sym, subst, ◌∙◌, ◌⊎◌, inl, inr, true, false, ◌||◌, Bool-cases, List, [], ◌∷◌,
  ◌++◌, reverse, str_eq, eq_iff, All, arith,
}
use home_server_deployer.Text.{split, contains_any}
use home_server_deployer.Text.SplitLaws.{NoneHolds, split-append, split-eq-singleton}
use home_server_deployer.Paths.Filepath.{slash, clean_step, go_up, join_parts}
use home_server_deployer.Paths.ContainmentLaws.{kept_after}

-- Neither empty, nor a dot, nor with a slash.
abbrev pub IsName : String → Type 0
IsName p = (str_eq p "" ≡ false) × (str_eq p "." ≡ false) × (contains_any p (slash ∷ []) ≡ false)

abbrev pub IsUp : String → Type 0
IsUp p = str_eq p ".." ≡ true

abbrev pub IsDown : String → Type 0
IsDown p = str_eq p ".." ≡ false

-- Behind a double dot there are only double dots.
abbrev pub Tidy : List String → Type 0
Tidy [] = Unit
Tidy (p ∷ ps) = IsName p × (IsUp p → All IsUp ps) × Tidy ps

up-IsName : IsName ".."
unfolding contains_any
up-IsName = (refl, refl, refl)

go_up-Tidy : (kept : List String) → Tidy kept → Tidy (go_up false kept)
unfolding go_up
go_up-Tidy [] t = (up-IsName, (λ _. tt), tt)
go_up-Tidy (p ∷ ps) (name, up, rest) = elim (Bool-cases (str_eq p "..")) [
  | inl here ↦ rw (here) (up-IsName, (λ _. (here, up here)), (name, up, rest))
  | inr other ↦ rw (other) rest
]

clean_step-Tidy :
    (kept : List String) (part : String)
    → contains_any part (slash ∷ []) ≡ false
    → Tidy kept
    → Tidy (clean_step false kept part)
unfolding clean_step
clean_step-Tidy kept part plain t = elim (Bool-cases (str_eq part "" || str_eq part ".")) [
  | inl skipped ↦ rw (skipped) t
  | inr named ↦ elim (Bool-cases (str_eq part "..")) [
    | inl up ↦ rw (named, up) (go_up-Tidy kept t)
    | inr down ↦
        rw (named, down)
          (
            (ground (arith, named), ground (arith, named), plain),
            (λ up. ground (arith, up, down)),
            t,
          )
  ]
]

pub kept_after-Tidy :
    (parts kept : List String)
    → NoneHolds slash parts
    → Tidy kept
    → Tidy (kept_after false kept parts)
unfolding kept_after
kept_after-Tidy [] kept n t = t
kept_after-Tidy (p ∷ ps) kept (n, ns) t =
    kept_after-Tidy ps (clean_step false kept p) ns (clean_step-Tidy kept p n t)

-- A list whose reverse begins with a double dot.
abbrev pub BeginsUp : List String → Type 0
BeginsUp kept = (rest : List String) × (reverse kept ≡ ".." ∷ rest)

BeginsUp-cons : (p : String) (ps : List String) → BeginsUp ps → BeginsUp (p ∷ ps)
BeginsUp-cons p ps (rest, q) = (rest ++ p ∷ [], reverse-cons p ps ∙ rw (q) refl)

BeginsUp-IsUp : (p : String) (ps : List String) → IsUp p → All IsUp ps → BeginsUp (p ∷ ps)
BeginsUp-IsUp p [] up ups = ([], rw ((eq_iff p "..").0 up) refl)
BeginsUp-IsUp p (q ∷ qs) up (u, us) = BeginsUp-cons p (q ∷ qs) (BeginsUp-IsUp q qs u us)

pub Tidy-cases : (kept : List String) → Tidy kept → All IsDown kept ⊎ BeginsUp kept
Tidy-cases [] t = inl tt
Tidy-cases (p ∷ ps) (name, up, rest) = elim (Bool-cases (str_eq p "..")) [
  | inl here ↦ inr (BeginsUp-IsUp p ps here (up here))
  | inr down ↦ elim (Tidy-cases ps rest) [
    | inl downs ↦ inl (down, downs)
    | inr begins ↦ inr (BeginsUp-cons p ps begins)
  ]
]

All-snoc :
    (P : String → Type 0) (xs : List String) (x : String) → All P xs → P x → All P (xs ++ x ∷ [])
All-snoc P [] x ps p = (p, tt)
All-snoc P (y ∷ ys) x (q, qs) p = (q, All-snoc P ys x qs p)

pub All-reverse : (P : String → Type 0) (xs : List String) → All P xs → All P (reverse xs)
All-reverse P [] ps = tt
All-reverse P (x ∷ xs) (p, ps) =
    subst (All P) (sym (reverse-cons x xs)) (All-snoc P (reverse xs) x (All-reverse P xs ps) p)

pub Tidy-IsName : (kept : List String) → Tidy kept → All IsName kept
Tidy-IsName [] t = tt
Tidy-IsName (p ∷ ps) (name, up, rest) = (name, Tidy-IsName ps rest)

pub split-join_parts :
    (p : String) (ps : List String)
    → All IsName (p ∷ ps)
    → split slash (join_parts (p ∷ ps)) ≡ p ∷ ps
unfolding join_parts
split-join_parts p [] ((a, b, plain), t) = split-eq-singleton slash p plain
split-join_parts p (q ∷ qs) ((a, b, plain), t) =
    split-append p (join_parts (q ∷ qs))
    ∙ rw (split-eq-singleton slash p plain, split-join_parts q qs t) refl
