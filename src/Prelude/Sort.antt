-- ===== src/Prelude/Sort.antt =====
-- `sort.Strings` and `sort.Slice` by a text, as an insertion sort.
use Prim.Native.Nat.{ℕ, Ordering, compare as compare_ℕ}
use Prim.Native.Char.{code}
use Prim.Native.String.{String, compare, then as first_unequal}
use Prim.Native.String.compare as text_order
use mathlib.Core.Bool.{Bool, true, false}
use mathlib.Core.List.{List, [], ◌∷◌, Perm}
use mathlib.Core.List.Perm
use mathlib.Core.Path.{◌≡◌, refl, sym, ◌∙◌}
use mathlib.Core.Logic.{inl, inr}
use native.Mathlib.Omega.{arith}
use home_server_deployer.Prelude.Tests.{contains, All, Bool-cases, if◌then◌else◌}

-- Go compares texts byte by byte, as UTF-8 does code points.
unfoldable pub str_leb : String → String → Bool
str_leb s t = elim (compare s t) [ Ordering.gt ↦ false | _ ↦ true ]

module _ {ℓ} {A : Type ℓ} (key : A → String) where
  unfoldable pub insert_by : A → List A → List A
  insert_by a [] = a ∷ []
  insert_by a (b ∷ bs) =
      let rest = insert_by a bs in if str_leb (key a) (key b) then a ∷ b ∷ bs else b ∷ rest

  unfoldable pub sort_by : List A → List A
  unfolding insert_by
  sort_by [] = []
  sort_by (a ∷ as') = insert_by a (sort_by as')

-- sort.Strings
unfoldable pub sort_strings : List String → List String
unfolding sort_by str_leb
sort_strings = sort_by (λ s. s)

module _ {ℓ} {A : Type ℓ} (key : A → String) where
  pub insert_by-perm : (a : A) (bs : List A) → Perm (insert_by key a bs) (a ∷ bs)
  unfolding insert_by
  insert_by-perm a [] = Perm.refl _
  insert_by-perm a (b ∷ bs) = elim (Bool-cases (str_leb (key a) (key b))) [
    | inl h ↦ rw h (Perm.refl _)
    | inr h ↦ rw h (Perm.trans (Perm.cons b (insert_by-perm a bs)) (Perm.swap a b bs))
  ]

  -- Sorting keeps every entry, as often as it was there.
  pub sort_by-perm : (as' : List A) → Perm (sort_by key as') as'
  unfolding sort_by
  sort_by-perm [] = Perm.refl _
  sort_by-perm (a ∷ as') =
      Perm.trans (insert_by-perm a (sort_by key as')) (Perm.cons a (sort_by-perm as'))

contains-insert_by :
    (a : String) (bs : List String) (j : String)
    → contains (insert_by (λ s. s) a bs) j ≡ contains (a ∷ bs) j
unfolding insert_by contains
contains-insert_by a [] j = refl
contains-insert_by a (b ∷ bs) j = ground (arith, contains-insert_by a bs j)

contains-sort_by :
    (xs : List String) (j : String) → contains (sort_by (λ s. s) xs) j ≡ contains xs j
unfolding sort_by contains
contains-sort_by [] j = refl
contains-sort_by (x ∷ xs) j =
    ground (arith, contains-insert_by x (sort_by (λ s. s) xs) j, contains-sort_by xs j)

pub contains-sort_strings :
    (xs : List String) (j : String) → contains (sort_strings xs) j ≡ contains xs j
unfolding sort_strings
contains-sort_strings xs j = contains-sort_by xs j

module _ {ℓ ℓ'} {A : Type ℓ} (key : A → String) (P : A → Type ℓ') where
  All-insert_by : (a : A) (bs : List A) → P a → All P bs → All P (insert_by key a bs)
  unfolding insert_by
  All-insert_by a [] p ps = (p, tt)
  All-insert_by a (b ∷ bs) p (q, qs) =
      if_All (str_leb (key a) (key b)) (a ∷ b ∷ bs) (b ∷ insert_by key a bs) (p, (q, qs))
        (q, All-insert_by a bs p qs)
    where
      if_All : (t : Bool) (xs ys : List A) → All P xs → All P ys → All P (if t then xs else ys)
      if_All true xs ys h k = h
      if_All false xs ys h k = k

  pub All-sort_by : (as' : List A) → All P as' → All P (sort_by key as')
  unfolding sort_by
  All-sort_by [] ps = tt
  All-sort_by (a ∷ as') (p, ps) = All-insert_by a (sort_by key as') p (All-sort_by as' ps)

-- Each entry is followed by one whose key is at least as high.
abbrev pub Ordered {ℓ} : {A : Type ℓ} → (A → String) → List A → Type 0
Ordered key [] = Unit
Ordered key (a ∷ []) = Unit
Ordered key (a ∷ b ∷ as') = (str_leb (key a) (key b) ≡ true) × Ordered key (b ∷ as')

then_flip :
    (m n : ℕ) (o p : Ordering)
    → (o ≡ Ordering.gt → p ≡ Ordering.lt)
    → first_unequal (compare_ℕ m n) o ≡ Ordering.gt
    → first_unequal (compare_ℕ n m) p ≡ Ordering.lt
then_flip m n o p flip h = ground (arith, flip)

compare_flip : (s t : String) → compare s t ≡ Ordering.gt → compare t s ≡ Ordering.lt
compare_flip String.[] String.[] h = cc (h, text_order.nil-nil)
compare_flip String.[] (String.◌∷◌ d t) h = cc (h, text_order.nil-cons d t)
compare_flip (String.◌∷◌ c s) String.[] h = text_order.nil-cons c s
compare_flip (String.◌∷◌ c s) (String.◌∷◌ d t) h =
    text_order.cons-cons d c t s
    ∙ then_flip (code c) (code d) (compare s t) (compare t s) (compare_flip s t)
        (sym (text_order.cons-cons c d s t) ∙ h)

str_leb_total : (s t : String) → str_leb s t ≡ false → str_leb t s ≡ true
unfolding str_leb
str_leb_total s t h = ground (arith, compare_flip s t)

module _ {ℓ} {A : Type ℓ} (key : A → String) where
  insert_by-Ordered_after :
      (b a : A) (bs : List A)
      → str_leb (key b) (key a) ≡ true
      → Ordered key (b ∷ bs)
      → Ordered key (insert_by key a bs)
      → Ordered key (b ∷ insert_by key a bs)
  unfolding insert_by
  insert_by-Ordered_after b a [] le o rest = (le, tt)
  insert_by-Ordered_after b a (c ∷ cs) le (le', o) rest =
      elim (Bool-cases (str_leb (key a) (key c))) [
        | inl h ↦ rw h (le, (h, o))
        | inr h ↦ rw h (le', rw h at rest)
      ]

  insert_by-Ordered : (a : A) (bs : List A) → Ordered key bs → Ordered key (insert_by key a bs)
  unfolding insert_by
  insert_by-Ordered a [] o = tt
  insert_by-Ordered a (b ∷ bs) o = elim (Bool-cases (str_leb (key a) (key b))) [
    | inl h ↦ rw h (h, o)
    | inr h ↦ rw h (
        insert_by-Ordered_after b a bs (str_leb_total (key a) (key b) h) o
          (insert_by-Ordered a bs (tail b bs o)))
  ]
    where
      tail : (c : A) (cs : List A) → Ordered key (c ∷ cs) → Ordered key cs
      tail c [] o = tt
      tail c (d ∷ ds) (_, o) = o

  pub sort_by-Ordered : (as' : List A) → Ordered key (sort_by key as')
  unfolding sort_by
  sort_by-Ordered [] = tt
  sort_by-Ordered (a ∷ as') = insert_by-Ordered a (sort_by key as') (sort_by-Ordered as')
