-- ===== src/Text/SplitLaws.antt =====
-- Splitting a text at a character.
use Prim.Native.Char.{Char, code}
use text.Mathlib.TextLemmas.{nil-append as text_nil, cons-append as text_cons}
use home_server_deployer.Prelude.{
  ℕ, String, ◌≡◌, refl, false, Bool-cases, inl, inr, List, [], ◌∷◌, ◌++◌, ◌<>◌, arith, ◌==◌,
}
use home_server_deployer.Text.{contains_any, split, onto_first}

-- No part of a split holds the separator.
abbrev pub NoneHolds : ℕ → List String → Type 0
NoneHolds c [] = Unit
NoneHolds c (p ∷ ps) = (contains_any p (c ∷ []) ≡ false) × NoneHolds c ps

onto_first-NoneHolds :
    (d : Char) (c : ℕ) (ps : List String)
    → (code d == c) ≡ false
    → NoneHolds c ps
    → NoneHolds c (onto_first d ps)
unfolding contains_any
onto_first-NoneHolds d c [] h n = (ground arith, tt)
onto_first-NoneHolds d c (p ∷ ps) h (n, ns) = (ground arith, ns)

pub split-NoneHolds : (c : ℕ) (s : String) → NoneHolds c (split c s)
unfolding split contains_any
split-NoneHolds c String.[] = (refl, tt)
split-NoneHolds c (String.◌∷◌ d s) = elim (Bool-cases (code d == c)) [
  | inl here ↦ rw here (refl, split-NoneHolds c s)
  | inr other ↦ rw other (onto_first-NoneHolds d c (split c s) other (split-NoneHolds c s))
]

split-cons : (c : ℕ) (s : String) → (p : String) × (ps : List String) × (split c s ≡ p ∷ ps)
unfolding split
split-cons c String.[] = ("", [], refl)
split-cons c (String.◌∷◌ d s) = elim (Bool-cases (code d == c)) [
  | inl here ↦ ("", split c s, rw (here) refl)
  | inr other ↦ let (p, ps, q) = split-cons c s in (String.◌∷◌ d p, ps, rw (other, q) refl)
]

onto_first-split :
    (d : Char) (c : ℕ) (s : String) (ys : List String)
    → onto_first d (split c s ++ ys) ≡ onto_first d (split c s) ++ ys
onto_first-split d c s ys = let (p, ps, q) = split-cons c s in rw (q) refl

-- A text with a b'/' in the middle splits into the parts of both sides.
pub split-append : (a b : String) → split b'/' (a <> ("/" <> b)) ≡ split b'/' a ++ split b'/' b
unfolding split
split-append String.[] b = rw (text_nil ("/" <> b), text_cons "/" String.[] b, text_nil b) refl
split-append (String.◌∷◌ d a) b = elim (Bool-cases (code d == b'/')) [
  | inl here ↦ rw (text_cons d a ("/" <> b), here, split-append a b) refl
  | inr other ↦
      rw (text_cons d a ("/" <> b), other, split-append a b)
        (onto_first-split d b'/' a (split b'/' b))
]

-- A text without the separator is one part.
pub split-eq-singleton : (c : ℕ) (s : String) → contains_any s (c ∷ []) ≡ false → split c s ≡ s ∷ []
unfolding split contains_any
split-eq-singleton c String.[] h = refl
split-eq-singleton c (String.◌∷◌ d s) h = rw (differs h, split-eq-singleton c s (rest h)) refl
  where
    differs : contains_any (String.◌∷◌ d s) (c ∷ []) ≡ false → (code d == c) ≡ false
    differs k = ground arith

    rest : contains_any (String.◌∷◌ d s) (c ∷ []) ≡ false → contains_any s (c ∷ []) ≡ false
    rest k = ground arith

-- What a text does not hold, its parts do not hold.
pub split-NoneHolds_of_text :
    (c sep : ℕ) (s : String) → contains_any s (c ∷ []) ≡ false → NoneHolds c (split sep s)
unfolding split contains_any
split-NoneHolds_of_text c sep String.[] h = (refl, tt)
split-NoneHolds_of_text c sep (String.◌∷◌ d s) h = elim (Bool-cases (code d == sep)) [
  | inl here ↦ rw (here) (refl, split-NoneHolds_of_text c sep s (ground arith))
  | inr other ↦ rw (other) (
      onto_first-NoneHolds d c (split sep s) (ground arith)
        (split-NoneHolds_of_text c sep s (ground arith)))
]
