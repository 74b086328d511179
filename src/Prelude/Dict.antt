-- ===== src/Prelude/Dict.antt =====
-- Go maps with text keys: association lists, read by the first entry of a key.
use Prim.Native.String.{String}
use mathlib.Core.Path.{◌≡◌, refl}
use mathlib.Core.Option.{Option, none, some}
use mathlib.Core.List.{List, [], ◌∷◌}
use native.Mathlib.Omega.{arith}
use text.Mathlib.Text.{◌==◌ as str_eq}
use text.Mathlib.TextEquality.{eq_iff}
use mathlib.Core.Bool.{Bool, true, false}
use home_server_deployer.Prelude.Tests.{contains, if◌then◌else◌}

abbrev pub Dict {ℓ} : Type ℓ → Type ℓ
Dict V = List (String × V)

module _ {ℓ} {V : Type ℓ} where
  -- v, ok := m[key]
  unfoldable pub lookup : String → Dict V → Option V
  lookup key [] = none
  lookup key ((k, v) ∷ m) = let rest = lookup key m in if str_eq k key then some v else rest

  -- m[key] = x
  unfoldable pub insert : String → V → Dict V → Dict V
  insert key x [] = (key, x) ∷ []
  insert key x ((k, v) ∷ m) =
      let rest = insert key x m in if str_eq k key then (key, x) ∷ m else (k, v) ∷ rest

  pub lookup-insert :
      (key other : String) (x : V) (m : Dict V)
      → lookup other (insert key x m) ≡ (if str_eq key other then some x else lookup other m)
  unfolding lookup insert
  lookup-insert key other x [] = refl
  lookup-insert key other x ((k, v) ∷ m) =
      ground (arith, lookup-insert key other x m, eq_iff k other, eq_iff key other, eq_iff k key)

  -- for k := range m
  unfoldable pub keys : Dict V → List String
  keys [] = []
  keys ((k, v) ∷ m) = k ∷ keys m

  unfoldable pub values : Dict V → List V
  values [] = []
  values ((k, v) ∷ m) = v ∷ values m

abbrev pub is_some {ℓ} : {A : Type ℓ} → Option A → Bool
is_some none = false
is_some (some _) = true

pub contains-keys {ℓ} :
    {V : Type ℓ} (m : Dict V) (k : String) → contains (keys m) k ≡ is_some (lookup k m)
unfolding keys lookup contains
contains-keys [] k = refl
contains-keys ((j, v) ∷ m) k = ground (arith, contains-keys m k)
