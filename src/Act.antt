-- ===== src/Act.antt =====
-- Calls that may fail and change the host. A Go function that returns `(T, error)` is an action:
-- from the world before, a result and the world after it. What a failing call did stays done.
pub mod Rules
use home_server_deployer.Prelude.{String, List, [], ◌∷◌, ◌++◌, ◌≡◌, refl, Option, none, some}
use home_server_deployer.Error.{Error}

pub data Result {ℓ} (A : Type ℓ) : Type ℓ where
  ok : A → Result A
  err : Error → Result A

pub ok-injective {ℓ} : {A : Type ℓ} {a b : A} → ok a ≡ ok b → a ≡ b
ok-injective h = cc

-- A result, unless there is an error before it.
abbrev pub unless : {A : Type 0} → Option Error → Result A → Result A
unless none r = r
unless (some c) r = err c

pub unless-eq-ok :
    {A : Type 0} (o : Option Error) (r : Result A) (a : A)
    → unless o r ≡ ok a
    → (o ≡ none) × (r ≡ ok a)
unless-eq-ok none r a h = (refl, h)
unless-eq-ok (some c) r a h = cc

abbrev pub Act : Type 0 → Type 0 → Type 0
Act W A = W → Result A × W

-- `if err != nil { errs = append(errs, err) }`
abbrev pub noted {ℓ} : {B : Type ℓ} → Result B → List Error → List Error
noted (ok _) es = es
noted (err e) es = e ∷ es

module _ {W : Type 0} where
  abbrev pub pure : {A : Type 0} → A → Act W A
  pure a w = (ok a, w)

  abbrev pub raise : {A : Type 0} → Error → Act W A
  raise e w = (err e, w)

  -- a pure part that may fail
  abbrev pub lift : {A : Type 0} → Result A → Act W A
  lift r w = (r, w)

  -- an observation that cannot fail
  abbrev pub gets : {A : Type 0} → (W → A) → Act W A
  gets f w = (ok (f w), w)

  abbrev pub branch : {A B : Type 0} → (Error → Act W B) → (A → Act W B) → Result A → Act W B
  branch handler next (ok a) w = next a w
  branch handler next (err e) w = handler e w

  -- `a, err := m; if err != nil { return handler(err) }` and what follows
  unfoldable pub attempt : {A B : Type 0} → Act W A → (Error → Act W B) → (A → Act W B) → Act W B
  attempt m handler next w = branch handler next (m w).0 (m w).1

  -- `if err != nil { return err }`
  infixl 5 ◌>>=◌ ◌>>◌
  abbrev pub ◌>>=◌ : {A B : Type 0} → Act W A → (A → Act W B) → Act W B
  m >>= f = attempt m raise f

  abbrev pub ◌>>◌ : {A B : Type 0} → Act W A → Act W B → Act W B
  m >> k = m >>= λ _. k

  -- `for _, x := range xs { if err := step(x); err != nil { return fail(err) }; done = append(done, label(x)) }`
  -- and what follows. `fail` and `next` are given what is done.
  unfoldable pub each :
      {A B C : Type 0}
      → (A → String)
      → (A → Act W B)
      → (List String → Error → Act W C)
      → (List String → Act W C)
      → List A
      → List String
      → Act W C
  each label step fail next [] done = next done
  each label step fail next (x ∷ xs) done =
      attempt (step x) (fail done) (λ _. each label step fail next xs (done ++ label x ∷ []))

  -- `for _, x := range xs { if err := step(x); err != nil { errs = append(errs, err) } }`
  unfoldable pub collect : {A B : Type 0} → (A → Act W B) → List A → W → List Error × W
  collect step [] w = ([], w)
  collect step (x ∷ xs) w =
      let (r, w') = step x w in let (es, w'') = collect step xs w' in (noted r es, w'')
