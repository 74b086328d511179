-- ===== src/Act/Rules.antt =====
-- Rules for what an action returns and the world that it leaves.
use home_server_deployer.Prelude.{
  String, List, [], ◌∷◌, ◌++◌, ◌≡◌, refl, ◌∙◌, Bool, true, false, if◌then◌else◌,
}
use home_server_deployer.Error.{Error}
use home_server_deployer.Act.{
  Result, ok, err, Act, raise, branch, attempt, each, collect, noted, ◌>>=◌,
}

module _ {W A B : Type 0} (Q : Result B × W → Type 0) where
  branch_rule :
      (h : Error → Act W B) (f : A → Act W B) (r : Result A) (w : W)
      → ((a : A) → r ≡ ok a → Q (f a w))
      → ((e : Error) → r ≡ err e → Q (h e w))
      → Q (branch h f r w)
  branch_rule h f (ok a) w good bad = good a refl
  branch_rule h f (err e) w good bad = bad e refl

  -- One call, with its error path.
  pub attempt_rule :
      (m : Act W A) (h : Error → Act W B) (f : A → Act W B) (w : W)
      → ((a : A) → (m w).0 ≡ ok a → Q (f a (m w).1))
      → ((e : Error) → (m w).0 ≡ err e → Q (h e (m w).1))
      → Q (attempt m h f w)
  unfolding attempt
  attempt_rule m h f w good bad = branch_rule h f (m w).0 (m w).1 good bad

-- A loop with an early return: `I` holds of what is done, what is left and the world.
module _ {W A B C : Type 0} (Q : Result C × W → Type 0) (I : List String → List A → W → Type 0)
    (label : A → String) (step : A → Act W B) (fail : List String → Error → Act W C)
    (next : List String → Act W C) where
  pub each_rule :
      ((done : List String) (x : A) (xs : List A) (w : W)
        → I done (x ∷ xs) w
        → (b : B) → (step x w).0 ≡ ok b
        → I (done ++ label x ∷ []) xs (step x w).1)
      → ((done : List String) (x : A) (xs : List A) (w : W)
          → I done (x ∷ xs) w
          → (e : Error) → (step x w).0 ≡ err e
          → Q (fail done e (step x w).1))
      → ((done : List String) (w : W) → I done [] w → Q (next done w))
      → (xs : List A) (done : List String) (w : W) → I done xs w
      → Q (each label step fail next xs done w)
  unfolding each
  each_rule good bad end [] done w i = end done w i
  each_rule good bad end (x ∷ xs) done w i =
      attempt_rule Q (step x) (fail done) _ w
        (λ b p.
          each_rule good bad end xs (done ++ label x ∷ []) (step x w).1 (good done x xs w i b p))
        (bad done x xs w i)

-- A loop that goes on after errors and has met none: `J` holds of what is left and the world.
module _ {W A B : Type 0} (J : List A → W → Type 0) (step : A → Act W B) where
  noted-eq-nil :
      (r : Result B) (es : List Error) → noted r es ≡ [] → (b : B) × (r ≡ ok b) × (es ≡ [])
  noted-eq-nil (ok b) es h = (b, refl, h)
  noted-eq-nil (err e) es h = cc

  pub collect_rule :
      ((x : A) (xs : List A) (w : W)
        → J (x ∷ xs) w
        → (b : B) → (step x w).0 ≡ ok b
        → J xs (step x w).1)
      → (xs : List A) (w : W) → J xs w
      → (collect step xs w).0 ≡ []
      → J [] (collect step xs w).1
  unfolding collect
  collect_rule good [] w j h = j
  collect_rule good (x ∷ xs) w j h =
      let (b, p, q) = noted-eq-nil (step x w).0 _ h in
      collect_rule good xs (step x w).1 (good x xs w j b p) q

-- What a part of the program leaves alone: a view that no call of it changes.
module _ {W V : Type 0} (view : W → V) where
  abbrev pub Quiet : {A : Type 0} → Act W A → Type 0
  Quiet m = (w : W) → view (m w).1 ≡ view w

  pub Quiet-attempt :
      {A B : Type 0} (m : Act W A) (h : Error → Act W B) (f : A → Act W B)
      → Quiet m
      → ((e : Error) → Quiet (h e))
      → ((a : A) → Quiet (f a))
      → Quiet (attempt m h f)
  Quiet-attempt m h f qm qh qf w =
      attempt_rule (λ r. view r.1 ≡ view w) m h f w (λ a _. qf a (m w).1 ∙ qm w)
        (λ e _. qh e (m w).1 ∙ qm w)

  pub Quiet-bind :
      {A B : Type 0} (m : Act W A) (f : A → Act W B)
      → Quiet m
      → ((a : A) → Quiet (f a))
      → Quiet (m >>= f)
  Quiet-bind m f qm qf = Quiet-attempt m raise f qm (λ _ _. refl) qf

  pub Quiet-each :
      {A B C : Type 0} (label : A → String) (step : A → Act W B)
      (fail : List String → Error → Act W C) (next : List String → Act W C)
      → ((x : A) → Quiet (step x))
      → ((done : List String) (e : Error) → Quiet (fail done e))
      → ((done : List String) → Quiet (next done))
      → (xs : List A) (done : List String) → Quiet (each label step fail next xs done)
  Quiet-each label step fail next qs qf qn xs done w =
      each_rule (λ r. view r.1 ≡ view w) (λ _ _ v. view v ≡ view w) label step fail next
        (λ d x _ v i b p. qs x v ∙ i) (λ d x _ v i e p. qf d e (step x v).1 ∙ (qs x v ∙ i))
        (λ d v i. qn d v ∙ i) xs done w refl

  pub Quiet-collect :
      {A B : Type 0} (step : A → Act W B)
      → ((x : A) → Quiet (step x))
      → (xs : List A) (w : W) → view (collect step xs w).1 ≡ view w
  unfolding collect
  Quiet-collect step qs [] w = refl
  Quiet-collect step qs (x ∷ xs) w = Quiet-collect step qs xs (step x w).1 ∙ qs x w

  pub Quiet-if :
      {A : Type 0} (b : Bool) (m n : Act W A) → Quiet m → Quiet n → Quiet (if b then m else n)
  Quiet-if true m n qm qn = qm
  Quiet-if false m n qm qn = qn

-- What holds of both branches holds of the conditional.
pub if_rule :
    {A : Type 0} (Q : A → Type 0) (b : Bool) (x y : A) → Q x → Q y → Q (if b then x else y)
if_rule Q true x y qx qy = qx
if_rule Q false x y qx qy = qy

module _ {W : Type 0} where
  -- What holds of the result, if there is one.
  abbrev pub Yields : {A : Type 0} → (A → W → Type 0) → Result A × W → Type 0
  Yields {A = A} P r = (a : A) → r.0 ≡ ok a → P a r.1

  -- `if err != nil { return err }`
  pub bind_rule :
      {A B : Type 0} (P : B → W → Type 0) (m : Act W A) (f : A → Act W B) (w : W)
      → ((a : A) → (m w).0 ≡ ok a → Yields P (f a (m w).1))
      → Yields P ((m >>= f) w)
  bind_rule P m f w good = attempt_rule (Yields P) m _ f w good (λ c p b h. cc)
