-- ===== src/Systemd/StatusLaws.antt =====
-- internal/systemd/systemd.go against internal/engine/transaction.go: the status that
-- `verifyUnitActive` reads.
use Prim.Native.Char.{Char}
use Prim.Native.String.compare as text_order
use text.Mathlib.Text.{is_eq}
use text.Mathlib.TextEquality.{Char-path}
use text.Mathlib.TextLemmas.{nil-append as text_nil, cons-append as text_cons}
use home_server_deployer.Prelude.{
  String, ◌<>◌, ◌≡◌, refl, sym, ap, ◌∙◌, true, false, none, List, [], ◌∷◌, str_eq, eq_iff, arith,
  Bool-cases, inl, inr, if◌then◌else◌,
}
use home_server_deployer.Text.{has_prefix, strip_prefix, contains_text, contains_any}
use home_server_deployer.Systemd.{
  UnitStatus, Bus, status_line, status_of_units, require_unit, direct_status, direct_manager,
}
use home_server_deployer.Error.{unit_name_refused, verification_failed}
use home_server_deployer.Act.{ok, Act, pure, raise, ok-injective}
use home_server_deployer.Act.Rules.{bind_rule}
use home_server_deployer.Engine.Support.{verify_unit_active}

abbrev Slashless : String → Type 0
Slashless s = contains_any s (b'/' ∷ []) ≡ false

-- Before its first slash no text begins with the one that is looked for.
contains_text-Slashless :
    (a r p : String)
    → Slashless a
    → contains_text (a <> r) (String.◌∷◌ "/" p) ≡ contains_text r (String.◌∷◌ "/" p)
unfolding contains_text has_prefix contains_any
contains_text-Slashless String.[] r p h = rw (text_nil r) refl
contains_text-Slashless (String.◌∷◌ c a) r p h =
    rw (text_cons c a r) (ground (arith, contains_text-Slashless a r p))

contains_text-none : (s p : String) → Slashless s → contains_text s (String.◌∷◌ "/" p) ≡ false
unfolding contains_text has_prefix contains_any
contains_text-none String.[] p h = refl
contains_text-none (String.◌∷◌ c s) p h = ground (arith, contains_text-none s p)

strip_prefix-none :
    (p s : String) → contains_any p (b'/' ∷ []) ≡ true → Slashless s → strip_prefix p s ≡ none
unfolding strip_prefix contains_any
strip_prefix-none String.[] s h k = cc
strip_prefix-none (String.◌∷◌ c p) String.[] h k = refl
strip_prefix-none (String.◌∷◌ c p) (String.◌∷◌ d s) h k = ground (arith, strip_prefix-none p s)

cons-ne : (c : Char) (s : String) → str_eq (String.◌∷◌ c s) "" ≡ false
cons-ne c s = ap is_eq (text_order.cons-nil c s)

ne-cons : (c : Char) (s : String) → str_eq "" (String.◌∷◌ c s) ≡ false
ne-cons c s = ap is_eq (text_order.nil-cons c s)

-- A word up to the slash that ends it.
has_prefix-word :
    (v a s : String)
    → Slashless v
    → Slashless a
    → has_prefix (a <> String.◌∷◌ "/" s) (v <> "/") ≡ str_eq a v
unfolding has_prefix strip_prefix contains_any
has_prefix-word String.[] String.[] s h k = rw (text_nil (String.◌∷◌ "/" s)) refl
has_prefix-word String.[] (String.◌∷◌ c a) s h k =
    rw (text_cons c a (String.◌∷◌ "/" s)) (ground (arith, cons-ne c a))
has_prefix-word (String.◌∷◌ d v) String.[] s h k =
    rw (text_nil (String.◌∷◌ "/" s), text_cons d v "/") (ground (arith, ne-cons d v))
has_prefix-word (String.◌∷◌ d v) (String.◌∷◌ c a) s h k =
    rw (text_cons c a (String.◌∷◌ "/" s), text_cons d v "/")
      (ground (
        arith,
        has_prefix-word v a s,
        eq_iff (String.◌∷◌ c a) (String.◌∷◌ d v),
        eq_iff a v,
        Char-path c d,
      ))

slash_in_active : contains_any "active/" (b'/' ∷ []) ≡ true
unfolding contains_any
slash_in_active = refl

active_plain : Slashless "active"
unfolding contains_any
active_plain = refl

slash-cons : (r : String) → "/" <> r ≡ String.◌∷◌ "/" r
slash-cons r = text_cons "/" String.[] r ∙ ap (String.◌∷◌ "/") (text_nil r)

-- The last part has no slash after it.
last_part-inactive :
    (s : String) → Slashless s → contains_text (String.◌∷◌ "/" s) "/active/" ≡ false
unfolding contains_text has_prefix strip_prefix
last_part-inactive s h =
    rw (strip_prefix-none "active/" s slash_in_active h) (contains_text-none s "active/" h)

from_slash :
    (a s : String)
    → Slashless a
    → Slashless s
    → contains_text (String.◌∷◌ "/" (a <> String.◌∷◌ "/" s)) "/active/" ≡ str_eq a "active"
unfolding contains_text
from_slash a s h k =
    rw
      (
        has_prefix-word "active" a s active_plain h,
        contains_text-Slashless a (String.◌∷◌ "/" s) "active/" h,
        last_part-inactive s k,
      )
      (ground arith)

-- The states of a unit are words.
abbrev pub HasWords : UnitStatus → Type 0
HasWords u = Slashless u.load_state × Slashless u.active_state × Slashless u.sub_state

status_line-active :
    (u : UnitStatus)
    → HasWords u
    → contains_text (status_line u) "/active/" ≡ str_eq u.active_state "active"
unfolding status_line
status_line-active u (h, k, l) =
    rw (slash-cons (u.active_state <> ("/" <> u.sub_state)), slash-cons u.sub_state)
      (contains_text-Slashless u.load_state _ "active/" h
        ∙ from_slash u.active_state u.sub_state k l)

no_units_inactive : contains_text "not-found" "/active/" ≡ false
unfolding contains_text
no_units_inactive = refl

status_of_units-active :
    (us : List UnitStatus)
    → contains_text (status_of_units us) "/active/" ≡ true
    → (u : UnitStatus) × (us ≡ u ∷ []) × (HasWords u → u.active_state ≡ "active")
unfolding status_of_units
status_of_units-active [] h = cc (h, no_units_inactive)
status_of_units-active (u ∷ []) h =
    (u, refl, λ words. (eq_iff u.active_state "active").0 (sym (status_line-active u words) ∙ h))
status_of_units-active (u ∷ v ∷ us) h = cc (h, no_units_inactive)

module _ {W : Type 0} (bus : Bus W) where
  -- What `verifyUnitActive` has seen.
  abbrev pub SeenActive : String → Act W (List UnitStatus) → Type 0
  SeenActive unit listing =
      (v : W) × (u : UnitStatus) × ((listing v).0 ≡ ok (u ∷ []))
      × (HasWords u → u.active_state ≡ "active")

  verified :
      (unit status : String) (v : W)
      → ((if contains_text status "/active/"
            then pure tt
            else raise (verification_failed unit status))
          v).0
        ≡ ok tt
      → contains_text status "/active/" ≡ true
  verified unit status v h = elim (Bool-cases (contains_text status "/active/")) [
    | inl seen ↦ seen
    | inr unseen ↦ cc (rw unseen at h)
  ]

  direct_status-listing :
      (unit : String) (w : W) (status : String)
      → (direct_status bus unit w).0 ≡ ok status
      → (v : W) × (us : List UnitStatus) × ((bus.list_units (unit ∷ []) v).0 ≡ ok us)
        × (status ≡ status_of_units us)
  unfolding direct_status
  direct_status-listing unit w = bind_rule P (require_unit bus unit unit_name_refused) _ w λ _ _.
      bind_rule P (bus.list_units (unit ∷ [])) _ _
        λ us listed status h. (_, us, listed, sym (ok-injective h))
    where
      P : String → W → Type 0
      P status _ =
          (v : W) × (us : List UnitStatus) × ((bus.list_units (unit ∷ []) v).0 ≡ ok us)
          × (status ≡ status_of_units us)

  -- If verifyUnitActive returns without an error over the D-Bus manager, systemd listed exactly
  -- one unit of the name, and if the states of that unit have no slash in them, its active state
  -- is active.
  pub verify_unit_active-SeenActive :
      (unit : String) (w : W)
      → (verify_unit_active (direct_manager bus) unit w).0 ≡ ok tt
      → SeenActive unit (bus.list_units (unit ∷ []))
  unfolding verify_unit_active direct_manager direct_status
  verify_unit_active-SeenActive unit w =
      bind_rule P (direct_status bus unit)
        (λ status.
          if contains_text status "/active/"
          then pure tt
          else raise (verification_failed unit status))
        w
        (λ status read _ h.
          let (v, us, listed, named) = direct_status-listing unit w status read in
          let (u, one, active) =
            status_of_units-active us
              (ap (λ t. contains_text t "/active/") (sym named) ∙ verified unit status _ h) in
          (v, u, listed ∙ ap ok one, active))
        tt
    where
      P : Unit {0} → W → Type 0
      P _ _ = SeenActive unit (bus.list_units (unit ∷ []))
