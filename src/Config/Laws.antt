-- ===== src/Config/Laws.antt =====
-- internal/config/config.go: what a configuration that `Load` returns has passed.
use home_server_deployer.Prelude.{
  String, ◌≡◌, refl, subst, true, false, Option, none, some, List, [], ◌∷◌, str_eq, contains, arith,
  Bool-cases, inl, inr,
}
use home_server_deployer.Error.{Error, is_not_exist}
use home_server_deployer.Act.{Result, ok, err, Act, ok-injective}
use home_server_deployer.Paths.{Root}
use home_server_deployer.Paths.Filepath.{is_abs}
use home_server_deployer.Config.{
  Config, default_config, check_roots, validate_config, valid_config, decoded_config, config_of,
  load_config,
}

default_valid : validate_config default_config ≡ none
unfolding validate_config is_abs
default_valid = refl

valid_config-ok :
    (c cfg : Config) (o : Option Error)
    → validate_config c ≡ o
    → valid_config c o ≡ ok cfg
    → validate_config cfg ≡ none
valid_config-ok c cfg none valid h = subst (λ d. validate_config d ≡ none) (ok-injective h) valid
valid_config-ok c cfg (some e) valid h = cc

decoded_config-ok :
    (r : Result Config) (cfg : Config) → decoded_config r ≡ ok cfg → validate_config cfg ≡ none
decoded_config-ok (err e) cfg h = cc
decoded_config-ok (ok c) cfg h = valid_config-ok c cfg (validate_config c) refl h

config_of-ok :
    (decode : Config → String → Result Config) (r : Result String) (cfg : Config)
    → config_of decode r ≡ ok cfg
    → validate_config cfg ≡ none
config_of-ok decode (ok text) cfg h = decoded_config-ok (decode default_config text) cfg h
config_of-ok decode (err e) cfg h = elim (Bool-cases (is_not_exist e)) [
  | inl missing ↦
      subst (λ c. validate_config c ≡ none) (ok-injective (rw missing at h)) default_valid
  | inr failed ↦ cc (rw failed at h)
]

pub load_config-ok :
    {W : Type 0} (read_file : String → Act W String) (decode : Config → String → Result Config)
    (path : String) (w : W) (cfg : Config)
    → (load_config read_file decode path w).0 ≡ ok cfg
    → validate_config cfg ≡ none
unfolding load_config
load_config-ok read_file decode path w cfg h = config_of-ok decode _ cfg h

-- A root with an ID and two absolute paths.
abbrev pub IsUsableRoot : Root → Type 0
IsUsableRoot r =
    (str_eq r.id "" ≡ false) × (is_abs r.host_path ≡ true) × (is_abs r.agent_path ≡ true)

pub check_roots-cons :
    (r : Root) (rs : List Root) (seen : List String)
    → check_roots (r ∷ rs) seen ≡ none
    → IsUsableRoot r × (contains seen r.id ≡ false) × (check_roots rs (r.id ∷ seen) ≡ none)
unfolding check_roots
check_roots-cons r rs seen h =
    ((ground arith, ground arith, ground arith), ground arith, ground arith)

pub validate_config-check_roots :
    (c : Config) → validate_config c ≡ none → check_roots c.approved_roots [] ≡ none
unfolding validate_config
validate_config-check_roots c h = ground arith
