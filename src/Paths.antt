-- ===== src/Paths.antt =====
-- internal/paths/paths.go, and what the sources use of path/filepath on Linux.
pub mod Filepath
pub mod ContainmentLaws
pub mod CleanLaws
use home_server_deployer.Prelude.{
  ℕ, String, Bool, true, false, not, ◌||◌, ◌<>◌, Option, none, some, List, [], ◌∷◌, str_eq,
  if◌then◌else◌,
}
use home_server_deployer.Error.{
  Error, invalid_root, not_clean, unsafe_component, open_root_failed, make_dir_failed,
  resolve_failed,
}
use home_server_deployer.Act.{Result, ok, err, Act, raise, pure, lift, attempt, ◌>>=◌}
use home_server_deployer.Text.{contains_any, split}
use home_server_deployer.Services.{Platform}
use Filepath.{is_abs, clean, filepath_join, slash}

pub record Root : Type 0 where
  pub id : String
  pub host_path : String
  pub agent_path : String

-- The zero value.
abbrev pub empty_root : Root
empty_root = record { id = ""; host_path = ""; agent_path = "" }

-- The loop of `Resolve` over the components: the first unsafe one.
unfoldable pub unsafe_part : List String → Option String
unfolding contains_any
unsafe_part [] = none
unsafe_part (part ∷ parts) =
    let rest = unsafe_part parts in
    if str_eq part "" || (str_eq part "." || (str_eq part ".." || contains_any part (0 ∷ [])))
    then some part
    else rest

-- The two tests and the loop of `Resolve`, on the relative path alone.
unfoldable pub check_relative : String → Result (Unit {0})
unfolding unsafe_part clean split is_abs
check_relative relative =
    if str_eq relative ""
      || (is_abs relative || (not (str_eq (clean relative) relative) || str_eq relative "."))
    then err not_clean
    else elim (unsafe_part (split slash relative)) [
      | some part ↦ err (unsafe_component part)
      | none ↦ ok tt
    ]

-- The two joined paths, if nothing is wrong with the relative one.
abbrev pub paths_if : Result (Unit {0}) → String × String → Result (String × String)
paths_if (err e) p = err e
paths_if (ok _) p = ok p

unfoldable pub resolve : Root → String → Result (String × String)
unfolding check_relative is_abs filepath_join
resolve root relative =
    if str_eq root.id "" || (not (is_abs root.agent_path) || not (is_abs root.host_path))
    then err invalid_root
    else paths_if (check_relative relative)
        (filepath_join root.agent_path relative, filepath_join root.host_path relative)

module _ {W : Type 0} (platform : Platform W) where
  open platform use {open_root, already_there, mkdirat, openat2}

  -- `Mkdirat`, where an existing entry is no error
  unfoldable pub make_dir : ℕ → String → ℕ → Act W (Unit {0})
  make_dir fd part mode w =
      let exists = already_there fd part w in
      attempt (mkdirat fd part mode)
        (λ e. if exists then pure tt else raise (make_dir_failed part e)) (λ _. pure tt) w

  -- The loop of `EnsureDir`: each step goes one directory down, from descriptor to descriptor.
  unfoldable pub descend : ℕ → List String → ℕ → Act W ℕ
  unfolding make_dir
  descend fd [] mode = pure fd
  descend fd (part ∷ parts) mode = do
    _ ← make_dir fd part mode
    next ← attempt (openat2 fd part) (λ e. raise (resolve_failed part e)) pure
    descend next parts mode

  unfoldable pub ensure_dir : Root → String → ℕ → Act W String
  unfolding resolve descend
  ensure_dir root relative mode = do
    (agent_path, _) ← lift (resolve root relative)
    base ← attempt (open_root root.agent_path) (λ e. raise (open_root_failed root.id e)) pure
    _ ← descend base (split slash relative) mode
    pure agent_path
