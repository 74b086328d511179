-- ===== src/State.antt =====
-- internal/state/state.go: instances and plans as JSON files, replaced as a whole.
pub mod AtomicLaws
pub mod QuietLaws
use home_server_deployer.Prelude.{
  ℕ, String, ◌<>◌, ◌++◌, Bool, true, false, ◌||◌, not, List, [], ◌∷◌, if◌then◌else◌,
}
use home_server_deployer.Prelude.Sort.{sort_by}
use home_server_deployer.Model.{Instance, Plan}
use home_server_deployer.Error.{Error, invalid_stored_id, decode_failed, is_not_exist}
use home_server_deployer.Act.{Result, ok, err, Act, pure, raise, lift, attempt, ◌>>=◌, ◌>>◌}
use home_server_deployer.Text.{has_suffix}
use home_server_deployer.Names.{state_safe_id}
use home_server_deployer.Paths.Filepath.{filepath_join, dir}

pub record DirEntry : Type 0 where
  pub name : String
  pub is_dir : Bool

-- The calls of package os. A file that is open is named by its path.
pub record Disk (W : Type 0) : Type 0 where
  pub mkdir_all : String → ℕ → Act W (Unit {0})
  pub create_temp : String → String → Act W String
  pub chmod : String → ℕ → Act W (Unit {0})
  pub write : String → String → Act W (Unit {0})
  pub sync : String → Act W (Unit {0})
  pub close : String → Act W (Unit {0})
  pub rename : String → String → Act W (Unit {0})
  pub remove_file : String → Act W (Unit {0})
  pub read_file : String → Act W String
  pub read_dir : String → Act W (List DirEntry)
  -- opening a directory, its sync and its close, whose errors are dropped
  pub sync_dir : String → W → W

-- The JSON of a type: `MarshalIndent` and `Unmarshal`.
pub record Json (A : Type 0) : Type 0 where
  pub marshal : A → Result String
  pub unmarshal : String → Result A

abbrev pub stored_json : String → Bool
stored_json name = has_suffix name ".json"

module _ {W : Type 0} (disk : Disk W) where
  open disk use {
    mkdir_all, create_temp, chmod, write, sync, close, rename, remove_file, read_file, read_dir,
    sync_dir,
  }

  -- `if err := m; err != nil { f.Close(); return err }`
  abbrev pub or_close : String → Act W (Unit {0}) → Act W (Unit {0})
  or_close name m = attempt m (λ c w. (err c, (close name w).1)) pure

  -- `defer os.Remove(name)`
  abbrev pub then_remove : {A : Type 0} → String → Act W A → Act W A
  then_remove name m w = let (r, w') = m w in (r, (remove_file name w').1)

  -- What `atomicJSON` does with its temporary file.
  unfoldable pub fill_and_rename : String → String → String → Act W (Unit {0})
  unfolding dir
  fill_and_rename name p text = do
    or_close name (chmod name 0o640)
    or_close name (write name text)
    or_close name (sync name)
    close name
    rename name p
    λ w. (ok tt, sync_dir (dir p) w)

  -- The part of `atomicJSON` behind the encoding.
  unfoldable pub replace_file : String → String → Act W (Unit {0})
  unfolding dir fill_and_rename
  replace_file p text = do
    mkdir_all (dir p) 0o750
    name ← create_temp (dir p) ".tmp-"
    then_remove name (fill_and_rename name p text)

  module _ {A : Type 0} (json : Json A) where
    unfoldable pub atomic_json : String → A → Act W (Unit {0})
    unfolding replace_file
    atomic_json p v = do b ← lift (json.marshal v); replace_file p (b <> "\n")

    unfoldable pub read_json : String → Act W A
    read_json p = do
      b ← read_file p
      attempt (lift (json.unmarshal b)) (λ c. raise (decode_failed p c)) pure

  module _ (root : String) (instance_json : Json Instance) (plan_json : Json Plan) where
    unfoldable pub init : Act W (Unit {0})
    unfolding filepath_join
    init = do
      mkdir_all (filepath_join root "instances") 0o750
      mkdir_all (filepath_join root "plans") 0o750

    unfoldable pub path_of : String → String → String
    unfolding filepath_join
    path_of kind id = filepath_join (filepath_join root kind) (id <> ".json")

    unfoldable pub save_instance : Instance → Act W (Unit {0})
    unfolding path_of atomic_json
    save_instance v = atomic_json instance_json (path_of "instances" v.id) v

    unfoldable pub get_instance : String → Act W Instance
    unfolding path_of read_json state_safe_id
    get_instance id =
        if not (state_safe_id id)
        then raise (invalid_stored_id "instance")
        else read_json instance_json (path_of "instances" id)

    unfoldable pub read_instances : List DirEntry → List Instance → Act W (List Instance)
    unfolding read_json filepath_join has_suffix
    read_instances [] out = pure (sort_by (λ (v : Instance). v.id) out)
    read_instances (e ∷ es) out =
        if e.is_dir || not (stored_json e.name) then read_instances es out else (do
          v ← read_json instance_json (filepath_join (filepath_join root "instances") e.name)
          read_instances es (out ++ v ∷ []))

    unfoldable pub list_instances : Act W (List Instance)
    unfolding read_instances filepath_join
    list_instances = do es ← read_dir (filepath_join root "instances"); read_instances es []

    unfoldable pub save_plan : Plan → Act W (Unit {0})
    unfolding path_of atomic_json
    save_plan v = atomic_json plan_json (path_of "plans" v.id) v

    unfoldable pub get_plan : String → Act W Plan
    unfolding path_of read_json state_safe_id
    get_plan id =
        if not (state_safe_id id)
        then raise (invalid_stored_id "plan")
        else read_json plan_json (path_of "plans" id)

    unfoldable pub delete_plan : String → Act W (Unit {0})
    unfolding path_of state_safe_id
    delete_plan id =
        if not (state_safe_id id)
        then raise (invalid_stored_id "plan")
        else attempt (remove_file (path_of "plans" id))
            (λ c. if is_not_exist c then pure tt else raise c) pure
