-- ===== src/State/QuietLaws.antt =====
-- internal/state/state.go: what the calls of the store leave alone.
use home_server_deployer.Prelude.{ℕ, String, ◌<>◌, ◌≡◌, refl, ◌∙◌, not}
use home_server_deployer.Model.{Instance, Plan}
use home_server_deployer.Error.{is_not_exist}
use home_server_deployer.Act.{Act, pure, raise, lift, attempt}
use home_server_deployer.Act.Rules.{Quiet, Quiet-attempt, Quiet-bind, Quiet-if}
use home_server_deployer.Names.{state_safe_id}
use home_server_deployer.Paths.Filepath.{dir}
use home_server_deployer.State.{
  Disk, Json, or_close, then_remove, fill_and_rename, replace_file, atomic_json, read_json,
  save_instance, get_instance, get_plan, delete_plan,
}

-- The files that the program writes are no part of the view.
pub record QuietDisk {W V : Type 0} (disk : Disk W) (view : W → V) : Type 0 where
  pub quiet_mkdir : (d : String) (mode : ℕ) → Quiet view (disk.mkdir_all d mode)
  pub quiet_create : (d prefix : String) → Quiet view (disk.create_temp d prefix)
  pub quiet_chmod : (n : String) (mode : ℕ) → Quiet view (disk.chmod n mode)
  pub quiet_write : (n text : String) → Quiet view (disk.write n text)
  pub quiet_sync : (n : String) → Quiet view (disk.sync n)
  pub quiet_close : (n : String) → Quiet view (disk.close n)
  pub quiet_rename : (n p : String) → Quiet view (disk.rename n p)
  pub quiet_remove : (n : String) → Quiet view (disk.remove_file n)
  pub quiet_read : (p : String) → Quiet view (disk.read_file p)
  pub quiet_sync_dir : (d : String) (w : W) → view (disk.sync_dir d w) ≡ view w

module _ {W V : Type 0} (disk : Disk W) (view : W → V) (quiet : QuietDisk disk view) where
  open disk use {mkdir_all, create_temp, chmod, write, sync, close, rename, read_file, sync_dir}
  open quiet use {
    quiet_mkdir, quiet_create, quiet_chmod, quiet_write, quiet_sync, quiet_close, quiet_rename,
    quiet_remove, quiet_read, quiet_sync_dir,
  }

  pub Quiet-or_close :
      (name : String) (m : Act W (Unit {0})) → Quiet view m → Quiet view (or_close disk name m)
  Quiet-or_close name m q =
      Quiet-attempt view m (λ c w. (home_server_deployer.Act.err c, (close name w).1)) pure q
        (λ _. quiet_close name) (λ _ _. refl)

  pub Quiet-then_remove :
      (name : String) (m : Act W (Unit {0})) → Quiet view m → Quiet view (then_remove disk name m)
  Quiet-then_remove name m q w = quiet_remove name (m w).1 ∙ q w

  Quiet-fill_and_rename : (name p text : String) → Quiet view (fill_and_rename disk name p text)
  unfolding fill_and_rename
  Quiet-fill_and_rename name p text =
      Quiet-bind view (or_close disk name (chmod name 0o640)) _
        (Quiet-or_close name _ (quiet_chmod name 0o640))
        λ _.
          Quiet-bind view (or_close disk name (write name text)) _
            (Quiet-or_close name _ (quiet_write name text))
            λ _.
              Quiet-bind view (or_close disk name (sync name)) _
                (Quiet-or_close name _ (quiet_sync name))
                λ _. Quiet-bind view (close name) _ (quiet_close name) λ _.
                  Quiet-bind view (rename name p) _ (quiet_rename name p)
                    λ _ w. quiet_sync_dir (dir p) w

  Quiet-replace_file : (p text : String) → Quiet view (replace_file disk p text)
  unfolding replace_file
  Quiet-replace_file p text =
      Quiet-bind view (mkdir_all (dir p) 0o750) _ (quiet_mkdir (dir p) 0o750) λ _.
        Quiet-bind view (create_temp (dir p) ".tmp-") _ (quiet_create (dir p) ".tmp-") λ name.
          Quiet-then_remove name (fill_and_rename disk name p text)
            (Quiet-fill_and_rename name p text)

  module _ {A : Type 0} (json : Json A) where
    Quiet-atomic_json : (p : String) (v : A) → Quiet view (atomic_json disk json p v)
    unfolding atomic_json
    Quiet-atomic_json p v =
        Quiet-bind view (lift (json.marshal v)) _ (λ _. refl) λ b. Quiet-replace_file p (b <> "\n")

    Quiet-read_json : (p : String) → Quiet view (read_json disk json p)
    unfolding read_json
    Quiet-read_json p = Quiet-bind view (read_file p) _ (quiet_read p) λ b.
        Quiet-attempt view (lift (json.unmarshal b)) _ _ (λ _. refl) (λ _ _. refl) (λ _ _. refl)

  module _ (root : String) (instance_json : Json Instance) (plan_json : Json Plan) where
    pub Quiet-save_instance :
        (v : Instance) → Quiet view (save_instance disk root instance_json plan_json v)
    unfolding save_instance
    Quiet-save_instance v = Quiet-atomic_json instance_json _ v

    pub Quiet-get_instance :
        (id : String) → Quiet view (get_instance disk root instance_json plan_json id)
    unfolding get_instance
    Quiet-get_instance id =
        Quiet-if view (not (state_safe_id id)) _ _ (λ _. refl) (Quiet-read_json instance_json _)

    pub Quiet-get_plan : (id : String) → Quiet view (get_plan disk root instance_json plan_json id)
    unfolding get_plan
    Quiet-get_plan id =
        Quiet-if view (not (state_safe_id id)) _ _ (λ _. refl) (Quiet-read_json plan_json _)

    pub Quiet-delete_plan :
        (id : String) → Quiet view (delete_plan disk root instance_json plan_json id)
    unfolding delete_plan
    Quiet-delete_plan id =
        Quiet-if view (not (state_safe_id id)) _ _ (λ _. refl)
          (Quiet-attempt view (disk.remove_file _) _ _ (quiet_remove _)
            (λ c. Quiet-if view (is_not_exist c) _ _ (λ _. refl) (λ _. refl)) (λ _ _. refl))
