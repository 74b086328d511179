-- ===== src/State/AtomicLaws.antt =====
-- `atomicJSON` replaces a file as a whole or not at all.
use home_server_deployer.Prelude.{
  true, ℕ, String, ◌≡◌, refl, sym, ap, subst, ◌∙◌, ◌⊎◌, inl, inr, false, Option, some, str_eq, ◌<>◌,
}
use home_server_deployer.Error.{Error}
use home_server_deployer.Act.{
  Result, ok, err, Act, ok-injective, lift, pure, raise, branch, attempt, ◌>>◌,
}
use home_server_deployer.Act.Rules.{Quiet, attempt_rule}
use home_server_deployer.Paths.Filepath.{dir}
use home_server_deployer.State.{
  Disk, Json, stored_json, or_close, then_remove, fill_and_rename, replace_file, atomic_json,
  read_json,
}

-- What the code relies on in package os. `stored` is the contents of the files whose names end in
-- ".json", `pending` those of the temporary files.
pub record IsFileSystem {W : Type 0} (disk : Disk W) (stored pending : W → String → Option String)
    : Type 0 where
  pub quiet_mkdir : (d : String) (mode : ℕ) → Quiet stored (disk.mkdir_all d mode)
  pub quiet_create : (d : String) → Quiet stored (disk.create_temp d ".tmp-")
  pub quiet_chmod : (n : String) (mode : ℕ) → Quiet stored (disk.chmod n mode)
  pub quiet_sync : (n : String) → Quiet stored (disk.sync n)
  pub quiet_close : (n : String) → Quiet stored (disk.close n)
  pub quiet_sync_dir : (d : String) (w : W) → stored (disk.sync_dir d w) ≡ stored w
  -- the name of a temporary file ends in a random number, and the file is new and empty
  pub create_ok :
      (d n : String) (w : W)
      → (disk.create_temp d ".tmp-" w).0 ≡ ok n
      → (stored_json n ≡ false) × (pending (disk.create_temp d ".tmp-" w).1 n ≡ some "")
  pub kept_by_chmod : (n : String) (mode : ℕ) → Quiet pending (disk.chmod n mode)
  pub kept_by_sync : (n : String) → Quiet pending (disk.sync n)
  pub kept_by_close : (n : String) → Quiet pending (disk.close n)
  pub quiet_write : (n text : String) → stored_json n ≡ false → Quiet stored (disk.write n text)
  pub write_ok :
      (n text : String) (w : W)
      → pending w n ≡ some ""
      → (disk.write n text w).0 ≡ ok tt
      → pending (disk.write n text w).1 n ≡ some text
  pub quiet_remove : (n : String) → stored_json n ≡ false → Quiet stored (disk.remove_file n)
  pub rename_err :
      (n p : String) (w : W) (c : Error)
      → (disk.rename n p w).0 ≡ err c
      → stored (disk.rename n p w).1 ≡ stored w
  pub rename_ok :
      (n p : String) (w : W)
      → stored_json n ≡ false
      → (disk.rename n p w).0 ≡ ok tt
      → (stored (disk.rename n p w).1 p ≡ pending w n)
        × ((q : String) → str_eq p q ≡ false → stored (disk.rename n p w).1 q ≡ stored w q)
  pub read_ok :
      (p text : String) (w : W)
      → stored_json p ≡ true
      → stored w p ≡ some text
      → (disk.read_file p w).0 ≡ ok text

module _ {W : Type 0} (disk : Disk W) (stored pending : W → String → Option String)
    (lawful : IsFileSystem disk stored pending) where
  open disk use {mkdir_all, create_temp, chmod, write, sync, close, rename, sync_dir}

  -- The file at `p` is the text and every other is as before, or there is an error and nothing
  -- has changed.
  abbrev pub Replaced : String → String → W → Result (Unit {0}) × W → Type 0
  Replaced p text w r =
      ((r.0 ≡ ok tt)
        × (stored r.1 p ≡ some text)
        × ((q : String) → str_eq p q ≡ false → stored r.1 q ≡ stored w q))
      ⊎ (((c : Error) × (r.0 ≡ err c)) × (stored r.1 ≡ stored w))

  module _ (name p text : String) (w : W) (temporary : stored_json name ≡ false) where
    abbrev Q : Result (Unit {0}) × W → Type 0
    Q = Replaced p text w

    -- A step that closes the file where it fails.
    or_close_rule :
        (m : Act W (Unit {0})) (next : Act W (Unit {0})) (v : W)
        → Quiet stored m
        → stored v ≡ stored w
        → ((m v).0 ≡ ok tt → Q (next (m v).1))
        → Q ((or_close disk name m >> next) v)
    unfolding attempt
    or_close_rule m next v quiet same good = go (m v).0 refl
      where
        closing : Error → Act W (Unit {0})
        closing c u = (err c, (close name u).1)

        go :
            (r : Result (Unit {0}))
            → (m v).0 ≡ r
            → Q (
                branch raise
                  (λ _. next)
                  (branch closing pure r (m v).1).0
                  (branch closing pure r (m v).1).1)
        go (ok a) h = good h
        go (err c) h = inr ((c, refl), lawful.quiet_close name (m v).1 ∙ (quiet v ∙ same))

    rename_rule :
        (u : W)
        → stored u ≡ stored w
        → pending u name ≡ some text
        → Q ((rename name p >> (λ x. (ok tt, sync_dir (dir p) x))) u)
    rename_rule u same full =
        attempt_rule Q (rename name p) _ _ u
          (λ a renamed.
            let (new, others) = lawful.rename_ok name p u temporary renamed in
            let after : stored (sync_dir (dir p) (rename name p u).1) ≡ stored (rename name p u).1 =
              lawful.quiet_sync_dir (dir p) (rename name p u).1 in
            inl (
              refl,
              ap (λ f. f p) after ∙ (new ∙ full),
              (λ q other. ap (λ f. f q) after ∙ (others q other ∙ ap (λ f. f q) same)),
            ))
          (λ c bad. inr ((c, refl), lawful.rename_err name p u c bad ∙ same))

    fill_and_rename-Replaced :
        (v : W)
        → stored v ≡ stored w
        → pending v name ≡ some ""
        → Q (fill_and_rename disk name p text v)
    unfolding fill_and_rename
    fill_and_rename-Replaced v same empty =
        let v1 : W = (chmod name 0o640 v).1 in
        let v2 : W = (write name text v1).1 in
        let v3 : W = (sync name v2).1 in
        let same1 : stored v1 ≡ stored w = lawful.quiet_chmod name 0o640 v ∙ same in
        let same2 : stored v2 ≡ stored w = lawful.quiet_write name text temporary v1 ∙ same1 in
        let same3 : stored v3 ≡ stored w = lawful.quiet_sync name v2 ∙ same2 in
        let empty1 : pending v1 name ≡ some "" =
          ap (λ f. f name) (lawful.kept_by_chmod name 0o640 v) ∙ empty in
        or_close_rule (chmod name 0o640) _ v (lawful.quiet_chmod name 0o640) same λ _.
          or_close_rule (write name text) _ v1 (lawful.quiet_write name text temporary) same1
            λ written. or_close_rule (sync name) _ v2 (lawful.quiet_sync name) same2 λ _.
              attempt_rule Q (close name) _ _ v3
                (λ _ _. rename_rule (close name v3).1 (lawful.quiet_close name v3 ∙ same3) (
                  ap (λ f. f name) (lawful.kept_by_close name v3)
                  ∙ (ap (λ f. f name) (lawful.kept_by_sync name v2)
                      ∙ lawful.write_ok name text v1 empty1 written)))
                (λ c _. inr ((c, refl), lawful.quiet_close name v3 ∙ same3))

  then_remove-Replaced :
      (name p text : String) (w : W) (m : Act W (Unit {0})) (v : W)
      → stored_json name ≡ false
      → Replaced p text w (m v)
      → Replaced p text w (then_remove disk name m v)
  then_remove-Replaced name p text w m v temporary (inl (good, new, others)) =
      let after = lawful.quiet_remove name temporary (m v).1 in
      inl (good, ap (λ f. f p) after ∙ new, (λ q other. ap (λ f. f q) after ∙ others q other))
  then_remove-Replaced name p text w m v temporary (inr (failed, same)) =
      inr (failed, lawful.quiet_remove name temporary (m v).1 ∙ same)

  replace_file-Replaced : (p text : String) (w : W) → Replaced p text w (replace_file disk p text w)
  unfolding replace_file
  replace_file-Replaced p text w =
      attempt_rule Q (mkdir_all (dir p) 0o750) _ _ w
        (λ _ _.
          attempt_rule Q (create_temp (dir p) ".tmp-") _ _ w1
            (λ name created.
              let (temporary, empty) = lawful.create_ok (dir p) name w1 created in
              then_remove-Replaced name p text w (fill_and_rename disk name p text)
                (create_temp (dir p) ".tmp-" w1).1 temporary
                (fill_and_rename-Replaced name p text w temporary _ same2 empty))
            (λ c _. inr ((c, refl), same2)))
        (λ c _. inr ((c, refl), same1))
    where
      Q : Result (Unit {0}) × W → Type 0
      Q = Replaced p text w

      w1 : W
      w1 = (mkdir_all (dir p) 0o750 w).1

      same1 : stored w1 ≡ stored w
      same1 = lawful.quiet_mkdir (dir p) 0o750 w

      same2 : stored (create_temp (dir p) ".tmp-" w1).1 ≡ stored w
      same2 = lawful.quiet_create (dir p) w1 ∙ same1

  never : {A B : Type 0} (b : B) (c : Error) → ok b ≡ err c → A
  never b c h = cc

  -- On a file system that keeps to its documented behaviour, atomicJSON either returns without an
  -- error, and then its file holds the encoded value with a line end and no other stored file has
  -- changed, or it returns an error, and then no stored file has changed.
  pub atomic_json-Replaced :
      {A : Type 0} (json : Json A) (p : String) (v : A) (w : W) (text : String)
      → json.marshal v ≡ ok text
      → Replaced p (text <> "\n") w (atomic_json disk json p v w)
  unfolding atomic_json
  atomic_json-Replaced json p v w text encoded =
      attempt_rule (Replaced p (text <> "\n") w) (lift (json.marshal v)) _ _ w
        (λ b same.
          subst (λ t. Replaced p (text <> "\n") w (replace_file disk p (t <> "\n") w))
            (ok-injective (sym encoded ∙ same)) (replace_file-Replaced p (text <> "\n") w))
        (λ c bad. never text c (sym encoded ∙ bad))

  read_json_rule :
      {A : Type 0} (json : Json A) (p text : String) (v : A) (w : W)
      → (disk.read_file p w).0 ≡ ok text
      → json.unmarshal text ≡ ok v
      → (read_json disk json p w).0 ≡ ok v
  unfolding read_json attempt
  read_json_rule json p text v w found decoded = rw (found, decoded) refl

  -- On a file system that keeps to its documented behaviour, and with an encoding that decodes to
  -- the value with a line end added, what atomicJSON has saved without an error readJSON gives
  -- back.
  pub atomic_json-read_json :
      {A : Type 0} (json : Json A) (p : String) (v : A) (w : W) (text : String)
      → stored_json p ≡ true
      → json.marshal v ≡ ok text
      → json.unmarshal (text <> "\n") ≡ ok v
      → (atomic_json disk json p v w).0 ≡ ok tt
      → (read_json disk json p (atomic_json disk json p v w).1).0 ≡ ok v
  atomic_json-read_json json p v w text named encoded decoded saved =
      elim (atomic_json-Replaced json p v w text encoded) [
        | inl (_, new, _) ↦
            read_json_rule json p (text <> "\n") v _ (lawful.read_ok p (text <> "\n") _ named new)
              decoded
        | inr ((c, failed), _) ↦ never tt c (sym saved ∙ failed)
      ]
