-- ===== src/Tests/Files.antt =====
-- Saving on a disk in memory, whose writes may fail.
use home_server_deployer.Prelude.{
  List, ◌∷◌, true, String, ◌≡◌, refl, Bool, false, Option, none, some, str_eq, eq_refl, Bool-cases,
  inl, inr, ◌<>◌, arith, [], if◌then◌else◌,
}
use home_server_deployer.Error.{external, not_exist}
use home_server_deployer.Act.{ok-injective, Result, ok, err, attempt}
use home_server_deployer.Text.{split, has_suffix}
use home_server_deployer.State.{Disk, Json, atomic_json, read_json, stored_json}
use home_server_deployer.State.AtomicLaws.{
  IsFileSystem, Replaced, atomic_json-Replaced, atomic_json-read_json,
}

pub record Files : Type 0 where
  pub json : String → Option String
  pub temporary : String → Option String
  pub full : Bool

abbrev put : String → Option String → (String → Option String) → String → Option String
put p x f q = if str_eq p q then x else f q

abbrev read_at : Option String → Result String
read_at none = err (not_exist "file")
read_at (some s) = ok s

abbrev pub disk_in_memory : Disk Files
disk_in_memory = record {
  mkdir_all = λ d mode w. (ok tt, w);
  create_temp =
      λ d prefix w. (ok ".tmp-1", record w { temporary = put ".tmp-1" (some "") w.temporary });
  chmod = λ n mode w. (ok tt, w);
  write = λ n text w.
      if w.full
      then (err (external "no space"), w)
      else (ok tt, record w { temporary = put n (some text) w.temporary });
  sync = λ n w. (ok tt, w);
  close = λ n w. (ok tt, w);
  rename = λ n p w. (ok tt, record w { json = put p (w.temporary n) w.json });
  remove_file = λ n w. (ok tt, record w { temporary = put n none w.temporary });
  read_file = λ p w. (read_at (w.json p), w);
  read_dir = λ d w. (ok [], w);
  sync_dir = λ d w. w;
}

abbrev json_of : Files → String → Option String
json_of w = w.json

abbrev temporary_of : Files → String → Option String
temporary_of w = w.temporary

disk-IsFileSystem : IsFileSystem disk_in_memory json_of temporary_of
unfolding has_suffix
disk-IsFileSystem = record {
  quiet_mkdir = λ d m w. refl;
  quiet_create = λ d w. refl;
  quiet_chmod = λ n m w. refl;
  quiet_sync = λ n w. refl;
  quiet_close = λ n w. refl;
  quiet_sync_dir = λ d w. refl;
  create_ok = λ d n w h. rw (← ok-injective h) (refl, refl);
  kept_by_chmod = λ n m w. refl;
  kept_by_sync = λ n w. refl;
  kept_by_close = λ n w. refl;
  quiet_write = λ n text t w. ground arith;
  write_ok = λ n text w e h. elim (Bool-cases w.full) [
    | inl full ↦ ground (arith, full, h)
    | inr room ↦ rw (room, eq_refl n) refl
  ];
  quiet_remove = λ n t w. refl;
  rename_err = λ n p w c h. cc;
  rename_ok = λ n p w t h. (rw (eq_refl p) refl, (λ q other. rw (other) refl));
  read_ok = λ p text w n h. rw (h) refl;
}

abbrev text_json : Json String
text_json = record { marshal = λ s. ok s; unmarshal = λ s. ok s }

abbrev pub disk : Bool → Files
disk full = record { json = λ _. some "old"; temporary = λ _. none; full = full }

atomic_json-Replaced_example :
    Replaced disk_in_memory json_of temporary_of disk-IsFileSystem "p.json"
      ("new" <> "\n")
      (disk false)
      (atomic_json disk_in_memory text_json "p.json" "new" (disk false))
atomic_json-Replaced_example =
    atomic_json-Replaced disk_in_memory json_of temporary_of disk-IsFileSystem text_json "p.json"
      "new" (disk false) "new" encoded
  where
    encoded : text_json.marshal "new" ≡ ok "new"
    encoded = refl

abbrev first_of : List String → String
first_of [] = ""
first_of (s ∷ _) = s

-- A text as one line, and back.
abbrev line_json : Json String
line_json = record { marshal = λ s. ok s; unmarshal = λ s. ok (first_of (split b'\n' s)) }

saved_line : (atomic_json disk_in_memory line_json "p.json" "new" (disk false)).0 ≡ ok tt
unfolding atomic_json attempt
saved_line = refl

decoded : line_json.unmarshal ("new" <> "\n") ≡ ok "new"
unfolding split
decoded = refl

named : stored_json "p.json" ≡ true
unfolding has_suffix
named = refl

atomic_json-read_json_example :
    (read_json disk_in_memory line_json "p.json"
      (atomic_json disk_in_memory line_json "p.json" "new" (disk false)).1).0
    ≡ ok "new"
atomic_json-read_json_example =
    atomic_json-read_json disk_in_memory json_of temporary_of disk-IsFileSystem line_json "p.json"
      "new" (disk false) "new" named refl decoded saved_line
