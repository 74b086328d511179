-- ===== src/Docsgen/Laws.antt =====
-- internal/docsgen/docs.go with internal/state/state.go: where a document that is read can lie.
use home_server_deployer.Prelude.{
  String, ◌<>◌, ◌≡◌, refl, subst, ap, ◌∙◌, ◌⊎◌, inl, inr, true, false, none, [], ◌∷◌, ◌++◌, str_eq,
  eq_iff, arith, Bool-cases,
}
use home_server_deployer.Error.{unsupported_document}
use home_server_deployer.Act.{err}
use home_server_deployer.Text.{split, contains_any}
use home_server_deployer.Text.SplitLaws.{split-append, split-eq-singleton}
use home_server_deployer.Paths.{unsafe_part}
use home_server_deployer.Paths.Filepath.{slash, is_abs, filepath_join, join_parts}
use home_server_deployer.Paths.ContainmentLaws.{names_of, filepath_join-names}
use home_server_deployer.Names.{all_id_chars, is_id_char, is_alnum, state_safe_id}
use home_server_deployer.Model.{Time, Instance}
use home_server_deployer.State.{Disk, Json}
use home_server_deployer.Docsgen.{read_path, read_document}

id_chars-plain :
    (s : String)
    → all_id_chars s ≡ true
    → (contains_any s (slash ∷ []) ≡ false) × (contains_any s (0 ∷ []) ≡ false)
unfolding all_id_chars contains_any is_id_char is_alnum
id_chars-plain String.[] h = (refl, refl)
id_chars-plain (String.◌∷◌ c s) h =
    (ground (arith, id_chars-plain s), ground (arith, id_chars-plain s))

dots_unsafe : (all_id_chars "." ≡ false) × (all_id_chars ".." ≡ false)
unfolding all_id_chars
dots_unsafe = (refl, refl)

safe_chars :
    (id : String) → state_safe_id id ≡ true → (all_id_chars id ≡ true) × (str_eq id "" ≡ false)
unfolding state_safe_id
safe_chars id h = (ground arith, ground arith)

abbrev pub IsDocument : String → Type 0
IsDocument name = (name ≡ "README.md") ⊎ (name ≡ "manifest.json")

not_dots :
    (id : String) → all_id_chars id ≡ true → (str_eq id "." ≡ false) × (str_eq id ".." ≡ false)
not_dots id h = (not_text "." dots_unsafe.0, not_text ".." dots_unsafe.1)
  where
    not_text : (t : String) → all_id_chars t ≡ false → str_eq id t ≡ false
    not_text t k = elim (Bool-cases (str_eq id t)) [
      | inl same ↦ ground (arith, subst (λ u. all_id_chars u ≡ true) ((eq_iff id t).0 same) h, k)
      | inr other ↦ other
    ]

document_plain :
    (name : String)
    → IsDocument name
    → (split slash name ≡ name ∷ []) × (unsafe_part (name ∷ []) ≡ none)
unfolding split unsafe_part
document_plain name (inl readme) = rw readme (refl, refl)
document_plain name (inr manifest) = rw manifest (refl, refl)

document_parts :
    (id name : String)
    → state_safe_id id ≡ true
    → IsDocument name
    → (split slash (id <> ("/" <> name)) ≡ id ∷ name ∷ []) × (unsafe_part (id ∷ name ∷ []) ≡ none)
unfolding unsafe_part
document_parts id name h k =
    let (chars, nonempty) = safe_chars id h in
    let (no_slash, no_nul) = id_chars-plain id chars in
    (
      rw (split-append id name, split-eq-singleton slash id no_slash, (document_plain name k).0)
          refl,
      rw (nonempty, (not_dots id chars).0, (not_dots id chars).1, no_nul) (document_plain name k).1,
    )

-- With an absolute root and an instance ID that the state store takes, reading a document either
-- returns an error without reading a file, or the name is README.md or manifest.json and the file
-- that is read has the names of the cleaned root, the ID and that name as its path.
pub read_document-contained :
    {W : Type 0} (disk : Disk W) (root : String) (json : Json Instance) (format : Time → String)
    (id name : String) (w : W)
    → is_abs root ≡ true
    → state_safe_id id ≡ true
    → (read_document disk root json format id name w ≡ (err unsupported_document, w))
      ⊎ (IsDocument name
          × (read_document disk root json format id name w
              ≡ disk.read_file ("/" <> join_parts (names_of root ++ id ∷ name ∷ [])) w))
unfolding read_document read_path
read_document-contained disk root json format id name w h k =
    elim (Bool-cases (str_eq name "README.md")) [
      | inl readme ↦ inr (
        inl ((eq_iff name "README.md").0 readme),
        rw readme (found (inl ((eq_iff name "README.md").0 readme))),
      )
      | inr other ↦ elim (Bool-cases (str_eq name "manifest.json")) [
        | inl manifest ↦ inr (
          inr ((eq_iff name "manifest.json").0 manifest),
          rw (other, manifest) (found (inr ((eq_iff name "manifest.json").0 manifest))),
        )
        | inr neither ↦ inl (rw (other, neither) refl)
      ]
    ]
  where
    found :
        IsDocument name
        → disk.read_file (filepath_join root (id <> ("/" <> name))) w
          ≡ disk.read_file ("/" <> join_parts (names_of root ++ id ∷ name ∷ [])) w
    found d =
        let parts = document_parts id name k d in
        let no_unsafe : unsafe_part (split slash (id <> ("/" <> name))) ≡ none =
          rw (parts.0) (parts.1) in
        ap (λ p. disk.read_file p w) (filepath_join-names root (id <> ("/" <> name)) h no_unsafe)
        ∙ ap (λ ps. disk.read_file ("/" <> join_parts (names_of root ++ ps)) w) (parts.0)
