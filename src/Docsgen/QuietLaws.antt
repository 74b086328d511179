-- ===== src/Docsgen/QuietLaws.antt =====
-- internal/docsgen/docs.go: what writing the documents leaves alone.
use home_server_deployer.Prelude.{String, ◌<>◌, refl}
use home_server_deployer.Model.{Time, Instance, Catalog}
use home_server_deployer.Act.{lift}
use home_server_deployer.Act.Rules.{Quiet, Quiet-bind}
use home_server_deployer.Paths.Filepath.{dir, filepath_join}
use home_server_deployer.State.{Disk, Json, or_close}
use home_server_deployer.State.QuietLaws.{QuietDisk, Quiet-or_close, Quiet-then_remove}
use home_server_deployer.Docsgen.{fill_document, write_document, write_documents}

module _ {W V : Type 0} (disk : Disk W) (view : W → V) (quiet : QuietDisk disk view) where
  open disk use {mkdir_all, create_temp, write, sync, close}
  open quiet use {quiet_mkdir, quiet_create, quiet_write, quiet_sync, quiet_close, quiet_rename}

  Quiet-fill_document : (name p text : String) → Quiet view (fill_document disk name p text)
  unfolding fill_document
  Quiet-fill_document name p text =
      Quiet-bind view (or_close disk name (write name text)) _
        (Quiet-or_close disk view quiet name _ (quiet_write name text))
        λ _.
          Quiet-bind view (or_close disk name (sync name)) _
            (Quiet-or_close disk view quiet name _ (quiet_sync name))
            λ _. Quiet-bind view (close name) _ (quiet_close name) λ _. quiet_rename name p

  Quiet-write_document : (p text : String) → Quiet view (write_document disk p text)
  unfolding write_document
  Quiet-write_document p text =
      Quiet-bind view (create_temp (dir p) ".doc-") _ (quiet_create (dir p) ".doc-") λ name.
        Quiet-then_remove disk view quiet name (fill_document disk name p text)
          (Quiet-fill_document name p text)

  pub Quiet-write_documents :
      (root : String) (json : Json Instance) (format : Time → String) (v : Instance) (app : Catalog)
      → Quiet view (write_documents disk root json format v app)
  unfolding write_documents
  Quiet-write_documents root json format v app =
      Quiet-bind view (mkdir_all (filepath_join root v.id) 0o750) _ (quiet_mkdir _ 0o750) λ _.
        Quiet-bind view (lift (json.marshal v)) _ (λ _. refl)
          λ manifest.
            Quiet-bind view (write_document disk _ (manifest <> "\n")) _
              (Quiet-write_document _ (manifest <> "\n")) λ _. Quiet-write_document _ _
