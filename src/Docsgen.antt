-- ===== src/Docsgen.antt =====
-- internal/docsgen/docs.go: the documents of an instance.
pub mod Laws
pub mod QuietLaws
use home_server_deployer.Prelude.{
  String, ◌<>◌, Bool, true, false, not, ◌&&◌, Option, none, some, List, [], ◌∷◌, str_eq,
  if◌then◌else◌,
}
use home_server_deployer.Prelude.Dict.{Dict}
use home_server_deployer.Model.{Time, Instance, Catalog, ResourceState, ResolvedDirectory}
use home_server_deployer.Error.{unsupported_document}
use home_server_deployer.Act.{Result, ok, err, Act, lift, ◌>>=◌, ◌>>◌}
use home_server_deployer.Text.{has_suffix}
use home_server_deployer.Paths.Filepath.{filepath_join, dir}
use home_server_deployer.Services.{Generator}
use home_server_deployer.Engine.Support.{sorted_resource_names}
use home_server_deployer.Engine.PlanParts.{resource_or_zero}
use home_server_deployer.State.{Disk, Json, or_close, then_remove}

-- "- Label: `value`" as a line
abbrev pub labelled : String → String → String
labelled label value = "- " <> (label <> (": `" <> (value <> "`\n")))

unfoldable pub source_block : String → String
unfolding has_suffix
source_block source =
    if str_eq source ""
    then ""
    else "\n```ini\n" <> (source <> ((if has_suffix source "\n" then "" else "\n") <> "```\n"))

unfoldable pub resource_text : ResourceState → String
unfolding source_block
resource_text r =
    "- `"
    <> (r.name
        <> ("` -> `"
            <> (r.unit_name <> ("`, SHA-256 `" <> (r.sha256 <> ("`\n" <> source_block r.source))))))

unfoldable pub resource_texts : Dict ResourceState → List String → String
unfolding resource_or_zero resource_text
resource_texts m [] = ""
resource_texts m (n ∷ ns) = resource_text (resource_or_zero m n) <> resource_texts m ns

unfoldable pub directory_texts : List ResolvedDirectory → String
directory_texts [] = ""
directory_texts (d ∷ ds) =
    "- "
    <> (d.name
        <> (": `"
            <> (d.host_path
                <> ("` -> `"
                    <> (d.container_path
                        <> ("`, intent `"
                            <> (d.security_intent
                                <> ("`, mount options `"
                                    <> (d.mount_suffix <> ("`\n" <> directory_texts ds))))))))))

-- "`, `" between the entries
unfoldable pub joined : List String → String
joined [] = ""
joined (s ∷ []) = s
joined (s ∷ t ∷ ts) = s <> ("`, `" <> joined (t ∷ ts))

abbrev pub removed_text : (Time → String) → Option Time → String
removed_text format none = ""
removed_text format (some t) = labelled "Removed" (format t)

-- " (word `value`)" unless the value is empty
abbrev pub in_brackets : String → String → String
in_brackets word value = if str_eq value "" then "" else " (" <> (word <> ("`" <> (value <> "`)")))

abbrev pub includes_text : List String → String
includes_text [] = ""
includes_text (s ∷ ss) = labelled "Includes" (joined (s ∷ ss))

-- The contents of README.md. `format` is the format of a time.
unfoldable pub readme : (Time → String) → Instance → Catalog → String
unfolding resource_texts sorted_resource_names directory_texts joined
readme format in' app =
    "# "
    <> (app.metadata.name
        <> ("\n\n"
            <> (labelled "Instance" in'.id
                <> (labelled "Catalog ID" in'.catalog_id
                    <> (labelled "Catalog version" in'.catalog_version
                        <> (labelled "Installed" (format in'.installed_at)
                            <> (removed_text format in'.removed_at
                                <> ("\n## Quadlet resources\n\n"
                                    <> (resource_texts in'.resources
                                          (sorted_resource_names in'.resources)
                                        <> ("\n## Storage\n\n"
                                            <> (directory_texts in'.directories
                                                <> ("\n## Update and health\n\n- Update policy: `"
                                                    <> (app.spec.update.mode
                                                        <> ("`"
                                                            <> (in_brackets ""
                                                            app.spec.update.channel
                                                            <> ("\n- Health strategy: `"
                                                            <> (app.spec.health.strategy
                                                            <> ("`"
                                                            <> (in_brackets "primary "
                                                            app.spec.health.primary_resource
                                                            <> ("\n\n## Backup contract\n\n"
                                                            <> (labelled "Strategy"
                                                            app.spec.backup.strategy
                                                            <> (labelled "Consistency"
                                                            app.spec.backup.consistency
                                                            <> (labelled "Provider"
                                                            app.spec.backup.provider
                                                            <> (includes_text
                                                            app.spec.backup.includes
                                                            <> "\n> Native Quadlet files remain the source of truth. This document is recovery metadata generated from the last successfully observed installed state.\n"))))))))))))))))))))))))

module _ {W : Type 0} (disk : Disk W) where
  open disk use {mkdir_all, create_temp, write, sync, close, rename, read_file}

  -- What `atomic` does with its temporary file.
  unfoldable pub fill_document : String → String → String → Act W (Unit {0})
  fill_document name p text = do
    or_close disk name (write name text)
    or_close disk name (sync name)
    close name
    rename name p

  unfoldable pub write_document : String → String → Act W (Unit {0})
  unfolding dir fill_document
  write_document p text = do
    name ← create_temp (dir p) ".doc-"
    then_remove disk name (fill_document name p text)

  module _ (root : String) (json : Json Instance) (format : Time → String) where
    unfoldable pub document_path : String → String → String
    unfolding filepath_join
    document_path id name = filepath_join (filepath_join root id) name

    -- `Write`
    unfoldable pub write_documents : Instance → Catalog → Act W (Unit {0})
    unfolding document_path filepath_join write_document readme
    write_documents in' app = do
      mkdir_all (filepath_join root in'.id) 0o750
      manifest ← lift (json.marshal in')
      write_document (document_path in'.id "manifest.json") (manifest <> "\n")
      write_document (document_path in'.id "README.md") (readme format in' app)

    -- `filepath.Join(g.root, instanceID, name)`
    unfoldable pub read_path : String → String → String
    unfolding filepath_join
    read_path id name = filepath_join root (id <> ("/" <> name))

    -- `Read`
    unfoldable pub read_document : String → String → Act W String
    unfolding read_path
    read_document id name w =
        if not (str_eq name "README.md") && not (str_eq name "manifest.json")
        then (err unsupported_document, w)
        else read_file (read_path id name) w

    -- `*Generator` as the engine calls it
    unfoldable pub generator : Generator W
    unfolding write_documents read_document
    generator = record { write_docs = write_documents; read_docs = read_document }
