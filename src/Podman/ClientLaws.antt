-- ===== src/Podman/ClientLaws.antt =====
-- internal/podman/podman.go: the client as the host that the engine's transactions rely on.
use home_server_deployer.Prelude.{
  ◌==◌, ◌<◌, ◌⊎◌, ◌*◌, ◌^◌, String, ◌≡◌, refl, sym, subst, ◌∙◌, ap, Bool, true, false, Option, none,
  some, [], ◌∷◌,
}
use home_server_deployer.Text.Utf8.{byte_len}
use home_server_deployer.Error.{Error}
use home_server_deployer.Act.{Result, ok, err, lift, ok-injective}
use home_server_deployer.Act.Rules.{Quiet, Quiet-attempt, bind_rule}
use home_server_deployer.Engine.Sources.{Sources, WritesSources, assign}
use home_server_deployer.Podman.Http.{Response, Http}
use home_server_deployer.Podman.Client.{
  Client, url_of, libpod_path, send_request, request_ok, ensure_version, require_name, whole_read,
  removal_query, file_path, removal_path, list_quadlets, get_quadlet, install_quadlet,
  remove_quadlet,
}
use home_server_deployer.Podman.Containers.{answered, is_answered, client_backend}
use home_server_deployer.Podman.RestLaws.{
  ServesQuadlets, create_request, request_ok_rule, Quiet-request_ok, Quiet-ensure_version,
  Quiet-require_name, Unanswered, Ends, Ends-ok, Ends-err, Ends-after, Ends-named, Ends-request,
}

module _ {W : Type 0} (http : Http W) (base : String) (source : W → Sources)
    (serves : ServesQuadlets http base source) where
  abbrev host_source : Client × W → Sources
  host_source s = source s.1

  abbrev Installed : String → String → Sources → Sources → Type 0
  Installed name content before after =
      (before name ≡ none) × (after ≡ assign name (some content) before)

  install_quadlet-Ends :
      (name content : String) (s : Client × W)
      → Ends http base source serves
          (source s.1)
          (Installed name content (source s.1))
          (install_quadlet http base name content s)
  unfolding install_quadlet send_request libpod_path
  install_quadlet-Ends name content s =
      Ends-named http base source serves before Done name _
        (λ u h.
          Ends-after http base source serves before Done (lift (http.tar_file name 0o644 content)) _
            (λ _. refl) u
            (λ archive made v k.
              Ends-request http base source serves before Done "POST"
                (λ c. libpod_path c "/libpod/quadlets") (("reload-systemd", "false") ∷ []) archive
                "application/x-tar" v
                (λ sent.
                  subst
                    (λ b.
                      Installed name content b
                        (source (http.send (create_request base v.0.libpod_api archive) v.1).1))
                    k (serves.created v.0.libpod_api name content archive v.1 made sent))
                (λ resp sent refused.
                  serves.not_created v.0.libpod_api archive v.1 resp sent refused ∙ k))
            h)
        s refl
    where
      before : Sources
      before = source s.1

      Done : Sources → Type 0
      Done = Installed name content (source s.1)

  abbrev Removed : String → Sources → Sources → Type 0
  Removed name before after = after ≡ assign name none before

  abbrev sent_removal : String → Bool → Client × W → Result Response × (Client × W)
  sent_removal name force =
      send_request http base "DELETE" (removal_path name) (removal_query force) "" ""

  removal_done :
      (name : String) (force : Bool) (u : Client × W)
      → is_answered (answered (sent_removal name force u).0) ≡ true
      → Removed name (source u.1) (source (sent_removal name force u).1.1)
  unfolding send_request removal_path
  removal_done name true u = serves.deleted u.0.libpod_api name true u.1
  removal_done name false u = serves.deleted u.0.libpod_api name false u.1

  removal_refused :
      (name : String) (force : Bool) (u : Client × W) (resp : Response)
      → (sent_removal name force u).0 ≡ ok resp
      → (resp.status_code == 200) ≡ false
      → source (sent_removal name force u).1.1 ≡ source u.1
  unfolding send_request removal_path
  removal_refused name true u = serves.not_deleted u.0.libpod_api name true u.1
  removal_refused name false u = serves.not_deleted u.0.libpod_api name false u.1

  remove_quadlet-Ends :
      (name : String) (force : Bool) (s : Client × W)
      → Ends http base source serves
          (source s.1)
          (Removed name (source s.1))
          (remove_quadlet http base name force s)
  unfolding remove_quadlet
  remove_quadlet-Ends name force s =
      Ends-named http base source serves before Done name _
        (λ u h.
          Ends-request http base source serves before Done "DELETE" (removal_path name)
            (removal_query force) "" "" u
            (λ sent. removal_done name force u sent ∙ ap (assign name none) h)
            (λ resp sent refused. removal_refused name force u resp sent refused ∙ h))
        s refl
    where
      before : Sources
      before = source s.1

      Done : Sources → Type 0
      Done = Removed name (source s.1)

  Quiet-list_quadlets : Quiet host_source (list_quadlets http base)
  unfolding list_quadlets
  Quiet-list_quadlets =
      Quiet-attempt host_source _ _ _ (Quiet-ensure_version http base source serves) (λ _ _. refl)
        λ _.
          Quiet-attempt host_source _ _ _
            (Quiet-request_ok http base source serves (λ c. libpod_path c "/libpod/quadlets/json")
              [])
            (λ _ _. refl) (λ _ _. refl)

  Quiet-get_quadlet : (name : String) → Quiet host_source (get_quadlet http base name)
  unfolding get_quadlet
  Quiet-get_quadlet name =
      Quiet-attempt host_source _ _ _ (Quiet-require_name http base source serves name)
        (λ _ _. refl)
        λ _.
          Quiet-attempt host_source _ _ _ (Quiet-ensure_version http base source serves)
            (λ _ _. refl)
            λ _.
              Quiet-attempt host_source _ _ _
                (Quiet-request_ok http base source serves (file_path name) []) (λ _ _. refl)
                (λ _ _. refl)

  whole_read-file :
      (name body text : String) (w : W)
      → source w name ≡ some body
      → whole_read (http.read_limited (2 * 2 ^ 20) body) ≡ ok text
      → byte_len text < 2 * 2 ^ 20
      → source w name ≡ some text
  whole_read-file name body text w h p short = go (http.read_limited (2 * 2 ^ 20) body) refl p
    where
      go :
          (r : String × Option Error)
          → http.read_limited (2 * 2 ^ 20) body ≡ r
          → whole_read r ≡ ok text
          → source w name ≡ some text
      go (t, none) q k =
          h
          ∙ ap some (
              sym (
                serves.read_whole (2 * 2 ^ 20) body text (q ∙ ap (λ x. (x, none)) (ok-injective k))
                  short))
      go (t, some c) q k = cc

  file-answer :
      (name : String) (s : Client × W) (resp : Response)
      → (request_ok http base "GET" (file_path name) [] "" "" s).0 ≡ ok resp
      → source s.1 name ≡ some resp.body
  unfolding send_request file_path url_of
  file-answer name s =
      request_ok_rule http base Q "GET" (file_path name) [] "" "" s
        (λ resp sent _ status other h.
          serves.file s.0.libpod_api name s.1 resp sent status
          ∙ ap (λ (r : Response). some r.body) (ok-injective h))
        (λ c _ other h. cc) (λ resp _ _ other h. cc)
    where
      Q : Result Response × (Client × W) → Type 0
      Q r = (resp : Response) → r.0 ≡ ok resp → source s.1 name ≡ some resp.body

  get_quadlet-source :
      (name : String) (s : Client × W) (text : String)
      → (get_quadlet http base name s).0 ≡ ok text
      → byte_len text < 2 * 2 ^ 20
      → source s.1 name ≡ some text
  unfolding get_quadlet
  get_quadlet-source name s = bind_rule P (require_name http base name) _ s λ _ _.
      bind_rule P (ensure_version http base) _ _ λ _ _.
        bind_rule P (request_ok http base "GET" (file_path name) [] "" "") _ _
          λ resp p text h short.
            whole_read-file name resp.body text s.1
              (ap (λ (f : Sources). f name) (sym quiet) ∙ file-answer name _ resp p) h short
    where
      P : String → Client × W → Type 0
      P text _ = byte_len text < 2 * 2 ^ 20 → source s.1 name ≡ some text

      quiet :
          host_source (ensure_version http base (require_name http base name s).1).1 ≡ host_source s
      quiet =
          Quiet-ensure_version http base source serves (require_name http base name s).1
          ∙ Quiet-require_name http base source serves name s

  -- An error leaves the sources alone, unless it is that of a request without an answer.
  abbrev pub Spares : (m : Client × W → Result (Unit {0}) × (Client × W)) → Type 0
  Spares m =
      (s : Client × W) (c : Error)
      → (m s).0 ≡ err c
      → (host_source (m s).1 ≡ host_source s) ⊎ Unanswered http base source serves c

  -- What is known of the client on such a host.
  pub record IsFaithful : Type 0 where
    pub writes : WritesSources (client_backend http base) host_source
    pub install_spares : (name content : String) → Spares (install_quadlet http base name content)
    pub remove_spares :
        (name : String) (force : Bool) → Spares (remove_quadlet http base name force)
    pub reads_whole :
        (name : String) (s : Client × W) (text : String)
        → (get_quadlet http base name s).0 ≡ ok text
        → byte_len text < 2 * 2 ^ 20
        → host_source s name ≡ some text

  pub client_backend-WritesSources : WritesSources (client_backend http base) host_source
  unfolding client_backend
  client_backend-WritesSources = record {
    install_ok = λ name content s.
        Ends-ok http base source serves (source s.1) (Installed name content (source s.1))
          (install_quadlet http base name content s) (install_quadlet-Ends name content s);
    remove_ok = λ name force s.
        Ends-ok http base source serves (source s.1) (Removed name (source s.1))
          (remove_quadlet http base name force s) (remove_quadlet-Ends name force s);
    quiet_get = Quiet-get_quadlet;
    quiet_list = Quiet-list_quadlets;
  }

  -- On a host whose Podman keeps to the documented behaviour of its REST API on Quadlet sources:
  -- an install or a removal by the REST client that returns without an error has written or
  -- removed exactly its file, and an install has found none of that name; one that returns an
  -- error has changed no source, unless the error is that of a request which got no answer; a
  -- source that is read and is shorter than 2 MiB is the whole file; and reading and listing
  -- change nothing.
  pub client_backend-IsFaithful : IsFaithful
  client_backend-IsFaithful = record {
    writes = client_backend-WritesSources;
    install_spares = λ name content s c.
        Ends-err http base source serves (source s.1) (Installed name content (source s.1))
          (install_quadlet http base name content s) c (install_quadlet-Ends name content s);
    remove_spares = λ name force s c.
        Ends-err http base source serves (source s.1) (Removed name (source s.1))
          (remove_quadlet http base name force s) c (remove_quadlet-Ends name force s);
    reads_whole = get_quadlet-source;
  }
