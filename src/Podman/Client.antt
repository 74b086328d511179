-- ===== src/Podman/Client.antt =====
-- internal/podman/podman.go: `HTTPClient` and its methods. The world of a call is the client and
-- the host.
use home_server_deployer.Prelude.{
  ℕ, ◌*◌, ◌^◌, String, ◌<>◌, Bool, not, ◌||◌, Option, none, some, List, [], ◌∷◌, ltb, ◌==◌, str_eq,
  if◌then◌else◌,
}
use home_server_deployer.Model.{Quadlet}
use home_server_deployer.Error.{
  Error, podman_api, decode_version_failed, no_libpod_version, invalid_quadlet_name,
}
use home_server_deployer.Act.{Result, ok, err, Act, pure, lift, ◌>>=◌, ◌>>◌}
use home_server_deployer.Text.{trim_space}
use home_server_deployer.Text.Escape.{path_escape, encode_values}
use home_server_deployer.Strconv.{itoa}
use home_server_deployer.Names.{valid_name}
use home_server_deployer.Catalog.Parameters.{value_of}
use home_server_deployer.Podman.Http.{Response, Component, VersionResponse, Http}

-- What changes in a `HTTPClient`. Its connection and its base do not, and are parameters here.
pub record Client : Type 0 where
  pub libpod_api : String
  pub engine_version : String

-- What `New` and `NewWithHTTPClient` start with.
abbrev pub new_client : Client
new_client = record { libpod_api = ""; engine_version = "" }

-- The base of `New`.
abbrev pub podman_base : String
podman_base = "http://podman"

unfoldable pub libpod_path : Client → String → String
libpod_path c p = "/v" <> (c.libpod_api <> p)

-- The paths of the requests for one Quadlet or one container.
unfoldable pub file_path : String → Client → String
unfolding libpod_path path_escape
file_path name c = libpod_path c ("/libpod/quadlets/" <> (path_escape name <> "/file"))

unfoldable pub removal_path : String → Client → String
unfolding libpod_path path_escape
removal_path name c = libpod_path c ("/libpod/quadlets/" <> path_escape name)

unfoldable pub inspect_path : String → Client → String
unfolding libpod_path path_escape
inspect_path id c = libpod_path c ("/libpod/containers/" <> (path_escape id <> "/json"))

unfoldable pub logs_path : String → Client → String
unfolding libpod_path path_escape
logs_path id c = libpod_path c ("/libpod/containers/" <> (path_escape id <> "/logs"))

-- The URL of `do`.
unfoldable pub url_of : String → String → List (String × String) → String
unfolding encode_values
url_of base p [] = base <> p
url_of base p (kv ∷ q) = base <> (p <> ("?" <> encode_values (kv ∷ q)))

-- The version of a cached client.
abbrev pub cached_version : Client → VersionResponse
cached_version c = record {
  api_version = c.libpod_api;
  min_api_version = "";
  version = c.engine_version;
  arch = "";
  components = [];
}

-- What the component "Podman Engine" adds.
unfoldable pub with_component : Component → VersionResponse → VersionResponse
unfolding value_of
with_component comp vr =
    let minimum = value_of comp.details "MinAPIVersion" in
    record vr {
      min_api_version = if str_eq minimum "" then vr.min_api_version else minimum;
      version = if str_eq vr.version "" then comp.version else vr.version;
    }

-- The loop over the components: the first one of that name.
unfoldable pub engine_component : List Component → Option Component
engine_component [] = none
engine_component (c ∷ cs) =
    let rest = engine_component cs in if str_eq c.name "Podman Engine" then some c else rest

abbrev pub api_of : Option Component → String
api_of none = ""
api_of (some c) = value_of c.details "APIVersion"

abbrev pub extended : Option Component → VersionResponse → VersionResponse
extended none vr = vr
extended (some c) vr = with_component c vr

-- `fmt.Errorf("decode podman version: %w", err)`
abbrev pub decoded_version : Result VersionResponse → Result VersionResponse
decoded_version (ok vr) = ok vr
decoded_version (err c) = err (decode_version_failed c)

-- `b, err := io.ReadAll(…); return string(b), err`
abbrev pub whole_read : String × Option Error → Result String
whole_read (text, none) = ok text
whole_read (text, some c) = err c

abbrev pub removal_query : Bool → List (String × String)
removal_query force =
    if force
    then ("reload-systemd", "false") ∷ ("ignore", "false") ∷ ("force", "true") ∷ []
    else ("reload-systemd", "false") ∷ ("ignore", "false") ∷ []

-- A number of lines that is none of 1 to 5000 becomes 200. A negative number is not modelled.
unfoldable pub tail_lines : ℕ → ℕ
tail_lines tail = if tail == 0 || ltb 5000 tail then 200 else tail

module _ {W : Type 0} (http : Http W) (base : String) where
  abbrev pub Call : Type 0 → Type 0
  Call A = Act (Client × W) A

  -- `do`
  unfoldable pub send_request :
      String → (Client → String) → List (String × String) → String → String → Call Response
  unfolding url_of
  send_request method path q body content_type (c, w) =
      let (r, w') =
        http.send
          (record {
            method = method;
            url = url_of base (path c) q;
            content_type = content_type;
            body = body;
          })
          w in
      (r, (c, w'))

  unfoldable pub http_error : Response → Error
  unfolding trim_space
  http_error resp =
      podman_api resp.status (trim_space (http.read_limited (64 * 2 ^ 10) resp.body).0)

  -- An answer other than 200 is an error.
  abbrev pub require_ok : Response → Call Response
  require_ok resp s = if resp.status_code == 200 then (ok resp, s) else (err (http_error resp), s)

  -- `do`, and the test on the status that follows it
  unfoldable pub request_ok :
      String → (Client → String) → List (String × String) → String → String → Call Response
  unfolding send_request http_error
  request_ok method path q body content_type = do
    resp ← send_request method path q body content_type
    require_ok resp

  -- The end of `ensureVersion`: what was read is kept in the client.
  unfoldable pub keep_version : VersionResponse → Call VersionResponse
  unfolding engine_component with_component
  keep_version vr (c, w) =
      let comp = engine_component vr.components in
      let vr' = extended comp vr in
      if str_eq (api_of comp) ""
      then (err no_libpod_version, (c, w))
      else (ok vr', (record c { libpod_api = api_of comp; engine_version = vr'.version }, w))

  unfoldable pub ask_version : Call VersionResponse
  unfolding request_ok keep_version
  ask_version = do
    resp ← request_ok "GET" (λ _. "/version") [] "" ""
    vr ← lift (decoded_version (http.decode_version resp.body))
    keep_version vr

  unfoldable pub ensure_version : Call VersionResponse
  unfolding ask_version
  ensure_version s =
      if not (str_eq s.0.libpod_api "") then (ok (cached_version s.0), s) else ask_version s

  unfoldable pub list_quadlets : Call (List Quadlet)
  unfolding ensure_version request_ok libpod_path
  list_quadlets = do
    _ ← ensure_version
    resp ← request_ok "GET" (λ c. libpod_path c "/libpod/quadlets/json") [] "" ""
    lift (http.decode_quadlets resp.body)

  abbrev pub require_name : String → Call (Unit {0})
  require_name name s = if valid_name name then (ok tt, s) else (err invalid_quadlet_name, s)

  unfoldable pub get_quadlet : String → Call String
  unfolding valid_name ensure_version request_ok file_path
  get_quadlet name = do
    require_name name
    _ ← ensure_version
    resp ← request_ok "GET" (file_path name) [] "" ""
    lift (whole_read (http.read_limited (2 * 2 ^ 20) resp.body))

  unfoldable pub install_quadlet : String → String → Call (Unit {0})
  unfolding valid_name ensure_version request_ok libpod_path
  install_quadlet name content = do
    require_name name
    _ ← ensure_version
    archive ← lift (http.tar_file name 0o644 content)
    _ ←
        request_ok "POST" (λ c. libpod_path c "/libpod/quadlets") (("reload-systemd", "false") ∷ [])
          archive "application/x-tar"
    pure tt

  unfoldable pub remove_quadlet : String → Bool → Call (Unit {0})
  unfolding valid_name ensure_version request_ok removal_path
  remove_quadlet name force = do
    require_name name
    _ ← ensure_version
    _ ← request_ok "DELETE" (removal_path name) (removal_query force) "" ""
    pure tt

  unfoldable pub container_logs : String → ℕ → Call String
  unfolding tail_lines ensure_version request_ok logs_path itoa
  container_logs id tail = do
    _ ← ensure_version
    resp ←
        request_ok "GET" (logs_path id)
          (("stdout", "true")
            ∷ ("stderr", "true")
            ∷ ("tail", itoa (tail_lines tail))
            ∷ ("timestamps", "false")
            ∷ [])
          "" ""
    lift (whole_read (http.read_limited (2 * 2 ^ 20) resp.body))
