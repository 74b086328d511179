-- ===== src/Tests/Rest.antt =====
-- A Podman in memory that answers the requests of its REST API.
use Prim.Native.Char.{code, nul}
use home_server_deployer.Prelude.{
  ℕ, String, ◌<>◌, true, ◌||◌, Option, none, some, List, [], ◌∷◌, reverse, ltb, ◌==◌, str_eq,
  if◌then◌else◌,
}
use home_server_deployer.Text.{split, contains_any}
use home_server_deployer.Text.Utf8.{byte_len}
use home_server_deployer.Text.Escape.{path_escape}
use home_server_deployer.Act.{Result, ok, err}
use home_server_deployer.Error.{external}
use home_server_deployer.Engine.Sources.{Sources, assign}
use home_server_deployer.Podman.Http.{Request, Response, VersionResponse, ListedContainer, Http}

abbrev pub the_version : VersionResponse
the_version = record {
  api_version = "1.41";
  min_api_version = "1.24";
  version = "";
  arch = "arm64";
  components =
      record {
        name = "Podman Engine";
        version = "5.8.2";
        details = ("APIVersion", "5.8.2") ∷ ("MinAPIVersion", "4.0.0") ∷ [];
      }
      ∷ [];
}

-- The names that the host has room for, its files, and the requests that it got.
pub record RestHost : Type 0 where
  pub names : List String
  pub files : Sources
  pub requests : List String

abbrev pub rest_files : RestHost → Sources
rest_files w n = w.files n

-- The texts before and after the first character `c`.
abbrev onto_cut : Prim.Native.Char.Char → String × String → String × String
onto_cut d (a, b) = (String.◌∷◌ d a, b)

unfoldable pub cut : ℕ → String → String × String
cut c String.[] = ("", "")
cut c (String.◌∷◌ d s) = let rest = cut c s in if code d == c then ("", s) else onto_cut d rest

unfoldable pub named : List String → String → Option String
unfolding path_escape
named [] segment = none
named (n ∷ ns) segment =
    let rest = named ns segment in if str_eq (path_escape n) segment then some n else rest

abbrev answer : ℕ → String → Result Response
answer code body = ok (record { status_code = code; status = ""; body = body })

abbrev pub file_answer : Option String → Result Response
file_answer none = answer 404 "no such file"
file_answer (some s) = answer 200 s

abbrev pub file_of : Option String → RestHost → Option String
file_of none w = none
file_of (some n) w = rest_files w n

-- The last segment of the path and the one before it.
abbrev pub read_answer : List String → RestHost → Result Response
read_answer [] w = answer 404 ""
read_answer (last ∷ []) w = if str_eq last "version" then answer 200 "version" else answer 404 ""
read_answer (last ∷ segment ∷ more) w =
    if str_eq last "file"
    then file_answer (file_of (named w.names segment) w)
    else if str_eq last "version"
    then answer 200 "version"
    else if str_eq last "json" || (str_eq last "json?all=true" || str_eq last "info")
    then answer 200 segment
    else answer 404 ""

abbrev pub put : String × String → Option String → RestHost → Result Response × RestHost
put (n, s) none w = (answer 200 "", record w { files = assign n (some s) w.files })
put (n, s) (some _) w = (answer 409 "exists", w)

abbrev pub drop : Option String → Option String → RestHost → Result Response × RestHost
drop none _ w = (answer 404 "", w)
drop (some n) none w = (answer 404 "", w)
drop (some n) (some _) w = (answer 200 "", record w { files = assign n none w.files })

abbrev pub first : List String → String
first [] = ""
first (s ∷ _) = s

unfoldable pub serve : Request → RestHost → Result Response × RestHost
unfolding split named cut assign
serve r w =
    let segments = reverse (split b'/' r.url) in
    let segment = (cut b'?' (first segments)).0 in
    let entry = cut 0 r.body in
    if str_eq r.method "GET"
    then (read_answer segments w, w)
    else if str_eq r.method "POST"
    then put entry (w.files entry.0) w
    else drop (named w.names segment) (file_of (named w.names segment) w) w

abbrev listed : String → String → ListedContainer
listed id name = record { id = id; names = name ∷ []; state = "created"; status = ""; labels = [] }

abbrev pub fake_http : Http RestHost
fake_http = record {
  send = serve;
  read_limited =
      λ n body. if ltb (byte_len body) n then (body, none) else ("", some (external "reset"));
  decode_version = λ _. ok the_version;
  decode_quadlets = λ _. ok [];
  decode_info = λ _. ok (record {
    arch = "arm64";
    cgroup_manager = "systemd";
    cgroup_version = "v2";
    network_backend = "netavark";
    rootless = true;
  });
  decode_containers = λ _. ok (listed "c2" "/web" ∷ listed "c1" "/app" ∷ []);
  decode_inspect = λ id.
      if str_eq id "c2"
      then ok (record {
        name = "/zweb";
        status = "running";
        health = "healthy";
        env = "PATH=/bin" ∷ "PODMAN_SYSTEMD_UNIT=web.service" ∷ [];
        labels = [];
      })
      else err (external "no container");
  tar_file = λ name _ content.
      if contains_any name (0 ∷ [])
      then err (external "refused")
      else ok (name <> String.◌∷◌ nul content);
}
