-- ===== src/Tests/Pages.antt =====
-- Requests to the web interface, over an agent in memory.
use home_server_deployer.Prelude.{
  ℕ, ◌+◌, String, ◌≡◌, refl, ap, none, some, [], ◌∷◌, str_eq, if◌then◌else◌,
}
use home_server_deployer.Error.{external}
use home_server_deployer.Act.{Result, ok, err, Act, attempt}
use home_server_deployer.Podman.Http.{Request, Response}
use home_server_deployer.Api.Routes.{route, post_execute, post_action, get_logs, get_docs}
use home_server_deployer.Web.Agent.{Agent, execute_path, action_path, agent_logs_path, docs_path}
use home_server_deployer.Web.Forms.{Form, form_value}
use home_server_deployer.Web.Server.{WebRequest, serve_web}
use home_server_deployer.Web.CsrfLaws.{Lacks, serve_web-Quiet}
use home_server_deployer.Web.RouteLaws.{paths-route}

-- The number of requests that are not GET requests.
abbrev answered : Request → Act ℕ Response
answered r w = (
  ok (record { status_code = 200; status = "200 OK"; body = "" }),
  (if str_eq r.method "GET" then w else w + 1),
)

abbrev unread : {A : Type 0} → String → Result A
unread s = err (external "nothing to decode")

abbrev agent : Agent ℕ
agent = record {
  send = answered;
  read_limited = λ n s. (s, none);
  encode_request = λ r. ok r.operation;
  decode_capabilities = unread;
  decode_catalog = unread;
  decode_quadlets = unread;
  decode_instances = unread;
  decode_plan = unread;
  decode_result = λ s. ok (record {
    plan_id = "plan";
    instance_id = "web";
    operation = "install";
    status = "ok";
    message = s;
    at = 0;
  });
  decode_texts = λ s. ok [];
}

quiet_reads : (r : Request) → r.method ≡ "GET" → (w : ℕ) → (agent.send r w).1 ≡ w
quiet_reads r h w = ap (λ m. if str_eq m "GET" then w else w + 1) h

abbrev form : String → Form
form token =
    let values = ("csrf", token ∷ []) ∷ ("planId", "plan" ∷ []) ∷ [] in
    record { post_form = values; form = values }

abbrev execution : String → WebRequest
execution token = record {
  method = "POST";
  path = "/execute";
  message = "";
  parsed = ok (form token);
}

-- With the token the agent gets a request that is not a GET request.
accepted : (serve_web agent "secret" (execution "secret") 0).1 ≡ 1
unfolding serve_web attempt
accepted = refl

without_token : Lacks "secret" (execution "guess").parsed
unfolding form_value
without_token = refl

serve_web-Quiet_example : (serve_web agent "secret" (execution "guess") 0).1 ≡ 0
serve_web-Quiet_example =
    serve_web-Quiet agent "secret" (λ w. w) quiet_reads (execution "guess") 0 without_token

paths-route_example :
    (route "POST" (execute_path "a/b") ≡ some (post_execute "a/b"))
    × (route "POST" (action_path "a/b" "../x") ≡ some (post_action "a/b" "../x"))
    × (route "GET" (agent_logs_path "a/b") ≡ some (get_logs "a/b"))
    × (route "GET" (docs_path "a/b" "../x") ≡ some (get_docs "a/b" "../x"))
paths-route_example = paths-route "a/b" "../x" (refl, refl, refl, refl) (refl, refl, refl, refl)
