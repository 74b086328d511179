-- ===== src/Web/Server.antt =====
-- internal/web/server.go: the handlers of the web interface, less the HTML of the page.
use home_server_deployer.Prelude.{
  ℕ, String, ◌<>◌, Option, none, some, List, [], ◌∷◌, str_eq, if◌then◌else◌,
}
use home_server_deployer.Prelude.Dict.{Dict}
use home_server_deployer.Model.{
  Catalog, HostCapabilities, DiscoveredQuadlet, Instance, Plan, OperationResult,
}
use home_server_deployer.Error.{Error}
use home_server_deployer.Act.{Result, ok, err, Act, pure, ◌>>=◌}
use home_server_deployer.Web.Agent.{
  Agent, post_plan_request, execute_by_agent, action_by_agent, logs_of_agent, capabilities_of_agent,
  catalog_of_agent, quadlets_of_agent, instances_of_agent, document_of_agent,
}
use home_server_deployer.Web.Forms.{Form, form_value, plan_request}
use home_server_deployer.Web.Routes.{
  WebRoute, show_index, post_plan, post_execute, post_action, show_logs, show_docs, web_route,
}

-- `message` is the value of the query's key of that name, or empty.
pub record WebRequest : Type 0 where
  pub method : String
  pub path : String
  pub message : String
  pub parsed : Result Form

-- `pageData`, less the token. Of the first group the index shows all, or none after an error.
pub record Overview : Type 0 where
  pub capabilities : HostCapabilities
  pub catalog : List Catalog
  pub instances : List Instance
  pub quadlets : List DiscoveredQuadlet

pub record PageData : Type 0 where
  pub error : Option Error
  pub message : String
  pub overview : Option Overview
  pub plan : Option Plan
  pub logs : Dict String
  pub document : String

-- A page, `http.Error`, or `http.Redirect` with the status "see other".
pub data WebResponse : Type 0 where
  page : PageData → WebResponse
  http_error : ℕ → Option Error → WebResponse
  redirect : String → WebResponse

abbrev pub empty_page : PageData
empty_page = record {
  error = none;
  message = "";
  overview = none;
  plan = none;
  logs = [];
  document = "";
}

abbrev pub error_page : Error → WebResponse
error_page c = page (record empty_page { error = some c })

-- The headers of every answer, set before the handlers run.
abbrev pub web_headers : Dict String
web_headers =
    ("X-Frame-Options", "DENY")
    ∷ ("X-Content-Type-Options", "nosniff")
    ∷ ("Referrer-Policy", "no-referrer")
    ∷ (
      "Content-Security-Policy",
      "default-src 'self'; style-src 'self' 'unsafe-inline'; form-action 'self'; frame-ancestors 'none'",
    )
    ∷ []

abbrev pub list_or_nil : {A : Type 0} → Result (List A) → List A
list_or_nil (ok as') = as'
list_or_nil (err _) = []

module _ {W : Type 0} (agent : Agent W) (token : String) where
  abbrev pub overview_page : WebRequest → HostCapabilities → W → WebResponse × W
  overview_page q caps w =
      let (cat, w1) = catalog_of_agent agent w in
      let (ins, w2) = instances_of_agent agent w1 in
      let (qs, w3) = quadlets_of_agent agent w2 in
      (
        page (record empty_page {
          message = q.message;
          overview = some (record {
            capabilities = caps;
            catalog = list_or_nil cat;
            instances = list_or_nil ins;
            quadlets = list_or_nil qs;
          });
        }),
        w3,
      )

  abbrev pub index_page : WebRequest → Result HostCapabilities × W → WebResponse × W
  index_page q (err c, w) = (page (record empty_page { error = some c; message = q.message }), w)
  index_page q (ok caps, w) = overview_page q caps w

  -- `index`
  unfoldable pub index : WebRequest → W → WebResponse × W
  unfolding capabilities_of_agent catalog_of_agent instances_of_agent quadlets_of_agent
  index q w = index_page q (capabilities_of_agent agent w)

  abbrev pub shown_plan : Result Plan × W → WebResponse × W
  shown_plan (err c, w) = (error_page c, w)
  shown_plan (ok p, w) = (page (record empty_page { plan = some p }), w)

  -- `plan`, after `ParseForm`
  unfoldable pub plan : Form → W → WebResponse × W
  unfolding plan_request post_plan_request
  plan f w = shown_plan (post_plan_request agent (plan_request f) w)

  abbrev pub shown_result : Result OperationResult × W → WebResponse × W
  shown_result (err c, w) = (error_page c, w)
  shown_result (ok r, w) = (redirect ("/?message=" <> (r.operation <> "+succeeded")), w)

  -- `execute`, after `ParseForm`
  unfoldable pub execute : Form → W → WebResponse × W
  unfolding form_value execute_by_agent
  execute f w = shown_result (execute_by_agent agent (form_value f "planId") w)

  abbrev pub shown_action : Result (Dict String) × W → WebResponse × W
  shown_action (err c, w) = (error_page c, w)
  shown_action (ok _, w) = (redirect "/?message=action+succeeded", w)

  -- `action`, after `ParseForm`
  unfoldable pub action : Form → W → WebResponse × W
  unfolding form_value action_by_agent
  action f w =
      shown_action (action_by_agent agent (form_value f "instanceId") (form_value f "action") w)

  abbrev pub shown_logs : Result (Dict String) × W → WebResponse × W
  shown_logs (err c, w) = (error_page c, w)
  shown_logs (ok m, w) = (page (record empty_page { logs = m }), w)

  unfoldable pub logs_page : String → W → WebResponse × W
  unfolding logs_of_agent
  logs_page id w = shown_logs (logs_of_agent agent id w)

  abbrev pub shown_document : Result String × W → WebResponse × W
  shown_document (err c, w) = (error_page c, w)
  shown_document (ok text, w) = (page (record empty_page { document = text }), w)

  unfoldable pub docs_page : String → W → WebResponse × W
  unfolding document_of_agent
  docs_page id w = shown_document (document_of_agent agent id "README.md" w)

  -- `withCSRF`. A second `ParseForm` gives what the first one gave.
  unfoldable pub with_csrf : (Form → W → WebResponse × W) → Result Form → W → WebResponse × W
  unfolding form_value
  with_csrf next (err c) w = (http_error 403 none, w)
  with_csrf next (ok f) w =
      if str_eq (form_value f "csrf") token then next f w else (http_error 403 none, w)

  abbrev pub web_handler : WebRequest → WebRoute → W → WebResponse × W
  web_handler q show_index w = index q w
  web_handler q post_plan w = with_csrf plan q.parsed w
  web_handler q post_execute w = with_csrf execute q.parsed w
  web_handler q post_action w = with_csrf action q.parsed w
  web_handler q (show_logs id) w = logs_page id w
  web_handler q (show_docs id) w = docs_page id w

  abbrev pub web_routed : WebRequest → Option WebRoute → W → Option WebResponse × W
  web_routed q none w = (none, w)
  web_routed q (some r) w = let (a, w') = web_handler q r w in (some a, w')

  abbrev pub with_headers : Option WebResponse × W → (Dict String × Option WebResponse) × W
  with_headers (a, w) = ((web_headers, a), w)

  -- `Handler`. Where `ServeMux` gives its own answer there are the headers alone.
  unfoldable pub serve_web : WebRequest → W → (Dict String × Option WebResponse) × W
  unfolding web_route index with_csrf plan execute action logs_page docs_page
  serve_web q w = with_headers (web_routed q (web_route q.method q.path) w)

-- `randomToken`, with base64.RawURLEncoding
unfoldable pub random_token : {W : Type 0} → (ℕ → Act W (List ℕ)) → (List ℕ → String) → Act W String
random_token random encode = do b ← random 32; pure (encode b)
