-- ===== src/Web/CsrfLaws.antt =====
-- internal/web/server.go: what a request without the token can change.
use home_server_deployer.Prelude.{String, ◌≡◌, refl, ap, ◌∙◌, false, Option, none, some, str_eq}
use home_server_deployer.Prelude.Dict.{Dict}
use home_server_deployer.Model.{HostCapabilities}
use home_server_deployer.Act.{Result, ok, err, raise}
use home_server_deployer.Act.Rules.{Quiet, Quiet-attempt, if_rule}
use home_server_deployer.Podman.Http.{Request, Response}
use home_server_deployer.Web.Agent.{
  Agent, send_to_agent, require_success, request_agent, capabilities_of_agent, catalog_of_agent,
  instances_of_agent, quadlets_of_agent, logs_of_agent, document_of_agent, docs_path,
  agent_logs_path, is_success,
}
use home_server_deployer.Web.Forms.{Form, form_value}
use home_server_deployer.Web.Routes.{
  WebRoute, show_index, post_plan, post_execute, post_action, show_logs, show_docs, web_route,
}
use home_server_deployer.Web.Server.{
  WebRequest, WebResponse, index_page, index, plan, execute, action, shown_logs, logs_page,
  shown_document, docs_page, with_csrf, web_handler, web_routed, serve_web,
}

-- No form was sent, or one without the token.
abbrev pub Lacks : String → Result Form → Type 0
Lacks token (err c) = Unit
Lacks token (ok f) = str_eq (form_value f "csrf") token ≡ false

module _ {W V : Type 0} (agent : Agent W) (token : String) (view : W → V)
    (reads : (r : Request) → r.method ≡ "GET" → Quiet view (agent.send r)) where
  Quiet-send : (p : String) → Quiet view (send_to_agent agent "GET" p none)
  unfolding send_to_agent
  Quiet-send p = reads _ refl

  Quiet-require : (resp : Response) → Quiet view (require_success agent resp)
  Quiet-require resp w =
      if_rule (λ (r : Result Response × W). view r.1 ≡ view w) (is_success resp.status_code) _ _
        refl refl

  Quiet-request :
      {A : Type 0} (decode : String → Result A) (p : String)
      → Quiet view (request_agent agent decode "GET" p none)
  unfolding request_agent
  Quiet-request decode p =
      Quiet-attempt view (send_to_agent agent "GET" p none) raise _ (Quiet-send p) (λ _ _. refl)
        λ resp.
          Quiet-attempt view (require_success agent resp) raise _ (Quiet-require resp) (λ _ _. refl)
            (λ _ _. refl)

  index_page-view :
      (q : WebRequest) (r : Result HostCapabilities × W)
      → view (index_page agent token q r).1 ≡ view r.1
  unfolding catalog_of_agent instances_of_agent quadlets_of_agent
  index_page-view q (err c, w) = refl
  index_page-view q (ok caps, w) =
      Quiet-request agent.decode_quadlets "/v1/quadlets" _
      ∙ (Quiet-request agent.decode_instances "/v1/instances" _
          ∙ Quiet-request agent.decode_catalog "/v1/catalog" w)

  shown_logs-view : (r : Result (Dict String) × W) → view (shown_logs agent token r).1 ≡ view r.1
  shown_logs-view (err c, w) = refl
  shown_logs-view (ok m, w) = refl

  shown_document-view : (r : Result String × W) → view (shown_document agent token r).1 ≡ view r.1
  shown_document-view (err c, w) = refl
  shown_document-view (ok text, w) = refl

  Quiet-document : (id name : String) → Quiet view (document_of_agent agent id name)
  unfolding document_of_agent
  Quiet-document id name =
      Quiet-attempt view (send_to_agent agent "GET" (docs_path id name) none) raise _
        (Quiet-send (docs_path id name)) (λ _ _. refl) (λ _ _. refl)

  with_csrf-refused :
      (next : Form → W → WebResponse × W) (r : Result Form) (w : W)
      → Lacks token r
      → (with_csrf agent token next r w).1 ≡ w
  unfolding with_csrf
  with_csrf-refused next (err c) w h = refl
  with_csrf-refused next (ok f) w h = rw h refl

  handler-view :
      (q : WebRequest) (r : WebRoute) (w : W)
      → Lacks token q.parsed
      → view (web_handler agent token q r w).1 ≡ view w
  unfolding index logs_page docs_page capabilities_of_agent logs_of_agent
  handler-view q show_index w h =
      index_page-view q (capabilities_of_agent agent w)
      ∙ Quiet-request agent.decode_capabilities "/v1/capabilities" w
  handler-view q post_plan w h = ap view (with_csrf-refused (plan agent token) q.parsed w h)
  handler-view q post_execute w h = ap view (with_csrf-refused (execute agent token) q.parsed w h)
  handler-view q post_action w h = ap view (with_csrf-refused (action agent token) q.parsed w h)
  handler-view q (show_logs id) w h =
      shown_logs-view (logs_of_agent agent id w)
      ∙ Quiet-request agent.decode_texts (agent_logs_path id) w
  handler-view q (show_docs id) w h =
      shown_document-view (document_of_agent agent id "README.md" w)
      ∙ Quiet-document id "README.md" w

  routed-view :
      (q : WebRequest) (o : Option WebRoute) (w : W)
      → Lacks token q.parsed
      → view (web_routed agent token q o w).1 ≡ view w
  routed-view q none w h = refl
  routed-view q (some r) w h = handler-view q r w h

  -- For every view of the agent's side that its GET requests leave alone: a request to the web
  -- interface whose form cannot be parsed or does not carry the token leaves the view as it is.
  pub serve_web-Quiet :
      (q : WebRequest) (w : W) → Lacks token q.parsed → view (serve_web agent token q w).1 ≡ view w
  unfolding serve_web
  serve_web-Quiet q w h = routed-view q (web_route q.method q.path) w h
