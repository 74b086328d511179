-- ===== src/Web/Agent.antt =====
-- internal/web/client.go: `AgentClient`.
use home_server_deployer.Prelude.{
  ℕ, ◌*◌, ◌^◌, String, ◌<>◌, Bool, ◌&&◌, Option, none, some, List, leb, ltb, if◌then◌else◌,
}
use home_server_deployer.Prelude.Dict.{Dict}
use home_server_deployer.Model.{
  Catalog, HostCapabilities, DiscoveredQuadlet, Instance, PlanRequest, Plan, OperationResult,
}
use home_server_deployer.Error.{Error, agent_api}
use home_server_deployer.Act.{Result, ok, err, Act, lift, ◌>>=◌}
use home_server_deployer.Text.{trim_space}
use home_server_deployer.Text.Escape.{path_escape}
use home_server_deployer.Podman.Http.{Request, Response}
use home_server_deployer.Podman.Client.{whole_read}

-- The connection to the agent, and encoding/json on what it carries.
pub record Agent (W : Type 0) : Type 0 where
  pub send : Request → Act W Response
  pub read_limited : ℕ → String → String × Option Error
  pub encode_request : PlanRequest → Result String
  pub decode_capabilities : String → Result HostCapabilities
  pub decode_catalog : String → Result (List Catalog)
  pub decode_quadlets : String → Result (List DiscoveredQuadlet)
  pub decode_instances : String → Result (List Instance)
  pub decode_plan : String → Result Plan
  pub decode_result : String → Result OperationResult
  pub decode_texts : String → Result (Dict String)

unfoldable pub execute_path : String → String
unfolding path_escape
execute_path id = "/v1/plans/" <> (path_escape id <> "/execute")

unfoldable pub action_path : String → String → String
unfolding path_escape
action_path id action = "/v1/instances/" <> (path_escape id <> ("/actions/" <> path_escape action))

unfoldable pub agent_logs_path : String → String
unfolding path_escape
agent_logs_path id = "/v1/instances/" <> (path_escape id <> "/logs")

unfoldable pub docs_path : String → String → String
unfolding path_escape
docs_path id name = "/v1/instances/" <> (path_escape id <> ("/docs/" <> path_escape name))

-- `json.Marshal(map[string]string{})`
abbrev pub empty_object : String
empty_object = "{}"

abbrev pub is_success : ℕ → Bool
is_success code = leb 200 code && ltb code 300

module _ {W : Type 0} (agent : Agent W) where
  -- A request with a body has a content type.
  unfoldable pub send_to_agent : String → String → Option String → Act W Response
  send_to_agent method p none =
      agent.send
        (record { method = method; url = "http://agent" <> p; content_type = ""; body = "" })
  send_to_agent method p (some body) = agent.send (record {
    method = method;
    url = "http://agent" <> p;
    content_type = "application/json";
    body = body;
  })

  unfoldable pub agent_error : Response → Error
  unfolding trim_space
  agent_error resp =
      agent_api resp.status (trim_space (agent.read_limited (64 * 2 ^ 10) resp.body).0)

  abbrev pub require_success : Response → Act W Response
  require_success resp w =
      if is_success resp.status_code then (ok resp, w) else (err (agent_error resp), w)

  -- `request`, with the decoder of what it reads into
  unfoldable pub request_agent :
      {A : Type 0} → (String → Result A) → String → String → Option String → Act W A
  unfolding send_to_agent agent_error
  request_agent decode method p body = do
    answer ← send_to_agent method p body
    resp ← require_success answer
    lift (decode resp.body)

  -- `post`
  unfoldable pub post_plan_request : PlanRequest → Act W Plan
  unfolding request_agent
  post_plan_request r = do
    body ← lift (agent.encode_request r)
    request_agent agent.decode_plan "POST" "/v1/plans" (some body)

  unfoldable pub execute_by_agent : String → Act W OperationResult
  unfolding request_agent execute_path
  execute_by_agent id =
      request_agent agent.decode_result "POST" (execute_path id) (some empty_object)

  unfoldable pub action_by_agent : String → String → Act W (Dict String)
  unfolding request_agent action_path
  action_by_agent id action =
      request_agent agent.decode_texts "POST" (action_path id action) (some empty_object)

  unfoldable pub logs_of_agent : String → Act W (Dict String)
  unfolding request_agent agent_logs_path
  logs_of_agent id = request_agent agent.decode_texts "GET" (agent_logs_path id) none

  unfoldable pub capabilities_of_agent : Act W HostCapabilities
  unfolding request_agent
  capabilities_of_agent = request_agent agent.decode_capabilities "GET" "/v1/capabilities" none

  unfoldable pub catalog_of_agent : Act W (List Catalog)
  unfolding request_agent
  catalog_of_agent = request_agent agent.decode_catalog "GET" "/v1/catalog" none

  unfoldable pub quadlets_of_agent : Act W (List DiscoveredQuadlet)
  unfolding request_agent
  quadlets_of_agent = request_agent agent.decode_quadlets "GET" "/v1/quadlets" none

  unfoldable pub instances_of_agent : Act W (List Instance)
  unfolding request_agent
  instances_of_agent = request_agent agent.decode_instances "GET" "/v1/instances" none

  -- The test on the status comes after the reading.
  abbrev pub document_of : Response → Result String → Result String
  document_of resp (err c) = err c
  document_of resp (ok text) =
      if is_success resp.status_code then ok text else err (agent_api resp.status (trim_space text))

  unfoldable pub document_of_agent : String → String → Act W String
  unfolding send_to_agent docs_path trim_space
  document_of_agent id name = do
    resp ← send_to_agent "GET" (docs_path id name) none
    lift (document_of resp (whole_read (agent.read_limited (2 * 2 ^ 20) resp.body)))
