-- ===== src/Api/Server.antt =====
-- internal/api/server.go: the handlers.
use home_server_deployer.Prelude.{
  ℕ, ◌^◌, String, Bool, ◌||◌, Option, none, some, List, [], ◌∷◌, ltb, str_eq, if◌then◌else◌,
}
use home_server_deployer.Prelude.Dict.{Dict}
use home_server_deployer.Prelude.Int.{ℤ, pos, negsuc}
use home_server_deployer.Strconv.{atoi}
use home_server_deployer.Model.{
  Catalog, HostCapabilities, DiscoveredQuadlet, Instance, InstanceStatus, PlanRequest, Plan,
  OperationResult, BackupContract,
}
use home_server_deployer.Error.{Error, invalid_json, one_object, tail_range}
use home_server_deployer.Error.Message.{error_text}
use home_server_deployer.Act.{Result, ok, err}
use home_server_deployer.Catalog.Store.{list_apps}
use home_server_deployer.Engine.{Engine}
use home_server_deployer.Engine.Queries.{
  capabilities, discover, instance_status, lifecycle, logs, documentation, backup_contract,
}
use home_server_deployer.Engine.Planning.{create_plan}
use home_server_deployer.Engine.Execute.{Outcome, execute_plan}
use home_server_deployer.Api.Status.{status_for}
use home_server_deployer.Api.Routes.{
  Route, get_health, get_capabilities, get_catalog, get_quadlets, get_instances, get_status,
  post_plan, post_execute, post_action, get_logs, get_docs, get_backup_contract, post_backup, route,
}

-- `tail` is the value of the query's key of that name, or empty.
pub record ApiRequest : Type 0 where
  pub method : String
  pub path : String
  pub tail : String
  pub body : String

-- What is given to the JSON encoder, or written as it is.
pub data Payload : Type 0 where
  of_error : String → Payload
  of_status : String → Payload
  of_capabilities : HostCapabilities → Payload
  of_catalog : List Catalog → Payload
  of_quadlets : List DiscoveredQuadlet → Payload
  of_instances : List Instance → Payload
  of_instance : InstanceStatus → Payload
  of_plan : Plan → Payload
  of_result : OperationResult → Payload
  of_logs : Dict String → Payload
  of_contract : BackupContract → Payload
  not_implemented : String → BackupContract → Payload
  of_document : String → Payload

pub record ApiResponse : Type 0 where
  pub status : ℕ
  pub headers : Dict String
  pub payload : Payload

-- What encoding/json and io do: the text below a limit, the first value of a text with what is left,
-- and the test for the end.
pub record Decoder : Type 0 where
  pub limited : ℕ → String → String
  pub decode_request : String → Result (PlanRequest × String)
  pub at_end : String → Bool

unfoldable pub write_json : ℕ → Payload → ApiResponse
write_json status payload = record {
  status = status;
  headers = ("Content-Type", "application/json") ∷ [];
  payload = payload;
}

-- The headers of `securityHeaders` come before those of the handler.
unfoldable pub security_headers : ApiResponse → ApiResponse
security_headers r = record r {
  headers = ("X-Content-Type-Options", "nosniff") ∷ ("Cache-Control", "no-store") ∷ r.headers;
}

-- `decodeJSON`, after the first value was read
abbrev pub one_value : Decoder → Result (PlanRequest × String) → Result PlanRequest
one_value d (err c) = err (invalid_json c)
one_value d (ok (r, rest)) = if d.at_end rest then ok r else err one_object

unfoldable pub decode_json : Decoder → String → Result PlanRequest
decode_json d body = one_value d (d.decode_request (d.limited (2 ^ 20) body))

abbrev pub tail_within : Option ℤ → Option ℕ
tail_within none = none
tail_within (some (negsuc n)) = none
tail_within (some (pos n)) = if ltb n 1 || ltb 5000 n then none else some n

-- The test on the number of lines, which is 200 unless the request says otherwise.
unfoldable pub tail_of : String → Option ℕ
unfolding atoi
tail_of text = if str_eq text "" then some 200 else tail_within (atoi text)

module _ {W : Type 0} (e : Engine W) (d : Decoder) where
  open e use {catalog, state, platform}

  unfoldable pub write_error : ℕ → Error → ApiResponse
  unfolding write_json error_text
  write_error status c = write_json status (of_error (error_text platform.quote c))

  unfoldable pub refusal : Error → ApiResponse
  unfolding write_error status_for error_text
  refusal c = write_error (status_for (error_text platform.quote c)) c

  -- `respond`
  unfoldable pub respond : {A : Type 0} → (A → Payload) → Result A → ApiResponse
  unfolding write_json refusal
  respond f (ok v) = write_json 200 (f v)
  respond f (err c) = refusal c

  abbrev pub answer_with : {A : Type 0} → (Result A → ApiResponse) → Result A × W → ApiResponse × W
  answer_with f (r, w) = (f r, w)

  abbrev pub respond_with : {A : Type 0} → (A → Payload) → Result A × W → ApiResponse × W
  respond_with f = answer_with (respond f)

  abbrev pub outcome_result : Outcome → Result OperationResult
  outcome_result o = elim o.error [ none ↦ ok o.result | some c ↦ err c ]

  abbrev pub executed : Outcome × W → ApiResponse × W
  executed (o, w) = (respond of_result (outcome_result o), w)

  abbrev pub planned : Result PlanRequest → W → ApiResponse × W
  planned (err c) w = (write_error 400 c, w)
  planned (ok r) w = respond_with of_plan (create_plan e r w)

  abbrev pub logged_with : Option ℕ → String → W → ApiResponse × W
  logged_with none id w = (write_error 400 tail_range, w)
  logged_with (some n) id w = respond_with of_logs (logs e id n w)

  -- `docs`
  unfoldable pub document_answer : String → Result String → ApiResponse
  unfolding refusal
  document_answer name (err c) = refusal c
  document_answer name (ok text) = record {
    status = 200;
    headers =
        (
          "Content-Type",
          if str_eq name "README.md" then "text/markdown; charset=utf-8" else "application/json",
        )
        ∷ [];
    payload = of_document text;
  }

  -- The answer to a backup, which is not implemented.
  unfoldable pub backup_answer : Result BackupContract → ApiResponse
  unfolding write_json refusal
  backup_answer (err c) = refusal c
  backup_answer (ok v) =
      write_json 501 (not_implemented "backup execution is not implemented in Alpha 0" v)

  unfoldable pub handle : Route → ApiRequest → W → ApiResponse × W
  unfolding write_json respond capabilities list_apps discover instance_status decode_json
      create_plan execute_plan lifecycle tail_of logs documentation document_answer backup_contract
      backup_answer
  handle get_health q w = (write_json 200 (of_status "ok"), w)
  handle get_capabilities q w = respond_with of_capabilities (capabilities e w)
  handle get_catalog q w = (write_json 200 (of_catalog (list_apps catalog)), w)
  handle get_quadlets q w = respond_with of_quadlets (discover e w)
  handle get_instances q w = respond_with of_instances (state.list_instances w)
  handle (get_status id) q w = respond_with of_instance (instance_status e id w)
  handle post_plan q w = planned (decode_json d q.body) w
  handle (post_execute id) q w = executed (execute_plan e id w)
  handle (post_action id action) q w = respond_with (λ _. of_status "ok") (lifecycle e id action w)
  handle (get_logs id) q w = logged_with (tail_of q.tail) id w
  handle (get_docs id name) q w = answer_with (document_answer name) (documentation e id name w)
  handle (get_backup_contract id) q w = respond_with of_contract (backup_contract e id w)
  handle (post_backup id) q w = answer_with backup_answer (backup_contract e id w)

  abbrev pub secured : ApiResponse × W → Option ApiResponse × W
  secured (r, w) = (some (security_headers r), w)

  abbrev pub routed : Option Route → ApiRequest → W → Option ApiResponse × W
  routed none q w = (none, w)
  routed (some r) q w = secured (handle r q w)

  -- `Handler`. There is no answer where `ServeMux` gives its own: not found, not allowed, redirect.
  unfoldable pub serve_api : ApiRequest → W → Option ApiResponse × W
  unfolding security_headers route handle
  serve_api q w = routed (route q.method q.path) q w
