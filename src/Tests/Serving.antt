-- ===== src/Tests/Serving.antt =====
-- Requests to the API of the engine on the host in memory.
use home_server_deployer.Prelude.{ℕ, ◌≤◌, String, ◌≡◌, refl, ◌⊎◌, [], str_eq, contains}
use home_server_deployer.Error.{tail_range}
use home_server_deployer.Act.{ok, attempt, each, collect}
use home_server_deployer.Podman.Client.{tail_lines}
use home_server_deployer.Engine.Queries.{logs}
use home_server_deployer.Api.Routes.{get_logs, post_execute}
use home_server_deployer.Api.Server.{
  ApiRequest, Decoder, of_logs, write_error, respond_with, handle,
}
use home_server_deployer.Api.Laws.{get_logs-tail}
use home_server_deployer.Tests.Fake.{fake_engine}
use home_server_deployer.Tests.Transactions.{host}

-- A decoder whose requests are the texts for an install.
abbrev decoder : Decoder
decoder = record {
  limited = λ _ body. body;
  decode_request = λ body.
      ok
        (record { operation = "install"; app_id = "app"; instance_id = body; parameters = [] }, "");
  at_end = λ rest. str_eq rest "";
}

abbrev request : String → String → String → ApiRequest
request method path tail = record { method = method; path = path; tail = tail; body = "new" }

abbrev restart : ApiRequest
restart = request "POST" "/v1/instances/web/actions/restart" ""

abbrev tail_request : ApiRequest
tail_request = request "GET" "/v1/instances/web/logs" "50"

get_logs-tail_example :
    (handle fake_engine decoder (get_logs "web") tail_request (host "update" [])
      ≡ (write_error fake_engine decoder 400 tail_range, host "update" []))
    ⊎ ((n : ℕ) × (handle fake_engine decoder (get_logs "web") tail_request (host "update" [])
          ≡ respond_with fake_engine decoder of_logs (logs fake_engine "web" n (host "update" [])))
        × (1 ≤ n)
        × (n ≤ 5000)
        × (tail_lines n ≡ n))
get_logs-tail_example = get_logs-tail fake_engine decoder "web" tail_request (host "update" [])

abbrev execution : ApiRequest
execution = request "POST" "/v1/plans/plan/execute" ""

-- A plan that is carried out is answered with 200.
carried_out :
    (handle fake_engine decoder (post_execute "plan") execution (host "update" [])).0.status ≡ 200
unfolding handle host attempt each collect contains
carried_out = refl
