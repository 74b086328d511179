-- ===== src/Tests/Starting.antt =====
-- A start of the agent on a machine in memory.
use home_server_deployer.Prelude.{◌≡◌, refl, true, false, Option, none, some, [], ◌∷◌, contains}
use home_server_deployer.Model.{Plan}
use home_server_deployer.Error.{not_exist}
use home_server_deployer.Act.{ok, err, attempt, each, collect}
use home_server_deployer.Services.{Platform}
use home_server_deployer.Config.{default_config}
use home_server_deployer.Catalog.Store.{CatalogStore}
use home_server_deployer.State.{Disk}
use home_server_deployer.Podman.Client.{Client, new_client}
use home_server_deployer.Systemd.{Bus, finished}
use home_server_deployer.Engine.{Engine}
use home_server_deployer.Commands.{Machine, new_engine, start_agent}
use home_server_deployer.Commands.Laws.{IsReady, start_agent-IsReady}
use home_server_deployer.Commands.LawfulLaws.{IsApart, podman_files, new_engine-LeavesSources}
use home_server_deployer.Commands.ServingLaws.{CarriedOut, serve_api-CarriedOut}
use home_server_deployer.Podman.Client.{podman_base}
use home_server_deployer.Systemd.QuietLaws.{QuietBus}
use home_server_deployer.Api.Server.{ApiRequest, ApiResponse, Decoder, of_status, serve_api}
use home_server_deployer.Web.Agent.{execute_path}
use home_server_deployer.Tests.Fake.{fake_app}
use home_server_deployer.Tests.Rest.{RestHost, rest_files, fake_http, serve}
use home_server_deployer.Tests.RestLaws.{fake-ServesQuadlets}

abbrev At : Type 0
At = Client × RestHost

-- A disk whose texts are the same everywhere, without an old socket.
abbrev disk : Disk At
disk = record {
  mkdir_all = λ _ _ w. (ok tt, w);
  create_temp = λ _ _ w. (ok "tmp", w);
  chmod = λ _ _ w. (ok tt, w);
  write = λ _ _ w. (ok tt, w);
  sync = λ _ w. (ok tt, w);
  close = λ _ w. (ok tt, w);
  rename = λ _ _ w. (ok tt, w);
  remove_file = λ _ w. (err (not_exist "socket"), w);
  read_file = λ _ w. (ok "text", w);
  read_dir = λ _ w. (ok (record { name = "app"; is_dir = true } ∷ []), w);
  sync_dir = λ _ w. w;
}

abbrev bus : Bus At
bus = record {
  queue_start = λ _ w. (ok tt, w);
  queue_stop = λ _ w. (ok tt, w);
  queue_restart = λ _ w. (ok tt, w);
  await_job = λ w. (finished "done", w);
  reload_units = λ w. (ok tt, w);
  list_units = λ _ w. (ok [], w);
  version_property = λ _. ok "257";
}

abbrev platform : Platform At
platform = record {
  quote = λ s. s;
  now = λ _. 1000;
  random_bytes = λ _ w. (ok [], w);
  sha256 = λ _. [];
  marshal_plan = λ p. p.id;
  read_file = λ _ w. (ok "text", w);
  execute_template = λ _ text _. ok text;
  open_root = λ _ w. (ok 3, w);
  already_there = λ _ _ _. false;
  mkdirat = λ _ _ _ w. (ok tt, w);
  openat2 = λ _ _ w. (ok 4, w);
}

-- A plan with the digest that the platform gives, to install one file.
abbrev stored_plan : Plan
stored_plan = record {
  id = "plan";
  digest = "";
  operation = "install";
  app_id = "app";
  catalog_version = "2";
  instance_id = "web";
  parameters = [];
  directories = [];
  resources =
      record {
        name = "web.container";
        unit_name = "";
        content = "[Container]";
        start = false;
        sha256 = "";
        previous_sha256 = "";
      }
      ∷ [];
  drift = [];
  created_at = 900;
  expires_at = 2000;
}

abbrev machine : Machine RestHost
machine = record {
  disk = disk;
  variable = λ _ _. "";
  http_at = λ _. fake_http;
  connect = λ w. (ok bus, w);
  listen = λ _ w. (ok tt, w);
  enforce = ok "1";
  platform = platform;
  decode_config = λ defaults _. ok defaults;
  decode_app = λ _. ok fake_app;
  instance_json = record { marshal = λ v. ok v.id; unmarshal = λ s. err (not_exist s) };
  plan_json = record { marshal = λ v. ok v.id; unmarshal = λ s. ok stored_plan };
  format = λ _. "";
}

abbrev before : At
before = (new_client, record { names = "web.container" ∷ []; files = λ _. none; requests = [] })

abbrev store : CatalogStore
store = record { root = default_config.catalog_root; apps = ("app", fake_app) ∷ [] }

started : Engine At
unfolding new_engine
started = new_engine machine default_config store bus

starts : (start_agent machine none before).0 ≡ ok started
unfolding start_agent attempt started
starts = refl

start_agent-IsReady_example : IsReady machine none before started
start_agent-IsReady_example = start_agent-IsReady machine none before started starts

machine-IsApart : IsApart machine rest_files
machine-IsApart = record {
  quiet_disk = record {
    quiet_mkdir = λ _ _ _. refl;
    quiet_create = λ _ _ _. refl;
    quiet_chmod = λ _ _ _. refl;
    quiet_write = λ _ _ _. refl;
    quiet_sync = λ _ _. refl;
    quiet_close = λ _ _. refl;
    quiet_rename = λ _ _ _. refl;
    quiet_remove = λ _ _. refl;
    quiet_read = λ _ _. refl;
    quiet_sync_dir = λ _ _. refl;
  };
  quiet_open = λ _ _. refl;
  quiet_make = λ _ _ _ _. refl;
  quiet_descend = λ _ _ _. refl;
}

bus-QuietBus : QuietBus bus (podman_files rest_files)
bus-QuietBus = record {
  quiet_queue_start = λ _ _. refl;
  quiet_queue_stop = λ _ _. refl;
  quiet_queue_restart = λ _ _. refl;
  quiet_await = λ _. refl;
  quiet_reload_units = λ _. refl;
  quiet_list_units = λ _ _. refl;
}

abbrev decoder : Decoder
decoder = record {
  limited = λ _ body. body;
  decode_request = λ body. err (not_exist body);
  at_end = λ _. true;
}

execution : ApiRequest
unfolding execute_path
execution = record { method = "POST"; path = execute_path "plan"; tail = ""; body = "{}" }

posts : execution.method ≡ "POST"
unfolding execution
posts = refl

path : execution.path ≡ execute_path "plan"
unfolding execution
path = refl

abbrev answer_or : Option ApiResponse → ApiResponse
answer_or none = record { status = 0; headers = []; payload = of_status "" }
answer_or (some r) = r

answer : ApiResponse
unfolding serve_api execution attempt each collect contains new_engine serve
answer =
    answer_or (serve_api (new_engine machine default_config store bus) decoder execution before).0

answers :
    (serve_api (new_engine machine default_config store bus) decoder execution before).0
    ≡ some answer
unfolding answer
answers = refl

success : answer.status ≡ 200
unfolding answer
success = refl

serve_api-CarriedOut_example :
    CarriedOut
      (new_engine machine default_config store bus)
      (podman_files rest_files)
      (new_engine-LeavesSources machine rest_files machine-IsApart default_config store bus
        (fake-ServesQuadlets podman_base)
        bus-QuietBus)
      "plan"
      before
      (serve_api (new_engine machine default_config store bus) decoder execution before).1
serve_api-CarriedOut_example =
    serve_api-CarriedOut machine rest_files machine-IsApart default_config store bus decoder
      (fake-ServesQuadlets podman_base) bus-QuietBus "plan" execution before answer
      (refl, refl, refl, refl) posts path answers success
