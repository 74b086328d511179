-- ===== src/Commands/ServingLaws.antt =====
-- cmd/deployer-agent/main.go with internal/web/client.go, internal/api/server.go, internal/engine,
-- internal/podman, internal/state and internal/systemd: a plan that is carried out by a request.
use home_server_deployer.Prelude.{String, ◌≡◌, refl, sym, subst, ap, ◌∙◌, Option, some}
use home_server_deployer.Config.{Config}
use home_server_deployer.Podman.Client.{Client, podman_base}
use home_server_deployer.Podman.RestLaws.{ServesQuadlets}
use home_server_deployer.Systemd.{Bus}
use home_server_deployer.Systemd.QuietLaws.{QuietBus}
use home_server_deployer.Catalog.Store.{CatalogStore}
use home_server_deployer.Engine.{Engine}
use home_server_deployer.Engine.Sources.{Sources, LeavesSources}
use home_server_deployer.Engine.CompletionLaws.{Completed}
use home_server_deployer.Api.Routes.{Route, post_execute, route}
use home_server_deployer.Api.Server.{
  ApiRequest, ApiResponse, Decoder, handle, secured, routed, serve_api, security_headers,
}
use home_server_deployer.Api.Laws.{post_execute-Completed}
use home_server_deployer.Web.Agent.{execute_path}
use home_server_deployer.Web.RouteLaws.{IsSegmentName, execute_routed}
use home_server_deployer.Commands.{Machine, new_engine}
use home_server_deployer.Commands.LawfulLaws.{IsApart, podman_files, new_engine-LeavesSources}

-- The plan that is stored was applied in full, from the world in which it began.
abbrev pub CarriedOut :
    {W : Type 0} (e : Engine W) (source : W → Sources)
    → LeavesSources e source
    → String
    → W
    → W
    → Type 0
CarriedOut e source leaves id before after =
    Completed e source leaves (e.state.get_plan id before).0 (e.state.get_plan id before).1
      (source before) after

module _ {W : Type 0} (e : Engine W) (d : Decoder) (source : W → Sources)
    (leaves : LeavesSources e source) where
  routed-CarriedOut :
      (o : Option Route) (id : String) (q : ApiRequest) (w : W) (r : ApiResponse)
      → o ≡ some (post_execute id)
      → (routed e d o q w).0 ≡ some r
      → r.status ≡ 200
      → CarriedOut e source leaves id w (routed e d o q w).1
  unfolding security_headers
  routed-CarriedOut o id q w r routes answers success =
      subst (λ o'. CarriedOut e source leaves id w (routed e d o' q w).1) (sym routes)
        (post_execute-Completed e d source leaves id q w (status ∙ success))
    where
      answered : (secured e d (handle e d (post_execute id) q w)).0 ≡ some r
      answered = subst (λ o'. (routed e d o' q w).0 ≡ some r) routes answers

      status : (handle e d (post_execute id) q w).0.status ≡ r.status
      status = ap status_of answered
        where
          status_of : Option ApiResponse → home_server_deployer.Prelude.ℕ
          status_of home_server_deployer.Prelude.none = 0
          status_of (some a) = a.status

module _ {V : Type 0} (host : Machine V) (source : V → Sources) (apart : IsApart host source) where
  -- On a host whose Podman keeps to the documented behaviour of its REST API on Quadlet sources,
  -- and whose other files and calls of systemd do not touch these: if the agent's API answers a
  -- POST of the path that the web client builds for a plan's execution, with an ID that is not
  -- empty, a dot, a double dot or a slash, with 200, then the stored plan was applied in full to
  -- Podman's Quadlet sources: an install has written all of its resources, an update has removed
  -- all sources of the instance that the store gave it and written the plan's, and a removal has
  -- removed all sources of the instance that the store gave it. Nothing is assumed of requests
  -- without an answer or of the size of a source.
  pub serve_api-CarriedOut :
      (cfg : Config) (store : CatalogStore) (bus : Bus (Client × V)) (d : Decoder)
      (serves : ServesQuadlets (host.http_at cfg.podman_socket) podman_base source)
      (quiet : QuietBus bus (podman_files source)) (id : String) (q : ApiRequest) (w : Client × V)
      (r : ApiResponse)
      → IsSegmentName id
      → q.method ≡ "POST"
      → q.path ≡ execute_path id
      → (serve_api (new_engine host cfg store bus) d q w).0 ≡ some r
      → r.status ≡ 200
      → CarriedOut
          (new_engine host cfg store bus)
          (podman_files source)
          (new_engine-LeavesSources host source apart cfg store bus serves quiet)
          id
          w
          (serve_api (new_engine host cfg store bus) d q w).1
  unfolding serve_api
  serve_api-CarriedOut cfg store bus d serves quiet id q w r segment posts path =
      routed-CarriedOut (new_engine host cfg store bus) d (podman_files source)
        (new_engine-LeavesSources host source apart cfg store bus serves quiet)
        (route q.method q.path) id q w r
        (ap (λ m. route m q.path) posts ∙ (ap (route "POST") path ∙ execute_routed id segment))
