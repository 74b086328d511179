-- ===== src/Podman/ContainerLaws.antt =====
-- internal/podman/podman.go: what `ListContainers` and `DiscoverCapabilities` return.
use mathlib.Core.List.{Perm}
use mathlib.Core.List.Perm
use home_server_deployer.Prelude.{
  String, ◌≡◌, refl, subst, ap, Bool, true, false, ◌&&◌, Option, none, some, List, [], ◌∷◌, map,
}
use home_server_deployer.Prelude.Sort.{sort_by-perm, Ordered, sort_by-Ordered}
use home_server_deployer.Act.{Result, ok, err, ok-injective, lift}
use home_server_deployer.Act.Rules.{bind_rule}
use home_server_deployer.Model.{RuntimeContainer, PodmanCapabilities}
use home_server_deployer.Podman.Version.{
  profile_for_version, quadlet_api_introduction_version, version_at_least,
}
use home_server_deployer.Podman.Http.{
  Response, VersionResponse, HostInfo, ListedContainer, Inspect, Http,
}
use home_server_deployer.Podman.Client.{
  Client, send_request, libpod_path, request_ok, ensure_version,
}
use home_server_deployer.Podman.Containers.{
  answered, is_answered, from_listed, inspected, with_inspect, inspect_container, inspect_each,
  sorted_containers, list_containers, probe, discover_capabilities, known_capabilities, with_info,
  informed, decoded_info,
}

module _ {W : Type 0} (http : Http W) (base : String) where
  abbrev ids : List RuntimeContainer → List String
  ids cs = map (λ (c : RuntimeContainer). c.id) cs

  abbrev listed_ids : List ListedContainer → List String
  listed_ids ls = map (λ (l : ListedContainer). l.id) ls

  inspected-id : (r : Result Inspect) (c : RuntimeContainer) → (inspected r c).id ≡ c.id
  unfolding with_inspect
  inspected-id (ok i) c = refl
  inspected-id (err _) c = refl

  inspect_each-ids :
      (ls : List ListedContainer) (s : Client × W)
      → ids (inspect_each http base ls s).0 ≡ listed_ids ls
  unfolding inspect_each from_listed with_inspect
  inspect_each-ids [] s = refl
  inspect_each-ids (l ∷ ls) s =
      rw (inspected-id (inspect_container http base l.id s).0 (from_listed l))
        (ap (λ is. l.id ∷ is) (inspect_each-ids ls (inspect_container http base l.id s).1))

  -- What `ListContainers` returns, for what the host listed.
  abbrev pub Listed : List ListedContainer → List RuntimeContainer → Type 0
  Listed ls out = Perm (ids out) (listed_ids ls) × Ordered (λ (c : RuntimeContainer). c.name) out

  sorted-Listed :
      (ls : List ListedContainer) (s : Client × W) (out : List RuntimeContainer)
      → (sorted_containers http base (inspect_each http base ls s)).0 ≡ ok out
      → Listed ls out
  sorted-Listed ls s out h = subst (Listed ls) (ok-injective h) (
    subst (Perm _) (inspect_each-ids ls s) (
        Perm.map (λ (c : RuntimeContainer). c.id)
          (sort_by-perm (λ (c : RuntimeContainer). c.name) (inspect_each http base ls s).0)),
    sort_by-Ordered (λ (c : RuntimeContainer). c.name) (inspect_each http base ls s).0,
  )

  -- The containers that ListContainers returns have the IDs of those that Podman listed, each as
  -- often as it was listed, and they are in the order of their names.
  pub list_containers-Listed :
      (s : Client × W) (out : List RuntimeContainer)
      → (list_containers http base s).0 ≡ ok out
      → (resp : Response) × (ls : List ListedContainer) × ((v : Client × W) × ((request_ok http base
              "GET"
              (λ c. libpod_path c "/libpod/containers/json")
              (("all", "true") ∷ [])
              ""
              ""
              v).0
            ≡ ok resp))
        × (http.decode_containers resp.body ≡ ok ls)
        × Listed ls out
  unfolding list_containers
  list_containers-Listed s = bind_rule P (ensure_version http base) _ s λ _ _.
      bind_rule P
        (request_ok http base "GET" (λ c. libpod_path c "/libpod/containers/json")
          (("all", "true") ∷ []) "" "")
        _ _
        λ resp got.
          bind_rule P (lift (http.decode_containers resp.body)) _ _
            λ ls decoded out h. (resp, ls, (_, got), decoded, sorted-Listed ls _ out h)
    where
      P : List RuntimeContainer → Client × W → Type 0
      P out _ =
          (resp : Response) × (ls : List ListedContainer) × ((v : Client × W) × ((request_ok http
                base "GET" (λ c. libpod_path c "/libpod/containers/json") (("all", "true") ∷ []) ""
                "" v).0
              ≡ ok resp))
          × (http.decode_containers resp.body ≡ ok ls)
          × Listed ls out

  -- The claims of the capabilities.
  abbrev pub Claims : PodmanCapabilities → Type 0
  Claims caps =
      (caps.quadlet_install
        ≡ (caps.quadlet_list && version_at_least caps.version quadlet_api_introduction_version))
      × (caps.quadlet_remove ≡ caps.quadlet_install)
      × (caps.native_application_install ≡ version_at_least caps.version "6.1.0")

  known-Claims :
      (vr : VersionResponse) (api : String) (listed : Bool)
      → Claims (known_capabilities vr api listed)
  unfolding known_capabilities profile_for_version
  known-Claims vr api true = (refl, refl, refl)
  known-Claims vr api false = (refl, refl, refl)

  -- What `DiscoverCapabilities` adds to a version.
  -- Podman's answer to the request for the Quadlet list, after which the capabilities are known.
  abbrev pub lists_quadlets : Client × W → Bool
  lists_quadlets s = is_answered (
      answered
        (send_request http base "GET" (λ c. libpod_path c "/libpod/quadlets/json") [] "" "" s).0)

  abbrev pub Extends : VersionResponse → Bool → PodmanCapabilities → Type 0
  Extends vr listed caps =
      (caps.quadlet_list ≡ listed)
      × (caps.version ≡ vr.version)
      × (caps.min_libpod_api_version ≡ vr.min_api_version)
      × Claims caps

  decoded_info-Extends :
      (vr : VersionResponse) (b : Bool) (r : Result HostInfo) (caps : PodmanCapabilities)
      → Extends vr b caps
      → Extends vr b (decoded_info r caps)
  unfolding with_info
  decoded_info-Extends vr b (ok i) caps e = e
  decoded_info-Extends vr b (err _) caps e = e

  informed-Extends :
      (vr : VersionResponse) (b : Bool) (o : Option Response) (caps : PodmanCapabilities)
      → Extends vr b caps
      → Extends vr b (informed http base o caps)
  informed-Extends vr b none caps e = e
  informed-Extends vr b (some resp) caps e =
      decoded_info-Extends vr b (http.decode_info resp.body) caps e

  known-Extends :
      (vr : VersionResponse) (api : String) (listed : Bool)
      → Extends vr listed (known_capabilities vr api listed)
  unfolding known_capabilities
  known-Extends vr api listed = (refl, refl, refl, known-Claims vr api listed)

  probe-Extends :
      (vr : VersionResponse) (s : Client × W) (caps : PodmanCapabilities)
      → (probe http base vr s).0 ≡ ok caps
      → Extends vr (lists_quadlets s) caps
  unfolding probe
  probe-Extends vr s caps h =
      subst (Extends vr (lists_quadlets s)) (ok-injective h)
        (informed-Extends vr (lists_quadlets s) _ _ (known-Extends vr s.0.libpod_api _))

  -- The capabilities that DiscoverCapabilities returns carry the version and the minimum API
  -- version that ensureVersion returned; they claim the Quadlet list exactly if Podman answers
  -- the request for it, sent in the state that ensureVersion left, with 200; they claim Quadlet
  -- installs exactly if they claim the list and the version has that call, removals exactly if
  -- they claim installs, and the native application install exactly if the version has it.
  pub discover_capabilities-Extends :
      (s : Client × W) (caps : PodmanCapabilities)
      → (discover_capabilities http base s).0 ≡ ok caps
      → (vr : VersionResponse) × ((ensure_version http base s).0 ≡ ok vr)
        × Extends vr (lists_quadlets (ensure_version http base s).1) caps
  unfolding discover_capabilities
  discover_capabilities-Extends s =
      bind_rule P (ensure_version http base) (probe http base) s
        λ vr got caps h. (vr, got, probe-Extends vr (ensure_version http base s).1 caps h)
    where
      P : PodmanCapabilities → Client × W → Type 0
      P caps _ =
          (vr : VersionResponse) × ((ensure_version http base s).0 ≡ ok vr)
          × Extends vr (lists_quadlets (ensure_version http base s).1) caps
