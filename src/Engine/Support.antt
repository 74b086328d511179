-- ===== src/Engine/Support.antt =====
-- internal/engine/transaction.go: the helpers at its end, and the calls that several parts share.
use Prim.Native.Char.{Char}
use home_server_deployer.Prelude.{
  ℕ, zero, suc, ◌/◌, ◌%◌, String, Option, none, some, List, [], ◌∷◌, str_eq, if◌then◌else◌,
}
use home_server_deployer.Prelude.Dict.{Dict, lookup, insert, keys, values}
use home_server_deployer.Prelude.Sort.{sort_strings}
use home_server_deployer.Text.{contains_text}
use home_server_deployer.Model.{Quadlet, ResourceState, RenderedResource, Plan}
use home_server_deployer.Error.{verification_failed}
use home_server_deployer.Act.{Act, pure, raise, ◌>>=◌}
use home_server_deployer.Services.{Platform, Backend, Manager}

abbrev pub nth : ℕ → List Char → Char
nth i [] = "0"
nth zero (c ∷ cs) = c
nth (suc i) (c ∷ cs) = nth i cs

abbrev pub hex_digits : List Char
hex_digits =
    "0" ∷ "1" ∷ "2" ∷ "3" ∷ "4" ∷ "5" ∷ "6" ∷ "7" ∷ "8" ∷ "9" ∷ "a" ∷ "b" ∷ "c" ∷ "d" ∷ "e" ∷ "f"
    ∷ []

-- hex.EncodeToString
unfoldable pub hex : List ℕ → String
hex [] = ""
hex (b ∷ bs) = String.◌∷◌ (nth (b / 16) hex_digits) (String.◌∷◌ (nth (b % 16) hex_digits) (hex bs))

unfoldable pub sorted_resource_names : Dict ResourceState → List String
unfolding keys sort_strings
sorted_resource_names m = sort_strings (keys m)

unfoldable pub sorted_string_map_keys : Dict String → List String
unfolding keys sort_strings
sorted_string_map_keys m = sort_strings (keys m)

unfoldable pub units_of : List ResourceState → List String
units_of [] = []
units_of (r ∷ rs) =
    let rest = units_of rs in if str_eq r.unit_name "" then rest else r.unit_name ∷ rest

unfoldable pub sorted_units : Dict ResourceState → List String
unfolding units_of values sort_strings
sorted_units m = sort_strings (units_of (values m))

unfoldable pub index_quadlets : List Quadlet → Dict Quadlet → Dict Quadlet
unfolding insert
index_quadlets [] m = m
index_quadlets (q ∷ qs) m = index_quadlets qs (insert q.name q m)

-- `q, ok := qm[name]` with the test `!ok || q.UnitName == ""`
unfoldable pub unit_for : Dict Quadlet → String → Option String
unfolding lookup
unit_for qm name = elim (lookup name qm) [
  | none ↦ none
  | some q ↦ if str_eq q.unit_name "" then none else some q.unit_name
]

-- `qm[name].UnitName`, which is empty for a missing key
unfoldable pub unit_name_of : Dict Quadlet → String → String
unfolding lookup
unit_name_of qm name = elim (lookup name qm) [ none ↦ "" | some q ↦ q.unit_name ]

module _ {W : Type 0} where
  unfoldable pub hash : Platform W → String → String
  unfolding hex
  hash platform s = hex (platform.sha256 s)

  unfoldable pub plan_digest : Platform W → Plan → String
  unfolding hash
  plan_digest platform p = hash platform (platform.marshal_plan (record p { digest = "" }))

  unfoldable pub new_id : Platform W → Act W String
  unfolding hex
  new_id platform = do b ← platform.random_bytes 12; pure (hex b)

  unfoldable pub quadlet_map : Backend W → Act W (Dict Quadlet)
  unfolding index_quadlets
  quadlet_map podman = do qs ← podman.list_quadlets; pure (index_quadlets qs [])

  unfoldable pub verify_unit_active : Manager W → String → Act W (Unit {0})
  unfolding contains_text
  verify_unit_active systemd unit = do
    status ← systemd.unit_status unit
    if contains_text status "/active/" then pure tt else raise (verification_failed unit status)

  -- The loop of `captureResources` over the rendered resources.
  unfoldable pub capture_each :
      Platform W
      → Backend W
      → Dict Quadlet
      → List RenderedResource
      → Dict ResourceState
      → Act W (Dict ResourceState)
  unfolding unit_name_of insert hash
  capture_each platform podman qm [] resources = pure resources
  capture_each platform podman qm (r ∷ rs) resources = do
    s ← podman.get_quadlet r.name
    capture_each platform podman qm rs (
        insert r.name
          (record {
            name = r.name;
            unit_name = unit_name_of qm r.name;
            sha256 = hash platform s;
            source = s;
          })
          resources)

  unfoldable pub capture_resources :
      Platform W → Backend W → List RenderedResource → Act W (Dict ResourceState)
  unfolding quadlet_map capture_each
  capture_resources platform podman rendered = do
    qm ← quadlet_map podman
    capture_each platform podman qm rendered []
