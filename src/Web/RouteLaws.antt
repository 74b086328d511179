-- ===== src/Web/RouteLaws.antt =====
-- internal/web/client.go against internal/api/server.go: the paths of the client and the routes
-- of the agent.
use text.Mathlib.TextLemmas.{append_assoc}
use home_server_deployer.Prelude.{
  String, ◌<>◌, ◌≡◌, refl, ap, ◌∙◌, false, some, [], ◌∷◌, ◌++◌, str_eq, eq_iff, arith,
}
use home_server_deployer.Text.{split, contains_any}
use home_server_deployer.Text.SplitLaws.{split-append, split-eq-singleton}
use home_server_deployer.Text.Escape.{path_escape}
use home_server_deployer.Text.EscapeLaws.{path_unescape-path_escape, path_escape-injective}
use home_server_deployer.Text.Segments.{no_slash_in_escape}
use home_server_deployer.Api.Routes.{post_execute, post_action, get_logs, get_docs, route}
use home_server_deployer.Web.Agent.{execute_path, action_path, agent_logs_path, docs_path}

-- Not a segment that makes a path unclean.
abbrev IsCleanName : String → Type 0
IsCleanName s = (str_eq s "" ≡ false) × (str_eq s "." ≡ false) × (str_eq s ".." ≡ false)

-- What can stand for a wildcard of a path: `ServeMux` redirects or refuses the others.
abbrev pub IsSegmentName : String → Type 0
IsSegmentName s =
    (str_eq s "" ≡ false)
    × (str_eq s "." ≡ false)
    × (str_eq s ".." ≡ false)
    × (str_eq s "/" ≡ false)

escaped_dots : (path_escape "" ≡ "") × (path_escape "." ≡ ".") × (path_escape ".." ≡ "..")
unfolding path_escape
escaped_dots = (refl, refl, refl)

escaped_name : (s : String) → IsSegmentName s → IsCleanName (path_escape s)
escaped_name s (empty, dot, dots, slash) = (
  ground
      (arith, escaped_dots.0, eq_iff (path_escape s) "", eq_iff s "", path_escape-injective s ""),
  ground (
    arith,
    escaped_dots.1,
    eq_iff (path_escape s) ".",
    eq_iff s ".",
    path_escape-injective s ".",
  ),
  ground (
    arith,
    escaped_dots.2,
    eq_iff (path_escape s) "..",
    eq_iff s "..",
    path_escape-injective s "..",
  ),
)

-- Two segments below a path.
split-two :
    (pre e rest : String)
    → contains_any e (b'/' ∷ []) ≡ false
    → split b'/' (pre <> ("/" <> (e <> ("/" <> rest)))) ≡ split b'/' pre ++ (e ∷ split b'/' rest)
split-two pre e rest h =
    rw (split-append pre (e <> ("/" <> rest)), split-append e rest, split-eq-singleton b'/' e h)
      refl

plans_prefix : split b'/' "/v1/plans" ≡ "" ∷ "v1" ∷ "plans" ∷ []
unfolding split
plans_prefix = refl

instances_prefix : split b'/' "/v1/instances" ≡ "" ∷ "v1" ∷ "instances" ∷ []
unfolding split
instances_prefix = refl

word_tails :
    (split b'/' "execute" ≡ "execute" ∷ [])
    × (split b'/' "logs" ≡ "logs" ∷ [])
    × (split b'/' "actions" ≡ "actions" ∷ [])
    × (split b'/' "docs" ≡ "docs" ∷ [])
unfolding split
word_tails = (refl, refl, refl, refl)

execute_segments :
    (id : String)
    → split b'/' (execute_path id) ≡ "" ∷ "v1" ∷ "plans" ∷ path_escape id ∷ "execute" ∷ []
unfolding execute_path
execute_segments id =
    ap (split b'/') (append_assoc "/v1/plans" "/" (path_escape id <> "/execute"))
    ∙ (split-two "/v1/plans" (path_escape id) "execute" (no_slash_in_escape id)
        ∙ rw (plans_prefix, word_tails.0) refl)

logs_segments :
    (id : String)
    → split b'/' (agent_logs_path id) ≡ "" ∷ "v1" ∷ "instances" ∷ path_escape id ∷ "logs" ∷ []
unfolding agent_logs_path
logs_segments id =
    ap (split b'/') (append_assoc "/v1/instances" "/" (path_escape id <> "/logs"))
    ∙ (split-two "/v1/instances" (path_escape id) "logs" (no_slash_in_escape id)
        ∙ rw (instances_prefix, word_tails.1) refl)

-- A path below an instance with a word and a name.
below_instance :
    (id word name : String)
    → split b'/' word ≡ word ∷ []
    → split b'/' (
        "/v1/instances"
        <> ("/" <> (path_escape id <> ("/" <> (word <> ("/" <> path_escape name))))))
      ≡ "" ∷ "v1" ∷ "instances" ∷ path_escape id ∷ word ∷ path_escape name ∷ []
below_instance id word name plain =
    split-two "/v1/instances" (path_escape id) (word <> ("/" <> path_escape name))
      (no_slash_in_escape id)
    ∙ rw
        (
          instances_prefix,
          split-append word (path_escape name),
          plain,
          split-eq-singleton b'/' (path_escape name) (no_slash_in_escape name),
        )
        refl

action_segments :
    (id action : String)
    → split b'/' (action_path id action)
      ≡ "" ∷ "v1" ∷ "instances" ∷ path_escape id ∷ "actions" ∷ path_escape action ∷ []
unfolding action_path
action_segments id action =
    ap (split b'/') (
      append_assoc "/v1/instances" "/" (path_escape id <> ("/actions/" <> path_escape action))
      ∙ ap (λ r. "/v1/instances" <> ("/" <> (path_escape id <> r)))
          (append_assoc "/actions" "/" (path_escape action)
            ∙ append_assoc "/" "actions" ("/" <> path_escape action)))
    ∙ below_instance id "actions" action word_tails.2

docs_segments :
    (id name : String)
    → split b'/' (docs_path id name)
      ≡ "" ∷ "v1" ∷ "instances" ∷ path_escape id ∷ "docs" ∷ path_escape name ∷ []
unfolding docs_path
docs_segments id name =
    ap (split b'/') (
      append_assoc "/v1/instances" "/" (path_escape id <> ("/docs/" <> path_escape name))
      ∙ ap (λ r. "/v1/instances" <> ("/" <> (path_escape id <> r)))
          (append_assoc "/docs" "/" (path_escape name)
            ∙ append_assoc "/" "docs" ("/" <> path_escape name)))
    ∙ below_instance id "docs" name word_tails.3

-- The routes of paths whose segments are known.
pub execute_routed :
    (id : String) → IsSegmentName id → route "POST" (execute_path id) ≡ some (post_execute id)
unfolding route
execute_routed id h =
    let (a, b, c) = escaped_name id h in
    rw (execute_segments id, a, b, c, path_unescape-path_escape id, h.3) refl

logs_routed :
    (id : String) → IsSegmentName id → route "GET" (agent_logs_path id) ≡ some (get_logs id)
unfolding route
logs_routed id h =
    let (a, b, c) = escaped_name id h in
    rw (logs_segments id, a, b, c, path_unescape-path_escape id, h.3) refl

action_routed :
    (id action : String)
    → IsSegmentName id
    → IsSegmentName action
    → route "POST" (action_path id action) ≡ some (post_action id action)
unfolding route
action_routed id action h k =
    let (a, b, c) = escaped_name id h in
    let (a', b', c') = escaped_name action k in
    rw
      (
        action_segments id action,
        a,
        b,
        c,
        a',
        b',
        c',
        path_unescape-path_escape id,
        path_unescape-path_escape action,
        h.3,
        k.3,
      )
      refl

docs_routed :
    (id name : String)
    → IsSegmentName id
    → IsSegmentName name
    → route "GET" (docs_path id name) ≡ some (get_docs id name)
unfolding route
docs_routed id name h k =
    let (a, b, c) = escaped_name id h in
    let (a', b', c') = escaped_name name k in
    rw
      (
        docs_segments id name,
        a,
        b,
        c,
        a',
        b',
        c',
        path_unescape-path_escape id,
        path_unescape-path_escape name,
        h.3,
        k.3,
      )
      refl

-- For an ID and a second name that are not empty, a dot, a double dot or a slash: the API routes
-- the paths that the web client builds to execute, act, read logs and read a document to the
-- handlers for these, and the handlers get the ID and the name that the client was given.
pub paths-route :
    (id word : String)
    → IsSegmentName id
    → IsSegmentName word
    → (route "POST" (execute_path id) ≡ some (post_execute id))
      × (route "POST" (action_path id word) ≡ some (post_action id word))
      × (route "GET" (agent_logs_path id) ≡ some (get_logs id))
      × (route "GET" (docs_path id word) ≡ some (get_docs id word))
paths-route id word h k =
    (execute_routed id h, action_routed id word h k, logs_routed id h, docs_routed id word h k)
