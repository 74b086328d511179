-- ===== src/Web/Forms.antt =====
-- internal/web/server.go: the forms, and the request that a form makes.
use home_server_deployer.Prelude.{String, Bool, true, false, Option, none, some, List, [], ◌∷◌}
use home_server_deployer.Prelude.Dict.{Dict, lookup, insert}
use home_server_deployer.Model.{PlanRequest}
use home_server_deployer.Text.{has_prefix, trim_prefix}

-- What `ParseForm` reads: `post_form` from the body, and `form`, which `FormValue` reads, from the
-- query as well.
pub record Form : Type 0 where
  pub post_form : Dict (List String)
  pub form : Dict (List String)

-- `vs[0]`, where there is one
abbrev pub head : List String → Option String
head [] = none
head (v ∷ _) = some v

-- `FormValue`
abbrev pub value_or_empty : Option (List String) → String
value_or_empty none = ""
value_or_empty (some []) = ""
value_or_empty (some (v ∷ _)) = v

unfoldable pub form_value : Form → String → String
unfolding lookup
form_value f k = value_or_empty (lookup k f.form)

abbrev pub insert_if : Bool → String → Option String → Dict String → Dict String
insert_if true k (some v) m = insert k v m
insert_if true k none m = m
insert_if false k v m = m

-- The parameters of a plan: the form's values with the prefix "param.".
unfoldable pub parameters_of : Dict (List String) → Dict String → Dict String
unfolding has_prefix trim_prefix insert
parameters_of [] m = m
parameters_of ((k, vs) ∷ rest) m =
    parameters_of rest (insert_if (has_prefix k "param.") (trim_prefix k "param.") (head vs) m)

unfoldable pub plan_request : Form → PlanRequest
unfolding form_value parameters_of
plan_request f = record {
  operation = form_value f "operation";
  app_id = form_value f "appId";
  instance_id = form_value f "instanceId";
  parameters = parameters_of f.post_form [];
}
