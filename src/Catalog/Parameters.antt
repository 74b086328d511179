-- ===== src/Catalog/Parameters.antt =====
-- internal/catalog/catalog.go: `ResolveParameters` and `validateInput`.
use home_server_deployer.Prelude.{
  String, Bool, true, false, not, ◌&&◌, ◌||◌, Option, none, some, List, [], ◌∷◌, str_eq, ltb,
  if◌then◌else◌,
}
use home_server_deployer.Prelude.Dict.{Dict, lookup, insert}
use home_server_deployer.Prelude.Int.{ℤ, pos, int_ltb}
use home_server_deployer.Model.{InputSpec, Catalog}
use home_server_deployer.Error.{
  Error, and_then, bad_path, bad_port, bad_integer, too_long, unknown_parameter, control_characters,
  required_parameter,
}
use home_server_deployer.Act.{Result, ok, err, unless}
use home_server_deployer.Text.{has_prefix, contains_text, contains_any}
use home_server_deployer.Strconv.{atoi}
use home_server_deployer.Paths.Filepath.{is_abs, clean}
use home_server_deployer.Text.Utf8.{byte_len}

unfoldable pub is_bad_path : String → Bool
unfolding is_abs clean has_prefix contains_text
is_bad_path v =
    str_eq v ""
    || (is_abs v
        || (not (str_eq (clean v) v)
            || (str_eq v "." || (has_prefix v "../" || contains_text v "/../"))))

abbrev pub is_port : Option ℤ → Bool
is_port none = false
is_port (some n) = not (int_ltb n (pos 1) || int_ltb (pos 65535) n)

abbrev pub is_number : Option ℤ → Bool
is_number none = false
is_number (some _) = true

-- `validateInput`: no error is `none`.
unfoldable pub validate_input : InputSpec → String → Option Error
unfolding is_bad_path atoi byte_len
validate_input input v =
    if str_eq input.type "path"
    then (if is_bad_path v then some (bad_path input.name) else none)
    else if str_eq input.type "port"
    then (if is_port (atoi v) then none else some (bad_port input.name))
    else if str_eq input.type "integer"
    then (if is_number (atoi v) then none else some (bad_integer input.name))
    else if str_eq input.type "string"
    then (if ltb 4096 (byte_len v) then some (too_long input.name) else none)
    else none

-- The first loop: the inputs by name, and their defaults.
unfoldable pub known_inputs : List InputSpec → Dict InputSpec → Dict InputSpec
unfolding insert
known_inputs [] known = known
known_inputs (i ∷ is) known = known_inputs is (insert i.name i known)

unfoldable pub defaults : List InputSpec → Dict String → Dict String
unfolding insert
defaults [] out = out
defaults (i ∷ is) out = defaults is (insert i.name i.default out)

abbrev pub check_known : Option InputSpec → String → String → Option Error
check_known none k v = some (unknown_parameter k)
check_known (some input) k v =
    if contains_any v (b'\r' ∷ b'\n' ∷ 0 ∷ [])
    then some (control_characters k)
    else validate_input input v

-- One round of the second loop: what is wrong with a supplied value.
unfoldable pub check_supplied : Dict InputSpec → String → String → Option Error
unfolding lookup validate_input contains_any
check_supplied known k v = check_known (lookup k known) k v

-- The second loop, over the supplied values.
unfoldable pub supply : Dict InputSpec → Dict String → Dict String → Result (Dict String)
unfolding check_supplied insert
supply known [] out = ok out
supply known ((k, v) ∷ supplied) out =
    let later = supply known supplied (insert k v out) in unless (check_supplied known k v) later

-- `out[name]`
unfoldable pub value_of : Dict String → String → String
unfolding lookup
value_of out name = elim (lookup name out) [ none ↦ "" | some v ↦ v ]

-- One round of the third loop.
unfoldable pub check_resolved : InputSpec → String → Option Error
unfolding validate_input
check_resolved input v =
    if input.required && str_eq v ""
    then some (required_parameter input.name)
    else if not (str_eq v "")
    then validate_input input v
    else none

-- The third loop, over the inputs.
unfoldable pub check_all : List InputSpec → Dict String → Option Error
unfolding check_resolved value_of
check_all [] out = none
check_all (i ∷ is) out =
    let later = check_all is out in and_then (check_resolved i (value_of out i.name)) later

abbrev pub checked : List InputSpec → Result (Dict String) → Result (Dict String)
checked is (err e) = err e
checked is (ok out) = unless (check_all is out) (ok out)

unfoldable pub resolve_parameters : Catalog → Dict String → Result (Dict String)
unfolding known_inputs defaults supply check_all
resolve_parameters app supplied =
    checked app.spec.inputs
      (supply (known_inputs app.spec.inputs []) supplied (defaults app.spec.inputs []))
