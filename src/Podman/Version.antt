-- ===== src/Podman/Version.antt =====
-- internal/podman/podman.go: versions, the product's floor and the API profiles.
use home_server_deployer.Prelude.{
  String, Bool, false, not, Option, none, some, List, [], ◌∷◌, if◌then◌else◌,
}
use home_server_deployer.Prelude.Int.{ℤ, pos, int_ltb, int_eq}
use home_server_deployer.Text.{trim_prefix, split, trim_space}
use home_server_deployer.Strconv.{atoi}

abbrev pub supported_minimum_version : String
supported_minimum_version = "5.8.2"

abbrev pub quadlet_api_introduction_version : String
quadlet_api_introduction_version = "5.8.0"

pub record Semver : Type 0 where
  pub major : ℤ
  pub minor : ℤ
  pub patch : ℤ

abbrev pub head_or_empty : List String → String
head_or_empty [] = ""
head_or_empty (s ∷ _) = s

-- `strings.SplitN(v, "-", 2)[0]`
abbrev pub before_dash : String → String
before_dash s = head_or_empty (split b'-' s)

abbrev pub semver3 : Option ℤ → Option ℤ → Option ℤ → Option Semver
semver3 (some a) (some b) (some c) = some (record { major = a; minor = b; patch = c })
semver3 _ _ _ = none

-- Fewer than two parts are refused, a missing third part is 0, a fourth is not read.
unfoldable pub semver_of_parts : List String → Option Semver
unfolding atoi
semver_of_parts [] = none
semver_of_parts (a ∷ []) = none
semver_of_parts (a ∷ b ∷ []) = semver3 (atoi a) (atoi b) (some (pos 0))
semver_of_parts (a ∷ b ∷ c ∷ _) = semver3 (atoi a) (atoi b) (atoi c)

unfoldable pub parse_semver : String → Option Semver
unfolding semver_of_parts split trim_prefix trim_space
parse_semver v = semver_of_parts (split b'.' (before_dash (trim_prefix (trim_space v) "v")))

unfoldable pub greater_or_equal : Semver → Semver → Bool
greater_or_equal v m =
    if not (int_eq v.major m.major)
    then int_ltb m.major v.major
    else if not (int_eq v.minor m.minor)
    then int_ltb m.minor v.minor
    else not (int_ltb v.patch m.patch)

abbrev pub at_least : Option Semver → Option Semver → Bool
at_least (some v) (some m) = greater_or_equal v m
at_least _ _ = false

unfoldable pub version_at_least : String → String → Bool
unfolding parse_semver greater_or_equal
version_at_least v minimum = at_least (parse_semver v) (parse_semver minimum)

unfoldable pub is_supported_version : String → Bool
unfolding version_at_least
is_supported_version v = version_at_least v supported_minimum_version

pub record CompatibilityProfile : Type 0 where
  pub quadlet_print : Bool
  pub quadlet_install : Bool
  pub quadlet_remove : Bool
  pub native_application_install : Bool

unfoldable pub profile_for_version : String → CompatibilityProfile
unfolding version_at_least
profile_for_version v =
    let quadlets = version_at_least v quadlet_api_introduction_version in
    record {
      quadlet_print = quadlets;
      quadlet_install = quadlets;
      quadlet_remove = quadlets;
      native_application_install = version_at_least v "6.1.0";
    }
