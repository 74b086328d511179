-- ===== src/Podman/VersionLaws.antt =====
-- The order on versions, and what the product's floor promises about the API.
use home_server_deployer.Prelude.{String, ◌≡◌, refl, ◌⊎◌, true, Option, none, some, arith}
use home_server_deployer.Podman.Version.{
  Semver, greater_or_equal, parse_semver, at_least, version_at_least, is_supported_version,
  profile_for_version, supported_minimum_version, quadlet_api_introduction_version,
}

greater_or_equal_trans :
    (a b c : Semver)
    → greater_or_equal a b ≡ true
    → greater_or_equal b c ≡ true
    → greater_or_equal a c ≡ true
unfolding greater_or_equal
greater_or_equal_trans a b c p q = ground arith

at_least_trans :
    (a b c : Option Semver) → at_least a b ≡ true → at_least b c ≡ true → at_least a c ≡ true
at_least_trans (some a) (some b) (some c) p q = greater_or_equal_trans a b c p q
at_least_trans (some a) (some b) none p q = cc
at_least_trans (some a) none c p q = cc
at_least_trans none b c p q = cc

-- Transitivity of the order.
version_at_least_trans :
    (a b c : String)
    → version_at_least a b ≡ true
    → version_at_least b c ≡ true
    → version_at_least a c ≡ true
unfolding version_at_least
version_at_least_trans a b c = at_least_trans (parse_semver a) (parse_semver b) (parse_semver c)

greater_or_equal-total :
    (v m : Semver) → (greater_or_equal v m ≡ true) ⊎ (greater_or_equal m v ≡ true)
unfolding greater_or_equal
greater_or_equal-total v m = ground arith

greater_or_equal_antisymm :
    (v m : Semver) → greater_or_equal v m ≡ true → greater_or_equal m v ≡ true → v ≡ m
unfolding greater_or_equal
greater_or_equal_antisymm v m p q = ground arith

at_least-total :
    (o q : Option Semver) (v m : Semver)
    → o ≡ some v
    → q ≡ some m
    → ((at_least o q ≡ true) ⊎ (at_least q o ≡ true))
      × (at_least o q ≡ true → at_least q o ≡ true → v ≡ m)
at_least-total (some v') (some m') v m p q =
    let p' : v' ≡ v = cc in
    let q' : m' ≡ m = cc in rw (p', q') (greater_or_equal-total v m, greater_or_equal_antisymm v m)
at_least-total none q v m p r = cc
at_least-total (some v') none v m p r = cc

-- Of two versions that parse, one is at least as high as the other, and if each is, their three
-- numbers are equal.
pub version_at_least-total :
    (a b : String) {v m : Semver}
    → parse_semver a ≡ some v
    → parse_semver b ≡ some m
    → ((version_at_least a b ≡ true) ⊎ (version_at_least b a ≡ true))
      × (version_at_least a b ≡ true → version_at_least b a ≡ true → v ≡ m)
unfolding version_at_least
version_at_least-total a b {v} {m} p q = at_least-total (parse_semver a) (parse_semver b) v m p q

floor-introduction :
    version_at_least supported_minimum_version quadlet_api_introduction_version ≡ true
unfolding version_at_least
floor-introduction = refl

native-floor : version_at_least "6.1.0" supported_minimum_version ≡ true
unfolding version_at_least
native-floor = refl

-- Every version that the product supports has the Quadlet calls that a transaction makes, and
-- every version with the native application install is one that the product supports.
pub supported-profile :
    (v : String)
    → (is_supported_version v ≡ true
        → ((profile_for_version v).quadlet_print ≡ true)
          × ((profile_for_version v).quadlet_install ≡ true)
          × ((profile_for_version v).quadlet_remove ≡ true))
      × ((profile_for_version v).native_application_install ≡ true → is_supported_version v ≡ true)
unfolding is_supported_version profile_for_version
supported-profile v = (
  λ s.
      let api =
        version_at_least_trans v supported_minimum_version quadlet_api_introduction_version s
          floor-introduction in
      (api, api, api),
  λ n. version_at_least_trans v "6.1.0" supported_minimum_version n native-floor,
)
