-- ===== src/Tests/Versions.antt =====
-- The laws on versions at concrete versions.
use home_server_deployer.Prelude.{◌≡◌, refl, ◌⊎◌, true}
use home_server_deployer.Prelude.Int.{pos}
use home_server_deployer.Podman.Version.{
  Semver, parse_semver, version_at_least, is_supported_version, profile_for_version,
}
use home_server_deployer.Podman.VersionLaws.{version_at_least-total, supported-profile}

pre_release :
    parse_semver " v5.9.0-dev.1 "
    ≡ home_server_deployer.Prelude.some (record { major = pos 5; minor = pos 9; patch = pos 0 })
unfolding parse_semver
pre_release = refl

abbrev floor_version : Semver
floor_version = record { major = pos 5; minor = pos 8; patch = pos 2 }

version_at_least-total_example :
    ((version_at_least "5.8.2" "v5.8.2" ≡ true) ⊎ (version_at_least "v5.8.2" "5.8.2" ≡ true))
    × (version_at_least "5.8.2" "v5.8.2" ≡ true
        → version_at_least "v5.8.2" "5.8.2" ≡ true
        → floor_version ≡ floor_version)
unfolding parse_semver
version_at_least-total_example = version_at_least-total "5.8.2" "v5.8.2" refl refl

supported-profile_example :
    (is_supported_version "5.8.4" ≡ true
      → ((profile_for_version "5.8.4").quadlet_print ≡ true)
        × ((profile_for_version "5.8.4").quadlet_install ≡ true)
        × ((profile_for_version "5.8.4").quadlet_remove ≡ true))
    × ((profile_for_version "5.8.4").native_application_install ≡ true
        → is_supported_version "5.8.4" ≡ true)
supported-profile_example = supported-profile "5.8.4"
