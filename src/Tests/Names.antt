-- ===== src/Tests/Names.antt =====
-- The tests on names at concrete names.
use home_server_deployer.Prelude.{◌≡◌, refl, true, false, not, ◌&&◌, [], ◌∷◌}
use home_server_deployer.Text.{contains_any}
use home_server_deployer.Names.{
  engine_safe_id, state_safe_id, catalog_safe_id, valid_name, valid_quadlet_name,
}
use home_server_deployer.Names.IdLaws.{
  engine_safe_id-eq-catalog_safe_id, state_safe_id-engine_safe_id,
}
use home_server_deployer.Names.QuadletLaws.{valid_name-eq-valid_quadlet_name}

engine_safe_id-eq-catalog_safe_id_example : engine_safe_id "my-app-2" ≡ catalog_safe_id "my-app-2"
engine_safe_id-eq-catalog_safe_id_example = engine_safe_id-eq-catalog_safe_id "my-app-2"

state_safe_id-engine_safe_id_example : state_safe_id "my-app-2" ≡ true
unfolding engine_safe_id
state_safe_id-engine_safe_id_example = state_safe_id-engine_safe_id "my-app-2" refl

valid_name-eq-valid_quadlet_name_example :
    valid_name "a\\b.container"
    ≡ (valid_quadlet_name "a\\b.container" && not (contains_any "a\\b.container" (b'\\' ∷ [])))
valid_name-eq-valid_quadlet_name_example = valid_name-eq-valid_quadlet_name "a\\b.container"

-- A backslash is what the two tests differ on.
backslash_name : valid_quadlet_name "a\\b.container" ≡ true
unfolding valid_quadlet_name
backslash_name = refl

rejected_names :
    (valid_quadlet_name "a/b.container" ≡ false) × (valid_quadlet_name "a.timer" ≡ false)
unfolding valid_quadlet_name
rejected_names = (refl, refl)
