-- ===== src/Names.antt =====
-- The tests on names: identifiers in internal/engine, internal/state and internal/catalog, Quadlet
-- names in internal/catalog and internal/podman, unit names in internal/systemd.
pub mod IdLaws
pub mod QuadletLaws
use Prim.Native.Char.{code}
use home_server_deployer.Prelude.{
  ℕ, String, Bool, true, false, not, ◌&&◌, ◌||◌, List, [], ◌∷◌, str_eq, ltb, leb, ◌==◌,
  if◌then◌else◌,
}
use home_server_deployer.Text.{has_suffix, has_suffix_of, contains_any, elem}
use home_server_deployer.Text.Utf8.{byte_len, char_count}
use home_server_deployer.Paths.Filepath.{base}

-- a to z and 0 to 9
unfoldable pub is_alnum : ℕ → Bool
is_alnum c = (leb b'a' c && leb c b'z') || (leb b'0' c && leb c b'9')

-- a to z, 0 to 9 and the dash
unfoldable pub is_id_char : ℕ → Bool
unfolding is_alnum
is_id_char c = is_alnum c || c == b'-'

unfoldable pub all_id_chars : String → Bool
unfolding is_id_char
all_id_chars String.[] = true
all_id_chars (String.◌∷◌ c s) = is_id_char (code c) && all_id_chars s

abbrev pub first_is_dash : String → Bool
first_is_dash String.[] = false
first_is_dash (String.◌∷◌ c s) = code c == b'-'

-- internal/engine: safeID
unfoldable pub engine_safe_id : String → Bool
unfolding byte_len all_id_chars
engine_safe_id s =
    if str_eq s "" || (ltb 63 (byte_len s) || first_is_dash s) then false else all_id_chars s

-- internal/state: safeID
unfoldable pub state_safe_id : String → Bool
unfolding byte_len all_id_chars
state_safe_id s = if str_eq s "" || ltb 128 (byte_len s) then false else all_id_chars s

-- internal/catalog: safeID, the expression ^[a-z0-9][a-z0-9-]{0,62}$
unfoldable pub catalog_safe_id : String → Bool
unfolding is_alnum all_id_chars char_count
catalog_safe_id String.[] = false
catalog_safe_id (String.◌∷◌ c s) = is_alnum (code c) && (all_id_chars s && leb (char_count s) 62)

abbrev pub quadlet_extensions : List String
quadlet_extensions =
    ".container" ∷ ".volume" ∷ ".network" ∷ ".image" ∷ ".build" ∷ ".pod" ∷ ".artifact" ∷ []

-- internal/catalog: validQuadletName
unfoldable pub valid_quadlet_name : String → Bool
unfolding base contains_any has_suffix_of
valid_quadlet_name name =
    if not (str_eq (base name) name) || contains_any name (b'\r' ∷ b'\n' ∷ 0 ∷ [])
    then false
    else has_suffix_of quadlet_extensions name

-- internal/podman: validName
unfoldable pub valid_name : String → Bool
unfolding base contains_any has_suffix_of
valid_name name =
    if str_eq name ""
      || (not (str_eq (base name) name)
          || contains_any name (b'/' ∷ b'\\' ∷ b'\r' ∷ b'\n' ∷ 0 ∷ []))
    then false
    else has_suffix_of quadlet_extensions name

-- internal/systemd: validUnit
unfoldable pub valid_unit : String → Bool
unfolding has_suffix contains_any
valid_unit name =
    has_suffix name ".service" && not (contains_any name (b'/' ∷ b'\\' ∷ b'\r' ∷ b'\n' ∷ 0 ∷ []))
