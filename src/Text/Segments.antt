-- ===== src/Text/Segments.antt =====
-- Which characters `url.PathEscape` leaves out of a segment.
use home_server_deployer.Prelude.{String, ◌≡◌, refl, false, [], ◌∷◌, arith}
use home_server_deployer.Text.{contains_any}
use home_server_deployer.Text.Escape.{path_escape}
use home_server_deployer.Text.EscapeLaws.{path_escape-contains_any}

contains_any-of :
    (s : String)
    → contains_any s (b'/' ∷ b'?' ∷ b'#' ∷ []) ≡ false
    → (contains_any s (b'/' ∷ []) ≡ false) × (contains_any s (b'?' ∷ []) ≡ false)
unfolding contains_any
contains_any-of String.[] h = (refl, refl)
contains_any-of (String.◌∷◌ d s) h =
    (ground (arith, contains_any-of s), ground (arith, contains_any-of s))

pub no_slash_in_escape : (s : String) → contains_any (path_escape s) (b'/' ∷ []) ≡ false
no_slash_in_escape s = (contains_any-of (path_escape s) (path_escape-contains_any s)).0

pub no_question_in_escape : (s : String) → contains_any (path_escape s) (b'?' ∷ []) ≡ false
no_question_in_escape s = (contains_any-of (path_escape s) (path_escape-contains_any s)).1
