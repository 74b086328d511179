-- ===== src/Api/Status.antt =====
-- internal/api/server.go: `statusFor`.
use Prim.Native.Char.{Char, code}
use home_server_deployer.Prelude.{
  ℕ, ◌+◌, String, Bool, true, false, ◌&&◌, List, [], ◌∷◌, leb, ◌==◌, if◌then◌else◌,
}
use home_server_deployer.Text.{contains_text}
use home_server_deployer.Text.Unescape.{char_of}

-- unicode.ToLower, as far as it gives an ASCII letter: the capitals, the dotted I and the kelvin
-- sign. All texts that `statusFor` looks for are ASCII.
unfoldable pub lower : Char → Char
unfolding char_of
lower c =
    if leb b'A' (code c) && leb (code c) b'Z'
    then char_of (code c + 32)
    else if code c == 0x130
    then "i"
    else if code c == 0x212A
    then "k"
    else c

-- strings.ToLower
unfoldable pub to_lower : String → String
unfolding lower
to_lower String.[] = ""
to_lower (String.◌∷◌ c s) = String.◌∷◌ (lower c) (to_lower s)

unfoldable pub contains_one : List String → String → Bool
unfolding contains_text
contains_one [] s = false
contains_one (t ∷ ts) s = let rest = contains_one ts s in if contains_text s t then true else rest

abbrev pub not_found_texts : List String
not_found_texts = "not managed" ∷ "unknown catalog" ∷ "no such file" ∷ []

abbrev pub conflict_texts : List String
conflict_texts =
    "invalid" ∷ "unsupported" ∷ "required" ∷ "drift" ∷ "refusing" ∷ "already exists" ∷ "expired"
    ∷ []

-- `statusFor`, of the text of the error
unfoldable pub status_for : String → ℕ
unfolding contains_one to_lower
status_for text =
    let s = to_lower text in
    if contains_one not_found_texts s
    then 404
    else if contains_one conflict_texts s
    then 409
    else 500
