-- ===== src/Text/Escape.antt =====
-- net/url: `PathEscape`, `QueryEscape` and `Values.Encode`.
use Prim.Native.Char.{Char, code}
use home_server_deployer.Prelude.{
  ℕ, ◌+◌, ◌-◌, ◌*◌, ◌/◌, ◌%◌, String, ◌<>◌, Bool, true, false, ◌&&◌, ◌||◌, List, [], ◌∷◌, leb, ltb,
  ◌==◌, if◌then◌else◌,
}
use home_server_deployer.Prelude.Sort.{sort_by}
use home_server_deployer.Text.{elem}

-- The bytes of a code point in UTF-8.
unfoldable pub utf8_bytes : ℕ → List ℕ
utf8_bytes c =
    if ltb c 0x80
    then c ∷ []
    else if ltb c 0x800
    then (0xC0 + c / 64) ∷ (0x80 + c % 64) ∷ []
    else if ltb c 0x10000
    then (0xE0 + c / 4096) ∷ (0x80 + c / 64 % 64) ∷ (0x80 + c % 64) ∷ []
    else (0xF0 + c / 262144) ∷ (0x80 + c / 4096 % 64) ∷ (0x80 + c / 64 % 64) ∷ (0x80 + c % 64) ∷ []

-- An upper-case hexadecimal digit.
unfoldable pub hex_digit : ℕ → Char
hex_digit n =
    if n == 0
    then "0"
    else if n == 1
    then "1"
    else if n == 2
    then "2"
    else if n == 3
    then "3"
    else if n == 4
    then "4"
    else if n == 5
    then "5"
    else if n == 6
    then "6"
    else if n == 7
    then "7"
    else if n == 8
    then "8"
    else if n == 9
    then "9"
    else if n == 10
    then "A"
    else if n == 11
    then "B"
    else if n == 12
    then "C"
    else if n == 13
    then "D"
    else if n == 14
    then "E"
    else "F"

-- "%XY" for each byte, in front of a text.
unfoldable pub percent_bytes : List ℕ → String → String
unfolding hex_digit
percent_bytes [] rest = rest
percent_bytes (b ∷ bs) rest =
    String.◌∷◌ "%"
      (String.◌∷◌ (hex_digit (b / 16)) (String.◌∷◌ (hex_digit (b % 16)) (percent_bytes bs rest)))

-- Letters, digits, and "-", "_", ".", "~".
unfoldable pub is_unreserved : ℕ → Bool
is_unreserved c =
    (leb b'a' c && leb c b'z')
    || ((leb b'A' c && leb c b'Z')
        || ((leb b'0' c && leb c b'9') || elem c (b'-' ∷ b'_' ∷ b'.' ∷ b'~' ∷ [])))

-- Every character that `keep` does not keep is written as its bytes.
unfoldable pub escape : (ℕ → Bool) → String → String
unfolding percent_bytes utf8_bytes
escape keep String.[] = ""
escape keep (String.◌∷◌ c s) =
    let rest = escape keep s in
    if keep (code c) then String.◌∷◌ c rest else percent_bytes (utf8_bytes (code c)) rest

-- What a segment of a path may hold besides: "$", "&", "+", ":", "=" and "@".
unfoldable pub kept_in_segment : ℕ → Bool
unfolding is_unreserved elem
kept_in_segment c = is_unreserved c || elem c (b'$' ∷ b'&' ∷ b'+' ∷ b':' ∷ b'=' ∷ b'@' ∷ [])

-- url.PathEscape
unfoldable pub path_escape : String → String
unfolding escape kept_in_segment
path_escape s = escape kept_in_segment s

-- url.QueryEscape, where a space becomes a plus sign
unfoldable pub query_escape : String → String
unfolding percent_bytes utf8_bytes is_unreserved elem
query_escape String.[] = ""
query_escape (String.◌∷◌ c s) =
    let rest = query_escape s in
    if is_unreserved (code c)
    then String.◌∷◌ c rest
    else if code c == b' '
    then String.◌∷◌ "+" rest
    else percent_bytes (utf8_bytes (code c)) rest

unfoldable pub encode_pairs : List (String × String) → String
unfolding query_escape
encode_pairs [] = ""
encode_pairs ((k, v) ∷ []) = query_escape k <> ("=" <> query_escape v)
encode_pairs ((k, v) ∷ p ∷ ps) =
    query_escape k <> ("=" <> (query_escape v <> ("&" <> encode_pairs (p ∷ ps))))

-- `Values.Encode`, for one value to a key: sorted by key
unfoldable pub encode_values : List (String × String) → String
unfolding encode_pairs sort_by home_server_deployer.Prelude.Sort.str_leb
encode_values q = encode_pairs (sort_by (λ (p : String × String). p.0) q)
