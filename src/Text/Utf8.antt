-- ===== src/Text/Utf8.antt =====
-- The bytes of a text in UTF-8, which Go's `len` counts.
use Prim.Native.Char.{code}
use home_server_deployer.Prelude.{ℕ, ◌+◌, String, ltb, if◌then◌else◌}

unfoldable pub utf8_width : ℕ → ℕ
utf8_width c = if ltb c 0x80 then 1 else if ltb c 0x800 then 2 else if ltb c 0x10000 then 3 else 4

unfoldable pub byte_len : String → ℕ
unfolding utf8_width
byte_len String.[] = 0
byte_len (String.◌∷◌ c s) = utf8_width (code c) + byte_len s

unfoldable pub char_count : String → ℕ
char_count String.[] = 0
char_count (String.◌∷◌ c s) = 1 + char_count s
