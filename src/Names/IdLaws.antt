-- ===== src/Names/IdLaws.antt =====
-- The three tests on identifiers agree where they should.
use Prim.Native.Char.{Char, code}
use mathlib.Core.Path.{ap₂}
use text.Mathlib.TextLemmas.{cons≢nil}
use home_server_deployer.Prelude.{
  ℕ, ◌+◌, String, ◌≡◌, refl, Bool, true, false, Bool-cases, inl, inr, ◌&&◌, ◌||◌, arith, str_eq,
  ◌==◌, eq_iff, ltb, leb, if◌then◌else◌,
}
use home_server_deployer.Text.Utf8.{utf8_width, byte_len, char_count}
use home_server_deployer.Names.{
  is_alnum, is_id_char, all_id_chars, first_is_dash, engine_safe_id, state_safe_id, catalog_safe_id,
}

utf8_width-id_char : (c : ℕ) → is_id_char c ≡ true → utf8_width c ≡ 1
unfolding is_id_char utf8_width
utf8_width-id_char c h = ground arith

and-true : (a b : Bool) → (a && b) ≡ true → (a ≡ true) × (b ≡ true)
and-true a b h = ground arith

-- A text of identifier characters has one byte to a character.
byte_len-eq-char_count : (s : String) → all_id_chars s ≡ true → byte_len s ≡ char_count s
unfolding all_id_chars byte_len char_count
byte_len-eq-char_count String.[] h = refl
byte_len-eq-char_count (String.◌∷◌ c s) h =
    let (first, rest) = and-true _ _ h in
    ap₂ ◌+◌ (utf8_width-id_char (code c) first) (byte_len-eq-char_count s rest)

str_eq-cons-nil : (c : Char) (s : String) → str_eq (String.◌∷◌ c s) "" ≡ false
str_eq-cons-nil c s = elim (Bool-cases (str_eq (String.◌∷◌ c s) "")) [
  | inl same ↦ absurd (cons≢nil ((eq_iff _ _).0 same))
  | inr other ↦ other
]

is_alnum-not-dash : (c : ℕ) → is_alnum c ≡ true → (c == b'-') ≡ false
unfolding is_alnum
is_alnum-not-dash c h = ground arith

-- The two tests as one question about four values.
same_test :
    (alnum dash all : Bool) (bytes chars : ℕ)
    → (alnum ≡ true → dash ≡ false)
    → (((alnum || dash) && all) ≡ true → bytes ≡ 1 + chars)
    → (if ltb 63 bytes || dash then false else (alnum || dash) && all)
      ≡ (alnum && (all && leb chars 62))
same_test alnum dash all bytes chars apart same = ground arith

-- The engine accepts an instance ID exactly if the catalog's expression matches it.
pub engine_safe_id-eq-catalog_safe_id : (s : String) → engine_safe_id s ≡ catalog_safe_id s
unfolding engine_safe_id catalog_safe_id
engine_safe_id-eq-catalog_safe_id String.[] = refl
engine_safe_id-eq-catalog_safe_id (String.◌∷◌ c s) = rw (str_eq-cons-nil c s) (
    same_test (is_alnum (code c)) (code c == b'-') (all_id_chars s) (byte_len (String.◌∷◌ c s))
      (char_count s) (is_alnum-not-dash (code c)) (byte_len-eq-char_count (String.◌∷◌ c s)))

looser :
    (empty dash all : Bool) (bytes : ℕ)
    → (if empty || (ltb 63 bytes || dash) then false else all) ≡ true
    → (if empty || ltb 128 bytes then false else all) ≡ true
looser empty dash all bytes h = ground arith

-- The state store takes every instance ID that the engine accepts.
pub state_safe_id-engine_safe_id : (s : String) → engine_safe_id s ≡ true → state_safe_id s ≡ true
unfolding engine_safe_id state_safe_id
state_safe_id-engine_safe_id s h =
    looser (str_eq s "") (first_is_dash s) (all_id_chars s) (byte_len s) h
