-- ===== src/Text/EscapeLaws.antt =====
-- What a server reads from a path that `url.PathEscape` has written.
use Prim.Native.Char.{Char, char, code}
use Prim.Native.Nat.{compare, Ordering}
use text.Mathlib.TextEquality.{Char-path}
use text.Mathlib.TextLemmas.{cons-eq-cons}
use home_server_deployer.Prelude.{
  ℕ, zero, suc, ◌/◌, ◌%◌, ◌<◌, String, ◌≡◌, refl, sym, ap, ◌∙◌, ==_iff, Bool, true, false, not,
  ◌&&◌, List, [], ◌∷◌, ◌++◌, ltb, ◌==◌, codes, All, Bool-cases, inl, inr, arith,
}
use home_server_deployer.Text.Unescape.{
  hex_value, unpercent, decode_utf8, Scalar, Scalar-cases, char_if, char_of, text_of, path_unescape,
}
use home_server_deployer.Text.{elem, contains_any}
use home_server_deployer.Text.Escape.{
  utf8_bytes, hex_digit, percent_bytes, kept_in_segment, escape, path_escape,
}

decode-utf8_bytes :
    (c : ℕ) (rest : List ℕ) → decode_utf8 0 0 (utf8_bytes c ++ rest) ≡ c ∷ decode_utf8 0 0 rest
unfolding decode_utf8 utf8_bytes
decode-utf8_bytes c rest = ground arith

code_bound : (c : Char) → code c < 1114112
code_bound (char n p) =
    elim (Scalar-cases (compare n 55296) (compare 57343 n) (compare n 1114112) p) [
      | inl low ↦ ground arith
      | inr high ↦ ground arith
    ]

-- A test that each of the numbers below a bound passes.
unfoldable holds_below : (ℕ → Bool) → ℕ → Bool
holds_below t zero = true
holds_below t (suc k) = t k && holds_below t k

holds_below_at : (t : ℕ → Bool) (k : ℕ) → holds_below t k ≡ true → (n : ℕ) → n < k → t n ≡ true
unfolding holds_below
holds_below_at t zero p n h = ground arith
holds_below_at t (suc k) p n h = elim (Bool-cases (n == k)) [
  | inl here ↦ rw ((==_iff n k).0 here) (ground arith)
  | inr other ↦ holds_below_at t k (ground arith) n (ground arith)
]

digits_decode : holds_below (λ m. hex_value (code (hex_digit m)) == m) 16 ≡ true
unfolding holds_below hex_digit
digits_decode = refl

hex_value-hex_digit : (n : ℕ) → n < 16 → hex_value (code (hex_digit n)) ≡ n
hex_value-hex_digit n h =
    (==_iff (hex_value (code (hex_digit n))) n).0
      (holds_below_at (λ m. hex_value (code (hex_digit m)) == m) 16 digits_decode n h)

abbrev AllBytes : List ℕ → Type 0
AllBytes = All (λ b. b < 256)

utf8_bytes-AllBytes : (c : ℕ) → c < 1114112 → AllBytes (utf8_bytes c)
unfolding utf8_bytes
utf8_bytes-AllBytes c h = ground arith

unpercent-percent_bytes :
    (bs : List ℕ) (rest : String)
    → AllBytes bs
    → unpercent (percent_bytes bs rest) ≡ bs ++ unpercent rest
unfolding unpercent percent_bytes
unpercent-percent_bytes [] rest hs = refl
unpercent-percent_bytes (b ∷ bs) rest (h, hs) =
    rw
      (
        hex_value-hex_digit (b / 16) (omega arith),
        hex_value-hex_digit (b % 16) (omega arith),
        unpercent-percent_bytes bs rest hs,
      )
      (ap (λ n. n ∷ (bs ++ unpercent rest)) (omega arith))

unpercent-cons :
    (c : Char) (s : String)
    → (code c == b'%') ≡ false
    → unpercent (String.◌∷◌ c s) ≡ code c ∷ unpercent s
unfolding unpercent
unpercent-cons c String.[] h = refl
unpercent-cons c (String.◌∷◌ d String.[]) h = refl
unpercent-cons c (String.◌∷◌ d (String.◌∷◌ e s)) h = rw h refl

ascii_bytes : (c : ℕ) → ltb c 0x80 ≡ true → utf8_bytes c ≡ c ∷ []
unfolding utf8_bytes
ascii_bytes c h = rw h refl

kept_ascii : (c : ℕ) → kept_in_segment c ≡ true → (ltb c 0x80 ≡ true) × ((c == b'%') ≡ false)
unfolding kept_in_segment elem
kept_ascii c h = (ground arith, ground arith)

-- The bytes of a text in UTF-8.
abbrev text_bytes : String → List ℕ
text_bytes String.[] = []
text_bytes (String.◌∷◌ c s) = utf8_bytes (code c) ++ text_bytes s

unpercent-path_escape : (s : String) → unpercent (path_escape s) ≡ text_bytes s
unfolding path_escape escape unpercent
unpercent-path_escape String.[] = refl
unpercent-path_escape (String.◌∷◌ c s) = elim (Bool-cases (kept_in_segment (code c))) [
  | inl kept ↦ rw kept (
      unpercent-cons c (path_escape s) (kept_ascii (code c) kept).1
      ∙ rw (ascii_bytes (code c) (kept_ascii (code c) kept).0)
          (ap (λ bs. code c ∷ bs) (unpercent-path_escape s)))
  | inr other ↦ rw other (
      unpercent-percent_bytes (utf8_bytes (code c)) (path_escape s)
        (utf8_bytes-AllBytes (code c) (code_bound c))
      ∙ ap (λ bs. utf8_bytes (code c) ++ bs) (unpercent-path_escape s))
]

decode-text_bytes : (s : String) → decode_utf8 0 0 (text_bytes s) ≡ codes s
unfolding decode_utf8
decode-text_bytes String.[] = refl
decode-text_bytes (String.◌∷◌ c s) =
    decode-utf8_bytes (code c) (text_bytes s) ∙ ap (λ cs. code c ∷ cs) (decode-text_bytes s)

codes-injective : (s t : String) → codes s ≡ codes t → s ≡ t
codes-injective String.[] String.[] h = refl
codes-injective String.[] (String.◌∷◌ d t) h = cc
codes-injective (String.◌∷◌ c s) String.[] h = cc
codes-injective (String.◌∷◌ c s) (String.◌∷◌ d t) h =
    cons-eq-cons.1 (Char-path c d cc, codes-injective s t cc)

pub decode-path_escape : (s : String) → decode_utf8 0 0 (unpercent (path_escape s)) ≡ codes s
decode-path_escape s = ap (decode_utf8 0 0) (unpercent-path_escape s) ∙ decode-text_bytes s

pub path_escape-injective : (s t : String) → path_escape s ≡ path_escape t → s ≡ t
path_escape-injective s t h = codes-injective s t (
    sym (decode-path_escape s) ∙ (ap (λ u. decode_utf8 0 0 (unpercent u)) h ∙ decode-path_escape t))

abbrev is_special : ℕ → Bool
is_special c = elem c (b'/' ∷ b'?' ∷ b'#' ∷ [])

digits_plain : holds_below (λ m. not (is_special (code (hex_digit m)))) 16 ≡ true
unfolding holds_below hex_digit elem
digits_plain = refl

digit_special : (n : ℕ) → n < 16 → is_special (code (hex_digit n)) ≡ false
digit_special n h =
    ground (arith, holds_below_at (λ m. not (is_special (code (hex_digit m)))) 16 digits_plain n h)

percent_bytes-contains_any :
    (bs : List ℕ) (rest : String)
    → AllBytes bs
    → contains_any rest (b'/' ∷ b'?' ∷ b'#' ∷ []) ≡ false
    → contains_any (percent_bytes bs rest) (b'/' ∷ b'?' ∷ b'#' ∷ []) ≡ false
unfolding percent_bytes contains_any elem
percent_bytes-contains_any [] rest hs h = h
percent_bytes-contains_any (b ∷ bs) rest (q, qs) h = ground (
  arith,
  digit_special (b / 16) (omega arith),
  digit_special (b % 16) (omega arith),
  percent_bytes-contains_any bs rest qs h,
)

kept_special : (c : ℕ) → kept_in_segment c ≡ true → elem c (b'/' ∷ b'?' ∷ b'#' ∷ []) ≡ false
unfolding kept_in_segment elem
kept_special c h = ground arith

pub path_escape-contains_any :
    (s : String) → contains_any (path_escape s) (b'/' ∷ b'?' ∷ b'#' ∷ []) ≡ false
unfolding path_escape escape contains_any
path_escape-contains_any String.[] = refl
path_escape-contains_any (String.◌∷◌ c s) = elim (Bool-cases (kept_in_segment (code c))) [
  | inl kept ↦ rw (kept, kept_special (code c) kept) (path_escape-contains_any s)
  | inr other ↦ rw other (
      percent_bytes-contains_any (utf8_bytes (code c)) (path_escape s)
        (utf8_bytes-AllBytes (code c) (code_bound c)) (path_escape-contains_any s))
]

code-char_if :
    (n : ℕ) (o q r : Ordering) (ho : compare n 55296 ≡ o) (hq : compare 57343 n ≡ q)
    (hr : compare n 1114112 ≡ r)
    → Scalar o q r
    → code (char_if n o q r ho hq hr) ≡ n
unfolding char_if
code-char_if n Ordering.lt q r ho hq hr p = refl
code-char_if n Ordering.eq Ordering.lt Ordering.lt ho hq hr p = refl
code-char_if n Ordering.eq Ordering.lt Ordering.eq ho hq hr p = elim p [ ]
code-char_if n Ordering.eq Ordering.lt Ordering.gt ho hq hr p = elim p [ ]
code-char_if n Ordering.eq Ordering.eq r ho hq hr p = elim p [ ]
code-char_if n Ordering.eq Ordering.gt r ho hq hr p = elim p [ ]
code-char_if n Ordering.gt Ordering.lt Ordering.lt ho hq hr p = refl
code-char_if n Ordering.gt Ordering.lt Ordering.eq ho hq hr p = elim p [ ]
code-char_if n Ordering.gt Ordering.lt Ordering.gt ho hq hr p = elim p [ ]
code-char_if n Ordering.gt Ordering.eq r ho hq hr p = elim p [ ]
code-char_if n Ordering.gt Ordering.gt r ho hq hr p = elim p [ ]

code-char_of : (c : Char) → code (char_of (code c)) ≡ code c
unfolding char_of
code-char_of (char n p) =
    code-char_if n (compare n 55296) (compare 57343 n) (compare n 1114112) refl refl refl p

text_of-codes : (s : String) → text_of (codes s) ≡ s
unfolding text_of
text_of-codes String.[] = refl
text_of-codes (String.◌∷◌ c s) =
    cons-eq-cons.1 (Char-path (char_of (code c)) c (code-char_of c), text_of-codes s)

pub path_unescape-path_escape : (s : String) → path_unescape (path_escape s) ≡ s
unfolding path_unescape
path_unescape-path_escape s = ap text_of (decode-path_escape s) ∙ text_of-codes s
