-- ===== src/Text/Unescape.antt =====
-- net/url: `PathUnescape`, which net/http uses for the segments of a path.
use Prim.Native.Char.{Char, char, code, nul, IsLt}
use Prim.Native.Nat.{compare, Ordering}
use home_server_deployer.Prelude.{
  ℕ, zero, suc, ◌+◌, ◌-◌, ◌*◌, String, ◌≡◌, refl, sym, subst, ◌⊎◌, inl, inr, List, [], ◌∷◌, ltb,
  ◌==◌, if◌then◌else◌,
}

-- The value of an upper-case hexadecimal digit.
abbrev pub hex_value : ℕ → ℕ
hex_value c = if ltb c 58 then c - 48 else c - 55

-- The bytes of a percent-encoded text (RFC 3986).
unfoldable pub unpercent : String → List ℕ
unpercent String.[] = []
unpercent (String.◌∷◌ c String.[]) = code c ∷ []
unpercent (String.◌∷◌ c (String.◌∷◌ d String.[])) = code c ∷ code d ∷ []
unpercent (String.◌∷◌ c (String.◌∷◌ d (String.◌∷◌ e s))) =
    let byte = hex_value (code d) * 16 + hex_value (code e) in
    let decoded = unpercent s in
    let plain = unpercent (String.◌∷◌ d (String.◌∷◌ e s)) in
    if code c == b'%' then byte ∷ decoded else code c ∷ plain

-- The code points of bytes in UTF-8 (RFC 3629): `n` bytes are to come.
unfoldable pub decode_utf8 : ℕ → ℕ → List ℕ → List ℕ
decode_utf8 n acc [] = []
decode_utf8 zero acc (b ∷ bs) =
    let one = decode_utf8 1 (b - 0xC0) bs in
    let two = decode_utf8 2 (b - 0xE0) bs in
    let three = decode_utf8 3 (b - 0xF0) bs in
    let plain = decode_utf8 0 0 bs in
    if ltb b 0x80 then b ∷ plain else if ltb b 0xE0 then one else if ltb b 0xF0 then two else three
decode_utf8 (suc zero) acc (b ∷ bs) = (acc * 64 + (b - 0x80)) ∷ decode_utf8 0 0 bs
decode_utf8 (suc (suc n)) acc (b ∷ bs) = decode_utf8 (suc n) (acc * 64 + (b - 0x80)) bs

abbrev pub AfterLt : Ordering → Ordering → Type 0
AfterLt Ordering.lt o = IsLt o
AfterLt Ordering.eq _ = ⊥
AfterLt Ordering.gt _ = ⊥

-- `IsScalar n` as a function of its three comparisons.
abbrev pub Scalar : Ordering → Ordering → Ordering → Type 0
Scalar Ordering.lt _ _ = Unit
Scalar Ordering.eq o q = AfterLt o q
Scalar Ordering.gt o q = AfterLt o q

last_of_AfterLt : (o r : Ordering) → AfterLt o r → r ≡ Ordering.lt
last_of_AfterLt Ordering.lt Ordering.lt p = refl
last_of_AfterLt Ordering.lt Ordering.eq p = elim p [ ]
last_of_AfterLt Ordering.lt Ordering.gt p = elim p [ ]
last_of_AfterLt Ordering.eq r p = elim p [ ]
last_of_AfterLt Ordering.gt r p = elim p [ ]

pub Scalar-cases : (o q r : Ordering) → Scalar o q r → (o ≡ Ordering.lt) ⊎ (r ≡ Ordering.lt)
Scalar-cases Ordering.lt q r p = inl refl
Scalar-cases Ordering.eq q r p = inr (last_of_AfterLt q r p)
Scalar-cases Ordering.gt q r p = inr (last_of_AfterLt q r p)

-- The character of a code point, or the null character where there is none.
unfoldable pub char_if :
    (n : ℕ) (o q r : Ordering)
    → compare n 55296 ≡ o
    → compare 57343 n ≡ q
    → compare n 1114112 ≡ r
    → Char
char_if n Ordering.lt q r ho hq hr =
    char n (subst (λ x. Scalar x (compare 57343 n) (compare n 1114112)) (sym ho) tt)
char_if n Ordering.eq Ordering.lt Ordering.lt ho hq hr = char n (
    subst (λ x. Scalar x (compare 57343 n) (compare n 1114112)) (sym ho)
      (subst (λ x. AfterLt x (compare n 1114112)) (sym hq) (subst IsLt (sym hr) tt)))
char_if n Ordering.eq Ordering.lt Ordering.eq ho hq hr = nul
char_if n Ordering.eq Ordering.lt Ordering.gt ho hq hr = nul
char_if n Ordering.eq Ordering.eq r ho hq hr = nul
char_if n Ordering.eq Ordering.gt r ho hq hr = nul
char_if n Ordering.gt Ordering.lt Ordering.lt ho hq hr = char n (
    subst (λ x. Scalar x (compare 57343 n) (compare n 1114112)) (sym ho)
      (subst (λ x. AfterLt x (compare n 1114112)) (sym hq) (subst IsLt (sym hr) tt)))
char_if n Ordering.gt Ordering.lt Ordering.eq ho hq hr = nul
char_if n Ordering.gt Ordering.lt Ordering.gt ho hq hr = nul
char_if n Ordering.gt Ordering.eq r ho hq hr = nul
char_if n Ordering.gt Ordering.gt r ho hq hr = nul

unfoldable pub char_of : ℕ → Char
unfolding char_if
char_of n = char_if n (compare n 55296) (compare 57343 n) (compare n 1114112) refl refl refl

unfoldable pub text_of : List ℕ → String
unfolding char_of
text_of [] = ""
text_of (n ∷ ns) = String.◌∷◌ (char_of n) (text_of ns)

-- A valid escape; what Go refuses gives some other text here.
unfoldable pub path_unescape : String → String
unfolding text_of unpercent decode_utf8
path_unescape s = text_of (decode_utf8 0 0 (unpercent s))
