-- ===== src/Strconv.antt =====
-- What the sources use of package strconv: `Atoi` on a machine with 64-bit integers.
use Prim.Native.Char.{code}
use home_server_deployer.Prelude.{
  ℕ, zero, suc, ◌+◌, ◌-◌, ◌*◌, ◌/◌, ◌%◌, ◌^◌, String, ◌<>◌, Bool, true, false, ◌&&◌, Option, none,
  some, ltb, leb, ◌==◌, if◌then◌else◌,
}
use home_server_deployer.Prelude.Int.{ℤ, pos, negate}

abbrev pub is_digit : ℕ → Bool
is_digit c = leb b'0' c && leb c b'9'

-- The value of the digits of a text, after those read so far.
unfoldable pub digits_value : ℕ → String → Option ℕ
digits_value n String.[] = some n
digits_value n (String.◌∷◌ c s) =
    let rest = digits_value (n * 10 + (code c - b'0')) s in if is_digit (code c) then rest else none

-- There is at least one digit.
unfoldable pub unsigned : String → Option ℕ
unfolding digits_value
unsigned String.[] = none
unsigned (String.◌∷◌ c s) = digits_value 0 (String.◌∷◌ c s)

abbrev pub in_range : Bool → Option ℕ → Option ℤ
in_range negative none = none
in_range true (some n) = if leb n (2 ^ 63) then some (negate n) else none
in_range false (some n) = if ltb n (2 ^ 63) then some (pos n) else none

unfoldable pub atoi : String → Option ℤ
unfolding unsigned
atoi String.[] = none
atoi (String.◌∷◌ c s) =
    if code c == b'-'
    then in_range true (unsigned s)
    else if code c == b'+'
    then in_range false (unsigned s)
    else in_range false (unsigned (String.◌∷◌ c s))

-- A digit as a text.
abbrev pub digit : ℕ → String
digit n =
    if n == 0
    then "0"
    else if n == 1
    then "1"
    else if n == 2
    then "2"
    else if n == 3
    then "3"
    else if n == 4
    then "4"
    else if n == 5
    then "5"
    else if n == 6
    then "6"
    else if n == 7
    then "7"
    else if n == 8
    then "8"
    else "9"

-- The digits of a number in front of a text. A number has fewer digits than its successor counts.
unfoldable pub digits_before : ℕ → ℕ → String → String
digits_before zero n rest = rest
digits_before (suc fuel) n rest =
    let more = digits_before fuel (n / 10) (digit (n % 10) <> rest) in
    if ltb n 10 then digit n <> rest else more

-- strconv.Itoa
unfoldable pub itoa : ℕ → String
unfolding digits_before
itoa n = digits_before (suc n) n ""
