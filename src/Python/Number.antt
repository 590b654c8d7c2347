-- ===== src/Python/Number.antt =====
-- Python's `int`, and `float` as its IEEE 754 binary64 pattern of 64 bits. Comparison and `int(x)`
-- are defined here; addition and its like round, and are operations that the users take as `Arith`.
use mathlib.Core.Option
use Prim.Native.Char.{code}
use api2agent.Common.{
  zero, ℕ, suc, ◌+◌, ◌-◌, ◌*◌, ◌/◌, ◌%◌, ◌^◌, ◌≡◌, refl, Bool, true, false, ◌&&◌, ◌||◌, not, Option,
  none, some, arith, ltb, leb, nat_eq, if◌then◌else◌, String, ◌<>◌,
}
use api2agent.Python.Text.{strip, show_nat}

-- `negsuc n` is -(n + 1).
pub data ℤ : Type 0 where
  pos : ℕ → ℤ
  negsuc : ℕ → ℤ

abbrev pub int_eq : ℤ → ℤ → Bool
int_eq (pos m) (pos n) = nat_eq m n
int_eq (negsuc m) (negsuc n) = nat_eq m n
int_eq _ _ = false

abbrev pub show_int : ℤ → String
show_int (pos n) = show_nat n
show_int (negsuc n) = "-" <> show_nat (suc n)

-- The bits of a float, below 2 ^ 64.
abbrev pub Float : Type 0
Float = ℕ

abbrev pub sign_bit : ℕ
sign_bit = 2 ^ 63

-- 0.0, 1.0 and `float("inf")`
abbrev pub float_zero : Float
float_zero = 0

abbrev pub float_one : Float
float_one = 0x3ff0000000000000

abbrev pub infinity : Float
infinity = 0x7ff0000000000000

-- The bits without the sign.
abbrev pub magnitude : Float → ℕ
magnitude x = x % sign_bit

abbrev pub is_nan : Float → Bool
is_nan x = ltb infinity (magnitude x)

-- The floats that are no NaN in their order, as numbers; 0.0 and -0.0 have one place.
unfoldable pub place : Float → ℕ
place x = if ltb x sign_bit then sign_bit + x else sign_bit - magnitude x

-- `x < y`, false where one is NaN
unfoldable pub float_lt : Float → Float → Bool
unfolding place
float_lt x y = not (is_nan x) && not (is_nan y) && ltb (place x) (place y)

-- `x == y`
unfoldable pub float_eq : Float → Float → Bool
unfolding place
float_eq x y = not (is_nan x) && not (is_nan y) && nat_eq (place x) (place y)

-- `int(x)`: toward zero; `none` is the exception at NaN and the infinities.
unfoldable pub truncate : Float → Option ℤ
truncate x =
    let e = magnitude x / 2 ^ 52 in
    let m = magnitude x % 2 ^ 52 + 2 ^ 52 in
    let n : ℕ = if ltb e 1075 then m / 2 ^ (1075 - e) else m * 2 ^ (e - 1075) in
    if leb infinity (magnitude x)
    then none
    else if ltb x sign_bit || nat_eq n 0
    then some (pos n)
    else some (negsuc (n - 1))

-- The digits of a text, with single underscores between them; `after` says that a digit stands before.
read_digits : Bool → ℕ → String → Option ℕ
read_digits after acc String.[] = if after then some acc else none
read_digits after acc (String.◌∷◌ c s) =
    let digit = leb 48 (code c) && leb (code c) 57 in
    let next = if digit then acc * 10 + (code c - 48) else acc in
    let rest = read_digits digit next s in
    if digit || (after && nat_eq (code c) 95) then rest else none

negated : ℕ → ℤ
negated zero = pos 0
negated (suc n) = negsuc n

signed : String → Option ℤ
unfolding read_digits negated
signed String.[] = none
signed (String.◌∷◌ c s) =
    if nat_eq (code c) 43
    then Option.map pos (read_digits false 0 s)
    else if nat_eq (code c) 45
    then Option.map negated (read_digits false 0 s)
    else Option.map pos (read_digits false 0 (String.◌∷◌ c s))

-- `int(s)` of a text of ASCII digits; `none` is the `ValueError`.
unfoldable pub parse_int : String → Option ℤ
unfolding signed strip
parse_int s = signed (strip s)

parse_int_runs :
    (parse_int " 4_04 " ≡ some (pos 404))
    × (parse_int "-7" ≡ some (negsuc 6))
    × (parse_int "4__0" ≡ none)
unfolding parse_int
parse_int_runs = (refl, refl, refl)

-- The operations of floats that round: `+`, `-`, `*`, `/`, and the conversion of an `int`.
pub record Arith : Type 0 where
  pub add : Float → Float → Float
  pub sub : Float → Float → Float
  pub mul : Float → Float → Float
  pub div : Float → Float → Float
  pub of_nat : ℕ → Float

truncate_runs : truncate 0x4079333333333333 ≡ some (pos 403)
unfolding truncate
truncate_runs = refl

float_lt_runs : float_lt 0xbff0000000000000 0x3fe0000000000000 ≡ true
unfolding float_lt
float_lt_runs = refl

-- On floats that are no NaN, `<` is the order of their places.
pub float_lt_iff_place :
    (x y : Float) → is_nan x ≡ false → is_nan y ≡ false → float_lt x y ≡ ltb (place x) (place y)
unfolding float_lt
float_lt_iff_place x y h k = ground arith
