-- ===== src/Python/Text.antt =====
-- `str` methods: `lower`, `upper`, `strip`, `startswith`, and the decimal digits of `str(n)`.
use Prim.Native.Char.{Char, code}
use Prim.Native.String.{char_at, len}
use text.Mathlib.Text.{starts_with}
use text.Mathlib.TextLemmas
use text.Mathlib.TextPositions
use api2agent.Common.{
  false, List, [], ◌∷◌, ◌&&◌, ℕ, zero, suc, ◌/◌, ◌%◌, String, ◌≡◌, refl, ap, Bool, true, ◌||◌, leb,
  ltb, nat_eq, Option, none, some, if◌then◌else◌, ◌<>◌, ◌==◌,
}

-- The character at the place of `c` in the first text, taken from the second; `c` if there is none.
translate : String → String → Char → Char
translate (String.◌∷◌ x xs) (String.◌∷◌ y ys) c =
    if nat_eq (code x) (code c) then y else translate xs ys c
translate _ _ c = c

abbrev upper_letters : String
upper_letters = "ABCDEFGHIJKLMNOPQRSTUVWXYZ"

abbrev lower_letters : String
lower_letters = "abcdefghijklmnopqrstuvwxyz"

-- `s.lower()`. Beyond ASCII only the Kelvin sign has an ASCII letter for its lower case, so
-- comparisons of a lowered text with an ASCII literal come out as in Python.
unfoldable pub lower : String → String
unfolding translate
lower String.[] = ""
lower (String.◌∷◌ c s) =
    String.◌∷◌ (translate (String.◌∷◌ "K" upper_letters) (String.◌∷◌ "k" lower_letters) c) (lower s)

-- `s.upper()` on ASCII letters; other characters stay.
unfoldable pub upper : String → String
unfolding translate
upper String.[] = ""
upper (String.◌∷◌ c s) = String.◌∷◌ (translate lower_letters upper_letters c) (upper s)

-- `s.lower().startswith(prefix)`
abbrev pub lower_starts_with : String → String → Bool
lower_starts_with s prefix = starts_with (lower s) prefix

pub lower-append : (s t : String) → lower (s <> t) ≡ lower s <> lower t
unfolding lower
lower-append String.[] t = rw TextLemmas.nil-append (rw TextLemmas.nil-append refl)
lower-append (String.◌∷◌ c s) t = rw TextLemmas.cons-append (
    rw TextLemmas.cons-append (
      ap (String.◌∷◌ (translate (String.◌∷◌ "K" upper_letters) (String.◌∷◌ "k" lower_letters) c))
        (lower-append s t)))

-- A text that begins with a prefix begins, lowered, with the lowered prefix.
pub lower_starts_with-append : (p q s : String) → lower p ≡ q → lower_starts_with (p <> s) q ≡ true
lower_starts_with-append p q s e =
    rw (lower-append, e) (TextPositions.starts_with-append q (lower s))

abbrev is_space : Char → Bool
is_space c = let n = code c in (leb 28 n && leb n 32) || (leb 9 n && leb n 13)

strip_left : String → String
strip_left String.[] = ""
strip_left (String.◌∷◌ c s) = let rest = strip_left s in if is_space c then rest else String.◌∷◌ c s

-- A text of spaces alone becomes empty; the spaces at the end go.
strip_right : String → String
strip_right String.[] = ""
strip_right (String.◌∷◌ c s) =
    let rest = strip_right s in
    if is_space c then (if rest == "" then "" else String.◌∷◌ c rest) else String.◌∷◌ c rest

-- `s.strip()`, of ASCII white space.
unfoldable pub strip : String → String
unfolding strip_left strip_right
strip s = strip_right (strip_left s)

-- `s.split(".")`: one text more than there are dots.
unfoldable pub split_dots : String → List String
split_dots String.[] = "" ∷ []
split_dots (String.◌∷◌ c s) =
    let rest = split_dots s in if nat_eq (code c) 46 then "" ∷ rest else prepend c rest
  where
    prepend : Char → List String → List String
    prepend c [] = []
    prepend c (t ∷ ts) = String.◌∷◌ c t ∷ ts

-- `s.rstrip("/")`
strip_slashes : String → String
strip_slashes String.[] = ""
strip_slashes (String.◌∷◌ c s) =
    let rest = strip_slashes s in if rest == "" && nat_eq (code c) 47 then "" else String.◌∷◌ c rest

-- `s.split("/")[-1]`, and whether `s` has a slash.
segment_of : String → String × Bool
segment_of String.[] = ("", false)
segment_of (String.◌∷◌ c s) = place (segment_of s)
  where
    place : String × Bool → String × Bool
    place (t, true) = (t, true)
    place (t, false) = if nat_eq (code c) 47 then (t, true) else (String.◌∷◌ c t, false)

-- `s.rstrip("/").split("/")[-1]`
unfoldable pub last_segment : String → String
unfolding strip_slashes segment_of
last_segment s = (segment_of (strip_slashes s)).0

last_segment_runs : last_segment "#/components/schemas/Cat/" ≡ "Cat"
unfolding last_segment
last_segment_runs = refl

-- `s.replace("-", "_")`
unfoldable pub dashes_to_underscores : String → String
dashes_to_underscores String.[] = ""
dashes_to_underscores (String.◌∷◌ c s) =
    String.◌∷◌ (if nat_eq (code c) 45 then "_" else c) (dashes_to_underscores s)

-- `s[n:]`
unfoldable pub drop_chars : ℕ → String → String
drop_chars zero s = s
drop_chars (suc n) String.[] = ""
drop_chars (suc n) (String.◌∷◌ c s) = drop_chars n s

-- `s[:n]`
unfoldable pub take_chars : ℕ → String → String
take_chars zero s = ""
take_chars (suc n) String.[] = ""
take_chars (suc n) (String.◌∷◌ c s) = String.◌∷◌ c (take_chars n s)

-- `sep.join(texts)`
unfoldable pub join : String → List String → String
join sep [] = ""
join sep (s ∷ []) = s
join sep (s ∷ t ∷ ts) = s <> (sep <> join sep (t ∷ ts))

-- The decimal digits of `n` before those of `acc`; a number has fewer digits than its fuel.
digits : ℕ → ℕ → String → String
digits zero n acc = acc
digits (suc f) n acc =
    let acc' = String.◌∷◌ (char_at "0123456789" (n % 10)) acc in
    let rest = digits f (n / 10) acc' in if ltb n 10 then acc' else rest

-- `str(n)`
unfoldable pub show_nat : ℕ → String
unfolding digits
show_nat n = digits (suc n) n ""

-- `f"{s}"` of a text that may be `None`
abbrev pub show_opt : Option String → String
show_opt none = "None"
show_opt (some s) = s

-- `str(n)` padded with zeros to a width
pad : ℕ → String → String
pad zero s = s
pad (suc w) s = let rest = pad w s in if ltb (len rest) (suc w) then "0" <> rest else rest

unfoldable pub show_padded : ℕ → ℕ → String
unfolding pad show_nat
show_padded width n = pad width (show_nat n)

show_nat_runs : show_nat 2037 ≡ "2037"
unfolding show_nat
show_nat_runs = refl

show_padded_runs : show_padded 4 7 ≡ "0007"
unfolding show_padded
show_padded_runs = refl

lower_runs : lower "X-API-Key" ≡ "x-api-key"
unfolding lower
lower_runs = refl

strip_runs : strip "  a b " ≡ "a b"
unfolding strip
strip_runs = refl

split_dots_runs : split_dots "a.b." ≡ "a" ∷ "b" ∷ "" ∷ []
unfolding split_dots
split_dots_runs = refl
