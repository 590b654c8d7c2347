-- ===== src/Ir/Naming.antt =====
-- api2agent/utils/naming.py. A match of `([a-z0-9])([A-Z])` shares no character with the next one,
-- so the substitution goes from left to right.
use Prim.Native.Char.{Char, code}
use api2agent.Common.{
  String, Bool, false, not, ◌&&◌, ◌||◌, ◌==◌, ◌≡◌, refl, leb, nat_eq, has_text, if◌then◌else◌,
}
use api2agent.Python.Text.{strip, lower, upper}

is_upper : Char → Bool
is_upper c = leb 65 (code c) && leb (code c) 90

is_lower_or_digit : Char → Bool
is_lower_or_digit c = (leb 97 (code c) && leb (code c) 122) || (leb 48 (code c) && leb (code c) 57)

is_alphanumeric : Char → Bool
is_alphanumeric c = is_upper c || is_lower_or_digit c

-- Each run of characters that the test refuses becomes one underscore; the flag says whether the
-- text stands in such a run.
underscore_runs : (Char → Bool) → Bool → String → String
underscore_runs keeps inside String.[] = ""
underscore_runs keeps inside (String.◌∷◌ c s) =
    let kept = underscore_runs keeps (not (keeps c)) s in
    if keeps c then String.◌∷◌ c kept else (if inside then kept else String.◌∷◌ "_" kept)

abbrev no_underscore : Char → Bool
no_underscore c = not (nat_eq (code c) 95)

strip_left : String → String
strip_left String.[] = ""
strip_left (String.◌∷◌ c s) =
    let rest = strip_left s in if no_underscore c then String.◌∷◌ c s else rest

strip_right : String → String
strip_right String.[] = ""
strip_right (String.◌∷◌ c s) =
    let rest = strip_right s in
    if rest == "" && not (no_underscore c) then "" else String.◌∷◌ c rest

-- The flag says whether the character before is a lower case letter or a digit.
split_case : Bool → String → String
split_case after String.[] = ""
split_case after (String.◌∷◌ c s) =
    let rest = split_case (is_lower_or_digit c) s in
    if after && is_upper c then String.◌∷◌ "_" (String.◌∷◌ c rest) else String.◌∷◌ c rest

unfoldable pub snake_name : String → String
unfolding is_upper is_lower_or_digit is_alphanumeric underscore_runs strip_left strip_right
    split_case
snake_name value =
    let words = underscore_runs is_alphanumeric false (strip value) in
    let joined = strip_right (strip_left (underscore_runs no_underscore false words)) in
    let name = lower (split_case false joined) in if has_text name then name else "api"

unfoldable pub env_name : String → String
unfolding snake_name lower strip
env_name value = upper (snake_name value)

snake_name_runs : snake_name " GET /users/{userId}--posts" ≡ "get_users_user_id_posts"
unfolding snake_name lower strip
snake_name_runs = refl
