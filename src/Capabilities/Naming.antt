-- ===== src/Capabilities/Naming.antt =====
-- api2agent/capabilities/naming.py. The pattern has three segments between two dots, and no
-- segment matches a dot, so a match is a split at the dots into three segments.
use Prim.Native.Char.{Char, code}
use api2agent.Common.{
  String, Bool, true, false, ◌&&◌, ◌||◌, List, [], ◌∷◌, ◌<>◌, ◌≡◌, refl, leb, nat_eq,
}
use api2agent.Python.Text.{strip, split_dots}

is_lower : Char → Bool
is_lower c = leb 97 (code c) && leb (code c) 122

is_word : Char → Bool
is_word c = is_lower c || (leb 48 (code c) && leb (code c) 57) || nat_eq (code c) 95

all_word : String → Bool
all_word String.[] = true
all_word (String.◌∷◌ c s) = is_word c && all_word s

-- `[a-z][a-z0-9_]*`
is_segment : String → Bool
is_segment String.[] = false
is_segment (String.◌∷◌ c s) = is_lower c && all_word s

are_three_segments : List String → Bool
are_three_segments (domain ∷ resource ∷ action ∷ []) =
    is_segment domain && is_segment resource && is_segment action
are_three_segments _ = false

unfoldable pub is_alpha_capability_id : String → Bool
unfolding is_lower is_word all_word is_segment are_three_segments
is_alpha_capability_id value = are_three_segments (split_dots (strip value))

unfoldable pub capability_id_rule_message : String → String
capability_id_rule_message value =
    "capability_id '"
    <> (value <> "' does not match v0.1-alpha naming rule <domain>.<resource>.<action>")

naming_runs :
    (is_alpha_capability_id " weather.current_2.get " ≡ true)
    × (is_alpha_capability_id "weather.get" ≡ false)
    × (is_alpha_capability_id "weather.Current.get" ≡ false)
    × (is_alpha_capability_id "a.b.c.d" ≡ false)
unfolding is_alpha_capability_id split_dots strip
naming_runs = (refl, refl, refl, refl)
