-- ===== src/Python/Value.antt =====
-- The values that `json.loads` gives and `json.dumps` takes, and what is asked of them.
use api2agent.Common.{
  String, Bool, true, false, not, Option, none, some, List, [], ◌∷◌, ◌==◌, if◌then◌else◌, lookup,
  nat_eq, has_text, ◌≡◌, refl,
}
use api2agent.Python.Number.{ℤ, pos, negsuc, Float, magnitude, show_int}

mutual
  pub data Value : Type 0 where
    null : Value
    boolean : Bool → Value
    int : ℤ → Value
    float : Float → Value
    text : String → Value
    arr : Items → Value
    obj : Fields → Value

  pub data Fields : Type 0 where
    end : Fields
    field : String → Value → Fields → Fields

  pub data Items : Type 0 where
    nil : Items
    cons : Value → Items → Items

-- The entries of a dict of values.
abbrev pub Object : Type 0
Object = List (String × Value)

abbrev pub entries : Fields → Object
entries end = []
entries (field k v fs) = (k, v) ∷ entries fs

abbrev pub fields : Object → Fields
fields [] = end
fields ((k, v) ∷ d) = field k v (fields d)

abbrev pub object : Object → Value
object d = obj (fields d)

abbrev pub items : List Value → Items
items [] = nil
items (v ∷ vs) = cons v (items vs)

abbrev pub texts : List String → List Value
texts [] = []
texts (s ∷ ss) = text s ∷ texts ss

-- A text or `None`.
abbrev pub opt_text : Option String → Value
opt_text none = null
opt_text (some s) = text s

-- `bool(v)`
unfoldable pub truthy : Value → Bool
truthy null = false
truthy (boolean b) = b
truthy (int (pos n)) = not (nat_eq n 0)
truthy (int (negsuc n)) = true
truthy (float x) = not (nat_eq (magnitude x) 0)
truthy (text s) = has_text s
truthy (arr nil) = false
truthy (arr (cons v vs)) = true
truthy (obj end) = false
truthy (obj (field k v fs)) = true

-- `d.get(k)`, where a missing key reads as `None`
abbrev pub or_null : Option Value → Value
or_null none = null
or_null (some v) = v

unfoldable pub get : Object → String → Value
unfolding lookup
get d k = or_null (lookup k d)

-- `v or w`
abbrev pub or_else : Value → Value → Value
or_else v w = if truthy v then v else w

-- `v if isinstance(v, dict) else {}`
abbrev pub as_dict : Value → Object
as_dict (obj fs) = entries fs
as_dict _ = []

abbrev pub is_text : Value → String → Bool
is_text (text s) t = s == t
is_text _ t = false

-- `str(v)`; `repr` prints floats, lists and dicts.
unfoldable pub str : (Value → String) → Value → String
str repr null = "None"
str repr (boolean true) = "True"
str repr (boolean false) = "False"
str repr (int n) = show_int n
str repr (text s) = s
str repr v = repr v

pub entries-fields : (d : Object) → entries (fields d) ≡ d
entries-fields [] = refl
entries-fields (e ∷ d) = λ i. e ∷ entries-fields d i
