-- ===== src/Capabilities/Failover.antt =====
-- api2agent/capabilities/failover.py. A result is the dict that a runner returns; `repr` prints
-- the values that are no text, number or Boolean.
use api2agent.Common.{
  not, ℕ, suc, ◌-◌, ◌≤◌, String, Bool, true, false, ◌&&◌, Option, none, some, List, [], ◌∷◌, ◌≡◌,
  refl, arith, min, max, contains, if◌then◌else◌, take, length,
}
use api2agent.Python.Number.{ℤ, pos, negsuc, int_eq, truncate, parse_int}
use api2agent.Python.Value.{
  Value, null, boolean, int, float, text, Object, get, as_dict, truthy, str, is_text,
}
use api2agent.Capabilities.{FailoverPolicy, default_error_types, default_status_codes}

-- `int(v)`; `none` is an exception.
unfoldable pub int_of : Value → Option ℤ
int_of (int n) = some n
int_of (boolean true) = some (pos 1)
int_of (boolean false) = some (pos 0)
int_of (float x) = truncate x
int_of (text s) = parse_int s
int_of _ = none

abbrev pub contains_int : List ℤ → ℤ → Bool
contains_int [] n = false
contains_int (m ∷ ms) n = if int_eq m n then true else contains_int ms n

abbrev pub is_null : Value → Bool
is_null null = true
is_null _ = false

-- `none` is the exception that `int(status_code)` raises.
unfoldable pub should_failover : (Value → String) → Object → FailoverPolicy → Option Bool
should_failover repr result policy =
    let error_type = get (as_dict (get result "error")) "type" in
    let status_code = get result "status_code" in
    if not policy.enabled
    then some false
    else if is_text error_type "http_status" && not (is_null status_code)
    then elim (int_of status_code) [
      | none ↦ none
      | some n ↦ some (contains_int policy.retry_on_status_codes n)
    ]
    else if truthy error_type
    then some (contains policy.retry_on_error_types (str repr error_type))
    else some false

int_min : ℤ → ℤ → ℤ
int_min (pos m) (pos n) = pos (min m n)
int_min (pos m) (negsuc n) = negsuc n
int_min (negsuc m) (pos n) = negsuc m
int_min (negsuc m) (negsuc n) = negsuc (max m n)

int_max : ℤ → ℤ → ℤ
int_max (pos m) (pos n) = pos (max m n)
int_max (pos m) (negsuc n) = pos m
int_max (negsuc m) (pos n) = pos n
int_max (negsuc m) (negsuc n) = negsuc (min m n)

attempts_wanted : Option ℤ → Bool → ℕ → ℤ
attempts_wanted (some n) enabled count = n
attempts_wanted none enabled count = if enabled then pos count else pos 1

chosen_codes : Option (List ℤ) → List ℤ
chosen_codes none = default_status_codes
chosen_codes (some []) = default_status_codes
chosen_codes (some codes) = codes

unfoldable pub build_failover_policy : Bool → ℕ → Option ℤ → Option (List ℤ) → FailoverPolicy
unfolding int_min int_max attempts_wanted chosen_codes
build_failover_policy enabled candidate_count max_attempts retry_on_status_codes = record {
  enabled = enabled;
  max_attempts = int_max (pos 1) (
      int_min (attempts_wanted max_attempts enabled candidate_count)
        (int_max (pos candidate_count) (pos 1)));
  retry_on_error_types = default_error_types;
  retry_on_status_codes = chosen_codes retry_on_status_codes;
}

-- `xs[:n]`: a negative bound counts from the end.
unfoldable pub slice_to {ℓ} : {A : Type ℓ} → ℤ → List A → List A
slice_to (pos n) xs = take n xs
slice_to (negsuc n) xs = take (length xs - suc n) xs

-- A built policy allows at least one attempt, and no more than there are candidates or one; with
-- no number given it allows every candidate if it is enabled, and one if not.
pub build_failover_policy_bounds :
    (enabled : Bool) (count : ℕ) (wanted : Option ℤ) (codes : Option (List ℤ))
    → (n : ℕ) × ((build_failover_policy enabled count wanted codes).max_attempts ≡ pos n)
      × (1 ≤ n)
      × (n ≤ max count 1)
      × (wanted ≡ none → n ≡ (if enabled then max count 1 else 1))
unfolding build_failover_policy
build_failover_policy_bounds enabled count none codes =
    (if enabled then max count 1 else 1, ground arith, ground arith, ground arith, ground arith)
build_failover_policy_bounds enabled count (some (pos m)) codes =
    (max 1 (min m (max count 1)), refl, omega arith, omega arith, λ e. cc)
build_failover_policy_bounds enabled count (some (negsuc m)) codes =
    (1, refl, omega arith, omega arith, λ e. cc)
