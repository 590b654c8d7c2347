-- ===== src/Ir/Filters.antt =====
-- api2agent/filters.py: the tools that a package keeps. `fnmatch` is a parameter.
use api2agent.Common.{
  ap, ◌-◌, suc, ◌++◌, min, take, ℕ, String, Bool, true, false, not, ◌&&◌, ◌||◌, Option, none, some,
  List, [], ◌∷◌, ◌==◌, ◌≡◌, refl, arith, any, contains, select, map, given, text_or, length,
  length-take, In, In-select, select-In, nat_eq, if◌then◌else◌,
}
use package.text.Mathlib.Text.{starts_with}
use api2agent.Python.Number.{ℤ, pos, negsuc}
use api2agent.Python.Text.{lower}
use api2agent.Capabilities.Failover.{slice_to}
use api2agent.Ir.{Tool, Capability}
use api2agent.Ir.Naming.{snake_name}

pub record ToolFilter : Type 0 where
  pub include_tags : List String
  pub include_paths : List String
  pub include_operations : List String
  pub max_tools : Option ℤ

abbrev pub is_nil : List String → Bool
is_nil [] = true
is_nil (s ∷ ss) = false

-- `bool(self.max_tools)`
abbrev pub is_limit : Option ℤ → Bool
is_limit none = false
is_limit (some (pos n)) = not (nat_eq n 0)
is_limit (some (negsuc n)) = true

unfoldable pub is_empty : ToolFilter → Bool
is_empty f =
    is_nil f.include_tags
    && is_nil f.include_paths
    && is_nil f.include_operations
    && not (is_limit f.max_tools)

-- `pattern in path`
unfoldable pub occurs_in : String → String → Bool
occurs_in pattern String.[] = pattern == ""
occurs_in pattern (String.◌∷◌ c s) = starts_with (String.◌∷◌ c s) pattern || occurs_in pattern s

unfoldable pub matches_tags : Tool → List String → Bool
matches_tags tool [] = true
matches_tags tool (t ∷ ts) = any (λ tag. contains (map lower tool.tags) (lower tag)) (t ∷ ts)

-- `operation_names`
unfoldable pub operation_names : Tool → List String
operation_names tool =
    if given tool.operation_id
    then tool.name ∷ text_or tool.operation_id "" ∷ snake_name (text_or tool.operation_id "") ∷ []
    else tool.name ∷ []

unfoldable pub matches_operations : Tool → List String → Bool
unfolding operation_names
matches_operations tool [] = true
matches_operations tool (o ∷ os) =
    any
      (λ operation.
        contains (operation_names tool) operation
        || contains (operation_names tool) (snake_name operation))
      (o ∷ os)

module _ (fnmatch : String → String → Bool) where
  unfoldable pub path_matches : String → String → Bool
  unfolding occurs_in
  path_matches path pattern =
      if pattern == path
      then true
      else if any (λ marker. occurs_in marker pattern) ("*" ∷ "?" ∷ "[" ∷ "]" ∷ [])
      then fnmatch path pattern
      else occurs_in pattern path

  unfoldable pub matches_paths : Tool → List String → Bool
  unfolding path_matches
  matches_paths tool [] = true
  matches_paths tool (p ∷ ps) = any (λ pattern. path_matches tool.path pattern) (p ∷ ps)

  unfoldable pub is_included : ToolFilter → Tool → Bool
  unfolding matches_tags matches_paths matches_operations
  is_included f tool =
      matches_tags tool f.include_tags
      && matches_paths tool f.include_paths
      && matches_operations tool f.include_operations

  abbrev pub limited : Option ℤ → List Tool → List Tool
  limited none tools = tools
  limited (some n) tools = slice_to n tools

  unfoldable pub filter_capability : Capability → ToolFilter → Capability
  unfolding is_empty is_included
  filter_capability capability f = if is_empty f then capability else record capability {
    tools = limited f.max_tools (select (is_included f) capability.tools);
  }

  append_nil : (tools : List Tool) → tools ++ [] ≡ tools
  append_nil [] = refl
  append_nil (t ∷ tools) = ap (λ ts. t ∷ ts) (append_nil tools)

  slice_to-prefix :
      (n : ℕ) (tools : List Tool) → (rest : List Tool) × (take n tools ++ rest ≡ tools)
  slice_to-prefix Prim.Native.Nat.zero tools = (tools, refl)
  slice_to-prefix (Prim.Native.Nat.suc n) [] = ([], refl)
  slice_to-prefix (Prim.Native.Nat.suc n) (t ∷ tools) =
      let (rest, e) = slice_to-prefix n tools in (rest, ap (λ ts. t ∷ ts) e)

  -- How many of `n` tools a limit leaves.
  abbrev pub number_kept : Option ℤ → ℕ → ℕ
  number_kept none n = n
  number_kept (some (pos m)) n = min m n
  number_kept (some (negsuc m)) n = n - suc m

  limited-prefix :
      (m : Option ℤ) (tools : List Tool)
      → ((rest : List Tool) × (limited m tools ++ rest ≡ tools))
        × (length (limited m tools) ≡ number_kept m (length tools))
  unfolding slice_to
  limited-prefix none tools = (([], append_nil tools), refl)
  limited-prefix (some (pos n)) tools = (slice_to-prefix n tools, length-take n tools)
  limited-prefix (some (negsuc n)) tools = (
    slice_to-prefix (length tools - suc n) tools,
    omega (arith, length-take (length tools - suc n) tools),
  )

  -- A filter that is not empty keeps, in their order, the first of the capability's tools that it
  -- includes: all of them where it has no limit, as many as the limit where this is a number from
  -- zero on, and all but the last `n` where the limit is `-n`. Each of these is a tool of the
  -- capability that the filter includes, and no included tool is left out of those it takes from.
  -- An empty filter keeps the capability as it is.
  pub filter_capability-tools :
      (capability : Capability) (f : ToolFilter)
      → let kept = (filter_capability capability f).tools in
        (is_empty f ≡ true → filter_capability capability f ≡ capability)
        × (is_empty f ≡ false
            → (included : List Tool) × ((rest : List Tool) × (kept ++ rest ≡ included))
              × (length kept ≡ number_kept f.max_tools (length included))
              × (included ≡ select (is_included f) capability.tools)
              × ((t : Tool) → In t included → In t capability.tools × (is_included f t ≡ true))
              × ((t : Tool) → In t capability.tools → is_included f t ≡ true → In t included))
  unfolding filter_capability
  filter_capability-tools capability f =
      let included = select (is_included f) capability.tools in
      (
        λ e. rw (e, filter_capability) refl,
        λ e. (
          included,
          rw (e, filter_capability) (limited-prefix f.max_tools included).0,
          rw (e, filter_capability) (limited-prefix f.max_tools included).1,
          refl,
          λ t i. In-select (is_included f) capability.tools t i,
          λ t i h. select-In (is_included f) capability.tools t i h,
        ),
      )
