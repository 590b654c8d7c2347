-- ===== src/Control/Storage/Summary.antt =====
-- What a summary counts, and what marking an event golden changes.

use api2agent.Common.{
  ℕ, ◌+◌, String, Bool, true, false, not, Option, none, some, List, [], ◌∷◌, ◌==◌, ◌≡◌, refl, ◌∙◌,
  arith, eq_iff, has_text, length, select, map, find_first, lookup, lookup-insert, opt_eq,
  if◌then◌else◌, Bool-cases, inl, inr,
}
use api2agent.Control.{UsageEvent}
use api2agent.Control.Storage.{
  UsageStore, Sums, succeeded, get_usage_event, set_golden, mark_golden, count, of_project, clause,
  summarize, count_error, count_errors,
}

abbrev pub times : String → List (String × ℕ) → ℕ
times t counts = elim (lookup t counts) [ none ↦ 0 | some n ↦ n ]

abbrev pub failed_with : String → UsageEvent → Bool
failed_with t e = opt_eq e.error_type (some t)

times-count_error :
    (t : String) (error : Option String) (counts : List (String × ℕ))
    → has_text t ≡ true
    → times t (count_error counts error) ≡ times t counts + (if opt_eq error (some t) then 1 else 0)
unfolding count_error
times-count_error t none counts h = omega arith
times-count_error t (some u) counts h = ground (
  arith,
  eq_iff u t,
  eq_iff u "",
  eq_iff t "",
  lookup-insert u t (elim (lookup u counts) [ none ↦ 1 | some n ↦ n + 1 ]) counts,
)

times-count_errors :
    (t : String) (es : List UsageEvent) (counts : List (String × ℕ))
    → has_text t ≡ true
    → times t (count_errors counts es) ≡ times t counts + length (select (failed_with t) es)
unfolding count_errors
times-count_errors t [] counts h = omega arith
times-count_errors t (e ∷ es) counts h =
    times-count_errors t es (count_error counts e.error_type) h
    ∙ ground (arith, times-count_error t e.error_type counts h)

abbrev pub did_not_succeed : UsageEvent → Bool
did_not_succeed e = not e.success

select-did_not_succeed :
    (es : List UsageEvent)
    → length (select succeeded es) + length (select did_not_succeed es) ≡ length es
select-did_not_succeed [] = refl
select-did_not_succeed (e ∷ es) = ground (arith, select-did_not_succeed es)

-- A summary counts the project's events, those that succeeded, those that did not, and under each
-- error's name the events that failed with it.
pub summarize-counts :
    (sums : Sums) (project : Option String) (s : UsageStore)
    → let a = summarize sums project s in
      (a.total_calls ≡ count project s)
      × (a.successful_calls
          ≡ length (select succeeded (select (of_project project) s.usage_events)))
      × (a.failed_calls
          ≡ length (select did_not_succeed (select (of_project project) s.usage_events)))
      × ((t : String)
          → has_text t ≡ true
          → times t a.error_counts
            ≡ length (select (failed_with t) (select (of_project project) s.usage_events)))
unfolding summarize count
summarize-counts sums project s =
    let rows = select (of_project project) s.usage_events in
    (
      refl,
      refl,
      omega (arith, select-did_not_succeed rows),
      λ t h. times-count_errors t rows [] h ∙ unfold lookup in omega arith,
    )

abbrev pub marked_as : Bool → UsageEvent → UsageEvent
marked_as golden e = record e { is_golden = golden }

abbrev pub if_found : (UsageEvent → UsageEvent) → Option UsageEvent → Option UsageEvent
if_found f none = none
if_found f (some e) = some (f e)

module _ (id : String) (golden : Bool) where
  find_first-set_golden_self :
      (es : List UsageEvent)
      → find_first (λ e. e.id == id) (map (set_golden id golden) es)
        ≡ if_found (marked_as golden) (find_first (λ e. e.id == id) es)
  unfolding set_golden
  find_first-set_golden_self [] = refl
  find_first-set_golden_self (e ∷ es) = elim (Bool-cases (e.id == id)) [
    | inl here ↦ rw here (rw here)
    | inr there ↦ rw there (rw there (find_first-set_golden_self es))
  ]

  find_first-set_golden_ne :
      (j : String) (es : List UsageEvent)
      → (j == id) ≡ false
      → find_first (λ e. e.id == j) (map (set_golden id golden) es) ≡ find_first (λ e. e.id == j) es
  unfolding set_golden
  find_first-set_golden_ne j [] h = refl
  find_first-set_golden_ne j (e ∷ es) h =
      ground (arith, find_first-set_golden_ne j es h, eq_iff e.id id, eq_iff e.id j, eq_iff j id)

  select-set_golden :
      (p : Option String) (es : List UsageEvent)
      → length (select (of_project p) (map (set_golden id golden) es))
        ≡ length (select (of_project p) es)
  unfolding set_golden clause
  select-set_golden p [] = refl
  select-set_golden p (e ∷ es) = ground (arith, select-set_golden p es)

-- Marking gives the event of the `id` its new mark and changes no other part of it, returns that
-- event, and leaves what every other `id` gets and every count.
pub mark_golden_lem :
    (id : String) (golden : Bool) (s : UsageStore)
    → let (marked, t) = mark_golden id golden s in
      (marked ≡ get_usage_event id t)
      × (marked ≡ if_found (marked_as golden) (get_usage_event id s))
      × ((j : String) → (j == id) ≡ false → get_usage_event j t ≡ get_usage_event j s)
      × ((p : Option String) → count p t ≡ count p s)
unfolding mark_golden get_usage_event count
mark_golden_lem id golden s = (
  refl,
  find_first-set_golden_self id golden s.usage_events,
  λ j h. find_first-set_golden_ne id golden j s.usage_events h,
  λ p. select-set_golden id golden p s.usage_events,
)
