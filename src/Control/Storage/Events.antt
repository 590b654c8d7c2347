-- ===== src/Control/Storage/Events.antt =====
-- The table of usage events: what is recorded, counted, marked and summarised.
use api2agent.Common.{
  ◌+◌, String, Bool, false, Option, some, List, [], ◌∷◌, ◌++◌, ◌==◌, ◌≡◌, refl, ap, ◌∙◌, subst,
  arith, length, select, any, if◌then◌else◌, Bool-cases, inl, inr, length-append,
}
use api2agent.Control.{UsageEvent}
use api2agent.Control.Storage.{stored_form, UsageStore, record_event, count, of_project}

-- No two events have one `id`.
abbrev pub DistinctIds : List UsageEvent → Type 0
DistinctIds [] = Unit
DistinctIds (e ∷ es) = (any (λ x. x.id == e.id) es ≡ false) × DistinctIds es

select-append :
    (p : UsageEvent → Bool) (xs ys : List UsageEvent)
    → select p (xs ++ ys) ≡ select p xs ++ select p ys
select-append p [] ys = refl
select-append p (x ∷ xs) ys = ground (arith, select-append p xs ys)

pub count-record_event :
    (e : UsageEvent) (s t : UsageStore) (p : Option String)
    → record_event e s ≡ some t
    → count p t ≡ count p s + (if of_project p e then 1 else 0)
unfolding record_event count stored_form
count-record_event e s t p h = elim (Bool-cases (any (λ x. x.id == e.id) s.usage_events)) [
  | inl old ↦ absurd (ground arith)
  | inr new ↦
      let is_t : record s { usage_events = s.usage_events ++ stored_form e ∷ [] } ≡ t =
        ground arith in
      subst
        (λ (t : UsageStore).
          length (select (of_project p) t.usage_events)
          ≡ length (select (of_project p) s.usage_events) + (if of_project p e then 1 else 0))
        is_t
        (ap length (select-append (of_project p) s.usage_events (stored_form e ∷ []))
          ∙ length-append (select (of_project p) s.usage_events) _
          ∙ ground arith)
]
