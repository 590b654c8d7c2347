-- ===== src/Control/Rows/Refines.antt =====
-- The statements on rows refine the store of events.
use api2agent.Common.{
  nat_eq, ◌&&◌, not, All, All-In, find_first-some, find_first-map, String, Bool, true, false,
  Option, none, some, List, [], ◌∷◌, ◌++◌, ◌==◌, ◌≡◌, refl, ap, sym, inl, inr, arith, map, any,
  find_first, has_text, Bool-cases, Option-cases,
}
use api2agent.Python.Number.{sign_bit}
use api2agent.Python.Value.{Object, object, entries-fields}
use api2agent.Control.{Float, ExecutionMode, direct, proxy, shadow, replay, mode_str, UsageEvent}
use api2agent.Control.Storage.{
  stored_form, is_null, UsageStore, record_event, get_usage_event, set_golden, mark_golden,
}
use api2agent.Control.Rows.{
  is_nan, real, unsigned, read_back, kept, UsageRow, Json, bit, is_set, mode_of, event_from,
  metadata_text, row_of, metadata_from, usage_event_from_row, insert_row, select_event,
  set_golden_row, update_golden,
}

mode_of-mode_str : (m : ExecutionMode) → mode_of (mode_str m) ≡ some m
unfolding mode_of
mode_of-mode_str direct = refl
mode_of-mode_str proxy = refl
mode_of-mode_str shadow = refl
mode_of-mode_str replay = refl

is_set-bit : (b : Bool) → is_set (bit b) ≡ b
is_set-bit true = refl
is_set-bit false = refl

-- A float that a REAL column gives back: no NaN and no negative zero.
abbrev pub is_plain : Float → Bool
is_plain x = not (is_nan x) && not (nat_eq x sign_bit)

abbrev pub is_plain_or_none : Option Float → Bool
is_plain_or_none none = true
is_plain_or_none (some x) = is_plain x

pub record Plain (e : UsageEvent) : Type 0 where
  pub latency : is_plain e.latency_ms ≡ true
  pub total : is_plain_or_none e.latency_total_ms ≡ true
  pub network : is_plain_or_none e.latency_network_ms ≡ true
  pub provider : is_plain_or_none e.latency_provider_ms ≡ true
  pub overhead : is_plain_or_none e.latency_overhead_ms ≡ true
  pub cost : is_plain e.estimated_cost ≡ true

unsigned-plain : (x : Float) → is_plain x ≡ true → unsigned x ≡ x
unsigned-plain x h = ground arith

real-plain : (x : Option Float) → is_plain_or_none x ≡ true → real x ≡ x
real-plain none h = refl
real-plain (some x) h = ground arith

Plain-is_null : (e : UsageEvent) → Plain e → is_null e ≡ false
Plain-is_null e plain = ground (arith, plain.latency, plain.cost)

Plain-stored_form : (e : UsageEvent) → Plain e → stored_form e ≡ e
unfolding stored_form
Plain-stored_form e plain =
    rw
      (
        unsigned-plain e.latency_ms plain.latency,
        unsigned-plain e.estimated_cost plain.cost,
        real-plain e.latency_total_ms plain.total,
        real-plain e.latency_network_ms plain.network,
        real-plain e.latency_provider_ms plain.provider,
        real-plain e.latency_overhead_ms plain.overhead,
      )
      refl

module _ (json : Json) where
  -- What `json.dumps` writes for the metadata of an event is no empty text, and loads again.
  abbrev pub Written : UsageEvent → Type 0
  Written e =
      (d : Object)
      → e.request_metadata ≡ some d
      → (has_text (json.dumps (object d)) ≡ true)
        × (json.loads (json.dumps (object d)) ≡ some (object d))

  metadata_from-text :
      (metadata : Option Object)
      → ((d : Object)
          → metadata ≡ some d
          → (has_text (json.dumps (object d)) ≡ true)
            × (json.loads (json.dumps (object d)) ≡ some (object d)))
      → metadata_from json (metadata_text json metadata) ≡ some metadata
  unfolding metadata_from
  metadata_from-text none written = refl
  metadata_from-text (some d) written =
      let (there, loads) = written d refl in
      rw (there, loads) (ap (λ x. some (some x)) (entries-fields d))

  usage_event_from_row-row_of :
      (e : UsageEvent) → Written e → usage_event_from_row json (row_of json e) ≡ some e
  unfolding usage_event_from_row row_of event_from
  usage_event_from_row-row_of e written =
      rw (mode_of-mode_str e.execution_mode, metadata_from-text e.request_metadata written)
        (rw (is_set-bit e.success, is_set-bit e.is_golden) refl)

  kept-row_of :
      (e : UsageEvent)
      → is_null e ≡ false
      → kept (row_of json e) ≡ some (row_of json (stored_form e))
  unfolding kept row_of stored_form
  kept-row_of e h = rw h refl

  stored_form-Written : (e : UsageEvent) → Written e → Written (stored_form e)
  unfolding stored_form
  stored_form-Written e written = written

  -- An event that is written as a row is read back as it was, where none of its six floats is a
  -- NaN or the negative zero and its metadata is written as a text that is not empty and loads
  -- again.
  pub read_back_lem : (e : UsageEvent) → Written e → Plain e → read_back json e ≡ some e
  unfolding read_back
  read_back_lem e written plain =
      rw (kept-row_of e (Plain-is_null e plain), Plain-stored_form e plain, read_back)
        (usage_event_from_row-row_of e written)

  abbrev pub rows_of : List UsageEvent → List UsageRow
  rows_of es = map (row_of json) es

  any-rows_of :
      (id : String) (es : List UsageEvent)
      → any (λ row. row.id == id) (rows_of es) ≡ any (λ e. e.id == id) es
  unfolding row_of
  any-rows_of id [] = refl
  any-rows_of id (e ∷ es) = ground (arith, any-rows_of id es)

  rows_of-append :
      (es : List UsageEvent) (e : UsageEvent)
      → rows_of (es ++ e ∷ []) ≡ rows_of es ++ row_of json e ∷ []
  rows_of-append [] e = refl
  rows_of-append (x ∷ es) e = ap (λ rows. row_of json x ∷ rows) (rows_of-append es e)

  abbrev pub rows_in : Option UsageStore → Option (List UsageRow)
  rows_in none = none
  rows_in (some s) = some (rows_of s.usage_events)

  insert_row-record_event :
      (e : UsageEvent) (s : UsageStore)
      → insert_row json e (rows_of s.usage_events) ≡ rows_in (record_event e s)
  unfolding insert_row record_event kept row_of stored_form
  insert_row-record_event e s =
      rw (any-rows_of e.id s.usage_events)
        (elim (Bool-cases (any (λ x. x.id == e.id) s.usage_events)) [
          | inl old ↦ rw old refl
          | inr new ↦ elim (Bool-cases (is_null e)) [
            | inl null ↦ rw (new, null) refl
            | inr good ↦
                rw (new, good) (ap some (sym (rows_of-append s.usage_events (stored_form e))))
          ]
        ])

  select_event-get :
      (id : String) (es : List UsageEvent)
      → All Written es
      → select_event json id (rows_of es) ≡ some (find_first (λ e. e.id == id) es)
  unfolding select_event row_of
  select_event-get id es written =
      rw
        (
          find_first-map (row_of json) (λ e. e.id == id) (λ row. row.id == id) (λ e. refl) es,
          select_event,
        )
        (elim (Option-cases (find_first (λ e. e.id == id) es)) [
          | inl absent ↦ rw absent refl
          | inr (e, found) ↦
              let (place, own) = find_first-some (λ x. x.id == id) es e found in
              rw (found, usage_event_from_row-row_of e (All-In Written es e written place)) refl
        ])

  set_golden_row-row_of :
      (id : String) (golden : Bool) (e : UsageEvent)
      → set_golden_row id golden (row_of json e) ≡ row_of json (set_golden id golden e)
  unfolding set_golden_row row_of set_golden
  set_golden_row-row_of id golden e = elim (Bool-cases (e.id == id)) [
    | inl own ↦ rw own refl
    | inr other ↦ rw other refl
  ]

  update_golden-rows :
      (id : String) (golden : Bool) (es : List UsageEvent)
      → update_golden id golden (rows_of es) ≡ rows_of (map (set_golden id golden) es)
  unfolding update_golden
  update_golden-rows id golden [] = refl
  update_golden-rows id golden (e ∷ es) =
      rw (set_golden_row-row_of id golden e, update_golden-rows id golden es) refl

  -- The rows of a store stand for it: to record an event, to read one by its id and to mark one on
  -- the rows is to do so on the store, with the same refusal of an id that is there and of a NaN in
  -- a column that must have a value, and with a REAL column's form of the floats; the metadata
  -- of the store's events must be written as texts that are not empty and load again.
  pub rows-refine :
      (e : UsageEvent) (id : String) (golden : Bool) (s : UsageStore)
      → All Written s.usage_events
      → (insert_row json e (rows_of s.usage_events) ≡ rows_in (record_event e s))
        × (select_event json id (rows_of s.usage_events) ≡ some (get_usage_event id s))
        × (update_golden id golden (rows_of s.usage_events)
            ≡ rows_of (mark_golden id golden s).1.usage_events)
  unfolding get_usage_event mark_golden
  rows-refine e id golden s written = (
    insert_row-record_event e s,
    select_event-get id s.usage_events written,
    update_golden-rows id golden s.usage_events,
  )
