-- ===== src/Examples/Rows.antt =====
-- Events as rows.
use api2agent.Common.{arith, true, Option, none, some, [], ◌∷◌, ◌≡◌, refl, ap}
use api2agent.Python.Value.{Value, Object, text, object}
use api2agent.Control.{UsageEvent}
use api2agent.Control.Storage.{UsageStore, empty_store, record_event, get_usage_event, mark_golden}
use api2agent.Control.Rows.{read_back, Json, insert_row, select_event, update_golden}
use api2agent.Control.Rows.Refines.{
  read_back_lem, Written, rows_of, rows_in, read_back_lem, rows-refine,
}
use api2agent.Examples.Control.{listed, timed_out}

abbrev paged : Object
paged = ("page", text "1") ∷ []

abbrev json : Json
json = record { dumps = λ v. "{'page': '1'}"; loads = λ s. some (object paged) }

abbrev paged_event : UsageEvent
paged_event = record listed { id = "e3"; request_metadata = some paged }

abbrev pages : UsageStore
pages = record empty_store { usage_events = timed_out ∷ paged_event ∷ [] }

abbrev as_object : Option Object → Option Value
as_object none = none
as_object (some d) = some (object d)

paged_event-Written : Written json paged_event
paged_event-Written d e = (refl, ap as_object e)

timed_out-Written : Written json timed_out
timed_out-Written d e = ground arith

read_back_lem_example : read_back json paged_event ≡ some paged_event
read_back_lem_example = read_back_lem json paged_event paged_event-Written (record {
  latency = refl;
  total = refl;
  network = refl;
  provider = refl;
  overhead = refl;
  cost = refl;
})

rows-refine_example :
    (insert_row json listed (rows_of json pages.usage_events)
      ≡ rows_in json (record_event listed pages))
    × (select_event json "e3" (rows_of json pages.usage_events) ≡ some (get_usage_event "e3" pages))
    × (update_golden "e3" true (rows_of json pages.usage_events)
        ≡ rows_of json (mark_golden "e3" true pages).1.usage_events)
rows-refine_example =
    rows-refine json listed "e3" true pages (timed_out-Written, (paged_event-Written, tt))
