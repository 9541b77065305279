-- ===== src/AnalyticsService/Counts.antt =====
-- What the statistics count.
use distributed_traffic_serv.Base.{
  ℕ, suc, ◌+◌, ◌≤◌, ◌≡◌, refl, ◌∙◌, String, Bool, true, false, Option, none, some, List, [], ◌∷◌,
  map, ◌==◌, string_eq, eq_iff, truthy, lookup, length, count, if◌then◌else◌, arith,
}
use distributed_traffic_serv.BookingService.Saga.{
  Event, RouteSegment, Config, Env, Job, confirmed_event,
}
use distributed_traffic_serv.Delivery.Repeats.{
  count-record_all, record_all-ends, deliver-once, deliver-at_least_once,
}
use distributed_traffic_serv.AnalyticsService.Events.{
  BookingEvent, event_row, rows_over, rows_of, handle_event,
}
use distributed_traffic_serv.AnalyticsService.Reports.{
  Tally, bump, tally_of, bump_region, by_type_and_region, dashboard,
}

tally_of-bump :
    (j k : String) (by : Tally)
    → tally_of j (bump k by) ≡ (if k == j then suc (tally_of j by) else tally_of j by)
unfolding bump lookup
tally_of-bump j k [] = ground (arith, eq_iff k j)
tally_of-bump j k ((i, n) ∷ rest) =
    ground (arith, eq_iff i k, eq_iff i j, eq_iff k j, tally_of-bump j k rest)

abbrev pub has_type : String → BookingEvent → Bool
has_type j e = e.event_type == j

abbrev pub names : String → Option String → Bool
names j none = false
names j (some region) = region == j

abbrev pub in_region : String → BookingEvent → Bool
in_region j e = names j e.region

tally_of-bump_region :
    (j : String) (region : Option String) (by : Tally)
    → truthy j ≡ true
    → tally_of j (bump_region region by)
      ≡ (if names j region then suc (tally_of j by) else tally_of j by)
unfolding bump_region
tally_of-bump_region j none by shown = refl
tally_of-bump_region j (some region) by shown =
    ground (arith, eq_iff region "", eq_iff j "", eq_iff region j, tally_of-bump j region by)

types_counted :
    (j : String) (events : List BookingEvent) (by_type by_region : Tally)
    → tally_of j (by_type_and_region events by_type by_region).0
      ≡ tally_of j by_type + count (has_type j) events
unfolding by_type_and_region count
types_counted j [] by_type by_region = omega arith
types_counted j (e ∷ events) by_type by_region = ground (
  arith,
  tally_of-bump j e.event_type by_type,
  types_counted j events (bump e.event_type by_type) (bump_region e.region by_region),
)

regions_counted :
    (j : String) (events : List BookingEvent) (by_type by_region : Tally)
    → truthy j ≡ true
    → tally_of j (by_type_and_region events by_type by_region).1
      ≡ tally_of j by_region + count (in_region j) events
unfolding by_type_and_region count
regions_counted j [] by_type by_region shown = omega arith
regions_counted j (e ∷ events) by_type by_region shown = ground (
  arith,
  tally_of-bump_region j e.region by_region shown,
  regions_counted j events (bump e.event_type by_type) (bump_region e.region by_region) shown,
)

-- The dashboard's numbers are those of the rows: all of them, those of each of the three types, and
-- those of each region that has a name.
pub dashboard-counts :
    (now : ℕ) (events : List BookingEvent) (region : String)
    → truthy region ≡ true
    → ((dashboard now events).total_bookings ≡ length events)
      × ((dashboard now events).confirmed ≡ count (has_type "booking.confirmed") events)
      × ((dashboard now events).cancelled ≡ count (has_type "booking.cancelled") events)
      × ((dashboard now events).failed ≡ count (has_type "booking.failed") events)
      × (tally_of region (dashboard now events).by_region ≡ count (in_region region) events)
unfolding dashboard lookup
dashboard-counts now events region shown = (
  refl,
  omega (arith, types_counted "booking.confirmed" events [] []),
  omega (arith, types_counted "booking.cancelled" events [] []),
  omega (arith, types_counted "booking.failed" events [] []),
  omega (arith, regions_counted region events [] [] shown),
)

count-rows :
    (key : String) (e : Event) (now : ℕ) (regions : List String)
    → e.routing_key ≡ key
    → count (has_type key) (map (λ r. event_row e now (some r)) regions) ≡ length regions
unfolding count
count-rows key e now [] h = refl
count-rows key e now (r ∷ regions) h =
    ground (arith, eq_iff e.routing_key key, count-rows key e now regions h)

length-map_row :
    (e : Event) (now : ℕ) (regions : List String)
    → length (map (λ r. event_row e now (some r)) regions) ≡ length regions
length-map_row e now [] = refl
length-map_row e now (r ∷ regions) = omega (arith, length-map_row e now regions)

length-map_region :
    (route : List RouteSegment) → length (map (λ seg. seg.region) route) ≡ length route
length-map_region [] = refl
length-map_region (seg ∷ route) = omega (arith, length-map_region route)

rows-counted :
    (takes now : ℕ) (e : Event) (rows events : List BookingEvent) (key : String)
    → rows_of e now ≡ rows
    → length rows ≤ takes
    → count (has_type key) (handle_event (takes ∷ []) e now events).0
      ≡ count (has_type key) rows + count (has_type key) events
unfolding handle_event
rows-counted takes now e rows events key same h = rw same (
    rw (deliver-once takes [] rows events h)
      (count-record_all (has_type key) takes rows events (record_all-ends takes rows events h)))

dashboard-confirmed :
    (now : ℕ) (events : List BookingEvent)
    → (dashboard now events).confirmed ≡ count (has_type "booking.confirmed") events
unfolding dashboard lookup
dashboard-confirmed now events = omega (arith, types_counted "booking.confirmed" events [] [])

-- One confirmed booking is counted once for each segment of its route, where the database takes the
-- rows of its event at the first delivery.
pub confirmed_event-counts_segments :
    (config : Config) (env : Env) (job : Job) (seg : RouteSegment) (route : List RouteSegment)
    (takes now at : ℕ) (events : List BookingEvent)
    → length (seg ∷ route) ≤ takes
    → (dashboard at
        (handle_event
          (takes ∷ [])
          (confirmed_event config env job (seg ∷ route))
          now
          events).0).confirmed
      ≡ length (seg ∷ route) + (dashboard at events).confirmed
unfolding rows_of rows_over
confirmed_event-counts_segments config env job seg route takes now at events h =
    let e : Event = confirmed_event config env job (seg ∷ route) in
    let regions : List String = map (λ s. s.region) (seg ∷ route) in
    let rows : List BookingEvent = map (λ r. event_row e now (some r)) regions in
    let long : length rows ≡ length (seg ∷ route) =
      length-map_row e now regions ∙ length-map_region (seg ∷ route) in
    let counted = rows-counted takes now e rows events "booking.confirmed" refl (omega arith) in
    let each = count-rows "booking.confirmed" e now regions refl in
    let after = dashboard-confirmed at (handle_event (takes ∷ []) e now events).0 in
    let before = dashboard-confirmed at events in
    omega (arith, long, counted, each, after, before, length-map_region (seg ∷ route))

-- A message that is handled to its end, however often it is delivered, is counted under its type at
-- least as often as it has rows.
pub handle_event-AtLeast :
    (attempts : List ℕ) (e : Event) (now at : ℕ) (events : List BookingEvent) (key : String)
    → (handle_event attempts e now events).1 ≡ true
    → count (has_type key) (rows_of e now) + count (has_type key) events
      ≤ count (has_type key) (handle_event attempts e now events).0
unfolding handle_event
handle_event-AtLeast attempts e now at events key h =
    deliver-at_least_once (has_type key) attempts (rows_of e now) events h
