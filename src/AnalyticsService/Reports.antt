-- ===== src/AnalyticsService/Reports.antt =====
-- routes.py: `dashboard` and `usage_report`. Dictionaries are lists of their entries.
use distributed_traffic_serv.Base.{
  ℕ, suc, ◌-◌, ltb, leb, String, Option, none, some, List, [], ◌∷◌, ◌==◌, string_eq, truthy,
  nullish, lookup, length, count, if◌then◌else◌,
}
use distributed_traffic_serv.Base.Decimal.{Decimal, dec}
use distributed_traffic_serv.AnalyticsService.Events.{BookingEvent}

abbrev pub Tally : Type 0
Tally = List (String × ℕ)

-- `by[key] = by.get(key, 0) + 1`.
unfoldable pub bump : String → Tally → Tally
bump key [] = (key, 1) ∷ []
bump key ((k, n) ∷ rest) =
    let more = bump key rest in if k == key then (k, suc n) ∷ rest else (k, n) ∷ more

-- `by.get(key, 0)`.
abbrev pub tally_of : String → Tally → ℕ
tally_of key by = nullish (lookup key by) 0

unfoldable pub bump_region : Option String → Tally → Tally
unfolding bump
bump_region none by = by
bump_region (some region) by = if truthy region then bump region by else by

-- The loop of `dashboard`.
unfoldable pub by_type_and_region : List BookingEvent → Tally → Tally → Tally × Tally
unfolding bump bump_region
by_type_and_region [] by_type by_region = (by_type, by_region)
by_type_and_region (e ∷ events) by_type by_region =
    by_type_and_region events (bump e.event_type by_type) (bump_region e.region by_region)

pub record DashboardStats : Type 0 where
  pub total_bookings : ℕ
  pub confirmed : ℕ
  pub cancelled : ℕ
  pub failed : ℕ
  pub by_region : Tally
  pub last_updated : ℕ

-- `dashboard`, at the time `now`.
unfoldable pub dashboard : ℕ → List BookingEvent → DashboardStats
unfolding by_type_and_region lookup
dashboard now events =
    let by : Tally × Tally = by_type_and_region events [] [] in
    record {
      total_bookings = length events;
      confirmed = tally_of "booking.confirmed" by.0;
      cancelled = tally_of "booking.cancelled" by.0;
      failed = tally_of "booking.failed" by.0;
      by_region = by.1;
      last_updated = now;
    }

pub record UsageReport : Type 0 where
  pub total_events : ℕ
  pub last_24h_events : ℕ
  pub recent_footfall_pct : Decimal
  pub by_event_type : Tally
  pub by_region : Tally
  pub generated_at : ℕ

-- `timedelta(days=7)`.
abbrev pub seven_days : ℕ
seven_days = 604800000000

-- `round(a / b * 100.0, 1)`, which the runtime computes of doubles.
abbrev pub Percent : Type 0
Percent = ℕ → ℕ → Decimal

-- `usage_report`, at the time `now`. The groups, whose order SQL leaves open, stand in the order of
-- their first rows.
unfoldable pub usage_report : Percent → ℕ → List BookingEvent → UsageReport
unfolding by_type_and_region count
usage_report percent now events =
    let recent : ℕ = count (λ e. leb (now - seven_days) e.created_at) events in
    let by : Tally × Tally = by_type_and_region events [] [] in
    record {
      total_events = length events;
      last_24h_events = recent;
      recent_footfall_pct =
          if ltb 0 (length events) then percent recent (length events) else dec 0 0;
      by_event_type = by.0;
      by_region = by.1;
      generated_at = now;
    }
