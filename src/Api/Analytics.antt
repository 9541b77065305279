-- ===== src/Api/Analytics.antt =====
-- api/analytics.ts. `Record<string, number>` is the list of its entries, in their order.
use distributed_traffic_serv.Base.{ℕ, String, List}
use distributed_traffic_serv.Base.Decimal.{Decimal}
use distributed_traffic_serv.Api.Client.{Method, get}

pub record DashboardStats : Type 0 where
  pub total_bookings : ℕ
  pub confirmed : ℕ
  pub cancelled : ℕ
  pub failed : ℕ
  pub by_region : List (String × ℕ)
  pub last_updated : String

pub record CapacityReport : Type 0 where
  pub segment_id : String
  pub region : String
  pub slot_start : String
  pub booked_count : ℕ
  pub max_capacity : ℕ
  pub utilization_pct : Decimal

pub record UsageReport : Type 0 where
  pub total_events : ℕ
  pub last_24h_events : ℕ
  pub by_event_type : List (String × ℕ)
  pub by_region : List (String × ℕ)
  pub generated_at : String

unfoldable pub get_dashboard : Method × String
get_dashboard = (get, "/analytics/dashboard")

unfoldable pub get_capacity_report : Method × String
get_capacity_report = (get, "/analytics/reports/capacity")

unfoldable pub get_usage_report : Method × String
get_usage_report = (get, "/analytics/reports/usage")
