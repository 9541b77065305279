-- ===== src/VerifyPlate/View.antt =====
-- What VerifyPlate.tsx renders.
use distributed_traffic_serv.Base.{
  String, ◌<>◌, Bool, true, false, Option, none, some, List, [], ◌∷◌, map, join, truthy, to_upper,
  ToLocale, if◌then◌else◌,
}
use distributed_traffic_serv.Api.Reply.{Message, shown}
use distributed_traffic_serv.Api.Verification.{
  Source, cache, database, not_found, VerificationResult,
}
use distributed_traffic_serv.VerifyPlate.State.{RecentCheck, Lookup}

-- `sourceLabel`, of a result.
unfoldable pub source_label : Source → Option String
source_label cache = some "CACHE  < 1ms"
source_label database = some "DATABASE  ~20ms"
source_label not_found = none

-- `sourceColor`, of a result.
unfoldable pub source_color : Source → String
source_color cache = "var(--green)"
source_color _ = "var(--accent)"

-- The text that a source is.
abbrev source_name : Source → String
source_name cache = "cache"
source_name database = "database"
source_name not_found = "not_found"

pub record Badge : Type 0 where
  pub color : String
  pub label : String

pub data Verdict : Type 0 where
  authorized : (booking_id window regions : Option String) → Option Badge → Verdict
  refused : String → Verdict

pub record ResultCard : Type 0 where
  pub color : String
  pub heading : String
  pub plate_number : String
  pub verdict : Verdict

pub record CheckLine : Type 0 where
  pub color : String
  pub plate_number : String
  pub source_background : String
  pub source_color : String
  pub source : String
  pub time : String

pub record LookupScreen : Type 0 where
  pub heading : String
  pub plate : String
  pub error : Option Message
  pub button_disabled : Bool
  pub button_text : String
  pub result : Option ResultCard
  pub recent : List CheckLine

-- `text && …`: nothing for the empty text as well.
abbrev pub when_truthy : Option String → Option String
when_truthy none = none
when_truthy (some s) = if truthy s then some s else none

unfoldable pub badge : Source → Option Badge
unfolding source_label source_color
badge source = elim (source_label source) as (λ _. Option Badge) [
  | none ↦ none
  | some label ↦ some (record { color = source_color source; label = label })
]

unfoldable pub regions_text : Option (List String) → Option String
unfolding join
regions_text none = none
regions_text (some []) = none
regions_text (some (s ∷ rest)) = some (join ", " (s ∷ rest))

unfoldable pub check_color : Bool → String
check_color is_authorized = if is_authorized then "var(--green)" else "var(--red)"

is_cache : Source → Bool
is_cache cache = true
is_cache _ = false

-- `to_locale` is `toLocaleString` and `to_time` is `toLocaleTimeString` of the runtime.
module _ (to_locale to_time : ToLocale) where
  window_end : Option String → String
  window_end none = ""
  window_end (some at) = " — " <> to_time at

  -- `result.departure_time && …`.
  window : Option String → Option String → Option String
  unfolding window_end
  window none until = none
  window (some from) until = some (to_locale from <> window_end until)

  unfoldable pub verdict : VerificationResult → Verdict
  unfolding window regions_text badge
  verdict r =
      if r.is_authorized
      then authorized (when_truthy r.booking_id)
          (window (when_truthy r.departure_time) (when_truthy r.journey_window_end))
          (regions_text r.segments) (badge r.source)
      else refused r.message

  unfoldable pub result_card : VerificationResult → ResultCard
  unfolding verdict check_color
  result_card r = record {
    color = check_color r.is_authorized;
    heading = if r.is_authorized then "AUTHORIZED" else "NOT AUTHORIZED";
    plate_number = r.plate_number;
    verdict = verdict r;
  }

  unfoldable pub check_line : RecentCheck → CheckLine
  unfolding is_cache to_upper check_color
  check_line c = record {
    color = check_color c.result.is_authorized;
    plate_number = c.result.plate_number;
    source_background = if is_cache c.result.source then "#dcfce7" else "#eff6ff";
    source_color = if is_cache c.result.source then "#15803d" else "var(--accent)";
    source = to_upper (source_name c.result.source);
    time = to_time c.checked_at;
  }

  -- The whole page.
  unfoldable pub lookup_screen : Lookup → LookupScreen
  unfolding result_card check_line
  lookup_screen s = record {
    heading = "Verify Vehicle";
    plate = s.plate;
    error = if shown s.error then some s.error else none;
    button_disabled = s.loading;
    button_text = if s.loading then "Checking…" else "Check now →";
    result = elim s.result as (λ _. Option ResultCard) [
      | none ↦ none
      | some r ↦ some (result_card r)
    ];
    recent = map check_line s.recent_checks;
  }
