-- ===== src/BookingService/Preview.antt =====
-- service.py: `preview_route`, and its answer where there is no route. `names` gives the names that the
-- tables have for road segments. Distances and coordinates are left out.
use distributed_traffic_serv.Base.{
  ℕ, String, Option, none, some, List, [], ◌∷◌, ◌++◌, ◌==◌, string_eq, nullish, truthy, last?,
  slice_to, if◌then◌else◌,
}
use distributed_traffic_serv.BookingService.Store.{Schema, schema_of}
use distributed_traffic_serv.BookingService.Saga.{RouteSegment}
use distributed_traffic_serv.BookingService.Service.{Route, found, not_found, empty}

pub record PreviewSegment : Type 0 where
  pub segment_id : String
  pub segment_name : String
  pub region : String
  pub duration_minutes : ℕ
  pub slot_start : ℕ
  pub slot_end : ℕ

-- What a preview comes to: a route, a reason that there is none, or an exception at a region that is
-- not known.
pub data Preview : Type 0 where
  available :
      (estimated_duration_minutes : ℕ) (region_chain : List String) (segments : List PreviewSegment)
      → Preview
  unavailable : (reason : String) → Preview
  raised : Preview

-- `if not region_chain or region_chain[-1] != region`.
unfoldable pub extend_chain : List String → String → List String
extend_chain region_chain region = elim (last? region_chain) as (λ _. List String) [
  | none ↦ region_chain ++ (region ∷ [])
  | some last ↦ if last == region then region_chain else region_chain ++ (region ∷ [])
]

-- `row.scalar_one_or_none() or seg["segment_id"][:8]`.
unfoldable pub segment_name : Option String → String → String
unfolding slice_to
segment_name name segment_id =
    if truthy (nullish name "") then nullish name "" else slice_to 8 segment_id

abbrev pub preview_segment : Option String → RouteSegment → PreviewSegment
preview_segment name seg = record {
  segment_id = seg.segment_id;
  segment_name = segment_name name seg.segment_id;
  region = seg.region;
  duration_minutes = seg.duration_minutes;
  slot_start = seg.slot_start;
  slot_end = seg.slot_end;
}

abbrev pub shown_first :
    PreviewSegment
    → Option (List String × List PreviewSegment)
    → Option (List String × List PreviewSegment)
shown_first p none = none
shown_first p (some (chain, segments)) = some (chain, p ∷ segments)

-- The loop over the segments; `none` where a region is not known.
unfoldable pub preview_segments :
    (Schema → String → Option String)
    → List String
    → List RouteSegment
    → Option (List String × List PreviewSegment)
unfolding extend_chain segment_name schema_of
preview_segments names region_chain [] = some (region_chain, [])
preview_segments names region_chain (seg ∷ rest) =
    let more = preview_segments names (extend_chain region_chain seg.region) rest in
    elim (schema_of seg.region) as (λ _. Option (List String × List PreviewSegment)) [
      | none ↦ none
      | some schema ↦ shown_first (preview_segment (names schema seg.segment_id) seg) more
    ]

abbrev pub previewed : ℕ → Option (List String × List PreviewSegment) → Preview
previewed minutes none = raised
previewed minutes (some (chain, segments)) = available minutes chain segments

unfoldable pub preview_route : (Schema → String → Option String) → Route → Preview
unfolding preview_segments
preview_route names (found [] minutes) =
    unavailable "No valid path found between origin and destination"
preview_route names (found (seg ∷ rest) minutes) =
    previewed minutes (preview_segments names [] (seg ∷ rest))
preview_route names not_found = unavailable "No valid path found between origin and destination"
preview_route names empty = unavailable "Road network is empty; cannot resolve route"
