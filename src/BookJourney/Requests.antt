-- ===== src/BookJourney/Requests.antt =====
-- What the page has asked when a booking is requested, and that each check it waits for ends.
use mathlib.Core.List.{Memᴰ}
use distributed_traffic_serv.Base.{
  ℕ, ◌≡◌, refl, inl, inr, String, true, false, ◌==◌, nat_eq, string_eq, Option, none, some, List,
  [], ◌∷◌, arith, All-mem, any, Bool-cases, Option-cases, eqb_iff,
}
use distributed_traffic_serv.Api.Reply.{Reply, ok, failed}
use distributed_traffic_serv.Api.Bookings.{
  BookingOut, BookingPayload, RoutePreviewOut, RoutePreviewPayload,
}
use distributed_traffic_serv.BookJourney.Waypoints.{Waypoint}
use distributed_traffic_serv.BookJourney.State.{Book, InFlight, initial, can_submit}
use distributed_traffic_serv.BookJourney.Select.{handle_route_select, handle_map_point_click}
use distributed_traffic_serv.BookJourney.Check.{ToIso, preview_payload, preview_settled}
use distributed_traffic_serv.BookJourney.Submit.{handle_submit, booking_settled, booking_payload}
use distributed_traffic_serv.BookJourney.Page.{
  Step, chooses, clicks, sets_time, types_plate, submits, previews, books, Reached, mounts, next,
  submit_disabled,
}
use distributed_traffic_serv.BookJourney.Freshness.{
  payload_of, chosen, Fresh, Fresh-same, run_effect-Fresh, after_render-Fresh,
  preview_settled-Fresh,
}

module _ (to_iso : ToIso) (Vouches : RoutePreviewPayload → RoutePreviewOut → Type 0) where
  handle_submit-Fresh :
      (s : Book) → Fresh to_iso Vouches s → Fresh to_iso Vouches (handle_submit to_iso s).0
  unfolding handle_submit chosen
  handle_submit-Fresh s h =
      Fresh-same to_iso Vouches s (handle_submit to_iso s).0 (ground arith)
        (ground arith, ground arith, ground arith, ground arith) h

  booking_settled-Fresh :
      (reply : Reply BookingOut) (s : Book)
      → Fresh to_iso Vouches s
      → Fresh to_iso Vouches (booking_settled reply s)
  unfolding booking_settled chosen
  booking_settled-Fresh (ok out) s h = h
  booking_settled-Fresh (failed e) s h = h

  Step-Fresh :
      {s t : Book} → Step to_iso Vouches s t → Fresh to_iso Vouches s → Fresh to_iso Vouches t
  unfolding handle_route_select handle_map_point_click chosen
  Step-Fresh {s} (chooses route m) h =
      after_render-Fresh to_iso Vouches s (handle_route_select route s) (refl, refl, refl, refl) h
  Step-Fresh {s} (clicks w m) h =
      after_render-Fresh to_iso Vouches s (handle_map_point_click w.id s)
        (ground arith, ground arith, ground arith, ground arith) h
  Step-Fresh {s} (sets_time time) h =
      after_render-Fresh to_iso Vouches s (record s { datetime = time }) (refl, refl, refl, refl) h
  Step-Fresh {s} (types_plate plate) h = h
  Step-Fresh {s} (submits enabled) h = handle_submit-Fresh s h
  Step-Fresh {s} (previews f m reply v) h = preview_settled-Fresh to_iso Vouches f reply s m v h
  Step-Fresh {s} (books reply l) h = booking_settled-Fresh reply s h

  pub Reached-Fresh : {s : Book} → Reached to_iso Vouches s → Fresh to_iso Vouches s
  unfolding initial
  Reached-Fresh (mounts user soon) = run_effect-Fresh to_iso Vouches (initial user soon) tt
  Reached-Fresh (next r st) = Step-Fresh st (Reached-Fresh r)

  -- A booking that is for the journey of a preview.
  pub record IsFor (b : BookingPayload) (p : RoutePreviewPayload) : Type 0 where
    pub same_origin_lat : b.origin_lat ≡ p.origin_lat
    pub same_origin_lng : b.origin_lng ≡ p.origin_lng
    pub same_destination_lat : b.destination_lat ≡ p.destination_lat
    pub same_destination_lng : b.destination_lng ≡ p.destination_lng
    pub same_departure : b.departure_time ≡ p.departure_time

  -- The booking that a submission requests is backed by a preview.
  pub record IsBacked (s : Book) : Type 0 where
    pub booking : BookingPayload
    pub preview : RoutePreviewPayload
    pub answer : RoutePreviewOut
    pub requested : (handle_submit to_iso s).1 ≡ some booking
    pub for_preview : IsFor booking preview
    pub answered : Vouches preview answer
    pub available : answer.route_available ≡ true

  payload_of-parts :
      (o d : Option Waypoint) (departure : Option String) (p : RoutePreviewPayload)
      → payload_of o d departure ≡ some p
      → (o' : Waypoint) × (d' : Waypoint) × (t : String) × (o ≡ some o')
        × (d ≡ some d')
        × (departure ≡ some t)
        × (p ≡ preview_payload o' d' t)
  unfolding payload_of
  payload_of-parts (some o) (some d) (some t) p e = (o, d, t, refl, refl, refl, cc)
  payload_of-parts (some o) (some d) none p e = cc
  payload_of-parts (some o) none t p e = cc
  payload_of-parts none d t p e = cc

  -- In each state that the page comes to, if the submit button is enabled then submitting requests
  -- a booking, and the server has answered a preview request for the same two points and the same
  -- time that the route is available.
  pub submit-IsBacked :
      {s : Book} → Reached to_iso Vouches s → submit_disabled s ≡ false → IsBacked s
  unfolding submit_disabled can_submit handle_submit chosen
  submit-IsBacked {s} r enabled = elim (Option-cases s.route_preview) [
    | inl nothing ↦ absurd (ground arith)
    | inr (out, shown) ↦
        let (p, now, v) = (Reached-Fresh r).vouched out (ground arith) shown in
        let (o, d, t, eo, ed, et, ep) = payload_of-parts _ _ _ p now in
        record {
          booking = booking_payload o d t s.plate_number;
          preview = p;
          answer = out;
          requested = ground arith;
          for_preview = ground arith;
          answered = v;
          available = ground arith;
        }
  ]

  any-run :
      (k : ℕ) (fs : List InFlight)
      → any (λ f. f.run == k) fs ≡ true
      → (f : InFlight) × Memᴰ f fs × (f.run ≡ k)
  unfolding any
  any-run k [] e = cc
  any-run k (f ∷ fs) e = elim (Bool-cases (f.run == k)) [
    | inl here ↦ (f, Memᴰ.head refl, (eqb_iff _ _).0 here)
    | inr other ↦ let (g, m, same) = any-run k fs (ground arith) in (g, Memᴰ.tail m, same)
  ]

  -- In each state that the page comes to, if two points and a date are chosen and the check is
  -- shown to be in progress, then its request is under way, for what is chosen, and any answer to
  -- it ends the check.
  pub check_ends :
      {s : Book} (p : RoutePreviewPayload)
      → Reached to_iso Vouches s
      → chosen to_iso s ≡ some p
      → s.checking_route ≡ true
      → (f : InFlight) × Memᴰ f s.in_flight
        × (f.payload ≡ p)
        × ((reply : Reply RoutePreviewOut) → (preview_settled f.run reply s).checking_route ≡ false)
  unfolding preview_settled
  check_ends {s} p r now checking =
      let h = Reached-Fresh r in
      let (f, m, latest) = any-run s.run s.in_flight (h.pending p now checking) in
      let mine : chosen to_iso s ≡ some f.payload = All-mem _ s.in_flight h.current m latest in
      (f, m, cc, λ reply. settled f latest reply)
    where
      settled :
          (f : InFlight)
          → f.run ≡ s.run
          → (reply : Reply RoutePreviewOut) → (preview_settled f.run reply s).checking_route ≡ false
      settled f latest (ok out) = ground (arith, eqb_iff f.run s.run)
      settled f latest (failed e) = ground (arith, eqb_iff f.run s.run)
