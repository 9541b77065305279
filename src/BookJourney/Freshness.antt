-- ===== src/BookJourney/Freshness.antt =====
-- The route check is about the choice on the screen: what an answer shows and what a submission
-- sends belong to the two points and the time that are chosen now, in whatever order the answers
-- of earlier checks come in.
use mathlib.Core.List.{Memᴰ}
use mathlib.Core.Path.{transport, subst}
use distributed_traffic_serv.Base.{
  ℕ, suc, ◌≤◌, ◌≡◌, refl, sym, ◌∙◌, inl, inr, String, Bool, true, false, not, ◌==◌, nat_eq,
  string_eq, Option, none, some, List, [], ◌∷◌, arith, All, All-mem, All-imp, All-filter, filter,
  any, Bool-cases, truthy, if◌then◌else◌, eq_iff, eqb_iff,
}
use distributed_traffic_serv.Api.Reply.{text, ApiError, Reply, ok, failed}
use distributed_traffic_serv.Api.Bookings.{RoutePreviewOut, RoutePreviewPayload}
use distributed_traffic_serv.BookJourney.Waypoints.{Waypoint}
use distributed_traffic_serv.BookJourney.State.{Book, InFlight, origin, destination}
use distributed_traffic_serv.BookJourney.Check.{
  ToIso, preview_payload, send_preview, check, run_effect, after_render, same_inputs,
  preview_settled, preview_answered, preview_failed, answered,
}

unfoldable pub payload_of :
    Option Waypoint → Option Waypoint → Option String → Option RoutePreviewPayload
payload_of (some o) (some d) (some departure) = some (preview_payload o d departure)
payload_of _ _ _ = none

-- What is chosen now, as the payload of its check: none without two points and a time.
unfoldable pub chosen : ToIso → Book → Option RoutePreviewPayload
unfolding payload_of
chosen to_iso s =
    payload_of (origin s) (destination s) (if truthy s.datetime then to_iso s.datetime else none)

-- The request of the latest run has not been answered.
unfoldable pub awaited : Book → Bool
awaited s = any (λ f. f.run == s.run) s.in_flight

module _ (to_iso : ToIso) (Vouches : RoutePreviewPayload → RoutePreviewOut → Type 0) where
  -- What is kept of a state, in terms of what is chosen, the number of the latest run, the
  -- requests under way, the preview, and whether a check is shown to be in progress.
  pub record IsFresh (now : Option RoutePreviewPayload) (run : ℕ) (in_flight : List InFlight)
      (preview : Option RoutePreviewOut) (checking : Bool) : Type 0 where
    pub numbered : All (λ f. f.run ≤ run) in_flight
    pub current : All (λ f. f.run ≡ run → now ≡ some f.payload) in_flight
    pub vouched :
        (out : RoutePreviewOut)
        → checking ≡ false
        → preview ≡ some out
        → (p : RoutePreviewPayload) × (now ≡ some p) × Vouches p out
    pub pending :
        (p : RoutePreviewPayload)
        → now ≡ some p
        → checking ≡ true
        → any (λ f. f.run == run) in_flight ≡ true

  abbrev pub Fresh : Book → Type 0
  Fresh s = IsFresh (chosen to_iso s) s.run s.in_flight s.route_preview s.checking_route

  -- A handler that leaves the check alone.
  abbrev pub SameCheck : Book → Book → Type 0
  SameCheck s t =
      (t.run ≡ s.run)
      × (t.in_flight ≡ s.in_flight)
      × (t.route_preview ≡ s.route_preview)
      × (t.checking_route ≡ s.checking_route)

  pub Fresh-same :
      (s t : Book) → chosen to_iso t ≡ chosen to_iso s → SameCheck s t → Fresh s → Fresh t
  Fresh-same s t e (a, b, c, d) h =
      transport (λ i. IsFresh (sym e i) (sym a i) (sym b i) (sym c i) (sym d i)) h

  -- The numbers of the requests of earlier runs.
  abbrev IsEarlier : Book → Type 0
  IsEarlier s = All (λ f. suc f.run ≤ s.run) s.in_flight

  earlier-numbered : (s : Book) → IsEarlier s → All (λ f. f.run ≤ s.run) s.in_flight
  earlier-numbered s h = All-imp (λ f lt. omega arith) s.in_flight h

  earlier-current :
      (s : Book) (Q : InFlight → Type 0) → IsEarlier s → All (λ f. f.run ≡ s.run → Q f) s.in_flight
  earlier-current s Q h = All-imp (λ f lt e. absurd (omega arith)) s.in_flight h

  -- A run with nothing to ask, or whose question failed: there is no preview.
  blank-IsFresh :
      (now : Option RoutePreviewPayload) (s : Book) (checking : Bool)
      → IsEarlier s
      → ((p : RoutePreviewPayload) → now ≡ some p → checking ≡ false)
      → IsFresh now s.run s.in_flight none checking
  blank-IsFresh now s checking h k = record {
    numbered = earlier-numbered s h;
    current = earlier-current s _ h;
    vouched = λ out c e'. cc;
    pending = λ p e' c. let idle : checking ≡ false = k p e' in cc;
  }

  send_preview-Fresh :
      (o d : Waypoint) (s : Book) (departure : Option String)
      → origin s ≡ some o
      → destination s ≡ some d
      → truthy s.datetime ≡ true
      → to_iso s.datetime ≡ departure
      → s.checking_route ≡ true
      → IsEarlier s
      → Fresh (send_preview o d departure s)
  unfolding send_preview chosen any
  send_preview-Fresh o d s none eo ed et ei c h = blank-IsFresh _ s _ h (λ p e. refl)
  send_preview-Fresh o d s (some departure) eo ed et ei c h = record {
    numbered = (omega arith, earlier-numbered s h);
    current = (λ _. ground arith, earlier-current s _ h);
    vouched = λ out c' e. cc;
    pending = λ p e c'. ground (arith, eqb_iff s.run s.run);
  }

  check-Fresh :
      (o d : Option Waypoint) (s : Book)
      → origin s ≡ o
      → destination s ≡ d
      → IsEarlier s
      → Fresh (check to_iso o d s)
  unfolding check chosen
  check-Fresh none d s eo ed h = blank-IsFresh _ s _ h (λ p e. ground arith)
  check-Fresh (some o) none s eo ed h = blank-IsFresh _ s _ h (λ p e. ground arith)
  check-Fresh (some o) (some d) s eo ed h = elim (Bool-cases (truthy s.datetime)) [
    | inl timed ↦
        let t : Book = record s { checking_route = true; preview_error = text "" } in
        let e : check to_iso (some o) (some d) s ≡ send_preview o d (to_iso s.datetime) t =
          rw timed in
        subst Fresh (sym e) (send_preview-Fresh o d t _ eo ed timed refl refl h)
    | inr untimed ↦
        let t : Book = record s { route_preview = none; preview_error = text "" } in
        let e : check to_iso (some o) (some d) s ≡ t = rw untimed in
        subst Fresh (sym e) (blank-IsFresh _ s _ h (λ p e'. ground arith))
  ]

  pub run_effect-Fresh :
      (s : Book) → All (λ f. f.run ≤ s.run) s.in_flight → Fresh (run_effect to_iso s)
  unfolding run_effect
  run_effect-Fresh s h =
      check-Fresh _ _ (record s { run = suc s.run }) refl refl
        (All-imp (λ f le. omega arith) s.in_flight h)

  same_inputs-chosen : (s t : Book) → same_inputs s t ≡ true → chosen to_iso t ≡ chosen to_iso s
  unfolding chosen
  same_inputs-chosen s t h =
      let o : s.origin_id ≡ t.origin_id = (eq_iff _ _).0 (ground arith) in
      let d : s.destination_id ≡ t.destination_id = (eq_iff _ _).0 (ground arith) in
      let w : s.datetime ≡ t.datetime = (eq_iff _ _).0 (ground arith) in cc

  pub after_render-Fresh : (s t : Book) → SameCheck s t → Fresh s → Fresh (after_render to_iso s t)
  unfolding after_render
  after_render-Fresh s t k h = elim (Bool-cases (same_inputs s t)) [
    | inl same ↦
        let e : after_render to_iso s t ≡ t = rw same in
        subst Fresh (sym e) (Fresh-same s t (same_inputs-chosen s t same) k h)
    | inr changed ↦
        let e : after_render to_iso s t ≡ run_effect to_iso t = rw changed in
        subst Fresh (sym e) (
          run_effect-Fresh t (transport (λ i. All (λ f. f.run ≤ sym k.0 i) (sym k.1 i)) h.numbered))
  ]

  any-filter :
      (k run : ℕ) (fs : List InFlight)
      → (k == run) ≡ false
      → any (λ f. f.run == run) (filter (λ f. not (f.run == k)) fs) ≡ any (λ f. f.run == run) fs
  unfolding any filter
  any-filter k run [] h = refl
  any-filter k run (f ∷ fs) h = ground (arith, any-filter k run fs h)

  preview_answered-Fresh :
      (f : InFlight) (out : RoutePreviewOut) (s : Book)
      → Memᴰ f s.in_flight
      → f.run ≡ s.run
      → Vouches f.payload out
      → Fresh s
      → Fresh (preview_answered out (answered f.run s))
  unfolding preview_answered chosen
  preview_answered-Fresh f out s m e v h = record {
    numbered = All-filter _ _ s.in_flight h.numbered;
    current = All-filter _ _ s.in_flight h.current;
    vouched = λ out' c same. (
      f.payload,
      All-mem _ s.in_flight h.current m e,
      let eq : out ≡ out' = cc in subst (Vouches f.payload) eq v,
    );
    pending = λ p e' c. cc;
  }

  preview_failed-Fresh :
      (k : ℕ) (x : ApiError) (s : Book) → Fresh s → Fresh (preview_failed x (answered k s))
  unfolding preview_failed chosen
  preview_failed-Fresh k x s h = record {
    numbered = All-filter _ _ s.in_flight h.numbered;
    current = All-filter _ _ s.in_flight h.current;
    vouched = λ out c same. cc;
    pending = λ p e' c. cc;
  }

  answered-Fresh : (k : ℕ) (s : Book) → (k == s.run) ≡ false → Fresh s → Fresh (answered k s)
  unfolding chosen
  answered-Fresh k s stale h = record {
    numbered = All-filter _ _ s.in_flight h.numbered;
    current = All-filter _ _ s.in_flight h.current;
    vouched = h.vouched;
    pending = λ p e c. any-filter k s.run s.in_flight stale ∙ h.pending p e c;
  }

  -- The answer to the latest run is about what is chosen; another answer shows nothing.
  pub preview_settled-Fresh :
      (f : InFlight) (reply : Reply RoutePreviewOut) (s : Book)
      → Memᴰ f s.in_flight
      → ((out : RoutePreviewOut) → reply ≡ ok out → Vouches f.payload out)
      → Fresh s
      → Fresh (preview_settled f.run reply s)
  unfolding preview_settled
  preview_settled-Fresh f reply s m v h = elim (Bool-cases (f.run == s.run)) [
    | inl latest ↦
        elim reply as (λ r. r ≡ reply → Fresh (preview_settled f.run r s)) [
          | ok out ↦ λ same.
              let e : preview_settled f.run (ok out) s ≡ preview_answered out (answered f.run s) =
                rw latest in
              subst Fresh (sym e)
                (preview_answered-Fresh f out s m ((eqb_iff _ _).0 latest) (v out (sym same)) h)
          | failed x ↦ λ same.
              let e : preview_settled f.run (failed x) s ≡ preview_failed x (answered f.run s) =
                rw latest in
              subst Fresh (sym e) (preview_failed-Fresh f.run x s h)
        ]
          refl
    | inr stale ↦
        let e : preview_settled f.run reply s ≡ answered f.run s = rw stale in
        subst Fresh (sym e) (answered-Fresh f.run s stale h)
  ]
