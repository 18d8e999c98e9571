-- ===== src/Optimizer/Simulation.antt =====
-- `simulate` and `optimizeRoute` of apps/api/src/services/optimizer.ts: the schedule of a route, its
-- limits, and the plan.
use real_time_logistics_plat.Common.{
  ℕ, ◌+◌, ◌-◌, ◌%◌, String, concat, Bool, true, false, not, ◌&&◌, Option, none, some, List, [], ◌∷◌,
  length, any, ltb, if◌then◌else◌, includes,
}
use real_time_logistics_plat.Model.{Coordinate}
use real_time_logistics_plat.Geo.{JsNumber, haversine_km}
use real_time_logistics_plat.StateMachine.{Outcome, returned, thrown}
use real_time_logistics_plat.Optimizer.{
  Stop, ShiftEnd, instant, time_of_day, Options, Constraints, defaults, demand_of, is_timed,
  nearest_neighbor, two_opt, travel_ms,
}

abbrev pub is_empty {ℓ} : {A : Type ℓ} → List A → Bool
is_empty [] = true
is_empty (_ ∷ _) = false

-- `parseBoundary`: a time of day before the start is the next day's.
unfoldable pub parse_boundary : ShiftEnd → ℕ → ℕ
parse_boundary (instant t) start = t
parse_boundary (time_of_day t) start =
    let date = start - start % 86400000 + t in if ltb date start then date + 86400000 else date

-- `[...new Set(values)]`: the first of equal values stays.
unfoldable pub distinct_from : List String → List String → List String
unfolding includes
distinct_from seen [] = []
distinct_from seen (x ∷ xs) = elim (includes seen x) [
  | true ↦ distinct_from seen xs
  | false ↦ x ∷ distinct_from (x ∷ seen) xs
]

module _ (num : JsNumber) where
  open num use {Num, of_ℕ, add, sub, mul, div, max, ltb as lt}

  -- A stop of the plan, with its times.
  pub record PlannedStop : Type 0 where
    pub stop : Stop
    pub arrival_at : Num
    pub departure_at : Num
    pub wait_minutes : Num
    pub late_risk : Bool

  -- The loop's state: where the driver is and when, and the sums so far.
  pub record Progress : Type 0 where
    pub cursor : Num
    pub previous : Coordinate
    pub distance_km : Num

  abbrev pub is_late : Option ℕ → Num → Bool
  is_late none cursor = false
  is_late (some t) cursor = lt (of_ℕ t) cursor

  -- The time at the stop, once its window is open.
  abbrev pub after_window : Bool → Option ℕ → Num → Num
  after_window true (some t) cursor = if lt cursor (of_ℕ t) then of_ℕ t else cursor
  after_window _ _ cursor = cursor

  abbrev pub minutes_waited : Bool → Option ℕ → Num → Num
  minutes_waited true (some t) cursor =
      if lt cursor (of_ℕ t) then div (sub (of_ℕ t) cursor) (of_ℕ 60000) else of_ℕ 0
  minutes_waited _ _ cursor = of_ℕ 0

  -- The time at which the driver reaches the stop.
  abbrev pub reach : Options num → Progress → Stop → Num
  reach options p s =
      add p.cursor (travel_ms num options (haversine_km num p.previous s.coordinate))

  abbrev pub arrive : Options num → Progress → Stop → Num
  arrive options p s =
      after_window options.respect_time_windows s.delivery_window_start (reach options p s)

  abbrev pub leave : Options num → Progress → Stop → Num
  leave options p s = add (arrive options p s) (mul options.service_minutes (of_ℕ 60000))

  -- The loop's state behind a stop.
  unfoldable pub advance : Options num → Progress → Stop → Progress
  advance options p s = record {
    cursor = leave options p s;
    previous = s.coordinate;
    distance_km = add p.distance_km (haversine_km num p.previous s.coordinate);
  }

  unfoldable pub advance_all : Options num → Progress → List Stop → Progress
  unfolding advance
  advance_all options p [] = p
  advance_all options p (s ∷ ss) = advance_all options (advance options p s) ss

  -- The stop of the plan, unless one of its times is no date: `toISOString` throws then. The late
  -- mark is that of the time with its fraction.
  unfoldable pub planned_at :
      Options num → Progress → Stop → Option Num → Option Num → Option PlannedStop
  planned_at options p s (some arrival) (some departure) = some (record {
    stop = s;
    arrival_at = arrival;
    departure_at = departure;
    wait_minutes =
        num.round
          (minutes_waited options.respect_time_windows s.delivery_window_start (reach options p s));
    late_risk = is_late s.promised_at (arrive options p s);
  })
  planned_at options p s (some arrival) none = none
  planned_at options p s none departure = none

  unfoldable pub visit : Options num → Progress → Stop → Option PlannedStop
  unfolding planned_at
  visit options p s =
      planned_at options p s (num.date (arrive options p s)) (num.date (leave options p s))

  unfoldable pub cons? {ℓ} : {A : Type ℓ} → Option A → Option (List A) → Option (List A)
  cons? none xs = none
  cons? (some x) none = none
  cons? (some x) (some xs) = some (x ∷ xs)

  unfoldable pub visit_all : Options num → Progress → List Stop → Option (List PlannedStop)
  unfolding visit advance cons?
  visit_all options p [] = some []
  visit_all options p (s ∷ ss) =
      let rest = visit_all options (advance options p s) ss in cons? (visit options p s) rest

  unfoldable pub warnings_of : List PlannedStop → List String
  warnings_of [] = []
  warnings_of (p ∷ ps) =
      let rest = warnings_of ps in
      if p.late_risk then concat p.stop.label " is outside its promised time" ∷ rest else rest

  unfoldable pub back_to_depot : Options num → Coordinate → List Stop → Progress → Progress
  back_to_depot options start route p =
      let km = haversine_km num p.previous start in
      if options.return_to_depot && not (is_empty route)
      then record p {
        distance_km = add p.distance_km km;
        cursor = add p.cursor (travel_ms num options km);
      }
      else p

  abbrev pub exceeds_minutes : Option ℕ → Num → Bool
  exceeds_minutes none duration = false
  exceeds_minutes (some m) duration = lt (of_ℕ m) duration

  abbrev pub exceeds_shift : Option ShiftEnd → ℕ → Num → Bool
  exceeds_shift none start cursor = false
  exceeds_shift (some e) start cursor = lt (of_ℕ (parse_boundary e start)) cursor

  pub record Simulated : Type 0 where
    pub stops : List PlannedStop
    pub distance_km : Num
    pub duration_minutes : Num
    pub finish_at : Num
    pub warnings : List String

  abbrev pub range_error {ℓ} : {A : Type ℓ} → Outcome A
  range_error = thrown 500 "Internal server error"

  -- The error's text has the finish as a date.
  unfoldable pub ends_late : Option Num → Outcome Simulated
  ends_late none = range_error
  ends_late (some finish) = thrown 422 "Route finishes after the driver's shift ends"

  -- The texts of the errors carry numbers, which are left out.
  unfoldable pub simulated : Options num → Progress → Option (List PlannedStop) → Outcome Simulated
  unfolding warnings_of parse_boundary ends_late
  simulated options home none = range_error
  simulated options home (some stops) =
      let duration = num.ceil (div (sub home.cursor (of_ℕ options.start_at)) (of_ℕ 60000)) in
      if exceeds_minutes options.max_route_minutes duration
      then thrown 422 "Route exceeds the minute limit"
      else if exceeds_shift options.shift_end options.start_at home.cursor
      then ends_late (num.date home.cursor)
      else returned (record {
        stops = stops;
        distance_km = home.distance_km;
        duration_minutes = duration;
        finish_at = home.cursor;
        warnings = warnings_of stops;
      })

  abbrev pub start_at_depot : Options num → Coordinate → Progress
  start_at_depot options start = record {
    cursor = of_ℕ options.start_at;
    previous = start;
    distance_km = of_ℕ 0;
  }

  unfoldable pub simulate : Coordinate → List Stop → Options num → Outcome Simulated
  unfolding visit_all advance_all back_to_depot simulated
  simulate start route options =
      let begin = start_at_depot options start in
      simulated options (back_to_depot options start route (advance_all options begin route))
        (visit_all options begin route)

  pub record RoutePlan : Type 0 where
    pub stops : List PlannedStop
    pub distance_km : Num
    pub duration_minutes : Num
    pub algorithm : String
    pub start_at : ℕ
    pub finish_at : Num
    pub return_to_depot : Bool
    pub warnings : List String

  -- The stops in the order of the plan: 2-opt runs only where no stop has a window or a promise.
  unfoldable pub arrange : Options num → Coordinate → List Stop → Option (List Stop)
  unfolding nearest_neighbor two_opt any
  arrange options start stops =
      elim (nearest_neighbor num options (length stops) (of_ℕ options.start_at) start stops) [
        | none ↦ none
        | some route ↦
            if any is_timed route
            then some route
            else some (two_opt num start options.return_to_depot 50 route)
      ]

  unfoldable pub plan_until : Options num → List Stop → Simulated → Option Num → Outcome RoutePlan
  unfolding distinct_from
  plan_until options route s none = range_error
  plan_until options route s (some finish) = returned (record {
    stops = s.stops;
    distance_km = num.two_decimals s.distance_km;
    duration_minutes = s.duration_minutes;
    algorithm =
        if any is_timed route
        then "time-window+priority nearest-neighbor"
        else "nearest-neighbor+2-opt";
    start_at = options.start_at;
    finish_at = finish;
    return_to_depot = options.return_to_depot;
    warnings = distinct_from [] s.warnings;
  })

  unfoldable pub plan_from : Options num → List Stop → Outcome Simulated → Outcome RoutePlan
  unfolding plan_until
  plan_from options route (thrown code message) = thrown code message
  plan_from options route (returned s) = plan_until options route s (num.date s.finish_at)

  unfoldable pub plan_of : Options num → Coordinate → List Stop → Outcome RoutePlan
  unfolding simulate plan_from
  plan_of options start route = plan_from options route (simulate start route options)

  -- A capacity of `none` is `Infinity`.
  abbrev pub exceeds_capacity : ℕ → Option ℕ → Bool
  exceeds_capacity demand none = false
  exceeds_capacity demand (some capacity) = ltb capacity demand

  unfoldable pub optimize_route :
      ℕ → Coordinate → List Stop → Option ℕ → Constraints num → Outcome RoutePlan
  unfolding arrange plan_of demand_of defaults
  optimize_route now start stops capacity_kg constraints =
      let options = defaults num now constraints in
      if exceeds_capacity (demand_of stops) capacity_kg
      then thrown 422 "Demand exceeds capacity"
      else elim (arrange options start stops) [
        | none ↦ thrown 500 "Internal server error"
        | some route ↦ plan_of options start route
      ]
