-- ===== src/Optimizer.antt =====
-- The route planner, apps/api/src/services/optimizer.ts: capacity, nearest neighbour, and 2-opt.
-- A time is a number of milliseconds, computed with the numbers of the module Geo.
pub mod Simulation
pub mod Passes
pub mod Permutation
pub mod Improvement
pub mod Schedule
pub mod Plans
use mathlib.Core.List.{reverse}
use real_time_logistics_plat.Common.{
  ℕ, zero, suc, ◌+◌, ◌-◌, ◌*◌, String, Bool, true, false, not, ◌&&◌, Option, none, some, List, [],
  ◌∷◌, ◌++◌, length, any, if◌then◌else◌,
}
use real_time_logistics_plat.Model.{Coordinate, Priority, standard, express, urgent}
use real_time_logistics_plat.Geo.{JsNumber, haversine_km}
unfoldable pub use real_time_logistics_plat.Common.{take}

-- A stop to plan: an order's drop-off.
pub record Stop : Type 0 where
  pub id : String
  pub coordinate : Coordinate
  pub label : String
  pub demand_kg : Option ℕ
  pub priority : Option Priority
  pub delivery_window_start : Option ℕ
  pub promised_at : Option ℕ

-- The end of a shift: an instant, or a time of day in milliseconds.
pub data ShiftEnd : Type 0 where
  instant : ℕ → ShiftEnd
  time_of_day : ℕ → ShiftEnd

abbrev pub or_default {ℓ} : {A : Type ℓ} → Option A → A → A
or_default none d = d
or_default (some a) d = a

-- `slice(i)`.
unfoldable pub drop {ℓ} : {A : Type ℓ} → ℕ → List A → List A
drop zero xs = xs
drop (suc n) [] = []
drop (suc n) (x ∷ xs) = drop n xs

-- `remaining.splice(i, 1)`: the element taken out and what is left, or nothing out of range.
unfoldable pub splice {ℓ} : {A : Type ℓ} → ℕ → List A → Option (A × List A)
splice n [] = none
splice zero (x ∷ xs) = some (x, xs)
splice (suc n) (x ∷ xs) = elim (splice n xs) [ none ↦ none | some (y, rest) ↦ some (y, x ∷ rest) ]

-- The numbers from `i`, so many of them.
unfoldable pub range : ℕ → ℕ → List ℕ
range i zero = []
range i (suc n) = i ∷ range (suc i) n

unfoldable pub demand_of : List Stop → ℕ
demand_of [] = 0
demand_of (s ∷ ss) = or_default s.demand_kg 0 + demand_of ss

-- `stop.deliveryWindowStart || stop.promisedAt`.
abbrev pub is_timed : Stop → Bool
is_timed s = elim s.delivery_window_start [
  | some _ ↦ true
  | none ↦ elim s.promised_at [ some _ ↦ true | none ↦ false ]
]

-- The route with the stops from `i` to `j` in reverse.
unfoldable pub reversed {ℓ} : {A : Type ℓ} → ℕ → ℕ → List A → List A
unfolding take drop
reversed i j route =
    take i route ++ (reverse (take (suc j - i) (drop i route)) ++ drop (suc j) route)

module _ (num : JsNumber) where
  open num use {Num, of_ℕ, add, sub, mul, div, max, ltb}

  -- `constraints`, its defaults filled in.
  pub record Options : Type 0 where
    pub start_at : ℕ
    pub average_speed_kph : Num
    pub service_minutes : Num
    pub max_route_minutes : Option ℕ
    pub respect_time_windows : Bool
    pub return_to_depot : Bool
    pub shift_end : Option ShiftEnd

  -- `constraints`, as the request gives them.
  pub record Constraints : Type 0 where
    pub start_at : Option ℕ
    pub average_speed_kph : Option Num
    pub service_minutes : Option Num
    pub max_route_minutes : Option ℕ
    pub respect_time_windows : Option Bool
    pub return_to_depot : Option Bool
    pub shift_end : Option ShiftEnd

  -- An absent start is the clock's time, which is read once.
  unfoldable pub defaults : ℕ → Constraints → Options
  defaults now c = record {
    start_at = or_default c.start_at now;
    average_speed_kph = or_default c.average_speed_kph (of_ℕ 24);
    service_minutes = or_default c.service_minutes (of_ℕ 6);
    max_route_minutes = c.max_route_minutes;
    respect_time_windows = or_default c.respect_time_windows true;
    return_to_depot = or_default c.return_to_depot false;
    shift_end = c.shift_end;
  }

  unfoldable pub travelled : Num → Coordinate → List Stop → Num
  travelled sum previous [] = sum
  travelled sum previous (s ∷ ss) =
      travelled (add sum (haversine_km num previous s.coordinate)) s.coordinate ss

  unfoldable pub last_coordinate : Coordinate → List Stop → Coordinate
  last_coordinate c [] = c
  last_coordinate c (s ∷ ss) = last_coordinate s.coordinate ss

  -- `length(start, route, returnToDepot)`.
  unfoldable pub route_length : Coordinate → List Stop → Bool → Num
  unfolding travelled last_coordinate
  route_length start [] return_to_depot = of_ℕ 0
  route_length start (s ∷ ss) return_to_depot =
      let sum = travelled (of_ℕ 0) start (s ∷ ss) in
      if return_to_depot
      then add sum (haversine_km num (last_coordinate start (s ∷ ss)) start)
      else sum

  abbrev pub priority_weight : Option Priority → Num
  priority_weight none = of_ℕ 0
  priority_weight (some standard) = of_ℕ 0
  priority_weight (some express) = of_ℕ 18
  priority_weight (some urgent) = of_ℕ 42

  abbrev pub speed_of : Options → Num
  speed_of options = max (of_ℕ 5) options.average_speed_kph

  abbrev pub travel_ms : Options → Num → Num
  travel_ms options km = mul (div km (speed_of options)) (of_ℕ 3600000)

  abbrev pub wait_ms : Bool → Option ℕ → Num → Num
  wait_ms true (some t) arrival = max (of_ℕ 0) (sub (of_ℕ t) arrival)
  wait_ms _ _ arrival = of_ℕ 0

  abbrev pub late_minutes : Option ℕ → Num → Num
  late_minutes none at = of_ℕ 0
  late_minutes (some t) at = max (of_ℕ 0) (div (sub at (of_ℕ t)) (of_ℕ 60000))

  -- The score of a candidate for the next stop; the lowest is taken.
  unfoldable pub score : Options → Num → Coordinate → Stop → Num
  score options elapsed current s =
      let leg = haversine_km num current s.coordinate in
      let arrival = add elapsed (travel_ms options leg) in
      let wait = wait_ms options.respect_time_windows s.delivery_window_start arrival in
      let late = late_minutes s.promised_at (add arrival wait) in
      sub (add leg (mul late (of_ℕ 4))) (priority_weight s.priority)

  -- The inner `for` loop, from candidate `i` on.
  unfoldable pub best_index : (Stop → Num) → ℕ → ℕ → Num → List Stop → ℕ
  best_index f i best best_score [] = best
  best_index f i best best_score (s ∷ ss) =
      if ltb (f s) best_score
      then best_index f (suc i) i (f s) ss
      else best_index f (suc i) best best_score ss

  -- The outer `while` loop; `none` is the crash of a position out of range.
  unfoldable pub nearest_neighbor : Options → ℕ → Num → Coordinate → List Stop → Option (List Stop)
  unfolding splice best_index score
  nearest_neighbor options zero elapsed current remaining = some []
  nearest_neighbor options (suc n) elapsed current remaining =
      elim (splice (best_index (score options elapsed current) 0 0 num.infinity remaining)
        remaining) [
          | none ↦ none
          | some (next, rest) ↦
              let leg = haversine_km num current next.coordinate in
              let elapsed' =
                add elapsed
                  (add (travel_ms options leg) (mul options.service_minutes (of_ℕ 60000))) in
              elim (nearest_neighbor options n elapsed' next.coordinate rest) [
                | none ↦ none
                | some route ↦ some (next ∷ route)
              ]
        ]

  module _ (start : Coordinate) (return_to_depot : Bool) where
    -- `length(candidate) + 0.00001 < length(route)`.
    abbrev pub is_shorter : List Stop → List Stop → Bool
    is_shorter candidate route =
        ltb (add (route_length start candidate return_to_depot) (div (of_ℕ 1) (of_ℕ 100000)))
          (route_length start route return_to_depot)

    -- One step of the two inner loops, on the route and the flag `improved`.
    unfoldable pub try_reversal : ℕ → ℕ → List Stop × Bool → List Stop × Bool
    unfolding reversed
    try_reversal i j (route, improved) =
        if is_shorter (reversed i j route) route
        then (reversed i j route, true)
        else (route, improved)

    unfoldable pub sweep_from : ℕ → List ℕ → List Stop × Bool → List Stop × Bool
    unfolding try_reversal
    sweep_from i [] state = state
    sweep_from i (j ∷ js) state = sweep_from i js (try_reversal i j state)

    -- The route keeps its length, `n`, so the bounds of the loops do not change.
    unfoldable pub sweep : ℕ → List ℕ → List Stop × Bool → List Stop × Bool
    unfolding range sweep_from
    sweep n [] state = state
    sweep n (i ∷ is) state = sweep n is (sweep_from i (range (suc i) (n - suc i)) state)

    -- `while (improved && loops++ < 50)`, with the number of loops that are left.
    unfoldable pub two_opt : ℕ → List Stop → List Stop
    unfolding sweep
    two_opt zero route = route
    two_opt (suc n) route =
        let (route', improved) = sweep (length route) (range 0 (length route - 1)) (route, false) in
        elim improved [ true ↦ two_opt n route' | false ↦ route' ]
