-- ===== src/Optimizer/Plans.antt =====
-- The contract of `optimizeRoute`, apps/api/src/services/optimizer.ts.
use mathlib.Core.List.{Permᴰ}
use real_time_logistics_plat.Common.{
  ℕ, false, Option, none, some, List, ◌∷◌, ◌≡◌, ◌⊎◌, refl, sym, ap, subst, inl, inr, ◌∙◌,
  Bool-cases, All, Memᴰ, map,
}
use real_time_logistics_plat.Model.{Coordinate}
use real_time_logistics_plat.Geo.{JsNumber, IsOrdered, KeepsDates}
use real_time_logistics_plat.StateMachine.{Outcome, returned, thrown}
use real_time_logistics_plat.Optimizer.{Stop, Options, Constraints, defaults, demand_of}
use real_time_logistics_plat.Optimizer.Permutation.{arrange-Perm}
use real_time_logistics_plat.Optimizer.Simulation.{
  PlannedStop, Progress, visit_all, advance_all, exceeds_minutes, exceeds_shift, back_to_depot,
  start_at_depot, ends_late, Simulated, simulated, simulate, plan_until, plan_from, plan_of,
  RoutePlan, exceeds_capacity, optimize_route,
}
use real_time_logistics_plat.Optimizer.Schedule.{
  IsScheduled, times_from, HasNoDate, IsVisited, visit_all-IsVisited, date-exceeds_shift,
}

module _ (num : JsNumber) where
  -- The plan has every stop once, keeps the windows, marks the late stops, and keeps within the
  -- capacity, the time limit and the shift.
  pub record IsPlan (options : Options num) (stops : List Stop) (capacity_kg : Option ℕ)
      (plan : RoutePlan num) : Type 0 where
    pub all_stops : Permᴰ (map (λ p. p.stop) plan.stops) stops
    pub scheduled : All (IsScheduled num options) plan.stops
    pub carried : exceeds_capacity num (demand_of stops) capacity_kg ≡ false
    pub in_time : exceeds_minutes num options.max_route_minutes plan.duration_minutes ≡ false
    pub in_shift : exceeds_shift num options.shift_end options.start_at plan.finish_at ≡ false

  abbrev pub finish_of : Options num → Coordinate → List Stop → num.Num
  finish_of options start route =
      (back_to_depot num options start route
        (advance_all num options (start_at_depot num options start) route)).cursor

  abbrev pub times_of : Options num → Coordinate → List Stop → List num.Num
  times_of options start route =
      finish_of options start route
      ∷ times_from num options (start_at_depot num options start) route

  -- What the planner promises of its answer: a plan, an error of status 422, or one of status 500
  -- where a time of the route is no date.
  abbrev pub Promise :
      Options num → Coordinate → List Stop → Option ℕ → Outcome (RoutePlan num) → Type 0
  Promise options start stops capacity_kg (returned plan) = IsPlan options stops capacity_kg plan
  Promise options start stops capacity_kg (thrown code _) =
      (code ≡ 422)
      ⊎ ((code ≡ 500)
          × (route : List Stop) × Permᴰ route stops
          × HasNoDate num (times_of options start route))

  module _ (laws : IsOrdered num) (dates : KeepsDates num) where
    module _ (options : Options num) (start : Coordinate) (route stops : List Stop)
        (capacity_kg : Option ℕ) (same : Permᴰ route stops)
        (carried : exceeds_capacity num (demand_of stops) capacity_kg ≡ false) where
      Fine : Outcome (RoutePlan num) → Type 0
      Fine = Promise options start stops capacity_kg

      late_ends-Fine :
          (finish : Option num.Num)
          → num.date (finish_of options start route) ≡ finish
          → Fine (plan_from num options route (ends_late num finish))
      unfolding Fine plan_from ends_late
      late_ends-Fine none e =
          inr (refl, route, same, (finish_of options start route, Memᴰ.head refl, e))
      late_ends-Fine (some t) e = inl refl

      plan_until-Fine :
          (s : Simulated num) (finish : Option num.Num)
          → s.finish_at ≡ finish_of options start route
          → num.date s.finish_at ≡ finish
          → map (λ q. q.stop) s.stops ≡ route
          → All (IsScheduled num options) s.stops
          → exceeds_minutes num options.max_route_minutes s.duration_minutes ≡ false
          → exceeds_shift num options.shift_end options.start_at s.finish_at ≡ false
          → Fine (plan_until num options route s finish)
      unfolding Fine plan_until
      plan_until-Fine s none f e visited scheduled in_time in_shift = inr (
        refl,
        route,
        same,
        (finish_of options start route, Memᴰ.head refl, ap num.date (sym f) ∙ e),
      )
      plan_until-Fine s (some t) f e visited scheduled in_time in_shift = record {
        all_stops = subst (λ r. Permᴰ r stops) (sym visited) same;
        scheduled = scheduled;
        carried = carried;
        in_time = in_time;
        in_shift =
            date-exceeds_shift num laws dates options.shift_end options.start_at s.finish_at t e
              in_shift;
      }

      simulated-Fine :
          (home : Progress num) (visits : Option (List (PlannedStop num)))
          → home.cursor ≡ finish_of options start route
          → IsVisited num options (start_at_depot num options start) route visits
          → Fine (plan_from num options route (simulated num options home visits))
      unfolding Fine plan_from simulated
      simulated-Fine home none f (a, there, e) = inr (refl, route, same, (a, Memᴰ.tail there, e))
      simulated-Fine home (some qs) f (visited, scheduled) =
          let duration =
            num.ceil (num.div (num.sub home.cursor (num.of_ℕ options.start_at)) (num.of_ℕ 60000)) in
          elim (Bool-cases (exceeds_minutes num options.max_route_minutes duration)) [
            | inl e ↦ rw (e, simulated, plan_from) (inl refl)
            | inr e ↦
                elim (Bool-cases
                  (exceeds_shift num options.shift_end options.start_at home.cursor)) [
                    | inl g ↦
                        rw (e, g, simulated, f)
                          (late_ends-Fine (num.date (finish_of options start route)) refl)
                    | inr g ↦
                        rw (e, g, simulated, plan_from)
                          (plan_until-Fine _ (num.date home.cursor) f refl visited scheduled e g)
                  ]
          ]

      plan_of-Fine : Fine (plan_of num options start route)
      unfolding plan_of simulate
      plan_of-Fine =
          let begin = start_at_depot num options start in
          simulated-Fine
            (back_to_depot num options start route (advance_all num options begin route))
            (visit_all num options begin route) refl
            (visit_all-IsVisited num laws dates options begin route)

    -- Where numbers compare as numbers that are not NaN do, and cutting off a fraction passes no
    -- whole number, planning gives a plan that visits every stop once, never before the stop's
    -- window where windows are respected, marks as late each stop that it shows after its promised
    -- time and none that it shows before it, and keeps within the capacity, the route's time limit
    -- and the shift; or else it answers with an error of status 422, or with one of status 500 where
    -- some time of the route is no date.
    pub optimize_route-Promise :
        (now : ℕ) (start : Coordinate) (stops : List Stop) (capacity_kg : Option ℕ)
        (constraints : Constraints num)
        → Promise
            (defaults num now constraints)
            start
            stops
            capacity_kg
            (optimize_route num now start stops capacity_kg constraints)
    unfolding optimize_route Fine
    optimize_route-Promise now start stops capacity_kg constraints =
        elim (Bool-cases (exceeds_capacity num (demand_of stops) capacity_kg)) [
          | inl e ↦ rw (e, optimize_route) (inl refl)
          | inr e ↦
              let (route, f, p) = arrange-Perm num (defaults num now constraints) start stops in
              rw (e, f, optimize_route)
                (plan_of-Fine (defaults num now constraints) start route stops capacity_kg p e)
        ]
