-- ===== src/Tests/Routes.antt =====
-- The theorems on the planner and on route runs, at the small store.
use mathlib.Core.List.{Permᴰ}
use real_time_logistics_plat.Common.{
  any, ℕ, String, true, false, Option, none, some, List, [], ◌∷◌, ◌≡◌, ◌≢◌, refl, ap, Grows, find,
  modify_first,
}
use real_time_logistics_plat.Model.{User, standard}
use real_time_logistics_plat.Store.{get_order, Context}
use real_time_logistics_plat.Optimizer.{Stop, Constraints, defaults, route_length, two_opt}
use real_time_logistics_plat.Optimizer.Simulation.{arrange, optimize_route}
use real_time_logistics_plat.Optimizer.Permutation.{arrange-Perm}
use real_time_logistics_plat.Optimizer.Improvement.{two_opt-route_length}
use real_time_logistics_plat.Optimizer.Plans.{Promise, optimize_route-Promise}
use real_time_logistics_plat.RouteRuns.{
  RouteRun, RunResponse, RouteRunStatus, accepted, refused, published, Fleet, Saves, draft,
  in_progress, starts, completes, get_route_run, patch_run_status,
}
use real_time_logistics_plat.Orders.Dispatch.{driver_for_tenant}
use real_time_logistics_plat.RouteRuns.Publish.{publish_run}
use real_time_logistics_plat.RouteRuns.Revisions.{Revises}
use real_time_logistics_plat.RouteRuns.Versions.{RunCall, moves_run, run_all, run_all-Grows}
use real_time_logistics_plat.RouteRuns.Conflicts.{patch_run_status-run_all}
use real_time_logistics_plat.RouteRuns.Published.{Publishes, publish_run-Publishes}
use real_time_logistics_plat.Tests.Data.{
  whole, whole-IsOrdered, whole-KeepsDates, world, request, clerk, place,
}

abbrev stop : String → ℕ → Option ℕ → Stop
stop id x window = record {
  id = id;
  coordinate = place x 0;
  label = id;
  demand_kg = some 2;
  priority = some standard;
  delivery_window_start = window;
  promised_at = some 90000000;
}

abbrev stops : List Stop
stops = stop "far" 40 none ∷ stop "near" 8 (some 50000000) ∷ []

abbrev constraints : Constraints whole
constraints = record {
  start_at = none;
  average_speed_kph = none;
  service_minutes = none;
  max_route_minutes = none;
  respect_time_windows = none;
  return_to_depot = some true;
  shift_end = none;
}

optimize_route-Promise_example :
    Promise whole
      (defaults whole 0 constraints)
      (place 0 0)
      stops
      (some 10)
      (optimize_route whole 0 (place 0 0) stops (some 10) constraints)
optimize_route-Promise_example =
    optimize_route-Promise whole whole-IsOrdered whole-KeepsDates 0 (place 0 0) stops (some 10)
      constraints

arrange-Perm_example :
    (route : List Stop) × (arrange whole (defaults whole 0 constraints) (place 0 0) stops
      ≡ some route)
    × Permᴰ route stops
arrange-Perm_example = arrange-Perm whole (defaults whole 0 constraints) (place 0 0) stops

two_opt-route_length_example :
    whole.ltb
      (route_length whole (place 0 0) stops true)
      (route_length whole (place 0 0) (two_opt whole (place 0 0) true 50 stops) true)
    ≡ false
two_opt-route_length_example = two_opt-route_length whole whole-IsOrdered (place 0 0) true 50 stops

abbrev run : RouteRun whole
run = record {
  id = "r1";
  organization_id = "t1";
  driver_id = "d1";
  order_ids = "o2" ∷ [];
  stops = [];
  distance_km = 8;
  duration_minutes = 30;
  status = draft;
  version = 1;
  created_by = "u1";
  created_at = 1;
  updated_at = 1;
  published_at = none;
  completed_at = none;
}

abbrev fleet : Fleet whole
fleet = record { world = world; runs = run ∷ [] }

abbrev saves : Saves whole
saves = record { order_saved = λ i. true; run_saved = true }

abbrev calls : List (Context × Saves whole × User × RunCall whole)
calls = (request true, saves, clerk, moves_run "r1" (some (starts, some 1))) ∷ []

run_read : get_route_run whole "t1" "r1" fleet ≡ some run
unfolding get_route_run find
run_read = refl

publish_run-Publishes_example :
    Publishes whole
      (request true)
      saves
      clerk
      "r1"
      fleet
      run
      (publish_run whole (request true) saves clerk "r1" fleet)
publish_run-Publishes_example =
    publish_run-Publishes whole (request true) saves clerk "r1" fleet run run_read

-- That publication is accepted, with a new version of the run.
abbrev answer_of : RunResponse whole → Option (RouteRunStatus × ℕ)
answer_of (accepted r) = some (r.status, r.version)
answer_of (refused code message) = none

publishes :
    answer_of (publish_run whole (request true) saves clerk "r1" fleet).1 ≡ some (published, 2)
unfolding publish_run get_order find any driver_for_tenant
publishes = refl

run_all-Grows_example : Grows (Revises whole) fleet.runs (run_all whole calls fleet).runs
run_all-Grows_example = run_all-Grows whole calls fleet

abbrev started : RouteRun whole
started = record run { status = in_progress; version = 2; updated_at = 7 }

run_read_again : get_route_run whole "t1" "r1" (run_all whole calls fleet) ≡ some started
unfolding get_route_run run_all find modify_first
run_read_again = refl

run_changed : started ≢ run
run_changed e = cc (ap (λ r. r.status) e)

patch_run_status-run_all_example :
    (patch_run_status whole
      (request true)
      saves
      clerk
      "r1"
      (some (completes, some 1))
      (run_all whole calls fleet)).0
    ≡ run_all whole calls fleet
patch_run_status-run_all_example =
    patch_run_status-run_all whole calls fleet (request true) saves clerk "r1" completes run started
      run_read run_read_again run_changed
