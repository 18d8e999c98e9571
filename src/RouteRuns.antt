-- ===== src/RouteRuns.antt =====
-- Route runs: apps/api/src/services/routeRuns.ts, and POST /api/route-runs/:id/publish and PATCH
-- /api/route-runs/:id/status of apps/api/src/app.ts.
pub mod Publish
pub mod Revisions
pub mod Booking
pub mod Published
pub mod Versions
pub mod Conflicts
use real_time_logistics_plat.Common.{
  ℕ, zero, suc, ◌+◌, String, concat, Bool, true, false, not, ◌&&◌, ◌||◌, Option, none, some, List,
  [], ◌∷◌, ◌++◌, ◌==◌, find, any, filter, modify_first, eqb, if◌then◌else◌, same_text?, includes,
}
use real_time_logistics_plat.Model.{User, Driver, Order, OrderStatus, is_driver}
use real_time_logistics_plat.Geo.{JsNumber}
use real_time_logistics_plat.StateMachine.{Outcome, returned, thrown}
use real_time_logistics_plat.Store.{
  World, Context, get_order, set_order, has_id, profile_of, is_pending, assign,
}
use real_time_logistics_plat.Api.{is_operator, is_staff, profile_id, audit}
use real_time_logistics_plat.Orders.Dispatch.{set_driver, driver_for_tenant}
use real_time_logistics_plat.Optimizer.Simulation.{PlannedStop, RoutePlan}

pub data RouteRunStatus : Type 0 where
  draft published in_progress completed cancelled : RouteRunStatus

abbrev pub is_draft : RouteRunStatus → Bool
is_draft draft = true
is_draft _ = false

abbrev pub is_active_run : RouteRunStatus → Bool
is_active_run published = true
is_active_run in_progress = true
is_active_run _ = false

-- The statuses that the status handler takes.
pub data RunMove : Type 0 where
  starts completes cancels : RunMove

abbrev pub target : RunMove → RouteRunStatus
target starts = in_progress
target completes = completed
target cancels = cancelled

abbrev pub is_cancel : RunMove → Bool
is_cancel cancels = true
is_cancel _ = false

abbrev pub move_text : RunMove → String
move_text starts = "route_run.in_progress"
move_text completes = "route_run.completed"
move_text cancels = "route_run.cancelled"

abbrev or_now : Option ℕ → ℕ → ℕ
or_now none now = now
or_now (some t) now = t

module _ (num : JsNumber) where
  pub record RouteRun : Type 0 where
    pub id : String
    pub organization_id : String
    pub driver_id : String
    pub order_ids : List String
    pub stops : List (PlannedStop num)
    pub distance_km : num.Num
    pub duration_minutes : num.Num
    pub status : RouteRunStatus
    pub version : ℕ
    pub created_by : String
    pub created_at : ℕ
    pub updated_at : ℕ
    pub published_at : Option ℕ
    pub completed_at : Option ℕ

  -- The store and the process's map of runs, in the order in which they were added.
  pub record Fleet : Type 0 where
    pub world : World
    pub runs : List RouteRun

  pub data RunResponse : Type 0 where
    accepted : RouteRun → RunResponse
    refused : ℕ → String → RunResponse

  -- What the database answers: whether the save of each order of the run, and of the run, is done.
  pub record Saves : Type 0 where
    pub order_saved : ℕ → Bool
    pub run_saved : Bool

  unfoldable pub new_run : Context → User → Driver → List String → RoutePlan num → RouteRun
  new_run ctx actor d order_ids plan = record {
    id = ctx.uuid 3;
    organization_id = actor.organization_id;
    driver_id = d.id;
    order_ids = order_ids;
    stops = plan.stops;
    distance_km = plan.distance_km;
    duration_minutes = plan.duration_minutes;
    status = draft;
    version = 1;
    created_by = actor.id;
    created_at = ctx.now;
    updated_at = ctx.now;
    published_at = none;
    completed_at = none;
  }

  -- The map keeps the run also where the insert fails.
  unfoldable pub create_route_run :
      Context
      → Saves
      → User
      → Driver
      → List String
      → RoutePlan num
      → Fleet
      → Fleet × Outcome RouteRun
  unfolding new_run
  create_route_run ctx saves actor d order_ids plan f =
      let run = new_run ctx actor d order_ids plan in
      let f1 : Fleet = record f { runs = f.runs ++ run ∷ [] } in
      (f1, if saves.run_saved then returned run else thrown 500 "Internal server error")

  abbrev pub has_run_id : String → RouteRun → Bool
  has_run_id id run = run.id == id

  -- `routeRuns.get(id)`, if the run is the tenant's.
  unfoldable pub get_route_run : String → String → Fleet → Option RouteRun
  get_route_run tenant id f = elim (find (has_run_id id) f.runs) [
    | none ↦ none
    | some run ↦ if run.organization_id == tenant then some run else none
  ]

  unfoldable pub active_route_run_for_order : String → String → Fleet → Option RouteRun
  active_route_run_for_order tenant order_id f =
      find
        (λ run.
          run.organization_id == tenant
          && is_active_run run.status
          && includes run.order_ids order_id)
        f.runs

  unfoldable pub set_run : String → RouteRun → Fleet → Fleet
  set_run id run f = record f { runs = modify_first (has_run_id id) (λ _. run) f.runs }

  abbrev pub is_stale : RouteRun → Option ℕ → Bool
  is_stale run none = false
  is_stale run (some v) = if eqb run.version v then false else true

  abbrev pub publication : RouteRunStatus → Option ℕ → ℕ → Option ℕ
  publication published old now = some (or_now old now)
  publication _ old now = old

  abbrev pub completion : RouteRunStatus → Option ℕ → ℕ → Option ℕ
  completion completed old now = some now
  completion _ old now = old

  unfoldable pub with_status : Context → RouteRun → RouteRunStatus → RouteRun
  with_status ctx run status = record run {
    status = status;
    version = suc run.version;
    updated_at = ctx.now;
    published_at = publication status run.published_at ctx.now;
    completed_at = completion status run.completed_at ctx.now;
  }

  -- `updateRouteRunStatus`, on the run in the map, up to its query.
  unfoldable pub update_route_run_status :
      Context → RouteRun → RouteRunStatus → Option ℕ → Outcome RouteRun
  unfolding with_status
  update_route_run_status ctx run status expected =
      if is_stale run expected
      then thrown 409 "Route run has changed; reload before updating"
      else returned (with_status ctx run status)

  abbrev pub internal_error : RunResponse
  internal_error = RunResponse.refused 500 "Internal server error"

  -- The end of the two handlers: the audit insert.
  unfoldable pub finish_run :
      Context → User → String → String → RouteRun → Fleet → Fleet × RunResponse
  unfolding audit
  finish_run ctx actor action id run f =
      let f1 : Fleet = record f { world = audit ctx actor action "route_run" run.id f.world } in
      (f1, if ctx.audited then RunResponse.accepted run else internal_error)

  unfoldable pub is_own_run : User → RouteRun → World → Bool
  unfolding profile_of same_text?
  is_own_run actor run w = same_text? (some run.driver_id) (profile_id (profile_of actor w))

  unfoldable pub change_run :
      Context → Saves → User → String → RouteRun → RunMove → Option ℕ → Fleet → Fleet × RunResponse
  unfolding update_route_run_status set_run finish_run
  change_run ctx saves actor id run move version f =
      elim (update_route_run_status ctx run (target move) version) [
        | thrown code message ↦ (f, RunResponse.refused code message)
        | returned run' ↦
            let f1 = set_run id run' f in
            if saves.run_saved
            then finish_run ctx actor (move_text move) id run' f1
            else (f1, internal_error)
      ]

  -- The handler from the parsing of the body on.
  unfoldable pub move_run :
      Context
      → Saves
      → User
      → String
      → RouteRun
      → Option (RunMove × Option ℕ)
      → Fleet
      → Fleet × RunResponse
  unfolding change_run
  move_run ctx saves actor id run none f = (f, RunResponse.refused 400 "Validation failed")
  move_run ctx saves actor id run (some (move, version)) f =
      if is_driver actor.role && is_cancel move
      then (f, RunResponse.refused 403 "Drivers cannot cancel route runs")
      else change_run ctx saves actor id run move version f

  unfoldable pub patch_run_status :
      Context → Saves → User → String → Option (RunMove × Option ℕ) → Fleet → Fleet × RunResponse
  unfolding get_route_run is_own_run move_run
  patch_run_status ctx saves actor id body f =
      if is_staff actor.role
      then elim (get_route_run actor.organization_id id f) [
        | none ↦ (f, RunResponse.refused 404 "Route run not found")
        | some run ↦
            if is_driver actor.role && not (is_own_run actor run f.world)
            then (f, RunResponse.refused 403 "Not your route run")
            else move_run ctx saves actor id run body f
      ]
      else (f, RunResponse.refused 403 "Insufficient permissions")
