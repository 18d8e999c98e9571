-- ===== src/RouteRuns/Publish.antt =====
-- POST /api/route-runs/:id/publish of apps/api/src/app.ts: the orders of a draft run are assigned to
-- its driver one after the other, and then the run is published.
use real_time_logistics_plat.Common.{
  ℕ, suc, String, Bool, true, false, not, ◌&&◌, Option, none, some, List, [], ◌∷◌, ◌==◌, find, any,
  if◌then◌else◌,
}
use real_time_logistics_plat.Model.{User, Driver, Order}
use real_time_logistics_plat.Geo.{JsNumber}
use real_time_logistics_plat.StateMachine.{Outcome, returned, thrown}
use real_time_logistics_plat.Store.{
  at_step, World, Context, get_order, set_order, is_pending, assign,
}
use real_time_logistics_plat.Api.{is_operator}
use real_time_logistics_plat.Orders.Dispatch.{set_driver, driver_for_tenant}
use real_time_logistics_plat.RouteRuns.{
  published, is_draft, RouteRun, Fleet, RunResponse, Saves, get_route_run, set_run, with_status,
  finish_run,
}

-- The reference to the run's driver.
abbrev pub is_run_driver : String → String → World → Driver → Bool
is_run_driver tenant driver_id w d = d.id == driver_id && driver_for_tenant tenant w d

-- `run.orderIds.map(id => store.getOrder(id, tenant))`, if no order is missing.
unfoldable pub select : String → List String → World → Option (List Order)
select tenant [] w = some []
select tenant (id ∷ ids) w = elim (get_order id tenant w) [
  | none ↦ none
  | some o ↦ elim (select tenant ids w) [ none ↦ none | some os ↦ some (o ∷ os) ]
]

abbrev pub is_taken : String → Order → Bool
is_taken driver_id o = elim o.assigned_driver_id [ none ↦ false | some id ↦ not (id == driver_id) ]

-- `selected.forEach((order, i) => restore(order, snapshots[i]))`.
unfoldable pub restore_orders : String → List String → List Order → World → World
unfolding set_order
restore_orders tenant (id ∷ ids) (o ∷ os) w = restore_orders tenant ids os (set_order id tenant o w)
restore_orders tenant _ _ w = w

-- `if (order.status === "pending") store.assign(order, driver, user)`.
unfoldable pub book : Context → User → (Driver → Bool) → String → World → Outcome World
unfolding get_order set_order set_driver assign
book ctx actor p id w = elim (get_order id actor.organization_id w) [
  | none ↦ thrown 500 "Internal server error"
  | some o ↦ elim (find p w.drivers) [
    | none ↦ thrown 500 "Internal server error"
    | some d ↦
        if is_pending o.status
        then elim (assign ctx o d actor) [
          | thrown code message ↦ thrown code message
          | returned (o', d') ↦ returned (set_driver p d' (set_order id actor.organization_id o' w))
        ]
        else returned w
  ]
]

-- The loop over the orders; the error is the one to throw again.
unfoldable pub book_all :
    Context
    → (ℕ → Bool)
    → User
    → (Driver → Bool)
    → ℕ
    → List String
    → World
    → World × Option (ℕ × String)
unfolding book
book_all ctx saved actor p i [] w = (w, none)
book_all ctx saved actor p i (id ∷ ids) w = elim (book (at_step ctx i) actor p id w) [
  | thrown code message ↦ (w, some (code, message))
  | returned w1 ↦ elim (saved i) [
    | true ↦ book_all ctx saved actor p (suc i) ids w1
    | false ↦ (w1, some (500, "Internal server error"))
  ]
]

module _ (num : JsNumber) where
  -- From the snapshots on.
  unfoldable pub publish_selected :
      Context
      → Saves num
      → User
      → String
      → RouteRun num
      → Driver
      → List Order
      → Fleet num
      → Fleet num × RunResponse num
  unfolding book_all restore_orders set_run finish_run set_driver with_status
  publish_selected ctx saves actor id run d selected f =
      let tenant = actor.organization_id in
      let p = is_run_driver tenant run.driver_id f.world in
      let (w1, failure) = book_all ctx saves.order_saved actor p 0 run.order_ids f.world in
      let undone = set_driver p d (restore_orders tenant run.order_ids selected w1) in
      elim failure [
        | some (code, message) ↦ (record f { world = undone }, RunResponse.refused code message)
        | none ↦
            let run' = with_status num ctx run published in
            let f1 = set_run num id run' f in
            if saves.run_saved
            then finish_run num ctx actor "route_run.published" id run' (record f1 { world = w1 })
            else (record f1 { world = undone }, RunResponse.refused 500 "Internal server error")
      ]

  unfoldable pub publish_run :
      Context → Saves num → User → String → Fleet num → Fleet num × RunResponse num
  unfolding get_route_run select publish_selected
  publish_run ctx saves actor id f =
      let tenant = actor.organization_id in
      if is_operator actor.role
      then elim (get_route_run num tenant id f) [
        | none ↦ (f, RunResponse.refused 404 "Route run not found")
        | some run ↦
            if is_draft run.status
            then elim (find (is_run_driver tenant run.driver_id f.world) f.world.drivers) [
              | none ↦ (f, RunResponse.refused 404 "Driver not found")
              | some d ↦ elim (select tenant run.order_ids f.world) [
                | none ↦ (f, RunResponse.refused 404 "A route order no longer exists")
                | some selected ↦
                    if any (is_taken d.id) selected
                    then (f, RunResponse.refused 409 "A route order is assigned to another driver")
                    else publish_selected ctx saves actor id run d selected f
              ]
            ]
            else (f, RunResponse.refused 409 "Only draft route runs can be published")
      ]
      else (f, RunResponse.refused 403 "Insufficient permissions")
