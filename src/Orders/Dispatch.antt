-- ===== src/Orders/Dispatch.antt =====
-- PATCH /api/orders/:id/status and POST /api/orders/:id/assign of apps/api/src/app.ts.
use real_time_logistics_plat.Common.{
  String, Bool, true, false, not, ◌&&◌, Option, none, some, List, [], ◌∷◌, ◌==◌, find, any, filter,
  modify_first, leb, if◌then◌else◌,
}
use real_time_logistics_plat.Model.{
  User, Driver, Order, OrderStatus, delivered, is_available, is_driver, status_text, Coordinate,
}
use real_time_logistics_plat.Geo.{JsNumber, haversine_km}
use real_time_logistics_plat.StateMachine.{returned, thrown}
use real_time_logistics_plat.Store.{
  World, Context, get_order, set_order, has_id, driver_of, transition, assign,
}
use real_time_logistics_plat.Api.{
  Response, refused, internal_error, invalid_body, is_operator, is_staff, permit, is_assignee,
  finish, with_order,
}
use real_time_logistics_plat.Common.{concat}

-- An assignment through a reference to a driver.
unfoldable pub set_driver : (Driver → Bool) → Driver → World → World
set_driver p d w = record w { drivers = modify_first p (λ _. d) w.drivers }

-- `if (driver && driverSnapshot) restore(driver, driverSnapshot)`.
unfoldable pub restore_driver : Option String → Option Driver → World → World
unfolding set_driver
restore_driver (some id) (some d) w = set_driver (has_id id) d w
restore_driver _ _ w = w

-- `restore(order, orderSnapshot)`, then the driver's.
unfoldable pub restore : String → String → Order → Option Driver → World → World
unfolding set_order restore_driver
restore id tenant o d w = restore_driver o.assigned_driver_id d (set_order id tenant o w)

-- The two `try` blocks of the status handler, from the snapshots on.
unfoldable pub move_order : Context → User → String → OrderStatus → Order → World → World × Response
unfolding restore set_order driver_of
move_order ctx actor id status o w =
    let tenant = actor.organization_id in
    let driver = driver_of o.assigned_driver_id w.drivers in
    elim (transition ctx o status actor w.drivers) [
      | thrown code message ↦ (restore id tenant o driver w, refused code message)
      | returned (o', drivers) ↦
          let w1 = set_order id tenant o' (record w { drivers = drivers }) in
          let done =
            finish ctx actor "order.status_updated" 200 o' (concat "order_" (status_text status))
              w1 in
          if ctx.persisted then done else (restore id tenant o driver w1, internal_error)
    ]

abbrev pub is_delivered : OrderStatus → Bool
is_delivered delivered = true
is_delivered _ = false

unfoldable pub patch_status :
    Context → User → String → Option OrderStatus → World → World × Response
unfolding permit with_order get_order
patch_status ctx actor id body w = permit (is_staff actor.role) w (elim body [
  | none ↦ (w, invalid_body)
  | some status ↦
      if is_delivered status
      then (w, refused 409 "Use proof of delivery to complete an in-transit order")
      else with_order actor id w (λ o.
        if is_driver actor.role && not (is_assignee actor o w)
        then (w, refused 403 "Not your assignment")
        else move_order ctx actor id status o w)
])

unfoldable pub driver_for_tenant : String → World → Driver → Bool
driver_for_tenant tenant w d = any (λ u. u.id == d.user_id && u.organization_id == tenant) w.users

unfoldable pub is_eligible : String → Order → World → Driver → Bool
unfolding driver_for_tenant
is_eligible tenant o w d =
    driver_for_tenant tenant w d && is_available d.status && leb o.package_weight_kg d.capacity_kg

-- The driver is a reference into the array; identifiers of drivers are distinct, so it is the
-- first one with its identifier.
unfoldable pub assign_to : Context → User → String → Order → Driver → World → World × Response
unfolding set_order set_driver
assign_to ctx actor id o d w =
    let tenant = actor.organization_id in
    elim (assign ctx o d actor) [
      | thrown code message ↦
          (set_driver (has_id d.id) d (set_order id tenant o w), refused code message)
      | returned (o', d') ↦
          let w1 = set_driver (has_id d.id) d' (set_order id tenant o' w) in
          let done = finish ctx actor "order.assigned" 200 o' "driver_assigned" w1 in
          if ctx.persisted
          then done
          else (set_driver (has_id d.id) d (set_order id tenant o w1), internal_error)
    ]

unfoldable pub with_choice : Option Driver → World → (Driver → World × Response) → World × Response
with_choice none w k = (w, refused 422 "No eligible available driver")
with_choice (some d) w k = k d

abbrev pub first : List Driver → Option Driver
first [] = none
first (d ∷ _) = some d

module _ (num : JsNumber) where
  -- The sign of the comparator of `eligible.sort`.
  unfoldable pub nearer : Coordinate → Driver → Driver → Bool
  nearer to a b =
      num.ltb (num.sub (haversine_km num a.location to) (haversine_km num b.location to))
        (num.of_ℕ 0)

  -- A stable sort, as `Array.prototype.sort` is.
  unfoldable pub insert_near : Coordinate → Driver → List Driver → List Driver
  insert_near to d [] = d ∷ []
  insert_near to d (e ∷ ds) = if nearer to e d then e ∷ insert_near to d ds else d ∷ e ∷ ds

  unfoldable pub sort_near : Coordinate → List Driver → List Driver
  unfolding insert_near
  sort_near to [] = []
  sort_near to (d ∷ ds) = insert_near to d (sort_near to ds)

  -- The driver asked for, or the nearest one, out of those that can take the order. The source
  -- reads an empty `driverId` as an absent one, which is `none` here.
  unfoldable pub choose : String → Option String → Order → World → Option Driver
  unfolding sort_near
  choose tenant (some driver_id) o w =
      find (has_id driver_id) (filter (is_eligible tenant o w) w.drivers)
  choose tenant none o w =
      first (sort_near o.pickup.coordinate (filter (is_eligible tenant o w) w.drivers))

  unfoldable pub post_assign : Context → User → String → Option String → World → World × Response
  unfolding permit with_order get_order with_choice
  post_assign ctx actor id driver_id w = permit (is_operator actor.role) w (
      with_order actor id w (λ o.
        with_choice (choose actor.organization_id driver_id o w) w
          (λ d. assign_to ctx actor id o d w)))
