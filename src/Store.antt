-- ===== src/Store.antt =====
-- The in-memory store, apps/api/src/domain/store.ts, and what one request takes from outside it.
mod State
pub mod Transition
unfoldable pub use State.*
use real_time_logistics_plat.Common.{
  ◌+◌, ◌*◌, ℕ, concat, String, Bool, true, false, ◌&&◌, Option, none, some, List, [], ◌∷◌, ◌++◌,
  ◌==◌, find, modify_first, filter, if◌then◌else◌, same_text?,
}
use real_time_logistics_plat.Model.{
  User, Driver, Order, OrderEvent, Address, Coordinate, Priority, OrderStatus, pending, assigned,
  delivered, available, busy, unpaid, is_terminal, status_text,
}
use real_time_logistics_plat.StateMachine.{
  Outcome, returned, thrown, assert_transition, can_transition,
}

-- `orders.find((o) => o.id === String(id) && o.organizationId === tenant)`.
abbrev pub is_order : String → String → Order → Bool
is_order id tenant o = o.id == id && o.organization_id == tenant

unfoldable pub get_order : String → String → World → Option Order
get_order id tenant w = find (is_order id tenant) w.orders

unfoldable pub list_orders : String → World → List Order
list_orders tenant w = filter (λ o. o.organization_id == tenant) w.orders

-- An assignment through the reference that `get_order` returned.
unfoldable pub set_order : String → String → Order → World → World
set_order id tenant o w = record w { orders = modify_first (is_order id tenant) (λ _. o) w.orders }

abbrev pub has_id : String → Driver → Bool
has_id id d = d.id == id

-- `drivers.find((x) => x.id === order.assignedDriverId)`.
unfoldable pub driver_of : Option String → List Driver → Option Driver
driver_of none drivers = none
driver_of (some id) drivers = find (has_id id) drivers

-- `drivers.find((x) => x.userId === user.id)`.
abbrev pub owns_profile : String → Driver → Bool
owns_profile user_id d = d.user_id == user_id

unfoldable pub profile_of : User → World → Option Driver
profile_of user w = find (owns_profile user.id) w.drivers

abbrev pub release : Driver → Driver
release d = record d { status = available }

unfoldable pub event : Context → String → String → Option String → OrderEvent
event ctx type message actor_id = record {
  id = ctx.uuid 0;
  type = type;
  message = message;
  actor_id = actor_id;
  created_at = ctx.now;
}

-- The request in the i-th round of a loop, whose events have identifiers of their own.
abbrev pub at_step : Context → ℕ → Context
at_step ctx i = record ctx { uuid = λ k. ctx.uuid (k + 4 * i) }

-- What `createOrder` takes from the validated request.
pub record OrderInput : Type 0 where
  pub customer_name : String
  pub customer_email : String
  pub pickup : Address
  pub dropoff : Address
  pub package_weight_kg : ℕ
  pub priority : Priority
  pub amount : ℕ
  pub currency : String
  pub delivery_window_start : Option ℕ
  pub promised_at : ℕ
  pub delivery_notes : Option String
  pub parcel_code : Option String

-- `input.parcelCode || generated`: the schema admits no empty code.
abbrev pub or_else : Option String → String → String
or_else none d = d
or_else (some s) d = s

unfoldable pub new_order : Context → OrderInput → User → Order
unfolding event
new_order ctx input actor = record {
  id = ctx.uuid 3;
  organization_id = actor.organization_id;
  tracking_code = ctx.tracking_code;
  customer_name = input.customer_name;
  customer_email = input.customer_email;
  pickup = input.pickup;
  dropoff = input.dropoff;
  package_weight_kg = input.package_weight_kg;
  priority = input.priority;
  status = pending;
  amount = input.amount;
  currency = input.currency;
  payment_status = unpaid;
  assigned_driver_id = none;
  delivery_window_start = input.delivery_window_start;
  promised_at = input.promised_at;
  estimated_arrival_at = none;
  late_risk = none;
  eta_confidence = none;
  location_age_seconds = none;
  eta_source = none;
  delivery_notes = input.delivery_notes;
  parcel_code = some (or_else input.parcel_code ctx.parcel_code);
  reschedule_count = none;
  cancelled_at = none;
  return_requested_at = none;
  return_reason = none;
  return_status = none;
  proof = none;
  created_at = ctx.now;
  updated_at = ctx.now;
  delivered_at = none;
  events = event ctx "created" "Order created" (some actor.id) ∷ [];
}

unfoldable pub create_order : Context → OrderInput → User → World → World
create_order ctx input actor w = record w { orders = new_order ctx input actor ∷ w.orders }

-- The map of pins holds the hash of each order's pin; a later `set` hides an earlier one.
unfoldable pub set_delivery_pin : Context → String → String → World → World
set_delivery_pin ctx id value w = record w {
  delivery_pins = (id, ctx.pin_hash value) ∷ w.delivery_pins;
}

unfoldable pub lookup_pin : String → List (String × String) → Option String
lookup_pin id [] = none
lookup_pin id ((k, h) ∷ pins) = if k == id then some h else lookup_pin id pins

abbrev pub equals_hash : Option String → String → Bool
equals_hash none h = false
equals_hash (some e) h = e == h

unfoldable pub verify_delivery_pin : Context → String → String → World → Bool
verify_delivery_pin ctx id value w =
    equals_hash (lookup_pin id w.delivery_pins) (ctx.pin_hash value)

abbrev pub append_event : OrderEvent → Order → Order
append_event e o = record o { events = o.events ++ e ∷ [] }

abbrev pub is_pending : OrderStatus → Bool
is_pending pending = true
is_pending _ = false

unfoldable pub assigned_order : Context → Order → Driver → User → Order
unfolding event
assigned_order ctx o d actor =
    append_event (event ctx "assigned" (concat "Assigned to " d.name) (some actor.id))
      (record o { assigned_driver_id = some d.id; status = assigned; updated_at = ctx.now })

-- `assign` mutates the order and the driver that it is given; both come back.
unfoldable pub assign : Context → Order → Driver → User → Outcome (Order × Driver)
unfolding assigned_order
assign ctx o d actor =
    if is_pending o.status
    then returned (assigned_order ctx o d actor, record d { status = busy })
    else thrown 409 "Only pending orders can be assigned"

abbrev pub delivered_time : OrderStatus → Option ℕ → ℕ → Option ℕ
delivered_time delivered old now = some now
delivered_time _ old now = old

-- The order after `transition`, whose guard has passed.
unfoldable pub moved : Context → Order → OrderStatus → User → Order
unfolding event status_text
moved ctx o status actor =
    append_event
      (event ctx (status_text status)
        (concat "Status changed to " (first_spaced (status_text status))) (some actor.id))
      (record o {
        status = status;
        updated_at = ctx.now;
        delivered_at = delivered_time status o.delivered_at ctx.now;
      })

-- A terminal status frees the driver that the order names, if the store has it.
unfoldable pub freed : Option String → OrderStatus → List Driver → List Driver
freed none status drivers = drivers
freed (some id) status drivers =
    if is_terminal status then modify_first (has_id id) release drivers else drivers

unfoldable pub transition :
    Context → Order → OrderStatus → User → List Driver → Outcome (Order × List Driver)
unfolding moved freed assert_transition
transition ctx o status actor drivers = elim (assert_transition o.status status) [
  | returned _ ↦ returned (moved ctx o status actor, freed o.assigned_driver_id status drivers)
  | thrown code message ↦ thrown code message
]
