-- ===== src/Tracking.antt =====
-- Positions of drivers: apps/api/src/services/geofence.ts, and POST /api/drivers/:id/location of
-- apps/api/src/app.ts.
pub mod Fences
pub mod Fixes
use real_time_logistics_plat.Common.{
  ℕ, suc, ◌+◌, String, Bool, true, false, not, ◌&&◌, Option, none, some, List, [], ◌∷◌, ◌++◌, ◌==◌,
  find, any, modify_first, ltb, leb, if◌then◌else◌, same_text?,
}
use real_time_logistics_plat.Model.{
  User, Driver, Order, OrderEvent, OrderStatus, assigned, picked_up, in_transit, Coordinate,
  is_driver,
}
use real_time_logistics_plat.Geo.{JsNumber, haversine_km}
use real_time_logistics_plat.Store.{World, Context, at_step}
use real_time_logistics_plat.Api.{settings_for}
use real_time_logistics_plat.Orders.Dispatch.{driver_for_tenant}

pub data StopKind : Type 0 where
  at_pickup at_dropoff : StopKind

abbrev pub arrival_type : StopKind → String
arrival_type at_pickup = "geofence_pickup_arrival"
arrival_type at_dropoff = "geofence_dropoff_arrival"

abbrev pub departure_type : StopKind → String
departure_type at_pickup = "geofence_pickup_departure"
departure_type at_dropoff = "geofence_dropoff_departure"

abbrev pub arrival_message : StopKind → String
arrival_message at_pickup = "Driver arrived at pickup geofence"
arrival_message at_dropoff = "Driver arrived at delivery geofence"

abbrev pub departure_message : StopKind → String
departure_message at_pickup = "Driver departed pickup geofence"
departure_message at_dropoff = "Driver departed delivery geofence"

abbrev pub is_enabled : StopKind → OrderStatus → Bool
is_enabled at_pickup assigned = true
is_enabled _ picked_up = true
is_enabled _ in_transit = true
is_enabled _ _ = false

abbrev pub point_of : StopKind → Order → Coordinate
point_of at_pickup o = o.pickup.coordinate
point_of at_dropoff o = o.dropoff.coordinate

pub record GeofenceTransition : Type 0 where
  pub type : String
  pub message : String

abbrev pub is_type : String → OrderEvent → Bool
is_type t e = e.type == t

unfoldable pub has_event : String → List OrderEvent → Bool
has_event t es = any (is_type t) es

-- One turn of the loop over the stops, for an enabled stop.
unfoldable pub crossing : StopKind → Bool → List OrderEvent → List GeofenceTransition
unfolding has_event
crossing kind inside es =
    let arrived = has_event (arrival_type kind) es in
    let departed = has_event (departure_type kind) es in
    if inside && not arrived
    then record { type = arrival_type kind; message = arrival_message kind } ∷ []
    else if not inside && (arrived && not departed)
    then record { type = departure_type kind; message = departure_message kind } ∷ []
    else []

unfoldable pub recorded_event : Context → User → ℕ → ℕ → GeofenceTransition → OrderEvent
recorded_event ctx actor at k t = record {
  id = ctx.uuid k;
  type = t.type;
  message = t.message;
  actor_id = some actor.id;
  created_at = at;
}

-- The events pushed for the transitions, from identifier `k` on.
unfoldable pub recorded_events : Context → User → ℕ → ℕ → List GeofenceTransition → List OrderEvent
unfolding recorded_event
recorded_events ctx actor at k [] = []
recorded_events ctx actor at k (t ∷ ts) =
    recorded_event ctx actor at k t ∷ recorded_events ctx actor at (suc k) ts

pub record LocationInput : Type 0 where
  pub location : Coordinate
  pub recorded_at : Option ℕ

pub data LocationResponse : Type 0 where
  located : Driver → Bool → LocationResponse
  refused : ℕ → String → LocationResponse

abbrev pub or_clock : Option ℕ → ℕ → ℕ
or_clock none now = now
or_clock (some t) now = t

-- The reference to the user's own driver.
abbrev pub is_own_driver : User → String → World → Driver → Bool
is_own_driver actor id w d =
    d.id == id && (d.user_id == actor.id && driver_for_tenant actor.organization_id w d)

module _ (num : JsNumber) where
  abbrev pub is_inside : Coordinate → Coordinate → ℕ → Bool
  is_inside location point radius_meters =
      num.leb (num.mul (haversine_km num location point) (num.of_ℕ 1000)) (num.of_ℕ radius_meters)

  unfoldable pub stop_transitions : StopKind → Order → Coordinate → ℕ → List GeofenceTransition
  unfolding crossing
  stop_transitions kind o location radius_meters =
      if is_enabled kind o.status
      then crossing kind (is_inside location (point_of kind o) radius_meters) o.events
      else []

  unfoldable pub geofence_transitions : Order → Coordinate → ℕ → List GeofenceTransition
  unfolding stop_transitions
  geofence_transitions o location radius_meters =
      stop_transitions at_pickup o location radius_meters
      ++ stop_transitions at_dropoff o location radius_meters

  unfoldable pub tracked_order : Context → User → Driver → List GeofenceTransition → Order → Order
  unfolding recorded_events
  tracked_order ctx actor d ts o = record o {
    events = o.events ++ recorded_events ctx actor d.last_seen_at 0 ts;
    updated_at = d.last_seen_at;
  }

  -- The loop over the orders of the driver; `saved i` is the answer to the i-th save, and a save
  -- that fails ends the loop with an error. The state carries the settings that are read.
  unfoldable pub track_orders :
      Context → (ℕ → Bool) → User → Driver → ℕ → List Order → World → World × List Order × Bool
  unfolding geofence_transitions tracked_order settings_for
  track_orders ctx saved actor d i [] w = (w, [], true)
  track_orders ctx saved actor d i (o ∷ os) w = elim (same_text? o.assigned_driver_id (some d.id)) [
    | false ↦ let (w1, rest, ok) = track_orders ctx saved actor d i os w in (w1, o ∷ rest, ok)
    | true ↦
        let (w1, settings) = settings_for o.organization_id w in
        let ts = geofence_transitions o d.location settings.geofence_radius_meters in
        elim ts [
          | [] ↦ let (w2, rest, ok) = track_orders ctx saved actor d i os w1 in (w2, o ∷ rest, ok)
          | t ∷ more ↦
              let o' = tracked_order (at_step ctx i) actor d (t ∷ more) o in
              elim (saved i) [
                | true ↦
                    let (w2, rest, ok) = track_orders ctx saved actor d (suc i) os w1 in
                    (w2, o' ∷ rest, ok)
                | false ↦ (w1, o' ∷ os, false)
              ]
        ]
  ]

  -- From the driver on. The driver is moved before the fix is persisted and not moved back.
  unfoldable pub locate :
      Context
      → (ℕ → Bool)
      → User
      → String
      → LocationInput
      → Driver
      → World
      → World × LocationResponse
  unfolding track_orders
  locate ctx saved actor id b d w =
      let recorded = or_clock b.recorded_at ctx.now in
      if ltb (ctx.now + 120000) recorded
      then (w, refused 400 "Location timestamp is in the future")
      else (let current = leb d.last_seen_at recorded in
          let d' =
            if current then record d { location = b.location; last_seen_at = recorded } else d in
          let w1 : World = record w {
            drivers = modify_first (is_own_driver actor id w) (λ _. d') w.drivers;
          } in
          if ctx.persisted
          then if current
            then (let (w2, os, ok) = track_orders ctx saved actor d' 0 w1.orders w1 in
                (
                  record w2 { orders = os },
                  if ok then located d' true else refused 500 "Internal server error",
                ))
            else (w1, located d' false)
          else (w1, refused 500 "Internal server error"))

  unfoldable pub post_location :
      Context → (ℕ → Bool) → User → String → Option LocationInput → World → World × LocationResponse
  unfolding locate
  post_location ctx saved actor id body w =
      if is_driver actor.role
      then elim body [
        | none ↦ (w, refused 400 "Validation failed")
        | some b ↦ elim (find (is_own_driver actor id w) w.drivers) [
          | none ↦ (w, refused 404 "Driver not found")
          | some d ↦ locate ctx saved actor id b d w
        ]
      ]
      else (w, refused 403 "Insufficient permissions")
