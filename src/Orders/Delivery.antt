-- ===== src/Orders/Delivery.antt =====
-- What a driver does with an assignment in apps/api/src/app.ts: POST /api/orders/:id/accept,
-- /api/orders/:id/reject and /api/orders/:id/proof.
use real_time_logistics_plat.Common.{
  String, concat, Bool, true, false, ◌&&◌, ◌||◌, Option, none, some, [], ◌∷◌, ◌++◌, ◌==◌, any,
  if◌then◌else◌, same_text?,
}
use real_time_logistics_plat.Model.{
  User, Driver, Order, OrderStatus, pending, assigned, in_transit, delivered, available, is_driver,
  DeliveryProof, VerificationMethod, pin, qr, pin_qr, Coordinate,
}
use real_time_logistics_plat.StateMachine.{returned, thrown}
use real_time_logistics_plat.Store.{
  World, Context, get_order, set_order, profile_of, owns_profile, append_event, event, transition,
  verify_delivery_pin,
}
use real_time_logistics_plat.Api.{
  Response, refused, internal_error, invalid_body, permit, finish, finish_quietly,
}
use real_time_logistics_plat.Orders.Dispatch.{set_driver}

abbrev pub is_assigned_status : OrderStatus → Bool
is_assigned_status assigned = true
is_assigned_status _ = false

abbrev pub is_in_transit : OrderStatus → Bool
is_in_transit in_transit = true
is_in_transit _ = false

-- `!driver || order.assignedDriverId !== driver.id` answers 404.
unfoldable pub with_profile : User → World → Order → (Driver → World × Response) → World × Response
unfolding same_text?
with_profile actor w o k = elim (profile_of actor w) [
  | none ↦ (w, refused 404 "Assignment not found")
  | some d ↦
      if same_text? o.assigned_driver_id (some d.id)
      then k d
      else (w, refused 404 "Assignment not found")
]

-- The order and the profile that the three handlers need.
unfoldable pub with_assignment :
    User → String → World → (Order → Driver → World × Response) → World × Response
with_assignment actor id w k = elim (get_order id actor.organization_id w) [
  | none ↦ (w, refused 404 "Assignment not found")
  | some o ↦ with_profile actor w o (k o)
]

abbrev pub is_accepted : Order → Bool
is_accepted o = any (λ e. e.type == "accepted") o.events

unfoldable pub accepted_order : Context → User → Driver → Order → Order
unfolding event
accepted_order ctx actor d o =
    let e = event ctx "accepted" (concat "Accepted by " d.name) (some actor.id) in
    record o {
      events = if is_accepted o then o.events else o.events ++ e ∷ [];
      updated_at = ctx.now;
    }

-- Where the order cannot be persisted the handler fails and leaves the change in place.
unfoldable pub post_accept : Context → User → String → World → World × Response
unfolding permit with_assignment with_profile get_order profile_of set_order
post_accept ctx actor id w = permit (is_driver actor.role) w (
    with_assignment actor id w (λ o d.
      if is_assigned_status o.status
      then (let o' = accepted_order ctx actor d o in
          let w1 = set_order id actor.organization_id o' w in
          let done = finish_quietly ctx actor "order.accepted" o' w1 in
          if ctx.persisted then done else (w1, internal_error))
      else (w, refused 409 "Only assigned deliveries can be accepted")))

unfoldable pub rejected_order : Context → User → String → Order → Order
unfolding event
rejected_order ctx actor reason o =
    append_event (event ctx "rejected" (concat "Driver declined: " reason) (some actor.id))
      (record o { assigned_driver_id = none; status = pending; updated_at = ctx.now })

-- `restore(order, os); restore(driver, ds)`.
unfoldable pub restore_both : User → String → Order → Driver → World → World
unfolding set_order set_driver
restore_both actor id o d w =
    set_driver (owns_profile actor.id) d (set_order id actor.organization_id o w)

unfoldable pub post_reject : Context → User → String → Option String → World → World × Response
unfolding permit with_assignment with_profile get_order profile_of restore_both
post_reject ctx actor id body w = permit (is_driver actor.role) w (elim body [
  | none ↦ (w, invalid_body)
  | some reason ↦ with_assignment actor id w (λ o d.
      if is_assigned_status o.status
      then (let o' = rejected_order ctx actor reason o in
          let w1 =
            set_driver (owns_profile actor.id) (record d { status = available })
              (set_order id actor.organization_id o' w) in
          let done = finish_quietly ctx actor "order.rejected" o' w1 in
          if ctx.persisted then done else (restore_both actor id o d w1, internal_error))
      else (w, refused 409 "Only assigned deliveries can be rejected"))
])

pub record ProofInput : Type 0 where
  pub recipient_name : String
  pub recipient_pin : Option String
  pub parcel_code : Option String
  pub signature_data : Option String
  pub photo_data : Option String
  pub verification_method : Option VerificationMethod
  pub location : Option Coordinate

abbrev is_some {ℓ} : {A : Type ℓ} → Option A → Bool
is_some none = false
is_some (some _) = true

-- The two refinements of the schema: a pin or a parcel code, and a signature or a photo.
abbrev pub is_complete : ProofInput → Bool
is_complete b =
    (is_some b.recipient_pin || is_some b.parcel_code)
    && (is_some b.signature_data || is_some b.photo_data)

unfoldable pub pin_verified : Context → Order → ProofInput → World → Bool
unfolding verify_delivery_pin
pin_verified ctx o b w = elim b.recipient_pin [
  | none ↦ false
  | some value ↦ verify_delivery_pin ctx o.id value w
]

abbrev matches_code : Context → Option String → String → Bool
matches_code ctx none code = false
matches_code ctx (some value) code = ctx.lower value == ctx.lower code

unfoldable pub qr_verified : Context → Order → ProofInput → Bool
qr_verified ctx o b = elim b.parcel_code [
  | none ↦ false
  | some code ↦ matches_code ctx o.parcel_code code || ctx.lower o.tracking_code == ctx.lower code
]

abbrev method_of : Bool → Bool → VerificationMethod
method_of true true = pin_qr
method_of false true = qr
method_of _ false = pin

abbrev or_given {ℓ} : {A : Type ℓ} → Option A → A → A
or_given none d = d
or_given (some a) d = a

unfoldable pub proof_of : Context → ProofInput → Bool → Bool → Driver → DeliveryProof
proof_of ctx b by_pin by_qr d = record {
  recipient_name = b.recipient_name;
  signature_data = or_given b.signature_data "";
  photo_data = b.photo_data;
  verification_method = some (or_given b.verification_method (method_of by_pin by_qr));
  location = some (or_given b.location d.location);
  created_at = ctx.now;
  driver_id = d.id;
}

-- From the snapshots on: the proof is stored, and the order moves to `delivered`.
unfoldable pub deliver :
    Context → User → String → Order → Driver → DeliveryProof → World → World × Response
unfolding set_order restore_both
deliver ctx actor id o d proof w =
    let tenant = actor.organization_id in
    let proven = record o { proof = some proof } in
    elim (transition ctx proven delivered actor w.drivers) [
      | thrown code message ↦ (set_order id tenant proven w, refused code message)
      | returned (o', drivers) ↦
          let w1 = set_order id tenant o' (record w { drivers = drivers }) in
          let done = finish ctx actor "delivery.proof_recorded" 200 o' "order_delivered" w1 in
          if ctx.persisted then done else (restore_both actor id o d w1, internal_error)
    ]

unfoldable pub post_proof : Context → User → String → Option ProofInput → World → World × Response
unfolding permit with_assignment with_profile get_order profile_of
post_proof ctx actor id body w = permit (is_driver actor.role) w (elim body [
  | none ↦ (w, invalid_body)
  | some b ↦
      if is_complete b
      then with_assignment actor id w (λ o d.
        let by_pin = pin_verified ctx o b w in
        let by_qr = qr_verified ctx o b in
        if is_in_transit o.status
        then if by_pin || by_qr
          then deliver ctx actor id o d (proof_of ctx b by_pin by_qr d) w
          else (w, refused 400 "Delivery verification failed")
        else (w, refused 409 "Delivery must be in transit"))
      else (w, invalid_body)
])
