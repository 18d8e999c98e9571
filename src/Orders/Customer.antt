-- ===== src/Orders/Customer.antt =====
-- What a customer asks for in apps/api/src/app.ts: PATCH /api/customer/orders/:id/reschedule, POST
-- /api/customer/orders/:id/cancel and /return, and the review of a return, PATCH
-- /api/orders/:id/return.
use real_time_logistics_plat.Common.{
  ℕ, ◌+◌, String, concat, Bool, true, false, Option, none, some, ltb, if◌then◌else◌,
}
use real_time_logistics_plat.Model.{
  User, Order, OrderStatus, pending, assigned, in_transit, delivered, cancelled, is_customer,
  ReturnStatus, requested, approved, rejected,
}
use real_time_logistics_plat.StateMachine.{returned, thrown}
use real_time_logistics_plat.Store.{
  World, Context, get_order, set_order, driver_of, append_event, event, transition,
}
use real_time_logistics_plat.Api.{
  Response, refused, internal_error, invalid_body, is_operator, permit, can_access_order, finish,
  with_order,
}
use real_time_logistics_plat.Orders.Dispatch.{restore}

-- The order of the customer, or 404.
unfoldable pub with_own_order :
    Context → User → String → World → (Order → World × Response) → World × Response
unfolding get_order
with_own_order ctx actor id w k = elim (get_order id actor.organization_id w) [
  | none ↦ (w, refused 404 "Delivery not found")
  | some o ↦ if can_access_order ctx actor o then k o else (w, refused 404 "Delivery not found")
]

-- Store a changed order; where it cannot be persisted, write the snapshot back and fail.
unfoldable pub save_order :
    Context → User → String → String → Order → Order → String → World → World × Response
unfolding set_order
save_order ctx actor id action o o' template w =
    let tenant = actor.organization_id in
    let w1 = set_order id tenant o' w in
    let done = finish ctx actor action 200 o' template w1 in
    if ctx.persisted then done else (set_order id tenant o w1, internal_error)

pub record RescheduleInput : Type 0 where
  pub delivery_window_start : ℕ
  pub promised_at : ℕ
  pub delivery_notes : Option String

abbrev pub can_reschedule : OrderStatus → Bool
can_reschedule pending = true
can_reschedule assigned = true
can_reschedule in_transit = true
can_reschedule _ = false

abbrev notes_or : Option String → Option String → Option String
notes_or none old = old
notes_or (some s) old = some s

abbrev count_or_zero : Option ℕ → ℕ
count_or_zero none = 0
count_or_zero (some n) = n

unfoldable pub rescheduled_order : Context → User → RescheduleInput → Order → Order
unfolding event
rescheduled_order ctx actor b o =
    append_event
      (event ctx "rescheduled" "Customer rescheduled the delivery window" (some actor.id))
      (record o {
        delivery_window_start = some b.delivery_window_start;
        promised_at = b.promised_at;
        delivery_notes = notes_or b.delivery_notes o.delivery_notes;
        reschedule_count = some (count_or_zero o.reschedule_count + 1);
        updated_at = ctx.now;
      })

unfoldable pub patch_reschedule :
    Context → User → String → Option RescheduleInput → World → World × Response
unfolding permit with_own_order save_order
patch_reschedule ctx actor id body w = permit (is_customer actor.role) w (elim body [
  | none ↦ (w, invalid_body)
  | some b ↦
      if ltb b.delivery_window_start b.promised_at
      then with_own_order ctx actor id w (λ o.
        if can_reschedule o.status
        then save_order ctx actor id "customer.order_rescheduled" o
            (rescheduled_order ctx actor b o) "delivery_rescheduled" w
        else (w, refused 409 "This delivery can no longer be rescheduled"))
      else (w, invalid_body)
])

abbrev pub can_cancel : OrderStatus → Bool
can_cancel pending = true
can_cancel assigned = true
can_cancel _ = false

-- From the snapshots on.
unfoldable pub cancel_order : Context → User → String → Order → World → World × Response
unfolding set_order restore driver_of
cancel_order ctx actor id o w =
    let tenant = actor.organization_id in
    let driver = driver_of o.assigned_driver_id w.drivers in
    elim (transition ctx o cancelled actor w.drivers) [
      | thrown code message ↦ (w, refused code message)
      | returned (o', drivers) ↦
          let o'' = record o' { cancelled_at = some o'.updated_at } in
          let w1 = set_order id tenant o'' (record w { drivers = drivers }) in
          let done = finish ctx actor "customer.order_cancelled" 200 o'' "order_cancelled" w1 in
          if ctx.persisted then done else (restore id tenant o driver w1, internal_error)
    ]

unfoldable pub post_cancel : Context → User → String → World → World × Response
unfolding permit with_own_order
post_cancel ctx actor id w = permit (is_customer actor.role) w (
    with_own_order ctx actor id w (λ o.
      if can_cancel o.status
      then cancel_order ctx actor id o w
      else (w, refused 409 "Only pending or assigned deliveries can be cancelled")))

abbrev pub is_delivered : OrderStatus → Bool
is_delivered delivered = true
is_delivered _ = false

abbrev pub has_open_return : Option ReturnStatus → Bool
has_open_return (some requested) = true
has_open_return (some approved) = true
has_open_return _ = false

unfoldable pub returned_order : Context → User → String → Order → Order
unfolding event
returned_order ctx actor reason o =
    append_event (event ctx "return_requested" "Customer requested a return" (some actor.id))
      (record o {
        return_requested_at = some ctx.now;
        return_reason = some reason;
        return_status = some requested;
        updated_at = ctx.now;
      })

unfoldable pub post_return : Context → User → String → Option String → World → World × Response
unfolding permit with_own_order save_order
post_return ctx actor id body w = permit (is_customer actor.role) w (elim body [
  | none ↦ (w, invalid_body)
  | some reason ↦ with_own_order ctx actor id w (λ o.
      if is_delivered o.status
      then if has_open_return o.return_status
        then (w, refused 409 "A return request already exists")
        else save_order ctx actor id "customer.return_requested" o
            (returned_order ctx actor reason o) "return_requested" w
      else (w, refused 409 "Returns can be requested after delivery"))
])

pub data Verdict : Type 0 where
  approve reject : Verdict

abbrev pub verdict_status : Verdict → ReturnStatus
verdict_status approve = approved
verdict_status reject = rejected

abbrev pub verdict_text : Verdict → String
verdict_text approve = "approved"
verdict_text reject = "rejected"

abbrev pub is_requested : Option ReturnStatus → Bool
is_requested (some requested) = true
is_requested _ = false

abbrev note_or : Option String → String → String
note_or none d = d
note_or (some s) d = s

unfoldable pub reviewed_order : Context → User → Verdict → Option String → Order → Order
unfolding event
reviewed_order ctx actor v note o =
    append_event
      (event ctx (concat "return_" (verdict_text v))
        (note_or note (concat "Return request " (verdict_text v))) (some actor.id))
      (record o { return_status = some (verdict_status v); updated_at = ctx.now })

unfoldable pub patch_return :
    Context → User → String → Option (Verdict × Option String) → World → World × Response
unfolding permit with_order get_order save_order
patch_return ctx actor id body w = permit (is_operator actor.role) w (elim body [
  | none ↦ (w, invalid_body)
  | some (v, note) ↦ with_order actor id w (λ o.
      if is_requested o.return_status
      then save_order ctx actor id (concat "return." (verdict_text v)) o
          (reviewed_order ctx actor v note o) (concat "return_" (verdict_text v)) w
      else (w, refused 409 "No pending return request exists"))
])
