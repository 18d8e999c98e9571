-- ===== src/Orders/Payment.antt =====
-- Payments of an order: POST /api/payments/:orderId/verify and /api/payments/demo/:orderId/confirm
-- of apps/api/src/app.ts, and the checks of apps/api/src/services/payments.ts.
use real_time_logistics_plat.Common.{
  String, concat, Bool, true, false, ◌&&◌, ◌||◌, Option, none, some, ◌==◌, if◌then◌else◌,
}
use real_time_logistics_plat.Model.{User, Order, paid, is_paid}
use real_time_logistics_plat.Store.{World, Context, get_order, append_event, event}
use real_time_logistics_plat.Api.{
  Response, accepted, refused, invalid_body, is_payer, permit, can_access_order,
}
use real_time_logistics_plat.Orders.Customer.{save_order}

-- The configuration of the payment provider and what the service asks of other code: the keyed
-- hash, the identifier of an order in the database, and the order that a provider order is stored
-- for (in the process's map or in the table of payments).
pub record Provider : Type 0 where
  pub key_id : Option String
  pub key_secret : Option String
  pub hmac : String → String → String
  pub as_uuid : String → String
  pub mapped_order_id : String → Option String

-- Compares the bytes of two texts in constant time.
abbrev pub safe_compare : String → String → Bool
safe_compare expected received = expected == received

abbrev is_set : Option String → Bool
is_set none = false
is_set (some _) = true

unfoldable pub is_demo_mode : Provider → Bool
is_demo_mode env = if is_set env.key_id && is_set env.key_secret then false else true

abbrev names_order : Provider → Option String → String → Bool
names_order env none order_id = false
names_order env (some mapped) order_id = mapped == order_id || mapped == env.as_uuid order_id

unfoldable pub verify_razorpay_payment : Provider → String → String → String → String → Bool
verify_razorpay_payment env order_id razorpay_order_id payment_id signature = elim env.key_secret [
  | none ↦ false
  | some secret ↦
      names_order env (env.mapped_order_id razorpay_order_id) order_id
      && safe_compare (env.hmac secret (concat razorpay_order_id (concat "|" payment_id))) signature
]

unfoldable pub paid_order : Context → User → String → Order → Order
unfolding event
paid_order ctx actor message o =
    append_event (event ctx "payment" message (some actor.id))
      (record o { payment_status = paid; updated_at = ctx.now })

-- The order that the user may pay for, or 404, or 403.
unfoldable pub with_payable :
    Context → User → String → World → (Order → World × Response) → World × Response
unfolding get_order
with_payable ctx actor id w k = elim (get_order id actor.organization_id w) [
  | none ↦ (w, refused 404 "Order not found")
  | some o ↦ if can_access_order ctx actor o then k o else (w, refused 403 "Not your order")
]

pub record VerifyInput : Type 0 where
  pub razorpay_order_id : String
  pub razorpay_payment_id : String
  pub razorpay_signature : String

unfoldable pub post_verify :
    Context → Provider → User → String → Option VerifyInput → World → World × Response
unfolding permit with_payable save_order
post_verify ctx env actor id body w = permit (is_payer actor.role) w (
    with_payable ctx actor id w (λ o.
      if is_paid o.payment_status then (w, accepted 200 o) else elim body [
        | none ↦ (w, invalid_body)
        | some b ↦
            if verify_razorpay_payment env o.id b.razorpay_order_id b.razorpay_payment_id
              b.razorpay_signature
            then save_order ctx actor id "payment.captured" o
                (paid_order ctx actor "Razorpay payment verified" o) "payment_received" w
            else (w, refused 400 "Payment verification failed")
      ]))

unfoldable pub post_demo_confirm : Context → Provider → User → String → World → World × Response
unfolding permit with_payable save_order
post_demo_confirm ctx env actor id w = permit (is_payer actor.role) w (
    if is_demo_mode env
    then with_payable ctx actor id w (λ o.
      if is_paid o.payment_status
      then (w, accepted 200 o)
      else save_order ctx actor id "payment.captured" o
          (paid_order ctx actor "Payment confirmed by demo adapter" o) "payment_received" w)
    else (w, refused 404 "Demo payment disabled"))
