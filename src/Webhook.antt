-- ===== src/Webhook.antt =====
-- The webhook of the payment provider: POST /api/webhooks/razorpay of apps/api/src/app.ts, with the
-- keys of the events of apps/api/src/db/persistence.ts and the settlements of
-- apps/api/src/services/settlements.ts.
pub mod Handler
pub mod Duplicates
pub mod Paid
use real_time_logistics_plat.Common.{
  ℕ, ◌*◌, String, concat, Bool, true, false, not, ◌&&◌, ◌||◌, Option, none, some, List, [], ◌∷◌,
  ◌==◌, find, modify_first, includes, eqb, ltb, if◌then◌else◌,
}
use real_time_logistics_plat.Model.{
  ℤ, pos, negsuc, Order, PaymentStatus, unpaid, paid, pending, is_paid,
}
use real_time_logistics_plat.Geo.{JsNumber}
use real_time_logistics_plat.Store.{World, Context}
use real_time_logistics_plat.Api.{notify_safely}
use real_time_logistics_plat.Orders.Payment.{safe_compare}
use real_time_logistics_plat.Csv.{chars}
use real_time_logistics_plat.Settlements.{
  Desk, is_given, or_text, or_note, trimmed, contains, begins, is_currency,
}
use real_time_logistics_plat.Settlements.Service.{
  Books, ProviderSettlementEventInput, EventResult, recorded, thrown,
  record_provider_settlement_event,
}

pub record Notes : Type 0 where
  pub routepulse_order_id : Option String
  pub organization_id : Option String

-- `payload.payment.entity`, with what `payload.order.entity` has of it.
pub record Entity : Type 0 where
  pub id : Option String
  pub order_id : Option String
  pub amount : Option ℤ
  pub currency : Option String
  pub notes : Option Notes

-- `payload.refund.entity` and `payload.dispute.entity`.
pub record SettlementEntity : Type 0 where
  pub id : Option String
  pub payment_id : Option String
  pub amount : Option ℤ
  pub currency : Option String
  pub created_at : Option ℕ
  pub notes : Option Notes

pub record WebhookBody : Type 0 where
  pub event : Option String
  pub payment : Option Entity
  pub order : Option Entity
  pub refund : Option SettlementEntity
  pub dispute : Option SettlementEntity

-- One delivery, its bytes and its signature, and what the handler asks of other code: the secret of
-- the environment, the keyed hash, an identifier's form in the database, the order that a
-- provider's order or payment is for, and whether the database answers up to and with the insert of
-- the event's key. Without a database that is always so, and so is the transaction of the payment.
pub record WebhookProvider : Type 0 where
  pub raw : String
  pub signature : String
  pub webhook_secret : Option String
  pub hmac : String → String → String
  pub as_uuid : String → String
  pub order_of_provider_order : String → Option String
  pub order_of_payment : String → Option String
  pub reached : Bool

unfoldable pub verify_razorpay_webhook : WebhookProvider → Bool
verify_razorpay_webhook env = elim env.webhook_secret [
  | none ↦ false
  | some secret ↦ is_given secret && safe_compare (env.hmac secret env.raw) env.signature
]

pub data WebhookResponse : Type 0 where
  received duplicate : WebhookResponse
  refused : ℕ → String → WebhookResponse

-- `a?.field`, and `a ?? b`.
abbrev pub field {ℓ κ} : {A : Type ℓ} {B : Type κ} → (A → Option B) → Option A → Option B
field f none = none
field f (some a) = f a

abbrev pub or_else {ℓ} : {A : Type ℓ} → Option A → Option A → Option A
or_else none b = b
or_else (some a) b = some a

abbrev pub text_or : Option String → String → String
text_or none d = d
text_or (some t) d = or_text t d

-- A lookup for a text that is given and not empty.
abbrev look_up : (String → Option String) → Option String → Option String
look_up f none = none
look_up f (some t) = if is_given t then f t else none

unfoldable pub settlement_entity : WebhookBody → Option SettlementEntity
settlement_entity b = or_else b.refund b.dispute

unfoldable pub provider_order : WebhookBody → Option String
unfolding or_note
provider_order b = or_note (field (λ e. e.order_id) b.payment) (field (λ e. e.id) b.order)

unfoldable pub payment_id : WebhookBody → Option String
unfolding or_note settlement_entity
payment_id b =
    or_note (field (λ e. e.id) b.payment) (field (λ e. e.payment_id) (settlement_entity b))

unfoldable pub notes : WebhookBody → Option Notes
unfolding settlement_entity
notes b =
    or_else (field (λ e. e.notes) b.payment)
      (or_else (field (λ e. e.notes) (settlement_entity b)) (field (λ e. e.notes) b.order))

unfoldable pub local_id : WebhookProvider → WebhookBody → Option String
unfolding or_note notes provider_order payment_id
local_id env b = or_note (field (λ n. n.routepulse_order_id) (notes b)) (
    or_note (look_up env.order_of_provider_order (provider_order b))
      (look_up env.order_of_payment (payment_id b)))

unfoldable pub provider_ref : WebhookBody → String
unfolding or_note settlement_entity provider_order or_text
provider_ref b =
    text_or
      (or_note (field (λ e. e.id) (settlement_entity b))
        (or_note (field (λ e. e.id) b.payment) (provider_order b)))
      "none"

unfoldable pub event_name : WebhookBody → String
unfolding or_text
event_name b = text_or b.event "unknown"

unfoldable pub event_key : WebhookBody → String
unfolding event_name provider_ref provider_order payment_id or_note or_text
event_key b = concat (event_name b) (
    concat ":" (
      concat (text_or (or_note (provider_order b) (payment_id b)) "none")
        (concat ":" (provider_ref b))))

abbrev pub is_captured : WebhookBody → Bool
is_captured b = includes ("payment.captured" ∷ "order.paid" ∷ []) (event_name b)

abbrev pub is_failed : WebhookBody → Bool
is_failed b = includes ("payment.failed" ∷ "order.payment_failed" ∷ []) (event_name b)

-- `Number(entity?.amount ?? orderEntity?.amount ?? 0)`.
abbrev pub or_zero : Option ℤ → ℤ
or_zero none = pos 0
or_zero (some n) = n

unfoldable pub amount_minor : WebhookBody → ℤ
amount_minor b = or_zero (or_else (field (λ e. e.amount) b.payment) (field (λ e. e.amount) b.order))

unfoldable pub currency : WebhookBody → String
unfolding or_text
currency b =
    trimmed
      (text_or (or_else (field (λ e. e.currency) b.payment) (field (λ e. e.currency) b.order)) "")

-- `amountMinor > 0 && amountMinor !== Math.round(order.amount * 100)`.
abbrev pub is_other_amount : ℤ → Order → Bool
is_other_amount (pos n) o = ltb 0 n && not (eqb n o.amount)
is_other_amount (negsuc n) o = false

unfoldable pub disagrees : WebhookBody → Order → Bool
unfolding amount_minor currency
disagrees b o =
    is_other_amount (amount_minor b) o || (is_given (currency b) && not (currency b == o.currency))

-- `o.id === localId || asUuid(o.id) === localId`.
abbrev pub is_local : WebhookProvider → String → Order → Bool
is_local env id o = o.id == id || env.as_uuid o.id == id

abbrev pub is_pending : PaymentStatus → Bool
is_pending PaymentStatus.pending = true
is_pending _ = false

-- The order's payment changes: a captured one where it is not paid, a failed one while it is open.
unfoldable pub changes_payment : WebhookBody → Order → Bool
unfolding includes event_name
changes_payment b o =
    if is_captured b
    then not (is_paid o.payment_status)
    else is_failed b && is_pending o.payment_status

unfoldable pub settled_order : Context → WebhookBody → Order → Order
unfolding includes event_name
settled_order ctx b o = record o {
  payment_status = if is_captured b then paid else PaymentStatus.failed;
  updated_at = ctx.now;
}

-- The store, or the response that the handler ends with.
pub data Progress : Type 0 where
  goes_on : World → Progress
  ends : World → WebhookResponse → Progress

abbrev pub template : WebhookBody → String
template b = if is_captured b then "payment_received" else "payment_failed"

-- A failed transaction restores the snapshot and is answered by the error handler.
unfoldable pub apply_payment :
    Context → WebhookProvider → WebhookBody → String → Order → World → Progress
apply_payment ctx env b id o w =
    if changes_payment b o
    then if ctx.persisted
      then (let o' = settled_order ctx b o in
          let w1 = record w { orders = modify_first (is_local env id) (λ _. o') w.orders } in
          let w2 = notify_safely ctx o' (template b) w1 in
          if ctx.recorded then goes_on w2 else ends w2 (refused 500 "Internal server error"))
      else ends w (refused 500 "Internal server error")
    else goes_on w

unfoldable pub pay : Context → WebhookProvider → WebhookBody → World → Progress
unfolding apply_payment
pay ctx env b w = elim (local_id env b) [
  | none ↦ goes_on w
  | some id ↦ elim (find (is_local env id) w.orders) [
    | none ↦ goes_on w
    | some o ↦
        if is_captured b && disagrees b o
        then ends w (refused 400 "Payment amount or currency does not match the order")
        else apply_payment ctx env b id o w
  ]
]
