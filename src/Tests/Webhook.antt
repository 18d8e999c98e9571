-- ===== src/Tests/Webhook.antt =====
-- The theorems on the provider's webhook, at a captured payment.
use real_time_logistics_plat.Common.{
  true, false, none, some, List, [], ◌∷◌, ◌≡◌, refl, Pointwise, includes, find,
}
use real_time_logistics_plat.Model.{pos, in_transit}
use real_time_logistics_plat.Csv.{chars, text, trim}
use real_time_logistics_plat.Settlements.{or_text, or_note}
use real_time_logistics_plat.Webhook.{
  verify_razorpay_webhook, Entity, WebhookBody, WebhookProvider, refused, duplicate, local_id,
  notes, provider_order, payment_id, settlement_entity, event_name, disagrees, amount_minor,
  currency,
}
use real_time_logistics_plat.Webhook.Handler.{WebhookState, post_webhook}
use real_time_logistics_plat.Webhook.Duplicates.{
  Delivery, deliver_all, Captures, post_webhook-duplicate, post_webhook_lost,
}
use real_time_logistics_plat.Webhook.Paid.{BodyChange, post_webhook-BodyChange}
use real_time_logistics_plat.Tests.Data.{whole, world, request, order}
use real_time_logistics_plat.Tests.Settlements.{desk}

abbrev env : WebhookProvider
env = record {
  raw = "{}";
  signature = "key";
  webhook_secret = some "key";
  hmac = λ k s. k;
  as_uuid = λ s. s;
  order_of_provider_order = λ s. some "o1";
  order_of_payment = λ s. none;
  reached = true;
}

signed : verify_razorpay_webhook env ≡ true
unfolding verify_razorpay_webhook
signed = refl

abbrev payment : Entity
payment = record {
  id = some "pay_1";
  order_id = some "order_1";
  amount = some (pos 50000);
  currency = some "INR";
  notes = none;
}

abbrev body : WebhookBody
body = record {
  event = some "payment.captured";
  payment = some payment;
  order = none;
  refund = none;
  dispute = none;
}

abbrev webhook_state : WebhookState whole
webhook_state = record { world = world; books = []; event_keys = [] }

abbrev between : List (Delivery whole)
between = record { ctx = request true; env = env; desk = desk; body = none } ∷ []

post_webhook-duplicate_example :
    post_webhook whole (request true) env desk (some body) (
      deliver_all whole between
        (post_webhook whole (request true) env desk (some body) webhook_state).0)
    ≡ (
      deliver_all whole between
          (post_webhook whole (request true) env desk (some body) webhook_state).0,
      duplicate,
    )
post_webhook-duplicate_example =
    post_webhook-duplicate whole (request true) (request true) env env desk desk body body
      webhook_state between signed refl signed refl

body-Captures : Captures whole env body (order "o1" "t1" in_transit (some "d1") none) webhook_state
unfolding includes find local_id notes provider_order payment_id settlement_entity or_note or_text
    event_name disagrees amount_minor currency chars text trim
body-Captures = record {
  id = "o1";
  signed = signed;
  reached = refl;
  is_new = refl;
  names = refl;
  found = refl;
  captured = refl;
  agrees = refl;
  open_payment = refl;
}

post_webhook_lost_example :
    ((post_webhook whole (request false) env desk (some body) webhook_state).1
      ≡ refused 500 "Internal server error")
    × ((post_webhook whole (request false) env desk (some body) webhook_state).0.world ≡ world)
    × (post_webhook whole
          (request true)
          env
          desk
          (some body)
          (post_webhook whole (request false) env desk (some body) webhook_state).0
        ≡ ((post_webhook whole (request false) env desk (some body) webhook_state).0, duplicate))
    × (post_webhook whole
          (request false)
          (record env { reached = false })
          desk
          (some body)
          webhook_state
        ≡ (webhook_state, refused 500 "Internal server error"))
post_webhook_lost_example =
    post_webhook_lost whole (request false) (request true) env desk desk body
      (order "o1" "t1" in_transit (some "d1") none) webhook_state body-Captures refl

post_webhook-BodyChange_example :
    Pointwise
      (BodyChange (request true) env (some body))
      world.orders
      (post_webhook whole (request true) env desk (some body) webhook_state).0.world.orders
post_webhook-BodyChange_example =
    post_webhook-BodyChange whole (request true) env desk (some body) webhook_state
