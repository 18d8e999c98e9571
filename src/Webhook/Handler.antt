-- ===== src/Webhook/Handler.antt =====
-- The handler of the webhook: its guards, the key of the event, the payment, and the settlement.
use real_time_logistics_plat.Common.{
  ℕ, ◌*◌, String, concat, Bool, not, ◌&&◌, ◌||◌, Option, none, some, List, ◌∷◌, ◌==◌, find,
  includes, eqb, if◌then◌else◌,
}
use real_time_logistics_plat.Model.{ℤ, pos, negsuc, Order}
use real_time_logistics_plat.Geo.{JsNumber}
use real_time_logistics_plat.Store.{World, Context}
use real_time_logistics_plat.Csv.{chars}
use real_time_logistics_plat.Settlements.{
  Desk, is_given, or_note, or_text, trimmed, contains, begins, is_currency,
}
use real_time_logistics_plat.Settlements.Service.{
  Books, ProviderSettlementEventInput, EventResult, recorded, thrown,
  record_provider_settlement_event,
}
use real_time_logistics_plat.Webhook.{
  verify_razorpay_webhook, WebhookBody, SettlementEntity, WebhookProvider, WebhookResponse,
  received, duplicate, refused, goes_on, ends, field, or_else, or_zero, text_or, settlement_entity,
  notes, local_id, provider_ref, event_name, event_key, is_local, pay,
}

-- The state that the handler works on: the store, the settlements, and the keys of the events that
-- were taken, which are the rows of a table, or a set of the process where there is no database.
pub record WebhookState (num : JsNumber) : Type 0 where
  pub world : World
  pub books : Books num
  pub event_keys : List String

abbrev pub is_refund_event : WebhookBody → Bool
is_refund_event b =
    begins (chars "refund.") (chars (event_name b)) || event_name b == "payment.refunded"

abbrev pub is_chargeback_event : WebhookBody → Bool
is_chargeback_event b =
    contains (chars "dispute") (chars (event_name b))
    || contains (chars "chargeback") (chars (event_name b))

unfoldable pub order_of : WebhookProvider → WebhookBody → World → Option Order
order_of env b w = elim (local_id env b) [ none ↦ none | some id ↦ find (is_local env id) w.orders ]

unfoldable pub organization_of : WebhookBody → Option Order → Option String
unfolding notes or_note
organization_of b order =
    or_note (field (λ n. n.organization_id) (notes b)) (field (λ o. some o.organization_id) order)

unfoldable pub settlement_amount : WebhookBody → SettlementEntity → ℤ
settlement_amount b s = or_zero (or_else s.amount (field (λ e. e.amount) b.order))

-- `new Date(created_at * 1000)`, or the time of the request where it is missing or zero.
abbrev settled_at : ℕ → Option ℕ → ℕ
settled_at now none = now
settled_at now (some t) = if eqb t 0 then now else t * 1000

module _ (num : JsNumber) where
  open num use {of_ℕ, div}

  unfoldable pub settlement_currency :
      Desk num → WebhookBody → SettlementEntity → Option Order → String
  unfolding or_text
  settlement_currency desk b s order = desk.upper (
      trimmed (
        text_or
          (or_else s.currency
            (or_else (field (λ e. e.currency) b.order) (field (λ o. some o.currency) order)))
          ""))

  unfoldable pub settlement_input :
      Context
      → WebhookProvider
      → Desk num
      → WebhookBody
      → SettlementEntity
      → Option Order
      → String
      → ℕ
      → ProviderSettlementEventInput num
  unfolding provider_ref or_note local_id settlement_currency event_name
  settlement_input ctx env desk b s order organization amount = record {
    organization_id = organization;
    provider_ref = provider_ref b;
    order_id = or_note (field (λ o. some o.id) order) (local_id env b);
    tracking_code = field (λ o. some o.tracking_code) order;
    provider_amount = div (of_ℕ amount) (of_ℕ 100);
    currency = settlement_currency desk b s order;
    provider_status = if is_chargeback_event b then "chargeback" else "refunded";
    fee_amount = none;
    net_amount = none;
    note = some (concat (event_name b) " webhook");
    settled_at = some (settled_at ctx.now s.created_at);
  }

  abbrev response_of : EventResult num → WebhookResponse
  response_of (recorded row) = received
  response_of (thrown message) = refused 500 "Internal server error"

  abbrev answered : Books num × EventResult num → Books num × WebhookResponse
  answered (books, result) = (books, response_of result)

  unfoldable pub record_amount :
      Context
      → WebhookProvider
      → Desk num
      → WebhookBody
      → SettlementEntity
      → Option Order
      → String
      → ℤ
      → World
      → Books num
      → Books num × WebhookResponse
  unfolding settlement_input settlement_currency is_currency record_provider_settlement_event
  record_amount ctx env desk b s order organization (negsuc n) w books = (books, received)
  record_amount ctx env desk b s order organization (pos n) w books =
      if is_given organization && is_currency (chars (settlement_currency desk b s order))
      then answered (
          record_provider_settlement_event num desk w
            (settlement_input ctx env desk b s order organization n) books)
      else (books, received)

  -- A refund or a chargeback is recorded where its organization, amount and currency are known.
  unfoldable pub settle_event :
      Context
      → WebhookProvider
      → Desk num
      → WebhookBody
      → World
      → Books num
      → Books num × WebhookResponse
  unfolding settlement_entity event_name begins contains order_of organization_of settlement_amount
      record_amount
  settle_event ctx env desk b w books = elim (settlement_entity b) [
    | none ↦ (books, received)
    | some s ↦
        if is_refund_event b || is_chargeback_event b
        then elim (organization_of b (order_of env b w)) [
          | none ↦ (books, received)
          | some organization ↦
              record_amount ctx env desk b s (order_of env b w) organization (settlement_amount b s)
                w books
        ]
        else (books, received)
  ]

  abbrev pub settled :
      WebhookState num → World → Books num × WebhookResponse → WebhookState num × WebhookResponse
  settled d w (books, response) = (record d { world = w; books = books }, response)

  -- The event is taken: its key is recorded before anything else is done.
  unfoldable pub take_event :
      Context
      → WebhookProvider
      → Desk num
      → WebhookBody
      → WebhookState num
      → WebhookState num × WebhookResponse
  unfolding pay settle_event
  take_event ctx env desk b d =
      let taken = record d { event_keys = event_key b ∷ d.event_keys } in
      elim (pay ctx env b d.world) [
        | ends w response ↦ (record taken { world = w }, response)
        | goes_on w ↦ settled taken w (settle_event ctx env desk b w d.books)
      ]

  -- The body is `none` where it is not JSON.
  unfoldable pub post_webhook :
      Context
      → WebhookProvider
      → Desk num
      → Option WebhookBody
      → WebhookState num
      → WebhookState num × WebhookResponse
  unfolding take_event includes
  post_webhook ctx env desk body d =
      if not (verify_razorpay_webhook env)
      then (d, refused 400 "Invalid Razorpay webhook signature")
      else elim body [
        | none ↦ (d, refused 400 "Invalid webhook payload")
        | some b ↦
            if not env.reached
            then (d, refused 500 "Internal server error")
            else if includes d.event_keys (event_key b)
            then (d, duplicate)
            else take_event ctx env desk b d
      ]
