-- ===== src/Webhook/Paid.antt =====
-- What an event of the provider does to the orders.
use real_time_logistics_plat.Common.{
  String, Bool, true, false, not, ◌&&◌, Option, none, some, List, ◌≡◌, ◌⊎◌, inl, inr, refl, sym,
  subst, ◌∙◌, includes, find, find_holds, some_inj, modify_first, modify_first-Pointwise, Pointwise,
  Pointwise-refl, Pointwise-imp, Bool-cases, Option-cases, if-elim,
}
use real_time_logistics_plat.Model.{Order, PaymentStatus, paid}
use real_time_logistics_plat.Geo.{JsNumber}
use real_time_logistics_plat.Store.{World, Context}
use real_time_logistics_plat.Api.{notify_safely, settings_for}
use real_time_logistics_plat.Orders.References.{settings_for-orders}
use real_time_logistics_plat.Settlements.{Desk}
use real_time_logistics_plat.Webhook.{
  verify_razorpay_webhook, WebhookBody, WebhookProvider, WebhookResponse, Progress, local_id,
  event_key, is_local, is_captured, is_failed, is_pending, disagrees, changes_payment,
  settled_order, apply_payment, pay, template,
}
use real_time_logistics_plat.Webhook.Handler.{WebhookState, post_webhook}
use real_time_logistics_plat.Webhook.Duplicates.{world_of, take_event-world}

open_failure :
    (p : PaymentStatus) (f : Bool)
    → (f && is_pending p) ≡ true
    → (f ≡ true) × (p ≡ PaymentStatus.pending)
open_failure PaymentStatus.pending true h = (refl, refl)
open_failure PaymentStatus.pending false h = cc
open_failure PaymentStatus.unpaid true h = cc
open_failure PaymentStatus.unpaid false h = cc
open_failure PaymentStatus.paid true h = cc
open_failure PaymentStatus.paid false h = cc
open_failure PaymentStatus.failed true h = cc
open_failure PaymentStatus.failed false h = cc

module _ (ctx : Context) (env : WebhookProvider) (b : WebhookBody) where
  -- An order is as it was, or the event names it and its payment changes: to paid where the event
  -- captures a payment that agrees with the order, and to failed where the event tells of a failure
  -- and the payment was pending. Nothing else of it changes but the time.
  pub data PaymentChange (o : Order) : Order → Type 0 where
    same : {o' : Order} → o' ≡ o → PaymentChange o o'
    captured :
        {o' : Order} (id : String)
        → local_id env b ≡ some id
        → is_local env id o ≡ true
        → is_captured b ≡ true
        → disagrees b o ≡ false
        → o' ≡ record o { payment_status = paid; updated_at = ctx.now }
        → PaymentChange o o'
    failed :
        {o' : Order} (id : String)
        → local_id env b ≡ some id
        → is_local env id o ≡ true
        → is_failed b ≡ true
        → o.payment_status ≡ PaymentStatus.pending
        → o' ≡ record o { payment_status = PaymentStatus.failed; updated_at = ctx.now }
        → PaymentChange o o'

  notify_safely-orders :
      (o : Order) (t : String) (w : World) → (notify_safely ctx o t w).orders ≡ w.orders
  unfolding notify_safely settings_for
  notify_safely-orders o t w = (settings_for-orders o.organization_id w).0

  settled-PaymentChange :
      (id : String) (o : Order)
      → local_id env b ≡ some id
      → is_local env id o ≡ true
      → (is_captured b && disagrees b o) ≡ false
      → changes_payment b o ≡ true
      → PaymentChange o (settled_order ctx b o)
  unfolding changes_payment settled_order
  settled-PaymentChange id o names local agrees changes = elim (Bool-cases (is_captured b)) [
    | inl e ↦ captured id names local e (rw e at agrees) (rw e refl)
    | inr e ↦
        let (fails, waits) = open_failure o.payment_status (is_failed b) (rw e at changes) in
        failed id names local fails waits (rw e refl)
  ]

  same_all : (os : List Order) → Pointwise PaymentChange os os
  same_all = Pointwise-refl PaymentChange (λ o. same refl)

  -- The orders of the store that the handler goes on with, or ends with.
  abbrev IsChanged : World → World → Type 0
  IsChanged w w' = Pointwise PaymentChange w.orders w'.orders

  paid_world : String → Order → World → World
  paid_world id o w =
      notify_safely ctx (settled_order ctx b o) (template b)
        (record w { orders = modify_first (is_local env id) (λ _. settled_order ctx b o) w.orders })

  paid_world-IsChanged :
      (id : String) (o : Order) (w : World)
      → local_id env b ≡ some id
      → find (is_local env id) w.orders ≡ some o
      → (is_captured b && disagrees b o) ≡ false
      → changes_payment b o ≡ true
      → IsChanged w (paid_world id o w)
  unfolding paid_world
  paid_world-IsChanged id o w names found agrees changes = rw notify_safely-orders (
      modify_first-Pointwise PaymentChange (λ x. same refl) (is_local env id)
        (λ _. settled_order ctx b o) w.orders
        (λ x at_x.
          subst (λ y. PaymentChange y (settled_order ctx b o)) (some_inj o x (sym found ∙ at_x))
            (settled-PaymentChange id o names (find_holds (is_local env id) w.orders o found) agrees
              changes)))

  apply_payment-IsChanged :
      (id : String) (o : Order) (w : World)
      → local_id env b ≡ some id
      → find (is_local env id) w.orders ≡ some o
      → (is_captured b && disagrees b o) ≡ false
      → IsChanged w (world_of (apply_payment ctx env b id o w))
  unfolding apply_payment world_of paid_world
  apply_payment-IsChanged id o w names found agrees =
      let Fine : Progress → Type 0 = λ p. IsChanged w (world_of p) in
      let changed = paid_world-IsChanged id o w names found agrees in
      if-elim Fine (changes_payment b o) _ _
        (λ e.
          if-elim Fine ctx.persisted _ _
            (λ _. if-elim Fine ctx.recorded _ _ (λ _. changed e) (λ _. changed e))
            (λ _. same_all w.orders))
        (λ _. same_all w.orders)

  pay-IsChanged : (w : World) → IsChanged w (world_of (pay ctx env b w))
  unfolding pay world_of
  pay-IsChanged w = elim (Option-cases (local_id env b)) [
    | inl e ↦ rw (e, pay) (same_all w.orders)
    | inr (id, e) ↦
        rw (e, pay)
          (elim (Option-cases (find (is_local env id) w.orders)) [
            | inl f ↦ rw f (same_all w.orders)
            | inr (o, f) ↦ rw f (elim (Bool-cases (is_captured b && disagrees b o)) [
              | inl g ↦ rw g (same_all w.orders)
              | inr g ↦ rw g (apply_payment-IsChanged id o w e f g)
            ])
          ])
  ]

-- What one delivery of a body does to the orders, where the signature fits or not.
abbrev pub BodyChange : Context → WebhookProvider → Option WebhookBody → Order → Order → Type 0
BodyChange ctx env none o o' = o' ≡ o
BodyChange ctx env (some b) o o' =
    (o' ≡ o) ⊎ ((verify_razorpay_webhook env ≡ true) × PaymentChange ctx env b o o')

not-false : (b : Bool) → not b ≡ false → b ≡ true
not-false true h = refl
not-false false h = cc

module _ (num : JsNumber) where
  -- A delivery changes no order but the one that its event names, and only with a signature that
  -- fits: to paid where a payment that agrees with the order is captured, to failed where a pending
  -- payment fails. Nothing else of an order changes but the time, none is added, lost or moved.
  pub post_webhook-BodyChange :
      (ctx : Context) (env : WebhookProvider) (desk : Desk num) (body : Option WebhookBody)
      (d : WebhookState num)
      → Pointwise
          (BodyChange ctx env body)
          d.world.orders
          (post_webhook num ctx env desk body d).0.world.orders
  unfolding post_webhook
  post_webhook-BodyChange ctx env desk none d =
      let unchanged = Pointwise-refl (BodyChange ctx env none) (λ o. refl) d.world.orders in
      if-elim
        (λ (p : WebhookState num × WebhookResponse).
          Pointwise (BodyChange ctx env none) d.world.orders p.0.world.orders)
        (not (verify_razorpay_webhook env)) _ _ (λ _. unchanged) (λ _. unchanged)
  post_webhook-BodyChange ctx env desk (some b) d =
      let Fine : WebhookState num × WebhookResponse → Type 0 =
        λ p. Pointwise (BodyChange ctx env (some b)) d.world.orders p.0.world.orders in
      let unchanged = Pointwise-refl (BodyChange ctx env (some b)) (λ o. inl refl) d.world.orders in
      if-elim Fine (not (verify_razorpay_webhook env)) _ _ (λ _. unchanged)
        (λ signed.
          if-elim Fine (not env.reached) _ _ (λ _. unchanged)
            (λ _.
              if-elim Fine (includes d.event_keys (event_key b)) _ _ (λ _. unchanged)
                (λ _. rw (take_event-world num ctx env desk b d) (
                  Pointwise-imp (PaymentChange ctx env b) (BodyChange ctx env (some b))
                    (λ o o' change. inr (not-false (verify_razorpay_webhook env) signed, change))
                    d.world.orders _ (pay-IsChanged ctx env b d.world)))))
