-- ===== src/Webhook/Duplicates.antt =====
-- Events that the provider delivers again.
use real_time_logistics_plat.Common.{
  String, true, false, Option, none, some, List, [], ◌∷◌, ◌≡◌, ◌⊎◌, inl, inr, refl, eq_refl,
  includes, find, arith, Bool-cases, Bool, ap, ◌∙◌, if◌then◌else◌,
}
use real_time_logistics_plat.Model.{Order, is_paid}
use real_time_logistics_plat.Geo.{JsNumber}
use real_time_logistics_plat.Store.{World, Context}
use real_time_logistics_plat.Settlements.{Desk}
use real_time_logistics_plat.Settlements.Service.{Books}
use real_time_logistics_plat.Webhook.{
  verify_razorpay_webhook, WebhookBody, WebhookProvider, WebhookResponse, duplicate, refused,
  Progress, goes_on, ends, local_id, event_key, is_local, is_captured, disagrees, changes_payment,
  apply_payment, pay,
}
use real_time_logistics_plat.Webhook.Handler.{
  WebhookState, settle_event, settled, take_event, post_webhook,
}

unfoldable pub world_of : Progress → World
world_of (goes_on w) = w
world_of (ends w response) = w

pub Progress-cases :
    (p : Progress)
    → ((w : World) × (p ≡ goes_on w)) ⊎ ((w : World) × (r : WebhookResponse) × (p ≡ ends w r))
Progress-cases (goes_on w) = inl (w, refl)
Progress-cases (ends w r) = inr (w, r, refl)

includes-cons :
    (x k : String) (xs : List String) → includes xs k ≡ true → includes (x ∷ xs) k ≡ true
unfolding includes
includes-cons x k xs h = ground arith

module _ (num : JsNumber) where
  settled-world :
      (d : WebhookState num) (w : World) (p : Books num × WebhookResponse)
      → (settled num d w p).0.world ≡ w
  settled-world d w (books, r) = refl

  settled-event_keys :
      (d : WebhookState num) (w : World) (p : Books num × WebhookResponse)
      → (settled num d w p).0.event_keys ≡ d.event_keys
  settled-event_keys d w (books, r) = refl

  module _ (ctx : Context) (env : WebhookProvider) (desk : Desk num) (b : WebhookBody)
      (d : WebhookState num) where
    pub take_event-world :
        (take_event num ctx env desk b d).0.world ≡ world_of (pay ctx env b d.world)
    unfolding take_event world_of
    take_event-world = elim (Progress-cases (pay ctx env b d.world)) [
      | inl (w, e) ↦
          rw (e, take_event)
            (settled-world (record d { event_keys = event_key b ∷ d.event_keys }) w
              (settle_event num ctx env desk b w d.books))
      | inr (w, r, e) ↦ rw (e, take_event) refl
    ]

    take_event-event_keys :
        (take_event num ctx env desk b d).0.event_keys ≡ event_key b ∷ d.event_keys
    unfolding take_event
    take_event-event_keys = elim (Progress-cases (pay ctx env b d.world)) [
      | inl (w, e) ↦
          rw (e, take_event)
            (settled-event_keys (record d { event_keys = event_key b ∷ d.event_keys }) w
              (settle_event num ctx env desk b w d.books))
      | inr (w, r, e) ↦ rw (e, take_event) refl
    ]

    -- A signed event is known after it was delivered.
    delivered-known :
        verify_razorpay_webhook env ≡ true
        → env.reached ≡ true
        → includes (post_webhook num ctx env desk (some b) d).0.event_keys (event_key b) ≡ true
    unfolding post_webhook includes
    delivered-known signed reached = elim (Bool-cases (includes d.event_keys (event_key b))) [
      | inl e ↦ rw (signed, reached, e) e
      | inr e ↦ rw (signed, reached, e, take_event-event_keys) (rw (eq_refl (event_key b)) refl)
    ]

    delivered_again :
        verify_razorpay_webhook env ≡ true
        → includes d.event_keys (event_key b) ≡ true
        → post_webhook num ctx env desk (some b) d
          ≡ (d, if env.reached then duplicate else refused 500 "Internal server error")
    unfolding post_webhook
    delivered_again signed e = elim (Bool-cases env.reached) [
      | inl f ↦ rw (signed, f, e) refl
      | inr f ↦ rw (signed, f) refl
    ]

  -- A delivery of anything by anybody, with its own request.
  pub record Delivery : Type 0 where
    pub ctx : Context
    pub env : WebhookProvider
    pub desk : Desk num
    pub body : Option WebhookBody

  unfoldable pub deliver : Delivery → WebhookState num → WebhookState num
  unfolding post_webhook
  deliver v d = (post_webhook num v.ctx v.env v.desk v.body d).0

  unfoldable pub deliver_all : List Delivery → WebhookState num → WebhookState num
  unfolding deliver
  deliver_all [] d = d
  deliver_all (v ∷ vs) d = deliver_all vs (deliver v d)

  known-post_webhook :
      (ctx : Context) (env : WebhookProvider) (desk : Desk num) (body : Option WebhookBody)
      (d : WebhookState num) (k : String)
      → includes d.event_keys k ≡ true
      → includes (post_webhook num ctx env desk body d).0.event_keys k ≡ true
  unfolding post_webhook includes
  known-post_webhook ctx env desk none d k h = ground arith
  known-post_webhook ctx env desk (some b) d k h = elim (Bool-cases (verify_razorpay_webhook env)) [
    | inr e ↦ rw e h
    | inl e ↦ elim (Bool-cases env.reached) [
      | inr g ↦ rw (e, g) h
      | inl g ↦ elim (Bool-cases (includes d.event_keys (event_key b))) [
        | inl f ↦ rw (e, g, f) h
        | inr f ↦
            rw (e, g, f, take_event-event_keys ctx env desk b d)
              (includes-cons (event_key b) k d.event_keys h)
      ]
    ]
  ]

  known-deliver_all :
      (vs : List Delivery) (d : WebhookState num) (k : String)
      → includes d.event_keys k ≡ true
      → includes (deliver_all vs d).event_keys k ≡ true
  unfolding deliver_all deliver
  known-deliver_all [] d k h = h
  known-deliver_all (v ∷ vs) d k h =
      known-deliver_all vs (deliver v d) k (known-post_webhook v.ctx v.env v.desk v.body d k h)

  -- An event whose key was recorded counts once: whatever is delivered after it, when an event with
  -- the same key is delivered again it changes nothing, and it is answered as a duplicate, or with
  -- an error where the database cannot be asked.
  pub post_webhook-duplicate :
      (ctx ctx' : Context) (env env' : WebhookProvider) (desk desk' : Desk num) (b c : WebhookBody)
      (d : WebhookState num) (vs : List Delivery)
      → verify_razorpay_webhook env ≡ true
      → env.reached ≡ true
      → verify_razorpay_webhook env' ≡ true
      → event_key c ≡ event_key b
      → (let after = deliver_all vs (post_webhook num ctx env desk (some b) d).0 in
          post_webhook num ctx' env' desk' (some c) after
          ≡ (after, if env'.reached then duplicate else refused 500 "Internal server error"))
  post_webhook-duplicate ctx ctx' env env' desk desk' b c d vs signed reached signed' same =
      let first = (post_webhook num ctx env desk (some b) d).0 in
      let known =
        known-deliver_all vs first (event_key b)
          (delivered-known ctx env desk b d signed reached) in
      delivered_again ctx' env' desk' c (deliver_all vs first) signed' (rw same known)

  -- The order that a signed event captures a payment for, where the event is new, its key is
  -- recorded, and it agrees with the order.
  pub record Captures (env : WebhookProvider) (b : WebhookBody) (o : Order) (d : WebhookState num)
      : Type 0 where
    pub id : String
    pub signed : verify_razorpay_webhook env ≡ true
    pub reached : env.reached ≡ true
    pub is_new : includes d.event_keys (event_key b) ≡ false
    pub names : local_id env b ≡ some id
    pub found : find (is_local env id) d.world.orders ≡ some o
    pub captured : is_captured b ≡ true
    pub agrees : disagrees b o ≡ false
    pub open_payment : is_paid o.payment_status ≡ false

  duplicate_where_reached :
      (ctx ctx' : Context) (env : WebhookProvider) (desk desk' : Desk num) (b : WebhookBody)
      (d : WebhookState num)
      → verify_razorpay_webhook env ≡ true
      → env.reached ≡ true
      → (let first = (post_webhook num ctx env desk (some b) d).0 in
          post_webhook num ctx' env desk' (some b) first ≡ (first, duplicate))
  unfolding deliver_all
  duplicate_where_reached ctx ctx' env desk desk' b d signed reached =
      let first = (post_webhook num ctx env desk (some b) d).0 in
      let again =
        post_webhook-duplicate ctx ctx' env env desk desk' b b d [] signed reached signed refl in
      again
      ∙ ap (λ (r : Bool). (first, if r then duplicate else refused 500 "Internal server error"))
          reached

  unreached :
      (ctx : Context) (env : WebhookProvider) (desk : Desk num) (b : WebhookBody)
      (d : WebhookState num)
      → verify_razorpay_webhook env ≡ true
      → post_webhook num ctx (record env { reached = false }) desk (some b) d
        ≡ (d, refused 500 "Internal server error")
  unfolding post_webhook verify_razorpay_webhook
  unreached ctx env desk b d signed = rw signed refl

  refused_payment :
      (ctx : Context) (env : WebhookProvider) (b : WebhookBody) (o : Order) (d : WebhookState num)
      → Captures env b o d
      → ctx.persisted ≡ false
      → pay ctx env b d.world ≡ ends d.world (refused 500 "Internal server error")
  unfolding pay apply_payment changes_payment
  refused_payment ctx env b o d h down =
      rw (h.names, pay, h.found, h.captured, h.agrees, h.open_payment, down) refl

  -- A captured payment whose transaction the database refuses, once it has recorded the event's
  -- key, is lost: the event is answered with an error and the order is not paid, but the event
  -- counts as taken, so that the provider's next delivery of it, with the database up again, is
  -- answered as a duplicate and changes nothing. Where the database does not record the key either,
  -- the error changes nothing, so that the next delivery is not taken for a duplicate.
  pub post_webhook_lost :
      (ctx ctx' : Context) (env : WebhookProvider) (desk desk' : Desk num) (b : WebhookBody)
      (o : Order) (d : WebhookState num)
      → Captures env b o d
      → ctx.persisted ≡ false
      → (let first = post_webhook num ctx env desk (some b) d in
          (first.1 ≡ refused 500 "Internal server error")
          × (first.0.world ≡ d.world)
          × (post_webhook num ctx' env desk' (some b) first.0 ≡ (first.0, duplicate))
          × (post_webhook num ctx (record env { reached = false }) desk (some b) d
              ≡ (d, refused 500 "Internal server error")))
  unfolding post_webhook deliver_all
  post_webhook_lost ctx ctx' env desk desk' b o d h down = (
    rw (h.signed, h.reached, h.is_new, take_event, refused_payment ctx env b o d h down) refl,
    rw (h.signed, h.reached, h.is_new, take_event, refused_payment ctx env b o d h down) refl,
    duplicate_where_reached ctx ctx' env desk desk' b d h.signed h.reached,
    unreached ctx env desk b d h.signed,
  )
