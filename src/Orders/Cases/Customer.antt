-- ===== src/Orders/Cases/Customer.antt =====
-- The states that the handlers of a customer's request, of a return's review and of a payment can
-- leave: the old one, or the end of `save_order` at the changed order.
use real_time_logistics_plat.Common.{
  String, concat, true, false, Option, none, some, ◌≡◌, sym, subst, arith, ltb,
}
use real_time_logistics_plat.Model.{
  User, Order, OrderStatus, delivered, cancelled, is_customer, requested, ReturnStatus, is_paid,
}
use real_time_logistics_plat.StateMachine.{can_transition}
use real_time_logistics_plat.Store.{World, Context, get_order, set_order, moved, freed}
use real_time_logistics_plat.Store.Transition.{transition_allowed, is_order-moved}
use real_time_logistics_plat.Api.{finish, is_operator, is_payer}
use real_time_logistics_plat.Orders.References.{get_order_holds, restore_lem}
use real_time_logistics_plat.Orders.Cases.{
  if_cases, permit_cases, with_order_cases, with_own_order_cases, with_payable_cases,
  save_order_cases,
}
use real_time_logistics_plat.Orders.Customer.{
  RescheduleInput, Verdict, rescheduled_order, returned_order, reviewed_order, patch_reschedule,
  post_cancel, cancel_order, post_return, patch_return, can_reschedule, can_cancel, is_delivered,
  has_open_return, is_requested, verdict_text,
}
use real_time_logistics_plat.Orders.Payment.{
  Provider, VerifyInput, paid_order, post_verify, post_demo_confirm, verify_razorpay_payment,
  is_demo_mode,
}

abbrev pub saved_world : Context → User → String → String → Order → String → World → World
saved_world ctx actor id action o template w =
    (finish ctx actor action 200 o template (set_order id actor.organization_id o w)).0

abbrev pub cancelled_order : Context → User → Order → Order
cancelled_order ctx actor o =
    let o' = moved ctx o cancelled actor in record o' { cancelled_at = some o'.updated_at }

abbrev pub cancelled_world : Context → User → String → Order → World → World
cancelled_world ctx actor id o w =
    (finish ctx actor "customer.order_cancelled" 200 (cancelled_order ctx actor o) "order_cancelled"
      (set_order id actor.organization_id (cancelled_order ctx actor o)
        (record w { drivers = freed o.assigned_driver_id cancelled w.drivers }))).0

pub can_cancel_holds : (s : OrderStatus) → can_cancel s ≡ true → can_transition s cancelled ≡ true
unfolding can_transition
can_cancel_holds s h = ground arith

delivered_holds : (s : OrderStatus) → is_delivered s ≡ true → s ≡ delivered
delivered_holds s h = ground arith

requested_holds : (r : Option ReturnStatus) → is_requested r ≡ true → r ≡ some requested
requested_holds r h = ground arith

module _ (P : World → Type 0) (ctx : Context) (actor : User) (id : String) (w : World)
    (kept : P w) where
  pub patch_reschedule_cases :
      (body : Option RescheduleInput)
      → ((b : RescheduleInput) (o : Order)
          → get_order id actor.organization_id w ≡ some o
          → ltb b.delivery_window_start b.promised_at ≡ true
          → can_reschedule o.status ≡ true
          → ctx.persisted ≡ true
          → P (
              saved_world ctx actor id "customer.order_rescheduled"
                (rescheduled_order ctx actor b o)
                "delivery_rescheduled"
                w))
      → P (patch_reschedule ctx actor id body w).0
  unfolding patch_reschedule rescheduled_order
  patch_reschedule_cases none each = permit_cases P (is_customer actor.role) w _ kept kept
  patch_reschedule_cases (some b) each = permit_cases P (is_customer actor.role) w _ kept (
      if_cases P (ltb b.delivery_window_start b.promised_at) _ _
        (λ t. with_own_order_cases P ctx actor id w _ kept (λ o e.
          if_cases P (can_reschedule o.status) _ _
            (λ s.
              save_order_cases P ctx actor id "customer.order_rescheduled" o
                (rescheduled_order ctx actor b o) "delivery_rescheduled" w e
                (get_order_holds id actor.organization_id o w e) kept (each b o e t s))
            (λ _. kept)))
        (λ _. kept))

  cancel_order_cases :
      (o : Order)
      → get_order id actor.organization_id w ≡ some o
      → can_cancel o.status ≡ true
      → (ctx.persisted ≡ true → P (cancelled_world ctx actor id o w))
      → P (cancel_order ctx actor id o w).0
  unfolding cancel_order
  cancel_order_cases o e s k =
      rw
        (
          transition_allowed ctx o cancelled actor w.drivers (can_cancel_holds o.status s),
          cancel_order,
        )
        (if_cases P ctx.persisted _ _ k (λ _.
          subst P
            (sym (
              restore_lem id actor.organization_id o (cancelled_order ctx actor o) cancelled w e (
                is_order-moved id actor.organization_id ctx o cancelled actor
                  (get_order_holds id actor.organization_id o w e))))
            kept))

  pub post_cancel_cases :
      ((o : Order)
        → get_order id actor.organization_id w ≡ some o
        → can_cancel o.status ≡ true
        → ctx.persisted ≡ true
        → P (cancelled_world ctx actor id o w))
      → P (post_cancel ctx actor id w).0
  unfolding post_cancel
  post_cancel_cases each = permit_cases P (is_customer actor.role) w _ kept (
      with_own_order_cases P ctx actor id w _ kept (λ o e.
        if_cases P (can_cancel o.status) _ _ (λ s. cancel_order_cases o e s (each o e s))
          (λ _. kept)))

  pub post_return_cases :
      (body : Option String)
      → ((reason : String) (o : Order)
          → get_order id actor.organization_id w ≡ some o
          → o.status ≡ delivered
          → has_open_return o.return_status ≡ false
          → ctx.persisted ≡ true
          → P (
              saved_world ctx actor id "customer.return_requested"
                (returned_order ctx actor reason o)
                "return_requested"
                w))
      → P (post_return ctx actor id body w).0
  unfolding post_return returned_order
  post_return_cases none each = permit_cases P (is_customer actor.role) w _ kept kept
  post_return_cases (some reason) each = permit_cases P (is_customer actor.role) w _ kept (
      with_own_order_cases P ctx actor id w _ kept (λ o e.
        if_cases P (is_delivered o.status) _ _
          (λ s.
            if_cases P (has_open_return o.return_status) _ _ (λ _. kept)
              (λ r.
                save_order_cases P ctx actor id "customer.return_requested" o
                  (returned_order ctx actor reason o) "return_requested" w e
                  (get_order_holds id actor.organization_id o w e) kept
                  (each reason o e (delivered_holds o.status s) r)))
          (λ _. kept)))

  pub patch_return_cases :
      (body : Option (Verdict × Option String))
      → ((v : Verdict) (note : Option String) (o : Order)
          → get_order id actor.organization_id w ≡ some o
          → o.return_status ≡ some requested
          → ctx.persisted ≡ true
          → P (
              saved_world ctx actor id
                (concat "return." (verdict_text v))
                (reviewed_order ctx actor v note o)
                (concat "return_" (verdict_text v))
                w))
      → P (patch_return ctx actor id body w).0
  unfolding patch_return reviewed_order
  patch_return_cases none each = permit_cases P (is_operator actor.role) w _ kept kept
  patch_return_cases (some (v, note)) each = permit_cases P (is_operator actor.role) w _ kept (
      with_order_cases P actor id w _ kept (λ o e.
        if_cases P (is_requested o.return_status) _ _
          (λ s.
            save_order_cases P ctx actor id (concat "return." (verdict_text v)) o
              (reviewed_order ctx actor v note o) (concat "return_" (verdict_text v)) w e
              (get_order_holds id actor.organization_id o w e) kept
              (each v note o e (requested_holds o.return_status s)))
          (λ _. kept)))

  pub post_verify_cases :
      (env : Provider) (body : Option VerifyInput)
      → ((b : VerifyInput) (o : Order)
          → get_order id actor.organization_id w ≡ some o
          → is_paid o.payment_status ≡ false
          → verify_razorpay_payment env o.id b.razorpay_order_id b.razorpay_payment_id
              b.razorpay_signature
            ≡ true
          → ctx.persisted ≡ true
          → P (
              saved_world ctx actor id "payment.captured"
                (paid_order ctx actor "Razorpay payment verified" o)
                "payment_received"
                w))
      → P (post_verify ctx env actor id body w).0
  unfolding post_verify paid_order
  post_verify_cases env none each = permit_cases P (is_payer actor.role) w _ kept (
      with_payable_cases P ctx actor id w _ kept
        (λ o e. if_cases P (is_paid o.payment_status) _ _ (λ _. kept) (λ _. kept)))
  post_verify_cases env (some b) each = permit_cases P (is_payer actor.role) w _ kept (
      with_payable_cases P ctx actor id w _ kept (λ o e.
        if_cases P (is_paid o.payment_status) _ _ (λ _. kept)
          (λ u.
            if_cases P
              (verify_razorpay_payment env o.id b.razorpay_order_id b.razorpay_payment_id
                b.razorpay_signature)
              _ _
              (λ v.
                save_order_cases P ctx actor id "payment.captured" o
                  (paid_order ctx actor "Razorpay payment verified" o) "payment_received" w e
                  (get_order_holds id actor.organization_id o w e) kept (each b o e u v))
              (λ _. kept))))

  pub post_demo_confirm_cases :
      (env : Provider)
      → ((o : Order)
          → get_order id actor.organization_id w ≡ some o
          → is_demo_mode env ≡ true
          → is_paid o.payment_status ≡ false
          → ctx.persisted ≡ true
          → P (
              saved_world ctx actor id "payment.captured"
                (paid_order ctx actor "Payment confirmed by demo adapter" o)
                "payment_received"
                w))
      → P (post_demo_confirm ctx env actor id w).0
  unfolding post_demo_confirm paid_order
  post_demo_confirm_cases env each = permit_cases P (is_payer actor.role) w _ kept (
      if_cases P (is_demo_mode env) _ _
        (λ m. with_payable_cases P ctx actor id w _ kept (λ o e.
          if_cases P (is_paid o.payment_status) _ _ (λ _. kept)
            (λ u.
              save_order_cases P ctx actor id "payment.captured" o
                (paid_order ctx actor "Payment confirmed by demo adapter" o) "payment_received" w e
                (get_order_holds id actor.organization_id o w e) kept (each o e m u))))
        (λ _. kept))
