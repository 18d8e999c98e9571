-- ===== src/Orders/Lifecycle/Edits.antt =====
-- The changed orders that the handlers of apps/api/src/app.ts store meet the specification.
use mathlib.Core.List.{append-nil}
use real_time_logistics_plat.Common.{
  String, Option, some, [], ◌≡◌, refl, sym, ◌≢◌, Bool, true, false, arith, List, ◌∷◌, ◌++◌,
  if◌then◌else◌,
}
use real_time_logistics_plat.Model.{
  User, Order, OrderEvent, OrderStatus, pending, assigned, in_transit, delivered, cancelled, Driver,
  DeliveryProof,
}
use real_time_logistics_plat.StateMachine.{can_transition}
use real_time_logistics_plat.Store.{Context, moved, assigned_order}
use real_time_logistics_plat.Orders.Lifecycle.{stays, moves, returns, Evolves}
use real_time_logistics_plat.Orders.Delivery.{accepted_order, rejected_order, is_accepted}
use real_time_logistics_plat.Orders.Customer.{
  RescheduleInput, Verdict, rescheduled_order, returned_order, reviewed_order,
}
use real_time_logistics_plat.Orders.Payment.{paid_order}
use real_time_logistics_plat.Orders.Cases.Delivery.{delivered_order}
use real_time_logistics_plat.Orders.Cases.Customer.{cancelled_order}

accepted_log :
    (b : Bool) (old : List OrderEvent) (e : OrderEvent)
    → (es : List OrderEvent) × ((if b then old else old ++ e ∷ []) ≡ old ++ es)
accepted_log true old e = ([], sym (append-nil old))
accepted_log false old e = (e ∷ [], refl)

module _ (tenant : String) (ctx : Context) (actor : User) (o : Order)
    (mine : o.organization_id ≡ tenant) where
  pub moved-Evolves :
      (status : OrderStatus)
      → status ≢ delivered
      → can_transition o.status status ≡ true
      → Evolves tenant o (moved ctx o status actor)
  unfolding moved
  moved-Evolves status other h = record {
    same_id = refl;
    same_tenant = refl;
    isolated = λ n. absurd (n mine);
    lifecycle = moves h;
    proven = λ e _. absurd (other e);
    settled = λ e. e;
    logged = (_, refl);
  }

  pub assigned_order-Evolves :
      (d : Driver) → o.status ≡ pending → Evolves tenant o (assigned_order ctx o d actor)
  unfolding assigned_order can_transition
  assigned_order-Evolves d p = record {
    same_id = refl;
    same_tenant = refl;
    isolated = λ n. absurd (n mine);
    lifecycle = moves (rw p);
    proven = λ e _. cc e;
    settled = λ e. e;
    logged = (_, refl);
  }

  pub rejected_order-Evolves :
      (reason : String) → o.status ≡ assigned → Evolves tenant o (rejected_order ctx actor reason o)
  unfolding rejected_order
  rejected_order-Evolves reason p = record {
    same_id = refl;
    same_tenant = refl;
    isolated = λ n. absurd (n mine);
    lifecycle = rw p returns;
    proven = λ e _. cc e;
    settled = λ e. e;
    logged = (_, refl);
  }

  pub delivered_order-Evolves :
      (d : Driver) (proof : DeliveryProof)
      → o.assigned_driver_id ≡ some d.id
      → proof.driver_id ≡ d.id
      → o.status ≡ in_transit
      → Evolves tenant o (delivered_order ctx actor o proof)
  unfolding moved can_transition
  delivered_order-Evolves d proof own by p = record {
    same_id = refl;
    same_tenant = refl;
    isolated = λ n. absurd (n mine);
    lifecycle = moves (rw p);
    proven = λ _ _. (proof, refl, ground arith, (ctx.now, refl));
    settled = λ e. e;
    logged = (_, refl);
  }

  pub cancelled_order-Evolves :
      can_transition o.status cancelled ≡ true → Evolves tenant o (cancelled_order ctx actor o)
  unfolding moved
  cancelled_order-Evolves h = record {
    same_id = refl;
    same_tenant = refl;
    isolated = λ n. absurd (n mine);
    lifecycle = moves h;
    proven = λ e _. cc e;
    settled = λ e. e;
    logged = (_, refl);
  }

  -- Edits that leave the status, the proof and the assignment alone.
  pub rescheduled_order-Evolves :
      (b : RescheduleInput) → Evolves tenant o (rescheduled_order ctx actor b o)
  unfolding rescheduled_order
  rescheduled_order-Evolves b = record {
    same_id = refl;
    same_tenant = refl;
    isolated = λ n. absurd (n mine);
    lifecycle = stays;
    proven = λ e k. k e;
    settled = λ e. e;
    logged = (_, refl);
  }

  pub returned_order-Evolves :
      (reason : String) → Evolves tenant o (returned_order ctx actor reason o)
  unfolding returned_order
  returned_order-Evolves reason = record {
    same_id = refl;
    same_tenant = refl;
    isolated = λ n. absurd (n mine);
    lifecycle = stays;
    proven = λ e k. k e;
    settled = λ e. e;
    logged = (_, refl);
  }

  pub reviewed_order-Evolves :
      (v : Verdict) (remark : Option String)
      → Evolves tenant o (reviewed_order ctx actor v remark o)
  unfolding reviewed_order
  reviewed_order-Evolves v remark = record {
    same_id = refl;
    same_tenant = refl;
    isolated = λ n. absurd (n mine);
    lifecycle = stays;
    proven = λ e k. k e;
    settled = λ e. e;
    logged = (_, refl);
  }

  pub paid_order-Evolves : (message : String) → Evolves tenant o (paid_order ctx actor message o)
  unfolding paid_order
  paid_order-Evolves message = record {
    same_id = refl;
    same_tenant = refl;
    isolated = λ n. absurd (n mine);
    lifecycle = stays;
    proven = λ e k. k e;
    settled = λ _. refl;
    logged = (_, refl);
  }

  -- A second acceptance adds no event.
  pub accepted_order-Evolves : (d : Driver) → Evolves tenant o (accepted_order ctx actor d o)
  unfolding accepted_order
  accepted_order-Evolves d = record {
    same_id = refl;
    same_tenant = refl;
    isolated = λ n. absurd (n mine);
    lifecycle = stays;
    proven = λ e k. k e;
    settled = λ e. e;
    logged = accepted_log (is_accepted o) o.events _;
  }
