-- ===== src/Orders/Cases/Delivery.antt =====
-- The states that the handlers of a driver's assignment can leave.
use real_time_logistics_plat.Common.{
  String, true, ◌||◌, Option, none, some, ◌≡◌, sym, subst, arith, modify_first, modify_first_undo,
  find_holds,
}
use real_time_logistics_plat.Model.{
  User, Order, Driver, OrderStatus, assigned, in_transit, delivered, available, is_driver,
  DeliveryProof,
}
use real_time_logistics_plat.StateMachine.{can_transition}
use real_time_logistics_plat.Store.{
  World, Context, is_order, get_order, set_order, profile_of, owns_profile, moved, freed,
}
use real_time_logistics_plat.Store.Transition.{transition_allowed, is_order-moved}
use real_time_logistics_plat.Api.{finish, finish_quietly}
use real_time_logistics_plat.Orders.References.{get_order_holds}
use real_time_logistics_plat.Orders.Cases.{if_cases, permit_cases, with_assignment_cases}
use real_time_logistics_plat.Orders.Dispatch.{set_driver}
use real_time_logistics_plat.Orders.Delivery.{
  post_accept, post_reject, post_proof, accepted_order, rejected_order, ProofInput, is_complete,
  pin_verified, qr_verified, proof_of, deliver, is_assigned_status, is_in_transit, restore_both,
}

abbrev pub accepted_world : Context → User → String → Order → Driver → World → World
accepted_world ctx actor id o d w =
    set_order id actor.organization_id (accepted_order ctx actor d o) w

abbrev pub rejected_world : Context → User → String → String → Order → Driver → World → World
rejected_world ctx actor reason id o d w =
    set_driver (owns_profile actor.id) (record d { status = available })
      (set_order id actor.organization_id (rejected_order ctx actor reason o) w)

abbrev pub proven : Order → DeliveryProof → Order
proven o proof = record o { proof = some proof }

-- The order after the proof is stored and the status is `delivered`.
abbrev pub delivered_order : Context → User → Order → DeliveryProof → Order
delivered_order ctx actor o proof = moved ctx (proven o proof) delivered actor

abbrev pub delivered_world : Context → User → String → Order → DeliveryProof → World → World
delivered_world ctx actor id o proof w =
    set_order id actor.organization_id (delivered_order ctx actor o proof)
      (record w { drivers = freed o.assigned_driver_id delivered w.drivers })

is_assigned_holds : (s : OrderStatus) → is_assigned_status s ≡ true → s ≡ assigned
is_assigned_holds s h = ground arith

is_in_transit_holds : (s : OrderStatus) → is_in_transit s ≡ true → s ≡ in_transit
is_in_transit_holds s h = ground arith

module _ (actor : User) (id : String) (o : Order) (d : Driver) (w : World)
    (e : get_order id actor.organization_id w ≡ some o) where
  reject_undone :
      (ctx : Context) (reason : String)
      → profile_of actor w ≡ some d
      → restore_both actor id o d (rejected_world ctx actor reason id o d w) ≡ w
  unfolding restore_both set_driver set_order get_order profile_of rejected_order
  reject_undone ctx reason f = λ i. record w {
    orders =
        modify_first_undo (is_order id actor.organization_id)
          (λ _. rejected_order ctx actor reason o) w.orders o e
          (get_order_holds id actor.organization_id o w e) i;
    drivers =
        modify_first_undo (owns_profile actor.id) (λ _. record d { status = available }) w.drivers d
          f (find_holds (owns_profile actor.id) w.drivers d f) i;
  }

  deliver_undone :
      (ctx : Context) (proof : DeliveryProof)
      → restore_both actor id o d (delivered_world ctx actor id o proof w) ≡ record w {
        drivers =
            modify_first
              (owns_profile actor.id)
              (λ _. d)
              (freed o.assigned_driver_id delivered w.drivers);
      }
  unfolding restore_both set_driver set_order get_order
  deliver_undone ctx proof = λ i. record w {
    orders =
        modify_first_undo (is_order id actor.organization_id)
          (λ _. delivered_order ctx actor o proof) w.orders o e
          (is_order-moved id actor.organization_id ctx (proven o proof) delivered actor
            (get_order_holds id actor.organization_id o w e))
          i;
    drivers =
        modify_first (owns_profile actor.id) (λ _. d)
          (freed o.assigned_driver_id delivered w.drivers);
  }

delivers : (s : OrderStatus) → s ≡ in_transit → can_transition s delivered ≡ true
unfolding can_transition
delivers s h = rw h

module _ (P : World → Type 0) (ctx : Context) (actor : User) (id : String) (w : World)
    (kept : P w) where
  pub post_accept_cases :
      ((o : Order) (d : Driver)
        → get_order id actor.organization_id w ≡ some o
        → o.assigned_driver_id ≡ some d.id
        → o.status ≡ assigned
        → P (accepted_world ctx actor id o d w)
          × P
              (finish_quietly ctx actor "order.accepted"
                (accepted_order ctx actor d o)
                (accepted_world ctx actor id o d w)).0)
      → P (post_accept ctx actor id w).0
  unfolding post_accept
  post_accept_cases each = permit_cases P (is_driver actor.role) w _ kept (
      with_assignment_cases P actor id w _ kept (λ o d e _ mine.
        if_cases P (is_assigned_status o.status) _ _
          (λ s.
            if_cases P ctx.persisted _ _ (λ _. (each o d e mine (is_assigned_holds o.status s)).1)
              (λ _. (each o d e mine (is_assigned_holds o.status s)).0))
          (λ _. kept)))

  pub post_reject_cases :
      (body : Option String)
      → ((reason : String) (o : Order) (d : Driver)
          → get_order id actor.organization_id w ≡ some o
          → profile_of actor w ≡ some d
          → o.assigned_driver_id ≡ some d.id
          → o.status ≡ assigned
          → ctx.persisted ≡ true
          → P
              (finish_quietly ctx actor "order.rejected"
                (rejected_order ctx actor reason o)
                (rejected_world ctx actor reason id o d w)).0)
      → P (post_reject ctx actor id body w).0
  unfolding post_reject
  post_reject_cases none each = permit_cases P (is_driver actor.role) w _ kept kept
  post_reject_cases (some reason) each = permit_cases P (is_driver actor.role) w _ kept (
      with_assignment_cases P actor id w _ kept (λ o d e f mine.
        if_cases P (is_assigned_status o.status) _ _
          (λ s.
            if_cases P ctx.persisted _ _ (each reason o d e f mine (is_assigned_holds o.status s))
              (λ _. subst P (sym (reject_undone actor id o d w e ctx reason f)) kept))
          (λ _. kept)))

  deliver_cases :
      (o : Order) (d : Driver) (proof : DeliveryProof)
      → get_order id actor.organization_id w ≡ some o
      → o.status ≡ in_transit
      → P (record w {
        drivers =
            modify_first
              (owns_profile actor.id)
              (λ _. d)
              (freed o.assigned_driver_id delivered w.drivers);
      })
      → (ctx.persisted ≡ true
          → P
              (finish ctx actor "delivery.proof_recorded" 200
                (delivered_order ctx actor o proof)
                "order_delivered"
                (delivered_world ctx actor id o proof w)).0)
      → P (deliver ctx actor id o d proof w).0
  unfolding deliver
  deliver_cases o d proof e s undone k =
      rw
        (
          transition_allowed ctx (proven o proof) delivered actor w.drivers (delivers o.status s),
          deliver,
        )
        (if_cases P ctx.persisted _ _ k
          (λ _. subst P (sym (deliver_undone actor id o d w e ctx proof)) undone))

  pub post_proof_cases :
      (body : Option ProofInput)
      → ((b : ProofInput) (o : Order) (d : Driver)
          → get_order id actor.organization_id w ≡ some o
          → profile_of actor w ≡ some d
          → o.assigned_driver_id ≡ some d.id
          → o.status ≡ in_transit
          → (pin_verified ctx o b w || qr_verified ctx o b) ≡ true
          → P (record w {
            drivers =
                modify_first
                  (owns_profile actor.id)
                  (λ _. d)
                  (freed o.assigned_driver_id delivered w.drivers);
          })
            × (ctx.persisted ≡ true
                → let proof = proof_of ctx b (pin_verified ctx o b w) (qr_verified ctx o b) d in
                  P
                    (finish ctx actor "delivery.proof_recorded" 200
                      (delivered_order ctx actor o proof)
                      "order_delivered"
                      (delivered_world ctx actor id o proof w)).0))
      → P (post_proof ctx actor id body w).0
  unfolding post_proof
  post_proof_cases none each = permit_cases P (is_driver actor.role) w _ kept kept
  post_proof_cases (some b) each = permit_cases P (is_driver actor.role) w _ kept (
      if_cases P (is_complete b) _ _
        (λ _. with_assignment_cases P actor id w _ kept (λ o d e f mine.
          if_cases P (is_in_transit o.status) _ _
            (λ s.
              if_cases P (pin_verified ctx o b w || qr_verified ctx o b) _ _
                (λ v.
                  deliver_cases o d
                    (proof_of ctx b (pin_verified ctx o b w) (qr_verified ctx o b) d) e
                    (is_in_transit_holds o.status s)
                    (each b o d e f mine (is_in_transit_holds o.status s) v).0
                    (each b o d e f mine (is_in_transit_holds o.status s) v).1)
                (λ _. kept))
            (λ _. kept)))
        (λ _. kept))
