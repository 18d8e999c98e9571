-- ===== src/Orders/Refinement.antt =====
-- The handlers of apps/api/src/app.ts refine the specification of Orders/Lifecycle.antt.
use real_time_logistics_plat.Common.{not, ◌&&◌, String, Option, none, some, refl}
use real_time_logistics_plat.Model.{User, OrderStatus}
use real_time_logistics_plat.Geo.{JsNumber}
use real_time_logistics_plat.Store.{World, Context, set_order, OrderInput, new_order}
use real_time_logistics_plat.Api.{is_operator}
use real_time_logistics_plat.Orders.References.{finish-orders}
use real_time_logistics_plat.Orders.Payment.{Provider, VerifyInput, post_verify, post_demo_confirm}
use real_time_logistics_plat.Orders.Dispatch.{patch_status, post_assign, set_driver}
use real_time_logistics_plat.Orders.Delivery.{
  post_accept, post_reject, post_proof, ProofInput, proof_of, pin_verified, qr_verified,
}
use real_time_logistics_plat.Orders.Customer.{
  RescheduleInput, Verdict, patch_reschedule, post_cancel, post_return, patch_return,
}
use real_time_logistics_plat.Orders.Create.{ServiceArea, post_order}
use real_time_logistics_plat.Orders.Cases.{if_cases, permit_cases}
use real_time_logistics_plat.Orders.Calls.{
  Call, creates, sets_status, assigns, accepts, rejects, proves, reschedules, cancels, asks_return,
  reviews_return, verifies_payment, confirms_demo, handle,
}
use real_time_logistics_plat.Orders.Lifecycle.{Change, IsNew}
use real_time_logistics_plat.Orders.Lifecycle.Edits.{
  moved-Evolves, assigned_order-Evolves, accepted_order-Evolves, rejected_order-Evolves,
  delivered_order-Evolves, cancelled_order-Evolves, rescheduled_order-Evolves,
  returned_order-Evolves, reviewed_order-Evolves, paid_order-Evolves,
}
use real_time_logistics_plat.Orders.Cases.Dispatch.{patch_status_cases, post_assign_cases}
use real_time_logistics_plat.Orders.Cases.Delivery.{
  post_accept_cases, post_reject_cases, post_proof_cases,
}
use real_time_logistics_plat.Orders.Cases.Customer.{
  can_cancel_holds, patch_reschedule_cases, post_cancel_cases, post_return_cases,
  patch_return_cases, post_verify_cases, post_demo_confirm_cases,
}
use real_time_logistics_plat.Orders.Effects.{
  Effect, unchanged, stored, mine, finished, finished_quietly, withdrawn, if_orders,
}

module _ (ctx : Context) (actor : User) (id : String) (w : World) where
  abbrev here : String
  here = actor.organization_id

  patch_status-Change :
      (body : Option OrderStatus) → Effect here w (patch_status ctx actor id body w).0
  unfolding set_order
  patch_status-Change body =
      patch_status_cases (Effect here w) ctx actor id w (unchanged here w refl) body
        λ status o e other h _.
          finished ctx actor id _ _ _ o _ w _ e
            (moved-Evolves here ctx actor o (mine id here o w e) status other h) refl

  post_assign-Change :
      (num : JsNumber) (driver_id : Option String)
      → Effect here w (post_assign num ctx actor id driver_id w).0
  unfolding set_order set_driver
  post_assign-Change num driver_id =
      post_assign_cases (Effect here w) ctx actor id w (unchanged here w refl) num driver_id
        λ o d e _. (
          unchanged here w refl,
          unchanged here w refl,
          λ p _.
              finished ctx actor id _ _ _ o _ w _ e
                (assigned_order-Evolves here ctx actor o (mine id here o w e) d p) refl,
        )

  post_accept-Change : Effect here w (post_accept ctx actor id w).0
  unfolding set_order
  post_accept-Change =
      post_accept_cases (Effect here w) ctx actor id w (unchanged here w refl) λ o d e _ _.
        let v = accepted_order-Evolves here ctx actor o (mine id here o w e) d in
        (stored here id o _ w e v refl, finished_quietly ctx actor id _ o _ w _ e v refl)

  post_reject-Change : (body : Option String) → Effect here w (post_reject ctx actor id body w).0
  unfolding set_order set_driver
  post_reject-Change body =
      post_reject_cases (Effect here w) ctx actor id w (unchanged here w refl) body
        λ reason o d e _ _ s _.
          finished_quietly ctx actor id _ o _ w _ e
            (rejected_order-Evolves here ctx actor o (mine id here o w e) reason s) refl

  post_proof-Change : (body : Option ProofInput) → Effect here w (post_proof ctx actor id body w).0
  unfolding set_order proof_of
  post_proof-Change body =
      post_proof_cases (Effect here w) ctx actor id w (unchanged here w refl) body
        λ b o d e _ own s _. (
          unchanged here w refl,
          λ _.
              finished ctx actor id _ _ _ o _ w _ e
                (delivered_order-Evolves here ctx actor o (mine id here o w e) d
                  (proof_of ctx b (pin_verified ctx o b w) (qr_verified ctx o b) d) own refl s)
                refl,
        )

  patch_reschedule-Change :
      (body : Option RescheduleInput) → Effect here w (patch_reschedule ctx actor id body w).0
  unfolding set_order
  patch_reschedule-Change body =
      patch_reschedule_cases (Effect here w) ctx actor id w (unchanged here w refl) body
        λ b o e _ _ _.
          finished ctx actor id _ _ _ o _ w _ e
            (rescheduled_order-Evolves here ctx actor o (mine id here o w e) b) refl

  post_cancel-Change : Effect here w (post_cancel ctx actor id w).0
  unfolding set_order
  post_cancel-Change =
      post_cancel_cases (Effect here w) ctx actor id w (unchanged here w refl) λ o e s _.
        finished ctx actor id _ _ _ o _ w _ e
          (cancelled_order-Evolves here ctx actor o (mine id here o w e)
            (can_cancel_holds o.status s))
          refl

  post_return-Change : (body : Option String) → Effect here w (post_return ctx actor id body w).0
  unfolding set_order
  post_return-Change body =
      post_return_cases (Effect here w) ctx actor id w (unchanged here w refl) body
        λ reason o e _ _ _.
          finished ctx actor id _ _ _ o _ w _ e
            (returned_order-Evolves here ctx actor o (mine id here o w e) reason) refl

  patch_return-Change :
      (body : Option (Verdict × Option String)) → Effect here w (patch_return ctx actor id body w).0
  unfolding set_order
  patch_return-Change body =
      patch_return_cases (Effect here w) ctx actor id w (unchanged here w refl) body
        λ v remark o e _ _.
          finished ctx actor id _ _ _ o _ w _ e
            (reviewed_order-Evolves here ctx actor o (mine id here o w e) v remark) refl

  post_verify-Change :
      (env : Provider) (body : Option VerifyInput)
      → Effect here w (post_verify ctx env actor id body w).0
  unfolding set_order
  post_verify-Change env body =
      post_verify_cases (Effect here w) ctx actor id w (unchanged here w refl) env body
        λ b o e _ _ _.
          finished ctx actor id _ _ _ o _ w _ e
            (paid_order-Evolves here ctx actor o (mine id here o w e) _) refl

  post_demo_confirm-Change :
      (env : Provider) → Effect here w (post_demo_confirm ctx env actor id w).0
  unfolding set_order
  post_demo_confirm-Change env =
      post_demo_confirm_cases (Effect here w) ctx actor id w (unchanged here w refl) env
        λ o e _ _ _.
          finished ctx actor id _ _ _ o _ w _ e
            (paid_order-Evolves here ctx actor o (mine id here o w e) _) refl

new_order-IsNew :
    (ctx : Context) (input : OrderInput) (actor : User)
    → IsNew actor.organization_id (new_order ctx input actor)
unfolding new_order
new_order-IsNew ctx input actor = record {
  tenant_of = refl;
  is_pending = refl;
  is_unpaid = refl;
  unassigned = refl;
}

post_order-Change :
    (ctx : Context) (actor : User) (body : Option (OrderInput × String)) (area : ServiceArea)
    (w : World)
    → Effect actor.organization_id w (post_order ctx actor body area w).0
unfolding post_order
post_order-Change ctx actor none area w =
    permit_cases (Effect actor.organization_id w) (is_operator actor.role) w _
      (unchanged actor.organization_id w refl) (unchanged actor.organization_id w refl)
post_order-Change ctx actor (some (input, value)) area w =
    let kept = unchanged actor.organization_id w refl in
    permit_cases (Effect actor.organization_id w) (is_operator actor.role) w _ kept (
      if_cases (Effect actor.organization_id w) (area.enforced && not area.in_service_area) _ _
        (λ _. kept)
        (λ _.
          withdrawn actor.organization_id (new_order ctx input actor) w _
            (new_order-IsNew ctx input actor)
            (if_orders ctx.persisted _ _
              (finish-orders ctx actor "order.created" 201 (new_order ctx input actor)
                "order_created" _).0
              refl)))

-- Every request, whatever its context, evolves each order of the user's tenant by the
-- specification, or puts a new pending order of that tenant in front, and changes no other order.
pub handle-Change :
    (num : JsNumber) (env : Provider) (ctx : Context) (actor : User) (c : Call) (w : World)
    → Change actor.organization_id w.orders (handle num env ctx actor c w).0.orders
unfolding handle
handle-Change num env ctx actor (creates body area) w = post_order-Change ctx actor body area w
handle-Change num env ctx actor (sets_status id body) w = patch_status-Change ctx actor id w body
handle-Change num env ctx actor (assigns id driver_id) w =
    post_assign-Change ctx actor id w num driver_id
handle-Change num env ctx actor (accepts id) w = post_accept-Change ctx actor id w
handle-Change num env ctx actor (rejects id body) w = post_reject-Change ctx actor id w body
handle-Change num env ctx actor (proves id body) w = post_proof-Change ctx actor id w body
handle-Change num env ctx actor (reschedules id body) w =
    patch_reschedule-Change ctx actor id w body
handle-Change num env ctx actor (cancels id) w = post_cancel-Change ctx actor id w
handle-Change num env ctx actor (asks_return id body) w = post_return-Change ctx actor id w body
handle-Change num env ctx actor (reviews_return id body) w = patch_return-Change ctx actor id w body
handle-Change num env ctx actor (verifies_payment id body) w =
    post_verify-Change ctx actor id w env body
handle-Change num env ctx actor (confirms_demo id) w = post_demo_confirm-Change ctx actor id w env
