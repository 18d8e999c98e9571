-- ===== src/Store/Transition.antt =====
-- `store.transition` of apps/api/src/domain/store.ts by the two answers of the table.
use real_time_logistics_plat.Common.{String, true, false, List, ◌≡◌, ◌≢◌, arith}
use real_time_logistics_plat.Model.{User, Driver, Order, OrderStatus, pending, busy}
use real_time_logistics_plat.StateMachine.{returned, thrown, can_transition}
use real_time_logistics_plat.Store.{
  Context, transition, moved, freed, is_order, assigned_order, assign,
}

module _ (ctx : Context) (o : Order) (status : OrderStatus) (actor : User)
    (drivers : List Driver) where
  pub transition_allowed :
      can_transition o.status status ≡ true
      → transition ctx o status actor drivers
        ≡ returned (moved ctx o status actor, freed o.assigned_driver_id status drivers)
  unfolding transition
  transition_allowed h = rw (h, transition)

  pub transition_refused :
      can_transition o.status status ≡ false
      → transition ctx o status actor drivers ≡ thrown 409 "Cannot move order"
  unfolding transition
  transition_refused h = rw (h, transition)

pub is_order-moved :
    (id tenant : String) (ctx : Context) (o : Order) (status : OrderStatus) (actor : User)
    → is_order id tenant o ≡ true
    → is_order id tenant (moved ctx o status actor) ≡ true
unfolding moved
is_order-moved id tenant ctx o status actor h = h

-- `store.assign` by the two answers of its guard.
module _ (ctx : Context) (o : Order) (d : Driver) (actor : User) where
  pub assign_allowed :
      o.status ≡ pending
      → assign ctx o d actor ≡ returned (assigned_order ctx o d actor, record d { status = busy })
  unfolding assign
  assign_allowed h = rw (h, assign)

  pub assign_refused :
      o.status ≢ pending → assign ctx o d actor ≡ thrown 409 "Only pending orders can be assigned"
  unfolding assign
  assign_refused h = ground arith

pub is_order-assigned_order :
    (id tenant : String) (ctx : Context) (o : Order) (d : Driver) (actor : User)
    → is_order id tenant o ≡ true
    → is_order id tenant (assigned_order ctx o d actor) ≡ true
unfolding assigned_order
is_order-assigned_order id tenant ctx o d actor h = h
