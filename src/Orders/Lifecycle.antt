-- ===== src/Orders/Lifecycle.antt =====
-- What the order API promises of every order that it stores, apart from how its handlers are
-- written: a specification of one request's effect on the list of orders.
pub mod Edits
use real_time_logistics_plat.Common.{
  ℕ, String, Bool, true, false, Option, none, some, List, [], ◌∷◌, ◌++◌, ◌≡◌, refl, ◌≢◌, ◌⊎◌, inl,
  inr, arith, Pointwise, ◌==◌, ◌&&◌, eq_iff,
}
use mathlib.Core.List.{append-nil}
use real_time_logistics_plat.Common.{sym}
use real_time_logistics_plat.Model.{
  User, Order, OrderStatus, OrderEvent, PaymentStatus, DeliveryProof, pending, assigned, in_transit,
  delivered, cancelled, paid, unpaid, Driver,
}
use real_time_logistics_plat.StateMachine.{can_transition}
use real_time_logistics_plat.Store.{Context, is_order, moved, assigned_order, OrderInput, new_order}

-- The moves of an order's status: none, one of the table, or back to the pool of pending orders.
pub data Lifecycle : OrderStatus → OrderStatus → Type 0 where
  stays : {s : OrderStatus} → Lifecycle s s
  moves : {s t : OrderStatus} → can_transition s t ≡ true → Lifecycle s t
  returns : Lifecycle assigned pending

-- A delivered order has a proof, made by the driver that it is assigned to, and a time of delivery.
abbrev pub IsProven : Order → Type 0
IsProven o =
    (p : DeliveryProof) × (o.proof ≡ some p)
    × (o.assigned_driver_id ≡ some p.driver_id)
    × ((t : ℕ) × (o.delivered_at ≡ some t))

pub record Evolves (tenant : String) (o o' : Order) : Type 0 where
  pub same_id : o'.id ≡ o.id
  pub same_tenant : o'.organization_id ≡ o.organization_id
  pub isolated : o.organization_id ≢ tenant → o' ≡ o
  pub lifecycle : Lifecycle o.status o'.status
  pub proven : o'.status ≡ delivered → (o.status ≡ delivered → IsProven o) → IsProven o'
  pub settled : o.payment_status ≡ paid → o'.payment_status ≡ paid
  pub logged : (es : List OrderEvent) × (o'.events ≡ o.events ++ es)

pub Evolves-refl : (tenant : String) (o : Order) → Evolves tenant o o
Evolves-refl tenant o = record {
  same_id = refl;
  same_tenant = refl;
  isolated = λ _. refl;
  lifecycle = stays;
  proven = λ h k. k h;
  settled = λ h. h;
  logged = ([], sym (append-nil o.events));
}

pub record IsNew (tenant : String) (o : Order) : Type 0 where
  pub tenant_of : o.organization_id ≡ tenant
  pub is_pending : o.status ≡ pending
  pub is_unpaid : o.payment_status ≡ unpaid
  pub unassigned : o.assigned_driver_id ≡ none

-- One request by a user of the tenant changes the orders one by one, or puts a new one in front.
pub data Change (tenant : String) (os os' : List Order) : Type 0 where
  edited : Pointwise (Evolves tenant) os os' → Change tenant os os'
  created : (o : Order) → IsNew tenant o → os' ≡ o ∷ os → Change tenant os os'

pub is_order_tenant :
    (id tenant : String) (o : Order) → is_order id tenant o ≡ true → o.organization_id ≡ tenant
is_order_tenant id tenant o h = ground (arith, eq_iff o.organization_id tenant)
