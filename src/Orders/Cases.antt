-- ===== src/Orders/Cases.antt =====
-- What a predicate on states has to be shown of, for it to hold after a handler: the state that a
-- refusal leaves, and the state that a success leaves. The predicate is on the state alone.
pub mod Dispatch
pub mod Delivery
pub mod Customer
use real_time_logistics_plat.Common.{
  ℕ, String, Bool, true, false, Option, none, some, ◌≡◌, refl, sym, inl, inr, Bool-cases,
  Option-cases, if◌then◌else◌, subst, same_text?, same_text?_iff,
}
use real_time_logistics_plat.Model.{User, Order, Driver, OrderStatus}
use real_time_logistics_plat.Store.{World, Context, is_order, get_order, set_order, profile_of}
use real_time_logistics_plat.Api.{Response, refused, permit, can_access_order, finish, with_order}
use real_time_logistics_plat.Orders.References.{set_order_undo}
use real_time_logistics_plat.Orders.Customer.{with_own_order, save_order}
use real_time_logistics_plat.Orders.Delivery.{with_assignment, with_profile}
use real_time_logistics_plat.Orders.Payment.{with_payable}

module _ (P : World → Type 0) where
  pub if_cases :
      (b : Bool) (x y : World × Response)
      → (b ≡ true → P x.0)
      → (b ≡ false → P y.0)
      → P (if b then x else y).0
  if_cases true x y h k = h refl
  if_cases false x y h k = k refl

  pub permit_cases :
      (b : Bool) (w : World) (handled : World × Response)
      → P w
      → P handled.0
      → P (permit b w handled).0
  unfolding permit
  permit_cases true w handled h k = k
  permit_cases false w handled h k = h

  pub with_order_cases :
      (actor : User) (id : String) (w : World) (k : Order → World × Response)
      → P w
      → ((o : Order) → get_order id actor.organization_id w ≡ some o → P (k o).0)
      → P (with_order actor id w k).0
  unfolding with_order
  with_order_cases actor id w k h each =
      elim (Option-cases (get_order id actor.organization_id w)) [
        | inl e ↦ rw (e, with_order) h
        | inr (o, e) ↦ rw (e, with_order) (each o e)
      ]

  pub with_own_order_cases :
      (ctx : Context) (actor : User) (id : String) (w : World) (k : Order → World × Response)
      → P w
      → ((o : Order) → get_order id actor.organization_id w ≡ some o → P (k o).0)
      → P (with_own_order ctx actor id w k).0
  unfolding with_own_order
  with_own_order_cases ctx actor id w k h each =
      elim (Option-cases (get_order id actor.organization_id w)) [
        | inl e ↦ rw (e, with_own_order) h
        | inr (o, e) ↦
            rw (e, with_own_order)
              (if_cases (can_access_order ctx actor o) (k o) (w, refused 404 "Delivery not found")
                (λ _. each o e) (λ _. h))
      ]

  pub with_payable_cases :
      (ctx : Context) (actor : User) (id : String) (w : World) (k : Order → World × Response)
      → P w
      → ((o : Order) → get_order id actor.organization_id w ≡ some o → P (k o).0)
      → P (with_payable ctx actor id w k).0
  unfolding with_payable
  with_payable_cases ctx actor id w k h each =
      elim (Option-cases (get_order id actor.organization_id w)) [
        | inl e ↦ rw (e, with_payable) h
        | inr (o, e) ↦
            rw (e, with_payable)
              (if_cases (can_access_order ctx actor o) (k o) (w, refused 403 "Not your order")
                (λ _. each o e) (λ _. h))
      ]

  with_profile_cases :
      (actor : User) (w : World) (o : Order) (k : Driver → World × Response)
      → P w
      → ((d : Driver) → profile_of actor w ≡ some d → o.assigned_driver_id ≡ some d.id → P (k d).0)
      → P (with_profile actor w o k).0
  unfolding with_profile
  with_profile_cases actor w o k h each = elim (Option-cases (profile_of actor w)) [
    | inl e ↦ rw (e, with_profile) h
    | inr (d, e) ↦
        rw (e, with_profile)
          (if_cases (same_text? o.assigned_driver_id (some d.id)) (k d)
            (w, refused 404 "Assignment not found")
            (λ s. each d e ((same_text?_iff o.assigned_driver_id (some d.id)).0 s)) (λ _. h))
  ]

  pub with_assignment_cases :
      (actor : User) (id : String) (w : World) (k : Order → Driver → World × Response)
      → P w
      → ((o : Order) (d : Driver)
          → get_order id actor.organization_id w ≡ some o
          → profile_of actor w ≡ some d
          → o.assigned_driver_id ≡ some d.id
          → P (k o d).0)
      → P (with_assignment actor id w k).0
  unfolding with_assignment
  with_assignment_cases actor id w k h each =
      elim (Option-cases (get_order id actor.organization_id w)) [
        | inl e ↦ rw (e, with_assignment) h
        | inr (o, e) ↦
            rw (e, with_assignment) (with_profile_cases actor w o (k o) h (λ d. each o d e))
      ]

  -- A handler that stores a changed order leaves the old state or ends with the change in place.
  pub save_order_cases :
      (ctx : Context) (actor : User) (id action : String) (o o' : Order) (template : String)
      (w : World)
      → get_order id actor.organization_id w ≡ some o
      → is_order id actor.organization_id o' ≡ true
      → P w
      → (ctx.persisted ≡ true
          → P (finish ctx actor action 200 o' template (set_order id actor.organization_id o' w)).0)
      → P (save_order ctx actor id action o o' template w).0
  unfolding save_order
  save_order_cases ctx actor id action o o' template w e same h k =
      if_cases ctx.persisted _ _ k
        (λ _. subst P (sym (set_order_undo id actor.organization_id o o' w e same)) h)
