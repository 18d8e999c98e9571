-- ===== src/Orders/Cases/Dispatch.antt =====
-- The states that the status and assignment handlers can leave.
use real_time_logistics_plat.Common.{
  String, concat, true, false, Option, none, some, ◌≡◌, refl, sym, ap, inl, inr, Bool-cases, subst,
  ◌≢◌, ◌⊎◌, arith, modify_first, modify_first_undo,
}
use real_time_logistics_plat.Model.{
  User, Order, Driver, OrderStatus, delivered, pending, busy, status_text,
}
use real_time_logistics_plat.Geo.{JsNumber}
use real_time_logistics_plat.StateMachine.{can_transition}
use real_time_logistics_plat.Store.{
  World, Context, is_order, get_order, set_order, has_id, moved, freed, assigned_order,
}
use real_time_logistics_plat.Store.Transition.{
  transition_allowed, transition_refused, is_order-moved, is_order-assigned_order, assign_allowed,
  assign_refused,
}
use real_time_logistics_plat.Api.{Response, finish, is_staff, is_operator}
use real_time_logistics_plat.Orders.References.{
  restore_lem, restore_same, get_order_holds, modify_first_same,
}
use real_time_logistics_plat.Orders.Cases.{if_cases, permit_cases, with_order_cases}
use real_time_logistics_plat.Orders.Dispatch.{
  is_delivered, move_order, patch_status, set_driver, assign_to, post_assign, choose, with_choice,
}

-- The state after a move that was persisted.
abbrev pub moved_world : Context → User → String → Order → OrderStatus → World → World
moved_world ctx actor id o status w =
    (finish ctx actor "order.status_updated" 200 (moved ctx o status actor)
      (concat "order_" (status_text status))
      (set_order id actor.organization_id (moved ctx o status actor)
        (record w { drivers = freed o.assigned_driver_id status w.drivers }))).0

ne_delivered : (status : OrderStatus) → is_delivered status ≡ false → status ≢ delivered
ne_delivered status h = ground arith

module _ (P : World → Type 0) (ctx : Context) (actor : User) (id : String) (w : World)
    (kept : P w) where
  move_order_cases :
      (status : OrderStatus) (o : Order)
      → get_order id actor.organization_id w ≡ some o
      → (can_transition o.status status ≡ true
          → ctx.persisted ≡ true
          → P (moved_world ctx actor id o status w))
      → P (move_order ctx actor id status o w).0
  unfolding move_order
  move_order_cases status o e k = elim (Bool-cases (can_transition o.status status)) [
    | inl h ↦
        rw (transition_allowed ctx o status actor w.drivers h, move_order)
          (if_cases P ctx.persisted _ _ (k h) (λ _.
            subst P
              (sym (
                restore_lem id actor.organization_id o (moved ctx o status actor) status w e (
                  is_order-moved id actor.organization_id ctx o status actor
                    (get_order_holds id actor.organization_id o w e))))
              kept))
    | inr h ↦
        rw (transition_refused ctx o status actor w.drivers h, move_order)
          (subst P (sym (restore_same id actor.organization_id o w e)) kept)
  ]

  pub patch_status_cases :
      (body : Option OrderStatus)
      → ((status : OrderStatus) (o : Order)
          → get_order id actor.organization_id w ≡ some o
          → status ≢ delivered
          → can_transition o.status status ≡ true
          → ctx.persisted ≡ true
          → P (moved_world ctx actor id o status w))
      → P (patch_status ctx actor id body w).0
  unfolding patch_status
  patch_status_cases none each = permit_cases P (is_staff actor.role) w _ kept kept
  patch_status_cases (some status) each = permit_cases P (is_staff actor.role) w _ kept (
      if_cases P (is_delivered status) _ _ (λ _. kept)
        (λ other. with_order_cases P actor id w _ kept (λ o e.
          if_cases P _ _ _ (λ _. kept)
            (λ _. move_order_cases status o e (each status o e (ne_delivered status other))))))

-- The state after an assignment that was persisted.
abbrev pub assigned_world : Context → User → String → Order → Driver → World → World
assigned_world ctx actor id o d w =
    (finish ctx actor "order.assigned" 200 (assigned_order ctx o d actor) "driver_assigned" (
      set_driver (has_id d.id) (record d { status = busy })
        (set_order id actor.organization_id (assigned_order ctx o d actor) w))).0

-- The state after one that was not: the driver is written twice through its identifier.
abbrev pub unassigned_world : Driver → World → World
unassigned_world d w = record w {
  drivers =
      modify_first (has_id d.id) (λ _. d)
        (modify_first (has_id d.id) (λ _. record d { status = busy }) w.drivers);
}

module _ (actor : User) (id : String) (o : Order) (d : Driver) (w : World)
    (e : get_order id actor.organization_id w ≡ some o) where
  still :
      set_driver (has_id d.id) d (set_order id actor.organization_id o w)
      ≡ set_driver (has_id d.id) d w
  unfolding set_driver set_order get_order
  still =
      ap (λ os. record w { orders = os; drivers = modify_first (has_id d.id) (λ _. d) w.drivers })
        (modify_first_same (is_order id actor.organization_id) w.orders o e)

  back :
      (ctx : Context)
      → set_driver (has_id d.id) d (
          set_order id actor.organization_id o (
            set_driver
              (has_id d.id)
              (record d { status = busy })
              (set_order id actor.organization_id (assigned_order ctx o d actor) w)))
        ≡ unassigned_world d w
  unfolding set_driver set_order get_order
  back ctx =
      ap (λ os. record (unassigned_world d w) { orders = os })
        (modify_first_undo (is_order id actor.organization_id) (λ _. assigned_order ctx o d actor)
          w.orders o e
          (is_order-assigned_order id actor.organization_id ctx o d actor
            (get_order_holds id actor.organization_id o w e)))

pending_cases : (s : OrderStatus) → (s ≡ pending) ⊎ (s ≢ pending)
pending_cases pending = inl refl
pending_cases _ = inr (λ e. cc)

with_choice_cases :
    (P : World → Type 0) (c : Option Driver) (w : World) (k : Driver → World × Response)
    → P w
    → ((d : Driver) → c ≡ some d → P (k d).0)
    → P (with_choice c w k).0
unfolding with_choice
with_choice_cases P none w k h each = h
with_choice_cases P (some d) w k h each = each d refl

module _ (P : World → Type 0) (ctx : Context) (actor : User) (id : String) (w : World)
    (kept : P w) where
  assign_to_cases :
      (o : Order) (d : Driver)
      → get_order id actor.organization_id w ≡ some o
      → P (set_driver (has_id d.id) d w)
      → P (unassigned_world d w)
      → (o.status ≡ pending → ctx.persisted ≡ true → P (assigned_world ctx actor id o d w))
      → P (assign_to ctx actor id o d w).0
  unfolding assign_to
  assign_to_cases o d e same undone k = elim (pending_cases o.status) [
    | inl h ↦
        rw (assign_allowed ctx o d actor h, assign_to)
          (if_cases P ctx.persisted _ _ (k h)
            (λ _. subst P (sym (back actor id o d w e ctx)) undone))
    | inr h ↦
        rw (assign_refused ctx o d actor h, assign_to) (subst P (sym (still actor id o d w e)) same)
  ]

  pub post_assign_cases :
      (num : JsNumber) (driver_id : Option String)
      → ((o : Order) (d : Driver)
          → get_order id actor.organization_id w ≡ some o
          → choose num actor.organization_id driver_id o w ≡ some d
          → P (set_driver (has_id d.id) d w)
            × P (unassigned_world d w)
            × (o.status ≡ pending → ctx.persisted ≡ true → P (assigned_world ctx actor id o d w)))
      → P (post_assign num ctx actor id driver_id w).0
  unfolding post_assign
  post_assign_cases num driver_id each = permit_cases P (is_operator actor.role) w _ kept (
      with_order_cases P actor id w _ kept (λ o e.
        with_choice_cases P (choose num actor.organization_id driver_id o w) w
          (λ d. assign_to ctx actor id o d w) kept
          (λ d c. assign_to_cases o d e (each o d e c).0 (each o d e c).1 (each o d e c).2)))
