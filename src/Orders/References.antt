-- ===== src/Orders/References.antt =====
-- Changes through a reference to an order or a driver: what they keep, and that writing a snapshot
-- back undoes them.
use real_time_logistics_plat.Common.{
  ℕ, String, Bool, true, Option, none, some, List, [], ◌∷◌, ◌≡◌, refl, ap, ◌∙◌, arith, find,
  modify_first, modify_first_undo, inl, inr, find_holds, modify_first_absent, Option-cases,
}
use real_time_logistics_plat.Model.{User, Order, Driver, OrderStatus}
use real_time_logistics_plat.Store.{
  World, Context, is_order, get_order, set_order, has_id, driver_of, freed, release,
}
use real_time_logistics_plat.Api.{finish, finish_quietly, settings_for}
use real_time_logistics_plat.Orders.Dispatch.{restore_driver, restore}

pub settings_for-orders :
    (tenant : String) (w : World)
    → ((settings_for tenant w).0.orders ≡ w.orders)
      × ((settings_for tenant w).0.drivers ≡ w.drivers)
      × ((settings_for tenant w).0.delivery_pins ≡ w.delivery_pins)
unfolding settings_for
settings_for-orders tenant w = ground arith

-- The end of a handler changes neither orders nor drivers.
pub finish-orders :
    (ctx : Context) (actor : User) (action : String) (code : ℕ) (o : Order) (template : String)
    (w : World)
    → ((finish ctx actor action code o template w).0.orders ≡ w.orders)
      × ((finish ctx actor action code o template w).0.drivers ≡ w.drivers)
unfolding finish
finish-orders ctx actor action code o template w = ground arith

pub finish_quietly-orders :
    (ctx : Context) (actor : User) (action : String) (o : Order) (w : World)
    → ((finish_quietly ctx actor action o w).0.orders ≡ w.orders)
      × ((finish_quietly ctx actor action o w).0.drivers ≡ w.drivers)
unfolding finish_quietly
finish_quietly-orders ctx actor action o w = ground arith

-- Putting the first match back where it stands changes nothing.
pub modify_first_same {ℓ} :
    {A : Type ℓ} (p : A → Bool) (xs : List A) (x : A)
    → find p xs ≡ some x
    → modify_first p (λ _. x) xs ≡ xs
unfolding find modify_first
modify_first_same p [] x e = refl
modify_first_same p (y ∷ ys) x e = ground (arith, modify_first_same p ys x)

-- A driver that `transition` freed, restored from its snapshot.
restore_freed :
    (id : String) (status : OrderStatus) (ds : List Driver) (d : Driver)
    → find (has_id id) ds ≡ some d
    → modify_first (has_id id) (λ _. d) (freed (some id) status ds) ≡ ds
unfolding freed
restore_freed id status ds d e = ground (
  arith,
  modify_first_undo (has_id id) release ds d e,
  modify_first_same (has_id id) ds d e,
  find_holds (has_id id) ds d e,
)

freed-absent :
    (id : String) (status : OrderStatus) (ds : List Driver)
    → find (has_id id) ds ≡ none
    → freed (some id) status ds ≡ ds
unfolding freed
freed-absent id status ds e = ground (arith, modify_first_absent (has_id id) release ds e)

-- So the restored drivers are the old ones, whatever the order names.
restore_driver_lem :
    (assigned : Option String) (status : OrderStatus) (os : List Order) (w : World)
    → restore_driver assigned
        (driver_of assigned w.drivers)
        (record w { orders = os; drivers = freed assigned status w.drivers })
      ≡ record w { orders = os }
unfolding restore_driver driver_of
restore_driver_lem none status os w = unfold freed in refl
restore_driver_lem (some id) status os w = elim (Option-cases (find (has_id id) w.drivers)) [
  | inl e ↦
      rw e (ap (λ ds. record w { orders = os; drivers = ds }) (freed-absent id status w.drivers e))
  | inr (d, e) ↦
      rw e
        (ap (λ ds. record w { orders = os; drivers = ds }) (restore_freed id status w.drivers d e))
]

-- `restore` undoes `set_order` and the freeing of the driver.
pub restore_lem :
    (id tenant : String) (o o' : Order) (status : OrderStatus) (w : World)
    → get_order id tenant w ≡ some o
    → is_order id tenant o' ≡ true
    → restore id tenant o (driver_of o.assigned_driver_id w.drivers) (
        set_order id tenant o' (record w { drivers = freed o.assigned_driver_id status w.drivers }))
      ≡ w
unfolding get_order restore
restore_lem id tenant o o' status w e h =
    restore_driver_lem o.assigned_driver_id status _ w
    ∙ ap (λ os. record w { orders = os })
        (modify_first_undo (is_order id tenant) (λ _. o') w.orders o e h)

restore_driver_same :
    (assigned : Option String) (w : World)
    → restore_driver assigned (driver_of assigned w.drivers) w ≡ w
unfolding restore_driver driver_of
restore_driver_same none w = refl
restore_driver_same (some id) w = elim (Option-cases (find (has_id id) w.drivers)) [
  | inl e ↦ rw e
  | inr (d, e) ↦
      rw e (ap (λ ds. record w { drivers = ds }) (modify_first_same (has_id id) w.drivers d e))
]

-- Before anything was changed, `restore` changes nothing.
pub restore_same :
    (id tenant : String) (o : Order) (w : World)
    → get_order id tenant w ≡ some o
    → restore id tenant o (driver_of o.assigned_driver_id w.drivers) w ≡ w
unfolding get_order restore
restore_same id tenant o w e =
    ap (restore_driver o.assigned_driver_id (driver_of o.assigned_driver_id w.drivers))
      (ap (λ os. record w { orders = os }) (modify_first_same (is_order id tenant) w.orders o e))
    ∙ restore_driver_same o.assigned_driver_id w

pub set_order_undo :
    (id tenant : String) (o o' : Order) (w : World)
    → get_order id tenant w ≡ some o
    → is_order id tenant o' ≡ true
    → set_order id tenant o (set_order id tenant o' w) ≡ w
unfolding get_order set_order
set_order_undo id tenant o o' w e h =
    ap (λ os. record w { orders = os })
      (modify_first_undo (is_order id tenant) (λ _. o') w.orders o e h)

pub get_order_holds :
    (id tenant : String) (o : Order) (w : World)
    → get_order id tenant w ≡ some o
    → is_order id tenant o ≡ true
unfolding get_order
get_order_holds id tenant o w e = find_holds (is_order id tenant) w.orders o e
