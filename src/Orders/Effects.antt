-- ===== src/Orders/Effects.antt =====
-- The changes of the list of orders that the ends of the handlers of apps/api/src/app.ts make.
use real_time_logistics_plat.Common.{
  ℕ, ◌∙◌, if◌then◌else◌, String, Bool, true, false, some, List, ◌∷◌, ◌≡◌, sym, subst, arith, find,
  Pointwise, Pointwise-refl, modify_first-Pointwise, ap,
}
use real_time_logistics_plat.Model.{User, Order}
use real_time_logistics_plat.Store.{World, Context, is_order, get_order, set_order}
use real_time_logistics_plat.Api.{finish, finish_quietly, Response, accepted, refused}
use real_time_logistics_plat.Orders.References.{
  finish-orders, finish_quietly-orders, get_order_holds,
}
use real_time_logistics_plat.Orders.Create.{or_withdraw, tail}
use real_time_logistics_plat.Orders.Lifecycle.{
  Change, edited, created, Evolves, Evolves-refl, is_order_tenant, IsNew,
}

abbrev pub Effect : String → World → World → Type 0
Effect tenant w w' = Change tenant w.orders w'.orders

pub unchanged :
    (tenant : String) (w : World) {os : List Order} → os ≡ w.orders → Change tenant w.orders os
unchanged tenant w e = edited (
    subst (λ xs. Pointwise (Evolves tenant) w.orders xs) (sym e)
      (Pointwise-refl (Evolves tenant) (Evolves-refl tenant) w.orders))

-- Storing an evolved order is a change, whatever else the new state holds.
pub stored :
    (tenant id : String) (o o' : Order) (w : World) {os : List Order}
    → get_order id tenant w ≡ some o
    → Evolves tenant o o'
    → os ≡ (set_order id tenant o' w).orders
    → Change tenant w.orders os
unfolding get_order set_order
stored tenant id o o' w e v same = edited (
    subst (λ xs. Pointwise (Evolves tenant) w.orders xs) (sym same)
      (modify_first-Pointwise (Evolves tenant) (Evolves-refl tenant) (is_order id tenant) (λ _. o')
        w.orders (λ x m. subst (λ y. Evolves tenant y o') (same_found x m) v)))
  where
    same_found : (x : Order) → find (is_order id tenant) w.orders ≡ some x → o ≡ x
    same_found x m = ground arith

pub mine :
    (id tenant : String) (o : Order) (w : World)
    → get_order id tenant w ≡ some o
    → o.organization_id ≡ tenant
mine id tenant o w e = is_order_tenant id tenant o (get_order_holds id tenant o w e)

-- The same at the end of a handler.
pub finished :
    (ctx : Context) (actor : User) (id action template : String) (code : ℕ) (o o' : Order)
    (w w1 : World)
    → get_order id actor.organization_id w ≡ some o
    → Evolves actor.organization_id o o'
    → w1.orders ≡ (set_order id actor.organization_id o' w).orders
    → Effect actor.organization_id w (finish ctx actor action code o' template w1).0
finished ctx actor id action template code o o' w w1 e v same =
    stored actor.organization_id id o o' w e v
      ((finish-orders ctx actor action code o' template w1).0 ∙ same)

pub finished_quietly :
    (ctx : Context) (actor : User) (id action : String) (o o' : Order) (w w1 : World)
    → get_order id actor.organization_id w ≡ some o
    → Evolves actor.organization_id o o'
    → w1.orders ≡ (set_order id actor.organization_id o' w).orders
    → Effect actor.organization_id w (finish_quietly ctx actor action o' w1).0
finished_quietly ctx actor id action o o' w w1 e v same =
    stored actor.organization_id id o o' w e v
      ((finish_quietly-orders ctx actor action o' w1).0 ∙ same)

-- A new order stays in front where nothing failed, and is taken out again where something did.
pub withdrawn :
    (tenant : String) (o : Order) (w : World) (r : World × Response)
    → IsNew tenant o
    → r.0.orders ≡ o ∷ w.orders
    → Effect tenant w (or_withdraw r).0
unfolding or_withdraw
withdrawn tenant o w (w', accepted code x) new e = created o new e
withdrawn tenant o w (w', refused code message) new e = unchanged tenant w (ap tail e)

pub if_orders :
    (b : Bool) (x y : World × Response) {os : List Order}
    → x.0.orders ≡ os
    → y.0.orders ≡ os
    → (if b then x else y).0.orders ≡ os
if_orders true x y p q = p
if_orders false x y p q = q
