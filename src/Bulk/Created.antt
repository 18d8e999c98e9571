-- ===== src/Bulk/Created.antt =====
-- The orders that an import creates, or takes out again.
use real_time_logistics_plat.Common.{
  ℕ, suc, ◌+◌, List, [], ◌∷◌, ◌++◌, ◌≡◌, refl, sym, ap, subst, ◌∙◌, arith, All, length, if-elim,
}
use real_time_logistics_plat.Model.{User, Order, pending}
use real_time_logistics_plat.Store.{
  World, Context, OrderInput, new_order, create_order, set_delivery_pin,
}
use real_time_logistics_plat.Api.{Response, accepted, refused}
use real_time_logistics_plat.Orders.References.{finish-orders}
use real_time_logistics_plat.Orders.Create.{tail, withdraw}
use real_time_logistics_plat.Bulk.Import.{
  ValidOrder, Creation, finished, broken, store_order, withdraw_all, after, create_all,
}

-- A new order of the user's organization.
abbrev pub IsNewOrder : User → Order → Type 0
IsNewOrder actor o = (o.organization_id ≡ actor.organization_id) × (o.status ≡ pending)

-- The created orders stand in front of the old ones, and the last one that was created is first.
pub record Adds (actor : User) (old : List Order) (n : ℕ) (w : World) : Type 0 where
  pub front : List Order
  pub stands : w.orders ≡ front ++ old
  pub counted : length front ≡ n
  pub fresh : All (IsNewOrder actor) front

-- What a response leaves of the orders.
store_order-orders :
    (ctx : Context) (actor : User) (v : ValidOrder) (w : World)
    → (store_order ctx actor v w).0.orders ≡ new_order ctx v.input actor ∷ w.orders
unfolding store_order create_order set_delivery_pin
store_order-orders ctx actor v w =
    let o = new_order ctx v.input actor in
    if-elim (λ (p : World × Response). p.0.orders ≡ o ∷ w.orders) ctx.persisted _ _
      (λ _.
        (finish-orders ctx actor "order.created" 201 o "order_created"
          (set_delivery_pin ctx o.id v.pin (create_order ctx v.input actor w))).0)
      (λ _. refl)

new_order-IsNewOrder :
    (ctx : Context) (input : OrderInput) (actor : User)
    → IsNewOrder actor (new_order ctx input actor)
unfolding new_order
new_order-IsNewOrder ctx input actor = (refl, refl)

store_order-Adds :
    (ctx : Context) (actor : User) (v : ValidOrder) (old : List Order) (n : ℕ) (w : World)
    → Adds actor old n w
    → Adds actor old (suc n) (store_order ctx actor v w).0
store_order-Adds ctx actor v old n w a = record {
  front = new_order ctx v.input actor ∷ a.front;
  stands = store_order-orders ctx actor v w ∙ ap (◌∷◌ (new_order ctx v.input actor)) a.stands;
  counted = omega (arith, a.counted);
  fresh = (new_order-IsNewOrder ctx v.input actor, a.fresh);
}

withdraw_all-orders :
    (created front old : List Order) (w : World)
    → length front ≡ length created
    → w.orders ≡ front ++ old
    → (withdraw_all created w).orders ≡ old
unfolding withdraw_all withdraw
withdraw_all-orders [] [] old w n e = e
withdraw_all-orders [] (o ∷ os) old w n e = absurd (omega arith)
withdraw_all-orders (c ∷ cs) [] old w n e = absurd (omega arith)
withdraw_all-orders (c ∷ cs) (o ∷ os) old w n e =
    withdraw_all-orders cs os old (withdraw w) (omega arith) (ap tail e)

-- All orders are created, or none is left.
abbrev pub AllOrNone : User → List Order → ℕ → Creation → Type 0
AllOrNone actor old n (finished w created) = Adds actor old n w × (length created ≡ n)
AllOrNone actor old n (broken w) = w.orders ≡ old

after-AllOrNone :
    (actor : User) (old : List Order) (n : ℕ) (created : List Order) (p : World × Response)
    (next : World → Creation)
    → Adds actor old (length created) p.0
    → ((w : World) → Adds actor old (length created) w → AllOrNone actor old n (next w))
    → AllOrNone actor old n (after created p next)
unfolding after
after-AllOrNone actor old n created (w, accepted code o) next a k = k w a
after-AllOrNone actor old n created (w, refused code message) next a k =
    withdraw_all-orders created a.front old w a.counted a.stands

length-snoc : (os : List Order) (o : Order) → length (os ++ o ∷ []) ≡ suc (length os)
length-snoc [] o = refl
length-snoc (x ∷ os) o = omega (arith, length-snoc os o)

pub create_all-AllOrNone :
    (requests : ℕ → Context) (actor : User) (old : List Order) (i : ℕ) (vs : List ValidOrder)
    (created : List Order) (w : World)
    → Adds actor old (length created) w
    → AllOrNone actor old (length created + length vs) (create_all requests actor i vs created w)
unfolding create_all
create_all-AllOrNone requests actor old i [] created w a =
    (subst (λ n. Adds actor old n w) (omega arith) a, omega arith)
create_all-AllOrNone requests actor old i (v ∷ vs) created w a =
    let o = new_order (requests i) v.input actor in
    let longer = length-snoc created o in
    let added =
      subst (λ n. Adds actor old n (store_order (requests i) actor v w).0) (sym longer)
        (store_order-Adds (requests i) actor v old (length created) w a) in
    let total : length (created ++ o ∷ []) + length vs ≡ length created + length (v ∷ vs) =
      omega (arith, longer) in
    after-AllOrNone actor old (length created + length (v ∷ vs)) (created ++ o ∷ [])
      (store_order (requests i) actor v w) _ added
      (λ w' a'.
        subst
          (λ n. AllOrNone actor old n (create_all requests actor (suc i) vs (created ++ o ∷ []) w'))
          total (create_all-AllOrNone requests actor old (suc i) vs (created ++ o ∷ []) w' a'))
