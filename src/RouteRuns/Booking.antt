-- ===== src/RouteRuns/Booking.antt =====
-- What publishing a route run does to the orders: POST /api/route-runs/:id/publish,
-- apps/api/src/app.ts.
use real_time_logistics_plat.Common.{
  ℕ, suc, String, Bool, true, false, ◌&&◌, Option, none, some, List, [], ◌∷◌, ◌≡◌, ◌≢◌, refl, sym,
  ap, ◌∙◌, ◌⊎◌, inl, inr, arith, subst, ◌==◌, All, Pointwise, Pointwise-refl,
  modify_first-Pointwise, find, find-modify_first, find_holds, if◌then◌else◌, Bool-cases,
  Option-cases,
}
use real_time_logistics_plat.Model.{User, Driver, Order, OrderStatus, pending, assigned, busy}
use real_time_logistics_plat.StateMachine.{Outcome, returned, thrown}
use real_time_logistics_plat.Store.{
  at_step, World, Context, is_order, get_order, set_order, is_pending, assigned_order,
}
use real_time_logistics_plat.Store.Transition.{is_order-assigned_order}
use real_time_logistics_plat.Orders.Dispatch.{set_driver}
use real_time_logistics_plat.Orders.References.{get_order_holds}
use real_time_logistics_plat.RouteRuns.Publish.{book, book_all}

-- The order is as it was, or was pending and is now assigned to the driver.
pub record Booked (driver_id : String) (o o' : Order) : Type 0 where
  pub same_id : o'.id ≡ o.id
  pub same_tenant : o'.organization_id ≡ o.organization_id
  pub booked :
      (o' ≡ o)
      ⊎ ((o.status ≡ pending) × (o'.status ≡ assigned) × (o'.assigned_driver_id ≡ some driver_id))

Booked-refl : (driver_id : String) (o : Order) → Booked driver_id o o
Booked-refl driver_id o = record { same_id = refl; same_tenant = refl; booked = inl refl }

Booked-trans :
    (driver_id : String) (a b c : Order)
    → Booked driver_id a b
    → Booked driver_id b c
    → Booked driver_id a c
Booked-trans driver_id a b c p q = record {
  same_id = q.same_id ∙ p.same_id;
  same_tenant = q.same_tenant ∙ p.same_tenant;
  booked = either p.booked q.booked;
}
  where
    either :
        ((b ≡ a)
          ⊎ ((a.status ≡ pending)
              × (b.status ≡ assigned)
              × (b.assigned_driver_id ≡ some driver_id)))
        → ((c ≡ b)
            ⊎ ((b.status ≡ pending)
                × (c.status ≡ assigned)
                × (c.assigned_driver_id ≡ some driver_id)))
        → (c ≡ a)
          ⊎ ((a.status ≡ pending) × (c.status ≡ assigned) × (c.assigned_driver_id ≡ some driver_id))
    either (inl e) (inl f) = inl (f ∙ e)
    either (inl e) (inr (s, t, d)) = inr (sym (ap (λ o. o.status) e) ∙ s, t, d)
    either (inr (s, t, d)) (inl f) =
        inr (s, ap (λ o. o.status) f ∙ t, ap (λ o. o.assigned_driver_id) f ∙ d)
    either (inr (s, t, d)) (inr (s', t', d')) = cc (t, s')

Pointwise-trans :
    (driver_id : String) (xs ys zs : List Order)
    → Pointwise (Booked driver_id) xs ys
    → Pointwise (Booked driver_id) ys zs
    → Pointwise (Booked driver_id) xs zs
Pointwise-trans driver_id [] [] [] p q = tt
Pointwise-trans driver_id [] [] (z ∷ zs) p q = absurd q
Pointwise-trans driver_id [] (y ∷ ys) zs p q = absurd p
Pointwise-trans driver_id (x ∷ xs) [] zs p q = absurd p
Pointwise-trans driver_id (x ∷ xs) (y ∷ ys) [] p q = absurd q
Pointwise-trans driver_id (x ∷ xs) (y ∷ ys) (z ∷ zs) p q =
    (Booked-trans driver_id x y z p.0 q.0, Pointwise-trans driver_id xs ys zs p.1 q.1)

-- The order with the identifier is there and not pending.
abbrev pub IsHandled : String → String → World → Type 0
IsHandled tenant id w = (o : Order) × (get_order id tenant w ≡ some o) × (o.status ≢ pending)

Booked-find :
    (driver_id id tenant : String) (xs ys : List Order) (o : Order)
    → Pointwise (Booked driver_id) xs ys
    → find (is_order id tenant) xs ≡ some o
    → (o' : Order) × (find (is_order id tenant) ys ≡ some o') × Booked driver_id o o'
unfolding find
Booked-find driver_id id tenant [] ys o p e = cc
Booked-find driver_id id tenant (x ∷ xs) [] o p e = absurd p
Booked-find driver_id id tenant (x ∷ xs) (y ∷ ys) o p e =
    let keyed : is_order id tenant y ≡ is_order id tenant x =
      ap (λ i. i == id && y.organization_id == tenant) p.0.same_id
      ∙ ap (λ t. x.id == id && t == tenant) p.0.same_tenant in
    elim (Bool-cases (is_order id tenant x)) [
      | inl h ↦
          let q : x ≡ o = cc (e, ap (λ b. if b then some x else find (is_order id tenant) xs) h) in
          (y, rw (keyed ∙ h, find) refl, subst (λ z. Booked driver_id z y) q p.0)
      | inr h ↦
          let (o', e', b) = Booked-find driver_id id tenant xs ys o p.1 (rw (h, find) at e) in
          (o', rw (keyed ∙ h, find) e', b)
    ]

Booked-IsHandled :
    (driver_id o_id tenant : String) (w w' : World)
    → Pointwise (Booked driver_id) w.orders w'.orders
    → IsHandled tenant o_id w
    → IsHandled tenant o_id w'
unfolding get_order
Booked-IsHandled driver_id id tenant w w' p (o, e, n) =
    let (o', e', b) = Booked-find driver_id id tenant w.orders w'.orders o p e in
    (
      o',
      e',
      elim b.booked [
        | inl same ↦ λ s. n (sym (ap (λ z. z.status) same) ∙ s)
        | inr (_, t, _) ↦ λ s. cc (s, t)
      ],
    )

pending_or_not :
    (s : OrderStatus)
    → ((s ≡ pending) × (is_pending s ≡ true)) ⊎ ((s ≢ pending) × (is_pending s ≡ false))
pending_or_not pending = inl (refl, refl)
pending_or_not _ = inr (λ e. cc, refl)

returned_same : {x y : World} → returned x ≡ returned y → x ≡ y
returned_same e = ground arith

Outcome-cases :
    (r : Outcome World)
    → ((w : World) × (r ≡ returned w)) ⊎ ((c : ℕ) × (m : String) × (r ≡ thrown c m))
Outcome-cases (returned w) = inl (w, refl)
Outcome-cases (thrown c m) = inr (c, m, refl)

module _ (actor : User) (p : Driver → Bool) (driver_id : String)
    (named : (d : Driver) → p d ≡ true → d.id ≡ driver_id) where
  -- What one step gives.
  abbrev Step : String → World → World → Type 0
  Step id w w' =
      Pointwise (Booked driver_id) w.orders w'.orders × IsHandled actor.organization_id id w'

  book_lem :
      (ctx : Context) (id : String) (w w' : World)
      → book ctx actor p id w ≡ returned w'
      → Step id w w'
  unfolding book get_order set_order set_driver assigned_order
  book_lem ctx id w w' e = elim (Option-cases (get_order id actor.organization_id w)) [
    | inl h ↦ cc (rw (h, book) at e)
    | inr (o, h) ↦ elim (Option-cases (find p w.drivers)) [
      | inl g ↦ cc (rw (h, g, book) at e)
      | inr (d, g) ↦ elim (pending_or_not o.status) [
        | inr (n, s) ↦
            let same : w ≡ w' = returned_same (rw (h, g, s, book) at e) in
            subst (Step id w) same
              (Pointwise-refl (Booked driver_id) (Booked-refl driver_id) w.orders, (o, h, n))
        | inl (s, s') ↦
            let o' = assigned_order ctx o d actor in
            let made : Booked driver_id o o' = record {
              same_id = refl;
              same_tenant = refl;
              booked = inr (s, refl, ap some (named d (find_holds p w.drivers d g)));
            } in
            let keeps =
              is_order-assigned_order id actor.organization_id ctx o d actor
                (get_order_holds id actor.organization_id o w h) in
            let same : set_driver p (record d { status = busy })
                  (set_order id actor.organization_id o' w)
                ≡ w' =
              returned_same (rw (h, g, s', book) at e) in
            subst (Step id w) same (
              modify_first-Pointwise (Booked driver_id) (Booked-refl driver_id)
                  (is_order id actor.organization_id) (λ _. o') w.orders
                  (λ x m.
                    let q : x ≡ o = cc (m, h) in subst (λ y. Booked driver_id y o') (sym q) made),
              (
                o',
                find-modify_first (is_order id actor.organization_id) (λ _. o') w.orders o h keeps,
                λ t. cc t,
              ),
            )
      ]
    ]
  ]

  abbrev Steps : List String → World → World × Option (ℕ × String) → Type 0
  Steps ids w r =
      Pointwise (Booked driver_id) w.orders r.0.orders
      × (r.1 ≡ none → All (λ id. IsHandled actor.organization_id id r.0) ids)

  -- The whole loop: each order is as it was or was booked, and where no step failed none of the
  -- run's orders is left pending.
  pub book_all_lem :
      (ctx : Context) (saved : ℕ → Bool) (i : ℕ) (ids : List String) (w : World)
      → Steps ids w (book_all ctx saved actor p i ids w)
  unfolding book_all
  book_all_lem ctx saved i [] w =
      (Pointwise-refl (Booked driver_id) (Booked-refl driver_id) w.orders, λ _. tt)
  book_all_lem ctx saved i (id ∷ ids) w = elim (Outcome-cases (book (at_step ctx i) actor p id w)) [
    | inr (code, message, h) ↦
        rw (h, book_all)
          (Pointwise-refl (Booked driver_id) (Booked-refl driver_id) w.orders, λ e. cc)
    | inl (w1, h) ↦
        let (here, handled) = book_lem (at_step ctx i) id w w1 h in
        elim (Bool-cases (saved i)) [
          | inr s ↦ rw (h, s, book_all) (here, λ e. cc)
          | inl s ↦
              let (there, all) = book_all_lem ctx saved (suc i) ids w1 in
              let same : book_all ctx saved actor p (suc i) ids w1
                  ≡ book_all ctx saved actor p i (id ∷ ids) w =
                rw (h, s, book_all) refl in
              subst (Steps (id ∷ ids) w) same (
                Pointwise-trans driver_id w.orders w1.orders _ here there,
                λ e. (
                  Booked-IsHandled driver_id id actor.organization_id w1
                      (book_all ctx saved actor p (suc i) ids w1).0 there handled,
                  all e,
                ),
              )
        ]
  ]
