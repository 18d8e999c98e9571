-- ===== src/Orders/History.antt =====
-- What holds of the orders over any sequence of requests.
use mathlib.Core.List.{append-nil, append_assoc}
use real_time_logistics_plat.Common.{
  String, true, List, [], ◌∷◌, ◌++◌, ◌≡◌, refl, sym, ap, ◌∙◌, subst, ◌≢◌, arith, All, Pointwise,
  Pointwise-refl, filter, ◌==◌, eq_iff,
}
use real_time_logistics_plat.Model.{
  User, Order, OrderStatus, OrderEvent, is_terminal, delivered, paid,
}
use real_time_logistics_plat.Geo.{JsNumber}
use real_time_logistics_plat.StateMachine.{can_transition}
use real_time_logistics_plat.Store.{World, Context, list_orders}
use real_time_logistics_plat.Orders.Payment.{Provider}
use real_time_logistics_plat.Orders.Calls.{Call, handle, run}
use real_time_logistics_plat.Orders.Lifecycle.{
  Lifecycle, stays, moves, returns, IsProven, Evolves, Change, edited, created,
}
use real_time_logistics_plat.Orders.Refinement.{handle-Change}

-- A delivered order is proven.
abbrev pub Proven : Order → Type 0
Proven o = o.status ≡ delivered → IsProven o

evolved_Proven :
    (tenant : String) (os os' : List Order)
    → Pointwise (Evolves tenant) os os'
    → All Proven os
    → All Proven os'
evolved_Proven tenant [] [] e h = tt
evolved_Proven tenant [] (y ∷ ys) e h = absurd e
evolved_Proven tenant (x ∷ xs) [] e h = absurd e
evolved_Proven tenant (x ∷ xs) (y ∷ ys) e h =
    (λ s. e.0.proven s h.0, evolved_Proven tenant xs ys e.1 h.1)

Change-Proven :
    (tenant : String) (os os' : List Order) → Change tenant os os' → All Proven os → All Proven os'
Change-Proven tenant os os' (edited e) h = evolved_Proven tenant os os' e h
Change-Proven tenant os os' (created o new same) h =
    subst (All Proven) (sym same) ((λ s. cc (new.is_pending, s)), h)

-- What an order keeps for ever.
pub record Persists (o o' : Order) : Type 0 where
  pub same_id : o'.id ≡ o.id
  pub same_tenant : o'.organization_id ≡ o.organization_id
  pub final : is_terminal o.status ≡ true → o'.status ≡ o.status
  pub settled : o.payment_status ≡ paid → o'.payment_status ≡ paid
  pub logged : (es : List OrderEvent) × (o'.events ≡ o.events ++ es)

Lifecycle-final : {s t : OrderStatus} → Lifecycle s t → is_terminal s ≡ true → t ≡ s
unfolding can_transition
Lifecycle-final stays h = refl
Lifecycle-final {s} {t} (moves m) h = ground arith
Lifecycle-final returns h = cc

Persists-refl : (o : Order) → Persists o o
Persists-refl o = record {
  same_id = refl;
  same_tenant = refl;
  final = λ _. refl;
  settled = λ h. h;
  logged = ([], sym (append-nil o.events));
}

Persists-trans : (a b c : Order) → Persists a b → Persists b c → Persists a c
Persists-trans a b c p q = record {
  same_id = q.same_id ∙ p.same_id;
  same_tenant = q.same_tenant ∙ p.same_tenant;
  final = λ h. q.final (ap is_terminal (p.final h) ∙ h) ∙ p.final h;
  settled = λ h. q.settled (p.settled h);
  logged = (
    p.logged.0 ++ q.logged.0,
    q.logged.1
        ∙ ap (λ es. es ++ q.logged.0) p.logged.1
        ∙ append_assoc a.events p.logged.0 q.logged.0,
  );
}

Evolves-Persists : (tenant : String) (o o' : Order) → Evolves tenant o o' → Persists o o'
Evolves-Persists tenant o o' e = record {
  same_id = e.same_id;
  same_tenant = e.same_tenant;
  final = Lifecycle-final e.lifecycle;
  settled = e.settled;
  logged = e.logged;
}

-- The orders of the first list stand, changed or not, at the end of the second.
abbrev pub Extends : List Order → List Order → Type 0
Extends os os' =
    (fresh : List Order) × (kept : List Order) × (os' ≡ fresh ++ kept) × Pointwise Persists os kept

Pointwise-trans :
    (xs ys zs : List Order)
    → Pointwise Persists xs ys
    → Pointwise Persists ys zs
    → Pointwise Persists xs zs
Pointwise-trans [] [] [] p q = tt
Pointwise-trans [] [] (z ∷ zs) p q = absurd q
Pointwise-trans [] (y ∷ ys) zs p q = absurd p
Pointwise-trans (x ∷ xs) [] zs p q = absurd p
Pointwise-trans (x ∷ xs) (y ∷ ys) [] p q = absurd q
Pointwise-trans (x ∷ xs) (y ∷ ys) (z ∷ zs) p q =
    (Persists-trans x y z p.0 q.0, Pointwise-trans xs ys zs p.1 q.1)

-- A list related to `fresh ++ kept` ends in a list related to `kept`.
split-Pointwise :
    (fresh kept zs : List Order)
    → Pointwise Persists (fresh ++ kept) zs
    → (new : List Order) × (old : List Order) × (zs ≡ new ++ old) × Pointwise Persists kept old
split-Pointwise [] kept zs p = ([], zs, refl, p)
split-Pointwise (x ∷ fresh) kept [] p = absurd p
split-Pointwise (x ∷ fresh) kept (z ∷ zs) p =
    let (new, old, e, q) = split-Pointwise fresh kept zs p.1 in (z ∷ new, old, ap (λ r. z ∷ r) e, q)

Extends-refl : (os : List Order) → Extends os os
Extends-refl os = ([], os, refl, Pointwise-refl Persists Persists-refl os)

Extends-trans : (os ps qs : List Order) → Extends os ps → Extends ps qs → Extends os qs
Extends-trans os ps qs (f, k, e, p) (g, l, d, q) =
    let (new, old, same, r) = split-Pointwise f k l (subst (λ xs. Pointwise Persists xs l) e q) in
    (
      g ++ new,
      old,
      d ∙ ap (λ xs. g ++ xs) same ∙ sym (append_assoc g new old),
      Pointwise-trans os k old p r,
    )

evolved_Persists :
    (tenant : String) (os os' : List Order)
    → Pointwise (Evolves tenant) os os'
    → Pointwise Persists os os'
evolved_Persists tenant [] [] e = tt
evolved_Persists tenant [] (y ∷ ys) e = absurd e
evolved_Persists tenant (x ∷ xs) [] e = absurd e
evolved_Persists tenant (x ∷ xs) (y ∷ ys) e =
    (Evolves-Persists tenant x y e.0, evolved_Persists tenant xs ys e.1)

Change-Extends : (tenant : String) (os os' : List Order) → Change tenant os os' → Extends os os'
Change-Extends tenant os os' (edited e) = ([], os', refl, evolved_Persists tenant os os' e)
Change-Extends tenant os os' (created o _ same) =
    (o ∷ [], os, same, Pointwise-refl Persists Persists-refl os)

-- The orders of one tenant, seen by requests of another.
evolved_other :
    (tenant other : String) (os os' : List Order)
    → other ≢ tenant
    → Pointwise (Evolves tenant) os os'
    → filter (λ o. o.organization_id == other) os' ≡ filter (λ o. o.organization_id == other) os
unfolding filter
evolved_other tenant other [] [] n e = refl
evolved_other tenant other [] (y ∷ ys) n e = absurd e
evolved_other tenant other (x ∷ xs) [] n e = absurd e
evolved_other tenant other (x ∷ xs) (y ∷ ys) n e = ground (
  arith,
  e.0.same_tenant,
  e.0.isolated,
  eq_iff x.organization_id other,
  evolved_other tenant other xs ys n e.1,
)

Change-other :
    (tenant other : String) (os os' : List Order)
    → other ≢ tenant
    → Change tenant os os'
    → filter (λ o. o.organization_id == other) os' ≡ filter (λ o. o.organization_id == other) os
unfolding filter
Change-other tenant other os os' n (edited e) = evolved_other tenant other os os' n e
Change-other tenant other os os' n (created o new same) =
    ground (arith, new.tenant_of, same, eq_iff o.organization_id other)

module _ (num : JsNumber) (env : Provider) where
  -- Over any sequence of requests, if every delivered order has a proof by its own driver and a
  -- time of delivery at the start, then so has every delivered order at the end.
  pub run-Proven :
      (calls : List (Context × User × Call)) (w : World)
      → All Proven w.orders
      → All Proven (run num env calls w).orders
  unfolding run
  run-Proven [] w h = h
  run-Proven ((ctx, actor, c) ∷ rest) w h =
      run-Proven rest _
        (Change-Proven actor.organization_id w.orders _ (handle-Change num env ctx actor c w) h)

  -- Over any sequence of requests no order is lost: each stands at the end, behind the new ones and
  -- in the same sequence, under its identifier and tenant, with its log of events as a prefix of
  -- the new log, with its status if that was terminal, and paid if it was paid.
  pub run-Extends :
      (calls : List (Context × User × Call)) (w : World)
      → Extends w.orders (run num env calls w).orders
  unfolding run
  run-Extends [] w = Extends-refl w.orders
  run-Extends ((ctx, actor, c) ∷ rest) w =
      Extends-trans w.orders _ _
        (Change-Extends actor.organization_id w.orders _ (handle-Change num env ctx actor c w))
        (run-Extends rest _)

  -- Requests by users of other tenants leave the orders of a tenant exactly as they are.
  pub list_orders-run_other :
      (calls : List (Context × User × Call)) (tenant : String) (w : World)
      → All (λ r. tenant ≢ r.1.organization_id) calls
      → list_orders tenant (run num env calls w) ≡ list_orders tenant w
  unfolding run list_orders
  list_orders-run_other [] tenant w h = refl
  list_orders-run_other ((ctx, actor, c) ∷ rest) tenant w h =
      list_orders-run_other rest tenant (handle num env ctx actor c w).0 h.1
      ∙ Change-other actor.organization_id tenant w.orders _ h.0
          (handle-Change num env ctx actor c w)
