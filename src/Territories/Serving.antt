-- ===== src/Territories/Serving.antt =====
-- Orders are created inside the active territories of their tenant: POST /api/orders,
-- apps/api/src/app.ts.
use real_time_logistics_plat.Common.{
  ℕ, String, Bool, true, false, not, ◌&&◌, Option, none, some, List, [], ◌∷◌, ◌≡◌, refl, sym, ap,
  ◌∙◌, subst, ◌⊎◌, inl, inr, arith, filter, if◌then◌else◌, Bool-cases, All, All-imp, ◌==◌, eq_iff,
}
use real_time_logistics_plat.Model.{User, Order, Coordinate}
use real_time_logistics_plat.Geo.{JsNumber}
use real_time_logistics_plat.Store.{
  World, Context, OrderInput, new_order, create_order, set_delivery_pin,
}
use real_time_logistics_plat.Api.{Response, accepted, refused, is_operator, permit, finish}
use real_time_logistics_plat.Orders.References.{finish-orders}
use real_time_logistics_plat.Orders.Choice.{Has}
use real_time_logistics_plat.Orders.Create.{tail, or_withdraw, post_order}
use real_time_logistics_plat.Territories.{
  ServiceTerritory, active_territories_for, is_none_of, matching, point_in_polygon,
  validate_service_area, post_order_served,
}

filter_some :
    (p : ServiceTerritory → Bool) (ts : List ServiceTerritory)
    → is_none_of (filter p ts) ≡ false
    → (t : ServiceTerritory) × Has t ts × (p t ≡ true)
unfolding filter
filter_some p [] h = cc h
filter_some p (t ∷ ts) h = elim (Bool-cases (p t)) [
  | inl e ↦ (t, inl refl, e)
  | inr e ↦ let (s, m, q) = filter_some p ts (rw (e, filter) at h) in (s, inr m, q)
]

filter_none :
    (p : ServiceTerritory → Bool) (ts : List ServiceTerritory)
    → is_none_of (filter p ts) ≡ true
    → All (λ t. p t ≡ false) ts
unfolding filter
filter_none p [] h = tt
filter_none p (t ∷ ts) h = elim (Bool-cases (p t)) [
  | inl e ↦ absurd (cc (rw (e, filter) at h))
  | inr e ↦ (e, filter_none p ts (rw (e, filter) at h))
]

Has-filter :
    (p : ServiceTerritory → Bool) (ts : List ServiceTerritory) (t : ServiceTerritory)
    → Has t (filter p ts)
    → Has t ts × (p t ≡ true)
unfolding filter
Has-filter p [] t h = absurd h
Has-filter p (x ∷ xs) t h = elim (Bool-cases (p x)) [
  | inl e ↦ elim (rw (e, filter) at h) [
    | inl same ↦ (inl same, ap p same ∙ e)
    | inr there ↦ let (m, q) = Has-filter p xs t there in (inr m, q)
  ]
  | inr e ↦ let (m, q) = Has-filter p xs t (rw (e, filter) at h) in (inr m, q)
]

-- The territory is the tenant's and switched on.
abbrev pub IsActive : String → ServiceTerritory → Type 0
IsActive tenant t = (t.organization_id ≡ tenant) × (t.active ≡ true)

tested_active :
    (tenant : String) (t : ServiceTerritory)
    → (t.organization_id == tenant && t.active) ≡ true
    → IsActive tenant t
tested_active tenant t h = (ground (arith, eq_iff t.organization_id tenant), ground arith)

not_active :
    (tenant : String) (t : ServiceTerritory)
    → (t.organization_id == tenant && t.active) ≡ false
    → ¬ IsActive tenant t
not_active tenant t h (own, on) = ground (arith, eq_iff t.organization_id tenant)

module _ (num : JsNumber) (ts : List ServiceTerritory) where
  -- The tenant has no active territory, or one that contains the point.
  abbrev pub Serves : String → Coordinate → Type 0
  Serves tenant point =
      All (λ t. ¬ IsActive tenant t) ts
      ⊎ ((t : ServiceTerritory) × Has t ts
          × IsActive tenant t
          × (point_in_polygon num point t.polygon ≡ true))

  validate_service_area-Serves :
      (tenant : String) (point : Coordinate)
      → ((validate_service_area num tenant point ts).enforced
          && not (validate_service_area num tenant point ts).in_service_area)
        ≡ false
      → Serves tenant point
  unfolding validate_service_area matching active_territories_for
  validate_service_area-Serves tenant point h =
      let is_active : ServiceTerritory → Bool = λ t. t.organization_id == tenant && t.active in
      elim (Bool-cases (is_none_of (active_territories_for tenant ts))) [
        | inl n ↦ inl (
            All-imp (λ t. is_active t ≡ false) (λ t. ¬ IsActive tenant t) (not_active tenant) ts
              (filter_none is_active ts n))
        | inr n ↦
            elim (Bool-cases (is_none_of (matching num point (active_territories_for tenant ts)))) [
              | inr m ↦
                  let (t, there, inside) =
                    filter_some (λ t. point_in_polygon num point t.polygon)
                      (active_territories_for tenant ts) m in
                  let (listed, on) = Has-filter is_active ts t there in
                  inr (t, listed, tested_active tenant t on, inside)
              | inl m ↦ cc (rw (n, m, validate_service_area) at h)
            ]
      ]

  -- A refusal leaves the orders; an acceptance puts the order in front, where it is served.
  abbrev pub Creates : World → World × Response → Type 0
  Creates w (w', refused code message) = w'.orders ≡ w.orders
  Creates w (w', accepted code o) =
      (w'.orders ≡ o ∷ w.orders) × Serves o.organization_id o.dropoff.coordinate

  or_withdraw-Creates :
      (w : World) (o : Order) (out : World × Response)
      → Serves o.organization_id o.dropoff.coordinate
      → out.0.orders ≡ o ∷ w.orders
      → ((code : ℕ) (p : Order) → out.1 ≡ accepted code p → p ≡ o)
      → Creates w (or_withdraw out)
  unfolding or_withdraw
  or_withdraw-Creates w o (w', refused code message) s e k = ap tail e
  or_withdraw-Creates w o (w', accepted code p) s e k =
      subst (λ q. (w'.orders ≡ q ∷ w.orders) × Serves q.organization_id q.dropoff.coordinate)
        (sym (k code p refl)) (e, s)

  if_out :
      (Q : World × Response → Type 0) (b : Bool) (x y : World × Response)
      → Q x
      → Q y
      → Q (if b then x else y)
  if_out Q true x y h k = h
  if_out Q false x y h k = k

  finish-accepted :
      (ctx : Context) (actor : User) (action : String) (status code : ℕ) (o p : Order)
      (template : String) (w : World)
      → (finish ctx actor action status o template w).1 ≡ accepted code p
      → p ≡ o
  unfolding finish
  finish-accepted ctx actor action status code o p template w e = ground arith

  -- An order is created only where no territory is the tenant's and active, or where one that is so
  -- contains the drop-off in its polygon; it is then put in front of the others. Every refused
  -- request leaves the orders as they were.
  pub post_order_served-Creates :
      (ctx : Context) (actor : User) (body : Option (OrderInput × String)) (w : World)
      → Creates w (post_order_served num ts ctx actor body w)
  unfolding post_order_served post_order permit new_order create_order set_delivery_pin
  post_order_served-Creates ctx actor none w =
      if_out (Creates w) (is_operator actor.role) _ _ refl refl
  post_order_served-Creates ctx actor (some (input, value)) w =
      let area = validate_service_area num actor.organization_id input.dropoff.coordinate ts in
      let o = new_order ctx input actor in
      let w1 = set_delivery_pin ctx o.id value (create_order ctx input actor w) in
      let done = finish ctx actor "order.created" 201 o "order_created" w1 in
      if_out (Creates w) (is_operator actor.role) _ _
        (elim (Bool-cases (area.enforced && not area.in_service_area)) [
          | inl h ↦ rw (h, post_order_served, post_order) refl
          | inr h ↦
              let s =
                validate_service_area-Serves actor.organization_id input.dropoff.coordinate h in
              rw (h, post_order_served, post_order)
                (if_out (λ out. Creates w (or_withdraw out)) ctx.persisted done _
                  (or_withdraw-Creates w o done s
                    (finish-orders ctx actor "order.created" 201 o "order_created" w1).0
                    (λ code q e.
                      finish-accepted ctx actor "order.created" 201 code o q "order_created" w1 e))
                  refl)
        ])
        refl
