-- ===== src/Tracking/Fixes.antt =====
-- Sequences of reported positions: POST /api/drivers/:id/location of apps/api/src/app.ts.
use real_time_logistics_plat.Common.{
  ℕ, suc, ◌+◌, ◌≤◌, String, Bool, true, false, Option, none, some, List, [], ◌∷◌, ◌≡◌, refl, sym,
  ◌∙◌, ◌⊎◌, modify_first, subst, inl, inr, arith, All, Pointwise, Pointwise-refl,
  modify_first-Pointwise, find, if◌then◌else◌, Bool-cases, Option-cases, same_text?, leb, ltb,
  leb→le,
}
use real_time_logistics_plat.Model.{User, Driver, Order, is_driver}
use real_time_logistics_plat.Geo.{JsNumber}
use real_time_logistics_plat.Store.{World, Context, at_step}
use real_time_logistics_plat.Api.{settings_for}
use real_time_logistics_plat.Orders.References.{settings_for-orders}
use real_time_logistics_plat.Tracking.{
  GeofenceTransition, geofence_transitions, tracked_order, track_orders, locate, post_location,
  LocationInput, LocationResponse, or_clock, is_own_driver,
}
use real_time_logistics_plat.Tracking.Fences.{IsFencedOrder, tracked_order-IsFencedOrder}

List-cases :
    (xs : List GeofenceTransition)
    → (xs ≡ []) ⊎ ((t : GeofenceTransition) × (more : List GeofenceTransition) × (xs ≡ t ∷ more))
List-cases [] = inl refl
List-cases (t ∷ more) = inr (t, more, refl)

some_same : {x y : Driver} → some x ≡ some y → x ≡ y
some_same e = ground arith

module _ (num : JsNumber) where
  track_orders-IsFencedOrder :
      (ctx : Context) (saved : ℕ → Bool) (actor : User) (d : Driver) (i : ℕ) (os : List Order)
      (w : World)
      → All IsFencedOrder os
      → All IsFencedOrder (track_orders num ctx saved actor d i os w).1
  unfolding track_orders
  track_orders-IsFencedOrder ctx saved actor d i [] w h = tt
  track_orders-IsFencedOrder ctx saved actor d i (o ∷ os) w h =
      elim (Bool-cases (same_text? o.assigned_driver_id (some d.id))) [
        | inr s ↦
            rw (s, track_orders) (h.0, track_orders-IsFencedOrder ctx saved actor d i os w h.1)
        | inl s ↦
            let w1 = (settings_for o.organization_id w).0 in
            let radius = (settings_for o.organization_id w).1.geofence_radius_meters in
            let ts = geofence_transitions num o d.location radius in
            let here : IsFencedOrder (tracked_order num (at_step ctx i) actor d ts o) =
              tracked_order-IsFencedOrder num o d.location radius (at_step ctx i) actor d h.0 in
            elim (List-cases ts) [
              | inl e ↦
                  rw (s, e, track_orders)
                    (h.0, track_orders-IsFencedOrder ctx saved actor d i os w1 h.1)
              | inr (t, more, e) ↦
                  let here' : IsFencedOrder
                      (tracked_order num (at_step ctx i) actor d (t ∷ more) o) =
                    subst (λ xs. IsFencedOrder (tracked_order num (at_step ctx i) actor d xs o)) e
                      here in
                  elim (Bool-cases (saved i)) [
                    | inl b ↦
                        rw (s, e, b, track_orders)
                          (here', track_orders-IsFencedOrder ctx saved actor d (suc i) os w1 h.1)
                    | inr b ↦ rw (s, e, b, track_orders) (here', h.1)
                  ]
            ]
      ]

  abbrev moved_driver : Context → LocationInput → Driver → Driver
  moved_driver ctx b d =
      let recorded = or_clock b.recorded_at ctx.now in
      if leb d.last_seen_at recorded
      then record d { location = b.location; last_seen_at = recorded }
      else d

  abbrev moved_to : Context → User → String → World → LocationInput → Driver → World
  moved_to ctx actor id w b d = record w {
    drivers = modify_first (is_own_driver actor id w) (λ _. moved_driver ctx b d) w.drivers;
  }

  -- What a predicate on states has to be shown of.
  module _ (P : World → Type 0) (ctx : Context) (saved : ℕ → Bool) (actor : User) (id : String)
      (w : World) (kept : P w) where
    abbrev tracked_to : LocationInput → Driver → World
    tracked_to b d =
        let out =
          track_orders num ctx saved actor (moved_driver ctx b d) 0 w.orders
            (moved_to ctx actor id w b d) in
        record out.0 { orders = out.1 }

    if_kept : (b : Bool) (x y : World × LocationResponse) → P x.0 → P y.0 → P (if b then x else y).0
    if_kept true x y h k = h
    if_kept false x y h k = k

    post_location_cases :
        (body : Option LocationInput)
        → ((b : LocationInput) (d : Driver)
            → find (is_own_driver actor id w) w.drivers ≡ some d
            → P (moved_to ctx actor id w b d) × P (tracked_to b d))
        → P (post_location num ctx saved actor id body w).0
    unfolding post_location locate
    post_location_cases none each = if_kept (is_driver actor.role) _ _ kept kept
    post_location_cases (some b) each =
        elim (Option-cases (find (is_own_driver actor id w) w.drivers)) [
          | inl e ↦ rw (e, post_location) (if_kept (is_driver actor.role) _ _ kept kept)
          | inr (d, e) ↦
              rw (e, post_location)
                (if_kept (is_driver actor.role) _ _
                  (if_kept (ltb (ctx.now + 120000) (or_clock b.recorded_at ctx.now)) _ _ kept (
                    if_kept ctx.persisted _ _
                      (if_kept (leb d.last_seen_at (or_clock b.recorded_at ctx.now)) _ _
                        (each b d e).1 (each b d e).0)
                      (each b d e).0))
                  kept)
        ]

  -- The driver's clock does not run back.
  abbrev pub LaterFix : Driver → Driver → Type 0
  LaterFix d d' = (d'.id ≡ d.id) × (d.last_seen_at ≤ d'.last_seen_at)

  LaterFix-refl : (d : Driver) → LaterFix d d
  LaterFix-refl d = (refl, omega arith)

  LaterFix-trans : (a b c : Driver) → LaterFix a b → LaterFix b c → LaterFix a c
  LaterFix-trans a b c p q = (q.0 ∙ p.0, omega (arith, p.1, q.1))

  track_orders-drivers :
      (ctx : Context) (saved : ℕ → Bool) (actor : User) (d : Driver) (i : ℕ) (os : List Order)
      (w : World)
      → (track_orders num ctx saved actor d i os w).0.drivers ≡ w.drivers
  unfolding track_orders
  track_orders-drivers ctx saved actor d i [] w = refl
  track_orders-drivers ctx saved actor d i (o ∷ os) w =
      elim (Bool-cases (same_text? o.assigned_driver_id (some d.id))) [
        | inr s ↦ rw (s, track_orders) (track_orders-drivers ctx saved actor d i os w)
        | inl s ↦
            let w1 = (settings_for o.organization_id w).0 in
            let radius = (settings_for o.organization_id w).1.geofence_radius_meters in
            let read = (settings_for-orders o.organization_id w).1 in
            elim (List-cases (geofence_transitions num o d.location radius)) [
              | inl e ↦
                  rw (s, e, track_orders) (track_orders-drivers ctx saved actor d i os w1 ∙ read)
              | inr (t, more, e) ↦ elim (Bool-cases (saved i)) [
                | inl b ↦
                    rw (s, e, b, track_orders)
                      (track_orders-drivers ctx saved actor d (suc i) os w1 ∙ read)
                | inr b ↦ rw (s, e, b, track_orders) read
              ]
            ]
      ]

  moved_driver-LaterFix :
      (ctx : Context) (b : LocationInput) (d : Driver) → LaterFix d (moved_driver ctx b d)
  moved_driver-LaterFix ctx b d =
      elim (Bool-cases (leb d.last_seen_at (or_clock b.recorded_at ctx.now))) [
        | inl e ↦ rw e (refl, leb→le d.last_seen_at (or_clock b.recorded_at ctx.now) e)
        | inr e ↦ rw e (LaterFix-refl d)
      ]

  Pointwise-trans :
      (xs ys zs : List Driver)
      → Pointwise LaterFix xs ys
      → Pointwise LaterFix ys zs
      → Pointwise LaterFix xs zs
  Pointwise-trans [] [] [] p q = tt
  Pointwise-trans [] [] (z ∷ zs) p q = absurd q
  Pointwise-trans [] (y ∷ ys) zs p q = absurd p
  Pointwise-trans (x ∷ xs) [] zs p q = absurd p
  Pointwise-trans (x ∷ xs) (y ∷ ys) [] p q = absurd q
  Pointwise-trans (x ∷ xs) (y ∷ ys) (z ∷ zs) p q =
      (LaterFix-trans x y z p.0 q.0, Pointwise-trans xs ys zs p.1 q.1)

  post_location-LaterFix :
      (ctx : Context) (saved : ℕ → Bool) (actor : User) (id : String) (body : Option LocationInput)
      (w : World)
      → Pointwise LaterFix w.drivers (post_location num ctx saved actor id body w).0.drivers
  post_location-LaterFix ctx saved actor id body w =
      post_location_cases (λ v. Pointwise LaterFix w.drivers v.drivers) ctx saved actor id w
        (Pointwise-refl LaterFix LaterFix-refl w.drivers) body
        (λ b d e.
          let moved =
            modify_first-Pointwise LaterFix LaterFix-refl (is_own_driver actor id w)
              (λ _. moved_driver ctx b d) w.drivers
              (λ x m.
                let same : x ≡ d = some_same (sym m ∙ e) in
                subst (λ y. LaterFix y (moved_driver ctx b d)) (sym same)
                  (moved_driver-LaterFix ctx b d)) in
          (
            moved,
            subst (Pointwise LaterFix w.drivers)
                (sym (
                  track_orders-drivers ctx saved actor (moved_driver ctx b d) 0 w.orders
                    (moved_to ctx actor id w b d)))
                moved,
          ))

  unfoldable pub locate_all :
      List (Context × (ℕ → Bool) × User × String × Option LocationInput) → World → World
  unfolding post_location
  locate_all [] w = w
  locate_all ((ctx, saved, actor, id, body) ∷ rest) w =
      locate_all rest (post_location num ctx saved actor id body w).0

  -- Over any sequence of reported positions, in any order and whatever is persisted, the log of
  -- every order keeps at most one arrival at its pickup and one at its drop-off, and a departure
  -- from a stop at most once and only where the arrival is recorded.
  pub locate_all-IsFencedOrder :
      (fixes : List (Context × (ℕ → Bool) × User × String × Option LocationInput)) (w : World)
      → All IsFencedOrder w.orders
      → All IsFencedOrder (locate_all fixes w).orders
  unfolding locate_all
  locate_all-IsFencedOrder [] w h = h
  locate_all-IsFencedOrder ((ctx, saved, actor, id, body) ∷ rest) w h =
      locate_all-IsFencedOrder rest (post_location num ctx saved actor id body w).0 (
        post_location_cases (λ v. All IsFencedOrder v.orders) ctx saved actor id w h body
          (λ b d e. (
            h,
            track_orders-IsFencedOrder ctx saved actor (moved_driver ctx b d) 0 w.orders
                (moved_to ctx actor id w b d) h,
          )))

  -- Over any sequence of reported positions, late ones included, no driver is added, lost or moved
  -- in the list, and the time at which each was last seen never falls.
  pub locate_all-LaterFix :
      (fixes : List (Context × (ℕ → Bool) × User × String × Option LocationInput)) (w : World)
      → Pointwise LaterFix w.drivers (locate_all fixes w).drivers
  unfolding locate_all
  locate_all-LaterFix [] w = Pointwise-refl LaterFix LaterFix-refl w.drivers
  locate_all-LaterFix ((ctx, saved, actor, id, body) ∷ rest) w =
      Pointwise-trans w.drivers (post_location num ctx saved actor id body w).0.drivers _
        (post_location-LaterFix ctx saved actor id body w)
        (locate_all-LaterFix rest (post_location num ctx saved actor id body w).0)
