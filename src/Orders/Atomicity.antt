-- ===== src/Orders/Atomicity.antt =====
-- What a handler leaves behind when the database refuses its transaction: the snapshots that the
-- handlers of apps/api/src/app.ts write back.
use real_time_logistics_plat.Common.{
  String, Bool, true, false, some, List, [], ◌∷◌, ◌≡◌, ◌≢◌, refl, sym, ap, inl, inr, arith, eq_refl,
  eq_iff, All, find, modify_first, modify_first_undo, Bool-cases, subst,
}
use real_time_logistics_plat.Model.{User, Order, Driver, delivered, busy}
use real_time_logistics_plat.Geo.{JsNumber}
use real_time_logistics_plat.Store.{
  World, Context, has_id, owns_profile, profile_of, freed, release,
}
use real_time_logistics_plat.Orders.References.{modify_first_same}
use real_time_logistics_plat.Orders.Dispatch.{set_driver}
use real_time_logistics_plat.Orders.Cases.Dispatch.{
  patch_status_cases, post_assign_cases, unassigned_world,
}
use real_time_logistics_plat.Orders.Cases.Delivery.{post_reject_cases, post_proof_cases}
use real_time_logistics_plat.Orders.Cases.Customer.{
  patch_reschedule_cases, post_cancel_cases, post_return_cases, patch_return_cases,
  post_verify_cases, post_demo_confirm_cases,
}
use real_time_logistics_plat.Orders.Choice.{Has, find-Has, choose-Has}
use real_time_logistics_plat.Orders.Payment.{Provider}
use real_time_logistics_plat.Orders.Calls.{
  Call, handle, creates, sets_status, assigns, accepts, rejects, proves, reschedules, cancels,
  asks_return, reviews_return, verifies_payment, confirms_demo,
}

-- No two drivers share an identifier or a user: the keys of the table of drivers.
abbrev pub DistinctDrivers : List Driver → Type 0
DistinctDrivers [] = Unit
DistinctDrivers (d ∷ ds) =
    All (λ e. (e.id ≢ d.id) × (e.user_id ≢ d.user_id)) ds × DistinctDrivers ds

Has-All : (P : Driver → Type 0) (ds : List Driver) (d : Driver) → Has d ds → All P ds → P d
Has-All P [] d m h = absurd m
Has-All P (e ∷ ds) d (inl same) h = subst P (sym same) h.0
Has-All P (e ∷ ds) d (inr m) h = Has-All P ds d m h.1

module _ (d : Driver) where
  -- Among distinct drivers a driver is the first with its identifier.
  find_self : (ds : List Driver) → DistinctDrivers ds → Has d ds → find (has_id d.id) ds ≡ some d
  unfolding find
  find_self [] u m = absurd m
  find_self (e ∷ ds) u (inl same) = ground (arith, eq_refl d.id, ap (λ x. x.id) same)
  find_self (e ∷ ds) u (inr m) =
      ground (arith, eq_iff e.id d.id, (Has-All _ ds d m u.0).0, find_self ds u.1 m)

  -- The driver that `transition` freed, restored through the user's profile.
  restore_released :
      (user_id : String) (ds : List Driver)
      → DistinctDrivers ds
      → find (owns_profile user_id) ds ≡ some d
      → modify_first (owns_profile user_id) (λ _. d) (modify_first (has_id d.id) release ds) ≡ ds
  unfolding find modify_first
  restore_released user_id [] u e = refl
  restore_released user_id (x ∷ ds) u e = elim (Bool-cases (owns_profile user_id x)) [
    | inl h ↦ let same : x ≡ d = ground arith in ground (arith, ap (λ y. y.id) same, eq_refl d.id)
    | inr h ↦
        let e' : find (owns_profile user_id) ds ≡ some d = ground arith in
        ground (
          arith,
          eq_iff x.id d.id,
          (Has-All _ ds d (find-Has (owns_profile user_id) ds d e') u.0).0,
          restore_released user_id ds u.1 e',
        )
  ]

-- The requests whose handlers take a snapshot first and write it back in a `catch`.
abbrev pub takes_snapshot : Call → Bool
takes_snapshot (creates _ _) = false
takes_snapshot (accepts _) = false
takes_snapshot _ = true

module _ (ctx : Context) (actor : User) (w : World) (lost : ctx.persisted ≡ false)
    (distinct : DistinctDrivers w.drivers) where
  -- A success is reached only where the transaction was committed.
  never {ℓ} : {A : Type ℓ} → ctx.persisted ≡ true → A
  never p = cc (lost, p)

  chosen_same :
      (d : Driver)
      → Has d w.drivers
      → (set_driver (has_id d.id) d w ≡ w) × (unassigned_world d w ≡ w)
  unfolding set_driver
  chosen_same d m =
      let found = find_self d w.drivers distinct m in
      (
        ap (λ ds. record w { drivers = ds }) (modify_first_same (has_id d.id) w.drivers d found),
        ap (λ ds. record w { drivers = ds })
            (modify_first_undo (has_id d.id) (λ _. record d { status = busy }) w.drivers d found
              (eq_refl d.id)),
      )

  delivered_undone :
      (o : Order) (d : Driver)
      → profile_of actor w ≡ some d
      → o.assigned_driver_id ≡ some d.id
      → record w {
        drivers =
            modify_first
              (owns_profile actor.id)
              (λ _. d)
              (freed o.assigned_driver_id delivered w.drivers);
      }
        ≡ w
  unfolding freed profile_of
  delivered_undone o d e mine =
      ap (λ ds. record w { drivers = ds })
        (rw (mine, freed) (restore_released d actor.id w.drivers distinct e))

  -- When the database refuses the transaction, a status change, an assignment, a rejection, a
  -- proof of delivery, and each request of a customer or about a payment leaves the orders, the
  -- drivers and every other part of the state exactly as they were, provided that no two drivers
  -- share an identifier or a user.
  pub handle_atomic :
      (num : JsNumber) (env : Provider) (c : Call)
      → takes_snapshot c ≡ true
      → (handle num env ctx actor c w).0 ≡ w
  unfolding handle
  handle_atomic num env (creates body area) h = cc
  handle_atomic num env (sets_status id body) h =
      patch_status_cases (λ w'. w' ≡ w) ctx actor id w refl body (λ s o e n m p. never p)
  handle_atomic num env (assigns id driver_id) h =
      post_assign_cases (λ w'. w' ≡ w) ctx actor id w refl num driver_id
        (λ o d e c.
          let same = chosen_same d (choose-Has num actor.organization_id driver_id o w d c) in
          (same.0, same.1, λ s p. never p))
  handle_atomic num env (accepts id) h = cc
  handle_atomic num env (rejects id body) h =
      post_reject_cases (λ w'. w' ≡ w) ctx actor id w refl body (λ r o d e f m s p. never p)
  handle_atomic num env (proves id body) h =
      post_proof_cases (λ w'. w' ≡ w) ctx actor id w refl body
        (λ b o d e f mine s v. (delivered_undone o d f mine, λ p. never p))
  handle_atomic num env (reschedules id body) h =
      patch_reschedule_cases (λ w'. w' ≡ w) ctx actor id w refl body (λ b o e l c p. never p)
  handle_atomic num env (cancels id) h =
      post_cancel_cases (λ w'. w' ≡ w) ctx actor id w refl (λ o e c p. never p)
  handle_atomic num env (asks_return id body) h =
      post_return_cases (λ w'. w' ≡ w) ctx actor id w refl body (λ r o e s n p. never p)
  handle_atomic num env (reviews_return id body) h =
      patch_return_cases (λ w'. w' ≡ w) ctx actor id w refl body (λ v n o e s p. never p)
  handle_atomic num env (verifies_payment id body) h =
      post_verify_cases (λ w'. w' ≡ w) ctx actor id w refl env body (λ b o e u v p. never p)
  handle_atomic num env (confirms_demo id) h =
      post_demo_confirm_cases (λ w'. w' ≡ w) ctx actor id w refl env (λ o e d u p. never p)
