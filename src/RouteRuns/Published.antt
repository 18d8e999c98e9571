-- ===== src/RouteRuns/Published.antt =====
-- What an accepted publication promises: POST /api/route-runs/:id/publish, apps/api/src/app.ts.
use real_time_logistics_plat.Common.{
  String, Bool, true, false, some, List, ◌≡◌, refl, inl, inr, arith, eq_iff, All, Pointwise, find,
  any, if◌then◌else◌, Bool-cases, Option-cases, ap, ◌∙◌, ◌==◌, subst, some_inj, find_holds,
  find-modify_first,
}
use real_time_logistics_plat.Model.{User, Driver, Order}
use real_time_logistics_plat.Geo.{JsNumber}
use real_time_logistics_plat.Store.{World, Context}
use real_time_logistics_plat.Api.{is_operator, audit}
use real_time_logistics_plat.RouteRuns.{
  RouteRunStatus, published, draft, is_draft, RouteRun, Fleet, Saves, RunResponse, accepted,
  refused, internal_error, get_route_run, set_run, has_run_id, with_status, finish_run,
}
use real_time_logistics_plat.RouteRuns.Publish.{
  book_all, is_run_driver, select, is_taken, publish_selected, publish_run,
}
use real_time_logistics_plat.RouteRuns.Booking.{Booked, IsHandled, book_all_lem}

is_run_driver_named :
    (tenant driver_id : String) (w : World) (d : Driver)
    → is_run_driver tenant driver_id w d ≡ true
    → d.id ≡ driver_id
is_run_driver_named tenant driver_id w d h = ground (arith, eq_iff d.id driver_id)

is_draft_holds : (s : RouteRunStatus) → is_draft s ≡ true → s ≡ draft
is_draft_holds s h = ground arith

-- The run that is written back through the reference to it is the one that is read next.
module _ (num : JsNumber) (tenant id : String) (f : Fleet num) (run : RouteRun num) where
  get_route_run-find :
      get_route_run num tenant id f ≡ some run
      → (find (has_run_id num id) f.runs ≡ some run) × ((run.organization_id == tenant) ≡ true)
  unfolding get_route_run
  get_route_run-find e = elim (Option-cases (find (has_run_id num id) f.runs)) [
    | inl h ↦ absurd (cc (rw (h, get_route_run) at e))
    | inr (x, h) ↦ elim (Bool-cases (x.organization_id == tenant)) [
      | inr k ↦ absurd (cc (rw (h, k, get_route_run) at e))
      | inl k ↦
          let same : x ≡ run = some_inj x run (rw (h, k, get_route_run) at e) in
          (
            h ∙ ap some same,
            subst (λ (r : RouteRun num). (r.organization_id == tenant) ≡ true) same k,
          )
    ]
  ]

  set_run-get_route_run :
      (run' : RouteRun num)
      → run'.id ≡ run.id
      → run'.organization_id ≡ run.organization_id
      → get_route_run num tenant id f ≡ some run
      → get_route_run num tenant id (set_run num id run' f) ≡ some run'
  unfolding get_route_run set_run
  set_run-get_route_run run' named owned e =
      let (found, own) = get_route_run-find e in
      let hit = find_holds (has_run_id num id) f.runs run found in
      let kept : (run'.organization_id == tenant) ≡ true = rw owned own in
      let read =
        find-modify_first (has_run_id num id) (λ _. run') f.runs run found (rw named hit) in
      rw (read, get_route_run) (rw kept refl)

module _ (num : JsNumber) (ctx : Context) (saves : Saves num) (actor : User) (id : String)
    (f : Fleet num) where
  -- The answer is a refusal, or the state is what an accepted publication of the run leaves.
  abbrev pub Publishes : RouteRun num → Fleet num × RunResponse num → Type 0
  Publishes run (f', refused code message) = Unit
  Publishes run (f', accepted run') =
      (run.status ≡ draft)
      × (run'.status ≡ published)
      × (get_route_run num actor.organization_id id f' ≡ some run')
      × Pointwise (Booked run.driver_id) f.world.orders f'.world.orders
      × All (λ o. IsHandled actor.organization_id o f'.world) run.order_ids

  if_Publishes :
      (run : RouteRun num) (b : Bool) (x y : Fleet num × RunResponse num)
      → (b ≡ true → Publishes run x)
      → (b ≡ false → Publishes run y)
      → Publishes run (if b then x else y)
  if_Publishes run true x y h k = h refl
  if_Publishes run false x y h k = k refl

  answered :
      (run : RouteRun num) (b : Bool) (f' : Fleet num) (run' : RouteRun num)
      → Publishes run (f', accepted run')
      → Publishes run (f', if b then accepted run' else internal_error num)
  answered run true f' run' h = h
  answered run false f' run' h = tt

  publish_selected-Publishes :
      (run : RouteRun num) (d : Driver) (selected : List Order)
      → run.status ≡ draft
      → get_route_run num actor.organization_id id f ≡ some run
      → Publishes run (publish_selected num ctx saves actor id run d selected f)
  unfolding publish_selected finish_run set_run with_status get_route_run
  publish_selected-Publishes run d selected is e =
      let p = is_run_driver actor.organization_id run.driver_id f.world in
      let (booked, handled) =
        book_all_lem actor p run.driver_id
          (is_run_driver_named actor.organization_id run.driver_id f.world) ctx saves.order_saved 0
          run.order_ids f.world in
      let run' = with_status num ctx run published in
      let stored = set_run-get_route_run num actor.organization_id id f run run' refl refl e in
      let out = book_all ctx saves.order_saved actor p 0 run.order_ids f.world in
      let done : Fleet num = record (set_run num id run' f) {
        world = audit ctx actor "route_run.published" "route_run" run'.id out.0;
      } in
      elim (Option-cases out.1) [
        | inr ((code, message), h) ↦ rw (h, publish_selected) tt
        | inl h ↦
            rw (h, publish_selected)
              (if_Publishes run saves.run_saved _ _
                (λ _. answered run ctx.audited done _ (is, refl, stored, booked, handled h))
                (λ _. tt))
      ]

  -- When a publication of a run is accepted, the run was a draft, it is published in the answer and
  -- the run that is read next is that one, each order of the store is as it was or was pending and
  -- is now assigned to the run's driver, and none of the run's orders is pending any more.
  pub publish_run-Publishes :
      (run : RouteRun num)
      → get_route_run num actor.organization_id id f ≡ some run
      → Publishes run (publish_run num ctx saves actor id f)
  unfolding publish_run
  publish_run-Publishes run e = elim (Bool-cases (is_operator actor.role)) [
    | inr a ↦ rw (a, publish_run) tt
    | inl a ↦ elim (Bool-cases (is_draft run.status)) [
      | inr b ↦ rw (a, e, b, publish_run) tt
      | inl b ↦
          elim (Option-cases
            (find (is_run_driver actor.organization_id run.driver_id f.world) f.world.drivers)) [
              | inl c ↦ rw (a, e, b, c, publish_run) tt
              | inr (d, c) ↦
                  elim (Option-cases (select actor.organization_id run.order_ids f.world)) [
                    | inl g ↦ rw (a, e, b, c, g, publish_run) tt
                    | inr (os, g) ↦
                        rw (a, e, b, c, g, publish_run)
                          (if_Publishes run (any (is_taken d.id) os) _ _ (λ _. tt)
                            (λ _.
                              publish_selected-Publishes run d os (is_draft_holds run.status b) e))
                  ]
            ]
    ]
  ]
