-- ===== src/RouteRuns/Versions.antt =====
-- The versions of route runs, apps/api/src/services/routeRuns.ts, over any sequence of requests.
use real_time_logistics_plat.Common.{
  ℕ, String, Bool, true, false, not, ◌&&◌, Option, none, some, List, [], ◌∷◌, ◌≡◌, refl, inl, inr,
  find, any, if◌then◌else◌, Bool-cases, Option-cases, Grows, Grows-refl, Grows-same, Grows-trans,
}
use real_time_logistics_plat.Model.{User, Driver, Order, is_driver}
use real_time_logistics_plat.Geo.{JsNumber}
use real_time_logistics_plat.Store.{Context}
use real_time_logistics_plat.Api.{is_operator, is_staff}
use real_time_logistics_plat.Optimizer.Simulation.{RoutePlan}
use real_time_logistics_plat.RouteRuns.{
  published, is_draft, RouteRun, Fleet, Saves, RunMove, target, get_route_run, set_run, finish_run,
  change_run, move_run, patch_run_status, create_route_run, update_route_run_status, is_stale,
  is_own_run, is_cancel,
}
use real_time_logistics_plat.RouteRuns.Publish.{
  publish_run, publish_selected, select, is_taken, is_run_driver, book_all,
}
use real_time_logistics_plat.RouteRuns.Revisions.{
  Revises, Revises-refl, Revises-trans, set_run-Grows,
}

module _ (num : JsNumber) where
  abbrev Revised : RouteRun num → RouteRun num → Type 0
  Revised = Revises num

  module _ (ctx : Context) (saves : Saves num) (actor : User) (id : String) (f : Fleet num) where
    -- What a handler has to show: it leaves the runs, or gives one of them a new status.
    abbrev Kept : Fleet num → Type 0
    Kept f' = Grows Revised f.runs f'.runs

    kept : Kept f
    kept = Grows-same Revised (Revises-refl num) f.runs

    if_kept {ℓ} :
        {B : Type ℓ} (b : Bool) (x y : Fleet num × B)
        → Kept x.0
        → (b ≡ false → Kept y.0)
        → Kept (if b then x else y).0
    if_kept true x y h k = h
    if_kept false x y h k = k refl

    change_run-Grows :
        (run : RouteRun num) (move : RunMove) (version : Option ℕ)
        → get_route_run num actor.organization_id id f ≡ some run
        → Kept (change_run num ctx saves actor id run move version f).0
    unfolding change_run update_route_run_status finish_run set_run
    change_run-Grows run move version e =
        let grown = set_run-Grows num ctx actor.organization_id id (target move) f run e in
        elim (Bool-cases (is_stale num run version)) [
          | inl s ↦ rw (s, update_route_run_status, change_run) kept
          | inr s ↦
              rw (s, update_route_run_status, change_run)
                (if_kept saves.run_saved _ _ grown (λ _. grown))
        ]

    move_run-Grows :
        (run : RouteRun num) (body : Option (RunMove × Option ℕ))
        → get_route_run num actor.organization_id id f ≡ some run
        → Kept (move_run num ctx saves actor id run body f).0
    unfolding move_run
    move_run-Grows run none e = kept
    move_run-Grows run (some (move, version)) e =
        if_kept (is_driver actor.role && is_cancel move) _ _ kept
          (λ _. change_run-Grows run move version e)

    patch_run_status-Grows :
        (body : Option (RunMove × Option ℕ))
        → Kept (patch_run_status num ctx saves actor id body f).0
    unfolding patch_run_status
    patch_run_status-Grows body =
        if_kept (is_staff actor.role) _ _
          (elim (Option-cases (get_route_run num actor.organization_id id f)) [
            | inl e ↦ rw (e, patch_run_status) kept
            | inr (run, e) ↦
                rw (e, patch_run_status)
                  (if_kept (is_driver actor.role && not (is_own_run num actor run f.world)) _ _ kept
                    (λ _. move_run-Grows run body e))
          ])
          (λ _. kept)

    publish_selected-Grows :
        (run : RouteRun num) (d : Driver) (selected : List Order)
        → get_route_run num actor.organization_id id f ≡ some run
        → Kept (publish_selected num ctx saves actor id run d selected f).0
    unfolding publish_selected finish_run set_run
    publish_selected-Grows run d selected e =
        let p = is_run_driver actor.organization_id run.driver_id f.world in
        let grown = set_run-Grows num ctx actor.organization_id id published f run e in
        elim (Option-cases (book_all ctx saves.order_saved actor p 0 run.order_ids f.world).1) [
          | inl h ↦ rw (h, publish_selected) (if_kept saves.run_saved _ _ grown (λ _. grown))
          | inr ((code, message), h) ↦ rw (h, publish_selected) kept
        ]

    publish_run-Grows : Kept (publish_run num ctx saves actor id f).0
    unfolding publish_run
    publish_run-Grows =
        if_kept (is_operator actor.role) _ _
          (elim (Option-cases (get_route_run num actor.organization_id id f)) [
            | inl e ↦ rw (e, publish_run) kept
            | inr (run, e) ↦
                rw (e, publish_run)
                  (if_kept (is_draft run.status) _ _
                    (elim (Option-cases (
                      find (is_run_driver actor.organization_id run.driver_id f.world)
                        f.world.drivers)) [
                          | inl h ↦ rw (h, publish_run) kept
                          | inr (d, h) ↦
                              rw (h, publish_run)
                                (elim (Option-cases
                                  (select actor.organization_id run.order_ids f.world)) [
                                    | inl g ↦ rw (g, publish_run) kept
                                    | inr (os, g) ↦
                                        rw (g, publish_run)
                                          (if_kept (any (is_taken d.id) os) _ _ kept
                                            (λ _. publish_selected-Grows run d os e))
                                  ])
                        ])
                    (λ _. kept))
          ])
          (λ _. kept)

  -- The requests that change the runs.
  pub data RunCall : Type 0 where
    creates : Driver → List String → RoutePlan num → RunCall
    publishes : String → RunCall
    moves_run : String → Option (RunMove × Option ℕ) → RunCall

  unfoldable pub handle_run : Context → Saves num → User → RunCall → Fleet num → Fleet num
  unfolding create_route_run publish_run patch_run_status
  handle_run ctx saves actor (creates d ids plan) f =
      (create_route_run num ctx saves actor d ids plan f).0
  handle_run ctx saves actor (publishes id) f = (publish_run num ctx saves actor id f).0
  handle_run ctx saves actor (moves_run id body) f =
      (patch_run_status num ctx saves actor id body f).0

  unfoldable pub run_all : List (Context × Saves num × User × RunCall) → Fleet num → Fleet num
  unfolding handle_run
  run_all [] f = f
  run_all ((ctx, saves, actor, c) ∷ rest) f = run_all rest (handle_run ctx saves actor c f)

  handle_run-Grows :
      (ctx : Context) (saves : Saves num) (actor : User) (c : RunCall) (f : Fleet num)
      → Grows Revised f.runs (handle_run ctx saves actor c f).runs
  unfolding handle_run create_route_run
  handle_run-Grows ctx saves actor (creates d ids plan) f =
      Grows-refl Revised (Revises-refl num) f.runs _
  handle_run-Grows ctx saves actor (publishes id) f = publish_run-Grows ctx saves actor id f
  handle_run-Grows ctx saves actor (moves_run id body) f =
      patch_run_status-Grows ctx saves actor id f body

  -- Over any sequence of creations, publications and status changes, whatever the database
  -- answers, no run is lost or moved in the list; each keeps its driver, orders and stops and its
  -- first time of publication; its version never falls, and a version that is the same again means
  -- that the run is the same in every field.
  pub run_all-Grows :
      (calls : List (Context × Saves num × User × RunCall)) (f : Fleet num)
      → Grows Revised f.runs (run_all calls f).runs
  unfolding run_all
  run_all-Grows [] f = Grows-same Revised (Revises-refl num) f.runs
  run_all-Grows ((ctx, saves, actor, c) ∷ rest) f =
      Grows-trans Revised (Revises-refl num) (Revises-trans num) f.runs
        (handle_run ctx saves actor c f).runs _ (handle_run-Grows ctx saves actor c f)
        (run_all-Grows rest _)
