-- ===== src/RouteRuns/Conflicts.antt =====
-- The optimistic lock of PATCH /api/route-runs/:id/status, apps/api/src/app.ts.
use real_time_logistics_plat.Common.{
  ℕ, String, true, false, not, ◌&&◌, some, List, [], ◌∷◌, ◌≡◌, ◌≢◌, refl, ap, ◌∙◌, inl, inr, arith,
  ◌==◌, find, if◌then◌else◌, Bool-cases, Grows,
}
use real_time_logistics_plat.Model.{User, is_driver}
use real_time_logistics_plat.Geo.{JsNumber}
use real_time_logistics_plat.Store.{Context}
use real_time_logistics_plat.Api.{is_staff}
use real_time_logistics_plat.RouteRuns.{
  RouteRun, Fleet, Saves, RunMove, get_route_run, has_run_id, change_run, move_run,
  patch_run_status, update_route_run_status, is_stale, is_own_run, is_cancel,
}
use real_time_logistics_plat.RouteRuns.Revisions.{Revises, get_route_run-find}
use real_time_logistics_plat.RouteRuns.Versions.{RunCall, run_all, run_all-Grows}

module _ (num : JsNumber) where
  -- The run with an identifier stays the run with that identifier.
  find-Revises :
      (id : String) (xs ys : List (RouteRun num)) (r r' : RouteRun num)
      → Grows (Revises num) xs ys
      → find (has_run_id num id) xs ≡ some r
      → find (has_run_id num id) ys ≡ some r'
      → Revises num r r'
  unfolding find
  find-Revises id [] ys r r' g e e' = cc
  find-Revises id (x ∷ xs) [] r r' g e e' = absurd g
  find-Revises id (x ∷ xs) (y ∷ ys) r r' g e e' = elim (Bool-cases (has_run_id num id x)) [
    | inl h ↦
        let h' : has_run_id num id y ≡ true = ap (λ i. i == id) g.0.same_id ∙ h in
        let p : x ≡ r = cc (e, ap (λ b. if b then some x else find (has_run_id num id) xs) h) in
        let q : y ≡ r' = cc (e', ap (λ b. if b then some y else find (has_run_id num id) ys) h') in
        rw (p, q) at g.0
    | inr h ↦
        let h' : has_run_id num id y ≡ false = ap (λ i. i == id) g.0.same_id ∙ h in
        find-Revises id xs ys r r' g.1 (rw (h, find) at e) (rw (h', find) at e')
  ]

  module _ (ctx : Context) (saves : Saves num) (actor : User) (id : String) (f : Fleet num) where
    stale_move :
        (run : RouteRun num) (move : RunMove) (v : ℕ)
        → run.version ≢ v
        → (move_run num ctx saves actor id run (some (move, some v)) f).0 ≡ f
    unfolding move_run change_run update_route_run_status
    stale_move run move v n = elim (Bool-cases (is_driver actor.role && is_cancel move)) [
      | inl e ↦ rw (e, move_run) refl
      | inr e ↦
          let s : is_stale num run (some v) ≡ true = ground arith in
          rw (e, s, update_route_run_status, change_run, move_run) refl
    ]

    patch_run_status_stale :
        (run : RouteRun num) (move : RunMove) (v : ℕ)
        → get_route_run num actor.organization_id id f ≡ some run
        → run.version ≢ v
        → (patch_run_status num ctx saves actor id (some (move, some v)) f).0 ≡ f
    unfolding patch_run_status
    patch_run_status_stale run move v e n = elim (Bool-cases (is_staff actor.role)) [
      | inr s ↦ rw (s, patch_run_status) refl
      | inl s ↦ elim (Bool-cases (is_driver actor.role && not (is_own_run num actor run f.world))) [
        | inl o ↦ rw (s, e, o, patch_run_status) refl
        | inr o ↦ rw (s, e, o, patch_run_status) (stale_move run move v n)
      ]
    ]

  -- No update is lost: a status change that names the version a run had when it was read leaves
  -- everything as it is, if any of the requests handled since then changed the run.
  pub patch_run_status-run_all :
      (calls : List (Context × Saves num × User × RunCall num)) (f : Fleet num) (ctx : Context)
      (saves : Saves num) (actor : User) (id : String) (move : RunMove) (seen now : RouteRun num)
      → get_route_run num actor.organization_id id f ≡ some seen
      → get_route_run num actor.organization_id id (run_all num calls f) ≡ some now
      → now ≢ seen
      → (patch_run_status num ctx saves actor id
          (some (move, some seen.version))
          (run_all num calls f)).0
        ≡ run_all num calls f
  patch_run_status-run_all calls f ctx saves actor id move seen now e e' n =
      let revised =
        find-Revises id f.runs (run_all num calls f).runs seen now (run_all-Grows num calls f)
          (get_route_run-find num actor.organization_id id f seen e)
          (get_route_run-find num actor.organization_id id (run_all num calls f) now e') in
      patch_run_status_stale ctx saves actor id (run_all num calls f) now move seen.version e'
        (λ same. n (revised.unchanged same))
