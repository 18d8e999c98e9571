-- ===== src/RouteRuns/Revisions.antt =====
-- What a new status keeps of a route run, apps/api/src/services/routeRuns.ts.
use real_time_logistics_plat.Common.{
  ℕ, ◌≤◌, String, Option, some, ◌≡◌, refl, sym, ◌∙◌, subst, arith, find, Grows, modify_first-Grows,
}
use real_time_logistics_plat.Geo.{JsNumber}
use real_time_logistics_plat.Store.{Context}
use real_time_logistics_plat.RouteRuns.{
  RouteRunStatus, RouteRun, Fleet, get_route_run, has_run_id, set_run, with_status, publication,
}

module _ (num : JsNumber) where
  -- What a run keeps, and that its version tells its states apart.
  pub record Revises (r r' : RouteRun num) : Type 0 where
    pub same_id : r'.id ≡ r.id
    pub same_tenant : r'.organization_id ≡ r.organization_id
    pub same_driver : r'.driver_id ≡ r.driver_id
    pub same_orders : r'.order_ids ≡ r.order_ids
    pub same_stops : r'.stops ≡ r.stops
    pub newer : r.version ≤ r'.version
    pub unchanged : r'.version ≡ r.version → r' ≡ r
    pub once : (t : ℕ) → r.published_at ≡ some t → r'.published_at ≡ some t

  pub Revises-refl : (r : RouteRun num) → Revises r r
  Revises-refl r = record {
    same_id = refl;
    same_tenant = refl;
    same_driver = refl;
    same_orders = refl;
    same_stops = refl;
    newer = omega arith;
    unchanged = λ _. refl;
    once = λ t h. h;
  }

  pub Revises-trans : (a b c : RouteRun num) → Revises a b → Revises b c → Revises a c
  Revises-trans a b c p q =
      let m = p.newer in
      let n = q.newer in
      record {
        same_id = q.same_id ∙ p.same_id;
        same_tenant = q.same_tenant ∙ p.same_tenant;
        same_driver = q.same_driver ∙ p.same_driver;
        same_orders = q.same_orders ∙ p.same_orders;
        same_stops = q.same_stops ∙ p.same_stops;
        newer = omega arith;
        unchanged = λ e. q.unchanged (omega arith) ∙ p.unchanged (omega arith);
        once = λ t h. q.once t (p.once t h);
      }

  publication_once :
      (status : RouteRunStatus) (old : Option ℕ) (now t : ℕ)
      → old ≡ some t
      → publication num status old now ≡ some t
  publication_once status old now t h = ground arith

  with_status-Revises :
      (ctx : Context) (r : RouteRun num) (status : RouteRunStatus)
      → Revises r (with_status num ctx r status)
  unfolding with_status
  with_status-Revises ctx r status = record {
    same_id = refl;
    same_tenant = refl;
    same_driver = refl;
    same_orders = refl;
    same_stops = refl;
    newer = omega arith;
    unchanged = λ e. absurd (omega arith);
    once = λ t h. publication_once status r.published_at ctx.now t h;
  }

  pub get_route_run-find :
      (tenant id : String) (f : Fleet num) (run : RouteRun num)
      → get_route_run num tenant id f ≡ some run
      → find (has_run_id num id) f.runs ≡ some run
  unfolding get_route_run
  get_route_run-find tenant id f run e = ground arith

  pub set_run-Grows :
      (ctx : Context) (tenant id : String) (status : RouteRunStatus) (f : Fleet num)
      (run : RouteRun num)
      → get_route_run num tenant id f ≡ some run
      → Grows Revises f.runs (set_run num id (with_status num ctx run status) f).runs
  unfolding set_run
  set_run-Grows ctx tenant id status f run e =
      modify_first-Grows Revises Revises-refl (has_run_id num id) _ f.runs (λ x m.
        let same : x ≡ run = cc (m, get_route_run-find tenant id f run e) in
        subst (λ y. Revises y (with_status num ctx run status)) (sym same)
          (with_status-Revises ctx run status))
