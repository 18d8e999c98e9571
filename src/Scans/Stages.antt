-- ===== src/Scans/Stages.antt =====
-- The scans of a parcel over any sequence of requests: POST /api/orders/:id/scans,
-- apps/api/src/app.ts.
use real_time_logistics_plat.Common.{
  String, Bool, true, false, not, ◌&&◌, Option, none, some, List, [], ◌∷◌, ◌≡◌, refl, sym, subst,
  inl, inr, find, All, if◌then◌else◌, includes, Bool-cases, Option-cases,
}
use real_time_logistics_plat.Model.{User, Order, ParcelScan, ParcelScanStage, is_driver}
use real_time_logistics_plat.Store.{World, Context, is_order, get_order, set_order}
use real_time_logistics_plat.Api.{is_staff, is_assignee, audit}
use real_time_logistics_plat.Orders.References.{set_order_undo, get_order_holds}
use real_time_logistics_plat.Scans.{
  ScanInput, ScanResponse, is_scan, new_scan, scanned_order, expected_codes, record_scan,
  scan_order, post_scan,
}

find-All_not :
    (p : ParcelScan → Bool) (xs : List ParcelScan) → find p xs ≡ none → All (λ x. p x ≡ false) xs
unfolding find
find-All_not p [] h = tt
find-All_not p (x ∷ xs) h = elim (Bool-cases (p x)) [
  | inl e ↦ cc (rw (e, find) at h)
  | inr e ↦ (e, find-All_not p xs (rw (e, find) at h))
]

-- No two scans are of one order at one stage.
abbrev pub DistinctScans : List ParcelScan → Type 0
DistinctScans [] = Unit
DistinctScans (s ∷ ss) = All (λ t. is_scan s.order_id s.stage t ≡ false) ss × DistinctScans ss

-- The state after a scan that was persisted.
abbrev recorded_world : Context → User → String → Order → ScanInput → World → World
recorded_world ctx actor id o b w =
    audit ctx actor "parcel.scanned" "order" o.id
      (record (set_order id actor.organization_id (scanned_order ctx actor b.stage o) w) {
        parcel_scans = new_scan ctx actor o b ∷ w.parcel_scans;
      })

is_order-scanned_order :
    (ctx : Context) (actor : User) (stage : ParcelScanStage) (id tenant : String) (o : Order)
    → is_order id tenant o ≡ true
    → is_order id tenant (scanned_order ctx actor stage o) ≡ true
unfolding scanned_order
is_order-scanned_order ctx actor stage id tenant o h = h

module _ (P : World → Type 0) (ctx : Context) (actor : User) (id : String) (w : World)
    (kept : P w) where
  if_kept : (b : Bool) (x y : World × ScanResponse) → P x.0 → P y.0 → P (if b then x else y).0
  if_kept true x y h k = h
  if_kept false x y h k = k

  record_scan_cases :
      (o : Order) (b : ScanInput)
      → get_order id actor.organization_id w ≡ some o
      → (ctx.persisted ≡ true → P (recorded_world ctx actor id o b w))
      → P (record_scan ctx actor id o b w).0
  unfolding record_scan set_order get_order
  record_scan_cases o b e k = elim (Bool-cases ctx.persisted) [
    | inl p ↦ rw (p, record_scan) (k p)
    | inr p ↦
        rw (p, record_scan)
          (subst P
            (sym (
              set_order_undo id actor.organization_id o (scanned_order ctx actor b.stage o) w e (
                is_order-scanned_order ctx actor b.stage id actor.organization_id o
                  (get_order_holds id actor.organization_id o w e))))
            kept)
  ]

  pub post_scan_cases :
      (body : Option ScanInput)
      → ((o : Order) (b : ScanInput)
          → find (is_scan o.id b.stage) w.parcel_scans ≡ none
          → ctx.persisted ≡ true
          → P (recorded_world ctx actor id o b w))
      → P (post_scan ctx actor id body w).0
  unfolding post_scan scan_order
  post_scan_cases none each = if_kept (is_staff actor.role) _ _ kept kept
  post_scan_cases (some b) each =
      if_kept (is_staff actor.role) _ _
        (elim (Option-cases (get_order id actor.organization_id w)) [
          | inl e ↦ rw (e, post_scan) kept
          | inr (o, e) ↦
              rw (e, post_scan)
                (if_kept (is_driver actor.role && not (is_assignee actor o w)) _ _ kept (
                  if_kept (includes (expected_codes ctx o) (ctx.lower b.parcel_code)) _ _
                    (elim (Option-cases (find (is_scan o.id b.stage) w.parcel_scans)) [
                      | inr (s, f) ↦ rw (f, scan_order) kept
                      | inl f ↦ rw (f, scan_order) (record_scan_cases o b e (each o b f))
                    ])
                    kept))
        ])
        kept

unfoldable pub scan_all : List (Context × User × String × Option ScanInput) → World → World
unfolding post_scan
scan_all [] w = w
scan_all ((ctx, actor, id, body) ∷ rest) w = scan_all rest (post_scan ctx actor id body w).0

-- Over any sequence of scan requests, repeated ones and failed ones included, no order gets two
-- scans at one stage.
pub scan_all-DistinctScans :
    (requests : List (Context × User × String × Option ScanInput)) (w : World)
    → DistinctScans w.parcel_scans
    → DistinctScans (scan_all requests w).parcel_scans
unfolding scan_all new_scan
scan_all-DistinctScans [] w h = h
scan_all-DistinctScans ((ctx, actor, id, body) ∷ rest) w h =
    scan_all-DistinctScans rest (post_scan ctx actor id body w).0 (
      post_scan_cases (λ v. DistinctScans v.parcel_scans) ctx actor id w h body
        (λ o b f p. (find-All_not (is_scan o.id b.stage) w.parcel_scans f, h)))

-- A scan whose transaction the database refuses leaves the scans, the order and everything else
-- exactly as they were.
pub post_scan_atomic :
    (ctx : Context) (actor : User) (id : String) (body : Option ScanInput) (w : World)
    → ctx.persisted ≡ false
    → (post_scan ctx actor id body w).0 ≡ w
post_scan_atomic ctx actor id body w lost =
    post_scan_cases (λ v. v ≡ w) ctx actor id w refl body (λ o b f p. cc (lost, p))
