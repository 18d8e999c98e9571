-- ===== src/Scans.antt =====
-- POST /api/orders/:id/scans of apps/api/src/app.ts: a parcel is scanned once at each stage.
pub mod Stages
use real_time_logistics_plat.Common.{
  ℕ, String, concat, Bool, true, false, not, ◌&&◌, Option, none, some, List, [], ◌∷◌, ◌++◌, ◌==◌,
  find, if◌then◌else◌, includes,
}
use real_time_logistics_plat.Model.{
  User, Order, ParcelScan, ParcelScanStage, same_stage, stage_text, is_driver,
}
use real_time_logistics_plat.Store.{
  World, Context, get_order, set_order, event, append_event, or_else,
}
use real_time_logistics_plat.Api.{is_staff, is_assignee, audit}

pub record ScanInput : Type 0 where
  pub parcel_code : String
  pub stage : ParcelScanStage

pub data ScanResponse : Type 0 where
  scanned : ParcelScan → ScanResponse
  scanned_before : ParcelScan → ScanResponse
  refused : ℕ → String → ScanResponse

-- `[order.parcelCode, order.trackingCode].filter(Boolean).map(lower)`.
unfoldable pub expected_codes : Context → Order → List String
expected_codes ctx o = elim o.parcel_code [
  | none ↦ ctx.lower o.tracking_code ∷ []
  | some code ↦ ctx.lower code ∷ ctx.lower o.tracking_code ∷ []
]

abbrev pub is_scan : String → ParcelScanStage → ParcelScan → Bool
is_scan order_id stage s = s.order_id == order_id && same_stage s.stage stage

unfoldable pub new_scan : Context → User → Order → ScanInput → ParcelScan
new_scan ctx actor o b = record {
  id = ctx.uuid 3;
  organization_id = o.organization_id;
  order_id = o.id;
  parcel_code = or_else o.parcel_code b.parcel_code;
  stage = b.stage;
  scanned_by = actor.id;
  scanned_at = ctx.now;
}

unfoldable pub scanned_order : Context → User → ParcelScanStage → Order → Order
unfolding event
scanned_order ctx actor stage o =
    append_event
      (event ctx (concat "parcel_scanned_" (stage_text stage))
        (concat "Parcel scanned at " (stage_text stage)) (some actor.id))
      (record o { updated_at = ctx.now })

-- `parcelScans.splice(parcelScans.indexOf(scan), 1)`, of the scan just put in front.
abbrev pub tail : List ParcelScan → List ParcelScan
tail [] = []
tail (_ ∷ rest) = rest

-- From the new scan on.
unfoldable pub record_scan :
    Context → User → String → Order → ScanInput → World → World × ScanResponse
unfolding new_scan scanned_order set_order audit
record_scan ctx actor id o b w =
    let tenant = actor.organization_id in
    let scan = new_scan ctx actor o b in
    let w1 : World = record (set_order id tenant (scanned_order ctx actor b.stage o) w) {
      parcel_scans = scan ∷ w.parcel_scans;
    } in
    if ctx.persisted
    then (
      audit ctx actor "parcel.scanned" "order" o.id w1,
      if ctx.audited then scanned scan else refused 500 "Internal server error",
    )
    else (
      record (set_order id tenant o w1) { parcel_scans = tail w1.parcel_scans },
      refused 500 "Internal server error",
    )

-- The order is the user's to scan.
unfoldable pub scan_order :
    Context → User → String → Order → ScanInput → World → World × ScanResponse
unfolding expected_codes record_scan
scan_order ctx actor id o b w =
    if is_driver actor.role && not (is_assignee actor o w)
    then (w, refused 403 "Not your assignment")
    else if includes (expected_codes ctx o) (ctx.lower b.parcel_code)
    then elim (find (is_scan o.id b.stage) w.parcel_scans) [
      | some s ↦ (w, scanned_before s)
      | none ↦ record_scan ctx actor id o b w
    ]
    else (w, refused 400 "Parcel code does not match this order")

unfoldable pub post_scan : Context → User → String → Option ScanInput → World → World × ScanResponse
unfolding get_order scan_order
post_scan ctx actor id body w =
    if is_staff actor.role
    then elim body [
      | none ↦ (w, refused 400 "Validation failed")
      | some b ↦ elim (get_order id actor.organization_id w) [
        | none ↦ (w, refused 404 "Order not found")
        | some o ↦ scan_order ctx actor id o b w
      ]
    ]
    else (w, refused 403 "Insufficient permissions")
