-- ===== src/Tests/Tracking.antt =====
-- The theorems on positions and scans, at the small store.
use real_time_logistics_plat.Common.{
  ℕ, String, Bool, true, false, Option, some, List, [], ◌∷◌, ◌≡◌, refl, arith, All, Pointwise,
}
use real_time_logistics_plat.Model.{User, hub}
use real_time_logistics_plat.Store.{Context}
use real_time_logistics_plat.Tracking.{LocationInput, at_pickup, at_dropoff}
use real_time_logistics_plat.Tracking.Fences.{IsFenced, IsFencedOrder}
use real_time_logistics_plat.Tracking.Fixes.{
  locate_all, locate_all-IsFencedOrder, LaterFix, locate_all-LaterFix,
}
use real_time_logistics_plat.Scans.{ScanInput, post_scan}
use real_time_logistics_plat.Scans.Stages.{
  DistinctScans, scan_all, scan_all-DistinctScans, post_scan_atomic,
}
use real_time_logistics_plat.Tests.Data.{whole, world, request, courier, clerk, place}

abbrev fix : ℕ → ℕ → Context × (ℕ → Bool) × User × String × Option LocationInput
fix x at = (
  request true,
  λ i. true,
  courier,
  "d1",
  some (record { location = place x 0; recorded_at = some at }),
)

-- To the pickup, a late report from elsewhere, and away from the pickup.
abbrev fixes : List (Context × (ℕ → Bool) × User × String × Option LocationInput)
fixes = fix 2 5 ∷ fix 90 3 ∷ fix 40 6 ∷ []

no_events : IsFenced at_pickup [] × IsFenced at_dropoff []
no_events = ((omega arith, omega arith), (omega arith, omega arith))

world-IsFencedOrder : All IsFencedOrder world.orders
world-IsFencedOrder = (no_events, (no_events, (no_events, (no_events, tt))))

locate_all-IsFencedOrder_example : All IsFencedOrder (locate_all whole fixes world).orders
locate_all-IsFencedOrder_example = locate_all-IsFencedOrder whole fixes world world-IsFencedOrder

locate_all-LaterFix_example :
    Pointwise (LaterFix whole) world.drivers (locate_all whole fixes world).drivers
locate_all-LaterFix_example = locate_all-LaterFix whole fixes world

abbrev scan : ScanInput
scan = record { parcel_code = "o1"; stage = hub }

abbrev requests : List (Context × User × String × Option ScanInput)
requests = (request true, courier, "o1", some scan) ∷ (request true, clerk, "o1", some scan) ∷ []

scan_all-DistinctScans_example : DistinctScans (scan_all requests world).parcel_scans
scan_all-DistinctScans_example = scan_all-DistinctScans requests world tt

post_scan_atomic_example : (post_scan (request false) courier "o1" (some scan) world).0 ≡ world
post_scan_atomic_example = post_scan_atomic (request false) courier "o1" (some scan) world refl
