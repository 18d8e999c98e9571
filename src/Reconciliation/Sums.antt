-- ===== src/Reconciliation/Sums.antt =====
-- The counts and sums of a reconciliation: apps/api/src/services/reconciliation.ts.
use mathlib.Core.List.{Permᴰ}
use mathlib.Core.List.Permᴰ
use real_time_logistics_plat.Common.{Bool, true, false, List, ◌++◌, ◌≡◌, ◌⊎◌, All, length}
use real_time_logistics_plat.Model.{PaymentStatus, unpaid, paid}
use real_time_logistics_plat.Geo.{JsNumber}
use real_time_logistics_plat.Reconciliation.{ReconciliationRow, total, ReconciliationSummary}

-- Exactly one of three tests holds.
abbrev IsOneOfThree : Bool → Bool → Bool → Type 0
IsOneOfThree p q r =
    ((p ≡ true) × (q ≡ false) × (r ≡ false))
    ⊎ ((p ≡ false) × (q ≡ true) × (r ≡ false))
    ⊎ ((p ≡ false) × (q ≡ false) × (r ≡ true))

module _ (num : JsNumber) where
  -- The rows are split by their orders' payment, and each part is counted and added up.
  pub record IsSplit (s : ReconciliationSummary num) : Type 0 where
    pub captured : List (ReconciliationRow num)
    pub outstanding : List (ReconciliationRow num)
    pub failed : List (ReconciliationRow num)
    pub all_rows : Permᴰ (captured ++ (outstanding ++ failed)) s.rows
    pub are_paid : All (λ r. r.order_payment_status ≡ paid) captured
    pub are_open :
        All
          (λ r.
            (r.order_payment_status ≡ unpaid) ⊎ (r.order_payment_status ≡ PaymentStatus.pending))
          outstanding
    pub are_failed : All (λ r. r.order_payment_status ≡ PaymentStatus.failed) failed
    pub counts :
        (s.captured_count ≡ length captured)
        × (s.outstanding_count ≡ length outstanding)
        × (s.failed_count ≡ length failed)
        × (s.order_count ≡ length s.rows)
    pub amounts :
        (s.captured_amount ≡ total num (num.of_ℕ 0) captured)
        × (s.outstanding_amount ≡ total num (num.of_ℕ 0) outstanding)
        × (s.failed_amount ≡ total num (num.of_ℕ 0) failed)
