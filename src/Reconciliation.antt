-- ===== src/Reconciliation.antt =====
-- The reconciliation of orders with the provider's payments: apps/api/src/services/
-- reconciliation.ts. The payments that the database answers are an argument, by order identifier.
pub mod Sums
pub mod Rows
use real_time_logistics_plat.Common.{
  ℕ, ◌+◌, ◌-◌, ◌*◌, String, Bool, true, false, not, ◌&&◌, ◌||◌, Option, none, some, List, [], ◌∷◌,
  ◌==◌, filter, map, length, includes, eqb, leb, ltb, if◌then◌else◌,
}
use real_time_logistics_plat.Geo.{JsNumber}
use real_time_logistics_plat.Model.{Order, PaymentStatus, unpaid, paid}
use real_time_logistics_plat.Store.{World, list_orders}
use real_time_logistics_plat.Orders.Payment.{Provider, is_demo_mode}

pub record ProviderPayment : Type 0 where
  pub order_id : String
  pub provider : String
  pub provider_ref : String
  pub amount_minor : ℕ
  pub currency : String
  pub status : String
  pub created_at : ℕ

pub data RowStatus : Type 0 where
  matched unpaid_order missing_record mismatch : RowStatus

pub record ReconciliationRow (num : JsNumber) : Type 0 where
  pub order_id : String
  pub tracking_code : String
  pub customer_name : String
  pub order_amount : num.Num
  pub currency : String
  pub order_payment_status : PaymentStatus
  pub payment : Option ProviderPayment
  pub status : RowStatus
  pub created_at : ℕ

-- What the service takes from other code: the mapping of texts to lower and to upper case, an
-- identifier's form in the database, and the newest payment of each order.
pub record Ledger : Type 0 where
  pub lower : String → String
  pub upper : String → String
  pub as_uuid : String → String
  pub payment_of : String → Option ProviderPayment

abbrev captured_statuses : List String
captured_statuses = "captured" ∷ "paid" ∷ "success" ∷ "succeeded" ∷ []

abbrev failed_statuses : List String
failed_statuses = "failed" ∷ "refunded" ∷ "cancelled" ∷ []

abbrev pub is_captured : Ledger → ProviderPayment → Bool
is_captured ledger p = includes captured_statuses (ledger.lower p.status)

abbrev pub is_failed : Ledger → ProviderPayment → Bool
is_failed ledger p = includes failed_statuses (ledger.lower p.status)

abbrev pub is_unpaid_status : PaymentStatus → Bool
is_unpaid_status unpaid = true
is_unpaid_status _ = false

abbrev pub is_paid_status : PaymentStatus → Bool
is_paid_status paid = true
is_paid_status _ = false

abbrev pub is_failed_status : PaymentStatus → Bool
is_failed_status PaymentStatus.failed = true
is_failed_status _ = false

abbrev pub is_outstanding_status : PaymentStatus → Bool
is_outstanding_status unpaid = true
is_outstanding_status PaymentStatus.pending = true
is_outstanding_status _ = false

-- `a !== b` on Booleans.
abbrev pub differ : Bool → Bool → Bool
differ true b = not b
differ false b = b

unfoldable pub row_status : Ledger → Order → Option ProviderPayment → RowStatus
row_status ledger o none =
    if is_unpaid_status o.payment_status then unpaid_order else missing_record
row_status ledger o (some p) =
    if differ (is_captured ledger p) (is_paid_status o.payment_status)
    then mismatch
    else if differ (is_failed ledger p) (is_failed_status o.payment_status)
    then mismatch
    else if not (eqb p.amount_minor o.amount)
        || not (ledger.upper p.currency == ledger.upper o.currency)
    then mismatch
    else matched

-- By the database's identifier, or else by the order's own.
unfoldable pub payment_for : Ledger → Order → Option ProviderPayment
payment_for ledger o = elim (ledger.payment_of (ledger.as_uuid o.id)) [
  | some p ↦ some p
  | none ↦ ledger.payment_of o.id
]

abbrev pub is_missing : RowStatus → Bool
is_missing missing_record = true
is_missing _ = false

abbrev pub is_mismatch : RowStatus → Bool
is_mismatch mismatch = true
is_mismatch _ = false

-- `Math.min(90, Math.max(1, days))`.
abbrev pub window_of : ℕ → ℕ
window_of days = if ltb days 1 then 1 else if ltb 90 days then 90 else days

unfoldable pub orders_between : ℕ → ℕ → String → World → List Order
unfolding list_orders filter
orders_between start end tenant w =
    filter (λ o. leb start o.created_at && leb o.created_at end) (list_orders tenant w)

module _ (num : JsNumber) where
  open num use {Num, of_ℕ, add, div}

  abbrev pub Row : Type 0
  Row = ReconciliationRow num

  unfoldable pub row_of : Ledger → Order → Row
  unfolding payment_for row_status
  row_of ledger o = record {
    order_id = o.id;
    tracking_code = o.tracking_code;
    customer_name = o.customer_name;
    order_amount = div (of_ℕ o.amount) (of_ℕ 100);
    currency = o.currency;
    order_payment_status = o.payment_status;
    payment = payment_for ledger o;
    status = row_status ledger o (payment_for ledger o);
    created_at = o.created_at;
  }

  unfoldable pub count : (Row → Bool) → List Row → ℕ
  unfolding filter
  count p rows = length (filter p rows)

  -- `reduce((total, row) => total + row.orderAmount, total)`: numbers are added from the left, and
  -- are rounded at each step.
  unfoldable pub total : Num → List Row → Num
  total acc [] = acc
  total acc (r ∷ rs) = total (add acc r.order_amount) rs

  unfoldable pub sum : (Row → Bool) → List Row → Num
  unfolding filter total
  sum p rows = total (of_ℕ 0) (filter p rows)

  pub record ReconciliationSummary : Type 0 where
    pub period_start : ℕ
    pub period_end : ℕ
    pub window_days : ℕ
    pub currency : String
    pub provider : String
    pub order_count : ℕ
    pub captured_count : ℕ
    pub captured_amount : Num
    pub outstanding_count : ℕ
    pub outstanding_amount : Num
    pub failed_count : ℕ
    pub failed_amount : Num
    pub missing_record_count : ℕ
    pub mismatch_count : ℕ
    pub rows : List Row

  abbrev first_currency : List Row → String
  first_currency [] = "INR"
  first_currency (r ∷ _) = r.currency

  abbrev pub start_of : ℕ → ℕ → ℕ
  start_of now days = now - window_of days * 86400000

  unfoldable pub reconcile_payments :
      Ledger → Provider → ℕ → String → ℕ → World → ReconciliationSummary
  unfolding orders_between row_of count sum is_demo_mode
  reconcile_payments ledger env now tenant days w =
      let start = start_of now days in
      let rows = map (row_of ledger) (orders_between start now tenant w) in
      record {
        period_start = start;
        period_end = now;
        window_days = window_of days;
        currency = first_currency rows;
        provider = if is_demo_mode env then "demo" else "razorpay";
        order_count = length rows;
        captured_count = count (λ r. is_paid_status r.order_payment_status) rows;
        captured_amount = sum (λ r. is_paid_status r.order_payment_status) rows;
        outstanding_count = count (λ r. is_outstanding_status r.order_payment_status) rows;
        outstanding_amount = sum (λ r. is_outstanding_status r.order_payment_status) rows;
        failed_count = count (λ r. is_failed_status r.order_payment_status) rows;
        failed_amount = sum (λ r. is_failed_status r.order_payment_status) rows;
        missing_record_count = count (λ r. is_missing r.status) rows;
        mismatch_count = count (λ r. is_mismatch r.status) rows;
        rows = rows;
      }
