-- ===== src/Tests/Payments.antt =====
-- The theorems on the reconciliation of payments, at the small store.
use real_time_logistics_plat.Common.{
  All, map, [], ◌∷◌, ◌==◌, if◌then◌else◌, filter, none, some, ◌≡◌, refl, includes,
}
use real_time_logistics_plat.Model.{Order, delivered}
use real_time_logistics_plat.Reconciliation.{
  Ledger, ProviderPayment, matched, unpaid_order, reconcile_payments,
}
use real_time_logistics_plat.Reconciliation.Rows.{IsHonest, reconcile_payments-IsHonest}
use real_time_logistics_plat.Model.{paid}
use real_time_logistics_plat.Store.{World, list_orders}
use real_time_logistics_plat.Tests.Data.{whole, world, provider, order}

abbrev payment : ProviderPayment
payment = record {
  order_id = "o4";
  provider = "razorpay_payment";
  provider_ref = "pay_1";
  amount_minor = 50000;
  currency = "INR";
  status = "captured";
  created_at = 5;
}

abbrev ledger : Ledger
ledger = record {
  lower = λ s. s;
  upper = λ s. s;
  as_uuid = λ s. s;
  payment_of = λ s. if s == "o4" then some payment else none;
}

abbrev paid_order : Order
paid_order = record (order "o4" "t1" delivered (some "d1") none) { payment_status = paid }

abbrev shop : World
shop = record world { orders = paid_order ∷ order "o2" "t1" delivered none none ∷ [] }

reconcile_payments-IsHonest_example :
    All
      (IsHonest whole ledger "t1" shop)
      (reconcile_payments whole ledger provider 7 "t1" 30 shop).rows
reconcile_payments-IsHonest_example =
    reconcile_payments-IsHonest whole ledger provider 7 "t1" 30 shop

-- One order is paid, with a payment that agrees, and the other one is unpaid.
statuses :
    map (λ r. r.status) (reconcile_payments whole ledger provider 7 "t1" 30 shop).rows
    ≡ matched ∷ unpaid_order ∷ []
unfolding reconcile_payments includes filter list_orders
statuses = refl
