-- ===== src/Reconciliation/Rows.antt =====
-- When a row of a reconciliation is matched: apps/api/src/services/reconciliation.ts.
use real_time_logistics_plat.Common.{
  ℕ, String, Bool, true, Option, none, some, List, [], ◌∷◌, ◌==◌, ◌≡◌, ◌≢◌, ◌↔◌, ◌⊎◌, inl, inr,
  refl, sym, ap, ◌∙◌, arith, eq_iff, All, All-imp, All-Memᴰ, Memᴰ, filter, map, includes,
  Bool-cases, Option-cases,
}
use real_time_logistics_plat.Geo.{JsNumber}
use real_time_logistics_plat.Model.{Order, PaymentStatus, paid}
use real_time_logistics_plat.Store.{World, list_orders}
use real_time_logistics_plat.Orders.Payment.{Provider}
use real_time_logistics_plat.Reconciliation.{
  Ledger, ProviderPayment, RowStatus, matched, unpaid_order, missing_record, mismatch,
  ReconciliationRow, row_status, is_captured, is_failed, is_paid_status, is_failed_status,
  payment_for, orders_between, start_of, row_of, reconcile_payments,
}

-- The provider's words for a payment that was captured, and for one that was not.
abbrev pub IsCaptured : String → Type 0
IsCaptured s = (s ≡ "captured") ⊎ (s ≡ "paid") ⊎ (s ≡ "success") ⊎ (s ≡ "succeeded")

abbrev pub IsFailed : String → Type 0
IsFailed s = (s ≡ "failed") ⊎ (s ≡ "refunded") ⊎ (s ≡ "cancelled")

-- The payment that the database has for an order, under the database's identifier or, where it has
-- none there, under the order's own.
abbrev pub IsPaymentOf : Ledger → Order → ProviderPayment → Type 0
IsPaymentOf ledger o p =
    (ledger.payment_of (ledger.as_uuid o.id) ≡ some p)
    ⊎ ((ledger.payment_of (ledger.as_uuid o.id) ≡ none) × (ledger.payment_of o.id ≡ some p))

-- The payment agrees with the order in status, amount and currency.
pub record Agrees (ledger : Ledger) (o : Order) (p : ProviderPayment) : Type 0 where
  pub captured : IsCaptured (ledger.lower p.status) ↔ (o.payment_status ≡ paid)
  pub failed : IsFailed (ledger.lower p.status) ↔ (o.payment_status ≡ PaymentStatus.failed)
  pub amount : p.amount_minor ≡ o.amount
  pub currency : ledger.upper p.currency ≡ ledger.upper o.currency

module _ (ledger : Ledger) (p : ProviderPayment) where
  is_captured-IsCaptured : is_captured ledger p ≡ true → IsCaptured (ledger.lower p.status)
  unfolding includes
  is_captured-IsCaptured h =
      let s = ledger.lower p.status in
      ground (arith, eq_iff "captured" s, eq_iff "paid" s, eq_iff "success" s, eq_iff "succeeded" s)

  IsCaptured-is_captured : IsCaptured (ledger.lower p.status) → is_captured ledger p ≡ true
  unfolding includes
  IsCaptured-is_captured h = elim h [
    | inl e ↦ rw e refl
    | inr (inl e) ↦ rw e refl
    | inr (inr (inl e)) ↦ rw e refl
    | inr (inr (inr e)) ↦ rw e refl
  ]

  is_failed-IsFailed : is_failed ledger p ≡ true → IsFailed (ledger.lower p.status)
  unfolding includes
  is_failed-IsFailed h =
      let s = ledger.lower p.status in
      ground (arith, eq_iff "failed" s, eq_iff "refunded" s, eq_iff "cancelled" s)

  IsFailed-is_failed : IsFailed (ledger.lower p.status) → is_failed ledger p ≡ true
  unfolding includes
  IsFailed-is_failed h = elim h [
    | inl e ↦ rw e refl
    | inr (inl e) ↦ rw e refl
    | inr (inr e) ↦ rw e refl
  ]

is_paid_status-paid : (s : PaymentStatus) → is_paid_status s ≡ true → s ≡ paid
is_paid_status-paid s h = ground arith

is_failed_status-failed : (s : PaymentStatus) → is_failed_status s ≡ true → s ≡ PaymentStatus.failed
is_failed_status-failed s h = ground arith

-- The two tests of the code agree.
record HasSameTests (ledger : Ledger) (o : Order) (p : ProviderPayment) : Type 0 where
  captured : is_captured ledger p ≡ is_paid_status o.payment_status
  failed : is_failed ledger p ≡ is_failed_status o.payment_status
  amount : p.amount_minor ≡ o.amount
  currency : ledger.upper p.currency ≡ ledger.upper o.currency

HasSameTests-Agrees :
    (ledger : Ledger) (o : Order) (p : ProviderPayment)
    → HasSameTests ledger o p
    → Agrees ledger o p
HasSameTests-Agrees ledger o p t = record {
  captured = (
    λ c. is_paid_status-paid o.payment_status (sym t.captured ∙ IsCaptured-is_captured ledger p c),
    λ e. is_captured-IsCaptured ledger p (t.captured ∙ ap is_paid_status e),
  );
  failed = (
    λ c. is_failed_status-failed o.payment_status (sym t.failed ∙ IsFailed-is_failed ledger p c),
    λ e. is_failed-IsFailed ledger p (t.failed ∙ ap is_failed_status e),
  );
  amount = t.amount;
  currency = t.currency;
}

row_status-Agrees :
    (ledger : Ledger) (o : Order) (payment : Option ProviderPayment)
    → row_status ledger o payment ≡ matched
    → (p : ProviderPayment) × (payment ≡ some p) × Agrees ledger o p
unfolding row_status
row_status-Agrees ledger o none h = ground arith
row_status-Agrees ledger o (some p) h = (
  p,
  refl,
  HasSameTests-Agrees ledger o p (record {
    captured = ground arith;
    failed = ground arith;
    amount = ground arith;
    currency = ground (arith, eq_iff (ledger.upper p.currency) (ledger.upper o.currency));
  }),
)

payment_for-IsPaymentOf :
    (ledger : Ledger) (o : Order) (p : ProviderPayment)
    → payment_for ledger o ≡ some p
    → IsPaymentOf ledger o p
unfolding payment_for
payment_for-IsPaymentOf ledger o p h =
    elim (Option-cases (ledger.payment_of (ledger.as_uuid o.id))) [
      | inl e ↦ inr (e, rw (e, payment_for) at h)
      | inr (q, e) ↦ inl (e ∙ (rw (e, payment_for) at h))
    ]

is_matched : (s : RowStatus) → (s ≡ matched) ⊎ (s ≢ matched)
is_matched matched = inl refl
is_matched unpaid_order = inr (λ e. cc e)
is_matched missing_record = inr (λ e. cc e)
is_matched mismatch = inr (λ e. cc e)

module _ (num : JsNumber) (ledger : Ledger) (tenant : String) (w : World) where
  -- The row is of an order of the tenant, and has the payment of that order, which agrees with it.
  pub record IsProven (r : ReconciliationRow num) : Type 0 where
    pub order : Order
    pub listed : Memᴰ order w.orders
    pub owned : (order.organization_id == tenant) ≡ true
    pub named : r.order_id ≡ order.id
    pub found : ProviderPayment
    pub looked_up : IsPaymentOf ledger order found
    pub shown : r.payment ≡ some found
    pub agrees : Agrees ledger order found

  abbrev pub IsHonest : ReconciliationRow num → Type 0
  IsHonest r = (r.status ≢ matched) ⊎ IsProven r

  abbrev IsListed : Order → Type 0
  IsListed o = Memᴰ o w.orders × ((o.organization_id == tenant) ≡ true)

  row_of-IsHonest : (o : Order) → IsListed o → IsHonest (row_of num ledger o)
  unfolding row_of
  row_of-IsHonest o (listed, owned) =
      elim (is_matched (row_status ledger o (payment_for ledger o))) [
        | inr e ↦ inl e
        | inl e ↦
            let (p, shown, agrees) = row_status-Agrees ledger o (payment_for ledger o) e in
            inr (record {
              order = o;
              listed = listed;
              owned = owned;
              named = refl;
              found = p;
              looked_up = payment_for-IsPaymentOf ledger o p shown;
              shown = shown;
              agrees = agrees;
            })
      ]

  map-IsHonest : (os : List Order) → All IsListed os → All IsHonest (map (row_of num ledger) os)
  map-IsHonest [] h = tt
  map-IsHonest (o ∷ os) h = (row_of-IsHonest o h.0, map-IsHonest os h.1)

filter-All :
    {A : Type 0} (P : A → Type 0) (p : A → Bool) (xs : List A)
    → All P xs
    → All (λ x. P x × (p x ≡ true)) (filter p xs)
unfolding filter
filter-All P p [] h = tt
filter-All P p (x ∷ xs) h = elim (Bool-cases (p x)) [
  | inl e ↦ rw (e, filter) ((h.0, e), filter-All P p xs h.1)
  | inr e ↦ rw (e, filter) (filter-All P p xs h.1)
]

orders_between-IsListed :
    (start end : ℕ) (tenant : String) (w : World)
    → All
        (λ o. Memᴰ o w.orders × ((o.organization_id == tenant) ≡ true))
        (orders_between start end tenant w)
unfolding orders_between list_orders
orders_between-IsListed start end tenant w =
    All-imp _ _ (λ o h. h.0) _
      (filter-All _ _ _ (
        filter-All (λ o. Memᴰ o w.orders) (λ o. o.organization_id == tenant) w.orders
          (All-Memᴰ w.orders)))

-- An order is reported as matched only where it is the tenant's and the provider has a payment for
-- that very order, which the row shows: captured just where the order is paid, failed, refunded or
-- cancelled just where the order's payment failed, of the order's amount, and of its currency up to
-- case.
pub reconcile_payments-IsHonest :
    (num : JsNumber) (ledger : Ledger) (env : Provider) (now : ℕ) (tenant : String) (days : ℕ)
    (w : World)
    → All (IsHonest num ledger tenant w) (reconcile_payments num ledger env now tenant days w).rows
unfolding reconcile_payments
reconcile_payments-IsHonest num ledger env now tenant days w =
    map-IsHonest num ledger tenant w (orders_between (start_of num now days) now tenant w)
      (orders_between-IsListed (start_of num now days) now tenant w)
