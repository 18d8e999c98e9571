-- ===== src/Settlements/Matches.antt =====
-- The rows that are accepted without a review.
use real_time_logistics_plat.Common.{
  ℕ, String, false, ◌&&◌, Option, none, some, List, ◌≡◌, refl, ap, arith, subst, some_inj, eq_iff,
  Bool-cases, Option-cases, inl, inr,
}
use real_time_logistics_plat.Model.{Order}
use real_time_logistics_plat.Geo.{JsNumber}
use real_time_logistics_plat.Csv.{chars}
use real_time_logistics_plat.Settlements.{
  Desk, Row, SettlementMatchStatus, matched, missing_order, amount_mismatch, currency_mismatch,
  refund, chargeback, accepted, normalize, contains, is_apart, amount_of, status_for, number_value,
  is_given, is_currency, first_review,
}
use real_time_logistics_plat.Settlements.Service.{order_field}
use real_time_logistics_plat.Settlements.Import.{
  raw, reference, status, currency, find_order, row_of, import_row,
}

module _ (num : JsNumber) (desk : Desk num) where
  -- The order's amount is the provider's up to 0.01 and the currencies are one, up to case; the
  -- provider's status tells of no refund and no chargeback.
  pub record AgreesWith (o : Order) (status : String) (amount : num.Num) (currency : String)
      : Type 0 where
    pub amounts : is_apart num (amount_of num o) amount ≡ false
    pub currencies : desk.upper o.currency ≡ desk.upper currency
    pub no_refund : contains (chars "refund") (chars (normalize num desk status)) ≡ false
    pub no_chargeback : contains (chars "chargeback") (chars (normalize num desk status)) ≡ false

  status_for-AgreesWith :
      (order : Option Order) (status : String) (amount : num.Num) (currency : String)
      → status_for num desk order status amount currency ≡ matched
      → (o : Order) × (order ≡ some o) × AgreesWith o status amount currency
  unfolding status_for
  status_for-AgreesWith none status amount currency h = ground arith
  status_for-AgreesWith (some o) status amount currency h = (
    o,
    refl,
    record {
      amounts = ground arith;
      currencies = ground (arith, eq_iff (desk.upper o.currency) (desk.upper currency));
      no_refund = ground arith;
      no_chargeback = ground arith;
    },
  )

  first_review-accepted : (m : SettlementMatchStatus) → first_review num m ≡ accepted → m ≡ matched
  first_review-accepted matched h = refl
  first_review-accepted missing_order h = cc
  first_review-accepted amount_mismatch h = cc
  first_review-accepted currency_mismatch h = cc
  first_review-accepted refund h = cc
  first_review-accepted chargeback h = cc

  -- The line names an order of the list, the row is of that order, and the two agree.
  abbrev pub IsJustified : List Order → List String → List String → Row num → Type 0
  IsJustified orders headers values r =
      (o : Order) × (find_order num desk orders headers values ≡ some o)
      × (r.order_id ≡ some o.id)
      × AgreesWith o r.provider_status r.provider_amount r.currency

  row_of-IsJustified :
      (tenant : String) (orders : List Order) (headers : List String) (index : ℕ)
      (values : List String) (amount : num.Num)
      → (row_of num desk tenant orders headers index values amount).review_status ≡ accepted
      → IsJustified orders headers values
          (row_of num desk tenant orders headers index values amount)
  unfolding row_of
  row_of-IsJustified tenant orders headers index values amount h =
      let (o, named, agrees) =
        status_for-AgreesWith (find_order num desk orders headers values) (status headers values)
          amount (currency num desk headers values) (first_review-accepted _ h) in
      (o, named, ap (order_field (λ (x : Order). x.id)) named, agrees)

  -- A line of an imported file is accepted without a review only where it names an order of the
  -- tenant, the row is of that order, the order's amount is the provider's up to 0.01, the
  -- currencies are the same up to case, and the provider's status tells of no refund and no
  -- chargeback.
  pub import_row-IsJustified :
      (tenant : String) (orders : List Order) (headers : List String) (index : ℕ)
      (values : List String) (r : Row num)
      → import_row num desk tenant orders headers index values ≡ some r
      → r.review_status ≡ accepted
      → IsJustified orders headers values r
  unfolding import_row
  import_row-IsJustified tenant orders headers index values r h k =
      elim (Option-cases (number_value num desk (raw headers values "amount"))) [
        | inl e ↦ absurd (cc (rw (e, import_row) at h))
        | inr (amount, e) ↦
            let row = row_of num desk tenant orders headers index values amount in
            let is_read =
              is_given (reference headers values)
              && is_currency (chars (currency num desk headers values)) in
            elim (Bool-cases is_read) [
              | inl g ↦
                  subst (λ s. s.review_status ≡ accepted → IsJustified orders headers values s)
                    (some_inj row r (rw (e, g, import_row) at h))
                    (row_of-IsJustified tenant orders headers index values amount) k
              | inr g ↦ absurd (cc (rw (e, g, import_row) at h))
            ]
      ]
