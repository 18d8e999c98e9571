-- ===== src/Tests/Settlements.antt =====
-- The theorems on settlements, at an imported file and an event of the provider.
use real_time_logistics_plat.Common.{
  ◌+◌, ◌≤◌, String, none, some, List, [], ◌∷◌, ◌≡◌, refl, arith, All, find,
}
use real_time_logistics_plat.Csv.{chars, text}
use real_time_logistics_plat.Settlements.{
  Desk, PaymentSettlementRow, accepted, matched, chargeback, key, has_key,
}
use real_time_logistics_plat.Settlements.Service.{
  Books, ProviderSettlementEventInput, rows_of, summarize,
}
use real_time_logistics_plat.Settlements.Calls.{
  SettlementCall, import_csv, provider_event, list_rows, review, settle, settle_all,
}
use real_time_logistics_plat.Settlements.History.{
  AreLedgers, LoadsLedger, settle_all-AreLedgers, settle-Keeps,
}
use real_time_logistics_plat.Settlements.Reviews.{Keeps}
use real_time_logistics_plat.Settlements.Counts.{summarize-row_count}
use real_time_logistics_plat.Tests.Data.{whole, world}

abbrev pub desk : Desk whole
desk = record {
  lower = λ s. s;
  upper = λ s. s;
  as_uuid = λ s. s;
  number = λ s. some 500;
  instant = λ s. none;
  now = 7;
  uuid = λ k. "s1";
}

abbrev csv : String
csv = "payment_id,amount,currency,order_id\npay_1,500,INR,o1\npay_2,500,INR,o9\n"

abbrev event : ProviderSettlementEventInput whole
event = record {
  organization_id = "t1";
  provider_ref = "pay_1";
  order_id = some "o1";
  tracking_code = none;
  provider_amount = 500;
  currency = "INR";
  provider_status = "chargeback";
  fee_amount = none;
  net_amount = none;
  note = none;
  settled_at = none;
}

abbrev books : Books whole
books = settle whole (import_csv desk world "t1" csv) []

abbrev row : PaymentSettlementRow whole
row = record {
  id = "s1";
  organization_id = "t1";
  provider = "razorpay";
  provider_ref = "pay_1";
  order_id = some "o1";
  tracking_code = some "o1";
  order_amount = some 500;
  provider_amount = 500;
  fee_amount = none;
  net_amount = none;
  currency = "INR";
  provider_status = "settled";
  match_status = matched;
  review_status = accepted;
  note = none;
  settled_at = none;
  imported_at = 7;
}

-- The event makes the row a chargeback, and it stays accepted.
abbrev charged : PaymentSettlementRow whole
charged = record row { provider_status = "chargeback"; match_status = chargeback }

abbrev calls : List (SettlementCall whole)
calls =
    import_csv desk world "t1" csv
    ∷ list_rows "t1" []
    ∷ review "t1" (row ∷ []) "s1" accepted (some "seen")
    ∷ []

no-AreLedgers : AreLedgers whole []
unfolding rows_of
no-AreLedgers t = (tt, omega arith, tt)

row-LoadsLedger : All (LoadsLedger whole) calls
row-LoadsLedger = (tt, ((tt, omega arith, tt), (((tt, tt), omega arith, (tt, tt)), tt)))

settle_all-AreLedgers_example : AreLedgers whole (settle_all whole calls [])
settle_all-AreLedgers_example = settle_all-AreLedgers whole calls [] row-LoadsLedger no-AreLedgers

books-AreLedgers : AreLedgers whole books
unfolding settle_all
books-AreLedgers =
    settle_all-AreLedgers whole (import_csv desk world "t1" csv ∷ []) [] (tt, tt) no-AreLedgers

row_before : find (has_key whole (key whole row)) (rows_of whole "t1" books) ≡ some row
unfolding settle rows_of find chars text
row_before = refl

row_after :
    find
      (has_key whole (key whole row))
      (rows_of whole "t1" (settle whole (provider_event desk world event) books))
    ≡ some charged
unfolding settle rows_of find chars text
row_after = refl

settle-Keeps_example : Keeps whole row charged
settle-Keeps_example =
    settle-Keeps whole (provider_event desk world event) books "t1" (key whole row) row charged tt
      books-AreLedgers row_before row_after

summarize-row_count_example :
    ((summarize whole "t1" none books).matched_count
        + (summarize whole "t1" none books).missing_order_count
        + (summarize whole "t1" none books).mismatch_count
        + (summarize whole "t1" none books).refund_count
      ≡ (summarize whole "t1" none books).row_count)
    × ((summarize whole "t1" none books).review_count ≤ (summarize whole "t1" none books).row_count)
    × ((summarize whole "t1" none books).rows ≡ rows_of whole "t1" books)
summarize-row_count_example = summarize-row_count whole "t1" none books

-- The event has turned the first row into a chargeback; the file is imported again.
abbrev charged_books : Books whole
charged_books = settle whole (provider_event desk world event) books
