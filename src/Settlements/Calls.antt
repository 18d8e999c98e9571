-- ===== src/Settlements/Calls.antt =====
-- The settlement operations as data, and sequences of them: the handlers of apps/api/src/app.ts
-- under /api/payments/settlements, and the webhook's use of the service.
use real_time_logistics_plat.Common.{String, Option, List, [], ◌∷◌}
use real_time_logistics_plat.Geo.{JsNumber}
use real_time_logistics_plat.Store.{World}
use real_time_logistics_plat.Settlements.{Desk, Row, SettlementReviewStatus}
use real_time_logistics_plat.Settlements.Service.{
  Books, ProviderSettlementEventInput, record_provider_settlement_event, list_settlement_rows,
  review_settlement,
}
use real_time_logistics_plat.Settlements.Import.{import_settlement_csv}

-- `persisted` is what the database answers: for the tenant of the call.
pub data SettlementCall (num : JsNumber) : Type 0 where
  import_csv : Desk num → World → (tenant csv : String) → SettlementCall num
  provider_event : Desk num → World → ProviderSettlementEventInput num → SettlementCall num
  list_rows : (tenant : String) (persisted : List (Row num)) → SettlementCall num
  review :
      (tenant : String) (persisted : List (Row num)) (id : String)
      → SettlementReviewStatus
      → Option String
      → SettlementCall num

module _ (num : JsNumber) where
  unfoldable pub settle : SettlementCall num → Books num → Books num
  unfolding import_settlement_csv record_provider_settlement_event list_settlement_rows
      review_settlement
  settle (import_csv desk w tenant csv) books =
      (import_settlement_csv num desk tenant w csv books).0
  settle (provider_event desk w input) books =
      (record_provider_settlement_event num desk w input books).0
  settle (list_rows tenant persisted) books = (list_settlement_rows num tenant persisted books).0
  settle (review tenant persisted id status note) books =
      (review_settlement num tenant persisted id status note books).0

  unfoldable pub settle_all : List (SettlementCall num) → Books num → Books num
  unfolding settle
  settle_all [] books = books
  settle_all (c ∷ cs) books = settle_all cs (settle c books)
