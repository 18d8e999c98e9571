-- ===== src/Settlements/Cases.antt =====
-- The rows that an operation can leave: those before it, or a merge of some rows into them.
use real_time_logistics_plat.Common.{
  String, Option, List, [], ◌∷◌, ◌≡◌, refl, ◌==◌, Bool-cases, Option-cases, eq_iff, arith, not,
  ◌||◌, inl, inr, length, map, ltb, find, if◌then◌else◌, modify_first,
}
use real_time_logistics_plat.Geo.{JsNumber}
use real_time_logistics_plat.Store.{World, list_orders}
use real_time_logistics_plat.Csv.{chars, text, parse_csv}
use real_time_logistics_plat.Settlements.{
  trimmed, is_given, is_currency, Desk, Row, normalize, SettlementReviewStatus,
}
use real_time_logistics_plat.Settlements.Service.{
  is_bad_amount, Books, rows_of, set_rows, merge_rows, load_persisted, reviewed, has_id, event_row,
  code_units, ProviderSettlementEventInput, record_provider_settlement_event, review_settlement,
}
use real_time_logistics_plat.Settlements.Import.{
  has_columns, import_rows, import_lines, import_table, import_settlement_csv,
}

module _ (num : JsNumber) where
  pub rows_of-set_rows :
      (t u : String) (rows : List (Row num)) (books : Books num)
      → rows_of num t (set_rows num u rows books) ≡ (if u == t then rows else rows_of num t books)
  unfolding rows_of set_rows
  rows_of-set_rows t u rows [] = refl
  rows_of-set_rows t u rows ((v, old) ∷ books) =
      ground (arith, rows_of-set_rows t u rows books, eq_iff v u, eq_iff v t, eq_iff u t)

module _ (num : JsNumber) (P : Books num → Type 0) where
  pub review_settlement-cases :
      (tenant : String) (persisted : List (Row num)) (id : String) (status : SettlementReviewStatus)
      (comment : Option String) (books : Books num)
      → (let loaded = load_persisted num tenant persisted books in
          P loaded
          → P (
              set_rows num tenant
                (modify_first
                  (has_id num id)
                  (reviewed num status comment)
                  (rows_of num tenant loaded))
                loaded)
          → P (review_settlement num tenant persisted id status comment books).0)
  unfolding review_settlement
  review_settlement-cases tenant persisted id status comment books kept success =
      let loaded = load_persisted num tenant persisted books in
      elim (Option-cases (find (has_id num id) (rows_of num tenant loaded))) [
        | inl e ↦ rw (e, review_settlement) kept
        | inr (r, e) ↦ rw (e, review_settlement) success
      ]

module _ (num : JsNumber) (P : Books num → Type 0) (desk : Desk num) (w : World) where
  module _ (tenant : String) (books : Books num) (kept : P books)
      (success : (rows : List (Row num)) → P (merge_rows num tenant rows books)) where
    import_lines-cases :
        (header : List String) (lines : List (List String))
        → P (import_lines num desk tenant w header lines books).0
    unfolding import_lines
    import_lines-cases header lines =
        let headers = map (normalize num desk) header in
        elim (Bool-cases (has_columns num headers)) [
          | inr e ↦ rw e kept
          | inl e ↦
              rw e
                (elim (Option-cases
                  (import_rows num desk tenant (list_orders tenant w) headers 0 lines)) [
                    | inl none_read ↦ rw none_read kept
                    | inr (rows, read) ↦ rw read (success rows)
                  ])
        ]

    import_table-cases :
        (table : List (List String)) → P (import_table num desk tenant w table books).0
    unfolding import_table
    import_table-cases [] = kept
    import_table-cases (header ∷ []) = kept
    import_table-cases (header ∷ line ∷ lines) =
        elim (Bool-cases (ltb 501 (length (header ∷ line ∷ lines)))) [
          | inl e ↦ rw e kept
          | inr e ↦ rw e (import_lines-cases header (line ∷ lines))
        ]

    pub import_settlement_csv-cases :
        (csv : String) → P (import_settlement_csv num desk tenant w csv books).0
    unfolding import_settlement_csv
    import_settlement_csv-cases csv = elim (Bool-cases (ltb 100000 (code_units (chars csv)))) [
      | inl e ↦ rw e kept
      | inr e ↦ rw e (import_table-cases (map (map text) (parse_csv (chars csv))))
    ]

  pub record_provider_settlement_event-cases :
      (input : ProviderSettlementEventInput num) (books : Books num)
      → P books
      → P (merge_rows num input.organization_id (event_row num desk w input books ∷ []) books)
      → P (record_provider_settlement_event num desk w input books).0
  unfolding record_provider_settlement_event
  record_provider_settlement_event-cases input books kept success =
      let reference = trimmed input.provider_ref in
      elim (Bool-cases (not (is_given reference) || ltb 160 (code_units (chars reference)))) [
        | inl e ↦ rw e kept
        | inr e ↦ rw e (elim (Bool-cases (is_bad_amount num input.provider_amount)) [
          | inl f ↦ rw f kept
          | inr f ↦
              rw f (elim (Bool-cases (is_currency (chars (desk.upper (trimmed input.currency))))) [
                | inl g ↦ rw g success
                | inr g ↦ rw g kept
              ])
        ])
      ]
