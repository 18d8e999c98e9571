-- ===== src/Settlements/Import.antt =====
-- The import of a settlement file: `importSettlementCsv` of
-- apps/api/src/services/settlements.ts. A reading of the file that throws keeps the rows.
use real_time_logistics_plat.Common.{
  ℕ, suc, String, Bool, ◌&&◌, ◌||◌, Option, none, some, List, [], ◌∷◌, ◌==◌, find, includes, length,
  map, ltb, if◌then◌else◌,
}
use real_time_logistics_plat.Model.{Order}
use real_time_logistics_plat.Geo.{JsNumber}
use real_time_logistics_plat.Store.{World, list_orders}
use real_time_logistics_plat.Csv.{chars, text, parse_csv}
use real_time_logistics_plat.Settlements.{
  Desk, provider_name, is_given, or_text, text?, trimmed, is_currency, normalize, number_value,
  date_value, amount_of, status_for, is_named, first_review, Row,
}
use real_time_logistics_plat.Settlements.Service.{
  Books, code_units, order_field, tracking_or, merge_rows, summarize, PaymentSettlementSummary,
}

-- A line of the file as `Object.fromEntries` makes it: of two columns with one name the last one
-- counts, and a cell that is missing is empty.
abbrev head_cell : List String → String
head_cell [] = ""
head_cell (v ∷ _) = v

abbrev tail_cells : List String → List String
tail_cells [] = []
tail_cells (_ ∷ vs) = vs

unfoldable pub column : String → List String → List String → Option String
column name [] values = none
column name (h ∷ hs) values = elim (column name hs (tail_cells values)) [
  | some v ↦ some v
  | none ↦ if h == name then some (head_cell values) else none
]

abbrev value_or_empty : Option String → String
value_or_empty none = ""
value_or_empty (some v) = v

unfoldable pub raw : List String → List String → String → String
unfolding column
raw headers values name = value_or_empty (column name headers values)

-- `raw.payment_id || raw.provider_ref`, and the other columns that have two names.
abbrev pub reference : List String → List String → String
reference headers values =
    or_text (raw headers values "payment_id") (raw headers values "provider_ref")

abbrev pub tracking : List String → List String → String
tracking headers values =
    or_text (raw headers values "tracking_code") (raw headers values "tracking")

abbrev pub status : List String → List String → String
status headers values = or_text (raw headers values "status") "settled"

abbrev net_amount : List String → List String → String
net_amount headers values =
    or_text (or_text (raw headers values "settlement_amount") (raw headers values "net_amount"))
      (raw headers values "net")

module _ (num : JsNumber) where
  abbrev pub currency : Desk num → List String → List String → String
  currency desk headers values = desk.upper (trimmed (raw headers values "currency"))

  unfoldable pub find_order : Desk num → List Order → List String → List String → Option Order
  unfolding find is_named raw or_text
  find_order desk orders headers values =
      find
        (is_named num desk
          (or_text (raw headers values "order_id") (raw headers values "routepulse_order_id"))
          (tracking headers values))
        orders

  unfoldable pub row_of :
      Desk num → String → List Order → List String → ℕ → List String → num.Num → Row num
  unfolding raw find_order status_for number_value date_value or_text
  row_of desk tenant orders headers index values amount =
      let order = find_order desk orders headers values in
      let match_status =
        status_for num desk order (status headers values) amount (currency desk headers values) in
      record {
        id = desk.uuid index;
        organization_id = tenant;
        provider = provider_name;
        provider_ref = reference headers values;
        order_id = order_field (λ o. o.id) order;
        tracking_code = tracking_or order (text? (tracking headers values));
        order_amount = order_field (amount_of num) order;
        provider_amount = amount;
        fee_amount = number_value num desk (raw headers values "fee");
        net_amount = number_value num desk (net_amount headers values);
        currency = currency desk headers values;
        provider_status = status headers values;
        match_status = match_status;
        review_status = first_review num match_status;
        note = none;
        settled_at =
            date_value num desk
              (or_text (raw headers values "settled_at") (raw headers values "settlement_date"));
        imported_at = desk.now;
      }

  -- A row of the file, or nothing where the code throws.
  unfoldable pub import_row :
      Desk num → String → List Order → List String → ℕ → List String → Option (Row num)
  unfolding raw number_value is_currency or_text row_of
  import_row desk tenant orders headers index values =
      elim (number_value num desk (raw headers values "amount")) [
        | none ↦ none
        | some amount ↦
            if is_given (reference headers values)
              && is_currency (chars (currency desk headers values))
            then some (row_of desk tenant orders headers index values amount)
            else none
      ]

  abbrev cons? {ℓ} : {A : Type ℓ} → Option A → Option (List A) → Option (List A)
  cons? none xs = none
  cons? (some x) none = none
  cons? (some x) (some xs) = some (x ∷ xs)

  unfoldable pub import_rows :
      Desk num
      → String
      → List Order
      → List String
      → ℕ
      → List (List String)
      → Option (List (Row num))
  unfolding import_row
  import_rows desk tenant orders headers index [] = some []
  import_rows desk tenant orders headers index (values ∷ lines) =
      cons? (import_row desk tenant orders headers index values)
        (import_rows desk tenant orders headers (suc index) lines)

  pub data ImportResult : Type 0 where
    imported : PaymentSettlementSummary num → ImportResult
    thrown : String → ImportResult

  abbrev pub has_columns : List String → Bool
  has_columns headers =
      (includes headers "payment_id" || includes headers "provider_ref")
      && includes headers "amount"
      && includes headers "currency"

  -- The file behind its first line.
  unfoldable pub import_lines :
      Desk num
      → String
      → World
      → List String
      → List (List String)
      → Books num
      → Books num × ImportResult
  unfolding import_rows merge_rows summarize includes normalize list_orders
  import_lines desk tenant w header lines books =
      let headers = map (normalize num desk) header in
      if has_columns headers
      then elim (import_rows desk tenant (list_orders tenant w) headers 0 lines) [
        | none ↦ (
          books,
          thrown
              "Each settlement row needs a payment reference, numeric amount, and 3-letter currency",
        )
        | some rows ↦
            let after = merge_rows num tenant rows books in
            (after, imported (summarize num tenant (some desk.now) after))
      ]
      else (books, thrown "CSV needs payment_id or provider_ref, amount, and currency columns")

  unfoldable pub import_table :
      Desk num → String → World → List (List String) → Books num → Books num × ImportResult
  unfolding import_lines
  import_table desk tenant w [] books =
      (books, thrown "Settlement CSV must contain a header and at least one row")
  import_table desk tenant w (header ∷ []) books =
      (books, thrown "Settlement CSV must contain a header and at least one row")
  import_table desk tenant w (header ∷ line ∷ lines) books =
      if ltb 501 (length (header ∷ line ∷ lines))
      then (books, thrown "Settlement CSV may contain at most 500 rows")
      else import_lines desk tenant w header (line ∷ lines) books

  unfoldable pub import_settlement_csv :
      Desk num → String → World → String → Books num → Books num × ImportResult
  unfolding import_table parse_csv code_units
  import_settlement_csv desk tenant w csv books =
      if ltb 100000 (code_units (chars csv))
      then (books, thrown "Settlement CSV must be 100 KB or smaller")
      else import_table desk tenant w (map (map text) (parse_csv (chars csv))) books
