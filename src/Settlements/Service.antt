-- ===== src/Settlements/Service.antt =====
-- The operations of apps/api/src/services/settlements.ts on the rows that the process keeps for
-- each organization. What the database answers is an argument: an empty list where it has nothing
-- or cannot be reached, and then the rows of the process stand.
use Prim.Native.Char.{code}
use real_time_logistics_plat.Common.{
  ℕ, ◌+◌, String, Bool, true, false, not, ◌&&◌, ◌||◌, Option, none, some, List, [], ◌∷◌, ◌==◌, find,
  modify_first, filter, length, take, ltb, leb, if◌then◌else◌,
}
use real_time_logistics_plat.Model.{Order}
use real_time_logistics_plat.Geo.{JsNumber}
use real_time_logistics_plat.Store.{World, list_orders}
use real_time_logistics_plat.Csv.{Chars, chars}
use real_time_logistics_plat.Settlements.{
  matched, missing_order, amount_mismatch, currency_mismatch, refund, chargeback,
  SettlementReviewStatus, pending, Desk, provider_name, is_given, or_text, or_note, text?, trimmed,
  is_currency, amount_of, status_for, is_named, first_review, Row, by_ref, merge_all, newest_first,
  max_rows,
}

-- The length of a text in UTF-16 code units, which is that of `string.length`.
unfoldable pub code_units : Chars → ℕ
code_units [] = 0
code_units (c ∷ cs) = (if leb 65536 (code c) then 2 else 1) + code_units cs

-- An optional text, where an empty one counts as missing.
abbrev text_of : Option String → String
text_of none = ""
text_of (some t) = t

abbrev pub order_field {ℓ} : {A : Type ℓ} → (Order → A) → Option Order → Option A
order_field f none = none
order_field f (some o) = some (f o)

-- `order?.trackingCode || ...`.
abbrev pub tracking_or : Option Order → Option String → Option String
tracking_or none other = other
tracking_or (some o) other = or_note (some o.tracking_code) other

module _ (num : JsNumber) where
  open num use {Num, of_ℕ, infinity, ltb as below}

  -- The rows of each organization.
  abbrev pub Books : Type 0
  Books = List (String × List (Row num))

  unfoldable pub rows_of : String → Books → List (Row num)
  rows_of tenant [] = []
  rows_of tenant ((t, rows) ∷ rest) = if t == tenant then rows else rows_of tenant rest

  unfoldable pub set_rows : String → List (Row num) → Books → Books
  set_rows tenant rows [] = (tenant, rows) ∷ []
  set_rows tenant rows ((t, old) ∷ rest) =
      if t == tenant then (t, rows) ∷ rest else (t, old) ∷ set_rows tenant rows rest

  unfoldable pub merged : List (Row num) → List (Row num) → List (Row num)
  unfolding by_ref merge_all newest_first take
  merged current imported =
      take max_rows (newest_first num (merge_all num (by_ref num [] current) imported))

  unfoldable pub merge_rows : String → List (Row num) → Books → Books
  unfolding merged rows_of set_rows
  merge_rows tenant imported books = set_rows tenant (merged (rows_of tenant books) imported) books

  pub record PaymentSettlementSummary : Type 0 where
    pub provider : String
    pub imported_at : Option ℕ
    pub row_count : ℕ
    pub matched_count : ℕ
    pub review_count : ℕ
    pub missing_order_count : ℕ
    pub mismatch_count : ℕ
    pub refund_count : ℕ
    pub rows : List (Row num)

  abbrev pub is_matched : Row num → Bool
  is_matched r = elim r.match_status [ matched ↦ true | _ ↦ false ]

  abbrev pub is_missing : Row num → Bool
  is_missing r = elim r.match_status [ missing_order ↦ true | _ ↦ false ]

  abbrev pub is_mismatch : Row num → Bool
  is_mismatch r = elim r.match_status [
    | amount_mismatch ↦ true
    | currency_mismatch ↦ true
    | _ ↦ false
  ]

  abbrev pub is_refund : Row num → Bool
  is_refund r = elim r.match_status [ refund ↦ true | chargeback ↦ true | _ ↦ false ]

  abbrev pub is_pending : Row num → Bool
  is_pending r = elim r.review_status [ pending ↦ true | _ ↦ false ]

  abbrev first_import : List (Row num) → Option ℕ
  first_import [] = none
  first_import (r ∷ _) = some r.imported_at

  abbrev or_import : Option ℕ → Option ℕ → Option ℕ
  or_import none other = other
  or_import (some t) other = some t

  unfoldable pub summarize : String → Option ℕ → Books → PaymentSettlementSummary
  unfolding rows_of filter
  summarize tenant imported_at books =
      let rows = rows_of tenant books in
      record {
        provider = provider_name;
        imported_at = or_import imported_at (first_import rows);
        row_count = length rows;
        matched_count = length (filter is_matched rows);
        review_count = length (filter is_pending rows);
        missing_order_count = length (filter is_missing rows);
        mismatch_count = length (filter is_mismatch rows);
        refund_count = length (filter is_refund rows);
        rows = rows;
      }

  abbrev previous_review : Option (Row num) → SettlementReviewStatus → SettlementReviewStatus
  previous_review none first = first
  previous_review (some p) first = p.review_status

  abbrev previous_id : Option (Row num) → String → String
  previous_id none fresh = fresh
  previous_id (some p) fresh = or_text p.id fresh

  abbrev previous_note : Option (Row num) → Option String
  previous_note none = none
  previous_note (some p) = p.note

  pub record ProviderSettlementEventInput : Type 0 where
    pub organization_id : String
    pub provider_ref : String
    pub order_id : Option String
    pub tracking_code : Option String
    pub provider_amount : Num
    pub currency : String
    pub provider_status : String
    pub fee_amount : Option Num
    pub net_amount : Option Num
    pub note : Option String
    pub settled_at : Option ℕ

  abbrev is_row : String → Row num → Bool
  is_row reference r = r.provider == provider_name && r.provider_ref == reference

  unfoldable pub event_row : Desk num → World → ProviderSettlementEventInput → Books → Row num
  unfolding rows_of find is_named status_for or_text or_note list_orders
  event_row desk w input books =
      let reference = trimmed input.provider_ref in
      let currency = desk.upper (trimmed input.currency) in
      let order =
        find (is_named num desk (text_of input.order_id) (text_of input.tracking_code))
          (list_orders input.organization_id w) in
      let existing = find (is_row reference) (rows_of input.organization_id books) in
      let match_status =
        status_for num desk order input.provider_status input.provider_amount currency in
      record {
        id = previous_id existing (desk.uuid 0);
        organization_id = input.organization_id;
        provider = provider_name;
        provider_ref = reference;
        order_id = order_field (λ o. o.id) order;
        tracking_code = tracking_or order input.tracking_code;
        order_amount = order_field (amount_of num) order;
        provider_amount = input.provider_amount;
        fee_amount = input.fee_amount;
        net_amount = input.net_amount;
        currency = currency;
        provider_status = input.provider_status;
        match_status = match_status;
        review_status = previous_review existing (first_review num match_status);
        note = or_note input.note (previous_note existing);
        settled_at = input.settled_at;
        imported_at = desk.now;
      }

  pub data EventResult : Type 0 where
    recorded : Row num → EventResult
    thrown : String → EventResult

  -- `!Number.isFinite(amount) || amount < 0`.
  abbrev pub is_bad_amount : Num → Bool
  is_bad_amount amount = not (below amount infinity) || below amount (of_ℕ 0)

  unfoldable pub record_provider_settlement_event :
      Desk num → World → ProviderSettlementEventInput → Books → Books × EventResult
  unfolding event_row merge_rows is_currency code_units
  record_provider_settlement_event desk w input books =
      let reference = trimmed input.provider_ref in
      if not (is_given reference) || ltb 160 (code_units (chars reference))
      then (books, thrown "Provider settlement reference is invalid")
      else if is_bad_amount input.provider_amount
      then (books, thrown "Provider settlement amount is invalid")
      else if not (is_currency (chars (desk.upper (trimmed input.currency))))
      then (books, thrown "Provider settlement currency is invalid")
      else (
        merge_rows input.organization_id (event_row desk w input books ∷ []) books,
        recorded (event_row desk w input books),
      )

  -- `if (rows.length) memory.set(organizationId, rows)`.
  unfoldable pub load_persisted : String → List (Row num) → Books → Books
  unfolding set_rows
  load_persisted tenant [] books = books
  load_persisted tenant (r ∷ rs) books = set_rows tenant (r ∷ rs) books

  unfoldable pub list_settlement_rows :
      String → List (Row num) → Books → Books × PaymentSettlementSummary
  unfolding load_persisted summarize
  list_settlement_rows tenant persisted books =
      let loaded = load_persisted tenant persisted books in (loaded, summarize tenant none loaded)

  abbrev pub has_id : String → Row num → Bool
  has_id id r = r.id == id

  abbrev note_of : Option String → Option String
  note_of none = none
  note_of (some t) = text? (trimmed t)

  abbrev pub reviewed : SettlementReviewStatus → Option String → Row num → Row num
  reviewed status note r = record r { review_status = status; note = note_of note }

  -- The first row with the identifier is changed in place.
  unfoldable pub review_settlement :
      String
      → List (Row num)
      → String
      → SettlementReviewStatus
      → Option String
      → Books
      → Books × Option (Row num)
  unfolding load_persisted rows_of set_rows find modify_first
  review_settlement tenant persisted id status note books =
      let loaded = load_persisted tenant persisted books in
      let rows = rows_of tenant loaded in
      elim (find (has_id id) rows) [
        | none ↦ (loaded, none)
        | some r ↦ (
          set_rows tenant (modify_first (has_id id) (reviewed status note) rows) loaded,
          some (reviewed status note r),
        )
      ]
