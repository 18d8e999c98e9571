-- ===== src/Bulk.antt =====
-- The import of orders from a file: apps/api/src/services/bulkOrders.ts. Import has the function of
-- apps/api/src/app.ts that creates the orders.
pub mod Import
pub mod Parsed
pub mod Created
pub mod Outcome
pub mod Jobs
pub mod Settled
pub mod Later
use real_time_logistics_plat.Common.{
  ℕ, suc, ◌+◌, ◌-◌, String, concat, Bool, true, false, not, Option, none, some, List, [], ◌∷◌, ◌==◌,
  filter, find, map, includes, length, ltb, if◌then◌else◌,
}
use real_time_logistics_plat.Csv.{chars, text, parse_csv}
use real_time_logistics_plat.Settlements.{is_given, trimmed, joined_gaps}
use real_time_logistics_plat.Settlements.Service.{code_units}

-- A candidate is an object whose keys are assigned one by one: the list has the last assignment in
-- front.
pub record BulkOrderCandidate : Type 0 where
  pub row_number : ℕ
  pub fields : List (String × String)

pub record BulkOrderIssue : Type 0 where
  pub row : ℕ
  pub field : Option String
  pub message : String

abbrev pub aliases : List (String × String)
aliases =
    ("customer_name", "customerName")
    ∷ ("customer", "customerName")
    ∷ ("customer_email", "customerEmail")
    ∷ ("email", "customerEmail")
    ∷ ("pickup_label", "pickupLabel")
    ∷ ("pickup_address", "pickupLabel")
    ∷ ("pickup_lat", "pickupLat")
    ∷ ("pickup_latitude", "pickupLat")
    ∷ ("pickup_lng", "pickupLng")
    ∷ ("pickup_lon", "pickupLng")
    ∷ ("pickup_longitude", "pickupLng")
    ∷ ("dropoff_label", "dropoffLabel")
    ∷ ("dropoff_address", "dropoffLabel")
    ∷ ("dropoff_lat", "dropoffLat")
    ∷ ("dropoff_latitude", "dropoffLat")
    ∷ ("dropoff_lng", "dropoffLng")
    ∷ ("dropoff_lon", "dropoffLng")
    ∷ ("dropoff_longitude", "dropoffLng")
    ∷ ("package_weight_kg", "packageWeightKg")
    ∷ ("weight_kg", "packageWeightKg")
    ∷ ("weight", "packageWeightKg")
    ∷ ("priority", "priority")
    ∷ ("amount", "amount")
    ∷ ("currency", "currency")
    ∷ ("promised_at", "promisedAt")
    ∷ ("delivery_deadline", "promisedAt")
    ∷ ("delivery_window_start", "deliveryWindowStart")
    ∷ ("delivery_notes", "deliveryNotes")
    ∷ ("parcel_code", "parcelCode")
    ∷ ("recipient_pin", "recipientPin")
    ∷ []

abbrev pub required : List String
required =
    "customerName" ∷ "customerEmail" ∷ "pickupLabel" ∷ "pickupLat" ∷ "pickupLng" ∷ "dropoffLabel"
    ∷ "dropoffLat" ∷ "dropoffLng" ∷ "packageWeightKg" ∷ "priority" ∷ "amount" ∷ "currency"
    ∷ "promisedAt" ∷ []

unfoldable pub lookup : String → List (String × String) → Option String
lookup k [] = none
lookup k ((j, v) ∷ rest) = if j == k then some v else lookup k rest

-- `candidate[key] || ""`.
abbrev value_or_empty : Option String → String
value_or_empty none = ""
value_or_empty (some v) = v

unfoldable pub field_of : BulkOrderCandidate → String → String
field_of c k = value_or_empty (lookup k c.fields)

unfoldable pub normalize : (String → String) → String → String
unfolding joined_gaps
normalize lower t = text (joined_gaps false (chars (lower (trimmed t))))

-- Whether a column is mapped to the key.
unfoldable pub maps : String → List (Option String) → Bool
maps k [] = false
maps k (none ∷ rest) = maps k rest
maps k (some j ∷ rest) = if j == k then true else maps k rest

-- `mapped.forEach(...)`: each mapped column is assigned in turn; a missing cell is empty.
unfoldable pub assign_columns :
    List (Option String) → List String → List (String × String) → List (String × String)
assign_columns [] values fields = fields
assign_columns (none ∷ keys) [] fields = assign_columns keys [] fields
assign_columns (none ∷ keys) (v ∷ values) fields = assign_columns keys values fields
assign_columns (some k ∷ keys) [] fields = assign_columns keys [] ((k, "") ∷ fields)
assign_columns (some k ∷ keys) (v ∷ values) fields = assign_columns keys values ((k, v) ∷ fields)

-- `required.find((key) => !String(candidate[key] || "").trim())`.
abbrev pub is_blank : BulkOrderCandidate → String → Bool
is_blank c k = not (is_given (trimmed (field_of c k)))

unfoldable pub missing_value : BulkOrderCandidate → Option String
unfolding find field_of
missing_value c = find (is_blank c) required

pub record ParsedOrders : Type 0 where
  pub candidates : List BulkOrderCandidate
  pub issues : List BulkOrderIssue
  pub total_rows : ℕ

abbrev pub candidate_of : List (Option String) → ℕ → List String → BulkOrderCandidate
candidate_of mapped row values = record {
  row_number = row;
  fields = assign_columns mapped values [];
}

abbrev pub missing_issue : ℕ → String → BulkOrderIssue
missing_issue row key = record {
  row = row;
  field = some key;
  message = "Required value is missing";
}

abbrev pub with_candidate :
    BulkOrderCandidate
    → List BulkOrderCandidate × List BulkOrderIssue
    → List BulkOrderCandidate × List BulkOrderIssue
with_candidate c (candidates, issues) = (c ∷ candidates, issues)

abbrev pub with_issue :
    BulkOrderIssue
    → List BulkOrderCandidate × List BulkOrderIssue
    → List BulkOrderCandidate × List BulkOrderIssue
with_issue i (candidates, issues) = (candidates, i ∷ issues)

-- The loop over the lines, the first of which has the given number.
unfoldable pub parse_lines :
    List (Option String) → ℕ → List (List String) → List BulkOrderCandidate × List BulkOrderIssue
unfolding missing_value assign_columns
parse_lines mapped row [] = ([], [])
parse_lines mapped row (values ∷ lines) =
    let rest = parse_lines mapped (suc row) lines in
    elim (missing_value (candidate_of mapped row values)) [
      | none ↦ with_candidate (candidate_of mapped row values) rest
      | some key ↦ with_issue (missing_issue row key) rest
    ]

pub data ParseResult : Type 0 where
  parsed : ParsedOrders → ParseResult
  thrown : String → ParseResult

-- `missing.join(", ")`.
unfoldable pub listed : List String → String
listed [] = ""
listed (k ∷ []) = k
listed (k ∷ j ∷ ks) = concat k (concat ", " (listed (j ∷ ks)))

abbrev pub is_none_missing : List String → Bool
is_none_missing [] = true
is_none_missing (_ ∷ _) = false

unfoldable pub parse_table : (String → String) → List (List String) → ParseResult
parse_table lower [] = thrown "Order CSV must contain a header and at least one row"
parse_table lower (header ∷ []) = thrown "Order CSV must contain a header and at least one row"
parse_table lower (header ∷ line ∷ lines) =
    let mapped = map (λ h. lookup (normalize lower h) aliases) header in
    let missing = filter (λ k. not (maps k mapped)) required in
    if ltb 201 (length (header ∷ line ∷ lines))
    then thrown "Order CSV may contain at most 200 rows"
    else if is_none_missing missing
    then (let found = parse_lines mapped 2 (line ∷ lines) in
        parsed (record {
          candidates = found.0;
          issues = found.1;
          total_rows = length (header ∷ line ∷ lines) - 1;
        }))
    else thrown (concat "Order CSV is missing columns: " (listed missing))

unfoldable pub parse_bulk_order_csv : (String → String) → String → ParseResult
unfolding parse_table parse_csv code_units
parse_bulk_order_csv lower csv =
    if ltb 100000 (code_units (chars csv))
    then thrown "Order CSV must be 100 KB or smaller"
    else parse_table lower (map (map text) (parse_csv (chars csv)))
