-- ===== src/Bulk/Import.antt =====
-- `runBulkImport` of apps/api/src/app.ts: the candidates of a file are judged one by one, and the
-- orders are created only where there is no issue and the run is no rehearsal.
use real_time_logistics_plat.Common.{
  ℕ, suc, String, Bool, true, false, not, ◌&&◌, ◌||◌, Option, none, some, List, [], ◌∷◌, ◌++◌,
  length, includes, if◌then◌else◌,
}
use real_time_logistics_plat.Model.{User, Order, Coordinate}
use real_time_logistics_plat.Store.{
  World, Context, OrderInput, new_order, create_order, set_delivery_pin, list_orders,
}
use real_time_logistics_plat.Api.{Response, accepted, refused, internal_error, finish}
use real_time_logistics_plat.Orders.Create.{ServiceArea, withdraw}
use real_time_logistics_plat.Settlements.{text?}
use real_time_logistics_plat.Bulk.{
  BulkOrderCandidate, BulkOrderIssue, ParseResult, parsed, thrown, field_of, parse_bulk_order_csv,
}

-- The texts that the schema is given, before their numbers are read.
pub record ImportInput : Type 0 where
  pub customer_name : String
  pub customer_email : String
  pub pickup_label : String
  pub pickup_lat : String
  pub pickup_lng : String
  pub dropoff_label : String
  pub dropoff_lat : String
  pub dropoff_lng : String
  pub package_weight_kg : String
  pub priority : String
  pub amount : String
  pub currency : String
  pub promised_at : String
  pub delivery_window_start : Option String
  pub delivery_notes : Option String
  pub parcel_code : Option String
  pub recipient_pin : Option String

-- A candidate that passed: its order, its pin and its line.
pub record ValidOrder : Type 0 where
  pub input : OrderInput
  pub pin : String
  pub row : ℕ

-- What the schema answers: the order and the pin, or the first issue.
pub data Validated : Type 0 where
  valid : OrderInput → String → Validated
  invalid : Option String → String → Validated

-- Other code's answers: the mapping to lower case, the schema with its reading of numbers and
-- dates, and the service areas of a tenant.
pub record Importer : Type 0 where
  pub lower : String → String
  pub validate : ImportInput → Validated
  pub service_area : String → Coordinate → ServiceArea

unfoldable pub input_of : Importer → BulkOrderCandidate → ImportInput
unfolding field_of
input_of env c = record {
  customer_name = field_of c "customerName";
  customer_email = field_of c "customerEmail";
  pickup_label = field_of c "pickupLabel";
  pickup_lat = field_of c "pickupLat";
  pickup_lng = field_of c "pickupLng";
  dropoff_label = field_of c "dropoffLabel";
  dropoff_lat = field_of c "dropoffLat";
  dropoff_lng = field_of c "dropoffLng";
  package_weight_kg = field_of c "packageWeightKg";
  priority = env.lower (field_of c "priority");
  amount = field_of c "amount";
  currency = field_of c "currency";
  promised_at = field_of c "promisedAt";
  delivery_window_start = text? (field_of c "deliveryWindowStart");
  delivery_notes = text? (field_of c "deliveryNotes");
  parcel_code = text? (field_of c "parcelCode");
  recipient_pin = text? (field_of c "recipientPin");
}

-- The parcel codes that the tenant's orders have.
unfoldable pub codes_of : List Order → List String
codes_of [] = []
codes_of (o ∷ os) = elim o.parcel_code [ none ↦ codes_of os | some code ↦ code ∷ codes_of os ]

abbrev pub is_known : List String → Option String → Bool
is_known codes none = false
is_known codes (some code) = includes codes code

pub data Verdict : Type 0 where
  taken : ValidOrder → Verdict
  rejected : BulkOrderIssue → Verdict

abbrev is_outside : ServiceArea → Bool
is_outside area = area.enforced && not area.in_service_area

abbrev judge_valid : Importer → User → List String → ℕ → OrderInput → String → Verdict
judge_valid env actor codes row input pin =
    if is_known codes input.parcel_code
    then rejected
        (record { row = row; field = some "parcelCode"; message = "Parcel code already exists" })
    else if is_outside (env.service_area actor.organization_id input.dropoff.coordinate)
    then rejected (record {
      row = row;
      field = some "dropoff";
      message = "Drop-off is outside every active service territory";
    })
    else taken (record { input = input; pin = pin; row = row })

unfoldable pub judge : Importer → User → List String → BulkOrderCandidate → Verdict
unfolding input_of includes
judge env actor codes c = elim (env.validate (input_of env c)) [
  | invalid field message ↦
      rejected (record { row = c.row_number; field = field; message = message })
  | valid input pin ↦ judge_valid env actor codes c.row_number input pin
]

abbrev with_code : Option String → List String → List String
with_code none codes = codes
with_code (some code) codes = code ∷ codes

unfoldable pub codes_after : List String → Verdict → List String
codes_after codes (taken v) = with_code v.input.parcel_code codes
codes_after codes (rejected i) = codes

unfoldable pub place :
    Verdict → List ValidOrder × List BulkOrderIssue → List ValidOrder × List BulkOrderIssue
place (taken v) (orders, issues) = (v ∷ orders, issues)
place (rejected i) (orders, issues) = (orders, i ∷ issues)

-- The loop over the candidates, with the codes that are known so far.
unfoldable pub select :
    Importer → User → List String → List BulkOrderCandidate → List ValidOrder × List BulkOrderIssue
unfolding judge codes_after place
select env actor codes [] = ([], [])
select env actor codes (c ∷ cs) =
    let verdict = judge env actor codes c in
    place verdict (select env actor (codes_after codes verdict) cs)

pub record ImportResult : Type 0 where
  pub dry_run : Bool
  pub total_rows : ℕ
  pub valid_rows : ℕ
  pub invalid_rows : ℕ
  pub created_orders : List Order
  pub issues : List BulkOrderIssue

-- Creation, pin, transaction, audit and notification of one order; each candidate is a request.
unfoldable pub store_order : Context → User → ValidOrder → World → World × Response
unfolding create_order set_delivery_pin finish
store_order ctx actor v w =
    let o = new_order ctx v.input actor in
    let w1 = set_delivery_pin ctx o.id v.pin (create_order ctx v.input actor w) in
    if ctx.persisted
    then finish ctx actor "order.created" 201 o "order_created" w1
    else (w1, internal_error)

-- Every created order is taken out again: they stand in front.
unfoldable pub withdraw_all : List Order → World → World
unfolding withdraw
withdraw_all [] w = w
withdraw_all (_ ∷ os) w = withdraw_all os (withdraw w)

pub data Creation : Type 0 where
  finished : World → List Order → Creation
  broken : World → Creation

unfoldable pub after : List Order → World × Response → (World → Creation) → Creation
unfolding withdraw_all
after created (w, accepted code o) next = next w
after created (w, refused code message) next = broken (withdraw_all created w)

-- The loop that creates, in the i-th round with the i-th request.
unfoldable pub create_all :
    (ℕ → Context) → User → ℕ → List ValidOrder → List Order → World → Creation
unfolding store_order after
create_all requests actor i [] created w = finished w created
create_all requests actor i (v ∷ vs) created w =
    let created' = created ++ new_order (requests i) v.input actor ∷ [] in
    after created' (store_order (requests i) actor v w)
      (λ w'. create_all requests actor (suc i) vs created' w')

pub data ImportOutcome : Type 0 where
  imported : ImportResult → ImportOutcome
  unreadable : String → ImportOutcome
  aborted : ImportOutcome

abbrev pub is_empty : List BulkOrderIssue → Bool
is_empty [] = true
is_empty (_ ∷ _) = false

abbrev result_of : Bool → ℕ → List ValidOrder → List BulkOrderIssue → List Order → ImportResult
result_of dry_run total valid_orders issues created = record {
  dry_run = dry_run;
  total_rows = total;
  valid_rows = length valid_orders;
  invalid_rows = length issues;
  created_orders = created;
  issues = issues;
}

unfoldable pub outcome_of :
    ℕ → List ValidOrder → List BulkOrderIssue → Creation → World × ImportOutcome
outcome_of total valid_orders issues (finished w created) =
    (w, imported (result_of false total valid_orders issues created))
outcome_of total valid_orders issues (broken w) = (w, aborted)

-- The candidates that passed, with all issues.
unfoldable pub import_selected :
    (ℕ → Context)
    → User
    → Bool
    → ℕ
    → List ValidOrder
    → List BulkOrderIssue
    → World
    → World × ImportOutcome
unfolding create_all outcome_of
import_selected requests actor dry_run total valid_orders issues w =
    if dry_run || not (is_empty issues)
    then (w, imported (result_of dry_run total valid_orders issues []))
    else outcome_of total valid_orders issues (create_all requests actor 0 valid_orders [] w)

unfoldable pub import_parsed :
    Importer → (ℕ → Context) → User → Bool → World → ParseResult → World × ImportOutcome
unfolding select codes_of list_orders import_selected
import_parsed env requests actor dry_run w (thrown message) = (w, unreadable message)
import_parsed env requests actor dry_run w (parsed p) =
    let chosen = select env actor (codes_of (list_orders actor.organization_id w)) p.candidates in
    import_selected requests actor dry_run p.total_rows chosen.0 (p.issues ++ chosen.1) w

unfoldable pub run_bulk_import :
    Importer → (ℕ → Context) → User → String → Bool → World → World × ImportOutcome
unfolding parse_bulk_order_csv import_parsed
run_bulk_import env requests actor csv dry_run w =
    import_parsed env requests actor dry_run w (parse_bulk_order_csv env.lower csv)
