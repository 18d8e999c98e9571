-- ===== src/Tests/Bulk.antt =====
-- The theorems on the import of orders, at a file with a line that is read and one that is not.
use real_time_logistics_plat.Common.{
  map, ℕ, String, false, true, none, some, [], ◌∷◌, ◌≡◌, refl, filter, find, concat, length,
}
use real_time_logistics_plat.Csv.{chars, text, parse_csv}
use real_time_logistics_plat.Model.{standard}
use real_time_logistics_plat.Store.{World, OrderInput}
use real_time_logistics_plat.Bulk.{
  ParsedOrders, parsed, parse_bulk_order_csv, maps, lookup, normalize, parse_lines, missing_value,
}
use real_time_logistics_plat.Bulk.Import.{
  Importer, ImportInput, valid, imported, unreadable, aborted, ImportOutcome, run_bulk_import,
}
use real_time_logistics_plat.Bulk.Parsed.{ReadsAll, parse_bulk_order_csv-ReadsAll}
use real_time_logistics_plat.Tests.Data.{address, clerk, request, world}

abbrev header : String
header =
    "customer,email,pickup_label,pickup_lat,pickup_lng,dropoff_label,dropoff_lat,dropoff_lng,weight,priority,amount,currency,promised_at"

abbrev line : String
line = "Ann,a@b.c,P,1,2,D,3,4,2,standard,500,INR,2026-01-01"

abbrev csv : String
csv =
    concat header (concat "\n" (concat line "\nBob,b@b.c,,1,2,D,3,4,2,standard,500,INR,2026-01-01"))

abbrev two : ParsedOrders
two = record {
  candidates =
      record {
        row_number = 2;
        fields =
            ("promisedAt", "2026-01-01")
            ∷ ("currency", "INR")
            ∷ ("amount", "500")
            ∷ ("priority", "standard")
            ∷ ("packageWeightKg", "2")
            ∷ ("dropoffLng", "4")
            ∷ ("dropoffLat", "3")
            ∷ ("dropoffLabel", "D")
            ∷ ("pickupLng", "2")
            ∷ ("pickupLat", "1")
            ∷ ("pickupLabel", "P")
            ∷ ("customerEmail", "a@b.c")
            ∷ ("customerName", "Ann")
            ∷ [];
      }
      ∷ [];
  issues =
      record { row = 3; field = some "pickupLabel"; message = "Required value is missing" } ∷ [];
  total_rows = 2;
}

reads_two : parse_bulk_order_csv (λ s. s) csv ≡ parsed two
unfolding parse_bulk_order_csv chars filter maps lookup normalize text parse_lines
reads_two = refl

parse_bulk_order_csv-ReadsAll_example :
    ReadsAll (λ s. s) (map (map text) (parse_csv (chars csv))) two
parse_bulk_order_csv-ReadsAll_example = parse_bulk_order_csv-ReadsAll (λ s. s) csv two reads_two

abbrev order_input : ImportInput → OrderInput
order_input i = record {
  customer_name = i.customer_name;
  customer_email = i.customer_email;
  pickup = address 1 "P";
  dropoff = address 2 "D";
  package_weight_kg = 2;
  priority = standard;
  amount = 500;
  currency = i.currency;
  delivery_window_start = none;
  promised_at = 9;
  delivery_notes = none;
  parcel_code = i.parcel_code;
}

abbrev importer : Importer
importer = record {
  lower = λ s. s;
  validate = λ i. valid (order_input i) "1234";
  service_area = λ tenant point. record { enforced = false; in_service_area = false };
}

abbrev one_line : String
one_line = concat header (concat "\n" line)

-- That line becomes an order.
abbrev created_count : World × ImportOutcome → ℕ
created_count (w, imported r) = length r.created_orders
created_count (w, unreadable message) = 0
created_count (w, aborted) = 0

imports_one_line :
    created_count (run_bulk_import importer (λ i. request true) clerk one_line false world) ≡ 1
unfolding run_bulk_import chars filter maps lookup normalize text parse_lines missing_value find
imports_one_line = refl

-- Where the transaction is refused, nothing is created.
imports_nothing :
    created_count (run_bulk_import importer (λ i. request false) clerk one_line false world) ≡ 0
unfolding run_bulk_import chars filter maps lookup normalize text parse_lines missing_value find
imports_nothing = refl
