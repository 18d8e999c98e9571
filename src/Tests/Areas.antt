-- ===== src/Tests/Areas.antt =====
-- The theorem on service areas, at a triangle around the drop-off.
use real_time_logistics_plat.Common.{true, none, some, [], ◌∷◌}
use real_time_logistics_plat.Model.{standard}
use real_time_logistics_plat.Store.{OrderInput}
use real_time_logistics_plat.Territories.{ServiceTerritory, post_order_served}
use real_time_logistics_plat.Territories.Serving.{Creates, post_order_served-Creates}
use real_time_logistics_plat.Tests.Data.{whole, world, request, clerk, place, address}

abbrev triangle : ServiceTerritory
triangle = record {
  id = "a1";
  organization_id = "t1";
  name = "Centre";
  polygon = place 0 0 ∷ place 9 0 ∷ place 9 9 ∷ [];
  active = true;
  created_at = 1;
  updated_at = 1;
}

abbrev input : OrderInput
input = record {
  customer_name = "Asha";
  customer_email = "someone@example.com";
  pickup = address 2 "depot";
  dropoff = address 8 "home";
  package_weight_kg = 2000;
  priority = standard;
  amount = 50000;
  currency = "INR";
  delivery_window_start = none;
  promised_at = 9000;
  delivery_notes = none;
  parcel_code = none;
}

post_order_served-Creates_example :
    Creates whole
      (triangle ∷ [])
      world
      (post_order_served whole (triangle ∷ []) (request true) clerk (some (input, "1234")) world)
post_order_served-Creates_example =
    post_order_served-Creates whole (triangle ∷ []) (request true) clerk (some (input, "1234"))
      world
