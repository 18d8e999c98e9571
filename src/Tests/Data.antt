-- ===== src/Tests/Data.antt =====
-- A small store: two tenants, two drivers, and orders in different statuses.
use real_time_logistics_plat.Common.{
  subst, sym, some_inj, true, ◌≡◌, ℕ, suc, ◌+◌, ◌-◌, ◌*◌, ◌/◌, String, Bool, false, Option, none,
  some, [], ◌∷◌, ltb, leb, arith,
}
use real_time_logistics_plat.Model.{
  ℤ, pos, negsuc, Coordinate, Address, User, Role, dispatcher, driver, Driver, available, Order,
  OrderStatus, pending, in_transit, delivered, standard, unpaid, OrganizationSettings,
  DeliveryProof, pin,
}
use real_time_logistics_plat.Geo.{JsNumber, IsOrdered, KeepsDates}
use real_time_logistics_plat.Store.{World, Context}
use real_time_logistics_plat.Orders.Payment.{Provider}

abbrev magnitude : ℤ → ℕ
magnitude (pos n) = n
magnitude (negsuc n) = suc n

abbrev maximum : ℕ → ℕ → ℕ
maximum a b = if_less (ltb a b) a b
  where
    if_less : Bool → ℕ → ℕ → ℕ
    if_less true a b = b
    if_less false a b = a

-- Whole numbers, with a flat earth on which a degree is a kilometre.
abbrev pub whole : JsNumber
whole = record {
  Num = ℕ;
  of_ℕ = λ n. n;
  degrees = magnitude;
  add = λ a b. a + b;
  sub = λ a b. a - b;
  mul = λ a b. a * b;
  div = λ a b. a / b;
  max = maximum;
  sin = λ a. a;
  cos = λ a. 1;
  asin = λ a. a;
  sqrt = λ a. a;
  pi = 180;
  infinity = 1000000000000;
  round = λ a. a;
  ceil = λ a. a;
  two_decimals = λ a. a;
  date = λ a. some a;
  ltb = ltb;
  leb = leb;
}

pub whole-IsOrdered : IsOrdered whole
whole-IsOrdered = record {
  irrefl = λ a. ground arith;
  trans = λ a b c h k. ground arith;
  cotrans = λ a b c h k. ground arith;
  add_tolerance = λ a b h. ground arith;
}

pub whole-KeepsDates : KeepsDates whole
whole-KeepsDates = record {
  before = λ a t n e h. subst (λ x. ltb x n ≡ true) (sym (some_inj a t e)) h;
  after = λ a t n e h. subst (λ x. ltb n x ≡ true) (sym (some_inj a t e)) h;
}

abbrev pub place : ℕ → ℕ → Coordinate
place x y = record { lat = pos x; lng = pos y }

abbrev pub address : ℕ → String → Address
address x label = record { coordinate = place x 0; label = label }

abbrev user : String → String → Role → User
user id tenant role = record {
  id = id;
  organization_id = tenant;
  name = id;
  email = "someone@example.com";
  role = role;
}

abbrev pub clerk : User
clerk = user "u1" "t1" dispatcher

abbrev pub courier : User
courier = user "u2" "t1" driver

abbrev pub stranger : User
stranger = user "u9" "t2" dispatcher

abbrev pub van : String → String → Driver
van id user_id = record {
  id = id;
  user_id = user_id;
  name = id;
  status = available;
  capacity_kg = 100000;
  location = place 0 0;
  last_seen_at = 0;
  shift_start = none;
  shift_end = none;
  vehicle_plate = none;
  maintenance_due_at = none;
  maintenance_status = none;
}

abbrev pub order : String → String → OrderStatus → Option String → Option DeliveryProof → Order
order id tenant status driver_id proof = record {
  id = id;
  organization_id = tenant;
  tracking_code = id;
  customer_name = "Asha";
  customer_email = "someone@example.com";
  pickup = address 2 "depot";
  dropoff = address 8 "home";
  package_weight_kg = 2000;
  priority = standard;
  status = status;
  amount = 50000;
  currency = "INR";
  payment_status = unpaid;
  assigned_driver_id = driver_id;
  delivery_window_start = none;
  promised_at = 9000;
  estimated_arrival_at = none;
  late_risk = none;
  eta_confidence = none;
  location_age_seconds = none;
  eta_source = none;
  delivery_notes = none;
  parcel_code = some id;
  reschedule_count = none;
  cancelled_at = none;
  return_requested_at = none;
  return_reason = none;
  return_status = none;
  proof = proof;
  created_at = 1;
  updated_at = 1;
  delivered_at = some 5;
  events = [];
}

abbrev pub receipt : DeliveryProof
receipt = record {
  recipient_name = "Asha";
  signature_data = "signed";
  photo_data = none;
  verification_method = some pin;
  location = none;
  created_at = 5;
  driver_id = "d1";
}

abbrev pub settings : OrganizationSettings
settings = record {
  organization_id = "t1";
  name = "Depot";
  timezone = "UTC";
  geofence_radius_meters = 150;
  average_speed_kph = 24;
  notifications_enabled = true;
  cost_per_km = none;
  cost_per_stop = none;
}

abbrev pub world : World
world = record {
  users = clerk ∷ courier ∷ stranger ∷ [];
  drivers = van "d1" "u2" ∷ van "d2" "u4" ∷ [];
  orders =
      order "o1" "t1" in_transit (some "d1") none
      ∷ order "o2" "t1" pending none none
      ∷ order "o3" "t2" pending none none
      ∷ order "o4" "t1" delivered (some "d1") (some receipt)
      ∷ [];
  notification_records = [];
  audit_records = [];
  parcel_scans = [];
  organization_settings = settings;
  organization_settings_by_tenant = [];
  delivery_pins = ("o1", "1234") ∷ [];
}

-- A request whose transaction is committed, or not.
abbrev pub request : Bool → Context
request persisted = record {
  now = 7;
  uuid = λ k. "fresh";
  tracking_code = "RP-1";
  parcel_code = "PKG-1";
  pin_hash = λ s. s;
  lower = λ s. s;
  persisted = persisted;
  audited = true;
  mailed = none;
  recorded = true;
}

abbrev pub provider : Provider
provider = record {
  key_id = none;
  key_secret = none;
  hmac = λ k s. s;
  as_uuid = λ s. s;
  mapped_order_id = λ s. none;
}
