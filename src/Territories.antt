-- ===== src/Territories.antt =====
-- Service areas: apps/api/src/services/territories.ts, and POST /api/orders of apps/api/src/app.ts
-- with the answer for its drop-off.
pub mod Serving
use real_time_logistics_plat.Common.{
  ℕ, String, Bool, true, false, not, ◌&&◌, Option, none, some, List, [], ◌∷◌, ◌==◌, filter,
  if◌then◌else◌,
}
use real_time_logistics_plat.Model.{User, Coordinate}
use real_time_logistics_plat.Geo.{JsNumber}
use real_time_logistics_plat.Store.{World, Context, OrderInput}
use real_time_logistics_plat.Api.{Response}
use real_time_logistics_plat.Orders.Create.{ServiceArea, post_order}

pub record ServiceTerritory : Type 0 where
  pub id : String
  pub organization_id : String
  pub name : String
  pub polygon : List Coordinate
  pub active : Bool
  pub created_at : ℕ
  pub updated_at : ℕ

-- `a !== b` on Booleans.
abbrev pub differ : Bool → Bool → Bool
differ true b = not b
differ false b = b

abbrev pub last_of : Coordinate → List Coordinate → Coordinate
last_of c [] = c
last_of c (d ∷ ds) = last_of d ds

abbrev pub is_none_of : List ServiceTerritory → Bool
is_none_of [] = true
is_none_of (_ ∷ _) = false

unfoldable pub active_territories_for : String → List ServiceTerritory → List ServiceTerritory
active_territories_for tenant ts = filter (λ t. t.organization_id == tenant && t.active) ts

module _ (num : JsNumber) where
  abbrev lat : Coordinate → num.Num
  lat c = num.degrees c.lat

  abbrev lng : Coordinate → num.Num
  lng c = num.degrees c.lng

  -- The edge from `prior` to `current` crosses the ray from the point.
  unfoldable pub intersects : Coordinate → Coordinate → Coordinate → Bool
  intersects point prior current =
      differ (num.ltb (lng point) (lng current)) (num.ltb (lng point) (lng prior))
      && num.ltb (lat point) (
          num.add
            (num.div
              (num.mul (num.sub (lat prior) (lat current)) (num.sub (lng point) (lng current)))
              (num.sub (lng prior) (lng current)))
            (lat current))

  -- The loop, from the edge that ends at the first of the given corners.
  unfoldable pub crossings : Coordinate → Coordinate → List Coordinate → Bool → Bool
  unfolding intersects
  crossings point prior [] inside = inside
  crossings point prior (current ∷ rest) inside =
      crossings point current rest (if intersects point prior current then not inside else inside)

  unfoldable pub point_in_polygon : Coordinate → List Coordinate → Bool
  unfolding crossings
  point_in_polygon point [] = false
  point_in_polygon point (c ∷ cs) = crossings point (last_of c cs) (c ∷ cs) false

  unfoldable pub matching : Coordinate → List ServiceTerritory → List ServiceTerritory
  unfolding point_in_polygon
  matching point ts = filter (λ t. point_in_polygon point t.polygon) ts

  unfoldable pub validate_service_area : String → Coordinate → List ServiceTerritory → ServiceArea
  unfolding active_territories_for matching
  validate_service_area tenant point ts =
      let own = active_territories_for tenant ts in
      if is_none_of own
      then record { enforced = false; in_service_area = true }
      else record { enforced = true; in_service_area = not (is_none_of (matching point own)) }

  -- The whole handler: the area is asked for where the body is valid.
  unfoldable pub post_order_served :
      List ServiceTerritory
      → Context
      → User
      → Option (OrderInput × String)
      → World
      → World × Response
  unfolding post_order validate_service_area
  post_order_served ts ctx actor none w =
      post_order ctx actor none (record { enforced = false; in_service_area = true }) w
  post_order_served ts ctx actor (some (input, value)) w =
      post_order ctx actor (some (input, value))
        (validate_service_area actor.organization_id input.dropoff.coordinate ts) w
