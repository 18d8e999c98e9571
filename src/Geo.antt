-- ===== src/Geo.antt =====
-- Distances, from apps/api/src/services/optimizer.ts. A JavaScript number is a double, for which
-- the tools have no model: the operations that the source uses are the fields of a record, and
-- every result holds for any such record, or names the laws that it needs. `date` is
-- `new Date(x).toISOString()`: the number without its fraction, or nothing where it throws, for NaN
-- and for numbers beyond the range of dates.
use real_time_logistics_plat.Common.{ℕ, Bool, true, false, Option, some, ◌≡◌}
use real_time_logistics_plat.Model.{ℤ, Coordinate}

pub record JsNumber : Type 1 where
  pub Num : Type 0
  pub of_ℕ : ℕ → Num
  pub degrees : ℤ → Num
  pub add : Num → Num → Num
  pub sub : Num → Num → Num
  pub mul : Num → Num → Num
  pub div : Num → Num → Num
  pub max : Num → Num → Num
  pub sin : Num → Num
  pub cos : Num → Num
  pub asin : Num → Num
  pub sqrt : Num → Num
  pub pi : Num
  pub infinity : Num
  pub round : Num → Num
  pub ceil : Num → Num
  pub two_decimals : Num → Num
  pub date : Num → Option Num
  pub ltb : Num → Num → Bool
  pub leb : Num → Num → Bool

-- Comparisons of numbers none of which is NaN, and the addition of 0.00001.
pub record IsOrdered (num : JsNumber) : Type 0 where
  pub irrefl : (a : num.Num) → num.ltb a a ≡ false
  pub trans : (a b c : num.Num) → num.ltb a b ≡ true → num.ltb b c ≡ true → num.ltb a c ≡ true
  pub cotrans : (a b c : num.Num) → num.ltb a b ≡ false → num.ltb b c ≡ false → num.ltb a c ≡ false
  pub add_tolerance :
      (a b : num.Num)
      → num.ltb (num.add a (num.div (num.of_ℕ 1) (num.of_ℕ 100000))) b ≡ true
      → num.ltb a b ≡ true

-- Cutting off a fraction passes no whole number.
pub record KeepsDates (num : JsNumber) : Type 0 where
  pub before :
      (a t : num.Num) (n : ℕ)
      → num.date a ≡ some t
      → num.ltb t (num.of_ℕ n) ≡ true
      → num.ltb a (num.of_ℕ n) ≡ true
  pub after :
      (a t : num.Num) (n : ℕ)
      → num.date a ≡ some t
      → num.ltb (num.of_ℕ n) t ≡ true
      → num.ltb (num.of_ℕ n) a ≡ true

module _ (num : JsNumber) where
  open num use {Num, of_ℕ, degrees, add, sub, mul, div, sin, cos, asin, sqrt, pi}

  abbrev square : Num → Num
  square x = mul x x

  unfoldable pub haversine_km : Coordinate → Coordinate → Num
  haversine_km a b =
      let rad = div pi (of_ℕ 180) in
      let d_lat = mul (sub (degrees b.lat) (degrees a.lat)) rad in
      let d_lng = mul (sub (degrees b.lng) (degrees a.lng)) rad in
      let q = add (square (sin (div d_lat (of_ℕ 2)))) (
        mul (mul (cos (mul (degrees a.lat) rad)) (cos (mul (degrees b.lat) rad)))
          (square (sin (div d_lng (of_ℕ 2))))) in
      mul (mul (of_ℕ 2) (of_ℕ 6371)) (asin (sqrt q))
