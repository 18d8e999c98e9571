-- ===== src/Optimizer/Improvement.antt =====
-- What 2-opt of apps/api/src/services/optimizer.ts gains.
use real_time_logistics_plat.Common.{ℕ, ◌≤◌, Bool, true, false, List, ◌≡◌, inl, inr, Bool-cases}
use real_time_logistics_plat.Model.{Coordinate}
use real_time_logistics_plat.Geo.{JsNumber, IsOrdered}
use real_time_logistics_plat.Optimizer.{
  Stop, reversed, route_length, is_shorter, try_reversal, two_opt,
}
use real_time_logistics_plat.Optimizer.Passes.{two_opt_lem}

module _ (num : JsNumber) (laws : IsOrdered num) (start : Coordinate) (return_to_depot : Bool) where
  not_less : (a b : num.Num) → num.ltb a b ≡ true → num.ltb b a ≡ false
  not_less a b h = elim (Bool-cases (num.ltb b a)) [
    | inl e ↦ cc (laws.irrefl a, laws.trans a b a h e)
    | inr e ↦ e
  ]

  -- The second route is not shorter than the first.
  abbrev NoLonger : List Stop → List Stop → Type 0
  NoLonger a b =
      num.ltb (route_length num start b return_to_depot) (route_length num start a return_to_depot)
      ≡ false

  exchange :
      (i j : ℕ) (state : List Stop × Bool)
      → i ≤ j
      → NoLonger (try_reversal num start return_to_depot i j state).0 state.0
  unfolding try_reversal
  exchange i j (route, improved) h =
      elim (Bool-cases (is_shorter num start return_to_depot (reversed i j route) route)) [
        | inl e ↦ rw (e, try_reversal) (not_less _ _ (laws.add_tolerance _ _ e))
        | inr e ↦ rw (e, try_reversal) (laws.irrefl _)
      ]

  -- The improved route is never longer than the one that 2-opt was given, where numbers compare
  -- as numbers that are not NaN do.
  pub two_opt-route_length :
      (loops : ℕ) (route : List Stop)
      → num.ltb
          (route_length num start route return_to_depot)
          (route_length num start (two_opt num start return_to_depot loops route) return_to_depot)
        ≡ false
  two_opt-route_length =
      two_opt_lem num start return_to_depot NoLonger (λ a. laws.irrefl _)
        (λ a b c p q. laws.cotrans _ _ _ q p) exchange
