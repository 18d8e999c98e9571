-- ===== src/Optimizer/Passes.antt =====
-- The loops of 2-opt in apps/api/src/services/optimizer.ts: what each exchange gives, all of them
-- give together.
use real_time_logistics_plat.Common.{
  ℕ, zero, suc, ◌-◌, ◌≤◌, Bool, false, List, [], ◌∷◌, inl, inr, arith, length, Bool-cases, All,
}
use real_time_logistics_plat.Model.{Coordinate}
use real_time_logistics_plat.Geo.{JsNumber}
use real_time_logistics_plat.Optimizer.{Stop, range, try_reversal, sweep_from, sweep, two_opt}

range-All : (i k n : ℕ) → i ≤ k → All (λ j. i ≤ j) (range k n)
unfolding range
range-All i k zero h = tt
range-All i k (suc n) h = (h, range-All i (suc k) n (omega arith))

module _ (num : JsNumber) (start : Coordinate) (return_to_depot : Bool)
    (R : List Stop → List Stop → Type 0) (same : (a : List Stop) → R a a)
    (joined : (a b c : List Stop) → R a b → R b c → R a c)
    (exchange : (i j : ℕ) (state : List Stop × Bool)
      → i ≤ j
      → R (try_reversal num start return_to_depot i j state).0 state.0) where
  sweep_from_lem :
      (i : ℕ) (js : List ℕ) (state : List Stop × Bool)
      → All (λ j. i ≤ j) js
      → R (sweep_from num start return_to_depot i js state).0 state.0
  unfolding sweep_from
  sweep_from_lem i [] state h = same state.0
  sweep_from_lem i (j ∷ js) state h =
      joined _ _ _ (sweep_from_lem i js (try_reversal num start return_to_depot i j state) h.1)
        (exchange i j state h.0)

  sweep_lem :
      (n : ℕ) (is : List ℕ) (state : List Stop × Bool)
      → R (sweep num start return_to_depot n is state).0 state.0
  unfolding sweep
  sweep_lem n [] state = same state.0
  sweep_lem n (i ∷ is) state = joined _ _ _ (sweep_lem n is _) (
      sweep_from_lem i (range (suc i) (n - suc i)) state
        (range-All i (suc i) (n - suc i) (omega arith)))

  pub two_opt_lem :
      (n : ℕ) (route : List Stop) → R (two_opt num start return_to_depot n route) route
  unfolding two_opt
  two_opt_lem zero route = same route
  two_opt_lem (suc n) route =
      let is = range 0 (length route - 1) in
      let swept = sweep_lem (length route) is (route, false) in
      let out = sweep num start return_to_depot (length route) is (route, false) in
      elim (Bool-cases out.1) [
        | inl e ↦ rw (e, two_opt) (joined _ _ _ (two_opt_lem n out.0) swept)
        | inr e ↦ rw (e, two_opt) swept
      ]
