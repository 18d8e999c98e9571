-- ===== src/Idempotency/Exclusion.antt =====
-- Who holds the lock.
use real_time_logistics_plat.Common.{
  ℕ, ◌<◌, true, ◌≡◌, inl, inr, refl, arith, ltb, ltb→lt, Bool-cases,
}
use real_time_logistics_plat.Idempotency.{
  Gate, Phase, absent, waiting, checking, running, left, finished, is_released, holds,
}
use real_time_logistics_plat.Idempotency.Steps.{AnyStep, Reach}
use real_time_logistics_plat.Idempotency.Order.{has_entered, Before, InOrder, Reach-InOrder}

holds-has_entered : (p : Phase) → holds p ≡ true → has_entered p ≡ true
holds-has_entered checking h = refl
holds-has_entered running h = refl
holds-has_entered absent h = cc
holds-has_entered waiting h = cc
holds-has_entered left h = cc
holds-has_entered finished h = cc

holds-not_released : (p : Phase) → holds p ≡ true → is_released p ≡ true → ⊥
holds-not_released checking h k = cc
holds-not_released running h k = cc
holds-not_released absent h k = cc
holds-not_released waiting h k = cc
holds-not_released left h k = cc
holds-not_released finished h k = cc

-- Where the requests are served in order, a holder comes after no other one.
not_later :
    (g : Gate) (i j : ℕ)
    → InOrder g
    → holds (g.phase i) ≡ true
    → holds (g.phase j) ≡ true
    → i < j
    → ⊥
not_later g i j o hi hj lt =
    holds-not_released (g.phase i) hi (o.entered j (holds-has_entered (g.phase j) hj) i lt)

pub one_holder :
    (g : Gate) (i j : ℕ) → InOrder g → holds (g.phase i) ≡ true → holds (g.phase j) ≡ true → i ≡ j
one_holder g i j o hi hj = elim (Bool-cases (ltb i j)) [
  | inl e ↦ absurd (not_later g i j o hi hj (ltb→lt i j e))
  | inr e ↦ elim (Bool-cases (ltb j i)) [
    | inl f ↦ absurd (not_later g j i o hj hi (ltb→lt j i f))
    | inr f ↦ ground arith
  ]
]

-- Whatever the requests do and however they interleave, closed connections included, no two hold
-- the lock of a key at one time, and all that asked for it before the holder have released it.
pub mutual_exclusion :
    {g : Gate} (i j : ℕ)
    → Reach AnyStep g
    → holds (g.phase i) ≡ true
    → holds (g.phase j) ≡ true
    → (i ≡ j) × Before g.phase i
mutual_exclusion {g} i j r hi hj =
    let o = Reach-InOrder r in
    (one_holder g i j o hi hj, o.entered i (holds-has_entered (g.phase i) hi))
