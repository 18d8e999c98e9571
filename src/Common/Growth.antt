-- ===== src/Common/Growth.antt =====
-- Lists that grow at the end while their elements change: the values of a map, for example.
use mathlib.Core.Path.{◌≡◌}
use mathlib.Core.Logic.{inl, inr}
use mathlib.Core.Bool.{Bool}
use mathlib.Core.List.{List, [], ◌∷◌, ◌++◌}
use mathlib.Core.Option.{some}
use real_time_logistics_plat.Common.Tests.{Bool-cases}
use real_time_logistics_plat.Common.Lists.{find, modify_first}

-- The first list stands, changed or not, at the head of the second.
abbrev pub Grows : {A : Type 0} → (A → A → Type 0) → List A → List A → Type 0
Grows R [] ys = Unit
Grows R (x ∷ xs) [] = ⊥
Grows R (x ∷ xs) (y ∷ ys) = R x y × Grows R xs ys

module _ {A : Type 0} (R : A → A → Type 0) (same : (x : A) → R x x) where
  pub Grows-refl : (xs ys : List A) → Grows R xs (xs ++ ys)
  Grows-refl [] ys = tt
  Grows-refl (x ∷ xs) ys = (same x, Grows-refl xs ys)

  pub Grows-same : (xs : List A) → Grows R xs xs
  Grows-same [] = tt
  Grows-same (x ∷ xs) = (same x, Grows-same xs)

  pub Grows-trans :
      (joined : (x y z : A) → R x y → R y z → R x z) (xs ys zs : List A)
      → Grows R xs ys
      → Grows R ys zs
      → Grows R xs zs
  Grows-trans joined [] ys zs p q = tt
  Grows-trans joined (x ∷ xs) [] zs p q = absurd p
  Grows-trans joined (x ∷ xs) (y ∷ ys) [] p q = absurd q
  Grows-trans joined (x ∷ xs) (y ∷ ys) (z ∷ zs) p q =
      (joined x y z p.0 q.0, Grows-trans joined xs ys zs p.1 q.1)

  pub modify_first-Grows :
      (p : A → Bool) (f : A → A) (xs : List A)
      → ((x : A) → find p xs ≡ some x → R x (f x))
      → Grows R xs (modify_first p f xs)
  unfolding find modify_first
  modify_first-Grows p f [] k = tt
  modify_first-Grows p f (y ∷ ys) k = elim (Bool-cases (p y)) [
    | inl e ↦ rw e (k y (rw e), Grows-same ys)
    | inr e ↦ rw e (same y, modify_first-Grows p f ys (λ x m. k x (rw (e, find) m)))
  ]
