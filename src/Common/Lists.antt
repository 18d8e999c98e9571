-- ===== src/Common/Lists.antt =====
-- Arrays: search, in-place change of the element that a search returns, and predicates on all
-- elements. `find` and `modify_first` model an array of mutable objects: `xs.find(p)` returns a
-- reference to the first match, and an assignment through it changes that element alone.
use Prim.Native.Nat.{ℕ, zero, suc}
use mathlib.Core.Path.{◌≡◌, refl, subst}
use mathlib.Core.Bool.{Bool, true, false}
use mathlib.Core.List.{List, [], ◌∷◌, Memᴰ}
use mathlib.Core.Option.{Option, none, some}
use native.Mathlib.Omega.{arith}
use real_time_logistics_plat.Common.Tests.{if◌then◌else◌, Bool-cases}
use mathlib.Core.Logic.{inl, inr}

module _ {ℓ} {A : Type ℓ} where
  abbrev pub length : List A → ℕ
  length [] = 0
  length (x ∷ xs) = suc (length xs)

  unfoldable pub find : (A → Bool) → List A → Option A
  find p [] = none
  find p (x ∷ xs) = if p x then some x else find p xs

  unfoldable pub modify_first : (A → Bool) → (A → A) → List A → List A
  modify_first p f [] = []
  modify_first p f (x ∷ xs) = if p x then f x ∷ xs else x ∷ modify_first p f xs

  unfoldable pub filter : (A → Bool) → List A → List A
  filter p [] = []
  filter p (x ∷ xs) = if p x then x ∷ filter p xs else filter p xs

  unfoldable pub any : (A → Bool) → List A → Bool
  any p [] = false
  any p (x ∷ xs) = if p x then true else any p xs

  -- `slice(0, i)`.
  unfoldable pub take : ℕ → List A → List A
  take zero xs = []
  take (suc n) [] = []
  take (suc n) (x ∷ xs) = x ∷ take n xs

  abbrev pub All {κ} : (A → Type κ) → List A → Type κ
  All P [] = Unit
  All P (x ∷ xs) = P x × All P xs

  -- The same length, with related elements at each position.
  abbrev pub Pointwise : (A → A → Type 0) → List A → List A → Type 0
  Pointwise R [] [] = Unit
  Pointwise R [] (y ∷ ys) = ⊥
  Pointwise R (x ∷ xs) [] = ⊥
  Pointwise R (x ∷ xs) (y ∷ ys) = R x y × Pointwise R xs ys

module _ {ℓ} {A : Type ℓ} (p : A → Bool) where
  pub find_holds : (xs : List A) (x : A) → find p xs ≡ some x → p x ≡ true
  unfolding find
  find_holds [] x e = cc
  find_holds (y ∷ ys) x e = ground (arith, find_holds ys x)

  pub find-modify_first :
      (f : A → A) (xs : List A) (x : A)
      → find p xs ≡ some x
      → p (f x) ≡ true
      → find p (modify_first p f xs) ≡ some (f x)
  unfolding find modify_first
  find-modify_first f [] x e h = cc
  find-modify_first f (y ∷ ys) x e h = ground (arith, find-modify_first f ys x)

  -- Writing the old value back through the same reference undoes a change that keeps the match.
  pub modify_first_undo :
      (f : A → A) (xs : List A) (x : A)
      → find p xs ≡ some x
      → p (f x) ≡ true
      → modify_first p (λ _. x) (modify_first p f xs) ≡ xs
  unfolding find modify_first
  modify_first_undo f [] x e h = refl
  modify_first_undo f (y ∷ ys) x e h = ground (arith, modify_first_undo f ys x)

  -- A search with no result leaves nothing to change.
  pub modify_first_absent : (f : A → A) (xs : List A) → find p xs ≡ none → modify_first p f xs ≡ xs
  unfolding find modify_first
  modify_first_absent f [] e = refl
  modify_first_absent f (y ∷ ys) e = ground (arith, modify_first_absent f ys)

  pub modify_first-All {κ} :
      (P : A → Type κ) (f : A → A) (xs : List A)
      → All P xs
      → ((x : A) → find p xs ≡ some x → P x → P (f x))
      → All P (modify_first p f xs)
  unfolding find modify_first
  modify_first-All P f [] h k = tt
  modify_first-All P f (y ∷ ys) h k = elim (Bool-cases (p y)) [
    | inl e ↦ rw e (k y (rw e) h.0, h.1)
    | inr e ↦ rw e (h.0, modify_first-All P f ys h.1 (λ x m. k x (rw (e, find) m)))
  ]

  pub find-All {κ} : (P : A → Type κ) (xs : List A) (x : A) → All P xs → find p xs ≡ some x → P x
  unfolding find
  find-All P [] x h e = cc
  find-All P (y ∷ ys) x h e = elim (Bool-cases (p y)) [
    | inl m ↦ let same : y ≡ x = ground arith in subst P same h.0
    | inr m ↦ find-All P ys x h.1 (rw (m, find) at e)
  ]

module _ {ℓ} {A : Type ℓ} (R : A → A → Type 0) (keeps : (x : A) → R x x) where
  pub Pointwise-refl : (xs : List A) → Pointwise R xs xs
  Pointwise-refl [] = tt
  Pointwise-refl (x ∷ xs) = (keeps x, Pointwise-refl xs)

  pub modify_first-Pointwise :
      (p : A → Bool) (f : A → A) (xs : List A)
      → ((x : A) → find p xs ≡ some x → R x (f x))
      → Pointwise R xs (modify_first p f xs)
  unfolding find modify_first
  modify_first-Pointwise p f [] k = tt
  modify_first-Pointwise p f (y ∷ ys) k = elim (Bool-cases (p y)) [
    | inl e ↦ rw e (k y (rw e), Pointwise-refl ys)
    | inr e ↦ rw e (keeps y, modify_first-Pointwise p f ys (λ x m. k x (rw (e, find) m)))
  ]

pub All-imp {ℓ κ} :
    {A : Type ℓ} (P Q : A → Type κ) → ((x : A) → P x → Q x) → (xs : List A) → All P xs → All Q xs
All-imp P Q f [] h = tt
All-imp P Q f (x ∷ xs) h = (f x h.0, All-imp P Q f xs h.1)

pub All-Memᴰ : {A : Type 0} (xs : List A) → All (λ x. Memᴰ x xs) xs
All-Memᴰ [] = tt
All-Memᴰ (x ∷ xs) = (
  Memᴰ.head refl,
  All-imp (λ y. Memᴰ y xs) (λ y. Memᴰ y (x ∷ xs)) (λ y m. Memᴰ.tail m) xs (All-Memᴰ xs),
)

pub Pointwise-imp {ℓ} :
    {A : Type ℓ} (R S : A → A → Type 0)
    → ((x y : A) → R x y → S x y)
    → (xs ys : List A) → Pointwise R xs ys
    → Pointwise S xs ys
Pointwise-imp R S f [] [] h = tt
Pointwise-imp R S f [] (y ∷ ys) h = h
Pointwise-imp R S f (x ∷ xs) [] h = h
Pointwise-imp R S f (x ∷ xs) (y ∷ ys) h = (f x y h.0, Pointwise-imp R S f xs ys h.1)
