-- ===== src/Settlements/Keys.antt =====
-- The references of the rows that `mergeRows` puts into its map, sorts and cuts off.
use real_time_logistics_plat.Common.{
  ℕ, zero, suc, ◌≤◌, String, false, Option, none, some, List, [], ◌∷◌, ◌≡◌, refl, ◌∙◌, subst, ◌==◌,
  eq_iff, arith, Bool-cases, inl, inr, All, length, take, leb, find,
}
use real_time_logistics_plat.Geo.{JsNumber}
use real_time_logistics_plat.Settlements.{
  Row, key, has_key, put, by_ref, retained, merge_all, insert_newest, newest_first,
}

pub ==_comm : (a b : String) → (a == b) ≡ (b == a)
==_comm a b = ground (arith, eq_iff a b, eq_iff b a)

module _ {A : Type 0} (P : A → Type 0) where
  pub take-All : (n : ℕ) (xs : List A) → All P xs → All P (take n xs)
  unfolding take
  take-All zero xs h = tt
  take-All (suc n) [] h = tt
  take-All (suc n) (x ∷ xs) h = (h.0, take-All n xs h.1)

pub length-take {ℓ} : {A : Type ℓ} (n : ℕ) (xs : List A) → length (take n xs) ≤ n
unfolding take
length-take zero xs = omega arith
length-take (suc n) [] = omega arith
length-take (suc n) (x ∷ xs) = omega (arith, length-take n xs)

module _ (num : JsNumber) where
  -- No row of the list has the reference.
  abbrev pub Fresh : String → List (Row num) → Type 0
  Fresh k rows = All (λ r. has_key num k r ≡ false) rows

  abbrev pub DistinctRefs : List (Row num) → Type 0
  DistinctRefs [] = Unit
  DistinctRefs (r ∷ rs) = Fresh (key num r) rs × DistinctRefs rs

  pub key-retained : (p : Option (Row num)) (r : Row num) → key num (retained num p r) ≡ key num r
  unfolding retained
  key-retained none r = refl
  key-retained (some p) r = refl

  pub put-All :
      (P : Row num → Type 0) (r : Row num) (xs : List (Row num))
      → P r
      → All P xs
      → All P (put num r xs)
  unfolding put
  put-All P r [] h k = (h, tt)
  put-All P r (x ∷ xs) h k = elim (Bool-cases (key num x == key num r)) [
    | inl e ↦ rw e (h, k.1)
    | inr e ↦ rw e (k.0, put-All P r xs h k.1)
  ]

  pub put-DistinctRefs :
      (r : Row num) (xs : List (Row num)) → DistinctRefs xs → DistinctRefs (put num r xs)
  unfolding put
  put-DistinctRefs r [] h = (tt, tt)
  put-DistinctRefs r (x ∷ xs) h = elim (Bool-cases (key num x == key num r)) [
    | inl e ↦ rw e (subst (λ k. Fresh k xs) ((eq_iff _ _).0 e) h.0, h.1)
    | inr e ↦ rw e (
      put-All (λ y. has_key num (key num x) y ≡ false) r xs (==_comm (key num r) (key num x) ∙ e)
          h.0,
      put-DistinctRefs r xs h.1,
    )
  ]

  by_ref-DistinctRefs :
      (rows rs : List (Row num)) → DistinctRefs rows → DistinctRefs (by_ref num rows rs)
  unfolding by_ref
  by_ref-DistinctRefs rows [] h = h
  by_ref-DistinctRefs rows (r ∷ rs) h =
      by_ref-DistinctRefs (put num r rows) rs (put-DistinctRefs r rows h)

  merge_all-DistinctRefs :
      (rows rs : List (Row num)) → DistinctRefs rows → DistinctRefs (merge_all num rows rs)
  unfolding merge_all
  merge_all-DistinctRefs rows [] h = h
  merge_all-DistinctRefs rows (r ∷ rs) h =
      let r' = retained num (find (has_key num (key num r)) rows) r in
      merge_all-DistinctRefs (put num r' rows) rs (put-DistinctRefs r' rows h)

  insert_newest-All :
      (P : Row num → Type 0) (r : Row num) (xs : List (Row num))
      → P r
      → All P xs
      → All P (insert_newest num r xs)
  unfolding insert_newest
  insert_newest-All P r [] h k = (h, tt)
  insert_newest-All P r (x ∷ xs) h k = elim (Bool-cases (leb x.imported_at r.imported_at)) [
    | inl e ↦ rw e (h, k)
    | inr e ↦ rw e (k.0, insert_newest-All P r xs h k.1)
  ]

  pub newest_first-All :
      (P : Row num → Type 0) (xs : List (Row num)) → All P xs → All P (newest_first num xs)
  unfolding newest_first
  newest_first-All P [] h = tt
  newest_first-All P (x ∷ xs) h = insert_newest-All P x _ h.0 (newest_first-All P xs h.1)

  insert_newest-DistinctRefs :
      (r : Row num) (xs : List (Row num))
      → Fresh (key num r) xs
      → DistinctRefs xs
      → DistinctRefs (insert_newest num r xs)
  unfolding insert_newest
  insert_newest-DistinctRefs r [] h k = (tt, tt)
  insert_newest-DistinctRefs r (x ∷ xs) h k = elim (Bool-cases (leb x.imported_at r.imported_at)) [
    | inl e ↦ rw e (h, k)
    | inr e ↦ rw e (
      insert_newest-All (λ y. has_key num (key num x) y ≡ false) r xs
          (==_comm (key num r) (key num x) ∙ h.0) k.0,
      insert_newest-DistinctRefs r xs h.1 k.1,
    )
  ]

  newest_first-DistinctRefs :
      (xs : List (Row num)) → DistinctRefs xs → DistinctRefs (newest_first num xs)
  unfolding newest_first
  newest_first-DistinctRefs [] h = tt
  newest_first-DistinctRefs (x ∷ xs) h =
      insert_newest-DistinctRefs x _ (newest_first-All _ xs h.0) (newest_first-DistinctRefs xs h.1)

  take-DistinctRefs : (n : ℕ) (xs : List (Row num)) → DistinctRefs xs → DistinctRefs (take n xs)
  unfolding take
  take-DistinctRefs zero xs h = tt
  take-DistinctRefs (suc n) [] h = tt
  take-DistinctRefs (suc n) (x ∷ xs) h = (take-All _ n xs h.0, take-DistinctRefs n xs h.1)

  -- Whatever the rows before the merge were.
  pub merge-DistinctRefs :
      (n : ℕ) (current imported : List (Row num))
      → DistinctRefs (take n (newest_first num (merge_all num (by_ref num [] current) imported)))
  merge-DistinctRefs n current imported = take-DistinctRefs n _ (
      newest_first-DistinctRefs _
        (merge_all-DistinctRefs _ imported (by_ref-DistinctRefs [] current tt)))
