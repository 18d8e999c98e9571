-- ===== src/Settlements/Ledger.antt =====
-- What the merge makes true of an organization's rows, and what a change of a row in place keeps.
use real_time_logistics_plat.Common.{
  All-imp, ℕ, zero, suc, ◌≤◌, String, false, List, [], ◌∷◌, ◌≡◌, refl, subst, ◌==◌, arith,
  Bool-cases, inl, inr, All, Pointwise, length, take, leb, leb→le,
}
use real_time_logistics_plat.Geo.{JsNumber}
use real_time_logistics_plat.Settlements.{
  Row, key, by_ref, merge_all, insert_newest, newest_first, max_rows,
}
use real_time_logistics_plat.Settlements.Keys.{
  DistinctRefs, Fresh, take-All, length-take, merge-DistinctRefs,
}
use real_time_logistics_plat.Settlements.Service.{merged}

module _ (num : JsNumber) where
  -- No row was imported after the one.
  abbrev NotAfter : Row num → List (Row num) → Type 0
  NotAfter r rows = All (λ x. x.imported_at ≤ r.imported_at) rows

  abbrev pub IsNewestFirst : List (Row num) → Type 0
  IsNewestFirst [] = Unit
  IsNewestFirst (r ∷ rs) = NotAfter r rs × IsNewestFirst rs

  insert_newest-NotAfter :
      (t : Row num) (r : Row num) (xs : List (Row num))
      → r.imported_at ≤ t.imported_at
      → NotAfter t xs
      → NotAfter t (insert_newest num r xs)
  unfolding insert_newest
  insert_newest-NotAfter t r [] h k = (h, tt)
  insert_newest-NotAfter t r (x ∷ xs) h k = elim (Bool-cases (leb x.imported_at r.imported_at)) [
    | inl e ↦ rw e (h, k)
    | inr e ↦ rw e (k.0, insert_newest-NotAfter t r xs h k.1)
  ]

  insert_newest-IsNewestFirst :
      (r : Row num) (xs : List (Row num))
      → IsNewestFirst xs
      → IsNewestFirst (insert_newest num r xs)
  unfolding insert_newest
  insert_newest-IsNewestFirst r [] h = (tt, tt)
  insert_newest-IsNewestFirst r (x ∷ xs) h = elim (Bool-cases (leb x.imported_at r.imported_at)) [
    | inl e ↦ rw e (
      (
        leb→le _ _ e,
        All-imp _ _ (λ y (le : y.imported_at ≤ x.imported_at). omega (arith, leb→le _ _ e)) xs h.0,
      ),
      h,
    )
    | inr e ↦
        rw e
          (insert_newest-NotAfter x r xs (ground arith) h.0, insert_newest-IsNewestFirst r xs h.1)
  ]

  newest_first-IsNewestFirst : (xs : List (Row num)) → IsNewestFirst (newest_first num xs)
  unfolding newest_first
  newest_first-IsNewestFirst [] = tt
  newest_first-IsNewestFirst (x ∷ xs) =
      insert_newest-IsNewestFirst x _ (newest_first-IsNewestFirst xs)

  take-IsNewestFirst : (n : ℕ) (xs : List (Row num)) → IsNewestFirst xs → IsNewestFirst (take n xs)
  unfolding take
  take-IsNewestFirst zero xs h = tt
  take-IsNewestFirst (suc n) [] h = tt
  take-IsNewestFirst (suc n) (x ∷ xs) h = (take-All _ n xs h.0, take-IsNewestFirst n xs h.1)

  -- At most 1000 rows, each with a reference of its own, the latest import first.
  abbrev pub IsLedger : List (Row num) → Type 0
  IsLedger rows = DistinctRefs num rows × (length rows ≤ max_rows) × IsNewestFirst rows

  pub merged-IsLedger : (current imported : List (Row num)) → IsLedger (merged num current imported)
  unfolding merged
  merged-IsLedger current imported = (
    merge-DistinctRefs num max_rows current imported,
    length-take max_rows (newest_first num (merge_all num (by_ref num [] current) imported)),
    take-IsNewestFirst max_rows _
        (newest_first-IsNewestFirst (merge_all num (by_ref num [] current) imported)),
  )

  -- A row under the same reference, of the same import.
  abbrev pub SameRef : Row num → Row num → Type 0
  SameRef r s = (key num r ≡ key num s) × (r.imported_at ≡ s.imported_at)

  Pointwise-Fresh :
      (k : String) (xs ys : List (Row num))
      → Pointwise SameRef xs ys
      → Fresh num k xs
      → Fresh num k ys
  Pointwise-Fresh k [] [] p h = tt
  Pointwise-Fresh k [] (y ∷ ys) p h = absurd p
  Pointwise-Fresh k (x ∷ xs) [] p h = absurd p
  Pointwise-Fresh k (x ∷ xs) (y ∷ ys) p h =
      (subst (λ j. (j == k) ≡ false) p.0.0 h.0, Pointwise-Fresh k xs ys p.1 h.1)

  Pointwise-NotAfter :
      (r s : Row num) (xs ys : List (Row num))
      → Pointwise SameRef xs ys
      → r.imported_at ≡ s.imported_at
      → NotAfter r xs
      → NotAfter s ys
  Pointwise-NotAfter r s [] [] p e h = tt
  Pointwise-NotAfter r s [] (y ∷ ys) p e h = absurd p
  Pointwise-NotAfter r s (x ∷ xs) [] p e h = absurd p
  Pointwise-NotAfter r s (x ∷ xs) (y ∷ ys) p e h =
      (omega arith, Pointwise-NotAfter r s xs ys p.1 e h.1)

  Pointwise-DistinctRefs :
      (xs ys : List (Row num)) → Pointwise SameRef xs ys → DistinctRefs num xs → DistinctRefs num ys
  Pointwise-DistinctRefs [] [] p h = tt
  Pointwise-DistinctRefs [] (y ∷ ys) p h = absurd p
  Pointwise-DistinctRefs (x ∷ xs) [] p h = absurd p
  Pointwise-DistinctRefs (x ∷ xs) (y ∷ ys) p h = (
    subst (λ k. Fresh num k ys) p.0.0 (Pointwise-Fresh (key num x) xs ys p.1 h.0),
    Pointwise-DistinctRefs xs ys p.1 h.1,
  )

  Pointwise-IsNewestFirst :
      (xs ys : List (Row num)) → Pointwise SameRef xs ys → IsNewestFirst xs → IsNewestFirst ys
  Pointwise-IsNewestFirst [] [] p h = tt
  Pointwise-IsNewestFirst [] (y ∷ ys) p h = absurd p
  Pointwise-IsNewestFirst (x ∷ xs) [] p h = absurd p
  Pointwise-IsNewestFirst (x ∷ xs) (y ∷ ys) p h =
      (Pointwise-NotAfter x y xs ys p.1 p.0.1 h.0, Pointwise-IsNewestFirst xs ys p.1 h.1)

  Pointwise-length : (xs ys : List (Row num)) → Pointwise SameRef xs ys → length xs ≡ length ys
  Pointwise-length [] [] p = refl
  Pointwise-length [] (y ∷ ys) p = absurd p
  Pointwise-length (x ∷ xs) [] p = absurd p
  Pointwise-length (x ∷ xs) (y ∷ ys) p = omega (arith, Pointwise-length xs ys p.1)

  pub Pointwise-IsLedger :
      (xs ys : List (Row num)) → Pointwise SameRef xs ys → IsLedger xs → IsLedger ys
  Pointwise-IsLedger xs ys p h = (
    Pointwise-DistinctRefs xs ys p h.0,
    omega (arith, Pointwise-length xs ys p),
    Pointwise-IsNewestFirst xs ys p h.2,
  )
