-- ===== src/Settlements/Counts.antt =====
-- The counts of the summary.
use real_time_logistics_plat.Common.{
  ℕ, ◌+◌, ◌≤◌, String, Bool, Option, List, [], ◌∷◌, ◌≡◌, refl, arith, length, filter,
}
use real_time_logistics_plat.Geo.{JsNumber}
use real_time_logistics_plat.Settlements.{Row}
use real_time_logistics_plat.Settlements.Service.{
  Books, rows_of, summarize, is_matched, is_missing, is_mismatch, is_refund, is_pending,
}

module _ (num : JsNumber) where
  count-parts :
      (rows : List (Row num))
      → length (filter (is_matched num) rows)
          + length (filter (is_missing num) rows)
          + length (filter (is_mismatch num) rows)
          + length (filter (is_refund num) rows)
        ≡ length rows
  unfolding filter
  count-parts [] = refl
  count-parts (r ∷ rs) = ground (arith, count-parts rs)

  count-le : (p : Row num → Bool) (rows : List (Row num)) → length (filter p rows) ≤ length rows
  unfolding filter
  count-le p [] = omega arith
  count-le p (r ∷ rs) = ground (arith, count-le p rs)

  -- Every row of the organization is listed and is counted exactly once: as matched, as missing its
  -- order, as a mismatch, or as a refund. No more are counted for review than there are.
  pub summarize-row_count :
      (tenant : String) (imported_at : Option ℕ) (books : Books num)
      → (let s = summarize num tenant imported_at books in
          (s.matched_count + s.missing_order_count + s.mismatch_count + s.refund_count
            ≡ s.row_count)
          × (s.review_count ≤ s.row_count)
          × (s.rows ≡ rows_of num tenant books))
  unfolding summarize
  summarize-row_count tenant imported_at books = (
    count-parts (rows_of num tenant books),
    count-le (is_pending num) (rows_of num tenant books),
    refl,
  )
