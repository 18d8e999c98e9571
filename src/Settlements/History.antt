-- ===== src/Settlements/History.antt =====
-- Sequences of settlement operations.
use real_time_logistics_plat.Common.{
  String, Option, some, List, [], ◌∷◌, ◌≡◌, refl, subst, ◌==◌, eq_iff, Bool-cases, inl, inr, All,
  modify_first, modify_first-Pointwise, find, find-All, find_holds,
}
use real_time_logistics_plat.Geo.{JsNumber}
use real_time_logistics_plat.Settlements.{Row, key, has_key, SettlementReviewStatus}
use real_time_logistics_plat.Settlements.Service.{
  Books, rows_of, set_rows, merged, merge_rows, load_persisted, reviewed, has_id, event_row,
  list_settlement_rows, review_settlement,
}
use real_time_logistics_plat.Settlements.Ledger.{
  IsLedger, merged-IsLedger, SameRef, Pointwise-IsLedger,
}
use real_time_logistics_plat.Settlements.Reviews.{Keeps, Reviewed, Reviewed-refl, merged-Reviewed}
use real_time_logistics_plat.Settlements.Cases.{
  rows_of-set_rows, review_settlement-cases, import_settlement_csv-cases,
  record_provider_settlement_event-cases,
}
use real_time_logistics_plat.Settlements.Calls.{
  SettlementCall, import_csv, provider_event, list_rows, review, settle, settle_all,
}

module _ (num : JsNumber) where
  -- Every organization's rows.
  abbrev pub AreLedgers : Books num → Type 0
  AreLedgers books = (t : String) → IsLedger num (rows_of num t books)

  -- What the database answers is such a list: the table has one row for a reference, and the query
  -- takes the 1000 latest.
  abbrev pub LoadsLedger : SettlementCall num → Type 0
  LoadsLedger (list_rows tenant persisted) = IsLedger num persisted
  LoadsLedger (review tenant persisted id status comment) = IsLedger num persisted
  LoadsLedger _ = Unit

  set_rows-AreLedgers :
      (tenant : String) (rows : List (Row num)) (books : Books num)
      → IsLedger num rows
      → AreLedgers books
      → AreLedgers (set_rows num tenant rows books)
  set_rows-AreLedgers tenant rows books h k t = elim (Bool-cases (tenant == t)) [
    | inl e ↦ rw (rows_of-set_rows num t tenant rows books, e) h
    | inr e ↦ rw (rows_of-set_rows num t tenant rows books, e) (k t)
  ]

  merge_rows-AreLedgers :
      (tenant : String) (rows : List (Row num)) (books : Books num)
      → AreLedgers books
      → AreLedgers (merge_rows num tenant rows books)
  unfolding merge_rows
  merge_rows-AreLedgers tenant rows books =
      set_rows-AreLedgers tenant _ books (merged-IsLedger num (rows_of num tenant books) rows)

  load_persisted-AreLedgers :
      (tenant : String) (persisted : List (Row num)) (books : Books num)
      → IsLedger num persisted
      → AreLedgers books
      → AreLedgers (load_persisted num tenant persisted books)
  unfolding load_persisted
  load_persisted-AreLedgers tenant [] books h k = k
  load_persisted-AreLedgers tenant (r ∷ rs) books h k =
      set_rows-AreLedgers tenant (r ∷ rs) books h k

  reviewed-IsLedger :
      (id : String) (status : SettlementReviewStatus) (comment : Option String)
      (rows : List (Row num))
      → IsLedger num rows
      → IsLedger num (modify_first (has_id num id) (reviewed num status comment) rows)
  reviewed-IsLedger id status comment rows = Pointwise-IsLedger num rows _ (
      modify_first-Pointwise (SameRef num) (λ r. (refl, refl)) (has_id num id)
        (reviewed num status comment) rows (λ r found. (refl, refl)))

  review_settlement-AreLedgers :
      (tenant : String) (persisted : List (Row num)) (id : String) (status : SettlementReviewStatus)
      (comment : Option String) (books : Books num)
      → IsLedger num persisted
      → AreLedgers books
      → AreLedgers (review_settlement num tenant persisted id status comment books).0
  review_settlement-AreLedgers tenant persisted id status comment books h k =
      let loaded = load_persisted num tenant persisted books in
      let fine = load_persisted-AreLedgers tenant persisted books h k in
      review_settlement-cases num AreLedgers tenant persisted id status comment books fine (
        set_rows-AreLedgers tenant _ loaded
          (reviewed-IsLedger id status comment (rows_of num tenant loaded) (fine tenant)) fine)

  settle-AreLedgers :
      (c : SettlementCall num) (books : Books num)
      → LoadsLedger c
      → AreLedgers books
      → AreLedgers (settle num c books)
  unfolding settle list_settlement_rows
  settle-AreLedgers (import_csv desk w tenant csv) books h k =
      import_settlement_csv-cases num AreLedgers desk w tenant books k
        (λ rows. merge_rows-AreLedgers tenant rows books k) csv
  settle-AreLedgers (provider_event desk w input) books h k =
      record_provider_settlement_event-cases num AreLedgers desk w input books k (
        merge_rows-AreLedgers input.organization_id (event_row num desk w input books ∷ []) books k)
  settle-AreLedgers (list_rows tenant persisted) books h k =
      load_persisted-AreLedgers tenant persisted books h k
  settle-AreLedgers (review tenant persisted id status comment) books h k =
      review_settlement-AreLedgers tenant persisted id status comment books h k

  -- Over any sequence of imports, provider events, listings and reviews, the rows of every
  -- organization are at most 1000, each with a reference of its own, the latest import first, where
  -- they are so at the start and in what the database answers.
  pub settle_all-AreLedgers :
      (cs : List (SettlementCall num)) (books : Books num)
      → All LoadsLedger cs
      → AreLedgers books
      → AreLedgers (settle_all num cs books)
  unfolding settle_all
  settle_all-AreLedgers [] books h k = k
  settle_all-AreLedgers (c ∷ cs) books h k =
      settle_all-AreLedgers cs (settle num c books) h.1 (settle-AreLedgers c books h.0 k)

  -- An import, or an event of the provider.
  abbrev pub BringsRows : SettlementCall num → Type 0
  BringsRows (import_csv desk w tenant csv) = Unit
  BringsRows (provider_event desk w input) = Unit
  BringsRows _ = ⊥

  -- The rows of every organization keep the reviews that the references had before.
  abbrev pub KeepsReviews : Books num → Books num → Type 0
  KeepsReviews before after =
      (t : String) → All (Reviewed num (rows_of num t before)) (rows_of num t after)

  KeepsReviews-refl : (books : Books num) → AreLedgers books → KeepsReviews books books
  KeepsReviews-refl books h t = Reviewed-refl num (rows_of num t books) ((h t).0)

  merge_rows-KeepsReviews :
      (tenant : String) (rows : List (Row num)) (books : Books num)
      → AreLedgers books
      → KeepsReviews books (merge_rows num tenant rows books)
  unfolding merge_rows
  merge_rows-KeepsReviews tenant rows books h t = elim (Bool-cases (tenant == t)) [
    | inl e ↦
        rw (rows_of-set_rows num t tenant _ books, e)
          (subst
            (λ u.
              All (Reviewed num (rows_of num u books)) (merged num (rows_of num tenant books) rows))
            ((eq_iff tenant t).0 e)
            (merged-Reviewed num (rows_of num tenant books) rows ((h tenant).0)))
    | inr e ↦ rw (rows_of-set_rows num t tenant _ books, e) (KeepsReviews-refl books h t)
  ]

  settle-KeepsReviews :
      (c : SettlementCall num) (books : Books num)
      → BringsRows c
      → AreLedgers books
      → KeepsReviews books (settle num c books)
  unfolding settle
  settle-KeepsReviews (import_csv desk w tenant csv) books b h =
      import_settlement_csv-cases num (KeepsReviews books) desk w tenant books
        (KeepsReviews-refl books h) (λ rows. merge_rows-KeepsReviews tenant rows books h) csv
  settle-KeepsReviews (provider_event desk w input) books b h =
      record_provider_settlement_event-cases num (KeepsReviews books) desk w input books
        (KeepsReviews-refl books h)
        (merge_rows-KeepsReviews input.organization_id (event_row num desk w input books ∷ []) books
          h)
  settle-KeepsReviews (list_rows tenant persisted) books b h = absurd b
  settle-KeepsReviews (review tenant persisted id status comment) books b h = absurd b

  -- An import or an event of the provider never changes the review that a reference has, be it a
  -- reviewer's decision or the acceptance of a row that matched: the row that an organization has
  -- under a reference after it has the review status of the row that was there before, and that
  -- row's identifier and note unless these are empty.
  pub settle-Keeps :
      (c : SettlementCall num) (books : Books num) (tenant k : String) (p r : Row num)
      → BringsRows c
      → AreLedgers books
      → find (has_key num k) (rows_of num tenant books) ≡ some p
      → find (has_key num k) (rows_of num tenant (settle num c books)) ≡ some r
      → Keeps num p r
  settle-Keeps c books tenant k p r b h before after =
      let rows = rows_of num tenant (settle num c books) in
      let same = (eq_iff (key num r) k).0 (find_holds (has_key num k) rows r after) in
      find-All (has_key num k) (Reviewed num (rows_of num tenant books)) rows r
        (settle-KeepsReviews c books b h tenant) after p (rw same before)
