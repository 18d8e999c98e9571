-- ===== src/Settlements/Reviews.antt =====
-- What the merge keeps of the rows that it replaces.
use real_time_logistics_plat.Common.{
  String, true, false, Option, none, some, List, [], ◌∷◌, ◌≡◌, refl, sym, ap, some_inj, subst, ◌∙◌,
  ◌⊎◌, ◌==◌, eq_iff, eq_refl, arith, Bool-cases, inl, inr, All, find, find-All, find_holds,
}
use real_time_logistics_plat.Geo.{JsNumber}
use real_time_logistics_plat.Settlements.{
  Row, key, has_key, put, by_ref, retained, merge_all, or_text, or_note, max_rows,
}
use real_time_logistics_plat.Settlements.Keys.{
  ==_comm, DistinctRefs, put-All, take-All, newest_first-All, key-retained,
}
use real_time_logistics_plat.Settlements.Service.{merged}

All-zip :
    {A : Type 0} (P Q R : A → Type 0)
    → ((x : A) → P x → Q x → R x)
    → (xs : List A) → All P xs
    → All Q xs
    → All R xs
All-zip P Q R f [] h k = tt
All-zip P Q R f (x ∷ xs) h k = (f x h.0 k.0, All-zip P Q R f xs h.1 k.1)

module _ (num : JsNumber) where
  -- The second row has the review of the first one, and its identifier and note unless these are
  -- empty.
  pub record Keeps (p r : Row num) : Type 0 where
    pub review_kept : r.review_status ≡ p.review_status
    pub id_kept : r.id ≡ or_text p.id r.id
    pub note_kept : r.note ≡ or_note p.note r.note

  or_note_idem : (t : Option String) → t ≡ or_note t t
  unfolding or_note
  or_note_idem none = refl
  or_note_idem (some t) = ground (arith, eq_iff t "")

  Keeps-refl : (r : Row num) → Keeps r r
  unfolding or_text
  Keeps-refl r = record {
    review_kept = refl;
    id_kept = ground arith;
    note_kept = or_note_idem r.note;
  }

  or_text-keeps : (a b c : String) → b ≡ or_text a b → or_text b c ≡ or_text a (or_text b c)
  unfolding or_text
  or_text-keeps a b c h = ground (arith, eq_iff a "", eq_iff b "")

  or_note-keeps : (a b c : Option String) → b ≡ or_note a b → or_note b c ≡ or_note a (or_note b c)
  unfolding or_note
  or_note-keeps none b c h = refl
  or_note-keeps (some a) none c h = ground (arith, eq_iff a "")
  or_note-keeps (some a) (some b) c h = ground (arith, eq_iff a "", eq_iff b "")

  retained-Keeps : (p q r : Row num) → Keeps p q → Keeps p (retained num (some q) r)
  unfolding retained
  retained-Keeps p q r h = record {
    review_kept = h.review_kept;
    id_kept = or_text-keeps p.id q.id r.id h.id_kept;
    note_kept = or_note-keeps p.note q.note r.note h.note_kept;
  }

  -- The row keeps the review of the row that had its reference.
  abbrev pub Reviewed : List (Row num) → Row num → Type 0
  Reviewed current r = (p : Row num) → find (has_key num (key num r)) current ≡ some p → Keeps p r

  OnlyOne : List (Row num) → Row num → Type 0
  OnlyOne rows r = (p : Row num) → find (has_key num (key num r)) rows ≡ some p → p ≡ r

  DistinctRefs-OnlyOne : (rows : List (Row num)) → DistinctRefs num rows → All (OnlyOne rows) rows
  unfolding OnlyOne find
  DistinctRefs-OnlyOne [] h = tt
  DistinctRefs-OnlyOne (x ∷ xs) h = (
    λ p e. sym (some_inj x p (rw (eq_refl (key num x)) at e)),
    All-zip (λ r. has_key num (key num x) r ≡ false) (OnlyOne xs) (OnlyOne (x ∷ xs))
        (λ r fresh one p e. one p (rw (==_comm (key num x) (key num r) ∙ fresh) at e)) xs h.0
        (DistinctRefs-OnlyOne xs h.1),
  )

  pub Reviewed-refl : (rows : List (Row num)) → DistinctRefs num rows → All (Reviewed rows) rows
  unfolding OnlyOne
  Reviewed-refl rows h =
      All-zip (OnlyOne rows) (OnlyOne rows) (Reviewed rows)
        (λ r one _ p e. subst (λ q. Keeps q r) (sym (one p e)) (Keeps-refl r)) rows
        (DistinctRefs-OnlyOne rows h) (DistinctRefs-OnlyOne rows h)

  -- The map has the reference.
  abbrev IsFound : String → List (Row num) → Type 0
  IsFound k rows = (q : Row num) × (find (has_key num k) rows ≡ some q)

  nothing_found : {q : Row num} → ◌≡◌ {A = Option (Row num)} none (some q) → ⊥
  nothing_found e = cc

  has_key-same :
      (k : String) (r x : Row num)
      → (key num x == key num r) ≡ true
      → has_key num k r ≡ has_key num k x
  has_key-same k r x e = ap (λ j. j == k) (sym ((eq_iff (key num x) (key num r)).0 e))

  put-IsFound :
      (k : String) (r : Row num) (xs : List (Row num)) → IsFound k xs → IsFound k (put num r xs)
  unfolding put find
  put-IsFound k r [] h = absurd (nothing_found (h.1))
  put-IsFound k r (x ∷ xs) h = elim (Bool-cases (key num x == key num r)) [
    | inl e ↦ rw e (elim (Bool-cases (has_key num k x)) [
      | inl f ↦ (r, rw (has_key-same k r x e ∙ f))
      | inr f ↦ (h.0, rw (has_key-same k r x e ∙ f) (rw f at (h.1)))
    ])
    | inr e ↦ rw e (elim (Bool-cases (has_key num k x)) [
      | inl f ↦ (x, rw f)
      | inr f ↦ let (q, found) = put-IsFound k r xs (h.0, rw f at (h.1)) in (q, rw f found)
    ])
  ]

  put-IsFound_self : (r : Row num) (xs : List (Row num)) → IsFound (key num r) (put num r xs)
  unfolding put find
  put-IsFound_self r [] = (r, rw (eq_refl (key num r)))
  put-IsFound_self r (x ∷ xs) = elim (Bool-cases (key num x == key num r)) [
    | inl e ↦ (r, rw (e, eq_refl (key num r)))
    | inr e ↦ let (q, found) = put-IsFound_self r xs in (q, rw (e, e) found)
  ]

  by_ref-IsFound :
      (k : String) (rows rs : List (Row num))
      → IsFound k rows ⊎ IsFound k rs
      → IsFound k (by_ref num rows rs)
  unfolding by_ref find
  by_ref-IsFound k rows [] (inl h) = h
  by_ref-IsFound k rows [] (inr h) = absurd (nothing_found (h.1))
  by_ref-IsFound k rows (r ∷ rs) (inl h) =
      by_ref-IsFound k (put num r rows) rs (inl (put-IsFound k r rows h))
  by_ref-IsFound k rows (r ∷ rs) (inr h) = elim (Bool-cases (key num r == k)) [
    | inl e ↦
        by_ref-IsFound k (put num r rows) rs (
          inl
            (subst (λ j. IsFound j (put num r rows)) ((eq_iff _ _).0 e) (put-IsFound_self r rows)))
    | inr e ↦ by_ref-IsFound k (put num r rows) rs (inr (h.0, rw (e, find) at (h.1)))
  ]

  pub by_ref-All :
      (P : Row num → Type 0) (rows rs : List (Row num))
      → All P rows
      → All P rs
      → All P (by_ref num rows rs)
  unfolding by_ref
  by_ref-All P rows [] h k = h
  by_ref-All P rows (r ∷ rs) h k = by_ref-All P (put num r rows) rs (put-All num P r rows k.0 h) k.1

  -- The rows of the map keep the reviews of the rows before the import, and none of those is gone.
  record IsMerging (current rows : List (Row num)) : Type 0 where
    reviewed_all : All (Reviewed current) rows
    covers : (k : String) → IsFound k current → IsFound k rows

  retained-Reviewed :
      (current rows : List (Row num)) (r : Row num)
      → IsMerging current rows
      → Reviewed current (retained num (find (has_key num (key num r)) rows) r)
  retained-Reviewed current rows r h p e =
      let e' = subst (λ k. find (has_key num k) current ≡ some p) (key-retained num _ r) e in
      let (q, found) = h.covers (key num r) (p, e') in
      let old = find-All (has_key num (key num r)) (Reviewed current) rows q h.reviewed_all found in
      let same = (eq_iff _ _).0 (find_holds (has_key num (key num r)) rows q found) in
      rw found (retained-Keeps p q r (old p (rw same e')))

  put-IsMerging :
      (current rows : List (Row num)) (r : Row num)
      → IsMerging current rows
      → IsMerging current (put num (retained num (find (has_key num (key num r)) rows) r) rows)
  put-IsMerging current rows r h =
      let r' = retained num (find (has_key num (key num r)) rows) r in
      record {
        reviewed_all =
            put-All num (Reviewed current) r' rows (retained-Reviewed current rows r h)
              h.reviewed_all;
        covers = λ k found. put-IsFound k r' rows (h.covers k found);
      }

  merge_all-IsMerging :
      (current rows rs : List (Row num))
      → IsMerging current rows
      → IsMerging current (merge_all num rows rs)
  unfolding merge_all
  merge_all-IsMerging current rows [] h = h
  merge_all-IsMerging current rows (r ∷ rs) h =
      merge_all-IsMerging current
        (put num (retained num (find (has_key num (key num r)) rows) r) rows) rs
        (put-IsMerging current rows r h)

  by_ref-IsMerging :
      (current : List (Row num))
      → DistinctRefs num current
      → IsMerging current (by_ref num [] current)
  by_ref-IsMerging current h = record {
    reviewed_all = by_ref-All (Reviewed current) [] current tt (Reviewed-refl current h);
    covers = λ k found. by_ref-IsFound k [] current (inr found);
  }

  pub merged-Reviewed :
      (current imported : List (Row num))
      → DistinctRefs num current
      → All (Reviewed current) (merged num current imported)
  unfolding merged
  merged-Reviewed current imported h = take-All _ max_rows _ (
      newest_first-All num _ _
        (merge_all-IsMerging current (by_ref num [] current) imported
          (by_ref-IsMerging current h)).reviewed_all)
