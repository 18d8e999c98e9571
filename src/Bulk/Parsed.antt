-- ===== src/Bulk/Parsed.antt =====
-- What the reader of an order file finds.
use real_time_logistics_plat.Common.{
  ℕ, suc, ◌+◌, ◌-◌, ◌≤◌, String, Bool, false, not, ◌&&◌, Option, none, List, [], ◌∷◌, ◌≡◌, refl,
  subst, arith, All, All-imp, find, filter, length, map, eqb, leb, ltb, Bool-cases, Option-cases,
  inl, inr, if◌then◌else◌,
}
use real_time_logistics_plat.Csv.{chars, text, parse_csv}
use real_time_logistics_plat.Settlements.Service.{code_units}
use real_time_logistics_plat.Bulk.{
  BulkOrderCandidate, BulkOrderIssue, ParsedOrders, parsed, required, aliases, lookup, normalize,
  is_blank, missing_value, candidate_of, missing_issue, with_candidate, with_issue, parse_lines,
  maps, is_none_missing, parse_table, parse_bulk_order_csv,
}

-- How often a line is among the candidates, and among the issues.
abbrev candidates_of_row : ℕ → List BulkOrderCandidate → ℕ
candidates_of_row row [] = 0
candidates_of_row row (c ∷ cs) = (if eqb c.row_number row then 1 else 0) + candidates_of_row row cs

abbrev issues_of_row : ℕ → List BulkOrderIssue → ℕ
issues_of_row row [] = 0
issues_of_row row (i ∷ is) = (if eqb i.row row then 1 else 0) + issues_of_row row is

abbrev Found : Type 0
Found = List BulkOrderCandidate × List BulkOrderIssue

abbrev times : ℕ → Found → ℕ
times row (candidates, issues) = candidates_of_row row candidates + issues_of_row row issues

abbrev size : Found → ℕ
size (candidates, issues) = length candidates + length issues

-- Every required value is there.
abbrev IsComplete : BulkOrderCandidate → Type 0
IsComplete c = All (λ k. is_blank c k ≡ false) required

find-All : (p : String → Bool) (ks : List String) → find p ks ≡ none → All (λ k. p k ≡ false) ks
unfolding find
find-All p [] h = tt
find-All p (k ∷ ks) h = elim (Bool-cases (p k)) [
  | inl e ↦ absurd (cc (rw (e, find) at h))
  | inr e ↦ (e, find-All p ks (rw (e, find) at h))
]

-- The line with a number, where the first of the lines has the given one.
pub data IsLine : ℕ → List (List String) → ℕ → List String → Type 0 where
  here :
      (first : ℕ) (values : List String) (lines : List (List String))
      → IsLine first (values ∷ lines) first values
  there :
      (first row : ℕ) (line values : List String) (lines : List (List String))
      → IsLine (suc first) lines row values
      → IsLine first (line ∷ lines) row values

-- The values of a candidate are those of its line, under the mapped columns.
abbrev pub IsOfLine : List (Option String) → ℕ → List (List String) → BulkOrderCandidate → Type 0
IsOfLine mapped first lines c =
    (values : List String) × IsLine first lines c.row_number values
    × (c ≡ candidate_of mapped c.row_number values)

-- Each line is found once, from the first one on.
record IsReading (mapped : List (Option String)) (first : ℕ) (lines : List (List String))
    (found : Found) : Type 0 where
  once :
      (row : ℕ)
      → times row found ≡ (if leb first row && ltb row (first + length lines) then 1 else 0)
  sized : size found ≡ length lines
  complete : All IsComplete found.0
  of_line : All (IsOfLine mapped first lines) found.0

later-IsOfLine :
    (mapped : List (Option String)) (first : ℕ) (line : List String) (lines : List (List String))
    (c : BulkOrderCandidate)
    → IsOfLine mapped (suc first) lines c
    → IsOfLine mapped first (line ∷ lines) c
later-IsOfLine mapped first line lines c (values, at, same) =
    (values, there first c.row_number line values lines at, same)

with_candidate-IsReading :
    (mapped : List (Option String)) (first : ℕ) (values : List String) (lines : List (List String))
    (found : Found)
    → IsComplete (candidate_of mapped first values)
    → IsReading mapped (suc first) lines found
    → IsReading mapped first
        (values ∷ lines)
        (with_candidate (candidate_of mapped first values) found)
with_candidate-IsReading mapped first values lines (cs, is) h r = record {
  once = λ row. ground (arith, r.once row);
  sized = omega (arith, r.sized);
  complete = (h, r.complete);
  of_line = (
    (values, here first values lines, refl),
    All-imp (IsOfLine mapped (suc first) lines) (IsOfLine mapped first (values ∷ lines))
        (later-IsOfLine mapped first values lines) cs r.of_line,
  );
}

with_issue-IsReading :
    (mapped : List (Option String)) (first : ℕ) (key : String) (values : List String)
    (lines : List (List String)) (found : Found)
    → IsReading mapped (suc first) lines found
    → IsReading mapped first (values ∷ lines) (with_issue (missing_issue first key) found)
with_issue-IsReading mapped first key values lines (cs, is) r = record {
  once = λ row. ground (arith, r.once row);
  sized = omega (arith, r.sized);
  complete = r.complete;
  of_line =
      All-imp (IsOfLine mapped (suc first) lines) (IsOfLine mapped first (values ∷ lines))
        (later-IsOfLine mapped first values lines) cs r.of_line;
}

parse_lines-IsReading :
    (mapped : List (Option String)) (first : ℕ) (lines : List (List String))
    → IsReading mapped first lines (parse_lines mapped first lines)
unfolding parse_lines
parse_lines-IsReading mapped first [] = record {
  once = λ row. ground arith;
  sized = refl;
  complete = tt;
  of_line = tt;
}
parse_lines-IsReading mapped first (values ∷ lines) =
    let rest = parse_lines-IsReading mapped (suc first) lines in
    let found = parse_lines mapped (suc first) lines in
    let c = candidate_of mapped first values in
    elim (Option-cases (missing_value c)) [
      | inl e ↦
          rw (e, parse_lines)
            (with_candidate-IsReading mapped first values lines found
              (find-All (is_blank c) required (unfold missing_value in e)) rest)
      | inr (k, e) ↦
          rw (e, parse_lines) (with_issue-IsReading mapped first k values lines found rest)
    ]

-- The columns of a header.
abbrev pub columns : (String → String) → List String → List (Option String)
columns lower header = map (λ x. lookup (normalize lower x) aliases) header

-- The lines behind the header are numbered from 2 on. Each is found once, as a candidate with every
-- required value, which has the values of its line, or as an issue, and there are at most 200.
pub record ReadsLines (lower : String → String) (header : List String) (lines : List (List String))
    (p : ParsedOrders) : Type 0 where
  pub counted : p.total_rows ≡ length lines
  pub once :
      (row : ℕ)
      → candidates_of_row row p.candidates + issues_of_row row p.issues
        ≡ (if leb 2 row && ltb row (2 + length lines) then 1 else 0)
  pub sized : length p.candidates + length p.issues ≡ length lines
  pub bounded : length lines ≤ 200
  pub complete : All IsComplete p.candidates
  pub of_line : All (IsOfLine (columns lower header) 2 lines) p.candidates

-- The same of a table whose first line is the header.
abbrev pub ReadsAll : (String → String) → List (List String) → ParsedOrders → Type 0
ReadsAll lower [] p = ⊥
ReadsAll lower (header ∷ lines) p = ReadsLines lower header lines p

abbrev parsed_of : Found → ℕ → ParsedOrders
parsed_of found n = record { candidates = found.0; issues = found.1; total_rows = n }

parsed_of-ReadsLines :
    (lower : String → String) (header : List String) (lines : List (List String)) (found : Found)
    (n : ℕ)
    → n ≡ length lines
    → length lines ≤ 200
    → IsReading (columns lower header) 2 lines found
    → ReadsLines lower header lines (parsed_of found n)
parsed_of-ReadsLines lower header lines (cs, is) n counted le r = record {
  counted = counted;
  once = r.once;
  sized = r.sized;
  bounded = le;
  complete = r.complete;
  of_line = r.of_line;
}

pub ReadsAll-sized :
    (lower : String → String) (table : List (List String)) (p : ParsedOrders)
    → ReadsAll lower table p
    → length p.candidates + length p.issues ≡ p.total_rows
ReadsAll-sized lower [] p h = absurd h
ReadsAll-sized lower (header ∷ lines) p h = cc (h.sized, h.counted)

parsed-inj : (p q : ParsedOrders) → parsed p ≡ parsed q → p ≡ q
parsed-inj p q e = ground arith

parse_table-ReadsAll :
    (lower : String → String) (table : List (List String)) (p : ParsedOrders)
    → parse_table lower table ≡ parsed p
    → ReadsAll lower table p
unfolding parse_table
parse_table-ReadsAll lower [] p h = absurd (cc h)
parse_table-ReadsAll lower (header ∷ []) p h = absurd (cc h)
parse_table-ReadsAll lower (header ∷ line ∷ lines) p h =
    let mapped = columns lower header in
    let missing = filter (λ k. not (maps k mapped)) required in
    let found = parse_lines mapped 2 (line ∷ lines) in
    let n = length (header ∷ line ∷ lines) - 1 in
    elim (Bool-cases (ltb 201 (length (header ∷ line ∷ lines)))) [
      | inl e ↦ absurd (cc (rw (e, parse_table) at h))
      | inr e ↦ elim (Bool-cases (is_none_missing missing)) [
        | inr f ↦ absurd (cc (rw (e, f, parse_table) at h))
        | inl f ↦
            let same : parsed_of found n ≡ p =
              parsed-inj (parsed_of found n) p (rw (e, f, parse_table) at h) in
            subst (ReadsLines lower header (line ∷ lines)) same (
              parsed_of-ReadsLines lower header (line ∷ lines) found n (omega arith) (ground arith)
                (parse_lines-IsReading mapped 2 (line ∷ lines)))
      ]
    ]

-- Where a file is read, all its lines are, with those of the text behind its header: each is found
-- once, as a candidate with every required value and with the values of its line under the columns
-- of the header, or as an issue; the rows that are told are their number, and at most 200.
pub parse_bulk_order_csv-ReadsAll :
    (lower : String → String) (csv : String) (p : ParsedOrders)
    → parse_bulk_order_csv lower csv ≡ parsed p
    → ReadsAll lower (map (map text) (parse_csv (chars csv))) p
unfolding parse_bulk_order_csv
parse_bulk_order_csv-ReadsAll lower csv p h =
    elim (Bool-cases (ltb 100000 (code_units (chars csv)))) [
      | inl e ↦ absurd (cc (rw (e, parse_bulk_order_csv) at h))
      | inr e ↦
          parse_table-ReadsAll lower (map (map text) (parse_csv (chars csv))) p
            (rw (e, parse_bulk_order_csv) at h)
    ]
