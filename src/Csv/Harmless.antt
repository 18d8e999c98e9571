-- ===== src/Csv/Harmless.antt =====
-- The apostrophe of `csvCell`, and what a reader of an exported table gets.
use Prim.Native.Char.{Char, code}
use real_time_logistics_plat.Common.{
  true, false, List, [], ◌∷◌, ◌≡◌, ◌≢◌, ◌⊎◌, inl, inr, refl, sym, subst, arith, Bool-cases, All,
  Pointwise, any, map,
}
use real_time_logistics_plat.Csv.{
  Chars, is_formula, is_special, safe, csv_cell, csv_row, join, parse_csv,
}
use real_time_logistics_plat.Csv.RoundTrip.{IsRow, parse_csv-csv_row}

-- The signs with which a spreadsheet takes a cell for a formula.
abbrev pub IsSign : Char → Type 0
IsSign c = (code c ≡ b'=') ⊎ (code c ≡ b'+') ⊎ (code c ≡ b'-') ⊎ (code c ≡ b'@')

abbrev pub IsHarmless : Chars → Type 0
IsHarmless [] = Unit
IsHarmless (c ∷ _) = (code c ≢ b'=') × (code c ≢ b'+') × (code c ≢ b'-') × (code c ≢ b'@')

abbrev pub BeginsFormula : Chars → Type 0
BeginsFormula [] = ⊥
BeginsFormula (c ∷ _) = IsSign c

-- The text that stands in the table, harmless, for the one that was given: the same, or behind an
-- apostrophe where it begins with a sign.
abbrev pub IsEscaped : Chars → Chars → Type 0
IsEscaped raw out = IsHarmless out × ((out ≡ raw) ⊎ (BeginsFormula raw × (out ≡ "'" ∷ raw)))

is_formula-IsSign : (c : Char) → is_formula c ≡ true → IsSign c
unfolding is_formula
is_formula-IsSign c h = ground arith

is_formula-IsHarmless : (c : Char) (cs : Chars) → is_formula c ≡ false → IsHarmless (c ∷ cs)
unfolding is_formula
is_formula-IsHarmless c cs h =
    (λ e. ground arith, λ e. ground arith, λ e. ground arith, λ e. ground arith)

safe-IsEscaped : (raw : Chars) → IsEscaped raw (safe raw)
unfolding safe
safe-IsEscaped [] = (tt, inl refl)
safe-IsEscaped (c ∷ cs) = elim (Bool-cases (is_formula c)) [
  | inl e ↦
      rw (e, safe)
        (
          (
            λ h. absurd (omega (arith, h)),
            λ h. absurd (omega (arith, h)),
            λ h. absurd (omega (arith, h)),
            λ h. absurd (omega (arith, h)),
          ),
          inr (is_formula-IsSign c e, refl),
        )
  | inr e ↦ rw (e, safe) (is_formula-IsHarmless c cs e, inl refl)
]

-- A cell as written, with or without quotes.
csv_cell-IsHarmless : (raw : Chars) → IsHarmless (csv_cell raw)
unfolding csv_cell
csv_cell-IsHarmless raw = elim (Bool-cases (any is_special (safe raw))) [
  | inl e ↦ rw e (
      (
        λ h. absurd (omega (arith, h)),
        λ h. absurd (omega (arith, h)),
        λ h. absurd (omega (arith, h)),
        λ h. absurd (omega (arith, h)),
      ))
  | inr e ↦ rw e (safe-IsEscaped raw).0
]

row-IsEscaped : (row : List Chars) → Pointwise IsEscaped row (map safe row)
row-IsEscaped [] = tt
row-IsEscaped (v ∷ vs) = (safe-IsEscaped v, row-IsEscaped vs)

table-IsEscaped :
    (table : List (List Chars)) → Pointwise (Pointwise IsEscaped) table (map (map safe) table)
table-IsEscaped [] = tt
table-IsEscaped (r ∷ rs) = (row-IsEscaped r, table-IsEscaped rs)

row-IsHarmless : (row : List Chars) → All (λ raw. IsHarmless (csv_cell raw)) row
row-IsHarmless [] = tt
row-IsHarmless (v ∷ vs) = (csv_cell-IsHarmless v, row-IsHarmless vs)

table-IsHarmless : (table : List (List Chars)) → All (All (λ raw. IsHarmless (csv_cell raw))) table
table-IsHarmless [] = tt
table-IsHarmless (r ∷ rs) = (row-IsHarmless r, table-IsHarmless rs)

-- No cell of an exported table is a formula, as it is written and as it is read back, in its
-- place: what is read begins with none of `=`, `+`, `-` and `@`, and is the cell that was given, or
-- that cell behind an apostrophe where it begins with one of them. The conditions on what is read
-- back are those of the round trip.
pub parse_csv-IsEscaped :
    (table : List (List Chars))
    → All IsRow table
    → Pointwise (Pointwise IsEscaped) table (parse_csv (join "\n" (map csv_row table)))
      × All (All (λ raw. IsHarmless (csv_cell raw))) table
parse_csv-IsEscaped table h = (
  subst (Pointwise (Pointwise IsEscaped) table) (sym (parse_csv-csv_row table h))
      (table-IsEscaped table),
  table-IsHarmless table,
)
