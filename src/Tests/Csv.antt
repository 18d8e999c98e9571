-- ===== src/Tests/Csv.antt =====
-- The theorems on comma-separated texts, at a small table.
use real_time_logistics_plat.Common.{List, [], ◌∷◌, ◌≡◌, refl, All, Pointwise, any, map}
use real_time_logistics_plat.Csv.{
  Chars, chars, text, safe, csv_cell, csv_row, join, parse_csv, trim,
}
use real_time_logistics_plat.Csv.RoundTrip.{IsRow, parse_csv-csv_row}
use real_time_logistics_plat.Csv.Harmless.{IsHarmless, IsEscaped, parse_csv-IsEscaped}

-- Cells with a comma, with quotes, with a line end, with a formula, and an empty one.
abbrev table : List (List Chars)
table =
    (chars "a, b" ∷ chars "say \"hi\"" ∷ [])
    ∷ (chars "two\nlines" ∷ chars "" ∷ chars "=1+2" ∷ [])
    ∷ []

table-IsRow : All IsRow table
unfolding trim safe any chars
table-IsRow = (
  (((refl, λ _. refl), ((refl, λ _. refl), tt)), refl),
  ((((refl, λ _. refl), ((refl, λ _. refl), ((refl, λ _. refl), tt))), refl), tt),
)

parse_csv-csv_row_example : parse_csv (join "\n" (map csv_row table)) ≡ map (map safe) table
parse_csv-csv_row_example = parse_csv-csv_row table table-IsRow

parse_csv-IsEscaped_example :
    Pointwise (Pointwise IsEscaped) table (parse_csv (join "\n" (map csv_row table)))
    × All (All (λ raw. IsHarmless (csv_cell raw))) table
parse_csv-IsEscaped_example = parse_csv-IsEscaped table table-IsRow

-- A carriage return alone is not quoted, and splits the cell when it is read.
split_by_return : parse_csv (csv_row (chars "a\rb" ∷ [])) ≡ (chars "a" ∷ []) ∷ (chars "b" ∷ []) ∷ []
unfolding parse_csv csv_row chars
split_by_return = refl

written : text (csv_row (chars "a,b" ∷ chars "-1" ∷ [])) ≡ "\"a,b\",'-1"
unfolding csv_row chars text
written = refl
