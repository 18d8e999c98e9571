-- ===== src/Csv/RoundTrip.antt =====
-- `parseCsv` reads back what `csvRow` writes.
use mathlib.Core.List.{append-nil, append_assoc}
use real_time_logistics_plat.Common.{
  true, false, List, [], ◌∷◌, ◌++◌, ◌≡◌, refl, sym, ap, ◌∙◌, arith, Bool-cases, inl, inr, All, any,
  map,
}
use real_time_logistics_plat.Csv.{
  Chars, scan, close, trim, is_return, is_special, is_filled, safe, csv_cell, csv_row, join,
  parse_csv, doubled,
}
use real_time_logistics_plat.Csv.Plain.{
  outside, scan_plains, scan_comma, scan_newline, close-outside,
}
use real_time_logistics_plat.Csv.Quoted.{starts_plain, scan_open, scan-doubled}

-- No white space at either end, and a carriage return only where there is a reason to quote.
abbrev pub IsReadable : Chars → Type 0
IsReadable raw =
    (trim (safe raw) ≡ safe raw)
    × (any is_special (safe raw) ≡ false → any is_return (safe raw) ≡ false)

-- A row of readable cells, one of which is not empty.
abbrev pub IsRow : List Chars → Type 0
IsRow values = All IsReadable values × (any is_filled values ≡ true)

scan-csv_cell :
    (rows : List (List Chars)) (row : List Chars) (raw rest : Chars)
    → IsReadable raw
    → starts_plain rest ≡ true
    → scan (outside rows row []) (csv_cell raw ++ rest) ≡ scan (outside rows row (safe raw)) rest
unfolding csv_cell
scan-csv_cell rows row raw rest h k = elim (Bool-cases (any is_special (safe raw))) [
  | inl e ↦ rw e (
      scan_open rows row [] _
      ∙ ap (scan _) (append_assoc (doubled (safe raw)) ("\"" ∷ []) rest)
      ∙ scan-doubled rows row (safe raw) [] rest k)
  | inr e ↦ rw e (scan_plains rows row (safe raw) [] rest e (h.1 e))
]

-- The cells of a row but the last one, and the last one, as they are written.
before : Chars → List Chars → List Chars
before v [] = []
before v (w ∷ ws) = safe v ∷ before w ws

last : Chars → List Chars → Chars
last v [] = safe v
last v (w ∷ ws) = last w ws

before-last :
    (v : Chars) (vs : List Chars)
    → All IsReadable (v ∷ vs)
    → before v vs ++ trim (last v vs) ∷ [] ≡ map safe (v ∷ vs)
unfolding before last
before-last v [] h = rw (h.0.0) refl
before-last v (w ∷ ws) h = ap (◌∷◌ (safe v)) (before-last w ws h.1)

scan-end :
    (rows : List (List Chars)) (row : List Chars) (cell rest : Chars)
    → trim cell ≡ cell
    → scan (outside rows row cell) ("," ∷ rest) ≡ scan (outside rows (row ++ cell ∷ []) []) rest
scan-end rows row cell rest h =
    scan_comma rows row cell rest
    ∙ ap (λ (t : Chars). scan (outside rows (row ++ t ∷ []) []) rest) h

scan-csv_row :
    (rows : List (List Chars)) (row : List Chars) (v : Chars) (vs : List Chars) (rest : Chars)
    → All IsReadable (v ∷ vs)
    → starts_plain rest ≡ true
    → scan (outside rows row []) (csv_row (v ∷ vs) ++ rest)
      ≡ scan (outside rows (row ++ before v vs) (last v vs)) rest
unfolding csv_row join before last
scan-csv_row rows row v [] rest h k = rw append-nil (scan-csv_cell rows row v rest h.0 k)
scan-csv_row rows row v (w ∷ ws) rest h k =
    ap (scan _) (append_assoc (csv_cell v) _ rest)
    ∙ scan-csv_cell rows row v _ h.0 refl
    ∙ scan-end rows row (safe v) _ h.0.0
    ∙ scan-csv_row rows (row ++ safe v ∷ []) w ws rest h.1 k
    ∙ rw append_assoc

any-safe : (vs : List Chars) → any is_filled (map safe vs) ≡ any is_filled vs
unfolding any safe
any-safe [] = refl
any-safe ([] ∷ vs) = any-safe vs
any-safe ((c ∷ cs) ∷ vs) = ground arith

filled_row :
    (v : Chars) (vs : List Chars)
    → IsRow (v ∷ vs)
    → any is_filled (before v vs ++ trim (last v vs) ∷ []) ≡ true
filled_row v vs h = ap (any is_filled) (before-last v vs h.0) ∙ any-safe (v ∷ vs) ∙ h.1

not-IsRow-nil : ¬ IsRow []
unfolding any
not-IsRow-nil h = cc

read_row :
    (rows : List (List Chars)) (v : Chars) (vs : List Chars)
    → IsRow (v ∷ vs)
    → rows ++ (before v vs ++ trim (last v vs) ∷ []) ∷ [] ≡ rows ++ map safe (v ∷ vs) ∷ []
read_row rows v vs h = ap (λ (r : List Chars). rows ++ r ∷ []) (before-last v vs h.0)

close-table :
    (rows : List (List Chars)) (values : List Chars) (table : List (List Chars))
    → All IsRow (values ∷ table)
    → close (scan (outside rows [] []) (join "\n" (map csv_row (values ∷ table))))
      ≡ rows ++ map (map safe) (values ∷ table)
unfolding join scan
close-table rows [] table h = absurd (not-IsRow-nil h.0)
close-table rows (v ∷ vs) [] h =
    ap (λ (t : Chars). close (scan (outside rows [] []) t)) (sym (append-nil (csv_row (v ∷ vs))))
    ∙ ap close (scan-csv_row rows [] v vs [] h.0.0 refl)
    ∙ close-outside rows (before v vs) (last v vs) (filled_row v vs h.0)
    ∙ read_row rows v vs h.0
close-table rows (v ∷ vs) (next ∷ table) h =
    let others = join "\n" (map csv_row (next ∷ table)) in
    ap close (
      scan-csv_row rows [] v vs ("\n" ∷ others) h.0.0 refl
      ∙ scan_newline rows (before v vs) (last v vs) others (filled_row v vs h.0))
    ∙ ap (λ (t : List (List Chars)). close (scan (outside t [] []) others)) (read_row rows v vs h.0)
    ∙ close-table (rows ++ map safe (v ∷ vs) ∷ []) next table h.1
    ∙ append_assoc rows (map safe (v ∷ vs) ∷ []) (map (map safe) (next ∷ table))

-- A table that is written row by row is read back as it is, cell by cell, up to the apostrophe
-- before a formula: whatever commas, quotes and line ends the cells hold, where each row has a
-- cell that is not empty, no cell as written begins or ends with white space, and a cell with a
-- carriage return has a comma, a quote or a newline too.
pub parse_csv-csv_row :
    (table : List (List Chars))
    → All IsRow table
    → parse_csv (join "\n" (map csv_row table)) ≡ map (map safe) table
unfolding parse_csv join scan close
parse_csv-csv_row [] h = refl
parse_csv-csv_row (values ∷ table) h = close-table [] values table h
