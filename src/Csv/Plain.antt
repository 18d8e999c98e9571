-- ===== src/Csv/Plain.antt =====
-- `parseCsv` outside quotes: over plain characters, and at the end of a cell, of a row and of the
-- input.
use Prim.Native.Char.{Char}
use mathlib.Core.List.{append-nil, append_assoc}
use real_time_logistics_plat.Common.{true, false, List, [], ◌∷◌, ◌++◌, ◌≡◌, refl, ◌∙◌, arith, any}
use real_time_logistics_plat.Csv.{
  Chars, Scan, scan, read, skips, close, end_row, trim, is_return, is_special, is_filled,
}

-- The loop outside quotes, and inside.
abbrev pub outside : List (List Chars) → List Chars → Chars → Scan
outside rows row cell = record { rows = rows; row = row; cell = cell; quoted = false }

abbrev pub inside : List (List Chars) → List Chars → Chars → Scan
inside rows row cell = record { rows = rows; row = row; cell = cell; quoted = true }

module _ (rows : List (List Chars)) (row : List Chars) where
  pub scan_plain :
      (c : Char) (cell rest : Chars)
      → is_special c ≡ false
      → is_return c ≡ false
      → scan (outside rows row cell) (c ∷ rest) ≡ scan (outside rows row (cell ++ c ∷ [])) rest
  unfolding scan read skips
  scan_plain c cell [] h k = ground arith
  scan_plain c cell (n ∷ rest) h k = ground arith

  pub scan_plains :
      (cs cell rest : Chars)
      → any is_special cs ≡ false
      → any is_return cs ≡ false
      → scan (outside rows row cell) (cs ++ rest) ≡ scan (outside rows row (cell ++ cs)) rest
  unfolding any
  scan_plains [] cell rest h k = rw append-nil
  scan_plains (c ∷ cs) cell rest h k =
      scan_plain c cell (cs ++ rest) (ground arith) (ground arith)
      ∙ scan_plains cs (cell ++ c ∷ []) rest (ground arith) (ground arith)
      ∙ rw append_assoc

  pub scan_comma :
      (cell rest : Chars)
      → scan (outside rows row cell) ("," ∷ rest)
        ≡ scan (outside rows (row ++ trim cell ∷ []) []) rest
  unfolding scan read skips
  scan_comma cell [] = refl
  scan_comma cell (n ∷ rest) = refl

  pub scan_newline :
      (cell rest : Chars)
      → any is_filled (row ++ trim cell ∷ []) ≡ true
      → scan (outside rows row cell) ("\n" ∷ rest)
        ≡ scan (outside (rows ++ (row ++ trim cell ∷ []) ∷ []) [] []) rest
  unfolding scan read skips end_row
  scan_newline cell [] h = rw h
  scan_newline cell (n ∷ rest) h = rw h

pub close-outside :
    (rows : List (List Chars)) (row : List Chars) (cell : Chars)
    → any is_filled (row ++ trim cell ∷ []) ≡ true
    → close (outside rows row cell) ≡ rows ++ (row ++ trim cell ∷ []) ∷ []
unfolding close end_row any trim
close-outside rows [] [] h = cc
close-outside rows [] (c ∷ cell) h = rw h
close-outside rows (x ∷ row) [] h = rw h
close-outside rows (x ∷ row) (c ∷ cell) h = rw h
