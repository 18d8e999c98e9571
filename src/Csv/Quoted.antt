-- ===== src/Csv/Quoted.antt =====
-- `parseCsv` inside quotes, over a text whose quotes are doubled.
use Prim.Native.Char.{Char}
use mathlib.Core.List.{append-nil, append_assoc}
use real_time_logistics_plat.Common.{
  Bool, true, false, not, List, [], ◌∷◌, ◌++◌, ◌≡◌, refl, ◌∙◌, arith, Bool-cases, inl, inr,
}
use real_time_logistics_plat.Csv.{Chars, scan, read, skips, is_quote, doubled}
use real_time_logistics_plat.Csv.Plain.{outside, inside}

-- What follows a closing quote does not begin with one.
abbrev pub starts_plain : Chars → Bool
starts_plain [] = true
starts_plain (c ∷ _) = not (is_quote c)

module _ (rows : List (List Chars)) (row : List Chars) where
  pub scan_open :
      (cell rest : Chars)
      → scan (outside rows row cell) ("\"" ∷ rest) ≡ scan (inside rows row cell) rest
  unfolding scan read skips
  scan_open cell [] = refl
  scan_open cell (n ∷ rest) = refl

  scan_close :
      (cell rest : Chars)
      → starts_plain rest ≡ true
      → scan (inside rows row cell) ("\"" ∷ rest) ≡ scan (outside rows row cell) rest
  unfolding scan read skips
  scan_close cell [] h = refl
  scan_close cell (n ∷ rest) h = ground arith

  scan-inside :
      (c : Char) (cell rest : Chars)
      → is_quote c ≡ false
      → scan (inside rows row cell) (c ∷ rest) ≡ scan (inside rows row (cell ++ c ∷ [])) rest
  unfolding scan read skips
  scan-inside c cell [] h = ground arith
  scan-inside c cell (n ∷ rest) h = ground arith

  scan_pair :
      (c : Char) (cell rest : Chars)
      → is_quote c ≡ true
      → scan (inside rows row cell) (c ∷ c ∷ rest) ≡ scan (inside rows row (cell ++ c ∷ [])) rest
  unfolding scan read skips
  scan_pair c cell rest h = ground arith

  pub scan-doubled :
      (cs cell rest : Chars)
      → starts_plain rest ≡ true
      → scan (inside rows row cell) (doubled cs ++ "\"" ∷ rest)
        ≡ scan (outside rows row (cell ++ cs)) rest
  unfolding doubled
  scan-doubled [] cell rest h = rw append-nil (scan_close cell rest h)
  scan-doubled (c ∷ cs) cell rest h = elim (Bool-cases (is_quote c)) [
    | inl e ↦
        rw e (scan_pair c cell _ e ∙ scan-doubled cs (cell ++ c ∷ []) rest h ∙ rw append_assoc)
    | inr e ↦
        rw e (scan-inside c cell _ e ∙ scan-doubled cs (cell ++ c ∷ []) rest h ∙ rw append_assoc)
  ]
