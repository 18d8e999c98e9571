-- ===== src/Csv.antt =====
-- Comma-separated texts: `csvCell` and `csvRow` of apps/api/src/app.ts, and `parseCsv` of
-- apps/api/src/services/settlements.ts, which apps/api/src/services/bulkOrders.ts repeats. The
-- code walks a text by characters, so a text is the list of them here.
pub mod Plain
pub mod Quoted
pub mod RoundTrip
pub mod Harmless
use Prim.Native.Char.{Char, code}
use Prim.Native.String.{String}
use real_time_logistics_plat.Common.{
  ℕ, Bool, true, false, not, ◌&&◌, ◌||◌, Option, none, some, List, [], ◌∷◌, ◌++◌, any, eqb, leb,
  if◌then◌else◌, map,
}

abbrev pub Chars : Type 0
Chars = List Char

unfoldable pub chars : String → Chars
chars String.[] = []
chars (String.◌∷◌ c s) = c ∷ chars s

unfoldable pub text : Chars → String
text [] = String.[]
text (c ∷ cs) = String.◌∷◌ c (text cs)

abbrev pub is_quote : Char → Bool
is_quote c = eqb (code c) b'"'

abbrev pub is_comma : Char → Bool
is_comma c = eqb (code c) b','

abbrev pub is_newline : Char → Bool
is_newline c = eqb (code c) b'\n'

abbrev pub is_return : Char → Bool
is_return c = eqb (code c) b'\r'

-- What `trim` takes off: white space and line ends.
unfoldable pub is_space : Char → Bool
is_space c =
    let n = code c in
    (leb 9 n && leb n 13)
    || eqb n 32
    || eqb n 160
    || eqb n 5760
    || (leb 8192 n && leb n 8202)
    || eqb n 8232
    || eqb n 8233
    || eqb n 8239
    || eqb n 8287
    || eqb n 12288
    || eqb n 65279

unfoldable pub trim_start : Chars → Chars
unfolding is_space
trim_start [] = []
trim_start (c ∷ cs) = if is_space c then trim_start cs else c ∷ cs

abbrev kept_behind : Char → Chars → Chars
kept_behind c [] = if is_space c then [] else c ∷ []
kept_behind c (d ∷ ds) = c ∷ d ∷ ds

unfoldable pub trim_end : Chars → Chars
unfolding is_space
trim_end [] = []
trim_end (c ∷ cs) = kept_behind c (trim_end cs)

unfoldable pub trim : Chars → Chars
unfolding trim_start trim_end
trim cs = trim_end (trim_start cs)

-- The variables of the loop of `parseCsv`.
pub record Scan : Type 0 where
  pub rows : List (List Chars)
  pub row : List Chars
  pub cell : Chars
  pub quoted : Bool

abbrev pub push : Char → Scan → Scan
push c s = record s { cell = s.cell ++ c ∷ [] }

-- `row.push(cell.trim()); cell = ""`.
abbrev pub end_cell : Scan → Scan
end_cell s = record s { row = s.row ++ trim s.cell ∷ []; cell = [] }

abbrev pub is_filled : Chars → Bool
is_filled [] = false
is_filled (_ ∷ _) = true

-- `if (row.some((value) => value.length)) rows.push(row); row = []`.
unfoldable pub end_row : Scan → Scan
unfolding any trim
end_row s =
    let t = end_cell s in
    record t { rows = if any is_filled t.row then t.rows ++ t.row ∷ [] else t.rows; row = [] }

abbrev pub is_char : (Char → Bool) → Option Char → Bool
is_char p none = false
is_char p (some c) = p c

-- One round of the loop on a character and the next one.
unfoldable pub read : Char → Option Char → Scan → Scan
unfolding end_row trim
read c next s =
    if is_quote c && s.quoted && is_char is_quote next
    then push c s
    else if is_quote c
    then record s { quoted = not s.quoted }
    else if is_comma c && not s.quoted
    then end_cell s
    else if (is_newline c || is_return c) && not s.quoted
    then end_row s
    else push c s

-- Whether the round adds one to `index` itself.
unfoldable pub skips : Char → Char → Scan → Bool
skips c next s =
    if is_quote c && s.quoted && is_quote next
    then true
    else is_return c && is_newline next && not s.quoted

unfoldable pub scan : Scan → Chars → Scan
unfolding read skips
scan s [] = s
scan s (c ∷ []) = read c none s
scan s (c ∷ n ∷ rest) = elim (skips c n s) [
  | true ↦ scan (read c (some n) s) rest
  | false ↦ scan (read c (some n) s) (n ∷ rest)
]

abbrev pub is_nonempty : List Chars → Bool
is_nonempty [] = false
is_nonempty (_ ∷ _) = true

unfoldable pub close : Scan → List (List Chars)
unfolding end_row
close s = if is_filled s.cell || is_nonempty s.row then (end_row s).rows else s.rows

abbrev pub fresh_scan : Scan
fresh_scan = record { rows = []; row = []; cell = []; quoted = false }

unfoldable pub parse_csv : Chars → List (List Chars)
unfolding scan close
parse_csv input = close (scan fresh_scan input)

unfoldable pub is_formula : Char → Bool
is_formula c = let n = code c in eqb n b'=' || eqb n b'+' || eqb n b'-' || eqb n b'@'

-- A text that a spreadsheet would run as a formula gets an apostrophe in front.
unfoldable pub safe : Chars → Chars
unfolding is_formula
safe [] = []
safe (c ∷ cs) = if is_formula c then "'" ∷ c ∷ cs else c ∷ cs

unfoldable pub doubled : Chars → Chars
doubled [] = []
doubled (c ∷ cs) = if is_quote c then c ∷ c ∷ doubled cs else c ∷ doubled cs

abbrev pub is_special : Char → Bool
is_special c = is_quote c || is_comma c || is_newline c

unfoldable pub csv_cell : Chars → Chars
unfolding safe doubled any
csv_cell raw =
    let cs = safe raw in if any is_special cs then "\"" ∷ (doubled cs ++ "\"" ∷ []) else cs

unfoldable pub join : Char → List Chars → Chars
join between [] = []
join between (x ∷ []) = x
join between (x ∷ y ∷ xs) = x ++ between ∷ join between (y ∷ xs)

unfoldable pub csv_row : List Chars → Chars
unfolding csv_cell join
csv_row values = join "," (map csv_cell values)
