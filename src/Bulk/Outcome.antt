-- ===== src/Bulk/Outcome.antt =====
-- What an import answers, and the orders that it leaves.
use real_time_logistics_plat.Common.{
  map, ℕ, suc, ◌+◌, String, Bool, true, false, List, [], ◌∷◌, ◌++◌, ◌≡◌, refl, sym, subst, ◌∙◌,
  arith, length, inl, inr, ◌⊎◌,
}
use real_time_logistics_plat.Csv.{chars, text, parse_csv}
use real_time_logistics_plat.Model.{User}
use real_time_logistics_plat.Store.{World, Context, list_orders}
use real_time_logistics_plat.Bulk.{
  BulkOrderCandidate, BulkOrderIssue, ParsedOrders, ParseResult, parsed, thrown,
  parse_bulk_order_csv,
}
use real_time_logistics_plat.Bulk.Import.{
  ValidOrder, Importer, ImportResult, Creation, finished, broken, ImportOutcome, imported,
  unreadable, aborted, create_all, outcome_of, import_selected, is_empty, codes_of, select, Verdict,
  taken, rejected, judge, codes_after, place, import_parsed, run_bulk_import,
}
use real_time_logistics_plat.Bulk.Parsed.{ReadsAll-sized, parse_bulk_order_csv-ReadsAll}
use real_time_logistics_plat.Bulk.Created.{Adds, AllOrNone, create_all-AllOrNone}

-- The candidates that passed, and the others.
abbrev Chosen : Type 0
Chosen = List ValidOrder × List BulkOrderIssue

abbrev both : Chosen → ℕ
both (vs, issues) = length vs + length issues

place-both : (v : Verdict) (found : Chosen) → both (place v found) ≡ suc (both found)
unfolding place
place-both (taken v) (vs, issues) = omega arith
place-both (rejected i) (vs, issues) = omega arith

select-both :
    (env : Importer) (actor : User) (codes : List String) (cs : List BulkOrderCandidate)
    → both (select env actor codes cs) ≡ length cs
unfolding select
select-both env actor codes [] = omega arith
select-both env actor codes (c ∷ cs) =
    let verdict = judge env actor codes c in
    place-both verdict (select env actor (codes_after codes verdict) cs)
    ∙ omega (arith, select-both env actor (codes_after codes verdict) cs)

length-append : (is js : List BulkOrderIssue) → length (is ++ js) ≡ length is + length js
length-append [] js = omega arith
length-append (i ∷ is) js = omega (arith, length-append is js)

-- What an import answers, and the orders it leaves.
abbrev pub IsCreated : User → World → World → ImportResult → Type 0
IsCreated actor w w' r =
    Adds actor w.orders r.total_rows w'
    × (length r.created_orders ≡ r.total_rows)
    × (r.dry_run ≡ false)
    × (is_empty r.issues ≡ true)

abbrev pub IsLeft : World → World → ImportResult → Type 0
IsLeft w w' r =
    (w'.orders ≡ w.orders)
    × (r.created_orders ≡ [])
    × ((r.dry_run ≡ true) ⊎ (is_empty r.issues ≡ false))

abbrev pub Imports : User → World → World × ImportOutcome → Type 0
Imports actor w (w', unreadable message) = w'.orders ≡ w.orders
Imports actor w (w', aborted) = w'.orders ≡ w.orders
Imports actor w (w', imported r) =
    (r.valid_rows + r.invalid_rows ≡ r.total_rows) × (IsLeft w w' r ⊎ IsCreated actor w w' r)

outcome_of-Imports :
    (actor : User) (w : World) (vs : List ValidOrder) (c : Creation)
    → AllOrNone actor w.orders (length vs) c
    → Imports actor w (outcome_of (length vs) vs [] c)
unfolding outcome_of
outcome_of-Imports actor w vs (finished w' created) a = (omega arith, inr (a.0, a.1, refl, refl))
outcome_of-Imports actor w vs (broken w') a = a

import_selected-Imports :
    (requests : ℕ → Context) (actor : User) (dry_run : Bool) (total : ℕ) (vs : List ValidOrder)
    (issues : List BulkOrderIssue) (w : World)
    → length vs + length issues ≡ total
    → Imports actor w (import_selected requests actor dry_run total vs issues w)
unfolding import_selected
import_selected-Imports requests actor true total vs issues w n = (n, inl (refl, refl, inl refl))
import_selected-Imports requests actor false total vs (i ∷ is) w n = (n, inl (refl, refl, inr refl))
import_selected-Imports requests actor false total vs [] w n =
    let made = create_all requests actor 0 vs [] w in
    let start : Adds actor w.orders 0 w = record {
      front = [];
      stands = refl;
      counted = refl;
      fresh = tt;
    } in
    let all_or_none : AllOrNone actor w.orders (length vs) made =
      subst (λ k. AllOrNone actor w.orders k made) (omega arith)
        (create_all-AllOrNone requests actor w.orders 0 vs [] w start) in
    let counted : length vs ≡ total = omega (arith, n) in
    subst (λ k. Imports actor w (outcome_of k vs [] made)) counted
      (outcome_of-Imports actor w vs made all_or_none)

ParseResult-cases :
    (r : ParseResult) → ((m : String) × (r ≡ thrown m)) ⊎ ((p : ParsedOrders) × (r ≡ parsed p))
ParseResult-cases (thrown m) = inl (m, refl)
ParseResult-cases (parsed p) = inr (p, refl)

import_thrown :
    (env : Importer) (requests : ℕ → Context) (actor : User) (dry_run : Bool) (w : World)
    (message : String)
    → Imports actor w (import_parsed env requests actor dry_run w (thrown message))
unfolding import_parsed
import_thrown env requests actor dry_run w message = refl

import_parsed-Imports :
    (env : Importer) (requests : ℕ → Context) (actor : User) (dry_run : Bool) (w : World)
    (p : ParsedOrders)
    → length p.candidates + length p.issues ≡ p.total_rows
    → Imports actor w (import_parsed env requests actor dry_run w (parsed p))
unfolding import_parsed
import_parsed-Imports env requests actor dry_run w p r =
    let codes = codes_of (list_orders actor.organization_id w) in
    let chosen = select env actor codes p.candidates in
    import_selected-Imports requests actor dry_run p.total_rows chosen.0 (p.issues ++ chosen.1) w
      (omega (arith, length-append p.issues chosen.1, select-both env actor codes p.candidates, r))

pub run_bulk_import-Imports :
    (env : Importer) (requests : ℕ → Context) (actor : User) (csv : String) (dry_run : Bool)
    (w : World)
    → Imports actor w (run_bulk_import env requests actor csv dry_run w)
unfolding run_bulk_import
run_bulk_import-Imports env requests actor csv dry_run w =
    elim (ParseResult-cases (parse_bulk_order_csv env.lower csv)) [
      | inl (message, e) ↦
          subst (λ r. Imports actor w (import_parsed env requests actor dry_run w r)) (sym e)
            (import_thrown env requests actor dry_run w message)
      | inr (p, e) ↦
          subst (λ r. Imports actor w (import_parsed env requests actor dry_run w r)) (sym e)
            (import_parsed-Imports env requests actor dry_run w p (
              ReadsAll-sized env.lower (map (map text) (parse_csv (chars csv))) p
                (parse_bulk_order_csv-ReadsAll env.lower csv p e)))
    ]
