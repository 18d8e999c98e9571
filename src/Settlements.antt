-- ===== src/Settlements.antt =====
-- The provider's settlements of an organization: apps/api/src/services/settlements.ts. Service has
-- its operations, and this file what they share. An amount is a JavaScript number.
pub mod Service
pub mod Import
pub mod Calls
pub mod Keys
pub mod Reviews
pub mod Ledger
pub mod Cases
pub mod History
pub mod Counts
pub mod Matches
pub mod Vouched
use Prim.Native.Char.{Char, code}
use real_time_logistics_plat.Common.{
  ℕ, String, concat, Bool, true, false, not, ◌&&◌, ◌||◌, Option, none, some, List, [], ◌∷◌, ◌==◌,
  find, eqb, leb, if◌then◌else◌,
}
use real_time_logistics_plat.Model.{Order}
use real_time_logistics_plat.Geo.{JsNumber}
use real_time_logistics_plat.Csv.{Chars, chars, text, is_space, trim}

pub data SettlementMatchStatus : Type 0 where
  matched missing_order amount_mismatch currency_mismatch refund chargeback : SettlementMatchStatus

pub data SettlementReviewStatus : Type 0 where
  pending accepted rejected : SettlementReviewStatus

pub record PaymentSettlementRow (num : JsNumber) : Type 0 where
  pub id : String
  pub organization_id : String
  pub provider : String
  pub provider_ref : String
  pub order_id : Option String
  pub tracking_code : Option String
  pub order_amount : Option num.Num
  pub provider_amount : num.Num
  pub fee_amount : Option num.Num
  pub net_amount : Option num.Num
  pub currency : String
  pub provider_status : String
  pub match_status : SettlementMatchStatus
  pub review_status : SettlementReviewStatus
  pub note : Option String
  pub settled_at : Option ℕ
  pub imported_at : ℕ

-- What the service takes from outside: the mapping of texts to lower and to upper case, an
-- identifier's form in the database, the reading of a finite number and of a date, the clock, and
-- the identifiers that it draws.
pub record Desk (num : JsNumber) : Type 0 where
  pub lower : String → String
  pub upper : String → String
  pub as_uuid : String → String
  pub number : String → Option num.Num
  pub instant : String → Option ℕ
  pub now : ℕ
  pub uuid : ℕ → String

abbrev pub provider_name : String
provider_name = "razorpay"

-- A text that is not empty counts as true.
abbrev pub is_given : String → Bool
is_given t = not (t == "")

-- `a || b` on texts, and on texts that may be missing.
unfoldable pub or_text : String → String → String
or_text a b = if a == "" then b else a

unfoldable pub or_note : Option String → Option String → Option String
or_note none b = b
or_note (some a) b = if a == "" then b else some a

abbrev pub text? : String → Option String
text? t = if t == "" then none else some t

abbrev pub trimmed : String → String
trimmed t = text (trim (chars t))

abbrev is_gap : Char → Bool
is_gap c = is_space c || eqb (code c) b'-'

-- `replace(/[\s-]+/g, "_")`; the flag tells that the character before was such a one too.
unfoldable pub joined_gaps : Bool → Chars → Chars
unfolding is_space
joined_gaps after [] = []
joined_gaps after (c ∷ cs) =
    let rest = joined_gaps (is_gap c) cs in
    if is_gap c then if after then rest else "_" ∷ rest else c ∷ rest

unfoldable pub begins : Chars → Chars → Bool
begins [] cs = true
begins (p ∷ ps) [] = false
begins (p ∷ ps) (c ∷ cs) = if eqb (code p) (code c) then begins ps cs else false

-- `text.includes(part)`.
unfoldable pub contains : Chars → Chars → Bool
unfolding begins
contains part [] = begins part []
contains part (c ∷ cs) = if begins part (c ∷ cs) then true else contains part cs

abbrev is_upper : Char → Bool
is_upper c = leb b'A' (code c) && leb (code c) b'Z'

-- `/^[A-Z]{3}$/`.
unfoldable pub is_currency : Chars → Bool
is_currency (a ∷ b ∷ c ∷ []) = is_upper a && is_upper b && is_upper c
is_currency _ = false

abbrev is_rupee_mark : Char → Bool
is_rupee_mark c = eqb (code c) 8377 || eqb (code c) b','

unfoldable pub without_marks : Chars → Chars
without_marks [] = []
without_marks (c ∷ cs) = if is_rupee_mark c then without_marks cs else c ∷ without_marks cs

-- The most rows that are kept.
abbrev pub max_rows : ℕ
max_rows = 1000

module _ (num : JsNumber) where
  open num use {Num, of_ℕ, sub, div, max, ltb}

  unfoldable pub normalize : Desk num → String → String
  unfolding joined_gaps
  normalize desk t = text (joined_gaps false (chars (desk.lower (trimmed t))))

  unfoldable pub number_value : Desk num → String → Option Num
  unfolding without_marks
  number_value desk t = if t == "" then none else desk.number (text (without_marks (chars t)))

  unfoldable pub date_value : Desk num → String → Option ℕ
  date_value desk t = if t == "" then none else desk.instant t

  -- An order's amount is kept in minor units.
  abbrev pub amount_of : Order → Num
  amount_of o = div (of_ℕ o.amount) (of_ℕ 100)

  abbrev absolute : Num → Num
  absolute x = max x (sub (of_ℕ 0) x)

  -- `Math.abs(a - b) > 0.01`.
  unfoldable pub is_apart : Num → Num → Bool
  is_apart a b = ltb (div (of_ℕ 1) (of_ℕ 100)) (absolute (sub a b))

  unfoldable pub status_for :
      Desk num → Option Order → String → Num → String → SettlementMatchStatus
  unfolding normalize contains is_apart
  status_for desk order status amount currency =
      let normalized = chars (normalize desk status) in
      if contains (chars "chargeback") normalized
      then chargeback
      else if contains (chars "refund") normalized
      then refund
      else elim order [
        | none ↦ missing_order
        | some o ↦
            if is_apart (amount_of o) amount
            then amount_mismatch
            else if not (desk.upper o.currency == desk.upper currency)
            then currency_mismatch
            else matched
      ]

  -- The order with an identifier, in one of its forms, or a tracking code.
  unfoldable pub is_named : Desk num → String → String → Order → Bool
  is_named desk id tracking o =
      (is_given id && (o.id == id || desk.as_uuid o.id == id))
      || (is_given tracking && desk.lower o.tracking_code == desk.lower tracking)

  abbrev pub first_review : SettlementMatchStatus → SettlementReviewStatus
  first_review matched = accepted
  first_review _ = pending

  abbrev pub Row : Type 0
  Row = PaymentSettlementRow num

  -- The key of a row in the map by reference.
  abbrev pub key : Row → String
  key r = concat r.provider (concat ":" r.provider_ref)

  abbrev pub has_key : String → Row → Bool
  has_key k r = key r == k

  -- `Map.set`: the value changes where the key stands, or a new key goes to the end.
  unfoldable pub put : Row → List Row → List Row
  put r [] = r ∷ []
  put r (x ∷ xs) = if key x == key r then r ∷ xs else x ∷ put r xs

  unfoldable pub by_ref : List Row → List Row → List Row
  unfolding put
  by_ref rows [] = rows
  by_ref rows (r ∷ rs) = by_ref (put r rows) rs

  -- A row that replaces another keeps its identifier, its review and its note.
  unfoldable pub retained : Option Row → Row → Row
  unfolding or_text or_note
  retained none r = r
  retained (some p) r = record r {
    id = or_text p.id r.id;
    review_status = p.review_status;
    note = or_note p.note r.note;
  }

  unfoldable pub merge_all : List Row → List Row → List Row
  unfolding put retained find
  merge_all rows [] = rows
  merge_all rows (r ∷ rs) = merge_all (put (retained (find (has_key (key r)) rows) r) rows) rs

  unfoldable pub insert_newest : Row → List Row → List Row
  insert_newest r [] = r ∷ []
  insert_newest r (x ∷ xs) =
      if leb x.imported_at r.imported_at then r ∷ x ∷ xs else x ∷ insert_newest r xs

  -- A stable sort, the latest import first.
  unfoldable pub newest_first : List Row → List Row
  unfolding insert_newest
  newest_first [] = []
  newest_first (r ∷ rs) = insert_newest r (newest_first rs)
