-- ===== src/Settlements/Vouched.antt =====
-- The rows that are accepted after an import.
use real_time_logistics_plat.Common.{String, List, [], ◌∷◌, ◌≡◌, ◌≢◌, ◌⊎◌, All, Memᴰ, map}
use real_time_logistics_plat.Geo.{JsNumber}
use real_time_logistics_plat.Store.{World, list_orders}
use real_time_logistics_plat.Settlements.{Desk, Row, accepted, normalize, key}
use real_time_logistics_plat.Settlements.Service.{Books, rows_of}
use real_time_logistics_plat.Settlements.Matches.{IsJustified}

module _ (num : JsNumber) (desk : Desk num) (tenant : String) (w : World) where
  -- An earlier row with the reference was accepted.
  abbrev pub WasAccepted : List (Row num) → Row num → Type 0
  WasAccepted before r =
      (old : Row num) × Memᴰ old before × (key num old ≡ key num r) × (old.review_status ≡ accepted)

  -- A line of the file with the reference names an order of the tenant and agrees with it.
  abbrev pub IsProvedBy : List String → List (List String) → Row num → Type 0
  IsProvedBy headers lines r =
      (values : List String) × Memᴰ values lines
      × (read : Row num) × (key num read ≡ key num r)
      × IsJustified num desk (list_orders tenant w) headers values read

  abbrev pub IsVouched : List (Row num) → List String → List (List String) → Row num → Type 0
  IsVouched before headers lines r =
      (r.review_status ≢ accepted) ⊎ WasAccepted before r ⊎ IsProvedBy headers lines r

  module _ (before : List (Row num)) (headers : List String) (lines : List (List String)) where
    Vouched : Row num → Type 0
    Vouched = IsVouched before headers lines

  -- The rows that a table leaves, by its header and its lines.
  abbrev pub AreVouched : Books num → List (List String) → Books num → Type 0
  AreVouched books [] after = rows_of num tenant after ≡ rows_of num tenant books
  AreVouched books (header ∷ lines) after =
      All (IsVouched (rows_of num tenant books) (map (normalize num desk) header) lines)
        (rows_of num tenant after)
