-- ===== src/Store/State.antt =====
-- The arrays and maps of apps/api/src/domain/store.ts, and what one request takes from outside.
use Prim.Native.Char.{Char, code}
use Prim.Native.String.{String, [], ◌∷◌}
use real_time_logistics_plat.Common.{ℕ, Bool, Option, List, eqb, if◌then◌else◌}
use real_time_logistics_plat.Model.{
  User, Driver, Order, AuditRecord, NotificationRecord, ParcelScan, OrganizationSettings,
  NotificationStatus,
}

pub record World : Type 0 where
  pub users : List User
  pub drivers : List Driver
  pub orders : List Order
  pub notification_records : List NotificationRecord
  pub audit_records : List AuditRecord
  pub parcel_scans : List ParcelScan
  pub organization_settings : OrganizationSettings
  pub organization_settings_by_tenant : List (String × OrganizationSettings)
  pub delivery_pins : List (String × String)

-- One request. The clock is read once; `uuid k` is the identifier drawn for the order's event (0),
-- the audit record (1), the notification (2), and a new order or scan (3). The other fields are the
-- answers of code that is not part of the repository: the hash and the case mapping of texts, the
-- outcome of the database transaction, of the audit insert and of the notification insert, and
-- what the mail adapter returned (`none` when it threw).
pub record Context : Type 0 where
  pub now : ℕ
  pub uuid : ℕ → String
  pub tracking_code : String
  pub parcel_code : String
  pub pin_hash : String → String
  pub lower : String → String
  pub persisted : Bool
  pub audited : Bool
  pub mailed : Option NotificationStatus
  pub recorded : Bool

abbrev space_for : Char → Char
space_for c = if eqb (code c) b'_' then " " else c

-- `text.replaceAll("_", " ")`.
unfoldable pub spaced : String → String
spaced [] = []
spaced (c ∷ s) = space_for c ∷ spaced s

-- `text.replace("_", " ")`, which changes the first underscore only.
unfoldable pub first_spaced : String → String
first_spaced [] = []
first_spaced (c ∷ s) = if eqb (code c) b'_' then " " ∷ s else c ∷ first_spaced s
