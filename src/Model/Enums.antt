-- ===== src/Model/Enums.antt =====
-- The unions of string literals of packages/shared/src/index.ts, their texts and their tests.
use real_time_logistics_plat.Common.{ℕ, String, Bool, true, false}

-- `negsuc n` is -(n + 1).
pub data ℤ : Type 0 where
  pos : ℕ → ℤ
  negsuc : ℕ → ℤ

pub data Role : Type 0 where
  admin dispatcher driver customer : Role

pub data OrderStatus : Type 0 where
  pending assigned picked_up in_transit delivered failed cancelled : OrderStatus

pub data DriverStatus : Type 0 where
  available busy offline : DriverStatus

pub data PaymentStatus : Type 0 where
  unpaid pending paid failed : PaymentStatus

pub data Priority : Type 0 where
  standard express urgent : Priority

pub data MaintenanceStatus : Type 0 where
  ok due overdue : MaintenanceStatus

pub data VerificationMethod : Type 0 where
  pin qr pin_qr : VerificationMethod

pub data EtaConfidence : Type 0 where
  high medium low : EtaConfidence

pub data EtaSource : Type 0 where
  direct route_run : EtaSource

pub data ReturnStatus : Type 0 where
  requested approved rejected : ReturnStatus

pub data Channel : Type 0 where
  email in_app : Channel

pub data NotificationStatus : Type 0 where
  queued sent simulated failed : NotificationStatus

pub data ParcelScanStage : Type 0 where
  pickup hub delivery : ParcelScanStage

-- The text that a status stands for; it is also the type of the event that records it.
unfoldable pub status_text : OrderStatus → String
status_text pending = "pending"
status_text assigned = "assigned"
status_text picked_up = "picked_up"
status_text in_transit = "in_transit"
status_text delivered = "delivered"
status_text OrderStatus.failed = "failed"
status_text cancelled = "cancelled"

-- `a === b` on statuses.
unfoldable pub same_status : OrderStatus → OrderStatus → Bool
same_status pending pending = true
same_status assigned assigned = true
same_status picked_up picked_up = true
same_status in_transit in_transit = true
same_status delivered delivered = true
same_status OrderStatus.failed OrderStatus.failed = true
same_status cancelled cancelled = true
same_status _ _ = false

-- `["delivered", "cancelled", "failed"].includes(status)`.
abbrev pub is_terminal : OrderStatus → Bool
is_terminal delivered = true
is_terminal cancelled = true
is_terminal OrderStatus.failed = true
is_terminal _ = false

-- `["assigned", "picked_up", "in_transit"].includes(status)`.
abbrev pub is_active : OrderStatus → Bool
is_active assigned = true
is_active picked_up = true
is_active in_transit = true
is_active _ = false

abbrev pub is_driver : Role → Bool
is_driver driver = true
is_driver _ = false

abbrev pub is_customer : Role → Bool
is_customer customer = true
is_customer _ = false

abbrev pub is_available : DriverStatus → Bool
is_available available = true
is_available _ = false

abbrev pub is_paid : PaymentStatus → Bool
is_paid paid = true
is_paid _ = false

abbrev pub stage_text : ParcelScanStage → String
stage_text pickup = "pickup"
stage_text hub = "hub"
stage_text delivery = "delivery"

abbrev pub same_stage : ParcelScanStage → ParcelScanStage → Bool
same_stage pickup pickup = true
same_stage hub hub = true
same_stage delivery delivery = true
same_stage _ _ = false
