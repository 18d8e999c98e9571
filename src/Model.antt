-- ===== src/Model.antt =====
-- The shared data model, packages/shared/src/index.ts: roles, orders, drivers and the records that
-- the API keeps about them. An instant is its number of milliseconds, an amount its number of minor
-- units, a weight its number of grams, and a coordinate its number of 10^-7 degrees.
mod Enums
unfoldable pub use Enums.*
use real_time_logistics_plat.Common.{ℕ, String, Option, List, Bool}

pub record Coordinate : Type 0 where
  pub lat : ℤ
  pub lng : ℤ

pub record Address : Type 0 where
  pub coordinate : Coordinate
  pub open coordinate use *
  pub label : String

pub record User : Type 0 where
  pub id : String
  pub organization_id : String
  pub name : String
  pub email : String
  pub role : Role

pub record Driver : Type 0 where
  pub id : String
  pub user_id : String
  pub name : String
  pub status : DriverStatus
  pub capacity_kg : ℕ
  pub location : Coordinate
  pub last_seen_at : ℕ
  pub shift_start : Option String
  pub shift_end : Option String
  pub vehicle_plate : Option String
  pub maintenance_due_at : Option ℕ
  pub maintenance_status : Option MaintenanceStatus

pub record OrderEvent : Type 0 where
  pub id : String
  pub type : String
  pub message : String
  pub actor_id : Option String
  pub created_at : ℕ

pub record DeliveryProof : Type 0 where
  pub recipient_name : String
  pub signature_data : String
  pub photo_data : Option String
  pub verification_method : Option VerificationMethod
  pub location : Option Coordinate
  pub created_at : ℕ
  pub driver_id : String

pub record Order : Type 0 where
  pub id : String
  pub organization_id : String
  pub tracking_code : String
  pub customer_name : String
  pub customer_email : String
  pub pickup : Address
  pub dropoff : Address
  pub package_weight_kg : ℕ
  pub priority : Priority
  pub status : OrderStatus
  pub amount : ℕ
  pub currency : String
  pub payment_status : PaymentStatus
  pub assigned_driver_id : Option String
  pub delivery_window_start : Option ℕ
  pub promised_at : ℕ
  pub estimated_arrival_at : Option ℕ
  pub late_risk : Option Bool
  pub eta_confidence : Option EtaConfidence
  pub location_age_seconds : Option ℕ
  pub eta_source : Option EtaSource
  pub delivery_notes : Option String
  pub parcel_code : Option String
  pub reschedule_count : Option ℕ
  pub cancelled_at : Option ℕ
  pub return_requested_at : Option ℕ
  pub return_reason : Option String
  pub return_status : Option ReturnStatus
  pub proof : Option DeliveryProof
  pub created_at : ℕ
  pub updated_at : ℕ
  pub delivered_at : Option ℕ
  pub events : List OrderEvent

pub record NotificationRecord : Type 0 where
  pub id : String
  pub organization_id : String
  pub user_id : Option String
  pub order_id : Option String
  pub channel : Channel
  pub title : String
  pub message : String
  pub status : NotificationStatus
  pub read_at : Option ℕ
  pub created_at : ℕ

-- The `metadata` of an audit record is left out: no code of the repository reads it back.
pub record AuditRecord : Type 0 where
  pub id : String
  pub organization_id : String
  pub actor_id : Option String
  pub action : String
  pub resource_type : String
  pub resource_id : String
  pub created_at : ℕ

pub record OrganizationSettings : Type 0 where
  pub organization_id : String
  pub name : String
  pub timezone : String
  pub geofence_radius_meters : ℕ
  pub average_speed_kph : ℕ
  pub notifications_enabled : Bool
  pub cost_per_km : Option ℕ
  pub cost_per_stop : Option ℕ

pub record ParcelScan : Type 0 where
  pub id : String
  pub organization_id : String
  pub order_id : String
  pub parcel_code : String
  pub stage : ParcelScanStage
  pub scanned_by : String
  pub scanned_at : ℕ
