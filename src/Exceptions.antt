-- ===== src/Exceptions.antt =====
-- The handlers of apps/api/src/app.ts that report a delivery exception and resolve one.
pub mod Kept
pub mod Reports
use real_time_logistics_plat.Common.{
  ℕ, String, concat, Bool, true, false, not, ◌&&◌, Option, none, some, List, [], ◌∷◌, ◌++◌, ◌==◌,
  find, modify_first, if◌then◌else◌,
}
use real_time_logistics_plat.Model.{User, Order, is_driver}
use real_time_logistics_plat.Store.{
  World, Context, get_order, set_order, event, append_event, spaced,
}
use real_time_logistics_plat.Api.{is_staff, is_operator, is_assignee, audit}

pub data ExceptionType : Type 0 where
  delay : ExceptionType
  address_issue : ExceptionType
  customer_unavailable : ExceptionType
  vehicle_issue : ExceptionType
  package_issue : ExceptionType
  delivery_failed : ExceptionType

unfoldable pub type_text : ExceptionType → String
type_text delay = "delay"
type_text address_issue = "address_issue"
type_text customer_unavailable = "customer_unavailable"
type_text vehicle_issue = "vehicle_issue"
type_text package_issue = "package_issue"
type_text delivery_failed = "delivery_failed"

pub data ExceptionStatus : Type 0 where
  opened : ExceptionStatus
  resolved : ExceptionStatus

pub record DeliveryException : Type 0 where
  pub id : String
  pub organization_id : String
  pub order_id : String
  pub type : ExceptionType
  pub description : String
  pub status : ExceptionStatus
  pub created_by : String
  pub created_at : ℕ
  pub resolved_at : Option ℕ
  pub resolution : Option String

-- `deliveryExceptions`, beside the other arrays.
pub record Desk : Type 0 where
  pub world : World
  pub delivery_exceptions : List DeliveryException

pub record ExceptionInput : Type 0 where
  pub type : ExceptionType
  pub description : String

pub data ExceptionResponse : Type 0 where
  answered : ℕ → DeliveryException → ExceptionResponse
  refused : ℕ → String → ExceptionResponse

unfoldable pub new_exception : Context → User → Order → ExceptionInput → DeliveryException
new_exception ctx actor o b = record {
  id = ctx.uuid 3;
  organization_id = actor.organization_id;
  order_id = o.id;
  type = b.type;
  description = b.description;
  status = opened;
  created_by = actor.id;
  created_at = ctx.now;
  resolved_at = none;
  resolution = none;
}

unfoldable pub reported_order : Context → User → ExceptionInput → Order → Order
unfolding event
reported_order ctx actor b o =
    record (append_event
      (event ctx "exception" (concat (spaced (type_text b.type)) (concat ": " b.description))
        (some actor.id))
      o) { updated_at = ctx.now }

-- What follows the change in memory, which is not taken back where the database refuses.
unfoldable pub finish :
    Context → User → String → ℕ → DeliveryException → Desk → Desk × ExceptionResponse
unfolding audit
finish ctx actor action code item s =
    if ctx.persisted
    then (
      record s { world = audit ctx actor action "exception" item.id s.world },
      if ctx.audited then answered code item else refused 500 "Internal server error",
    )
    else (s, refused 500 "Internal server error")

unfoldable pub report :
    Context → User → String → Order → ExceptionInput → Desk → Desk × ExceptionResponse
unfolding new_exception reported_order set_order finish
report ctx actor id o b s =
    let item = new_exception ctx actor o b in
    finish ctx actor "exception.created" 201 item (record {
      world = set_order id actor.organization_id (reported_order ctx actor b o) s.world;
      delivery_exceptions = item ∷ s.delivery_exceptions;
    })

unfoldable pub report_found :
    Context → User → String → ExceptionInput → Option Order → Desk → Desk × ExceptionResponse
unfolding report
report_found ctx actor id b none s = (s, refused 404 "Order not found")
report_found ctx actor id b (some o) s =
    if is_driver actor.role && not (is_assignee actor o s.world)
    then (s, refused 403 "Not your assignment")
    else report ctx actor id o b s

unfoldable pub report_parsed :
    Context → User → String → Option ExceptionInput → Desk → Desk × ExceptionResponse
unfolding get_order report_found
report_parsed ctx actor id none s = (s, refused 400 "Validation failed")
report_parsed ctx actor id (some b) s =
    report_found ctx actor id b (get_order id actor.organization_id s.world) s

unfoldable pub post_exception :
    Context → User → String → Option ExceptionInput → Desk → Desk × ExceptionResponse
unfolding report_parsed
post_exception ctx actor id body s =
    if is_staff actor.role
    then report_parsed ctx actor id body s
    else (s, refused 403 "Insufficient permissions")

abbrev pub is_exception : String → String → DeliveryException → Bool
is_exception id tenant e = e.id == id && e.organization_id == tenant

unfoldable pub resolve : Context → String → DeliveryException → DeliveryException
resolve ctx resolution e = record e {
  status = resolved;
  resolution = some resolution;
  resolved_at = some ctx.now;
}

unfoldable pub resolve_found :
    Context → User → String → String → Option DeliveryException → Desk → Desk × ExceptionResponse
unfolding resolve finish
resolve_found ctx actor id resolution none s = (s, refused 404 "Exception not found")
resolve_found ctx actor id resolution (some e) s =
    finish ctx actor "exception.resolved" 200 (resolve ctx resolution e) (record s {
      delivery_exceptions =
          modify_first (is_exception id actor.organization_id) (resolve ctx resolution)
            s.delivery_exceptions;
    })

unfoldable pub resolve_parsed :
    Context → User → String → Option String → Desk → Desk × ExceptionResponse
unfolding resolve_found
resolve_parsed ctx actor id none s = (s, refused 400 "Validation failed")
resolve_parsed ctx actor id (some resolution) s =
    resolve_found ctx actor id resolution
      (find (is_exception id actor.organization_id) s.delivery_exceptions) s

unfoldable pub patch_resolve :
    Context → User → String → Option String → Desk → Desk × ExceptionResponse
unfolding resolve_parsed
patch_resolve ctx actor id body s =
    if is_operator actor.role
    then resolve_parsed ctx actor id body s
    else (s, refused 403 "Insufficient permissions")

-- A request to one of the handlers.
pub data ExceptionCall : Type 0 where
  posts : Context → User → String → Option ExceptionInput → ExceptionCall
  resolves : Context → User → String → Option String → ExceptionCall

unfoldable pub handle_exception : ExceptionCall → Desk → Desk
unfolding post_exception patch_resolve
handle_exception (posts ctx actor id body) s = (post_exception ctx actor id body s).0
handle_exception (resolves ctx actor id body) s = (patch_resolve ctx actor id body s).0

unfoldable pub handle_exceptions : List ExceptionCall → Desk → Desk
unfolding handle_exception
handle_exceptions [] s = s
handle_exceptions (c ∷ cs) s = handle_exceptions cs (handle_exception c s)
