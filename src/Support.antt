-- ===== src/Support.antt =====
-- The support tickets of apps/api/src/app.ts, and the handler that opens one.
pub mod Messages
pub mod Restored
use real_time_logistics_plat.Common.{
  ℕ, String, Bool, true, false, not, ◌&&◌, ◌||◌, Option, none, some, List, [], ◌∷◌, ◌++◌, ◌==◌,
  find, modify_first, filter, if◌then◌else◌,
}
use real_time_logistics_plat.Model.{User, Order, Role, is_customer}
use real_time_logistics_plat.Store.{World, Context, get_order}
use real_time_logistics_plat.Api.{is_operator, can_access_order, audit}
use real_time_logistics_plat.Settlements.{text?}

pub data SupportTicketStatus : Type 0 where
  opened : SupportTicketStatus
  pending : SupportTicketStatus
  resolved : SupportTicketStatus

pub data SupportTicketPriority : Type 0 where
  low : SupportTicketPriority
  normal : SupportTicketPriority
  high : SupportTicketPriority
  urgent : SupportTicketPriority

pub data SupportTicketCategory : Type 0 where
  delivery : SupportTicketCategory
  payment : SupportTicketCategory
  address : SupportTicketCategory
  account : SupportTicketCategory
  other : SupportTicketCategory

pub record SupportTicket : Type 0 where
  pub id : String
  pub organization_id : String
  pub order_id : Option String
  pub customer_id : Option String
  pub subject : String
  pub category : SupportTicketCategory
  pub priority : SupportTicketPriority
  pub status : SupportTicketStatus
  pub created_by : String
  pub assigned_to : Option String
  pub created_at : ℕ
  pub updated_at : ℕ
  pub last_message : Option String

pub record SupportMessage : Type 0 where
  pub id : String
  pub ticket_id : String
  pub organization_id : String
  pub sender_id : String
  pub sender_name : String
  pub sender_role : Role
  pub message : String
  pub internal : Bool
  pub created_at : ℕ

-- `supportTickets` and `supportMessages`, beside the other arrays.
pub record Office : Type 0 where
  pub world : World
  pub support_tickets : List SupportTicket
  pub support_messages : List SupportMessage

pub data SupportResponse : Type 0 where
  with_ticket : ℕ → SupportTicket → SupportResponse
  with_message : ℕ → SupportMessage → SupportResponse
  refused : ℕ → String → SupportResponse

pub record TicketInput : Type 0 where
  pub subject : String
  pub category : SupportTicketCategory
  pub priority : SupportTicketPriority
  pub order_id : Option String
  pub message : String

pub record MessageInput : Type 0 where
  pub message : String
  pub internal : Bool

-- `assignedTo` is absent, null or a text.
pub record TicketPatch : Type 0 where
  pub status : Option SupportTicketStatus
  pub assigned_to : Option (Option String)

abbrev customer_id? : User → Option String
customer_id? actor = if is_customer actor.role then some actor.id else none

unfoldable pub new_ticket : Context → User → Option String → TicketInput → SupportTicket
new_ticket ctx actor order_id b = record {
  id = ctx.uuid 3;
  organization_id = actor.organization_id;
  order_id = order_id;
  customer_id = customer_id? actor;
  subject = b.subject;
  category = b.category;
  priority = b.priority;
  status = opened;
  created_by = actor.id;
  assigned_to = none;
  created_at = ctx.now;
  updated_at = ctx.now;
  last_message = some b.message;
}

unfoldable pub new_message : Context → User → SupportTicket → String → Bool → SupportMessage
new_message ctx actor t message internal = record {
  id = ctx.uuid 4;
  ticket_id = t.id;
  organization_id = t.organization_id;
  sender_id = actor.id;
  sender_name = actor.name;
  sender_role = actor.role;
  message = message;
  internal = internal;
  created_at = ctx.now;
}

abbrev pub internal_error : SupportResponse
internal_error = refused 500 "Internal server error"

-- `splice` of the ticket that was put in front, and of the message that was put at the end.
abbrev pub tail : List SupportTicket → List SupportTicket
tail [] = []
tail (_ ∷ rest) = rest

unfoldable pub init : List SupportMessage → List SupportMessage
init [] = []
init (m ∷ []) = []
init (m ∷ n ∷ rest) = m ∷ init (n ∷ rest)

-- The audit of a change that is stored.
unfoldable pub audited :
    Context → User → String → SupportTicket → SupportResponse → Office → Office × SupportResponse
unfolding audit
audited ctx actor action t answer s = (
  record s { world = audit ctx actor action "support_ticket" t.id s.world },
  if ctx.audited then answer else internal_error,
)

unfoldable pub open_ticket :
    Context → User → Option String → TicketInput → Office → Office × SupportResponse
unfolding new_ticket new_message audited init
open_ticket ctx actor order_id b s =
    let t = new_ticket ctx actor order_id b in
    let s' : Office = record s {
      support_tickets = t ∷ s.support_tickets;
      support_messages = s.support_messages ++ new_message ctx actor t b.message false ∷ [];
    } in
    if ctx.persisted then audited ctx actor "support.ticket_created" t (with_ticket 201 t) s' else (
      record s' {
        support_tickets = tail s'.support_tickets;
        support_messages = init s'.support_messages;
      },
      internal_error,
    )

unfoldable pub open_for :
    Context → User → TicketInput → Option Order → Office → Office × SupportResponse
unfolding open_ticket can_access_order
open_for ctx actor b none s = (s, refused 404 "Order not found")
open_for ctx actor b (some o) s =
    if is_customer actor.role && not (can_access_order ctx actor o)
    then (s, refused 404 "Order not found")
    else open_ticket ctx actor (some o.id) b s

unfoldable pub open_about :
    Context → User → TicketInput → Option String → Office → Office × SupportResponse
unfolding open_for open_ticket get_order
open_about ctx actor b none s = open_ticket ctx actor none b s
open_about ctx actor b (some order_id) s =
    open_for ctx actor b (get_order order_id actor.organization_id s.world) s

-- `if (body.orderId)`.
abbrev given : Option String → Option String
given none = none
given (some x) = text? x

unfoldable pub post_ticket : Context → User → Option TicketInput → Office → Office × SupportResponse
unfolding open_about
post_ticket ctx actor none s = (s, refused 400 "Validation failed")
post_ticket ctx actor (some b) s = open_about ctx actor b (given b.order_id) s
