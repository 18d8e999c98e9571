-- ===== src/Support/Messages.antt =====
-- The handlers that add a message to a support ticket and change a ticket.
use real_time_logistics_plat.Common.{
  String, Bool, false, not, ◌&&◌, ◌||◌, Option, none, some, [], ◌∷◌, ◌++◌, ◌==◌, find, modify_first,
  if◌then◌else◌,
}
use real_time_logistics_plat.Model.{User, is_customer}
use real_time_logistics_plat.Store.{Context}
use real_time_logistics_plat.Api.{is_operator}
use real_time_logistics_plat.Settlements.{text?}
use real_time_logistics_plat.Support.{
  SupportTicketStatus, SupportTicket, Office, SupportResponse, TicketInput, MessageInput,
  TicketPatch, new_message, internal_error, init, audited, post_ticket, opened, resolved,
  with_ticket, with_message, refused,
}

abbrev pub is_ticket : String → String → SupportTicket → Bool
is_ticket id tenant t = t.id == id && t.organization_id == tenant

abbrev is_own : Option String → String → Bool
is_own none id = false
is_own (some customer) id = customer == id

unfoldable pub can_access_ticket : User → SupportTicket → Bool
can_access_ticket user t =
    not (is_customer user.role) || is_own t.customer_id user.id || t.created_by == user.id

abbrev reopened : SupportTicketStatus → SupportTicketStatus
reopened resolved = opened
reopened status = status

unfoldable pub noted : Context → String → SupportTicket → SupportTicket
noted ctx message t = record t {
  last_message = some message;
  updated_at = ctx.now;
  status = reopened t.status;
}

unfoldable pub set_ticket : String → String → SupportTicket → Office → Office
set_ticket id tenant t s = record s {
  support_tickets = modify_first (is_ticket id tenant) (λ _. t) s.support_tickets;
}

unfoldable pub add_message :
    Context → User → String → SupportTicket → MessageInput → Office → Office × SupportResponse
unfolding new_message noted set_ticket init
add_message ctx actor id t b s =
    let tenant = actor.organization_id in
    let m = new_message ctx actor t b.message (not (is_customer actor.role) && b.internal) in
    let changed = set_ticket id tenant (noted ctx b.message t) s in
    let s' : Office = record changed { support_messages = changed.support_messages ++ m ∷ [] } in
    if ctx.persisted then (s', with_message 201 m) else (
      set_ticket id tenant t (record s' { support_messages = init s'.support_messages }),
      internal_error,
    )

unfoldable pub message_found :
    Context
    → User
    → String
    → MessageInput
    → Option SupportTicket
    → Office
    → Office × SupportResponse
unfolding add_message can_access_ticket
message_found ctx actor id b none s = (s, refused 404 "Support ticket not found")
message_found ctx actor id b (some t) s =
    if can_access_ticket actor t
    then add_message ctx actor id t b s
    else (s, refused 404 "Support ticket not found")

unfoldable pub post_message :
    Context → User → String → Option MessageInput → Office → Office × SupportResponse
unfolding message_found
post_message ctx actor id none s = (s, refused 400 "Validation failed")
post_message ctx actor id (some b) s =
    message_found ctx actor id b (find (is_ticket id actor.organization_id) s.support_tickets) s

abbrev patched_status : Option SupportTicketStatus → SupportTicketStatus → SupportTicketStatus
patched_status none status = status
patched_status (some status) _ = status

abbrev patched_assignee : Option (Option String) → Option String → Option String
patched_assignee none assignee = assignee
patched_assignee (some none) assignee = none
patched_assignee (some (some x)) assignee = text? x

unfoldable pub patched : Context → TicketPatch → SupportTicket → SupportTicket
patched ctx b t = record t {
  status = patched_status b.status t.status;
  assigned_to = patched_assignee b.assigned_to t.assigned_to;
  updated_at = ctx.now;
}

unfoldable pub patch_found :
    Context → User → String → TicketPatch → Option SupportTicket → Office → Office × SupportResponse
unfolding patched set_ticket audited
patch_found ctx actor id b none s = (s, refused 404 "Support ticket not found")
patch_found ctx actor id b (some t) s =
    let tenant = actor.organization_id in
    let t' = patched ctx b t in
    let s' = set_ticket id tenant t' s in
    if ctx.persisted
    then audited ctx actor "support.ticket_updated" t' (with_ticket 200 t') s'
    else (set_ticket id tenant t s', internal_error)

unfoldable pub patch_parsed :
    Context → User → String → Option TicketPatch → Office → Office × SupportResponse
unfolding patch_found
patch_parsed ctx actor id none s = (s, refused 400 "Validation failed")
patch_parsed ctx actor id (some b) s =
    patch_found ctx actor id b (find (is_ticket id actor.organization_id) s.support_tickets) s

unfoldable pub patch_ticket :
    Context → User → String → Option TicketPatch → Office → Office × SupportResponse
unfolding patch_parsed
patch_ticket ctx actor id body s =
    if is_operator actor.role
    then patch_parsed ctx actor id body s
    else (s, refused 403 "Insufficient permissions")

-- A request to one of the handlers.
pub data SupportCall : Type 0 where
  opens : User → Option TicketInput → SupportCall
  writes : User → String → Option MessageInput → SupportCall
  patches : User → String → Option TicketPatch → SupportCall

unfoldable pub handle_support : SupportCall → Context → Office → Office × SupportResponse
unfolding post_ticket post_message patch_ticket
handle_support (opens actor body) ctx s = post_ticket ctx actor body s
handle_support (writes actor id body) ctx s = post_message ctx actor id body s
handle_support (patches actor id body) ctx s = patch_ticket ctx actor id body s
