-- ===== src/Support/Restored.antt =====
-- A support request that the database refuses.
use real_time_logistics_plat.Common.{
  String, true, false, not, ◌&&◌, Option, none, some, List, [], ◌∷◌, ◌++◌, ◌≡◌, refl, ap, ◌∙◌, find,
  modify_first_undo, if-elim, find_holds,
}
use real_time_logistics_plat.Model.{User, is_customer}
use real_time_logistics_plat.Store.{Context, get_order}
use real_time_logistics_plat.Api.{is_operator, can_access_order}
use real_time_logistics_plat.Support.{
  SupportTicket, SupportMessage, Office, SupportResponse, refused, TicketInput, MessageInput,
  TicketPatch, new_ticket, new_message, init, open_ticket, open_for, open_about, post_ticket,
}
use real_time_logistics_plat.Support.Messages.{
  is_ticket, can_access_ticket, noted, set_ticket, add_message, message_found, post_message,
  patched, patch_found, patch_parsed, patch_ticket, SupportCall, opens, writes, patches,
  handle_support,
}

abbrev IsAsBefore : Office → Office × SupportResponse → Type 0
IsAsBefore s p = p.0 ≡ s

init-snoc : (ms : List SupportMessage) (m : SupportMessage) → init (ms ++ m ∷ []) ≡ ms
unfolding init
init-snoc [] m = refl
init-snoc (x ∷ []) m = refl
init-snoc (x ∷ y ∷ ms) m = ap (◌∷◌ x) (init-snoc (y ∷ ms) m)

open_ticket_restored :
    (ctx : Context) (actor : User) (order_id : Option String) (b : TicketInput) (s : Office)
    → ctx.persisted ≡ false
    → IsAsBefore s (open_ticket ctx actor order_id b s)
unfolding open_ticket
open_ticket_restored ctx actor order_id b s e =
    let t = new_ticket ctx actor order_id b in
    if-elim (IsAsBefore s) ctx.persisted _ _ (λ h. absurd (cc (e, h)))
      (λ _.
        ap (λ ms. record s { support_messages = ms })
          (init-snoc s.support_messages (new_message ctx actor t b.message false)))

open_about_restored :
    (ctx : Context) (actor : User) (b : TicketInput) (order_id : Option String) (s : Office)
    → ctx.persisted ≡ false
    → IsAsBefore s (open_about ctx actor b order_id s)
unfolding open_about open_for
open_about_restored ctx actor b none s e = open_ticket_restored ctx actor none b s e
open_about_restored ctx actor b (some id) s e =
    elim (get_order id actor.organization_id s.world)
      as (λ found. IsAsBefore s (open_for ctx actor b found s)) [
        | none ↦ refl
        | some o ↦
            if-elim (IsAsBefore s) (is_customer actor.role && not (can_access_order ctx actor o))
              (s, refused 404 "Order not found") (open_ticket ctx actor (some o.id) b s) (λ _. refl)
              (λ _. open_ticket_restored ctx actor (some o.id) b s e)
      ]

noted-is_ticket :
    (ctx : Context) (message : String) (id tenant : String) (t : SupportTicket)
    → is_ticket id tenant t ≡ true
    → is_ticket id tenant (noted ctx message t) ≡ true
unfolding noted
noted-is_ticket ctx message id tenant t h = h

patched-is_ticket :
    (ctx : Context) (b : TicketPatch) (id tenant : String) (t : SupportTicket)
    → is_ticket id tenant t ≡ true
    → is_ticket id tenant (patched ctx b t) ≡ true
unfolding patched
patched-is_ticket ctx b id tenant t h = h

add_message_restored :
    (ctx : Context) (actor : User) (id : String) (t : SupportTicket) (b : MessageInput) (s : Office)
    → ctx.persisted ≡ false
    → find (is_ticket id actor.organization_id) s.support_tickets ≡ some t
    → IsAsBefore s (add_message ctx actor id t b s)
unfolding add_message set_ticket
add_message_restored ctx actor id t b s e f =
    let p = is_ticket id actor.organization_id in
    let m = new_message ctx actor t b.message (not (is_customer actor.role) && b.internal) in
    let hit =
      noted-is_ticket ctx b.message id actor.organization_id t
        (find_holds p s.support_tickets t f) in
    if-elim (IsAsBefore s) ctx.persisted _ _ (λ h. absurd (cc (e, h)))
      (λ _.
        ap
          (λ ts. record s {
            support_tickets = ts;
            support_messages = init (s.support_messages ++ m ∷ []);
          })
          (modify_first_undo p (λ _. noted ctx b.message t) s.support_tickets t f hit)
        ∙ ap (λ ms. record s { support_messages = ms }) (init-snoc s.support_messages m))

message_found_restored :
    (ctx : Context) (actor : User) (id : String) (b : MessageInput) (s : Office)
    (found : Option SupportTicket)
    → ctx.persisted ≡ false
    → find (is_ticket id actor.organization_id) s.support_tickets ≡ found
    → IsAsBefore s (message_found ctx actor id b found s)
unfolding message_found
message_found_restored ctx actor id b s none e f = refl
message_found_restored ctx actor id b s (some t) e f =
    if-elim (IsAsBefore s) (can_access_ticket actor t) (add_message ctx actor id t b s)
      (s, refused 404 "Support ticket not found") (λ _. add_message_restored ctx actor id t b s e f)
      (λ _. refl)

patch_found_restored :
    (ctx : Context) (actor : User) (id : String) (b : TicketPatch) (s : Office)
    (found : Option SupportTicket)
    → ctx.persisted ≡ false
    → find (is_ticket id actor.organization_id) s.support_tickets ≡ found
    → IsAsBefore s (patch_found ctx actor id b found s)
unfolding patch_found set_ticket
patch_found_restored ctx actor id b s none e f = refl
patch_found_restored ctx actor id b s (some t) e f =
    let p = is_ticket id actor.organization_id in
    let hit =
      patched-is_ticket ctx b id actor.organization_id t (find_holds p s.support_tickets t f) in
    if-elim (IsAsBefore s) ctx.persisted _ _ (λ h. absurd (cc (e, h)))
      (λ _.
        ap (λ ts. record s { support_tickets = ts })
          (modify_first_undo p (λ _. patched ctx b t) s.support_tickets t f hit))

-- A support request whose write the database refuses leaves the tickets, the messages and
-- everything else exactly as they were, whatever the request is.
pub handle_support_restored :
    (c : SupportCall) (ctx : Context) (s : Office)
    → ctx.persisted ≡ false
    → (handle_support c ctx s).0 ≡ s
unfolding handle_support post_ticket post_message patch_ticket patch_parsed
handle_support_restored (opens actor none) ctx s e = refl
handle_support_restored (opens actor (some b)) ctx s e = open_about_restored ctx actor b _ s e
handle_support_restored (writes actor id none) ctx s e = refl
handle_support_restored (writes actor id (some b)) ctx s e =
    message_found_restored ctx actor id b s _ e refl
handle_support_restored (patches actor id none) ctx s e =
    if-elim (IsAsBefore s) (is_operator actor.role) (patch_parsed ctx actor id none s)
      (s, refused 403 "Insufficient permissions") (λ _. refl) (λ _. refl)
handle_support_restored (patches actor id (some b)) ctx s e =
    if-elim (IsAsBefore s) (is_operator actor.role) (patch_parsed ctx actor id (some b) s)
      (s, refused 403 "Insufficient permissions")
      (λ _. patch_found_restored ctx actor id b s _ e refl) (λ _. refl)
