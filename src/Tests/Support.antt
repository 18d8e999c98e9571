-- ===== src/Tests/Support.antt =====
-- The theorem on support requests, at a message to a resolved ticket.
use real_time_logistics_plat.Common.{
  true, false, none, some, [], ◌∷◌, ◌≡◌, refl, find, modify_first,
}
use real_time_logistics_plat.Support.{Office, SupportTicket, opened, resolved, normal, delivery}
use real_time_logistics_plat.Support.Messages.{SupportCall, writes, handle_support}
use real_time_logistics_plat.Support.Restored.{handle_support_restored}
use real_time_logistics_plat.Tests.Data.{clerk, request, world}

abbrev ticket : SupportTicket
ticket = record {
  id = "k1";
  organization_id = "t1";
  order_id = none;
  customer_id = some "u7";
  subject = "Where is it?";
  category = delivery;
  priority = normal;
  status = resolved;
  created_by = "u7";
  assigned_to = none;
  created_at = 2;
  updated_at = 3;
  last_message = some "Delivered";
}

abbrev office : Office
office = record { world = world; support_tickets = ticket ∷ []; support_messages = [] }

abbrev note : SupportCall
note = writes clerk "k1" (some (record { message = "A difficult customer"; internal = true }))

handle_support_restored_example : (handle_support note (request false) office).0 ≡ office
handle_support_restored_example = handle_support_restored note (request false) office refl

-- Where it is stored, the ticket is open again and shows the text, though it is an internal one.
shows_note :
    (handle_support note (request true) office).0.support_tickets
    ≡ record ticket { status = opened; last_message = some "A difficult customer"; updated_at = 7 }
      ∷ []
unfolding handle_support find modify_first
shows_note = refl
