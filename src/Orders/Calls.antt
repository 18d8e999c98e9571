-- ===== src/Orders/Calls.antt =====
-- The requests of apps/api/src/app.ts that change an order, as data, and a history of them.
use real_time_logistics_plat.Common.{String, Option, List, [], ◌∷◌}
use real_time_logistics_plat.Model.{User, OrderStatus}
use real_time_logistics_plat.Geo.{JsNumber}
use real_time_logistics_plat.Store.{World, Context, OrderInput}
use real_time_logistics_plat.Api.{Response}
use real_time_logistics_plat.Orders.Create.{ServiceArea, post_order}
use real_time_logistics_plat.Orders.Dispatch.{patch_status, post_assign}
use real_time_logistics_plat.Orders.Delivery.{ProofInput, post_accept, post_reject, post_proof}
use real_time_logistics_plat.Orders.Customer.{
  RescheduleInput, Verdict, patch_reschedule, post_cancel, post_return, patch_return,
}
use real_time_logistics_plat.Orders.Payment.{Provider, VerifyInput, post_verify, post_demo_confirm}

pub data Call : Type 0 where
  creates : Option (OrderInput × String) → ServiceArea → Call
  sets_status : String → Option OrderStatus → Call
  assigns : String → Option String → Call
  accepts : String → Call
  rejects : String → Option String → Call
  proves : String → Option ProofInput → Call
  reschedules : String → Option RescheduleInput → Call
  cancels : String → Call
  asks_return : String → Option String → Call
  reviews_return : String → Option (Verdict × Option String) → Call
  verifies_payment : String → Option VerifyInput → Call
  confirms_demo : String → Call

module _ (num : JsNumber) (env : Provider) where
  unfoldable pub handle : Context → User → Call → World → World × Response
  handle ctx actor (creates body area) w = post_order ctx actor body area w
  handle ctx actor (sets_status id body) w = patch_status ctx actor id body w
  handle ctx actor (assigns id driver_id) w = post_assign num ctx actor id driver_id w
  handle ctx actor (accepts id) w = post_accept ctx actor id w
  handle ctx actor (rejects id body) w = post_reject ctx actor id body w
  handle ctx actor (proves id body) w = post_proof ctx actor id body w
  handle ctx actor (reschedules id body) w = patch_reschedule ctx actor id body w
  handle ctx actor (cancels id) w = post_cancel ctx actor id w
  handle ctx actor (asks_return id body) w = post_return ctx actor id body w
  handle ctx actor (reviews_return id body) w = patch_return ctx actor id body w
  handle ctx actor (verifies_payment id body) w = post_verify ctx env actor id body w
  handle ctx actor (confirms_demo id) w = post_demo_confirm ctx env actor id w

  -- Requests are handled one after the other.
  unfoldable pub run : List (Context × User × Call) → World → World
  unfolding handle
  run [] w = w
  run ((ctx, actor, c) ∷ rest) w = run rest (handle ctx actor c w).0
