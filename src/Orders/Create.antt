-- ===== src/Orders/Create.antt =====
-- POST /api/orders of apps/api/src/app.ts.
use real_time_logistics_plat.Common.{
  String, Bool, not, ◌&&◌, Option, none, some, List, [], ◌∷◌, if◌then◌else◌,
}
use real_time_logistics_plat.Model.{User, Order}
use real_time_logistics_plat.Store.{
  World, Context, OrderInput, new_order, create_order, set_delivery_pin,
}
use real_time_logistics_plat.Api.{
  Response, accepted, refused, internal_error, invalid_body, is_operator, permit, finish,
}

-- What `validateServiceArea` answers for the drop-off.
pub record ServiceArea : Type 0 where
  pub enforced : Bool
  pub in_service_area : Bool

abbrev pub tail : List Order → List Order
tail [] = []
tail (_ ∷ rest) = rest

-- `orders.splice(orders.indexOf(order), 1)`, where the order is the one just put in front.
unfoldable pub withdraw : World → World
withdraw w = record w { orders = tail w.orders }

-- The catch block: any failure after the order was created takes it out again.
unfoldable pub or_withdraw : World × Response → World × Response
unfolding withdraw
or_withdraw (w, accepted code o) = (w, accepted code o)
or_withdraw (w, refused code message) = (withdraw w, refused code message)

unfoldable pub post_order :
    Context → User → Option (OrderInput × String) → ServiceArea → World → World × Response
unfolding permit create_order set_delivery_pin or_withdraw
post_order ctx actor body area w = permit (is_operator actor.role) w (elim body [
  | none ↦ (w, invalid_body)
  | some (input, value) ↦
      if area.enforced && not area.in_service_area
      then (w, refused 422 "Drop-off address is outside every active service territory")
      else (let o = new_order ctx input actor in
          let w1 = set_delivery_pin ctx o.id value (create_order ctx input actor w) in
          let done = finish ctx actor "order.created" 201 o "order_created" w1 in
          or_withdraw (if ctx.persisted then done else (w1, internal_error)))
])
