-- ===== src/Tests/Orders.antt =====
-- The theorems on orders, at the small store.
use real_time_logistics_plat.Common.{
  ◌+◌, ◌≤◌, String, true, false, none, some, List, [], ◌∷◌, ◌≡◌, ◌≢◌, refl, ◌==◌, eq_iff, All,
  length, ◌⊎◌,
}
use real_time_logistics_plat.Model.{
  User, OrderStatus, pending, assigned, picked_up, in_transit, delivered, is_terminal,
}
use real_time_logistics_plat.StateMachine.{can_transition}
use real_time_logistics_plat.StateMachine.Paths.{
  follow, moves_left, follow_bounded, delivered_path, terminal_iff,
}
use real_time_logistics_plat.Store.{Context, list_orders}
use real_time_logistics_plat.Orders.Calls.{Call, handle, run, assigns, proves}
use real_time_logistics_plat.Orders.Delivery.{ProofInput}
use real_time_logistics_plat.Orders.Lifecycle.{Change}
use real_time_logistics_plat.Orders.Refinement.{handle-Change}
use real_time_logistics_plat.Orders.History.{
  Proven, Extends, run-Proven, run-Extends, list_orders-run_other,
}
use real_time_logistics_plat.Orders.Atomicity.{DistinctDrivers, handle_atomic}
use real_time_logistics_plat.Tests.Data.{
  whole, provider, world, request, clerk, courier, stranger, receipt,
}

abbrev parcel_proof : ProofInput
parcel_proof = record {
  recipient_name = "Asha";
  recipient_pin = some "1234";
  parcel_code = none;
  signature_data = some "signed";
  photo_data = none;
  verification_method = none;
  location = none;
}

-- The courier delivers the first order, and the clerk assigns the second.
abbrev day : List (Context × User × Call)
day =
    (request true, courier, proves "o1" (some parcel_proof))
    ∷ (request true, clerk, assigns "o2" none)
    ∷ []

abbrev foreign_day : List (Context × User × Call)
foreign_day = (request true, stranger, assigns "o3" none) ∷ []

distinct : (a b : String) → (a == b) ≡ false → a ≢ b
distinct a b h e = cc (h, (eq_iff a b).1 e)

handle-Change_example :
    Change "t1" world.orders
      (handle whole provider
        (request true)
        courier
        (proves "o1" (some parcel_proof))
        world).0.orders
handle-Change_example =
    handle-Change whole provider (request true) courier (proves "o1" (some parcel_proof)) world

world-Proven : All Proven world.orders
world-Proven = (λ e. cc e, (λ e. cc e, (λ e. cc e, (λ _. (receipt, refl, refl, (5, refl)), tt))))

run-Proven_example : All Proven (run whole provider day world).orders
run-Proven_example = run-Proven whole provider day world world-Proven

run-Extends_example : Extends world.orders (run whole provider day world).orders
run-Extends_example = run-Extends whole provider day world

list_orders-run_other_example :
    list_orders "t1" (run whole provider foreign_day world) ≡ list_orders "t1" world
list_orders-run_other_example =
    list_orders-run_other whole provider foreign_day "t1" world (distinct "t1" "t2" refl, tt)

world-DistinctDrivers : DistinctDrivers world.drivers
world-DistinctDrivers = (((distinct "d2" "d1" refl, distinct "u4" "u2" refl), tt), (tt, tt))

handle_atomic_example :
    (handle whole provider (request false) courier (proves "o1" (some parcel_proof)) world).0
    ≡ world
handle_atomic_example =
    handle_atomic (request false) courier world refl world-DistinctDrivers whole provider
      (proves "o1" (some parcel_proof)) refl

two_moves : follow pending (assigned ∷ picked_up ∷ []) ≡ some picked_up
unfolding follow can_transition
two_moves = refl

follow_bounded_example :
    length (assigned ∷ picked_up ∷ []) + moves_left picked_up ≤ moves_left pending
follow_bounded_example = follow_bounded pending picked_up (assigned ∷ picked_up ∷ []) two_moves

whole_path : follow pending (assigned ∷ picked_up ∷ in_transit ∷ delivered ∷ []) ≡ some delivered
unfolding follow can_transition
whole_path = refl

delivered_path_example :
    (assigned ∷ picked_up ∷ in_transit ∷ delivered ∷ [])
    ≡ (assigned ∷ picked_up ∷ in_transit ∷ delivered ∷ [])
delivered_path_example =
    delivered_path (assigned ∷ picked_up ∷ in_transit ∷ delivered ∷ []) whole_path

terminal_iff_example :
    ((is_terminal delivered ≡ true) × ((to : OrderStatus) → can_transition delivered to ≡ false))
    ⊎ ((is_terminal delivered ≡ false)
        × ((to : OrderStatus) × (can_transition delivered to ≡ true)))
terminal_iff_example = terminal_iff delivered
