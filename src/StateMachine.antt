-- ===== src/StateMachine.antt =====
-- The order state machine, apps/api/src/domain/stateMachine.ts.
pub mod Paths
use real_time_logistics_plat.Common.{ℕ, String, Bool, List, [], ◌∷◌, if◌then◌else◌}
use real_time_logistics_plat.Model.{
  OrderStatus, pending, assigned, picked_up, in_transit, delivered, failed, cancelled, same_status,
}

-- What a function of the API returns or throws: an error carries its HTTP status and message.
pub data Outcome {ℓ} (A : Type ℓ) : Type ℓ where
  returned : A → Outcome A
  thrown : ℕ → String → Outcome A

abbrev pub transitions : OrderStatus → List OrderStatus
transitions pending = assigned ∷ cancelled ∷ []
transitions assigned = picked_up ∷ cancelled ∷ OrderStatus.failed ∷ []
transitions picked_up = in_transit ∷ OrderStatus.failed ∷ []
transitions in_transit = delivered ∷ OrderStatus.failed ∷ []
transitions delivered = []
transitions OrderStatus.failed = []
transitions cancelled = []

-- `list.includes(status)`.
abbrev pub includes_status : List OrderStatus → OrderStatus → Bool
includes_status [] to = Bool.false
includes_status (x ∷ xs) to = if same_status x to then Bool.true else includes_status xs to

unfoldable pub can_transition : OrderStatus → OrderStatus → Bool
unfolding same_status
can_transition from to = includes_status (transitions from) to

unfoldable pub assert_transition : OrderStatus → OrderStatus → Outcome (Unit {0})
unfolding can_transition
assert_transition from to =
    if can_transition from to then returned tt else thrown 409 "Cannot move order"
