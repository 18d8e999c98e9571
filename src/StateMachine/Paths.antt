-- ===== src/StateMachine/Paths.antt =====
-- Which histories of statuses the table of apps/api/src/domain/stateMachine.ts allows.
use real_time_logistics_plat.Common.{
  ℕ, ◌+◌, ◌≤◌, ◌<◌, true, false, List, [], ◌∷◌, ◌≡◌, refl, ◌⊎◌, inl, inr, ◌≢◌, arith, length,
  if◌then◌else◌, Option, none, some,
}
use real_time_logistics_plat.Model.{
  OrderStatus, pending, assigned, picked_up, in_transit, delivered, cancelled, is_terminal,
}
use real_time_logistics_plat.StateMachine.{can_transition}

-- Follow a list of requested statuses; `none` if one of the moves is refused.
unfoldable pub follow : OrderStatus → List OrderStatus → Option OrderStatus
unfolding can_transition
follow from [] = some from
follow from (to ∷ rest) =
    let later = follow to rest in if can_transition from to then later else none

-- The number of moves that an order in this status can still make.
abbrev pub moves_left : OrderStatus → ℕ
moves_left pending = 4
moves_left assigned = 3
moves_left picked_up = 2
moves_left in_transit = 1
moves_left _ = 0

moves_left-step :
    (from to : OrderStatus) → can_transition from to ≡ true → moves_left to < moves_left from
unfolding can_transition
moves_left-step from to h = ground arith

-- Every accepted history is short: no order moves more often than its status has moves left.
pub follow_bounded :
    (from to : OrderStatus) (path : List OrderStatus)
    → follow from path ≡ some to
    → length path + moves_left to ≤ moves_left from
unfolding follow
follow_bounded from to [] h = ground arith
follow_bounded from to (next ∷ rest) h =
    ground (arith, moves_left-step from next, follow_bounded next to rest)

follow-cons :
    (from to : OrderStatus) (rest : List OrderStatus) {end : OrderStatus}
    → follow from (to ∷ rest) ≡ some end
    → (can_transition from to ≡ true) × (follow to rest ≡ some end)
unfolding follow
follow-cons from to rest h = ground arith

from_delivered : (path : List OrderStatus) → follow delivered path ≡ some delivered → path ≡ []
unfolding can_transition
from_delivered [] h = refl
from_delivered (to ∷ rest) h = cc (follow-cons delivered to rest h).0

-- A failed or cancelled order never becomes delivered.
from_lost :
    (from : OrderStatus) (path : List OrderStatus)
    → (from ≡ OrderStatus.failed) ⊎ (from ≡ cancelled)
    → follow from path ≢ some delivered
unfolding follow can_transition
from_lost from [] l h = ground arith
from_lost from (to ∷ rest) l h = ground arith

from_in_transit :
    (path : List OrderStatus) → follow in_transit path ≡ some delivered → path ≡ delivered ∷ []
unfolding follow can_transition
from_in_transit [] h = cc
from_in_transit (to ∷ rest) h =
    ground (arith, follow-cons in_transit to rest h, from_delivered rest, from_lost to rest)

from_picked_up :
    (path : List OrderStatus)
    → follow picked_up path ≡ some delivered
    → path ≡ in_transit ∷ delivered ∷ []
unfolding follow can_transition
from_picked_up [] h = cc
from_picked_up (to ∷ rest) h =
    ground (arith, follow-cons picked_up to rest h, from_in_transit rest, from_lost to rest)

from_assigned :
    (path : List OrderStatus)
    → follow assigned path ≡ some delivered
    → path ≡ picked_up ∷ in_transit ∷ delivered ∷ []
unfolding follow can_transition
from_assigned [] h = cc
from_assigned (to ∷ rest) h =
    ground (arith, follow-cons assigned to rest h, from_picked_up rest, from_lost to rest)

-- An order that goes from pending to delivered was assigned, picked up and in transit, in this
-- order, and had no other status on the way.
pub delivered_path :
    (path : List OrderStatus)
    → follow pending path ≡ some delivered
    → path ≡ assigned ∷ picked_up ∷ in_transit ∷ delivered ∷ []
unfolding follow can_transition
delivered_path [] h = cc
delivered_path (to ∷ rest) h =
    ground (arith, follow-cons pending to rest h, from_assigned rest, from_lost to rest)

-- A delivered, failed or cancelled order accepts no move, and every other status accepts one.
pub terminal_iff :
    (from : OrderStatus)
    → ((is_terminal from ≡ true) × ((to : OrderStatus) → can_transition from to ≡ false))
      ⊎ ((is_terminal from ≡ false) × ((to : OrderStatus) × (can_transition from to ≡ true)))
unfolding can_transition
terminal_iff pending = inr (refl, (assigned, refl))
terminal_iff assigned = inr (refl, (picked_up, refl))
terminal_iff picked_up = inr (refl, (in_transit, refl))
terminal_iff in_transit = inr (refl, (delivered, refl))
terminal_iff _ = inl (refl, λ to. refl)
