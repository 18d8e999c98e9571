-- ===== src/Tests/Queues.antt =====
-- The theorems on the two queues of the browser, at two pending entries.
use real_time_logistics_plat.Common.{
  ℕ, zero, suc, ◌≤◌, Bool, true, false, none, List, [], ◌∷◌, ◌≡◌, ◌≢◌, refl, arith, length, String,
  Option, some, ◌↔◌,
}
use real_time_logistics_plat.ActionQueue
use real_time_logistics_plat.ActionQueue.{QueuedAction, accept_action, is_sent}
use real_time_logistics_plat.ActionQueue.Flush.{flush-Has}
use real_time_logistics_plat.Orders.Choice.{Has}
use real_time_logistics_plat.Optimizer.{take}
use real_time_logistics_plat.LocationQueue.{QueuedLocation, flush}
use real_time_logistics_plat.LocationQueue.Bounds.{length-flush}
use real_time_logistics_plat.LocationQueue.Flush.{IsSent, flush-IsSent, flush-during}
use real_time_logistics_plat.Tests.Data.{place}

abbrev reading : ℕ → QueuedLocation
reading at = record {
  location = place at 0;
  accuracy = none;
  source = "browser-gps";
  recorded_at = at;
}

abbrev pending : List QueuedLocation
pending = reading 1000 ∷ reading 9000 ∷ []

-- The first send succeeds and the second fails; a reading comes in during the first.
abbrev succeeds : ℕ → Bool
succeeds zero = true
succeeds (suc n) = false

abbrev during : ℕ → List QueuedLocation
during zero = reading 20000 ∷ []
during (suc n) = []

length-flush_example : length (flush succeeds during pending).1 ≤ 250
length-flush_example = length-flush succeeds during pending (omega arith)

flush-IsSent_example : IsSent succeeds 0 (length pending) (flush succeeds during pending).0
flush-IsSent_example = flush-IsSent succeeds during pending

one_sent : (flush succeeds during pending).0 ≡ 1
unfolding flush
one_sent = refl

some_sent : (flush succeeds during pending).0 ≢ 0
some_sent e = absurd (omega (arith, one_sent))

flush-during_example : flush succeeds during pending ≡ flush succeeds (λ i. []) pending
flush-during_example = flush-during succeeds during (λ i. []) pending some_sent

abbrev action : String → QueuedAction
action id = record {
  id = id;
  type = accept_action;
  order_id = "o1";
  body = "{}";
  created_at = 1;
  attempts = 0;
  last_error = none;
}

-- The first send succeeds while a third action comes in, and the second fails.
abbrev fails : ℕ → Option String
fails zero = none
fails (suc n) = some "Sync failed"

abbrev arrivals : ℕ → List QueuedAction
arrivals zero = action "a3" ∷ []
arrivals (suc n) = []

abbrev actions : List QueuedAction
actions = action "a1" ∷ action "a2" ∷ []

flush-Has_example : Has (action "a3") (ActionQueue.flush fails arrivals actions).1 ↔ (
    Has (action "a3") (ActionQueue.send_from fails arrivals 0 actions actions).1
    × (is_sent
          (take (ActionQueue.send_from fails arrivals 0 actions actions).0 actions)
          (action "a3")
        ≡ false))
flush-Has_example = flush-Has fails arrivals actions (action "a3") (omega arith)
