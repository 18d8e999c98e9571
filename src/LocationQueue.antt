-- ===== src/LocationQueue.antt =====
-- The queue of a driver's positions in the browser, apps/web/src/lib/locationQueue.ts, as a function
-- of what the browser's storage holds. The storage is available and holds what `write` put there.
pub mod Bounds
pub mod Flush
use real_time_logistics_plat.Common.{
  ℕ, zero, suc, ◌+◌, ◌-◌, String, Bool, true, false, not, ◌&&◌, Option, none, some, List, [], ◌∷◌,
  ◌++◌, length, ltb, if◌then◌else◌,
}
use real_time_logistics_plat.Model.{Coordinate}
use real_time_logistics_plat.Optimizer.{drop}

pub record QueuedLocation : Type 0 where
  pub location : Coordinate
  pub accuracy : Option ℕ
  pub source : String
  pub recorded_at : ℕ

abbrev pub max_queue : ℕ
max_queue = 250

-- `items.slice(-MAX_QUEUE)`: the last of them.
unfoldable pub write : List QueuedLocation → List QueuedLocation
unfolding drop
write items = drop (length items - max_queue) items

-- The two times are less than five seconds apart.
abbrev pub is_repeated : QueuedLocation → QueuedLocation → Bool
is_repeated last reading =
    ltb ((last.recorded_at - reading.recorded_at) + (reading.recorded_at - last.recorded_at)) 5000

-- The reading at the end, in place of a repeated one.
unfoldable pub add_reading : QueuedLocation → List QueuedLocation → List QueuedLocation
add_reading reading [] = reading ∷ []
add_reading reading (last ∷ []) =
    if is_repeated last reading then reading ∷ [] else last ∷ reading ∷ []
add_reading reading (first ∷ second ∷ rest) = first ∷ add_reading reading (second ∷ rest)

unfoldable pub enqueue : QueuedLocation → List QueuedLocation → List QueuedLocation
unfolding add_reading write
enqueue reading stored = write (add_reading reading stored)

unfoldable pub enqueue_all : List QueuedLocation → List QueuedLocation → List QueuedLocation
unfolding enqueue
enqueue_all [] stored = stored
enqueue_all (reading ∷ readings) stored = enqueue_all readings (enqueue reading stored)

-- The loop over the readings that were pending: whether the i-th send succeeds, and what other code
-- enqueues while it runs, are the answers of the world outside. The result is the number sent and
-- what is stored.
unfoldable pub send_from :
    (ℕ → Bool)
    → (ℕ → List QueuedLocation)
    → ℕ
    → List QueuedLocation
    → List QueuedLocation
    → ℕ × List QueuedLocation
unfolding enqueue_all
send_from succeeds during i [] stored = (i, stored)
send_from succeeds during i (reading ∷ rest) stored =
    let stored' = enqueue_all (during i) stored in
    elim (succeeds i) [
      | true ↦ send_from succeeds during (suc i) rest stored'
      | false ↦ (i, stored')
    ]

-- `if (sent) write(key, pending.slice(sent))`, over what is stored.
unfoldable pub unsent : List QueuedLocation → ℕ → List QueuedLocation → List QueuedLocation
unfolding write drop
unsent pending zero stored = stored
unsent pending (suc n) stored = write (drop (suc n) pending)

unfoldable pub flush :
    (ℕ → Bool) → (ℕ → List QueuedLocation) → List QueuedLocation → ℕ × List QueuedLocation
unfolding send_from unsent
flush succeeds during pending =
    let (sent, stored) = send_from succeeds during 0 pending pending in
    (sent, unsent pending sent stored)
