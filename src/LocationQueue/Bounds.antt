-- ===== src/LocationQueue/Bounds.antt =====
-- The size of the queue of positions, apps/web/src/lib/locationQueue.ts.
use real_time_logistics_plat.Common.{
  ℕ, zero, suc, ◌-◌, ◌≤◌, Bool, List, [], ◌∷◌, ◌≡◌, inl, inr, arith, length, Bool-cases,
}
use real_time_logistics_plat.Optimizer.{drop}
use real_time_logistics_plat.LocationQueue.{
  QueuedLocation, write, add_reading, enqueue, enqueue_all, send_from, unsent, flush,
}

pub length-drop : (n : ℕ) (xs : List QueuedLocation) → length (drop n xs) ≡ length xs - n
unfolding drop
length-drop zero xs = ground arith
length-drop (suc n) [] = ground arith
length-drop (suc n) (x ∷ xs) = ground (arith, length-drop n xs)

length-write : (items : List QueuedLocation) → length (write items) ≤ 250
unfolding write
length-write items = omega (arith, length-drop (length items - 250) items)

length-enqueue_all :
    (readings stored : List QueuedLocation)
    → length stored ≤ 250
    → length (enqueue_all readings stored) ≤ 250
unfolding enqueue_all enqueue
length-enqueue_all [] stored h = h
length-enqueue_all (r ∷ readings) stored h =
    length-enqueue_all readings (enqueue r stored) (length-write (add_reading r stored))

length-send_from :
    (succeeds : ℕ → Bool) (during : ℕ → List QueuedLocation) (i : ℕ)
    (pending stored : List QueuedLocation)
    → length stored ≤ 250
    → length (send_from succeeds during i pending stored).1 ≤ 250
unfolding send_from
length-send_from succeeds during i [] stored h = h
length-send_from succeeds during i (r ∷ rest) stored h =
    let more = length-enqueue_all (during i) stored h in
    elim (Bool-cases (succeeds i)) [
      | inl e ↦
          rw (e, send_from)
            (length-send_from succeeds during (suc i) rest (enqueue_all (during i) stored) more)
      | inr e ↦ rw (e, send_from) more
    ]

length-unsent :
    (pending : List QueuedLocation) (n : ℕ) (stored : List QueuedLocation)
    → length stored ≤ 250
    → length (unsent pending n stored) ≤ 250
unfolding unsent
length-unsent pending zero stored h = h
length-unsent pending (suc n) stored h = length-write (drop (suc n) pending)

-- The browser never stores more than 250 positions: a flush of such a queue, whatever is sent and
-- whatever is enqueued meanwhile, leaves such a queue.
pub length-flush :
    (succeeds : ℕ → Bool) (during : ℕ → List QueuedLocation) (pending : List QueuedLocation)
    → length pending ≤ 250
    → length (flush succeeds during pending).1 ≤ 250
unfolding flush
length-flush succeeds during pending h =
    length-unsent pending (send_from succeeds during 0 pending pending).0
      (send_from succeeds during 0 pending pending).1
      (length-send_from succeeds during 0 pending pending h)
