-- ===== src/ActionQueue/Flush.antt =====
-- A flush of the queue of actions loses none: apps/web/src/lib/driverActionQueue.ts.
use real_time_logistics_plat.Common.{
  ℕ, zero, suc, ◌-◌, ◌≤◌, String, Bool, true, false, not, Option, List, [], ◌∷◌, ◌++◌, ◌≡◌, ◌↔◌,
  refl, sym, ap, ◌∙◌, inl, inr, arith, length, any, filter, modify_first, Bool-cases, Option-cases,
  subst,
}
use real_time_logistics_plat.Optimizer.{take, drop}
use real_time_logistics_plat.Orders.Choice.{Has, filter-Has}
use real_time_logistics_plat.ActionQueue.{
  QueuedAction, write, enqueue, enqueue_all, same_action, retried, note_failure, send_from, is_sent,
  flush,
}

length-drop : (n : ℕ) (xs : List QueuedAction) → length (drop n xs) ≡ length xs - n
unfolding drop
length-drop zero xs = ground arith
length-drop (suc n) [] = ground arith
length-drop (suc n) (x ∷ xs) = ground (arith, length-drop n xs)

length-write : (actions : List QueuedAction) → length (write actions) ≤ 50
unfolding write
length-write actions = omega (arith, length-drop (length actions - 50) actions)

write_short : (actions : List QueuedAction) → length actions ≤ 50 → write actions ≡ actions
unfolding write drop
write_short actions h =
    let none_over : length actions - 50 ≡ 0 = omega arith in ap (λ n. drop n actions) none_over

length-filter :
    (p : QueuedAction → Bool) (xs : List QueuedAction) → length (filter p xs) ≤ length xs
unfolding filter
length-filter p [] = omega arith
length-filter p (x ∷ xs) = ground (arith, length-filter p xs)

Has-filter :
    (p : QueuedAction → Bool) (xs : List QueuedAction) (a : QueuedAction)
    → Has a xs
    → p a ≡ true
    → Has a (filter p xs)
unfolding filter
Has-filter p [] a m h = m
Has-filter p (x ∷ xs) a (inl same) h = rw (ap p (sym same) ∙ h, filter) (inl same)
Has-filter p (x ∷ xs) a (inr m) h = elim (Bool-cases (p x)) [
  | inl e ↦ rw (e, filter) (inr (Has-filter p xs a m h))
  | inr e ↦ rw (e, filter) (Has-filter p xs a m h)
]

filter-holds :
    (p : QueuedAction → Bool) (xs : List QueuedAction) (a : QueuedAction)
    → Has a (filter p xs)
    → p a ≡ true
unfolding filter
filter-holds p [] a m = absurd m
filter-holds p (x ∷ xs) a m = elim (Bool-cases (p x)) [
  | inl e ↦ elim (rw (e, filter) at m) [ inl same ↦ ap p same ∙ e | inr n ↦ filter-holds p xs a n ]
  | inr e ↦ filter-holds p xs a (rw (e, filter) at m)
]

length-enqueue_all :
    (actions stored : List QueuedAction)
    → length stored ≤ 50
    → length (enqueue_all actions stored) ≤ 50
unfolding enqueue_all enqueue
length-enqueue_all [] stored h = h
length-enqueue_all (a ∷ actions) stored h =
    length-enqueue_all actions (enqueue a stored) (length-write (stored ++ a ∷ []))

length-send_from :
    (fails : ℕ → Option String) (during : ℕ → List QueuedAction) (i : ℕ)
    (pending stored : List QueuedAction)
    → length stored ≤ 50
    → length (send_from fails during i pending stored).1 ≤ 50
unfolding send_from note_failure
length-send_from fails during i [] stored h = h
length-send_from fails during i (a ∷ rest) stored h =
    let more = length-enqueue_all (during i) stored h in
    elim (Option-cases (fails i)) [
      | inl e ↦
          rw (e, send_from)
            (length-send_from fails during (suc i) rest (enqueue_all (during i) stored) more)
      | inr (message, e) ↦ elim (Bool-cases (any (same_action a) (enqueue_all (during i) stored))) [
        | inl b ↦
            rw (e, b, note_failure, send_from)
              (length-write
                (modify_first (same_action a) (retried message) (enqueue_all (during i) stored)))
        | inr b ↦ rw (e, b, note_failure, send_from) more
      ]
    ]

is_false : (b : Bool) → not b ≡ true → b ≡ false
is_false b h = ground arith

-- What a flush keeps is exactly what the storage holds after the sends, which counts what was
-- enqueued meanwhile, less the actions whose identifiers were sent, for a queue within its bound.
pub flush-Has :
    (fails : ℕ → Option String) (during : ℕ → List QueuedAction) (pending : List QueuedAction)
    (a : QueuedAction)
    → length pending ≤ 50
    → let out = send_from fails during 0 pending pending in
      Has a (flush fails during pending).1
      ↔ (Has a out.1 × (is_sent (take out.0 pending) a ≡ false))
unfolding flush take any
flush-Has fails during pending a h = at_count (send_from fails during 0 pending pending).0
  where
    stored : List QueuedAction
    stored = (send_from fails during 0 pending pending).1

    unsent : ℕ → List QueuedAction → List QueuedAction
    unsent n xs = filter (λ b. not (is_sent (take (suc n) pending) b)) xs

    kept_or_sent :
        (n : ℕ)
        → Has a (unsent n stored)
        → Has a stored × (is_sent (take (suc n) pending) a ≡ false)
    kept_or_sent n m = (
      filter-Has (λ b. not (is_sent (take (suc n) pending) b)) stored a m,
      is_false (is_sent (take (suc n) pending) a)
          (filter-holds (λ b. not (is_sent (take (suc n) pending) b)) stored a m),
    )

    at_count :
        (n : ℕ)
        → Has a (elim n [
          | zero ↦ stored
          | suc m ↦ write (filter (λ b. not (is_sent (take (suc m) pending) b)) stored)
        ])
          ↔ (Has a stored × (is_sent (take n pending) a ≡ false))
    at_count zero = (λ m. (m, refl), λ p. p.0)
    at_count (suc n) =
        let bounded = length-send_from fails during 0 pending pending h in
        let short : write (unsent n stored) ≡ unsent n stored =
          write_short (unsent n stored)
            (omega (arith, length-filter (λ b. not (is_sent (take (suc n) pending) b)) stored)) in
        (
          λ m. kept_or_sent n (subst (Has a) short m),
          λ (m, e).
              subst (Has a) (sym short)
                (Has-filter (λ b. not (is_sent (take (suc n) pending) b)) stored a m (ap not e)),
        )
