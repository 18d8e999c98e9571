-- ===== src/Tests/Idempotency.antt =====
-- The theorems on idempotency keys, at two requests.
use real_time_logistics_plat.Common.{ℕ, suc, ◌≤◌, some, ◌≡◌, inl, refl, arith, All}
use real_time_logistics_plat.Idempotency.{
  Gate, IdempotencyResult, running, left, initial, live, acquire_idempotency_lock, enter, start,
  answer, replay_second, release, remember_idempotency_result, get_idempotency_result,
}
use real_time_logistics_plat.Idempotency.Steps.{
  Step, AnyStep, Reach, begin, later, acquire, proceed, hit, miss, respond, at_once, in_turn,
}
use real_time_logistics_plat.Idempotency.Order.{Before}
use real_time_logistics_plat.Idempotency.Exclusion.{mutual_exclusion}
use real_time_logistics_plat.Idempotency.Progress.{CanMove, no_deadlock}
use real_time_logistics_plat.Idempotency.Once.{handler_once}
use real_time_logistics_plat.Idempotency.Rerun.{close-runs}

abbrev created : IdempotencyResult
created = record { status = 201; body = "order" }

-- Both requests ask for the lock; the first one's handler runs.
abbrev both : Gate
both = acquire_idempotency_lock (acquire_idempotency_lock initial)

abbrev first_runs : Gate
first_runs = start 0 (enter 0 both)

-- It answers, and the second one finds the result.
abbrev replayed : Gate
replayed = replay_second 1 created (enter 1 (answer 0 created first_runs))

run_first : Reach Step first_runs
unfolding acquire_idempotency_lock enter start live
run_first =
    later (later (later (later begin acquire) acquire) (proceed 0 refl at_once)) (miss 0 refl refl)

run_both : Reach Step replayed
unfolding acquire_idempotency_lock enter start live answer release remember_idempotency_result
    replay_second
run_both =
    later
      (later (later run_first (respond 0 created refl)) (proceed 1 refl (in_turn 0 refl at_once)))
      (hit 1 created refl refl)

any_first : Reach AnyStep first_runs
unfolding acquire_idempotency_lock enter start live
any_first =
    later (later (later (later begin (inl acquire)) (inl acquire)) (inl (proceed 0 refl at_once)))
      (inl (miss 0 refl refl))

mutual_exclusion_example : (◌≡◌ {A = ℕ} 0 0) × Before first_runs.phase 0
unfolding acquire_idempotency_lock enter start
mutual_exclusion_example = mutual_exclusion 0 0 any_first refl refl

no_deadlock_example : (i : ℕ) × (i ≤ 1) × CanMove first_runs i
unfolding acquire_idempotency_lock enter start
no_deadlock_example = no_deadlock 1 any_first refl

handler_once_example :
    (replayed.runs ≤ 1) × All (λ r. get_idempotency_result replayed ≡ some r) replayed.answers
unfolding acquire_idempotency_lock enter start answer release remember_idempotency_result
    replay_second
handler_once_example = handler_once run_both (omega arith)

abbrev alone : Gate
alone = start 0 (enter 0 (acquire_idempotency_lock initial))

any_alone : Reach AnyStep alone
unfolding acquire_idempotency_lock enter start live
any_alone =
    later (later (later begin (inl acquire)) (inl (proceed 0 refl at_once)))
      (inl (miss 0 refl refl))

close-runs_example :
    (h : Gate) × Reach AnyStep h
    × (h.runs ≡ suc alone.runs)
    × (h.phase 0 ≡ left)
    × (h.phase alone.next ≡ running)
unfolding acquire_idempotency_lock enter start live
close-runs_example = close-runs 0 any_alone refl refl refl
