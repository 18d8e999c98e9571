-- ===== src/Idempotency/Rerun.antt =====
-- A connection that is closed while its handler runs.
use real_time_logistics_plat.Common.{
  ℕ, suc, true, none, some, ◌≡◌, ◌≢◌, inl, inr, refl, sym, ap, subst, arith, Option-cases, ◌∙◌,
}
use real_time_logistics_plat.Idempotency.{
  Gate, Phase, waiting, checking, running, left, is_released, get_idempotency_result,
  acquire_idempotency_lock, release, tail_without, enter, start,
}
use real_time_logistics_plat.Idempotency.Steps.{
  Resolved, at_once, acquire, proceed, miss, close, AnyStep, Reach, later,
}
use real_time_logistics_plat.Idempotency.Order.{InOrder, Reach-InOrder, update_ne, update_self}

still_runs : (p : Phase) → p ≡ running → is_released p ≡ true → ⊥
still_runs p e h = cc

tail_is_last :
    (g : Gate) (k : ℕ) → InOrder g → g.phase k ≡ running → suc k ≡ g.next → g.tail ≡ some k
tail_is_last g k o e last = elim (Option-cases g.tail) [
  | inl none_is ↦ absurd (still_runs (g.phase k) e (o.free none_is k (omega arith)))
  | inr (j, is) ↦ let same : j ≡ k = omega (arith, o.newest j is) in is ∙ ap some same
]

-- Where the connection of the last request that asked is closed while its handler runs and nothing
-- is stored yet, a repeated request starts the handler a second time, beside the first one.
pub close-runs :
    {g : Gate} (k : ℕ)
    → Reach AnyStep g
    → g.phase k ≡ running
    → suc k ≡ g.next
    → get_idempotency_result g ≡ none
    → (h : Gate) × Reach AnyStep h
      × (h.runs ≡ suc g.runs)
      × (h.phase k ≡ left)
      × (h.phase g.next ≡ running)
unfolding release tail_without acquire_idempotency_lock enter start
close-runs {g} k r e last missed =
    let freed : tail_without g.tail k ≡ none =
      rw (tail_is_last g k (Reach-InOrder r) e last) (ground arith) in
    let ne : k ≢ g.next = λ same. absurd (omega (arith, same)) in
    let g1 = release k left g in
    let g2 = acquire_idempotency_lock g1 in
    let g3 = enter g.next g2 in
    let g4 = start g.next g3 in
    let r1 : Reach AnyStep g1 = later r (inr (close k e)) in
    let r2 : Reach AnyStep g2 = later r1 (inl acquire) in
    let turn : Resolved g2 (g2.previous g.next) =
      subst (Resolved g2) (sym (update_self g1.previous g.next g1.tail ∙ freed)) at_once in
    let r3 : Reach AnyStep g3 =
      later r2 (inl (proceed g.next (update_self g1.phase g.next waiting) turn)) in
    let r4 : Reach AnyStep g4 =
      later r3 (inl (miss g.next (update_self g2.phase g.next checking) missed)) in
    (
      g4,
      r4,
      refl,
      update_ne g3.phase g.next running k ne
          ∙ update_ne g2.phase g.next checking k ne
          ∙ update_ne g1.phase g.next waiting k ne
          ∙ update_self g.phase k left,
      update_self g3.phase g.next running,
    )
