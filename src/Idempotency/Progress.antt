-- ===== src/Idempotency/Progress.antt =====
-- A waiting request is never stuck behind nobody.
use real_time_logistics_plat.Common.{
  ℕ, zero, suc, ◌≤◌, ◌<◌, true, false, some, ◌≡◌, ◌⊎◌, ◌≢◌, inl, inr, refl, sym, subst, arith, eqb,
  Bool-cases, Option-cases,
}
use real_time_logistics_plat.Idempotency.{
  Gate, Phase, absent, waiting, checking, running, left, finished, is_released, holds,
}
use real_time_logistics_plat.Idempotency.Steps.{AnyStep, Reach, Resolved, at_once, in_turn}
use real_time_logistics_plat.Idempotency.Order.{
  Before, InOrder, Reach-InOrder, known, waiting-known, eqb-eq, eqb-ne,
}

-- The first request that has not released the lock, if there is one among the first n.
first_unreleased :
    (phase : ℕ → Phase) (n : ℕ)
    → Before phase n ⊎ ((m : ℕ) × (m < n) × (is_released (phase m) ≡ false) × Before phase m)
first_unreleased phase zero = inl (λ i lt. absurd (omega arith))
first_unreleased phase (suc n) = elim (first_unreleased phase n) [
  | inr (m, lt, held, before) ↦ inr (m, omega arith, held, before)
  | inl before ↦ elim (Bool-cases (is_released (phase n))) [
    | inr held ↦ inr (n, omega arith, held, before)
    | inl done ↦ inl (λ i lt. elim (Bool-cases (eqb i n)) [
      | inl e ↦ subst (λ j. is_released (phase j) ≡ true) (sym (eqb-eq i n e)) done
      | inr e ↦ before i (ground (arith, eqb-ne i n e))
    ])
  ]
]

Before-Resolved :
    (g : Gate) (k : ℕ) → InOrder g → k < g.next → Before g.phase k → Resolved g (g.previous k)
Before-Resolved g zero o lt before = elim (Option-cases (g.previous zero)) [
  | inl e ↦ rw e at_once
  | inr (j, e) ↦ absurd (omega (arith, o.linked zero j lt e))
]
Before-Resolved g (suc k) o lt before = elim (Option-cases (g.previous (suc k))) [
  | inl e ↦ rw e at_once
  | inr (j, e) ↦
      let same : k ≡ j = omega (arith, o.linked (suc k) j lt e) in
      subst (Resolved g) (sym e) (
        subst (λ m. Resolved g (some m)) same
          (in_turn k (before k (omega arith))
            (Before-Resolved g k o (omega arith) (λ i below. before i (omega arith)))))
]

-- The request has the lock, or its turn has come.
abbrev pub CanMove : Gate → ℕ → Type 0
CanMove g i = (holds (g.phase i) ≡ true) ⊎ ((g.phase i ≡ waiting) × Resolved g (g.previous i))

phase-cases : (p : Phase) → p ≢ absent → is_released p ≡ false → (holds p ≡ true) ⊎ (p ≡ waiting)
phase-cases absent h k = absurd (h refl)
phase-cases waiting h k = inr refl
phase-cases checking h k = inl refl
phase-cases running h k = inl refl
phase-cases left h k = cc
phase-cases finished h k = cc

-- No deadlock: while a request waits for the lock, it or an earlier one has the lock or has had the
-- promise that it waits for resolved.
pub no_deadlock :
    {g : Gate} (k : ℕ) → Reach AnyStep g → g.phase k ≡ waiting → (i : ℕ) × (i ≤ k) × CanMove g i
no_deadlock {g} k r e =
    let o = Reach-InOrder r in
    elim (first_unreleased g.phase (suc k)) [
      | inl all ↦ absurd (cc (rw e at (all k (omega arith))))
      | inr (m, lt, held, before) ↦
          let below : k < g.next =
            known g.next g.tail g.previous g.phase o k (waiting-known (g.phase k) e) in
          let known_m : m < g.next = omega arith in
          (
            m,
            omega arith,
            elim (phase-cases (g.phase m) (o.joined m known_m) held) [
              | inl has ↦ inl has
              | inr waits ↦ inr (waits, Before-Resolved g m o known_m before)
            ],
          )
    ]
