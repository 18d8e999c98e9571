-- ===== src/Idempotency/Once.antt =====
-- How often the handler runs for one key.
use real_time_logistics_plat.Common.{
  ℕ, suc, ◌+◌, ◌≤◌, ◌<◌, true, Option, none, some, List, [], ◌∷◌, ◌≡◌, ◌≢◌, inl, refl, sym, ap,
  subst, arith, All, ◌∙◌,
}
use real_time_logistics_plat.Idempotency.{
  Gate, Phase, waiting, checking, running, finished, IdempotencyResult, live, ttl_ms, update, holds,
  get_idempotency_result, acquire_idempotency_lock, release, enter, replay_second, start, answer,
  remember_idempotency_result, initial,
}
use real_time_logistics_plat.Idempotency.Steps.{
  Step, tick, replay_first, acquire, proceed, hit, miss, respond, AnyStep, Reach, begin, later,
}
use real_time_logistics_plat.Idempotency.Order.{update_self, update-elim, InOrder, Reach-InOrder}
use real_time_logistics_plat.Idempotency.Exclusion.{one_holder}

abbrev NoneRuns : (ℕ → Phase) → Type 0
NoneRuns phase = (k : ℕ) → phase k ≢ running

-- No handler has run; or one runs; or one has answered, its answer is stored for a day, and every
-- answer is that one.
data Stage (phase : ℕ → Phase) (stored : Option (IdempotencyResult × ℕ)) (runs : ℕ)
    (answers : List IdempotencyResult) : Type 0 where
  unused :
      runs ≡ 0 → stored ≡ none → answers ≡ [] → NoneRuns phase → Stage phase stored runs answers
  busy :
      (k : ℕ)
      → runs ≡ 1
      → stored ≡ none
      → answers ≡ []
      → phase k ≡ running
      → Stage phase stored runs answers
  answered :
      (r : IdempotencyResult) (expires_at : ℕ)
      → runs ≡ 1
      → stored ≡ some (r, expires_at)
      → ttl_ms ≤ expires_at
      → All (λ a. a ≡ r) answers
      → NoneRuns phase
      → Stage phase stored runs answers

abbrev StageOf : Gate → Type 0
StageOf g = Stage g.phase g.stored g.runs g.answers

update-NoneRuns :
    (phase : ℕ → Phase) (k : ℕ) (p : Phase)
    → p ≢ running
    → NoneRuns phase
    → NoneRuns (update phase k p)
update-NoneRuns phase k p h none_runs i =
    update-elim (λ q. q ≢ running) phase k p i (λ _. h) (λ _. none_runs i)

update_other :
    (phase : ℕ → Phase) (k i : ℕ) (p : Phase)
    → phase k ≢ running
    → phase i ≡ running
    → update phase k p i ≡ running
update_other phase k i p h e =
    update-elim (λ q. q ≡ running) phase k p i
      (λ same. absurd (h (subst (λ j. phase j ≡ running) same e))) (λ _. e)

-- A request that does not run moves on without running.
Stage-update :
    (phase : ℕ → Phase) (stored : Option (IdempotencyResult × ℕ)) (runs : ℕ)
    (answers : List IdempotencyResult) (k : ℕ) (p : Phase)
    → p ≢ running
    → phase k ≢ running
    → Stage phase stored runs answers
    → Stage (update phase k p) stored runs answers
Stage-update phase stored runs answers k p h still (unused a b c n) =
    unused a b c (update-NoneRuns phase k p h n)
Stage-update phase stored runs answers k p h still (busy i a b c e) =
    busy i a b c (update_other phase k i p still e)
Stage-update phase stored runs answers k p h still (answered r t a b c d n) =
    answered r t a b c d (update-NoneRuns phase k p h n)

live-none : (now : ℕ) (s : Option (IdempotencyResult × ℕ)) → s ≡ none → live now s ≡ none
unfolding live
live-none now s e = rw e refl

live-some :
    (now : ℕ) (s : Option (IdempotencyResult × ℕ)) (r : IdempotencyResult) (t : ℕ)
    → s ≡ some (r, t)
    → ttl_ms ≤ t
    → now < ttl_ms
    → live now s ≡ some r
unfolding live
live-some now s r t e le lt = rw e (ground arith)

-- A result that is found is sent.
Stage-send :
    (now : ℕ) (phase : ℕ → Phase) (stored : Option (IdempotencyResult × ℕ)) (runs : ℕ)
    (answers : List IdempotencyResult) (r : IdempotencyResult)
    → now < ttl_ms
    → live now stored ≡ some r
    → Stage phase stored runs answers
    → Stage phase stored runs (r ∷ answers)
Stage-send now phase stored runs answers r lt found (unused a b c n) =
    absurd (cc (live-none now stored b))
Stage-send now phase stored runs answers r lt found (busy i a b c e) =
    absurd (cc (live-none now stored b))
Stage-send now phase stored runs answers r lt found (answered q t a b c d n) =
    answered q t a b c (ground (arith, live-some now stored q t b c lt), d) n

running-holds : (p : Phase) → p ≡ running → holds p ≡ true
running-holds p e = rw e refl

checking-holds : (p : Phase) → p ≡ checking → holds p ≡ true
checking-holds p e = rw e refl

-- The second look finds nothing only where no handler has run.
Stage-start :
    (g : Gate) (k : ℕ)
    → g.phase k ≡ checking
    → get_idempotency_result g ≡ none
    → InOrder g
    → g.now < ttl_ms
    → StageOf g
    → Stage (update g.phase k running) g.stored (suc g.runs) g.answers
Stage-start g k e missed o lt (unused a b c n) =
    busy k (omega arith) b c (update_self g.phase k running)
Stage-start g k e missed o lt (busy i a b c f) =
    let same = one_holder g k i o (checking-holds (g.phase k) e) (running-holds (g.phase i) f) in
    absurd (both (g.phase i) (subst (λ j. g.phase j ≡ checking) same e) f)
  where
    both : (p : Phase) → p ≡ checking → p ≡ running → ⊥
    both p c d = cc
Stage-start g k e missed o lt (answered r t a b c d n) =
    absurd (cc (live-some g.now g.stored r t b c lt))

-- The running handler answers.
Stage-answer :
    (g : Gate) (k : ℕ) (r : IdempotencyResult)
    → g.phase k ≡ running
    → InOrder g
    → StageOf g
    → Stage (update g.phase k finished) (some (r, g.now + ttl_ms)) g.runs (r ∷ g.answers)
Stage-answer g k r e o (unused a b c n) = absurd (n k e)
Stage-answer g k r e o (busy i a b c f) =
    answered r (g.now + ttl_ms) a refl (omega arith) (refl, rw c tt)
      (λ j.
        update-elim (λ q. q ≢ running) g.phase k finished j (λ _ d. cc)
          (λ ne d.
            ne (one_holder g j k o (running-holds (g.phase j) d) (running-holds (g.phase k) e))))
Stage-answer g k r e o (answered q t a b c d n) = absurd (n k e)

Step-StageOf : {g h : Gate} → Step g h → InOrder g → g.now < ttl_ms → StageOf g → StageOf h
unfolding acquire_idempotency_lock enter replay_second start answer release
    remember_idempotency_result
Step-StageOf (tick n) o lt s = s
Step-StageOf {g} (replay_first r found) o lt s =
    Stage-send g.now g.phase g.stored g.runs g.answers r lt found s
Step-StageOf {g} acquire o lt s =
    Stage-update g.phase g.stored g.runs g.answers g.next waiting (λ e. cc)
      (λ e. cc (o.unknown g.next (omega arith))) s
Step-StageOf {g} (proceed k e resolved) o lt s =
    Stage-update g.phase g.stored g.runs g.answers k checking (λ f. cc) (λ f. cc) s
Step-StageOf {g} (hit k r e found) o lt s =
    Stage-send g.now _ g.stored g.runs g.answers r lt found
      (Stage-update g.phase g.stored g.runs g.answers k finished (λ f. cc) (λ f. cc) s)
Step-StageOf {g} (miss k e missed) o lt s = Stage-start g k e missed o lt s
Step-StageOf {g} (respond k r e) o lt s = Stage-answer g k r e o s

initial-StageOf : StageOf initial
initial-StageOf = unused refl refl refl (λ k e. cc)

any-Reach : {g : Gate} → Reach Step g → Reach AnyStep g
any-Reach begin = begin
any-Reach (later r st) = later (any-Reach r) (inl st)

-- Time does not run back.
now-le : {g h : Gate} → Step g h → g.now ≤ h.now
unfolding acquire_idempotency_lock enter replay_second start answer release
    remember_idempotency_result
now-le (tick n) = omega arith
now-le (replay_first r e) = omega arith
now-le acquire = omega arith
now-le (proceed k e r) = omega arith
now-le (hit k r e f) = omega arith
now-le (miss k e f) = omega arith
now-le (respond k r e) = omega arith

Reach-StageOf : {g : Gate} → Reach Step g → g.now < ttl_ms → StageOf g
Reach-StageOf begin lt = initial-StageOf
Reach-StageOf (later {g} r st) lt =
    let earlier : g.now < ttl_ms = omega (arith, now-le st) in
    Step-StageOf st (Reach-InOrder (any-Reach r)) earlier (Reach-StageOf r earlier)

Stage-once :
    (g : Gate)
    → g.now < ttl_ms
    → StageOf g
    → (g.runs ≤ 1) × All (λ r. get_idempotency_result g ≡ some r) g.answers
Stage-once g lt (unused a b c n) = (omega arith, rw c tt)
Stage-once g lt (busy k a b c e) = (omega arith, rw c tt)
Stage-once g lt (answered r t a b c d n) = (omega arith, All-same g.answers d)
  where
    All-same :
        (sent : List IdempotencyResult)
        → All (λ a. a ≡ r) sent
        → All (λ q. get_idempotency_result g ≡ some q) sent
    All-same [] h = tt
    All-same (a ∷ sent) h =
        (live-some g.now g.stored r t b c lt ∙ ap some (sym h.0), All-same sent h.1)

-- Within a day of the first request, and while every connection stays open until its handler has
-- answered with JSON, the handler of a key runs at most once, however many requests carry the key
-- and however they interleave, and each answer that any of them gets is the one that is stored.
pub handler_once :
    {g : Gate}
    → Reach Step g
    → g.now < ttl_ms
    → (g.runs ≤ 1) × All (λ r. get_idempotency_result g ≡ some r) g.answers
handler_once {g} r lt = Stage-once g lt (Reach-StageOf r lt)
