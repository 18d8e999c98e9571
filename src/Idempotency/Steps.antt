-- ===== src/Idempotency/Steps.antt =====
-- The steps of the requests, and the states that they reach.
use real_time_logistics_plat.Common.{ℕ, ◌+◌, true, Option, none, some, ◌≡◌, ◌⊎◌}
use real_time_logistics_plat.Idempotency.{
  Gate, waiting, checking, running, left, finished, IdempotencyResult, is_released,
  get_idempotency_result, acquire_idempotency_lock, release, send, enter, replay_second, start,
  answer, answer_late, initial,
}

-- The promise is resolved: the k-th chain is `previous.then(() => current)`, and `current` is
-- resolved when the k-th request releases the lock.
pub data Resolved (g : Gate) : Option ℕ → Type 0 where
  at_once : Resolved g none
  in_turn :
      (k : ℕ) → is_released (g.phase k) ≡ true → Resolved g (g.previous k) → Resolved g (some k)

-- The steps of requests that stay connected and answer with JSON.
pub data Step (g : Gate) : Gate → Type 0 where
  tick : (n : ℕ) → Step g (record g { now = g.now + n })
  replay_first : (r : IdempotencyResult) → get_idempotency_result g ≡ some r → Step g (send r g)
  acquire : Step g (acquire_idempotency_lock g)
  proceed : (k : ℕ) → g.phase k ≡ waiting → Resolved g (g.previous k) → Step g (enter k g)
  hit :
      (k : ℕ) (r : IdempotencyResult)
      → g.phase k ≡ checking
      → get_idempotency_result g ≡ some r
      → Step g (replay_second k r g)
  miss : (k : ℕ) → g.phase k ≡ checking → get_idempotency_result g ≡ none → Step g (start k g)
  respond : (k : ℕ) (r : IdempotencyResult) → g.phase k ≡ running → Step g (answer k r g)

-- What else can happen: the connection is closed while the handler runs (`close`), the handler
-- answers then, or it ends with no JSON (`finish`).
pub data Disturbance (g : Gate) : Gate → Type 0 where
  close : (k : ℕ) → g.phase k ≡ running → Disturbance g (release k left g)
  respond_late :
      (k : ℕ) (r : IdempotencyResult) → g.phase k ≡ left → Disturbance g (answer_late k r g)
  finish : (k : ℕ) → g.phase k ≡ running → Disturbance g (release k finished g)

abbrev pub AnyStep : Gate → Gate → Type 0
AnyStep g h = Step g h ⊎ Disturbance g h

pub data Reach (R : Gate → Gate → Type 0) : Gate → Type 0 where
  begin : Reach R initial
  later : {g h : Gate} → Reach R g → R g h → Reach R h
