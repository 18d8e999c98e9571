-- ===== src/Idempotency.antt =====
-- Requests that carry one idempotency key: apps/api/src/services/idempotency.ts and the middleware
-- of apps/api/src/app.ts that uses it. The maps of the service are modelled at one key, since each
-- of their operations reads and writes one key only, and without the database, which is the same
-- cache for other processes. Requests interleave wherever the code waits.
pub mod Steps
pub mod Order
pub mod Exclusion
pub mod Progress
pub mod Once
pub mod Rerun
use real_time_logistics_plat.Common.{
  ℕ, suc, ◌+◌, String, Bool, true, false, Option, none, some, List, [], ◌∷◌, ltb, eqb,
  if◌then◌else◌,
}

pub record IdempotencyResult : Type 0 where
  pub status : ℕ
  pub body : String

-- Where a request stands in the middleware.
--   absent: it has not asked for the lock; waiting: at `await previous`; checking: it has the lock
--   and looks for a result again; running: its handler runs; left: its connection is closed while
--   its handler runs; finished: it has released the lock and its handler, if it ran, is over.
pub data Phase : Type 0 where
  absent waiting checking running left finished : Phase

-- The k-th request to ask for the lock makes the k-th promise chain. `tail` is the chain in
-- `locks`, `previous k` is what the k-th waits for (`none` is `Promise.resolve()`), and `stored` is
-- the entry in `memory`, with its `expiresAt`. `runs` counts the handlers that were started, and
-- `answers` lists the results that were sent.
pub record Gate : Type 0 where
  pub now : ℕ
  pub next : ℕ
  pub tail : Option ℕ
  pub previous : ℕ → Option ℕ
  pub phase : ℕ → Phase
  pub stored : Option (IdempotencyResult × ℕ)
  pub runs : ℕ
  pub answers : List IdempotencyResult

abbrev pub ttl_ms : ℕ
ttl_ms = 86400000

abbrev pub update : {A : Type 0} → (ℕ → A) → ℕ → A → ℕ → A
update f k v i = if eqb i k then v else f i

unfoldable pub live : ℕ → Option (IdempotencyResult × ℕ) → Option IdempotencyResult
live now none = none
live now (some (r, expires_at)) = if ltb now expires_at then some r else none

abbrev pub get_idempotency_result : Gate → Option IdempotencyResult
get_idempotency_result g = live g.now g.stored

unfoldable pub remember_idempotency_result : IdempotencyResult → Gate → Gate
remember_idempotency_result r g = record g { stored = some (r, g.now + ttl_ms) }

-- Up to `await previous`.
unfoldable pub acquire_idempotency_lock : Gate → Gate
acquire_idempotency_lock g = record g {
  next = suc g.next;
  tail = some g.next;
  previous = update g.previous g.next g.tail;
  phase = update g.phase g.next waiting;
}

abbrev is_tail : Option ℕ → ℕ → Bool
is_tail none k = false
is_tail (some j) k = eqb j k

-- `if (locks.get(memoryKey) === chain) locks.delete(memoryKey)`.
unfoldable pub tail_without : Option ℕ → ℕ → Option ℕ
tail_without tail k = if is_tail tail k then none else tail

-- The first call of the function that the lock returns.
unfoldable pub release : ℕ → Phase → Gate → Gate
unfolding tail_without
release k p g = record g { tail = tail_without g.tail k; phase = update g.phase k p }

abbrev pub send : IdempotencyResult → Gate → Gate
send r g = record g { answers = r ∷ g.answers }

-- The request goes on after `await previous`.
unfoldable pub enter : ℕ → Gate → Gate
enter k g = record g { phase = update g.phase k checking }

-- The second look found a result.
unfoldable pub replay_second : ℕ → IdempotencyResult → Gate → Gate
unfolding release
replay_second k r g = send r (release k finished g)

-- It found none: `next()`.
unfoldable pub start : ℕ → Gate → Gate
start k g = record g { phase = update g.phase k running; runs = suc g.runs }

-- `res.json(body)`, the first time: the result is stored and the lock released.
unfoldable pub answer : ℕ → IdempotencyResult → Gate → Gate
unfolding release remember_idempotency_result
answer k r g = send r (release k finished (remember_idempotency_result r g))

-- The handler of a request whose connection is closed answers: the lock is released already.
unfoldable pub answer_late : ℕ → IdempotencyResult → Gate → Gate
unfolding remember_idempotency_result
answer_late k r g =
    let g' = remember_idempotency_result r g in record g' { phase = update g'.phase k finished }

abbrev pub is_released : Phase → Bool
is_released left = true
is_released finished = true
is_released _ = false

-- The request is between the return of `acquireIdempotencyLock` and its release.
abbrev pub holds : Phase → Bool
holds checking = true
holds running = true
holds _ = false

abbrev pub initial : Gate
initial = record {
  now = 0;
  next = 0;
  tail = none;
  previous = λ k. none;
  phase = λ k. absent;
  stored = none;
  runs = 0;
  answers = [];
}
