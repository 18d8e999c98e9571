-- ===== src/ActionQueue.antt =====
-- The queue of a driver's actions in the browser, apps/web/src/lib/driverActionQueue.ts, as a
-- function of what the browser's storage holds. The storage is available and holds what `write` put
-- there.
pub mod Flush
use real_time_logistics_plat.Common.{
  ℕ, zero, suc, ◌+◌, ◌-◌, String, Bool, true, false, not, Option, none, some, List, [], ◌∷◌, ◌++◌,
  ◌==◌, length, any, filter, modify_first, if◌then◌else◌,
}
use real_time_logistics_plat.Optimizer.{take, drop}

pub data ActionType : Type 0 where
  accept_action reject_action status_action scan_action proof_action : ActionType

-- The `data` of an action is its text in the storage.
pub record QueuedAction : Type 0 where
  pub id : String
  pub type : ActionType
  pub order_id : String
  pub body : String
  pub created_at : ℕ
  pub attempts : ℕ
  pub last_error : Option String

-- `actions.slice(-50)`: the last of them.
unfoldable pub write : List QueuedAction → List QueuedAction
unfolding drop
write actions = drop (length actions - 50) actions

unfoldable pub enqueue : QueuedAction → List QueuedAction → List QueuedAction
unfolding write
enqueue action stored = write (stored ++ action ∷ [])

unfoldable pub enqueue_all : List QueuedAction → List QueuedAction → List QueuedAction
unfolding enqueue
enqueue_all [] stored = stored
enqueue_all (a ∷ actions) stored = enqueue_all actions (enqueue a stored)

abbrev pub same_action : QueuedAction → QueuedAction → Bool
same_action a b = b.id == a.id

abbrev pub retried : String → QueuedAction → QueuedAction
retried message a = record a { attempts = suc a.attempts; last_error = some message }

-- What a failed send writes: the attempt is counted in the storage as it is now.
unfoldable pub note_failure : QueuedAction → String → List QueuedAction → List QueuedAction
unfolding write modify_first
note_failure action message stored =
    if any (same_action action) stored
    then write (modify_first (same_action action) (retried message) stored)
    else stored

-- The loop over the pending actions: `fails i` is the error of the i-th send, if it has one, and
-- `during i` is what other code enqueues while it runs.
unfoldable pub send_from :
    (ℕ → Option String)
    → (ℕ → List QueuedAction)
    → ℕ
    → List QueuedAction
    → List QueuedAction
    → ℕ × List QueuedAction
unfolding enqueue_all note_failure
send_from fails during i [] stored = (i, stored)
send_from fails during i (action ∷ rest) stored =
    let stored' = enqueue_all (during i) stored in
    elim (fails i) [
      | none ↦ send_from fails during (suc i) rest stored'
      | some message ↦ (i, note_failure action message stored')
    ]

abbrev pub is_sent : List QueuedAction → QueuedAction → Bool
is_sent done a = any (λ s. s.id == a.id) done

unfoldable pub flush :
    (ℕ → Option String) → (ℕ → List QueuedAction) → List QueuedAction → ℕ × List QueuedAction
unfolding send_from write take filter any
flush fails during pending =
    let (sent, stored) = send_from fails during 0 pending pending in
    (
      sent,
      elim sent [
        | zero ↦ stored
        | suc n ↦ write (filter (λ a. not (is_sent (take (suc n) pending) a)) stored)
      ],
    )
