-- ===== src/LocationQueue/Flush.antt =====
-- What a flush sends and what it keeps: apps/web/src/lib/locationQueue.ts.
use real_time_logistics_plat.Common.{
  ℕ, zero, suc, ◌+◌, ◌≤◌, ◌<◌, Bool, true, false, List, [], ◌∷◌, ◌≡◌, ◌≢◌, refl, ap, ◌∙◌, ◌⊎◌, inl,
  inr, arith, length, Bool-cases,
}
use real_time_logistics_plat.LocationQueue.{QueuedLocation, enqueue_all, send_from, unsent, flush}

-- The sends up to the number succeeded, and the next one failed if there is one.
abbrev pub IsSent : (ℕ → Bool) → ℕ → ℕ → ℕ → Type 0
IsSent succeeds i n sent =
    (i ≤ sent)
    × (sent ≤ i + n)
    × ((k : ℕ) → i ≤ k → k < sent → succeeds k ≡ true)
    × ((sent ≡ i + n) ⊎ (succeeds sent ≡ false))

pair_eq : {p q : ℕ × List QueuedLocation} → p.0 ≡ q.0 → p.1 ≡ q.1 → p ≡ q
pair_eq e f = λ i. (e i, f i)

nat_cases : (i k : ℕ) → i ≤ k → (k ≡ i) ⊎ (suc i ≤ k)
nat_cases i k h = ground arith

send_from-IsSent :
    (succeeds : ℕ → Bool) (during : ℕ → List QueuedLocation) (i : ℕ)
    (pending stored : List QueuedLocation)
    → IsSent succeeds i (length pending) (send_from succeeds during i pending stored).0
unfolding send_from
send_from-IsSent succeeds during i [] stored =
    (omega arith, omega arith, λ k p q. absurd (omega arith), inl (omega arith))
send_from-IsSent succeeds during i (r ∷ rest) stored = elim (Bool-cases (succeeds i)) [
  | inr e ↦ rw (e, send_from) (omega arith, omega arith, λ k p q. absurd (omega arith), inr e)
  | inl e ↦
      let (p, q, all, stop) =
        send_from-IsSent succeeds during (suc i) rest (enqueue_all (during i) stored) in
      rw (e, send_from)
        (
          omega arith,
          omega arith,
          λ k h l. elim (nat_cases i k h) [
            | inl same ↦ ap succeeds same ∙ e
            | inr later ↦ all k later l
          ],
          elim stop [ inl all_sent ↦ inl (omega arith) | inr failed ↦ inr failed ],
        )
]

-- A flush sends a prefix of the pending positions: every send that is counted succeeded, and where
-- not all are sent the next send failed.
pub flush-IsSent :
    (succeeds : ℕ → Bool) (during : ℕ → List QueuedLocation) (pending : List QueuedLocation)
    → IsSent succeeds 0 (length pending) (flush succeeds during pending).0
unfolding flush
flush-IsSent succeeds during pending = send_from-IsSent succeeds during 0 pending pending

send_from-during :
    (succeeds : ℕ → Bool) (during during' : ℕ → List QueuedLocation) (i : ℕ)
    (pending stored stored' : List QueuedLocation)
    → (send_from succeeds during i pending stored).0
      ≡ (send_from succeeds during' i pending stored').0
unfolding send_from
send_from-during succeeds during during' i [] stored stored' = refl
send_from-during succeeds during during' i (r ∷ rest) stored stored' =
    elim (Bool-cases (succeeds i)) [
      | inr e ↦ rw (e, send_from) refl
      | inl e ↦
          rw (e, send_from)
            (send_from-during succeeds during during' (suc i) rest (enqueue_all (during i) stored)
              (enqueue_all (during' i) stored'))
    ]

unsent_same :
    (pending : List QueuedLocation) (m : ℕ) (stored stored' : List QueuedLocation)
    → m ≢ 0
    → unsent pending m stored ≡ unsent pending m stored'
unfolding unsent
unsent_same pending zero stored stored' n = absurd (n refl)
unsent_same pending (suc m) stored stored' n = refl

-- Once a position is sent, a flush forgets what other code enqueued while the sends were running:
-- its result and what it stores are the same whatever that was.
pub flush-during :
    (succeeds : ℕ → Bool) (during during' : ℕ → List QueuedLocation) (pending : List QueuedLocation)
    → (flush succeeds during pending).0 ≢ 0
    → flush succeeds during pending ≡ flush succeeds during' pending
unfolding flush
flush-during succeeds during during' pending n =
    let out = send_from succeeds during 0 pending pending in
    let out' = send_from succeeds during' 0 pending pending in
    let same = send_from-during succeeds during during' 0 pending pending pending in
    pair_eq same (unsent_same pending out.0 out.1 out'.1 n ∙ ap (λ m. unsent pending m out'.1) same)
