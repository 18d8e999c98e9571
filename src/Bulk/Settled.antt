-- ===== src/Bulk/Settled.antt =====
-- What becomes of an import job.
use real_time_logistics_plat.Common.{
  ℕ, ◌+◌, String, true, false, Option, none, some, [], ◌==◌, ◌≡◌, ◌≢◌, refl, subst, ◌⊎◌, inl, inr,
  Bool-cases, eq_refl, length,
}
use real_time_logistics_plat.Store.{World, Context}
use real_time_logistics_plat.Bulk.Import.{
  Importer, ImportResult, ImportOutcome, imported, unreadable, aborted, is_empty, run_bulk_import,
}
use real_time_logistics_plat.Bulk.Outcome.{Imports, run_bulk_import-Imports}
use real_time_logistics_plat.Bulk.Jobs.{
  BulkImportJobPayload, BulkImportJobStatus, queued, running, completed, failed,
  BulkImportJobSummary, Jobs, set, start_job, queued_job, enqueue_bulk_import, assign_outcome,
  settle_job, finish_job, Step, enqueued, ended, elsewhere, Run, here, and_then,
}

-- A result with a created order for each line, or with none.
abbrev pub IsResult : ImportResult → Type 0
IsResult r =
    (r.valid_rows + r.invalid_rows ≡ r.total_rows)
    × ((r.created_orders ≡ [])
        ⊎ ((length r.created_orders ≡ r.total_rows) × (is_empty r.issues ≡ true)))

pub record IsReport (job : BulkImportJobSummary) : Type 0 where
  pub found : ImportResult
  pub result : job.result ≡ some found
  pub total : job.total_rows ≡ some found.total_rows
  pub valid : job.valid_rows ≡ some found.valid_rows
  pub invalid : job.invalid_rows ≡ some found.invalid_rows
  pub whole : IsResult found

abbrev pub IsSound :
    BulkImportJobStatus → BulkImportJobSummary → Option BulkImportJobPayload → Type 0
IsSound queued job call = ⊥
IsSound running job call =
    (p : BulkImportJobPayload) × (call ≡ some p) × (job.organization_id ≡ p.user.organization_id)
IsSound completed job call = (call ≡ none) × IsReport job
IsSound failed job call = (call ≡ none) × (job.error ≢ none)

abbrev pub Agrees : Option BulkImportJobSummary → Option BulkImportJobPayload → Type 0
Agrees none call = call ≡ none
Agrees (some job) call = IsSound job.status job call

abbrev pub AreSound : Jobs → Type 0
AreSound s = (id : String) → Agrees (s.memory id) (s.waiting id)

Imports-IsResult :
    (payload : BulkImportJobPayload) (w w' : World) (r : ImportResult)
    → Imports payload.user w (w', imported r)
    → IsResult r
Imports-IsResult payload w w' r (n, inl (a, c, d)) = (n, inl c)
Imports-IsResult payload w w' r (n, inr (a, c, d, e)) = (n, inr (c, e))

assign_outcome-Agrees :
    (payload : BulkImportJobPayload) (w : World) (now : ℕ) (reason : String)
    (job : BulkImportJobSummary) (done : World × ImportOutcome)
    → Imports payload.user w done
    → Agrees (some (assign_outcome now reason done.1 job)) none
unfolding assign_outcome
assign_outcome-Agrees payload w now reason job (w', imported r) i = (
  refl,
  record {
    found = r;
    result = refl;
    total = refl;
    valid = refl;
    invalid = refl;
    whole = Imports-IsResult payload w w' r i;
  },
)
assign_outcome-Agrees payload w now reason job (w', unreadable message) i = (refl, λ e. cc e)
assign_outcome-Agrees payload w now reason job (w', aborted) i = (refl, λ e. cc e)

settle_job-Agrees :
    (payload : BulkImportJobPayload) (w : World) (now : ℕ) (reason : String)
    (before : Option BulkImportJobSummary) (done : World × ImportOutcome)
    → Agrees before (some payload)
    → Imports payload.user w done
    → Agrees (settle_job now reason done.1 before) none
unfolding settle_job
settle_job-Agrees payload w now reason none done a i = refl
settle_job-Agrees payload w now reason (some job) done a i =
    assign_outcome-Agrees payload w now reason job done i

-- A call that is set for an identifier, and the others as they were.
set-all {ℓ κ} :
    {A : Type ℓ} {B : Type κ} (P : A → B → Type 0) (id : String) (a : A) (b : B) (m : String → A)
    (n : String → B)
    → P a b
    → ((k : String) → (k == id) ≡ false → P (m k) (n k))
    → (k : String) → P (set id a m k) (set id b n k)
unfolding set
set-all P id a b m n p h k = elim (Bool-cases (k == id)) [
  | inl e ↦ rw (e, set) p
  | inr e ↦ rw (e, set) (h k e)
]

pub set-other {ℓ} :
    {A : Type ℓ} (id k : String) (a : A) (m : String → A) → (k == id) ≡ false → set id a m k ≡ m k
unfolding set
set-other id k a m e = rw (e, set) refl

pub set-same {ℓ} :
    {A : Type ℓ} (k id : String) (a : A) (m : String → A) → (k == id) ≡ true → set id a m k ≡ a
unfolding set
set-same k id a m e = rw (e, set) refl

enqueue_bulk_import-AreSound :
    (id : String) (payload : BulkImportJobPayload) (now : ℕ) (s : Jobs)
    → AreSound s
    → AreSound (enqueue_bulk_import id payload now s)
unfolding enqueue_bulk_import start_job
enqueue_bulk_import-AreSound id payload now s h =
    let queue = set id (some (queued_job id payload now)) s.memory in
    set-all Agrees id (start_job now (queue id)) (some payload) queue _
      (rw (set-same id id (some (queued_job id payload now)) s.memory (eq_refl id))
        (payload, refl, refl))
      (λ k e. rw (set-other id k (some (queued_job id payload now)) s.memory e) (h k))

finish_job-AreSound :
    (env : Importer) (requests : ℕ → Context) (id : String) (payload : BulkImportJobPayload)
    (now : ℕ) (reason : String) (s : Jobs)
    → s.waiting id ≡ some payload
    → AreSound s
    → AreSound (finish_job env requests id payload now reason s)
unfolding finish_job
finish_job-AreSound env requests id payload now reason s e h =
    let done = run_bulk_import env requests payload.user payload.csv false s.world in
    set-all Agrees id (settle_job now reason done.1 (s.memory id)) none s.memory s.waiting
      (settle_job-Agrees payload s.world now reason (s.memory id) done
        (subst (λ c. Agrees (s.memory id) c) e (h id))
        (run_bulk_import-Imports env requests payload.user payload.csv false s.world))
      (λ k different. h k)

Step-AreSound : (env : Importer) (s t : Jobs) → Step env s t → AreSound s → AreSound t
Step-AreSound env s _ (enqueued id payload now fresh) h =
    enqueue_bulk_import-AreSound id payload now s h
Step-AreSound env s _ (ended requests id payload now reason e) h =
    finish_job-AreSound env requests id payload now reason s e h
Step-AreSound env s _ (elsewhere w) h = h

pub Run-AreSound : (env : Importer) (s t : Jobs) → Run env s t → AreSound s → AreSound t
Run-AreSound env s _ here h = h
Run-AreSound env s u (and_then t _ run step) h =
    Step-AreSound env t u step (Run-AreSound env s t run h)
