-- ===== src/Bulk/Later.antt =====
-- The job that an identifier has, later on.
use real_time_logistics_plat.Common.{
  ℕ, String, Bool, true, false, Option, none, some, ◌==◌, ◌≡◌, ◌≢◌, refl, sym, subst, ◌∙◌, ap, inl,
  inr, if◌then◌else◌, Bool-cases, eq_iff,
}
use real_time_logistics_plat.Store.{World}
use real_time_logistics_plat.Bulk.Import.{Importer, ImportOutcome, run_bulk_import}
use real_time_logistics_plat.Bulk.Jobs.{
  BulkImportJobPayload, BulkImportJobStatus, queued, running, completed, failed,
  BulkImportJobSummary, Jobs, set, start_job, queued_job, enqueue_bulk_import, settle_job,
  finish_job, Step, enqueued, ended, elsewhere, Run, here, and_then, no_jobs,
}
use real_time_logistics_plat.Bulk.Settled.{
  IsSound, Agrees, AreSound, set-other, set-same, Run-AreSound,
}

-- A settled job is no longer called.
abbrev pub is_settled : BulkImportJobStatus → Bool
is_settled queued = false
is_settled running = false
is_settled completed = true
is_settled failed = true

IsSound-settled :
    (status : BulkImportJobStatus) (job : BulkImportJobSummary) (call : Option BulkImportJobPayload)
    → is_settled status ≡ true
    → IsSound status job call
    → call ≡ none
IsSound-settled queued job call e h = absurd (cc e)
IsSound-settled running job call e h = absurd (cc e)
IsSound-settled completed job call e h = h.0
IsSound-settled failed job call e h = h.0

Step-settled :
    (env : Importer) (s t : Jobs) (id : String) (job : BulkImportJobSummary)
    → AreSound s
    → is_settled job.status ≡ true
    → Step env s t
    → s.memory id ≡ some job
    → t.memory id ≡ some job
unfolding enqueue_bulk_import finish_job
Step-settled env s _ id job h settled (elsewhere w) e = e
Step-settled env s _ id job h settled (enqueued k payload now fresh) e =
    elim (Bool-cases (id == k)) [
      | inl same ↦ absurd (cc (fresh, e, (eq_iff id k).0 same))
      | inr other ↦
          let queue = set k (some (queued_job k payload now)) s.memory in
          set-other k id (start_job now (queue k)) queue other
          ∙ set-other k id (some (queued_job k payload now)) s.memory other
          ∙ e
    ]
Step-settled env s _ id job h settled (ended requests k payload now reason waits) e =
    let done = run_bulk_import env requests payload.user payload.csv false s.world in
    elim (Bool-cases (id == k)) [
      | inl same ↦
          let gone =
            IsSound-settled job.status job (s.waiting id) settled
              (subst (λ j. Agrees j (s.waiting id)) e (h id)) in
          absurd (cc (waits, gone, (eq_iff id k).0 same))
      | inr other ↦ set-other k id (settle_job now reason done.1 (s.memory k)) s.memory other ∙ e
    ]

Run-settled :
    (env : Importer) (s t : Jobs) (id : String) (job : BulkImportJobSummary)
    → AreSound s
    → is_settled job.status ≡ true
    → Run env s t
    → s.memory id ≡ some job
    → t.memory id ≡ some job
Run-settled env s _ id job h settled here e = e
Run-settled env s u id job h settled (and_then t _ run step) e =
    Step-settled env t u id job (Run-AreSound env s t run h) settled step
      (Run-settled env s t id job h settled run e)

settle_job-lost :
    (now : ℕ) (reason : String) (outcome : ImportOutcome) (before : Option BulkImportJobSummary)
    → settle_job now reason outcome before ≡ none
    → before ≡ none
unfolding settle_job
settle_job-lost now reason outcome none e = refl
settle_job-lost now reason outcome (some job) e = absurd (cc e)

Step-lost :
    (env : Importer) (s t : Jobs) (id : String)
    → Step env s t
    → t.memory id ≡ none
    → s.memory id ≡ none
unfolding enqueue_bulk_import finish_job settle_job
Step-lost env s _ id (elsewhere w) e = e
Step-lost env s _ id (enqueued k payload now fresh) e = elim (Bool-cases (id == k)) [
  | inl same ↦ ap s.memory ((eq_iff id k).0 same) ∙ fresh
  | inr other ↦
      let queue = set k (some (queued_job k payload now)) s.memory in
      sym (set-other k id (some (queued_job k payload now)) s.memory other)
      ∙ sym (set-other k id (start_job now (queue k)) queue other)
      ∙ e
]
Step-lost env s _ id (ended requests k payload now reason waits) e =
    let done = run_bulk_import env requests payload.user payload.csv false s.world in
    elim (Bool-cases (id == k)) [
      | inl same ↦
          let gone =
            settle_job-lost now reason done.1 (s.memory k)
              (sym (set-same id k (settle_job now reason done.1 (s.memory k)) s.memory same) ∙ e) in
          ap s.memory ((eq_iff id k).0 same) ∙ gone
      | inr other ↦
          sym (set-other k id (settle_job now reason done.1 (s.memory k)) s.memory other) ∙ e
    ]

Run-lost :
    (env : Importer) (s t : Jobs) (id : String)
    → Run env s t
    → t.memory id ≡ none
    → s.memory id ≡ none
Run-lost env s _ id here e = e
Run-lost env s u id (and_then t _ run step) e =
    Run-lost env s t id run (Step-lost env t u id step e)

-- What a job is later on: the same, where it is settled, and a job at any rate.
abbrev pub IsLater : Option BulkImportJobSummary → Option BulkImportJobSummary → Type 0
IsLater none after = after ≡ after
IsLater (some job) after = if is_settled job.status then after ≡ some job else after ≢ none

Run-IsLater :
    (env : Importer) (s t : Jobs) (id : String) (before : Option BulkImportJobSummary)
    → AreSound s
    → Run env s t
    → s.memory id ≡ before
    → IsLater before (t.memory id)
Run-IsLater env s t id none h run e = refl
Run-IsLater env s t id (some job) h run e = elim (Bool-cases (is_settled job.status)) [
  | inl settled ↦ rw settled (Run-settled env s t id job h settled run e)
  | inr unsettled ↦ rw unsettled (λ lost. cc (e, Run-lost env s t id run lost))
]

-- Over any sequence of jobs that are enqueued under fresh identifiers, of calls that end and of
-- changes to the store by other code: a running job belongs to the organization of the user whose
-- call is still waiting, so that none is stuck; a completed or failed job has no call, and it has
-- the error, or the counts of its result, which has an order for each line or none. From any time
-- to a later one no job is lost, and a completed or failed one is the same in every field.
pub import_jobs_settle :
    (env : Importer) (w : World) (s t : Jobs)
    → Run env (no_jobs w) s
    → Run env s t
    → (id : String) → Agrees (t.memory id) (t.waiting id) × IsLater (s.memory id) (t.memory id)
import_jobs_settle env w s t before after id =
    let sound : AreSound s = Run-AreSound env (no_jobs w) s before (λ k. refl) in
    (Run-AreSound env s t after sound id, Run-IsLater env s t id (s.memory id) sound after refl)
