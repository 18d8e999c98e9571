-- ===== src/Bulk/Jobs.antt =====
-- The import jobs of apps/api/src/services/bulkImportQueue.ts that run in the process, where no
-- Redis is configured.
use real_time_logistics_plat.Common.{ℕ, String, false, Option, none, some, ◌==◌, ◌≡◌, if◌then◌else◌}
use real_time_logistics_plat.Model.{User}
use real_time_logistics_plat.Store.{World, Context}
use real_time_logistics_plat.Bulk.Import.{
  Importer, ImportResult, ImportOutcome, imported, unreadable, aborted, run_bulk_import,
}

pub record BulkImportJobPayload : Type 0 where
  pub user : User
  pub csv : String

pub data BulkImportJobStatus : Type 0 where
  queued : BulkImportJobStatus
  running : BulkImportJobStatus
  completed : BulkImportJobStatus
  failed : BulkImportJobStatus

pub record BulkImportJobSummary : Type 0 where
  pub id : String
  pub organization_id : String
  pub status : BulkImportJobStatus
  pub total_rows : Option ℕ
  pub valid_rows : Option ℕ
  pub invalid_rows : Option ℕ
  pub result : Option ImportResult
  pub error : Option String
  pub created_at : ℕ
  pub updated_at : ℕ

-- The map of jobs, and the calls of `runInline` that wait for the processor.
pub record Jobs : Type 0 where
  pub world : World
  pub memory : String → Option BulkImportJobSummary
  pub waiting : String → Option BulkImportJobPayload

unfoldable pub set {ℓ} : {A : Type ℓ} → String → A → (String → A) → String → A
set id a m k = if k == id then a else m k

-- `runInline` runs up to the processor's first `await` before the job is returned.
unfoldable pub start_job : ℕ → Option BulkImportJobSummary → Option BulkImportJobSummary
start_job now none = none
start_job now (some job) = some (record job { status = running; updated_at = now })

abbrev pub queued_job : String → BulkImportJobPayload → ℕ → BulkImportJobSummary
queued_job id payload now = record {
  id = id;
  organization_id = payload.user.organization_id;
  status = queued;
  total_rows = none;
  valid_rows = none;
  invalid_rows = none;
  result = none;
  error = none;
  created_at = now;
  updated_at = now;
}

unfoldable pub enqueue_bulk_import : String → BulkImportJobPayload → ℕ → Jobs → Jobs
unfolding set start_job
enqueue_bulk_import id payload now s =
    let memory = set id (some (queued_job id payload now)) s.memory in
    record s {
      memory = set id (start_job now (memory id)) memory;
      waiting = set id (some payload) s.waiting;
    }

-- `Object.assign` with what the processor returned or threw.
unfoldable pub assign_outcome :
    ℕ → String → ImportOutcome → BulkImportJobSummary → BulkImportJobSummary
assign_outcome now reason (imported r) job = record job {
  status = completed;
  total_rows = some r.total_rows;
  valid_rows = some r.valid_rows;
  invalid_rows = some r.invalid_rows;
  result = some r;
  updated_at = now;
}
assign_outcome now reason (unreadable message) job = record job {
  status = failed;
  error = some message;
  updated_at = now;
}
assign_outcome now reason aborted job = record job {
  status = failed;
  error = some reason;
  updated_at = now;
}

unfoldable pub settle_job :
    ℕ → String → ImportOutcome → Option BulkImportJobSummary → Option BulkImportJobSummary
unfolding assign_outcome
settle_job now reason outcome none = none
settle_job now reason outcome (some job) = some (assign_outcome now reason outcome job)

-- The processor's call ends: `reason` is the message of a database that refused.
unfoldable pub finish_job :
    Importer → (ℕ → Context) → String → BulkImportJobPayload → ℕ → String → Jobs → Jobs
unfolding set settle_job run_bulk_import
finish_job env requests id payload now reason s =
    let done = run_bulk_import env requests payload.user payload.csv false s.world in
    record {
      world = done.0;
      memory = set id (settle_job now reason done.1 (s.memory id)) s.memory;
      waiting = set id none s.waiting;
    }

unfoldable pub own_job : String → BulkImportJobSummary → Option BulkImportJobSummary
own_job organization_id job = if job.organization_id == organization_id then some job else none

unfoldable pub get_bulk_import_job : String → String → Jobs → Option BulkImportJobSummary
unfolding own_job
get_bulk_import_job id organization_id s = elim (s.memory id) [
  | none ↦ none
  | some job ↦ own_job organization_id job
]

-- What happens: a job is enqueued, under an identifier that `crypto.randomUUID` never gave before;
-- a waiting call ends, in any sequence; or other code changes the store.
pub data Step (env : Importer) (s : Jobs) : Jobs → Type 0 where
  enqueued :
      (id : String) (payload : BulkImportJobPayload) (now : ℕ)
      → s.memory id ≡ none
      → Step env s (enqueue_bulk_import id payload now s)
  ended :
      (requests : ℕ → Context) (id : String) (payload : BulkImportJobPayload) (now : ℕ)
      (reason : String)
      → s.waiting id ≡ some payload
      → Step env s (finish_job env requests id payload now reason s)
  elsewhere : (w : World) → Step env s (record s { world = w })

pub data Run (env : Importer) (s : Jobs) : Jobs → Type 0 where
  here : Run env s s
  and_then : (t u : Jobs) → Run env s t → Step env t u → Run env s u

abbrev pub no_jobs : World → Jobs
no_jobs w = record { world = w; memory = λ id. none; waiting = λ id. none }
