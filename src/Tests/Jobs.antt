-- ===== src/Tests/Jobs.antt =====
-- The theorem on import jobs, at a job that runs and ends while another one waits.
use real_time_logistics_plat.Common.{true, false, none, some, ◌≡◌, refl, Option}
use real_time_logistics_plat.Bulk.Import.{Importer, invalid}
use real_time_logistics_plat.Bulk.Jobs.{
  BulkImportJobPayload, BulkImportJobStatus, failed, running, BulkImportJobSummary, Jobs,
  enqueue_bulk_import, finish_job, get_bulk_import_job, enqueued, ended, Run, here, and_then,
  no_jobs,
}
use real_time_logistics_plat.Csv.{chars}
use real_time_logistics_plat.Bulk.Settled.{Agrees}
use real_time_logistics_plat.Bulk.Later.{IsLater, import_jobs_settle}
use real_time_logistics_plat.Tests.Data.{clerk, request, world}

abbrev importer : Importer
importer = record {
  lower = λ s. s;
  validate = λ i. invalid none "no order";
  service_area = λ tenant point. record { enforced = false; in_service_area = false };
}

abbrev payload : BulkImportJobPayload
payload = record { user = clerk; csv = "a" }

abbrev one : Jobs
one = enqueue_bulk_import "j1" payload 7 (no_jobs world)

abbrev two : Jobs
two = enqueue_bulk_import "j2" payload 8 one

abbrev ended_one : Jobs
ended_one = finish_job importer (λ i. request true) "j1" payload 9 "lost" two

to_two : Run importer (no_jobs world) two
unfolding enqueue_bulk_import
to_two =
    and_then one two (and_then (no_jobs world) one here (enqueued "j1" payload 7 refl))
      (enqueued "j2" payload 8 refl)

to_ended : Run importer two ended_one
unfolding enqueue_bulk_import
to_ended = and_then two ended_one here (ended (λ i. request true) "j1" payload 9 "lost" refl)

import_jobs_settle_example :
    Agrees (ended_one.memory "j1") (ended_one.waiting "j1")
    × IsLater (two.memory "j1") (ended_one.memory "j1")
import_jobs_settle_example = import_jobs_settle importer world two ended_one to_two to_ended "j1"

-- The file has no line but its header, so the job fails; the other one runs.
abbrev status_of : Option BulkImportJobSummary → Option BulkImportJobStatus
status_of none = none
status_of (some job) = some job.status

statuses :
    (status_of (get_bulk_import_job "j1" "t1" ended_one) ≡ some failed)
    × (status_of (get_bulk_import_job "j2" "t1" ended_one) ≡ some running)
unfolding enqueue_bulk_import finish_job get_bulk_import_job chars
statuses = (refl, refl)

unknown_to_others : get_bulk_import_job "j1" "t2" ended_one ≡ none
unfolding enqueue_bulk_import finish_job get_bulk_import_job chars
unknown_to_others = refl
