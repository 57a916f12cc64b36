-- ===== src/Examples/Refreshes.antt =====
-- Two queued refresh jobs of a demo tenant, the second more urgent.
use dealflow_radar.Common.{ℕ, ◌+◌, ◌*◌, ◌≡◌, ◌⊎◌, none, some, true, [], ◌∷◌, length, find_by}
use dealflow_radar.Common.Calendar.{hour, minute, second}
use dealflow_radar.Refresh.Jobs.{
  RefreshJob, queued, Tables, JobLease, lease_lost, is_held, leased_job, complete_job,
}
use dealflow_radar.Refresh.Completion.{complete_job_once}

abbrev job : ℕ → ℕ → RefreshJob
job id priority = record {
  id = id;
  tenant_id = 1;
  company_id = 5;
  job_type = "mock_refresh";
  status = queued;
  priority = priority;
  created_at = 0;
  leased_until = none;
  heartbeat_at = none;
}

abbrev tables : Tables
tables = record { jobs = job 1 0 ∷ job 2 9 ∷ []; snapshots = []; usage = [] }

abbrev lease : JobLease
lease = record { job_id = 2; tenant_id = 1; company_id = 5; leased_until = hour + 60 * second }

abbrev leased_tables : Tables
leased_tables = record tables { jobs = job 1 0 ∷ leased_job 60 hour (job 2 9) ∷ [] }

complete_job_once_example :
    (complete_job lease hour leased_tables ≡ (lease_lost 2, leased_tables))
    ⊎ ((j : RefreshJob) × (find_by (λ (x : RefreshJob). x.id) 2 leased_tables.jobs ≡ some j)
        × (is_held lease hour j ≡ true)
        × (length (complete_job lease hour leased_tables).1.usage ≡ 0 + 1)
        × (length (complete_job lease hour leased_tables).1.jobs ≡ 2)
        × (length (complete_job lease hour leased_tables).1.snapshots ≡ 0)
        × (complete_job lease (hour + minute) (complete_job lease hour leased_tables).1
            ≡ (lease_lost 2, (complete_job lease hour leased_tables).1)))
complete_job_once_example = complete_job_once lease hour (hour + minute) leased_tables
