-- ===== src/Watch/Outcome.antt =====
-- `record_outcome`: what the end of a job does to the schedule of its company. `now` is the clock at
-- the call, and `after` the semantic version of the company then.
use dealflow_radar.Common.{
  ℕ, ◌+◌, ◌-◌, ◌*◌, ◌^◌, min, max, String, Option, none, some, Bool, true, false, not, ◌&&◌, List,
  [], ◌∷◌, length, ◌==◌, leb, ltb, if◌then◌else◌, is_number, is_none, or_else, same_text,
}
use dealflow_radar.Common.Calendar.{hour, day}
use dealflow_radar.Budget.Reconcile.{
  JobStatus, queued, running, partial, completed, failed, cancelled, budget_deferred,
}
use dealflow_radar.Watch.Data.{
  Policy, OutcomeKey, Schedule, CategoryRow, Job, category_count, interval_days, same_status,
  status_text,
}

unfoldable pub same_time : Option ℕ → Option ℕ → Bool
same_time none none = true
same_time (some a) (some b) = a == b
same_time _ _ = false

unfoldable pub is_key : OutcomeKey → Option OutcomeKey → Bool
is_key a none = false
is_key a (some b) =
    b.job_id == a.job_id && same_status b.status a.status && same_time b.heartbeat a.heartbeat

unfoldable pub outcome_key : Job → OutcomeKey
outcome_key j = record { job_id = j.id; status = j.status; heartbeat = j.heartbeat_at }

-- The statuses that end a job.
unfoldable pub is_final : JobStatus → Bool
is_final completed = true
is_final cancelled = true
is_final failed = true
is_final budget_deferred = true
is_final queued = false
is_final running = false
is_final partial = false

unfoldable pub earlier_of : ℕ → Option ℕ → Option ℕ
earlier_of t none = none
earlier_of t (some u) = some (min t u)

-- The earliest time of the rows, where all are completed and have one.
unfoldable pub earliest : CategoryRow → List CategoryRow → Option ℕ
earliest r [] = if r.is_completed then r.last_successful_check_at else none
earliest r (x ∷ xs) =
    let rest = earliest x xs in
    if r.is_completed
    then elim r.last_successful_check_at [ none ↦ none | some t ↦ earlier_of t rest ]
    else none

unfoldable pub checked_at : List CategoryRow → Option ℕ
checked_at [] = none
checked_at (r ∷ rs) = if length (r ∷ rs) == category_count then earliest r rs else none

unfoldable pub is_complete : Job → Bool
is_complete j =
    same_status j.status completed
    && leb j.candidate_count j.candidate_index
    && is_none j.stop_reason

-- `checked`, where the job was successful.
unfoldable pub success : Job → Option ℕ
success j = if is_complete j then checked_at j.rows else none

unfoldable pub is_newer : ℕ → Option ℕ → Bool
is_newer t none = true
is_newer t (some u) = ltb u t

-- `changed`
unfoldable pub change_of : Option String → String → Option Bool
change_of none after = none
change_of (some before) after = some (not (same_text before after))

unfoldable pub next_runs : Option Bool → ℕ → ℕ
next_runs none n = n
next_runs (some true) n = 0
next_runs (some false) n = n + 1

unfoldable pub change_text : Option Bool → String
change_text none = "not_recorded"
change_text (some true) = "changed"
change_text (some false) = "unchanged"

-- What a success with a newer check time writes first.
unfoldable pub newly_checked : ℕ → String → Job → Schedule → Schedule
newly_checked checked after j s = record s {
  last_successful_check_at = some checked;
  consecutive_no_change_runs =
      next_runs (change_of j.semantic_before after) s.consecutive_no_change_runs;
}

unfoldable pub compared : String → Job → Job
compared after j = record j {
  semantic_after = some after;
  business_change = some (change_text (change_of j.semantic_before after));
}

unfoldable pub keyed : Policy → ℕ → Job → Schedule → Schedule
keyed p now j s = record s {
  last_outcome_key = some (outcome_key j);
  last_job_id = some j.id;
  last_attempt_at = some (or_else j.heartbeat_at now);
  policy_version = p.version;
  cooldown_until = some (now + p.cooldown_hours * hour);
}

unfoldable pub after_success : Policy → ℕ → ℕ → Schedule → Schedule
after_success p now checked s = record s {
  consecutive_failures = 0;
  last_outcome = "succeeded";
  next_check_at =
      max (now + p.cooldown_hours * hour)
        (checked + interval_days p s.consecutive_no_change_runs * day);
}

-- `wait`, in hours, after this many failures in a row.
unfoldable pub failure_wait : Policy → ℕ → ℕ
failure_wait p failures =
    min (p.cooldown_hours * 2 ^ min (failures - 1) 10) (p.failure_backoff_max_days * 24)

unfoldable pub after_failure : Policy → ℕ → Job → Schedule → Schedule
after_failure p now j s = record s {
  consecutive_failures = s.consecutive_failures + 1;
  last_outcome = if same_status j.status completed then "partial" else status_text j.status;
  next_check_at = now + failure_wait p (s.consecutive_failures + 1) * hour;
  cooldown_until = some (now + failure_wait p (s.consecutive_failures + 1) * hour);
}

unfoldable pub write_outcome : Option ℕ → Policy → ℕ → String → Job → Schedule → Schedule × Job
write_outcome none p now after j s = (after_failure p now j (keyed p now j s), j)
write_outcome (some checked) p now after j s =
    if is_newer checked s.last_successful_check_at
    then (
      after_success p now checked (newly_checked checked after j (keyed p now j s)),
      compared after j,
    )
    else (after_success p now checked (keyed p now j s), j)

unfoldable pub checking : Job → Schedule → Schedule
checking j s =
    if is_number j.id s.last_job_id
    then record s { last_outcome = "checking"; last_attempt_at = j.heartbeat_at }
    else s

-- `record_outcome` on the schedule of the job's company, where there is one.
unfoldable pub record_outcome : Policy → ℕ → String → Job → Schedule → Schedule × Job
record_outcome p now after j s =
    if not (is_final j.status)
    then (checking j s, j)
    else if is_key (outcome_key j) s.last_outcome_key
    then (s, j)
    else write_outcome (success j) p now after j s
