-- ===== src/Sources/Schedule.antt =====
-- `_source_due_at` and `queue_due_source_checks`. The texts of ids are compared as the numbers that
-- stand for them.
use dealflow_radar.Common.{
  ℕ, ◌+◌, ◌*◌, ◌-◌, ◌^◌, min, String, none, some, Bool, true, false, not, ◌&&◌, ◌||◌, List, [], ◌∷◌,
  map, any, length, take, ◌==◌, leb, ltb, if◌then◌else◌, Result, ok, err, ◌>>◌, guard, keep,
  sort_by,
}
use dealflow_radar.Common.Calendar.{minute}
use dealflow_radar.Sources.Data.{
  Db, User, Source, Run, Policy, Error, access_denied, must_stay_disabled, calls_required,
  scheduled, is_active_of,
}
use dealflow_radar.Sources.Queue.{Request, queue_each}

unfoldable pub due_after : Policy → Source → ℕ → ℕ
due_after p s checked =
    checked
    + s.check_frequency_minutes
      * min (2 ^ s.consecutive_failures) p.failure_backoff_max_multiplier
      * minute

-- `_source_due_at`
unfoldable pub source_due_at : Policy → Source → ℕ
source_due_at p s = elim s.last_checked_at [ none ↦ s.created_at | some t ↦ due_after p s t ]

-- The switches of `Settings` that the scheduler reads.
pub record Switches : Type 0 where
  pub paid_api_calls_enabled : Bool
  pub auto_publish_enabled : Bool
  pub auto_refresh_enabled : Bool
  pub source_monitor_scheduler_enabled : Bool
  pub external_calls_enabled : Bool
  pub trusted_source_calls_enabled : Bool

unfoldable pub permitted : Bool → Switches → Result Error (Unit {0})
permitted true w = ok tt
permitted false w = do
  guard (not (w.paid_api_calls_enabled || w.auto_publish_enabled)) must_stay_disabled
  guard
      (w.auto_refresh_enabled && w.source_monitor_scheduler_enabled && w.external_calls_enabled
        && w.trusted_source_calls_enabled)
      calls_required

-- An enabled source of the tenant that has no active run and whose time has come.
unfoldable pub is_due : User → Policy → ℕ → List Run → Source → Bool
is_due user p now runs s =
    s.tenant_id == user.tenant_id
    && s.enabled
    && not (any (λ r. r.tenant_id == user.tenant_id && is_active_of s.id r) runs)
    && leb (source_due_at p s) now

-- `key=lambda item: (item[1], str(item[0].id))`
unfoldable pub due_order : Policy → Source → Source → Bool
due_order p a b =
    ltb (source_due_at p a) (source_due_at p b)
    || ((source_due_at p a == source_due_at p b) && leb a.id b.id)

unfoldable pub due_sources : User → Policy → ℕ → Db → List Source
unfolding due_order
due_sources user p now db = sort_by (due_order p) (keep (is_due user p now db.runs) db.sources)

unfoldable pub selected : User → Policy → ℕ → Db → List Source
selected user p now db = take p.scheduler_max_sources_per_run (due_sources user p now db)

unfoldable pub scheduled_request : (ℕ → ℕ → String) → Policy → Source → Request
scheduled_request schedule_key p s = record {
  source_id = s.id;
  dry_run = false;
  trigger_type = scheduled;
  scheduled_for = some (source_due_at p s);
  idempotency_key = some (schedule_key s.id (source_due_at p s));
}

pub data ScheduleStatus : Type 0 where
  dry_run queued idle : ScheduleStatus

-- `SourceScheduleResult`
pub record ScheduleResult : Type 0 where
  pub status : ScheduleStatus
  pub due_count : ℕ
  pub queued_count : ℕ
  pub deferred_count : ℕ
  pub source_ids : List ℕ

is_empty : List Run → Bool
is_empty [] = true
is_empty (r ∷ rs) = false

-- The usage row is added where something was queued.
unfoldable pub record_schedule : ℕ → ℕ → ℕ → List Run → Db → ScheduleResult × Db
unfolding is_empty
record_schedule now due deferred runs db = (
  record {
    status = if is_empty runs then idle else queued;
    due_count = due;
    queued_count = length runs;
    deferred_count = deferred;
    source_ids = map (λ r. r.trusted_source_id) runs;
  },
  if is_empty runs then db else record db {
    schedules =
        (record {
          scheduled_at = now;
          due_count = due;
          queued_count = length runs;
          deferred_count = deferred;
          source_ids = map (λ r. r.trusted_source_id) runs;
        })
        ∷ db.schedules;
  },
)

unfoldable pub schedule_outcome :
    ℕ → ℕ → ℕ → Result Error (List Run) × Db → Result Error ScheduleResult × Db
unfolding record_schedule
schedule_outcome now due deferred (err e, db) = (err e, db)
schedule_outcome now due deferred (ok runs, db) =
    let (r, db') = record_schedule now due deferred runs db in (ok r, db')

unfoldable pub schedule_due :
    Bool
    → (ℕ → String)
    → (ℕ → ℕ → String)
    → (ℕ → ℕ)
    → User
    → Policy
    → ℕ
    → Db
    → Result Error ScheduleResult × Db
unfolding schedule_outcome scheduled_request
schedule_due true run_key schedule_key ids user p now db = (
  ok (record {
    status = dry_run;
    due_count = length (due_sources user p now db);
    queued_count = 0;
    deferred_count = length (due_sources user p now db) - length (selected user p now db);
    source_ids = map (λ s. s.id) (selected user p now db);
  }),
  db,
)
schedule_due false run_key schedule_key ids user p now db =
    schedule_outcome now (length (due_sources user p now db))
      (length (due_sources user p now db) - length (selected user p now db))
      (queue_each run_key ids now user p
        (map (scheduled_request schedule_key p) (selected user p now db)) 0 db)

unfoldable pub schedule_checked :
    Result Error (Unit {0})
    → Bool
    → (ℕ → String)
    → (ℕ → ℕ → String)
    → (ℕ → ℕ)
    → User
    → Policy
    → ℕ
    → Db
    → Result Error ScheduleResult × Db
unfolding schedule_due
schedule_checked (err e) dry run_key schedule_key ids user p now db = (err e, db)
schedule_checked (ok _) dry run_key schedule_key ids user p now db =
    schedule_due dry run_key schedule_key ids user p now db

-- `queue_due_source_checks`; `schedule_key` is the digest of `trusted-source-scheduled:<id>:<due>`.
unfoldable pub queue_due_source_checks :
    Bool
    → Switches
    → (ℕ → String)
    → (ℕ → ℕ → String)
    → (ℕ → ℕ)
    → User
    → Policy
    → ℕ
    → Db
    → Result Error ScheduleResult × Db
unfolding schedule_checked
queue_due_source_checks dry w run_key schedule_key ids user p now db =
    schedule_checked (guard user.is_platform_admin access_denied >> permitted dry w) dry run_key
      schedule_key ids user p now db
