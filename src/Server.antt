-- ===== src/Server.antt =====
-- The start of the server and the request that changes its settings: `lifespan` and
-- `update_app_settings` of app/main.py, `ensure_retention_policies` of app/db.py.
--
-- APScheduler and TimescaleDB are parameters: interfaces over a state `S` of the scheduler and a
-- state `T` of the retention policies. What is due when is the scheduler's own affair; here a job
-- is its id and its interval.
pub mod Retention
pub mod Scheduled
pub mod Restart
pub mod Shown
use heltec_wifi_optimization.Prelude.{
  ℕ, zero, suc, Bool, true, false, ◌==◌, Option, none, some, List, [], ◌∷◌, Error, Result, ok,
  raise, value_error, if◌then◌else◌,
}
use heltec_wifi_optimization.Db.{Db, ℤ, AppSettings}
use heltec_wifi_optimization.Settings.{
  AppSettingsUpdate, check_update, parse_body, fit_integer, app_integers, store_settings,
}

-- the ids that `lifespan` gives the jobs
pub data Job : Type 0 where
  run_optimizer_pass check_device_liveness poll_telemetry : Job
  apply_pending_commands check_in_flight_commands poll_backups : Job

-- the calls of APScheduler; the numbers are seconds
pub record Scheduler (S : Type 0) : Type 0 where
  pub add_job : Job → ℕ → S → S
  pub reschedule_job : Job → ℕ → S → Result (Unit {0}) × S
  pub start : S → S

-- the tables with a retention policy
pub data Hypertable : Type 0 where
  telemetry radio_clients : Hypertable

-- the functions of TimescaleDB; the numbers are days
pub record Timescale (T : Type 0) : Type 0 where
  -- `if_not_exists => true`
  pub add_retention_policy : Hypertable → ℕ → T → Result (Unit {0}) × T
  -- `if_exists => true`
  pub remove_retention_policy : Hypertable → T → Result (Unit {0}) × T

module _ {T : Type 0} (timescale : Timescale T) where
  -- The statement for one table, and the loop's body: an exception is logged, whatever it is.
  unfoldable pub policy_statement : ℕ → Hypertable → T → Result (Unit {0}) × T
  policy_statement zero table t = timescale.remove_retention_policy table t
  policy_statement (suc days) table t = timescale.add_retention_policy table (suc days) t

  unfoldable pub ensure_policy : ℕ → Hypertable → T → T
  unfolding policy_statement
  ensure_policy days table t = (policy_statement days table t).1

  unfoldable pub ensure_retention_policies : ℕ → T → T
  unfolding ensure_policy
  ensure_retention_policies days t =
      ensure_policy days radio_clients (ensure_policy days telemetry t)

module _ {S : Type 0} (scheduler : Scheduler S) where
  abbrev pub add_jobs : List (Job × ℕ) → S → S
  add_jobs [] s = s
  add_jobs ((job, interval) ∷ rest) s = add_jobs rest (scheduler.add_job job interval s)

  abbrev pub then_reschedule :
      (S → Result (Unit {0}) × S) → Result (Unit {0}) × S → Result (Unit {0}) × S
  then_reschedule next (ok tt, s) = next s
  then_reschedule next (raise e, s) = (raise e, s)

  -- The calls in a row: an exception of one leaves out the rest.
  abbrev pub reschedule_jobs : List (Job × ℕ) → S → Result (Unit {0}) × S
  reschedule_jobs [] s = (ok tt, s)
  reschedule_jobs ((job, interval) ∷ rest) s =
      then_reschedule (reschedule_jobs rest) (scheduler.reschedule_job job interval s)

-- the calls of `add_job` in `lifespan`, in their order
unfoldable pub jobs_at_start : AppSettings → List (Job × ℕ)
jobs_at_start settings =
    (run_optimizer_pass, settings.optimizer_interval_seconds)
    ∷ (check_device_liveness, settings.liveness_check_interval_seconds)
    ∷ (poll_telemetry, settings.ssh_poll_interval_seconds)
    ∷ (apply_pending_commands, settings.command_poll_interval_seconds)
    ∷ (check_in_flight_commands, settings.command_poll_interval_seconds)
    ∷ (poll_backups, settings.backup_poll_interval_seconds)
    ∷ []

-- the calls of `reschedule_job` in `update_app_settings`, in their order
unfoldable pub jobs_at_update : AppSettingsUpdate ℕ → List (Job × ℕ)
jobs_at_update update =
    (poll_telemetry, update.ssh_poll_interval_seconds)
    ∷ (apply_pending_commands, update.command_poll_interval_seconds)
    ∷ (check_in_flight_commands, update.command_poll_interval_seconds)
    ∷ (poll_backups, update.backup_poll_interval_seconds)
    ∷ (run_optimizer_pass, update.optimizer_interval_seconds)
    ∷ (check_device_liveness, update.liveness_check_interval_seconds)
    ∷ []

-- what a request to the settings works on
pub record Server (F S T : Type 0) : Type 0 where
  pub db : Db F
  pub jobs : S
  pub policies : T

module _ {F S T : Type 0} (scheduler : Scheduler S) (timescale : Timescale T) where
  -- `lifespan`, as far as its `yield`, with the scheduler as it is imported
  unfoldable pub lifespan : S → Db F → T → Server F S T
  unfolding jobs_at_start ensure_retention_policies
  lifespan jobs db policies = record {
    db = db;
    jobs = scheduler.start (add_jobs scheduler (jobs_at_start db.app_settings) jobs);
    policies =
        ensure_retention_policies timescale db.app_settings.telemetry_retention_days policies;
  }

  -- After the rescheduling: an exception leaves the policies alone.
  abbrev pub then_ensure : ℕ → Db F → T → Result (Unit {0}) × S → Result (Unit {0}) × Server F S T
  then_ensure days db policies (raise e, jobs) =
      (raise e, record { db = db; jobs = jobs; policies = policies })
  then_ensure days db policies (ok tt, jobs) = (
    ok tt,
    record { db = db; jobs = jobs; policies = ensure_retention_policies timescale days policies },
  )

  abbrev pub apply_update :
      Result (AppSettingsUpdate ℕ) → Server F S T → Result (Unit {0}) × Server F S T
  apply_update (raise e) s = (raise e, s)
  apply_update (ok update) s =
      if fit_integer (app_integers update)
      then then_ensure update.telemetry_retention_days (store_settings update s.db) s.policies
          (reschedule_jobs scheduler (jobs_at_update update) s.jobs)
      else (raise value_error, s)

  unfoldable pub update_app_settings :
      Option (AppSettingsUpdate ℤ) → Server F S T → Result (Unit {0}) × Server F S T
  unfolding check_update fit_integer app_integers store_settings jobs_at_update
      ensure_retention_policies
  update_app_settings body s = apply_update (parse_body check_update body) s
