-- ===== src/Server/Scheduled.antt =====
-- The intervals of the scheduler's jobs after the calls that `lifespan` and `update_app_settings` of
-- app/main.py make.
use heltec_wifi_optimization.Prelude.{
  ℕ, ◌≡◌, refl, sym, ap, subst, ◌∙◌, Bool, true, false, Option, none, some, List, [], ◌∷◌, Result,
  ok, raise, if◌then◌else◌,
}
use heltec_wifi_optimization.Db.{AppSettings}
use heltec_wifi_optimization.Settings.{AppSettingsUpdate, stored_settings}
use heltec_wifi_optimization.Server.{
  Job, run_optimizer_pass, check_device_liveness, poll_telemetry, apply_pending_commands,
  check_in_flight_commands, poll_backups, Scheduler, add_jobs, then_reschedule, reschedule_jobs,
  jobs_at_start, jobs_at_update,
}

-- the setting that a job's interval is
abbrev pub interval_of : AppSettings → Job → ℕ
interval_of settings run_optimizer_pass = settings.optimizer_interval_seconds
interval_of settings check_device_liveness = settings.liveness_check_interval_seconds
interval_of settings poll_telemetry = settings.ssh_poll_interval_seconds
interval_of settings apply_pending_commands = settings.command_poll_interval_seconds
interval_of settings check_in_flight_commands = settings.command_poll_interval_seconds
interval_of settings poll_backups = settings.backup_poll_interval_seconds

abbrev pub same_job : Job → Job → Bool
same_job run_optimizer_pass run_optimizer_pass = true
same_job check_device_liveness check_device_liveness = true
same_job poll_telemetry poll_telemetry = true
same_job apply_pending_commands apply_pending_commands = true
same_job check_in_flight_commands check_in_flight_commands = true
same_job poll_backups poll_backups = true
same_job _ _ = false

-- The abstract scheduler: a map from the ids to the intervals.
abbrev pub assign : Job → ℕ → (Job → Option ℕ) → Job → Option ℕ
assign job n f j = if same_job job j then some n else f j

abbrev pub assign_all : List (Job × ℕ) → (Job → Option ℕ) → Job → Option ℕ
assign_all [] f = f
assign_all ((job, n) ∷ rest) f = assign_all rest (assign job n f)

-- What APScheduler documents: an id that is new is added, one that is there is given the interval.
pub record IsScheduler {S : Type 0} (sch : Scheduler S) (interval : Job → S → Option ℕ)
    : Type 0 where
  pub added :
      (job : Job) (n : ℕ) (s : S)
      → interval job s ≡ none
      → (j : Job) → interval j (sch.add_job job n s) ≡ assign job n (λ i. interval i s) j
  pub rescheduled :
      (job : Job) (n m : ℕ) (s : S)
      → interval job s ≡ some m
      → (sch.reschedule_job job n s).0 ≡ ok tt
  pub interval_set :
      (job : Job) (n m : ℕ) (s : S)
      → interval job s ≡ some m
      → (j : Job) → interval j (sch.reschedule_job job n s).1 ≡ assign job n (λ i. interval i s) j
  pub started : (j : Job) (s : S) → interval j (sch.start s) ≡ interval j s

-- each job is new when it is added; each is there when it is rescheduled
abbrev pub AllNew : List (Job × ℕ) → (Job → Option ℕ) → Type 0
AllNew [] f = Unit
AllNew ((job, n) ∷ rest) f = (f job ≡ none) × AllNew rest (assign job n f)

abbrev pub AllThere : List (Job × ℕ) → (Job → Option ℕ) → Type 0
AllThere [] f = Unit
AllThere ((job, n) ∷ rest) f = ((m : ℕ) × (f job ≡ some m)) × AllThere rest (assign job n f)

-- The abstract scheduler of the settings.
abbrev pub scheduled_by : AppSettings → Job → Option ℕ
scheduled_by settings job = some (interval_of settings job)

-- The calls of both lists give each job its interval.
pub scheduled_by_start :
    (settings : AppSettings) (j : Job)
    → assign_all (jobs_at_start settings) (λ _. none) j ≡ scheduled_by settings j
unfolding jobs_at_start
scheduled_by_start settings run_optimizer_pass = refl
scheduled_by_start settings check_device_liveness = refl
scheduled_by_start settings poll_telemetry = refl
scheduled_by_start settings apply_pending_commands = refl
scheduled_by_start settings check_in_flight_commands = refl
scheduled_by_start settings poll_backups = refl

pub scheduled_by_update :
    (u : AppSettingsUpdate ℕ) (row : AppSettings) (f : Job → Option ℕ) (j : Job)
    → assign_all (jobs_at_update u) f j ≡ scheduled_by (stored_settings u row) j
unfolding jobs_at_update stored_settings
scheduled_by_update u row f run_optimizer_pass = refl
scheduled_by_update u row f check_device_liveness = refl
scheduled_by_update u row f poll_telemetry = refl
scheduled_by_update u row f apply_pending_commands = refl
scheduled_by_update u row f check_in_flight_commands = refl
scheduled_by_update u row f poll_backups = refl

module _ {S : Type 0} (sch : Scheduler S) (interval : Job → S → Option ℕ) where
  -- the scheduler has these intervals
  abbrev pub Shows : S → (Job → Option ℕ) → Type 0
  Shows s f = (j : Job) → interval j s ≡ f j

  Shows-assign :
      (job : Job) (n : ℕ) {s s' : S} {f : Job → Option ℕ}
      → Shows s f
      → ((j : Job) → interval j s' ≡ assign job n (λ i. interval i s) j)
      → Shows s' (assign job n f)
  Shows-assign job n shows step j =
      step j ∙ ap (λ old. if same_job job j then some n else old) (shows j)

  pub add_jobs-Shows :
      IsScheduler sch interval
      → (jobs : List (Job × ℕ)) (s : S) (f : Job → Option ℕ) → Shows s f
      → AllNew jobs f
      → Shows (add_jobs sch jobs s) (assign_all jobs f)
  add_jobs-Shows law [] s f shows new = shows
  add_jobs-Shows law ((job, n) ∷ rest) s f shows (new, news) =
      add_jobs-Shows law rest (sch.add_job job n s) (assign job n f)
        (Shows-assign job n shows (law.added job n s (shows job ∙ new))) news

  then_reschedule_ok :
      (next : S → Result (Unit {0}) × S) (step : Result (Unit {0}) × S)
      → step.0 ≡ ok tt
      → then_reschedule sch next step ≡ next step.1
  then_reschedule_ok next (ok tt, s) h = refl
  then_reschedule_ok next (raise e, s) h = cc

  pub reschedule_jobs-Shows :
      IsScheduler sch interval
      → (jobs : List (Job × ℕ)) (s : S) (f : Job → Option ℕ) → Shows s f
      → AllThere jobs f
      → let (result, s') = reschedule_jobs sch jobs s in
        (result ≡ ok tt) × Shows s' (assign_all jobs f)
  reschedule_jobs-Shows law [] s f shows there = (refl, shows)
  reschedule_jobs-Shows law ((job, n) ∷ rest) s f shows ((m, there), theres) =
      subst (λ p. (p.0 ≡ ok tt) × Shows p.1 (assign_all rest (assign job n f)))
        (sym (
          then_reschedule_ok (reschedule_jobs sch rest) (sch.reschedule_job job n s)
            (law.rescheduled job n m s (shows job ∙ there))))
        (reschedule_jobs-Shows law rest (sch.reschedule_job job n s).1 (assign job n f)
          (Shows-assign job n shows (law.interval_set job n m s (shows job ∙ there))) theres)
