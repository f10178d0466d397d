-- ===== src/Examples/ServerRuns.antt =====
-- The theorems on the settings at a scheduler that is a map and at a database with two tables.
use heltec_wifi_optimization.Prelude.{
  ℕ, zero, suc, ◌≡◌, refl, Option, none, some, [], ◌∷◌, Error, value_error, Result, ok, raise,
}
use heltec_wifi_optimization.Db.{ℤ, pos, negsuc}
use heltec_wifi_optimization.Settings.{AppSettingsUpdate, get_app_settings}
use heltec_wifi_optimization.Thresholds.{set_optimizer_settings, get_optimizer_settings}
use heltec_wifi_optimization.Thresholds.Stored.{as_body, IsStored, set_optimizer_settings-IsStored}
use heltec_wifi_optimization.Server.{
  Job, run_optimizer_pass, Scheduler, Hypertable, telemetry, radio_clients, Timescale,
  policy_statement, Server, lifespan, update_app_settings, ensure_retention_policies,
}
use heltec_wifi_optimization.Server.Scheduled.{assign, IsScheduler}
use heltec_wifi_optimization.Server.Restart.{lifespan-IsRunning, requests, requests-lifespan}
use heltec_wifi_optimization.Server.Shown.{as_sent, Outcome, update_app_settings-Outcome}
use heltec_wifi_optimization.Server.Retention.{
  IsTimescale, IsEnsured, ensure_retention_policies-IsEnsured,
}
use heltec_wifi_optimization.Examples.Data.{empty, thousandths}

-- a scheduler that is the map from the ids to the intervals
abbrev reschedule : Option ℕ → Job → ℕ → (Job → Option ℕ) → Result (Unit {0}) × (Job → Option ℕ)
reschedule none job n s = (raise value_error, s)
reschedule (some m) job n s = (ok tt, assign job n s)

abbrev map_scheduler : Scheduler (Job → Option ℕ)
map_scheduler = record {
  add_job = assign;
  reschedule_job = λ job n s. reschedule (s job) job n s;
  start = λ s. s;
}

abbrev map_interval : Job → (Job → Option ℕ) → Option ℕ
map_interval job s = s job

map_scheduler-IsScheduler : IsScheduler map_scheduler map_interval
map_scheduler-IsScheduler = record {
  added = λ job n s new j. refl;
  rescheduled = λ job n m s there. simp (there) refl;
  interval_set = λ job n m s there j. simp (there) refl;
  started = λ j s. refl;
}

-- the two tables' policies, in a database without a `radio_clients` hypertable to add one to
abbrev add_to : Hypertable → ℕ → Option ℕ × Option ℕ → Result (Unit {0}) × (Option ℕ × Option ℕ)
add_to telemetry days (none, q) = (ok tt, (some days, q))
add_to telemetry days (some old, q) = (ok tt, (some old, q))
add_to radio_clients days (p, q) = (raise value_error, (p, q))

abbrev remove_from : Hypertable → Option ℕ × Option ℕ → Result (Unit {0}) × (Option ℕ × Option ℕ)
remove_from telemetry (p, q) = (ok tt, (none, q))
remove_from radio_clients (p, q) = (ok tt, (p, none))

abbrev two_tables : Timescale (Option ℕ × Option ℕ)
two_tables = record { add_retention_policy = add_to; remove_retention_policy = remove_from }

abbrev policy_of : Hypertable → Option ℕ × Option ℕ → Option ℕ
policy_of telemetry (p, q) = p
policy_of radio_clients (p, q) = q

abbrev server : Server ℕ (Job → Option ℕ) (Option ℕ × Option ℕ)
server = lifespan map_scheduler two_tables (λ _. none) empty (none, none)

abbrev body : AppSettingsUpdate ℤ
body = record (as_sent (get_app_settings empty) (some "secret")) {
  optimizer_interval_seconds = pos 60;
  telemetry_retention_days = pos 14;
}

abbrev refused_body : AppSettingsUpdate ℤ
refused_body = record body { optimizer_interval_seconds = negsuc 0 }

requests-lifespan_example :
    let s = requests map_scheduler two_tables (some body ∷ some refused_body ∷ none ∷ []) server in
    map_interval run_optimizer_pass s.jobs
    ≡ map_interval run_optimizer_pass
        (lifespan map_scheduler two_tables (λ _. none) s.db s.policies).jobs
requests-lifespan_example =
    requests-lifespan map_scheduler two_tables map_interval map_scheduler-IsScheduler (λ _. none)
      empty (none, none) (λ _. refl) (some body ∷ some refused_body ∷ none ∷ []) run_optimizer_pass

update_app_settings-Outcome_example :
    let (result, s') = update_app_settings map_scheduler two_tables (some body) server in
    Outcome server (some body) result s'
update_app_settings-Outcome_example =
    update_app_settings-Outcome map_scheduler two_tables map_interval map_scheduler-IsScheduler
      (some body) server
      (lifespan-IsRunning map_scheduler two_tables map_interval map_scheduler-IsScheduler
        (λ _. none) empty (none, none) (λ _. refl))

added_new :
    (table : Hypertable) (days : ℕ) (t : Option ℕ × Option ℕ)
    → (add_to table days t).0 ≡ ok tt
    → policy_of table t ≡ none
    → policy_of table (add_to table days t).1 ≡ some days
added_new telemetry days (none, q) done absent = refl
added_new telemetry days (some old, q) done absent = cc
added_new radio_clients days (p, q) done absent = cc

added_old :
    (table : Hypertable) (days : ℕ) (t : Option ℕ × Option ℕ) (old : ℕ)
    → (add_to table days t).0 ≡ ok tt
    → policy_of table t ≡ some old
    → policy_of table (add_to table days t).1 ≡ some old
added_old telemetry days (none, q) old done there = cc
added_old telemetry days (some o, q) old done there = there
added_old radio_clients days (p, q) old done there = there

add_failed :
    (table : Hypertable) (days : ℕ) (t : Option ℕ × Option ℕ) (e : Error)
    → (add_to table days t).0 ≡ raise e
    → policy_of table (add_to table days t).1 ≡ policy_of table t
add_failed telemetry days (none, q) e fails = cc
add_failed telemetry days (some o, q) e fails = refl
add_failed radio_clients days (p, q) e fails = refl

removed :
    (table : Hypertable) (t : Option ℕ × Option ℕ) → policy_of table (remove_from table t).1 ≡ none
removed telemetry (p, q) = refl
removed radio_clients (p, q) = refl

remove_failed :
    (table : Hypertable) (t : Option ℕ × Option ℕ) (e : Error)
    → (remove_from table t).0 ≡ raise e
    → policy_of table (remove_from table t).1 ≡ policy_of table t
remove_failed telemetry (p, q) e fails = cc
remove_failed radio_clients (p, q) e fails = cc

others_alone :
    (days : ℕ) (t : Option ℕ × Option ℕ)
    → (policy_of radio_clients (policy_statement two_tables days telemetry t).1
        ≡ policy_of radio_clients t)
      × (policy_of telemetry (policy_statement two_tables days radio_clients t).1
          ≡ policy_of telemetry t)
unfolding policy_statement
others_alone zero (p, q) = (refl, refl)
others_alone (suc days) (none, q) = (refl, refl)
others_alone (suc days) (some old, q) = (refl, refl)

two_tables-IsTimescale : IsTimescale two_tables policy_of
two_tables-IsTimescale = record {
  added_new = added_new;
  added_old = added_old;
  removed = λ table t done. removed table t;
  add_failed = add_failed;
  remove_failed = remove_failed;
  others_alone = others_alone;
}

ensure_retention_policies-IsEnsured_example :
    let t' = ensure_retention_policies two_tables 14 (none, none) in
    IsEnsured two_tables policy_of 14 telemetry none (policy_of telemetry t')
    × IsEnsured two_tables policy_of 14 radio_clients none (policy_of radio_clients t')
ensure_retention_policies-IsEnsured_example =
    ensure_retention_policies-IsEnsured two_tables policy_of two_tables-IsTimescale 14 (none, none)

set_optimizer_settings-IsStored_example :
    let (result, db') =
      set_optimizer_settings (some (as_body (get_optimizer_settings empty))) empty in
    IsStored (some (as_body (get_optimizer_settings empty))) empty result db'
set_optimizer_settings-IsStored_example =
    set_optimizer_settings-IsStored (some (as_body (get_optimizer_settings empty))) empty
