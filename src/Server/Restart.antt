-- ===== src/Server/Restart.antt =====
-- The intervals of the jobs after the start of the server and after requests to its settings
-- (`lifespan` and `update_app_settings` of app/main.py).
use heltec_wifi_optimization.Prelude.{
  ℕ, ◌≡◌, true, Bool-cases, inl, inr, refl, sym, ap, ◌∙◌, Option, none, List, [], ◌∷◌, Result, ok,
  raise,
}
use heltec_wifi_optimization.Db.{Db, ℤ}
use heltec_wifi_optimization.Settings.{
  AppSettingsUpdate, check_update, parse_body, fit_integer, app_integers, store_settings,
}
use heltec_wifi_optimization.Server.{
  Job, Scheduler, Timescale, jobs_at_start, jobs_at_update, Server, lifespan, then_ensure,
  apply_update, update_app_settings,
}
use heltec_wifi_optimization.Server.Scheduled.{
  IsScheduler, scheduled_by, scheduled_by_start, scheduled_by_update, Shows, add_jobs-Shows,
  reschedule_jobs-Shows,
}

module _ {F S T : Type 0} (sch : Scheduler S) (ts : Timescale T)
    (interval : Job → S → Option ℕ) where
  -- each job has the interval of the stored settings
  abbrev pub IsRunning : Server F S T → Type 0
  IsRunning s = Shows sch interval s.jobs (scheduled_by s.db.app_settings)

  pub lifespan-IsRunning :
      IsScheduler sch interval
      → (new : S) (db : Db F) (t : T) → ((j : Job) → interval j new ≡ none)
      → IsRunning (lifespan sch ts new db t)
  unfolding lifespan jobs_at_start
  lifespan-IsRunning law new db t empty j =
      let shows =
        add_jobs-Shows sch interval law (jobs_at_start db.app_settings) new (λ _. none) empty
          (refl, (refl, (refl, (refl, (refl, (refl, tt)))))) in
      law.started j _ ∙ shows j ∙ scheduled_by_start db.app_settings j

  then_ensure_parts :
      (days : ℕ) (db : Db F) (t : T) (p : Result (Unit {0}) × S)
      → p.0 ≡ ok tt
      → let (result, s') = then_ensure sch ts days db t p in
        (result ≡ ok tt) × (s'.db ≡ db) × (s'.jobs ≡ p.1)
  then_ensure_parts days db t (ok tt, jobs) h = (refl, refl, refl)
  then_ensure_parts days db t (raise e, jobs) h = cc

  -- An update that is valid and whose numbers fit is carried out to the end.
  pub apply_update_ok :
      IsScheduler sch interval
      → (u : AppSettingsUpdate ℕ) (s : Server F S T) → fit_integer (app_integers u) ≡ true
      → IsRunning s
      → let (result, s') = apply_update sch ts (ok u) s in
        (result ≡ ok tt) × (s'.db ≡ store_settings u s.db) × IsRunning s'
  unfolding store_settings jobs_at_update
  apply_update_ok law u s fits running =
      let (done, shows) =
        reschedule_jobs-Shows sch interval law (jobs_at_update u) s.jobs
          (scheduled_by s.db.app_settings) running
          ((_, refl), ((_, refl), ((_, refl), ((_, refl), ((_, refl), ((_, refl), tt)))))) in
      let (result, db, jobs) =
        then_ensure_parts u.telemetry_retention_days (store_settings u s.db) s.policies _ done in
      simp fits (
        result,
        db,
        λ j.
            ap (interval j) jobs
            ∙ shows j
            ∙ scheduled_by_update u s.db.app_settings (scheduled_by s.db.app_settings) j
            ∙ ap (λ d. scheduled_by d.app_settings j) (sym db),
      )

  apply_update-IsRunning :
      IsScheduler sch interval
      → (r : Result (AppSettingsUpdate ℕ)) (s : Server F S T) → IsRunning s
      → IsRunning (apply_update sch ts r s).1
  apply_update-IsRunning law (ok u) s running = elim (Bool-cases (fit_integer (app_integers u))) [
    | inl fits ↦ (apply_update_ok law u s fits running).2
    | inr above ↦ simp above running
  ]
  apply_update-IsRunning law (raise e) s running = running

  update_app_settings-IsRunning :
      IsScheduler sch interval
      → (body : Option (AppSettingsUpdate ℤ)) (s : Server F S T) → IsRunning s
      → IsRunning (update_app_settings sch ts body s).1
  unfolding update_app_settings
  update_app_settings-IsRunning law body s running =
      apply_update-IsRunning law (parse_body check_update body) s running

-- The requests to the settings that a server gets, in their order.
abbrev pub requests :
    {F S T : Type 0}
    → Scheduler S
    → Timescale T
    → List (Option (AppSettingsUpdate ℤ))
    → Server F S T
    → Server F S T
requests sch ts [] s = s
requests sch ts (body ∷ rest) s = requests sch ts rest (update_app_settings sch ts body s).1

module _ {F S T : Type 0} (sch : Scheduler S) (ts : Timescale T)
    (interval : Job → S → Option ℕ) where
  requests-IsRunning :
      IsScheduler sch interval
      → (bodies : List (Option (AppSettingsUpdate ℤ))) (s : Server F S T)
      → IsRunning sch ts interval s
      → IsRunning sch ts interval (requests sch ts bodies s)
  requests-IsRunning law [] s running = running
  requests-IsRunning law (body ∷ rest) s running =
      requests-IsRunning law rest _
        (update_app_settings-IsRunning sch ts interval law body s running)

  -- With a scheduler that behaves as documented and is empty at the start, after any series of
  -- requests to the settings, valid or not, each job has the interval that a restart of the
  -- server from its database would give it.
  pub requests-lifespan :
      IsScheduler sch interval
      → (new : S) (db : Db F) (t : T) → ((j : Job) → interval j new ≡ none)
      → (bodies : List (Option (AppSettingsUpdate ℤ))) (j : Job)
      → let s = requests sch ts bodies (lifespan sch ts new db t) in
        interval j s.jobs ≡ interval j (lifespan sch ts new s.db s.policies).jobs
  unfolding lifespan
  requests-lifespan law new db t empty bodies j =
      let s = requests sch ts bodies (lifespan sch ts new db t) in
      requests-IsRunning law bodies _ (lifespan-IsRunning sch ts interval law new db t empty) j
      ∙ sym (lifespan-IsRunning sch ts interval law new s.db s.policies empty j)
