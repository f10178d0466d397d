-- ===== src/Devices/Liveness/Once.antt =====
-- `check_device_liveness` of app/main.py: what a check records, and the next check.
use heltec_wifi_optimization.Prelude.{
  ℕ, ◌≡◌, refl, sym, ap, subst, ◌∙◌, inl, inr, Bool, true, false, none, List, [], ◌∷◌, ◌++◌, map,
  arith, ◌==◌, ==_refl, Bool-cases, any, select, update,
}
use mathlib.Core.List.{append-nil, append_assoc}
use heltec_wifi_optimization.Db.{Db, Device, Event, device_offline, server}
use heltec_wifi_optimization.Notify.{notify}
use heltec_wifi_optimization.Events.{record_server_event, insert_event}
use heltec_wifi_optimization.Devices.{set_device}
use heltec_wifi_optimization.Devices.Liveness.{
  is_stale, set_offline_alerted, alert_offline, alert_all, check_device_liveness,
}

select-cons :
    (test : Device → Bool) (x : Device) (xs : List Device)
    → test x ≡ true
    → select test (x ∷ xs) ≡ x ∷ select test xs
select-cons test x xs h = rw h

select-skip :
    (test : Device → Bool) (x : Device) (xs : List Device)
    → test x ≡ false
    → select test (x ∷ xs) ≡ select test xs
select-skip test x xs h = rw h

-- the table after the updates
abbrev marked : List Device → List Device → List Device
marked [] table = table
marked (d ∷ ds) table = marked ds (update (λ x. x.id == d.id) set_offline_alerted table)

module _ (now secs : ℕ) where
  -- the stale rows are among those with an id of the list
  abbrev Covered : List Device → List Device → Type 0
  Covered ds [] = Unit
  Covered ds (x ∷ table) =
      (is_stale now secs x ≡ true → any (λ d. x.id == d.id) ds ≡ true) × Covered ds table

  Covered-update :
      (d : Device) (ds table : List Device)
      → Covered (d ∷ ds) table
      → Covered ds (update (λ x. x.id == d.id) set_offline_alerted table)
  Covered-update d ds [] h = tt
  Covered-update d ds (x ∷ table) (first, rest) = elim (Bool-cases (x.id == d.id)) [
    | inl hit ↦ simp hit ((λ stale. cc), Covered-update d ds table rest)
    | inr miss ↦ simp miss ((λ stale. ground (arith, first stale)), Covered-update d ds table rest)
  ]

  select-stale : (table : List Device) → Covered [] table → select (is_stale now secs) table ≡ []
  select-stale [] h = refl
  select-stale (x ∷ table) (first, rest) = elim (Bool-cases (is_stale now secs x)) [
    | inl stale ↦ cc (first stale)
    | inr fresh ↦ simp fresh (select-stale table rest)
  ]

  marked-stale :
      (ds table : List Device)
      → Covered ds table
      → select (is_stale now secs) (marked ds table) ≡ []
  marked-stale [] table h = select-stale table h
  marked-stale (d ∷ ds) table h = marked-stale ds _ (Covered-update d ds table h)

  Covered-weaken : (d : Device) (ds table : List Device) → Covered ds table → Covered (d ∷ ds) table
  Covered-weaken d ds [] h = tt
  Covered-weaken d ds (x ∷ table) (first, rest) =
      ((λ stale. ground (arith, first stale)), Covered-weaken d ds table rest)

  Covered-select : (table : List Device) → Covered (select (is_stale now secs) table) table
  Covered-select [] = tt
  Covered-select (x ∷ table) = elim (Bool-cases (is_stale now secs x)) [
    | inl stale ↦
        subst (λ ds. Covered ds (x ∷ table)) (sym (select-cons (is_stale now secs) x table stale))
          ((λ _. rw (==_refl x.id)), Covered-weaken x _ table (Covered-select table))
    | inr fresh ↦
        subst (λ ds. Covered ds (x ∷ table)) (sym (select-skip (is_stale now secs) x table fresh))
          ((λ stale. cc), Covered-select table)
  ]

module _ {F : Type 0} where
  -- the event of an alert
  abbrev pub offline_event : ℕ → ℕ → Device → Event F
  offline_event now secs d = record {
    device_id = d.id;
    occurred_at = now;
    source = server;
    event = device_offline secs;
    device_seq = none;
  }

  -- Each listed device is recorded once, in order.
  events-alert_all :
      (now secs : ℕ) (ds : List Device) (db : Db F)
      → (alert_all now secs ds db).events ≡ db.events ++ map (offline_event now secs) ds
  unfolding alert_all set_device notify record_server_event insert_event
  events-alert_all now secs [] db = sym (append-nil db.events)
  events-alert_all now secs (d ∷ ds) db =
      events-alert_all now secs ds (alert_offline now secs d db)
      ∙ append_assoc db.events (offline_event now secs d ∷ []) (map (offline_event now secs) ds)

  devices-alert_all :
      (now secs : ℕ) (ds : List Device) (db : Db F)
      → (alert_all now secs ds db).devices ≡ marked ds db.devices
  unfolding alert_all set_device notify record_server_event
  devices-alert_all now secs [] db = refl
  devices-alert_all now secs (d ∷ ds) db =
      devices-alert_all now secs ds (alert_offline now secs d db)

  app_settings-alert_all :
      (now secs : ℕ) (ds : List Device) (db : Db F)
      → (alert_all now secs ds db).app_settings ≡ db.app_settings
  unfolding alert_all set_device notify record_server_event
  app_settings-alert_all now secs [] db = refl
  app_settings-alert_all now secs (d ∷ ds) db =
      app_settings-alert_all now secs ds (alert_offline now secs d db)

  -- A liveness check records one outage for each device that is silent and not alerted yet, in the
  -- order of the table, and nothing else; a second check at the same time changes nothing.
  pub check_device_liveness_once :
      (now : ℕ) (db : Db F)
      → let db' = check_device_liveness now db in
        (db'.events
          ≡ db.events
            ++ map
                (offline_event now db.app_settings.offline_alert_seconds)
                (select (is_stale now db.app_settings.offline_alert_seconds) db.devices))
        × (check_device_liveness now db' ≡ db')
  unfolding check_device_liveness
  check_device_liveness_once now db =
      let secs = db.app_settings.offline_alert_seconds in
      let stale = select (is_stale now secs) db.devices in
      let none_left : select (is_stale now secs) (alert_all now secs stale db).devices ≡ [] =
        ap (select (is_stale now secs)) (devices-alert_all now secs stale db)
        ∙ marked-stale now secs stale db.devices (Covered-select now secs db.devices) in
      (
        events-alert_all now secs stale db,
        ap
              (λ n.
                alert_all now n (select (is_stale now n) (alert_all now secs stale db).devices)
                  (alert_all now secs stale db))
              (ap (λ s. s.offline_alert_seconds) (app_settings-alert_all now secs stale db))
            ∙ ap (λ ds. alert_all now secs ds (alert_all now secs stale db)) none_left,
      )
