-- ===== src/Schedule/Ingests.antt =====
-- `_ingest_collect` of app/main.py and the table of commands.
use heltec_wifi_optimization.Prelude.{
  ◌++◌, Option-cases, ℕ, refl, Bool-cases, inl, inr, String, Option, none, some, List, [], ◌∷◌,
  ◌==◌, arith, Result, ok, raise, ◌>>=◌, find,
}
use heltec_wifi_optimization.Float.{Float}
use heltec_wifi_optimization.Db.{Db, Device, Radio, Role, RadioCounters, ClientCounters}
use heltec_wifi_optimization.Report.{
  RadioClientRaw, RadioTelemetryRaw, DeviceEventRaw, CollectResult,
}
use heltec_wifi_optimization.Notify.{notify}
use heltec_wifi_optimization.Events.{record_event, record_server_event}
use heltec_wifi_optimization.Devices.{set_device, device_by_mac}
use heltec_wifi_optimization.Ingest.Counters.{
  rates_since, client_rate_since, upsert_radio_counters, upsert_client_counters, radio_key,
  client_key,
}
use heltec_wifi_optimization.Ingest.Channel.{
  previous_channel, record_change, record_channel_change_if_any,
}
use heltec_wifi_optimization.Ingest.Register.{
  set_seen, back_online_if_alerted, create_device, get_or_create_device,
}
use heltec_wifi_optimization.Ingest.Collect.{
  ingest_device_events, radio_counters_row, client_counters_row, telemetry_row, ingest_client,
  ingest_clients, ingest_radio, ingest_radios, transaction, store_report, ingest_validated,
}
use heltec_wifi_optimization.Schedule.Others.{Leaves, Leaves-refl, Leaves-trans}
use heltec_wifi_optimization.Schedule.Watchdog.{set_device-Leaves}

-- What a computation that may raise gives has the property.
abbrev Gives : {A : Type 0} → (A → Type 0) → Result A → Type 0
Gives P (ok a) = P a
Gives P (raise e) = Unit

>>=-Gives :
    {A B : Type 0} (P : A → Type 0) (Q : B → Type 0) (m : Result A) (f : A → Result B)
    → Gives P m
    → ((a : A) → P a → Gives Q (f a))
    → Gives Q (m >>= f)
>>=-Gives P Q (ok a) f h k = k a h
>>=-Gives P Q (raise e) f h k = tt

Gives-all : {A : Type 0} (P : A → Type 0) (m : Result A) → ((a : A) → P a) → Gives P m
Gives-all P (ok a) h = h a
Gives-all P (raise e) h = tt

module _ {F : Type 0} where
  ingest_device_events-Leaves :
      (now device_id : ℕ) (events : List DeviceEventRaw) (db : Db F)
      → Leaves db (ingest_device_events now device_id events db)
  unfolding ingest_device_events record_event
  ingest_device_events-Leaves now device_id [] db = Leaves-refl db
  ingest_device_events-Leaves now device_id (e ∷ events) db =
      let h = ingest_device_events-Leaves now device_id events _ in
      record { commands = h.commands; next_id = h.next_id }

  record_change-Leaves :
      (now device_id : ℕ) (radio : Radio) (new_channel : ℕ) (prev : Option ℕ) (db : Db F)
      → Leaves db (record_change now device_id radio new_channel prev db)
  unfolding record_server_event record_event
  record_change-Leaves now device_id radio new_channel none db = Leaves-refl db
  record_change-Leaves now device_id radio new_channel (some prev) db =
      elim (Bool-cases (prev == new_channel)) [
        | (inl same) ↦ simp (same) (Leaves-refl db)
        | (inr moved) ↦ simp (moved) (record { commands = refl; next_id = omega arith })
      ]

  record_channel_change_if_any-Leaves :
      (now device_id : ℕ) (radio : Radio) (channel : Option ℕ) (db : Db F)
      → Leaves db (record_channel_change_if_any now device_id radio channel db)
  unfolding record_channel_change_if_any
  record_channel_change_if_any-Leaves now device_id radio none db = Leaves-refl db
  record_channel_change_if_any-Leaves now device_id radio (some c) db =
      record_change-Leaves now device_id radio c (previous_channel device_id radio db) db

  -- What is left of a later state is left of an earlier one.
  weaken :
      {db db' : Db F}
      → Leaves db db'
      → (m : Result (Db F)) → Gives (Leaves db') m
      → Gives (Leaves db) m
  weaken h (ok db'') h' = Leaves-trans h h'
  weaken h (raise e) h' = tt

  back_online_if_alerted-Leaves :
      (now : ℕ) (hostname : Option String) (d : Device) (db : Db F)
      → Leaves db (back_online_if_alerted now hostname d db)
  unfolding back_online_if_alerted record_server_event record_event notify set_device
  back_online_if_alerted-Leaves now hostname d db = elim (Bool-cases d.offline_alerted) [
    | (inl out) ↦ simp (out) (record { commands = refl; next_id = omega arith })
    | (inr seen) ↦ simp (seen) (Leaves-refl db)
  ]

  get_or_create_device-Leaves :
      (now mac : ℕ) (role : Role) (hostname : Option String) (db : Db F)
      → Gives
          (λ (r : ℕ × Db F). Leaves db r.1)
          (get_or_create_device now mac (some role) hostname db)
  unfolding get_or_create_device create_device
  get_or_create_device-Leaves now mac role hostname db =
      elim (Option-cases (device_by_mac mac db.devices)) [
        | (inl unknown_mac) ↦
            simp (unknown_mac, get_or_create_device)
              (record { commands = refl; next_id = omega arith })
        | (inr (d, known)) ↦
            simp (known, get_or_create_device)
              (Leaves-trans (set_device-Leaves d.id (set_seen now hostname) db) (
                back_online_if_alerted-Leaves now hostname d
                  (set_device d.id (set_seen now hostname) db)))
      ]

module _ {F : Type 0} ⦃fl : Float F⦄ where
  upsert_radio_counters-Leaves :
      (row : RadioCounters) (db : Db F)
      → Gives (λ (r : (Option F × Option F) × Db F). Leaves db r.1) (upsert_radio_counters row db)
  unfolding upsert_radio_counters
  upsert_radio_counters-Leaves row db =
      >>=-Gives (λ _. Unit) (λ (r : (Option F × Option F) × Db F). Leaves db r.1)
        (rates_since (find (radio_key row.device_id row.radio) db.radio_counters) row) _
        (Gives-all (λ _. Unit) _ (λ _. tt))
        (λ rates _. record { commands = refl; next_id = omega arith })

  upsert_client_counters-Leaves :
      (row : ClientCounters) (db : Db F)
      → Gives (λ (r : Option F × Db F). Leaves db r.1) (upsert_client_counters row db)
  unfolding upsert_client_counters
  upsert_client_counters-Leaves row db =
      >>=-Gives (λ _. Unit) (λ (r : Option F × Db F). Leaves db r.1)
        (client_rate_since
          (find (client_key row.device_id row.radio row.client_mac) db.client_counters) row)
        _ (Gives-all (λ _. Unit) _ (λ _. tt))
        (λ rate _. record { commands = refl; next_id = omega arith })

  ingest_client-Leaves :
      (now device_id : ℕ) (radio : Radio) (c : RadioClientRaw F) (db : Db F)
      → Gives (Leaves db) (ingest_client now device_id radio c db)
  unfolding ingest_client
  ingest_client-Leaves now device_id radio c db =
      >>=-Gives (λ (r : Option F × Db F). Leaves db r.1) (Leaves db)
        (upsert_client_counters (client_counters_row now device_id radio c) db) _
        (upsert_client_counters-Leaves (client_counters_row now device_id radio c) db)
        (λ r h. record { commands = h.commands; next_id = h.next_id })

  ingest_clients-Leaves :
      (now device_id : ℕ) (radio : Radio) (clients : List (RadioClientRaw F)) (db : Db F)
      → Gives (Leaves db) (ingest_clients now device_id radio clients db)
  unfolding ingest_clients
  ingest_clients-Leaves now device_id radio [] db = Leaves-refl db
  ingest_clients-Leaves now device_id radio (c ∷ clients) db =
      >>=-Gives (Leaves db) (Leaves db) (ingest_client now device_id radio c db)
        (ingest_clients now device_id radio clients) (ingest_client-Leaves now device_id radio c db)
        (λ db' h.
          weaken h (ingest_clients now device_id radio clients db')
            (ingest_clients-Leaves now device_id radio clients db'))

  ingest_radio-Leaves :
      (now device_id : ℕ) (r : RadioTelemetryRaw F) (db : Db F)
      → Gives (Leaves db) (ingest_radio now device_id r db)
  unfolding ingest_radio
  ingest_radio-Leaves now device_id r db =
      let changed = record_channel_change_if_any now device_id r.radio r.channel db in
      >>=-Gives (λ (x : (Option F × Option F) × Db F). Leaves changed x.1) (Leaves db)
        (upsert_radio_counters (radio_counters_row now device_id r) changed) _
        (upsert_radio_counters-Leaves (radio_counters_row now device_id r) changed)
        (λ x h.
          let stored = record x.1 {
            telemetry = x.1.telemetry ++ telemetry_row now device_id r x.0 ∷ [];
          } in
          weaken
            (Leaves-trans (record_channel_change_if_any-Leaves now device_id r.radio r.channel db)
              (record { commands = h.commands; next_id = h.next_id }))
            (ingest_clients now device_id r.radio r.clients stored)
            (ingest_clients-Leaves now device_id r.radio r.clients stored))

  ingest_radios-Leaves :
      (now device_id : ℕ) (radios : List (RadioTelemetryRaw F)) (db : Db F)
      → Gives (Leaves db) (ingest_radios now device_id radios db)
  unfolding ingest_radios
  ingest_radios-Leaves now device_id [] db = Leaves-refl db
  ingest_radios-Leaves now device_id (r ∷ radios) db =
      >>=-Gives (Leaves db) (Leaves db) (ingest_radio now device_id r db)
        (ingest_radios now device_id radios) (ingest_radio-Leaves now device_id r db)
        (λ db' h.
          weaken h (ingest_radios now device_id radios db')
            (ingest_radios-Leaves now device_id radios db'))

  transaction-Leaves :
      (db : Db F) (m : Result (Db F)) → Gives (Leaves db) m → Leaves db (transaction db m).1
  transaction-Leaves db (ok db') h = h
  transaction-Leaves db (raise e) h = Leaves-refl db

  store_report-Leaves :
      (now : ℕ) (result : CollectResult F) (registered : Result (ℕ × Db F)) (db : Db F)
      → Gives (λ (r : ℕ × Db F). Leaves db r.1) registered
      → Leaves db (store_report now result registered db).1
  unfolding store_report
  store_report-Leaves now result (raise e) db h = Leaves-refl db
  store_report-Leaves now result (ok (device_id, registered)) db h = Leaves-trans h (
      transaction-Leaves registered _ (
        >>=-Gives (Leaves registered) (Leaves registered)
          (ingest_radios now device_id result.radios registered) _
          (ingest_radios-Leaves now device_id result.radios registered)
          (λ db' h'.
            Leaves-trans h' (ingest_device_events-Leaves now device_id result.events db'))))

  pub ingest_validated-Leaves :
      (now : ℕ) (role : Role) (validated : Result (CollectResult F)) (db : Db F)
      → Leaves db (ingest_validated now role validated db).1
  unfolding ingest_validated
  ingest_validated-Leaves now role (raise e) db = Leaves-refl db
  ingest_validated-Leaves now role (ok result) db =
      store_report-Leaves now result
        (get_or_create_device now result.device_mac (some role) result.hostname db) db
        (get_or_create_device-Leaves now result.device_mac role result.hostname db)
