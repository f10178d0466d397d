-- ===== src/Ingest/Stuck.antt =====
-- `_ingest_collect` of app/main.py after a poll that had the packets of a radio without its retries.
use heltec_wifi_optimization.Prelude.{
  ℕ, String, ◌≡◌, refl, sym, ap, subst, ◌∙◌, Option, none, some, List, [], ◌∷◌, ◌==◌, Bool-cases,
  inl, inr, find, ok, raise, type_error,
}
use heltec_wifi_optimization.Float.{Float}
use heltec_wifi_optimization.Db.{Db, Device, Radio, Role, RadioCounters}
use heltec_wifi_optimization.Report.{RadioTelemetryRaw, CollectResult}
use heltec_wifi_optimization.Notify.{notify}
use heltec_wifi_optimization.Events.{record_server_event, record_event}
use heltec_wifi_optimization.Devices.{device_by_mac, set_device, device_by_mac-update}
use heltec_wifi_optimization.Ingest.Counters.{
  radio_key, retries_rate, rates_since, upsert_radio_counters,
}
use heltec_wifi_optimization.Ingest.Channel.{
  record_change, previous_channel, record_channel_change_if_any,
}
use heltec_wifi_optimization.Ingest.Register.{
  set_seen, set_online, back_online_if_alerted, get_or_create_device,
}
use heltec_wifi_optimization.Ingest.Collect.{
  radio_counters_row, ingest_radio, ingest_radios, store_report, ingest_validated,
}

-- the stored row has packets and no retries
abbrev pub LacksRetries : Option RadioCounters → Type 0
LacksRetries none = ⊥
LacksRetries (some row) = (row.retries_cum ≡ none) × ((n : ℕ) × (row.packets_cum ≡ some n))

-- The first radio of the report is this one, with its retries and packets.
abbrev pub StartsWith : {F : Type 0} → Radio → List (RadioTelemetryRaw F) → Type 0
StartsWith radio [] = ⊥
StartsWith radio (r ∷ radios) =
    (r.radio ≡ radio)
    × (((m : ℕ) × (r.retries_cum ≡ some m)) × ((n : ℕ) × (r.packets_cum ≡ some n)))

-- Each report is of this device and starts with this radio.
abbrev pub AllStartWith : {F : Type 0} → ℕ → Radio → List (ℕ × CollectResult F) → Type 0
AllStartWith mac radio [] = Unit
AllStartWith mac radio ((_, result) ∷ reports) =
    ((result.device_mac ≡ mac) × StartsWith radio result.radios) × AllStartWith mac radio reports

module _ {F : Type 0} where
  radio_counters-record_change :
      (now device_id : ℕ) (radio : Radio) (c : ℕ) (prev : Option ℕ) (db : Db F)
      → (record_change now device_id radio c prev db).radio_counters ≡ db.radio_counters
  unfolding record_server_event record_event
  radio_counters-record_change now device_id radio c none db = refl
  radio_counters-record_change now device_id radio c (some p) db = elim (Bool-cases (p == c)) [
    | inl same ↦ simp same refl
    | inr other ↦ simp other refl
  ]

  radio_counters-record_channel_change_if_any :
      (now device_id : ℕ) (radio : Radio) (channel : Option ℕ) (db : Db F)
      → (record_channel_change_if_any now device_id radio channel db).radio_counters
        ≡ db.radio_counters
  unfolding record_channel_change_if_any record_server_event record_event
  radio_counters-record_channel_change_if_any now device_id radio none db = refl
  radio_counters-record_channel_change_if_any now device_id radio (some c) db =
      radio_counters-record_change now device_id radio c (previous_channel device_id radio db) db

module _ {F : Type 0} ⦃fl : Float F⦄ where
  rates_since-LacksRetries :
      (prev : Option RadioCounters) (row : RadioCounters) (m n : ℕ)
      → LacksRetries prev
      → row.retries_cum ≡ some m
      → row.packets_cum ≡ some n
      → rates_since {F = F} prev row ≡ raise type_error
  unfolding rates_since retries_rate
  rates_since-LacksRetries none row m n lacks hm hn = absurd lacks
  rates_since-LacksRetries (some prev) row m n (lacks, (k, has)) hm hn =
      simp (lacks, has, hm, hn) refl

  ingest_radios-StartsWith :
      (now device_id : ℕ) (radio : Radio) (radios : List (RadioTelemetryRaw F)) (db : Db F)
      → StartsWith radio radios
      → LacksRetries (find (radio_key device_id radio) db.radio_counters)
      → ingest_radios now device_id radios db ≡ raise type_error
  unfolding ingest_radios ingest_radio upsert_radio_counters
  ingest_radios-StartsWith now device_id radio [] db h lacks = absurd h
  ingest_radios-StartsWith now device_id radio (r ∷ radios) db (same, ((m, hm), (n, hn))) lacks =
      let before = record_channel_change_if_any now device_id r.radio r.channel db in
      let prev : LacksRetries (find (radio_key device_id r.radio) before.radio_counters) =
        subst (λ rows. LacksRetries (find (radio_key device_id r.radio) rows))
          (sym (radio_counters-record_channel_change_if_any now device_id r.radio r.channel db))
          (simp same lacks) in
      simp (rates_since-LacksRetries _ (radio_counters_row now device_id r) m n prev hm hn) refl

  -- the reports of a device of this role, one after the other
  abbrev pub ingest_all : Role → List (ℕ × CollectResult F) → Db F → Db F
  ingest_all role [] db = db
  ingest_all role ((now, result) ∷ reports) db =
      ingest_all role reports (ingest_validated now role (ok result) db).1

  -- what registering the device leaves
  module _ (mac now : ℕ) (hostname : Option String) (d : Device) (db : Db F) where
    abbrev seen_db : Db F
    seen_db = set_device d.id (set_seen now hostname) db

    abbrev registered : Db F
    registered = back_online_if_alerted now hostname d seen_db

    -- The row is found again, with its id, and the readings and counters are as they were.
    abbrev Kept : Db F → Type 0
    Kept db' =
        ((e : Device) × ((device_by_mac mac db'.devices ≡ some e) × (e.id ≡ d.id)))
        × ((db'.telemetry ≡ db.telemetry) × (db'.radio_counters ≡ db.radio_counters))

    registered-Kept : device_by_mac mac db.devices ≡ some d → Kept registered
    unfolding back_online_if_alerted set_device notify record_server_event record_event
    registered-Kept found =
        let seen =
          device_by_mac-update mac d (set_seen now hostname) db.devices (λ x. refl) found in
        elim (Bool-cases d.offline_alerted) [
          | inl alerted ↦
              simp alerted (
                (_, (device_by_mac-update mac _ set_online _ (λ x. refl) seen, refl)),
                (refl, refl),
              )
          | inr quiet ↦ simp quiet ((_, (seen, refl)), (refl, refl))
        ]

    get_or_create_device-registered :
        (role : Role)
        → device_by_mac mac db.devices ≡ some d
        → get_or_create_device now mac (some role) hostname db ≡ ok (d.id, registered)
    unfolding get_or_create_device
    get_or_create_device-registered role found = simp (found, get_or_create_device) refl

    -- The report fails after the device was registered.
    ingest_validated-StartsWith :
        (role : Role) (radio : Radio) (result : CollectResult F)
        → device_by_mac mac db.devices ≡ some d
        → result.device_mac ≡ mac
        → result.hostname ≡ hostname
        → StartsWith radio result.radios
        → LacksRetries (find (radio_key d.id radio) db.radio_counters)
        → ingest_validated now role (ok result) db ≡ (raise type_error, registered)
    unfolding ingest_validated get_or_create_device store_report
    ingest_validated-StartsWith role radio result found is_mac is_name starts lacks =
        let kept : registered.radio_counters ≡ db.radio_counters = (registered-Kept found).1.1 in
        let fails =
          ingest_radios-StartsWith now d.id radio result.radios registered starts
            (subst (λ rows. LacksRetries (find (radio_key d.id radio) rows)) (sym kept) lacks) in
        ap
          (λ m.
            store_report now result (get_or_create_device now m (some role) result.hostname db) db)
          is_mac
        ∙ ap (λ name. store_report now result (get_or_create_device now mac (some role) name db) db)
            is_name
        ∙ ap (λ reply. store_report now result reply db)
            (get_or_create_device-registered role found)
        ∙ simp fails refl

  -- Once the counters stored for a radio of a known device have packets and no retries, reports
  -- that start with this radio, its retries and packets there, store no reading and never replace
  -- these counters, however many there are.
  pub ingest_all-LacksRetries :
      (mac : ℕ) (role : Role) (radio : Radio) (reports : List (ℕ × CollectResult F)) (d : Device)
      (db : Db F)
      → device_by_mac mac db.devices ≡ some d
      → LacksRetries (find (radio_key d.id radio) db.radio_counters)
      → AllStartWith mac radio reports
      → ((ingest_all role reports db).telemetry ≡ db.telemetry)
        × ((ingest_all role reports db).radio_counters ≡ db.radio_counters)
  ingest_all-LacksRetries mac role radio [] d db found lacks all = (refl, refl)
  ingest_all-LacksRetries mac role radio ((now, result) ∷ reports) d db found lacks
        ((is_mac, starts), rest) =
      let db' = registered mac now result.hostname d db in
      let ((e, (found', same_id)), (telemetry, counters)) =
        registered-Kept mac now result.hostname d db found in
      let left : (ingest_validated now role (ok result) db).1 ≡ db' =
        ap (λ r. r.1)
          (ingest_validated-StartsWith mac now result.hostname d db role radio result found is_mac
            refl starts lacks) in
      let (same_telemetry, same_counters) =
        ingest_all-LacksRetries mac role radio reports e db' found'
          (subst (λ id. LacksRetries (find (radio_key id radio) db'.radio_counters)) (sym same_id)
            (subst (λ rows. LacksRetries (find (radio_key d.id radio) rows)) (sym counters) lacks))
          rest in
      (
        ap (λ b. (ingest_all role reports b).telemetry) left ∙ (same_telemetry ∙ telemetry),
        ap (λ b. (ingest_all role reports b).radio_counters) left ∙ (same_counters ∙ counters),
      )
