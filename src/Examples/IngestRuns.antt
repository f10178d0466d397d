-- ===== src/Examples/IngestRuns.antt =====
-- The ingestion's theorems at concrete reports, and tests of a poll.
use heltec_wifi_optimization.Prelude.{
  ℕ, ◌+◌, ◌≡◌, refl, true, none, some, [], ◌∷◌, ◌++◌, map, select, ok, raise, ssh_error,
}
use heltec_wifi_optimization.Db.{Db, RadioCounters, Role, halow}
use heltec_wifi_optimization.Report.{RadioTelemetryRaw, CollectResult, DeviceEventRaw}
use heltec_wifi_optimization.DeviceClient.{DeviceClient}
use heltec_wifi_optimization.Devices.Liveness.{is_stale, check_device_liveness}
use heltec_wifi_optimization.Devices.Liveness.Once.{offline_event, check_device_liveness_once}
use heltec_wifi_optimization.Ingest.Counters.{
  store_radio_counters, upsert_radio_counters, retry_rate, throughput,
}
use heltec_wifi_optimization.Recovery.Reset.{reset_auto_recovery}
use heltec_wifi_optimization.Devices.{set_device}
use heltec_wifi_optimization.Ingest.Register.{get_or_create_device}
use heltec_wifi_optimization.Ingest.Channel.{record_channel_change_if_any, previous_channel}
use heltec_wifi_optimization.Ingest.Collect.{
  ingest_collect, ingest_radios, ingest_radio, ingest_clients, ingest_device_events,
}
use heltec_wifi_optimization.Ingest.Rates.{full_row, upsert_radio_counters_twice}
use heltec_wifi_optimization.Ingest.Resent.{ingest_device_events_resent}
use heltec_wifi_optimization.Ingest.Stuck.{ingest_all, ingest_all-LacksRetries}
use heltec_wifi_optimization.Poll.{poll_telemetry}
use heltec_wifi_optimization.Examples.Data.{thousandths, empty, access_point}

-- Six minutes of silence: both devices are reported once.
check_device_liveness_once_example :
    let db' = check_device_liveness 360000000 empty in
    (db'.events
      ≡ empty.events
        ++ map (offline_event 360000000 300) (select (is_stale 360000000 300) empty.devices))
    × (check_device_liveness 360000000 db' ≡ db')
check_device_liveness_once_example = check_device_liveness_once 360000000 empty

abbrev reported_event : ℕ → DeviceEventRaw
reported_event n = record {
  seq = n;
  ts = 100 + n;
  kind = "chip_reset";
  message = "reset";
  details = none;
}

ingest_device_events_resent_example :
    let db' =
      ingest_device_events 1 1
        ((reported_event 1 ∷ []) ++ (reported_event 2 ∷ reported_event 3 ∷ []))
        empty in
    ingest_device_events 2 1
      ((reported_event 2 ∷ reported_event 3 ∷ []) ++ (reported_event 4 ∷ []))
      db'
    ≡ ingest_device_events 2 1 (reported_event 4 ∷ []) db'
ingest_device_events_resent_example =
    ingest_device_events_resent 1 2 1 (reported_event 1 ∷ [])
      (reported_event 2 ∷ reported_event 3 ∷ []) (reported_event 4 ∷ []) empty

upsert_radio_counters_twice_example :
    upsert_radio_counters
      (full_row 1 halow 60 200 3000000 2000000 31000000)
      (store_radio_counters (full_row 1 halow 10 100 1000000 1000000 1000000) empty)
    ≡ ok (
      (
        some (retry_rate 60 200 10 100),
        some (throughput (3000000 + 2000000) 31000000 (1000000 + 1000000) 1000000),
      ),
      store_radio_counters (full_row 1 halow 60 200 3000000 2000000 31000000) empty,
    )
unfolding upsert_radio_counters
upsert_radio_counters_twice_example =
    upsert_radio_counters_twice 1 halow 10 100 1000000 1000000 1000000 60 200 3000000 2000000
      31000000 empty (store_radio_counters (full_row 1 halow 10 100 1000000 1000000 1000000) empty)
      (none, none) refl

abbrev half_row : RadioCounters
half_row = record {
  device_id = 1;
  radio = halow;
  retries_cum = none;
  packets_cum = some 100;
  tx_bytes_cum = none;
  rx_bytes_cum = none;
  updated_at = 0;
}

abbrev half_db : Db ℕ
half_db = record empty { radio_counters = half_row ∷ [] }

abbrev radio_report : RadioTelemetryRaw ℕ
radio_report = record {
  radio = halow;
  radio_up = some true;
  rssi = none;
  noise = none;
  mcs = none;
  rate_mbps = some 4000;
  channel = some 6;
  bandwidth_mhz = some 2;
  retries_cum = some 10;
  packets_cum = some 200;
  tx_bytes_cum = none;
  rx_bytes_cum = none;
  clients = [];
}

abbrev report : CollectResult ℕ
report = record { device_mac = 101; hostname = none; radios = radio_report ∷ []; events = [] }

ingest_all-LacksRetries_example :
    ((ingest_all Role.ap ((30000000, report) ∷ (60000000, report) ∷ []) half_db).telemetry
      ≡ half_db.telemetry)
    × ((ingest_all Role.ap ((30000000, report) ∷ (60000000, report) ∷ []) half_db).radio_counters
        ≡ half_db.radio_counters)
ingest_all-LacksRetries_example =
    ingest_all-LacksRetries 101 Role.ap halow ((30000000, report) ∷ (60000000, report) ∷ [])
      access_point half_db refl (refl, (100, refl))
      ((refl, (refl, ((10, refl), (200, refl)))), ((refl, (refl, ((10, refl), (200, refl)))), tt))

-- an agent that always sends this report
abbrev reporting : DeviceClient ℕ Unit
reporting = record {
  collect = λ target w. (
    ok (record {
      validated = ok report;
      read = ok (record { radio_up = some true; device_mac = some 101 });
    }),
    w,
  );
  apply_command = λ target param value ttl w. (raise ssh_error, w);
  verify_and_confirm = λ target param value w. (raise ssh_error, w);
  fetch_backup = λ target w. (raise ssh_error, w);
  reboot = λ target w. (raise ssh_error, w);
}

-- A poll stores one reading, and one more at the next poll.
poll_telemetry_test :
    map
      (λ t. t.retries)
      (poll_telemetry reporting 60 (poll_telemetry reporting 30 empty tt).1 tt).1.telemetry
    ≡ none ∷ some 0 ∷ []
unfolding poll_telemetry reset_auto_recovery ingest_collect get_or_create_device ingest_radios
    ingest_radio upsert_radio_counters record_channel_change_if_any previous_channel set_device
    ingest_clients ingest_device_events retry_rate
poll_telemetry_test = refl
