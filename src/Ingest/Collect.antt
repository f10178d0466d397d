-- ===== src/Ingest/Collect.antt =====
-- `_ingest_collect` and `_ingest_device_events` of app/main.py.
use heltec_wifi_optimization.Prelude.{
  ℕ, Option, some, List, [], ◌∷◌, ◌++◌, Result, ok, raise, ◌>>=◌,
}
use heltec_wifi_optimization.Float.{Float}
use heltec_wifi_optimization.Db.{
  Db, Telemetry, RadioClient, RadioCounters, ClientCounters, Radio, Role, device, reported, seconds,
}
use heltec_wifi_optimization.Report.{
  RadioClientRaw, RadioTelemetryRaw, DeviceEventRaw, CollectResult, RawReply,
}
use heltec_wifi_optimization.Events.{record_event}
use heltec_wifi_optimization.Ingest.Counters.{upsert_radio_counters, upsert_client_counters}
use heltec_wifi_optimization.Ingest.Register.{get_or_create_device}
use heltec_wifi_optimization.Ingest.Channel.{record_channel_change_if_any}

module _ {F : Type 0} where
  -- `_ingest_device_events`
  unfoldable pub ingest_device_events : ℕ → ℕ → List DeviceEventRaw → Db F → Db F
  ingest_device_events now device_id [] db = db
  ingest_device_events now device_id (e ∷ events) db = ingest_device_events now device_id events (
      record_event now device_id device (reported e.kind e.message e.details) (some e.seq)
        (some (seconds e.ts)) db)

  abbrev pub radio_counters_row : ℕ → ℕ → RadioTelemetryRaw F → RadioCounters
  radio_counters_row now device_id r = record {
    device_id = device_id;
    radio = r.radio;
    retries_cum = r.retries_cum;
    packets_cum = r.packets_cum;
    tx_bytes_cum = r.tx_bytes_cum;
    rx_bytes_cum = r.rx_bytes_cum;
    updated_at = now;
  }

  abbrev pub telemetry_row : ℕ → ℕ → RadioTelemetryRaw F → Option F × Option F → Telemetry F
  telemetry_row now device_id r (retries_rate, throughput) = record {
    time = now;
    device_id = device_id;
    radio = r.radio;
    rssi = r.rssi;
    noise = r.noise;
    mcs = r.mcs;
    rate_mbps = r.rate_mbps;
    retries = retries_rate;
    channel = r.channel;
    bandwidth_mhz = r.bandwidth_mhz;
    throughput_mbps = throughput;
  }

  abbrev pub client_counters_row : ℕ → ℕ → Radio → RadioClientRaw F → ClientCounters
  client_counters_row now device_id radio c = record {
    device_id = device_id;
    radio = radio;
    client_mac = c.mac;
    retries_cum = c.retries_cum;
    packets_cum = c.packets_cum;
    updated_at = now;
  }

  abbrev pub client_row : ℕ → ℕ → Radio → RadioClientRaw F → Option F → RadioClient F
  client_row now device_id radio c retries = record {
    time = now;
    device_id = device_id;
    radio = radio;
    client_mac = c.mac;
    rssi = c.rssi;
    rate_mbps = c.rate_mbps;
    retries = retries;
  }

module _ {F : Type 0} ⦃fl : Float F⦄ where
  unfoldable pub ingest_client : ℕ → ℕ → Radio → RadioClientRaw F → Db F → Result (Db F)
  ingest_client now device_id radio c db = do
    (retries, db') ← upsert_client_counters (client_counters_row now device_id radio c) db
    ok (record db' {
      radio_clients = db'.radio_clients ++ client_row now device_id radio c retries ∷ [];
    })

  unfoldable pub ingest_clients : ℕ → ℕ → Radio → List (RadioClientRaw F) → Db F → Result (Db F)
  ingest_clients now device_id radio [] db = ok db
  ingest_clients now device_id radio (c ∷ clients) db = do
    db' ← ingest_client now device_id radio c db
    ingest_clients now device_id radio clients db'

  -- the change of channel, the counters, the reading, and then its clients
  unfoldable pub ingest_radio : ℕ → ℕ → RadioTelemetryRaw F → Db F → Result (Db F)
  ingest_radio now device_id r db = do
    (rates, db') ←
        upsert_radio_counters (radio_counters_row now device_id r)
          (record_channel_change_if_any now device_id r.radio r.channel db)
    ingest_clients now device_id r.radio r.clients
        (record db' { telemetry = db'.telemetry ++ telemetry_row now device_id r rates ∷ [] })

  unfoldable pub ingest_radios : ℕ → ℕ → List (RadioTelemetryRaw F) → Db F → Result (Db F)
  ingest_radios now device_id [] db = ok db
  ingest_radios now device_id (r ∷ radios) db = do
    db' ← ingest_radio now device_id r db
    ingest_radios now device_id radios db'

  -- `async with conn.transaction()`: a raise leaves the database as it was before.
  abbrev pub transaction : Db F → Result (Db F) → Result (Unit {0}) × Db F
  transaction db (ok db') = (ok tt, db')
  transaction db (raise e) = (raise e, db)

  unfoldable pub store_report :
      ℕ → CollectResult F → Result (ℕ × Db F) → Db F → Result (Unit {0}) × Db F
  store_report now result (raise e) db = (raise e, db)
  store_report now result (ok (device_id, registered)) db = transaction registered (do
    db' ← ingest_radios now device_id result.radios registered
    ok (ingest_device_events now device_id result.events db'))

  unfoldable pub ingest_validated :
      ℕ → Role → Result (CollectResult F) → Db F → Result (Unit {0}) × Db F
  unfolding store_report
  ingest_validated now role (raise e) db = (raise e, db)
  ingest_validated now role (ok result) db =
      store_report now result
        (get_or_create_device now result.device_mac (some role) result.hostname db) db

  -- `_ingest_collect`
  unfoldable pub ingest_collect : ℕ → Role → RawReply F → Db F → Result (Unit {0}) × Db F
  unfolding ingest_validated
  ingest_collect now role raw db = ingest_validated now role raw.validated db
