-- ===== src/Report.antt =====
-- What `wifi-agent.sh collect` reports, as app/models.py validates it.
use heltec_wifi_optimization.Prelude.{ℕ, String, Bool, Option, List, Result}
use heltec_wifi_optimization.Db.{Radio, ℤ}

-- `RadioClientRaw`
pub record RadioClientRaw (F : Type 0) : Type 0 where
  pub mac : ℕ
  pub rssi : Option ℤ
  pub rate_mbps : Option F
  pub retries_cum : Option ℕ
  pub packets_cum : Option ℕ

-- `RadioTelemetryRaw`
pub record RadioTelemetryRaw (F : Type 0) : Type 0 where
  pub radio : Radio
  pub radio_up : Option Bool
  pub rssi : Option ℤ
  pub noise : Option ℤ
  pub mcs : Option ℕ
  pub rate_mbps : Option F
  pub channel : Option ℕ
  pub bandwidth_mhz : Option ℕ
  pub retries_cum : Option ℕ
  pub packets_cum : Option ℕ
  pub tx_bytes_cum : Option ℕ
  pub rx_bytes_cum : Option ℕ
  pub clients : List (RadioClientRaw F)

-- `DeviceEventRaw`; `ts` is in seconds, `details` is the JSON text
pub record DeviceEventRaw : Type 0 where
  pub seq : ℕ
  pub ts : ℕ
  pub kind : String
  pub message : String
  pub details : Option String

-- `CollectResult`
pub record CollectResult (F : Type 0) : Type 0 where
  pub device_mac : ℕ
  pub hostname : Option String
  pub radios : List (RadioTelemetryRaw F)
  pub events : List DeviceEventRaw

-- What `poll_telemetry` reads from the JSON document itself. `radio_up` is that of the first radio
-- named "halow", `none` if it is neither true nor false or if there is no such radio.
pub record Reading : Type 0 where
  pub device_mac : Option ℕ
  pub radio_up : Option Bool

-- The JSON document of a poll: what the validation makes of it, and what is read from the document
-- itself, which raises if it is not of the shape that the reads expect, such as no object at all.
pub record RawReply (F : Type 0) : Type 0 where
  pub validated : Result (CollectResult F)
  pub read : Result Reading
