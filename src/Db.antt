-- ===== src/Db.antt =====
-- The rows of the database (db/migrations) and the data that passes between the modules of app/.
--
-- A time is a number of microseconds, the resolution of `datetime` and of TIMESTAMPTZ. Ids, MAC
-- addresses and hosts are only compared and handed on, so they are numbers. Device counters are
-- counted up from a boot, so they are numbers from 0 on.
mod Enums
mod Int
pub use Enums.*
pub use Int.*
use heltec_wifi_optimization.Prelude.{ℕ, ◌*◌, String, Bool, Option, List, some, none, Error}

-- `timedelta(seconds=n)` and `timedelta(minutes=n)`, also `make_interval`
abbrev pub seconds : ℕ → ℕ
seconds n = n * 1000000

abbrev pub minutes : ℕ → ℕ
minutes n = n * 60000000

-- `optimizer_state`: the kill switch and the thresholds
pub record OptimizerSettings (F : Type 0) : Type 0 where
  pub enabled : Bool
  pub retry_rate_degraded_threshold : F
  pub degraded_sustain_minutes : ℕ
  pub channel_cooldown_minutes : ℕ
  pub bandwidth_widen_utilization_threshold : F
  pub bandwidth_widen_sustain_minutes : ℕ
  pub bandwidth_narrow_utilization_threshold : F
  pub bandwidth_narrow_sustain_minutes : ℕ
  pub halow_channel_cycling_enabled : Bool
  pub halow_bandwidth_changes_enabled : Bool
  pub wifi24_channel_cycling_enabled : Bool

-- `app_settings`
pub record AppSettings : Type 0 where
  pub ssh_poll_interval_seconds : ℕ
  pub command_poll_interval_seconds : ℕ
  pub command_verify_delay_seconds : ℕ
  pub backup_poll_interval_seconds : ℕ
  pub optimizer_interval_seconds : ℕ
  pub liveness_check_interval_seconds : ℕ
  pub offline_alert_seconds : ℕ
  pub telemetry_retention_days : ℕ
  pub backup_retention_count : ℕ
  pub ntfy_url : String
  pub ntfy_topic : String
  pub ntfy_token : String

-- `devices`
pub record Device : Type 0 where
  pub id : ℕ
  pub role : Role
  pub mac : ℕ
  pub hostname : String
  pub last_seen : Option ℕ
  pub offline_alerted : Bool
  pub last_auto_reboot_at : Option ℕ
  pub consecutive_auto_reboots : ℕ
  pub auto_recovery_exhausted_alerted : Bool
  pub consecutive_radio_down_polls : ℕ

-- `telemetry`
pub record Telemetry (F : Type 0) : Type 0 where
  pub time : ℕ
  pub device_id : ℕ
  pub radio : Radio
  pub rssi : Option ℤ
  pub noise : Option ℤ
  pub mcs : Option ℕ
  pub rate_mbps : Option F
  pub retries : Option F
  pub channel : Option ℕ
  pub bandwidth_mhz : Option ℕ
  pub throughput_mbps : Option F

-- `radio_clients`
pub record RadioClient (F : Type 0) : Type 0 where
  pub time : ℕ
  pub device_id : ℕ
  pub radio : Radio
  pub client_mac : ℕ
  pub rssi : Option ℤ
  pub rate_mbps : Option F
  pub retries : Option F

-- The JSON objects `target_value` and `previous_value`: `none` for a key that is not there.
pub record Setting : Type 0 where
  pub channel : Option ℕ
  pub bandwidth_mhz : Option ℕ

-- `commands`
pub record Command : Type 0 where
  pub id : ℕ
  pub device_id : ℕ
  pub param : Param
  pub target_value : Setting
  pub previous_value : Option Setting
  pub created_at : ℕ
  pub ttl_seconds : ℕ
  pub status : Status
  pub applied_at : Option ℕ
  pub acked_at : Option ℕ
  pub reason : Option Reason

-- `device_radio_counters`
pub record RadioCounters : Type 0 where
  pub device_id : ℕ
  pub radio : Radio
  pub retries_cum : Option ℕ
  pub packets_cum : Option ℕ
  pub tx_bytes_cum : Option ℕ
  pub rx_bytes_cum : Option ℕ
  pub updated_at : ℕ

-- `device_radio_client_counters`
pub record ClientCounters : Type 0 where
  pub device_id : ℕ
  pub radio : Radio
  pub client_mac : ℕ
  pub retries_cum : Option ℕ
  pub packets_cum : Option ℕ
  pub updated_at : ℕ

-- `device_events`; the text of a server's event is formatted from its type and details
pub record Event (F : Type 0) : Type 0 where
  pub device_id : ℕ
  pub occurred_at : ℕ
  pub source : EventSource
  pub event : EventType F
  pub device_seq : Option ℕ

-- `device_backups`; the archive's bytes are code points of a list
pub record Backup : Type 0 where
  pub id : ℕ
  pub device_id : ℕ
  pub created_at : ℕ
  pub sha256 : ℕ
  pub size_bytes : ℕ
  pub archive : List ℕ

-- `device_targets`
pub record DeviceTarget : Type 0 where
  pub role : Role
  pub label : String
  pub ssh_host : ℕ
  pub ssh_port : ℕ
  pub ssh_user : ℕ
  pub provisioned_at : Option ℕ
  pub last_provision_status : Option ProvisionStatus
  pub last_provision_error : Option Error
  pub updated_at : ℕ

-- The database, with the pushes that `notify` has sent and the next value of each id.
pub record Db (F : Type 0) : Type 0 where
  pub optimizer_state : OptimizerSettings F
  pub app_settings : AppSettings
  pub devices : List Device
  pub telemetry : List (Telemetry F)
  pub radio_clients : List (RadioClient F)
  pub commands : List Command
  pub radio_counters : List RadioCounters
  pub client_counters : List ClientCounters
  pub events : List (Event F)
  pub backups : List Backup
  pub targets : List DeviceTarget
  pub pushes : List (Alert F)
  pub next_id : ℕ
