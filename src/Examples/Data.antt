-- ===== src/Examples/Data.antt =====
-- A small deployment: an access point and a station, with floats in thousandths.
use heltec_wifi_optimization.Prelude.{
  ℕ, ◌+◌, ◌*◌, ◌/◌, true, false, none, some, [], ◌∷◌, ltb, leb, ◌==◌, ssh_error, runtime_error, ok,
  raise,
}
use heltec_wifi_optimization.Float.{Float}
use heltec_wifi_optimization.Db.{
  Db, OptimizerSettings, AppSettings, Device, DeviceTarget, Role, Telemetry, halow, RadioClient,
  wifi24, Command, halow_operating_freq, reboot, Status,
}
use heltec_wifi_optimization.DeviceClient.{DeviceClient}

-- Fixed-point numbers: `n` stands for n / 1000.
instance abbrev pub thousandths : Float ℕ
thousandths = record {
  of_ℕ = λ n. n * 1000;
  div_ℕ = λ m n. m * 1000 / n;
  add = λ x y. x + y;
  mul = λ x y. x * y / 1000;
  div = λ x y. x * 1000 / y;
  le = leb;
  lt = ltb;
  is_zero = λ x. x == 0;
}

abbrev pub settings : OptimizerSettings ℕ
settings = record {
  enabled = true;
  retry_rate_degraded_threshold = 300;
  degraded_sustain_minutes = 10;
  channel_cooldown_minutes = 30;
  bandwidth_widen_utilization_threshold = 700;
  bandwidth_widen_sustain_minutes = 15;
  bandwidth_narrow_utilization_threshold = 100;
  bandwidth_narrow_sustain_minutes = 120;
  halow_channel_cycling_enabled = true;
  halow_bandwidth_changes_enabled = true;
  wifi24_channel_cycling_enabled = true;
}

abbrev pub app_settings : AppSettings
app_settings = record {
  ssh_poll_interval_seconds = 30;
  command_poll_interval_seconds = 10;
  command_verify_delay_seconds = 30;
  backup_poll_interval_seconds = 21600;
  optimizer_interval_seconds = 300;
  liveness_check_interval_seconds = 60;
  offline_alert_seconds = 300;
  telemetry_retention_days = 0;
  backup_retention_count = 2;
  ntfy_url = "";
  ntfy_topic = "";
  ntfy_token = "";
}

abbrev pub access_point : Device
access_point = record {
  id = 1;
  role = Role.ap;
  mac = 101;
  hostname = "ap";
  last_seen = some 0;
  offline_alerted = false;
  last_auto_reboot_at = none;
  consecutive_auto_reboots = 0;
  auto_recovery_exhausted_alerted = false;
  consecutive_radio_down_polls = 0;
}

abbrev pub station : Device
station = record access_point { id = 2; role = Role.sta; mac = 102; hostname = "sta" }

abbrev pub target : DeviceTarget
target = record {
  role = Role.ap;
  label = "Access Point";
  ssh_host = 7;
  ssh_port = 22;
  ssh_user = 0;
  provisioned_at = none;
  last_provision_status = none;
  last_provision_error = none;
  updated_at = 0;
}

-- a halow reading of the access point, with its retries, bandwidth and throughput
abbrev pub reading : ℕ → ℕ → ℕ → ℕ → ℕ → Telemetry ℕ
reading time retries channel bandwidth throughput = record {
  time = time;
  device_id = 1;
  radio = halow;
  rssi = none;
  noise = none;
  mcs = none;
  rate_mbps = some 4000;
  retries = some retries;
  channel = some channel;
  bandwidth_mhz = some bandwidth;
  throughput_mbps = some throughput;
}

abbrev pub client_reading : ℕ → ℕ → RadioClient ℕ
client_reading time retries = record {
  time = time;
  device_id = 2;
  radio = wifi24;
  client_mac = 900;
  rssi = none;
  rate_mbps = none;
  retries = some retries;
}

abbrev pub empty : Db ℕ
empty = record {
  optimizer_state = settings;
  app_settings = app_settings;
  devices = access_point ∷ station ∷ [];
  telemetry = [];
  radio_clients = [];
  commands = [];
  radio_counters = [];
  client_counters = [];
  events = [];
  backups = [];
  targets = target ∷ [];
  pushes = [];
  next_id = 1;
}

-- a HaLow link that degrades on channel 6 at 2 MHz
abbrev pub degraded_db : Db ℕ
degraded_db = record empty {
  telemetry = reading 1 500 6 2 100 ∷ reading 2 400 6 2 100 ∷ reading 3 450 6 2 100 ∷ [];
}

-- an unreachable network: every call raises
abbrev pub unreachable : DeviceClient ℕ Unit
unreachable = record {
  collect = λ target w. (raise ssh_error, w);
  apply_command = λ target param value ttl w. (raise ssh_error, w);
  verify_and_confirm = λ target param value w. (raise ssh_error, w);
  fetch_backup = λ target w. (raise ssh_error, w);
  reboot = λ target w. (raise ssh_error, w);
}

-- devices that do what they are told, and count the calls
abbrev pub obedient : DeviceClient ℕ ℕ
obedient = record {
  collect = λ target w. (raise runtime_error, w + 1);
  apply_command = λ target param value ttl w. (ok tt, w + 1);
  verify_and_confirm = λ target param value w. (ok true, w + 1);
  fetch_backup = λ target w. (ok (1 ∷ 2 ∷ []), w + 1);
  reboot = λ target w. (ok tt, w + 1);
}

-- a command to the access point that was applied at time 0
abbrev pub applied_command : Command
applied_command = record {
  id = 1;
  device_id = 1;
  param = halow_operating_freq;
  target_value = record { channel = some 10; bandwidth_mhz = none };
  previous_value = none;
  created_at = 0;
  ttl_seconds = 120;
  status = Status.applied;
  applied_at = some 0;
  acked_at = none;
  reason = none;
}

abbrev pub pending_reboot : Command
pending_reboot = record applied_command {
  id = 2;
  param = reboot;
  status = Status.pending;
  applied_at = none;
  ttl_seconds = 60;
}

abbrev pub busy_db : Db ℕ
busy_db = record empty { commands = applied_command ∷ pending_reboot ∷ []; next_id = 3 }
