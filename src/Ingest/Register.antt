-- ===== src/Ingest/Register.antt =====
-- `_get_or_create_device` of app/main.py.
use heltec_wifi_optimization.Prelude.{
  ℕ, ◌+◌, String, false, Option, none, some, [], ◌∷◌, ◌++◌, if◌then◌else◌, Result, ok, raise, http,
}
use heltec_wifi_optimization.Db.{Db, Device, Role, back_online, device_online}
use heltec_wifi_optimization.Notify.{notify}
use heltec_wifi_optimization.Events.{record_server_event}
use heltec_wifi_optimization.Devices.{device_by_mac, set_device}

-- `COALESCE($2, hostname)`, and `hostname or ""`
abbrev pub hostname_or : Option String → String → String
hostname_or none name = name
hostname_or (some s) name = s

abbrev pub set_seen : ℕ → Option String → Device → Device
set_seen now hostname d = record d {
  last_seen = some now;
  hostname = hostname_or hostname d.hostname;
}

abbrev pub set_online : Device → Device
set_online d = record d { offline_alerted = false }

-- the row that an INSERT makes, with the defaults of the other columns
abbrev pub new_device : ℕ → ℕ → Role → ℕ → Option String → Device
new_device id now role mac hostname = record {
  id = id;
  role = role;
  mac = mac;
  hostname = hostname_or hostname "";
  last_seen = some now;
  offline_alerted = false;
  last_auto_reboot_at = none;
  consecutive_auto_reboots = 0;
  auto_recovery_exhausted_alerted = false;
  consecutive_radio_down_polls = 0;
}

module _ {F : Type 0} where
  -- Telemetry resumed: the row as it was read says whether an outage had been alerted.
  unfoldable pub back_online_if_alerted : ℕ → Option String → Device → Db F → Db F
  back_online_if_alerted now hostname d db =
      if d.offline_alerted
      then record_server_event now d.id device_online
          (notify (back_online d.role hostname d.mac) (set_device d.id set_online db))
      else db

  unfoldable pub create_device : ℕ → ℕ → Option Role → Option String → Db F → Result (ℕ × Db F)
  create_device now mac none hostname db = raise (http 400)
  create_device now mac (some role) hostname db = ok (
    db.next_id,
    record db {
      devices = db.devices ++ new_device db.next_id now role mac hostname ∷ [];
      next_id = db.next_id + 1;
    },
  )

  unfoldable pub get_or_create_device :
      ℕ → ℕ → Option Role → Option String → Db F → Result (ℕ × Db F)
  unfolding back_online_if_alerted create_device
  get_or_create_device now mac role hostname db = elim (device_by_mac mac db.devices) [
    | none ↦ create_device now mac role hostname db
    | some d ↦
        ok
          (d.id, back_online_if_alerted now hostname d (set_device d.id (set_seen now hostname) db))
  ]
