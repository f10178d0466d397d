-- ===== src/Recovery.antt =====
-- The server's watchdog of a radio that is down (app/main.py).
pub mod Reset
pub mod Turns
pub mod Bound
use heltec_wifi_optimization.Prelude.{
  ℕ, ◌+◌, Bool, true, false, Option, none, some, Result, ok, raise, ltb, leb, if◌then◌else◌,
}
use heltec_wifi_optimization.Db.{
  Db, Device, DeviceTarget, Role, seconds, recovery_exhausted, recovery_reboot,
  auto_recovery_exhausted, auto_recovery_reboot,
}
use heltec_wifi_optimization.Notify.{notify}
use heltec_wifi_optimization.Events.{record_server_event}
use heltec_wifi_optimization.DeviceClient.{DeviceClient}
use heltec_wifi_optimization.Devices.{device_by_mac, set_device}

abbrev pub auto_reboot_cooldown_seconds : ℕ
auto_reboot_cooldown_seconds = 900

abbrev pub max_consecutive_auto_reboots : ℕ
max_consecutive_auto_reboots = 3

abbrev pub min_consecutive_down_polls_before_reboot : ℕ
min_consecutive_down_polls_before_reboot = 3

abbrev pub set_down_polls : ℕ → Device → Device
set_down_polls down_polls d = record d { consecutive_radio_down_polls = down_polls }

abbrev pub set_exhausted : Device → Device
set_exhausted d = record d { auto_recovery_exhausted_alerted = true }

abbrev pub set_rebooted : ℕ → ℕ → Device → Device
set_rebooted now attempt d = record d {
  last_auto_reboot_at = some now;
  consecutive_auto_reboots = attempt;
}

-- the last reboot was less than the cooldown ago
abbrev pub cooling : ℕ → Option ℕ → Bool
cooling now none = false
cooling now (some last) = ltb now (last + seconds auto_reboot_cooldown_seconds)

module _ {F : Type 0} where
  -- The attempts are used up: alert, but only once.
  unfoldable pub give_up : ℕ → Role → Device → Db F → Db F
  give_up now role d db =
      if d.auto_recovery_exhausted_alerted
      then db
      else record_server_event now d.id auto_recovery_exhausted
          (notify (recovery_exhausted role d.mac) (set_device d.id set_exhausted db))

  -- what follows the reboot call: an exception ends the watchdog's turn
  unfoldable pub record_reboot :
      {W : Type 0} → ℕ → Role → Device → ℕ → Result (Unit {0}) × W → Db F → Db F × W
  record_reboot now role d down_polls (raise e, w) db = (db, w)
  record_reboot now role d down_polls (ok _, w) db =
      let attempt = d.consecutive_auto_reboots + 1 in
      (
        record_server_event now d.id (auto_recovery_reboot attempt down_polls) (
            notify (recovery_reboot role d.mac attempt)
              (set_device d.id (set_rebooted now attempt) db)),
        w,
      )

  module _ {W : Type 0} (client : DeviceClient F W) where
    -- the row as it was read, and the database with the new streak
    unfoldable pub recover : ℕ → Role → Device → DeviceTarget → Db F → W → Db F × W
    recover now role d target db w =
        let down_polls = d.consecutive_radio_down_polls + 1 in
        let db' = set_device d.id (set_down_polls down_polls) db in
        if ltb down_polls min_consecutive_down_polls_before_reboot
        then (db', w)
        else if cooling now d.last_auto_reboot_at
        then (db', w)
        else if leb max_consecutive_auto_reboots d.consecutive_auto_reboots
        then (give_up now role d db', w)
        else record_reboot now role d down_polls (client.reboot target w) db'

    -- `_maybe_auto_recover_radio`
    unfoldable pub maybe_auto_recover_radio : ℕ → Role → ℕ → DeviceTarget → Db F → W → Db F × W
    maybe_auto_recover_radio now role mac target db w = elim (device_by_mac mac db.devices) [
      | none ↦ (db, w)
      | some d ↦ recover now role d target db w
    ]
