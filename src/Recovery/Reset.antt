-- ===== src/Recovery/Reset.antt =====
-- `_reset_auto_recovery` of app/main.py: a healthy reading ends the streak and the attempts.
use heltec_wifi_optimization.Prelude.{ℕ, false, not, ◌&&◌, none, some, ◌==◌, if◌then◌else◌}
use heltec_wifi_optimization.Db.{Db, Device, Role, recovered, radio_recovered}
use heltec_wifi_optimization.Notify.{notify}
use heltec_wifi_optimization.Events.{record_server_event}
use heltec_wifi_optimization.Devices.{device_by_mac, set_device}

abbrev pub clear_down_polls : Device → Device
clear_down_polls d = record d { consecutive_radio_down_polls = 0 }

abbrev pub clear_attempts : Device → Device
clear_attempts d = record d {
  consecutive_auto_reboots = 0;
  auto_recovery_exhausted_alerted = false;
}

module _ {F : Type 0} where
  unfoldable pub clear_streak : Device → Db F → Db F
  clear_streak d db =
      if d.consecutive_radio_down_polls == 0 then db else set_device d.id clear_down_polls db

  unfoldable pub end_recovery : ℕ → Role → Device → Db F → Db F
  end_recovery now role d db =
      if d.consecutive_auto_reboots == 0 && not d.auto_recovery_exhausted_alerted
      then db
      else record_server_event now d.id (radio_recovered d.consecutive_auto_reboots) (
          notify (recovered role d.mac d.consecutive_auto_reboots)
            (set_device d.id clear_attempts db))

  unfoldable pub reset_auto_recovery : ℕ → Role → ℕ → Db F → Db F
  unfolding clear_streak end_recovery
  reset_auto_recovery now role mac db = elim (device_by_mac mac db.devices) [
    | none ↦ db
    | some d ↦ end_recovery now role d (clear_streak d db)
  ]
