-- ===== src/Dashboard.antt =====
-- What the dashboard changes (app/main.py): the kill switch, a reboot, and the deletion of a backup.
pub mod Queued
use heltec_wifi_optimization.Prelude.{
  ℕ, ◌+◌, Bool, not, Option, none, some, List, [], ◌∷◌, ◌++◌, ◌==◌, any, select, if◌then◌else◌,
  Result, ok, raise, http,
}
use heltec_wifi_optimization.Db.{
  Db, Device, Command, Backup, reboot, Status, manual_reboot_requested,
}
use heltec_wifi_optimization.Events.{record_server_event}
use heltec_wifi_optimization.Devices.{device_by_mac}
use heltec_wifi_optimization.Commands.Apply.{default_ttl_seconds}

-- the row that `reboot_device` inserts; `target_value` is the empty object
unfoldable pub reboot_command : ℕ → ℕ → ℕ → Command
reboot_command id now device_id = record {
  id = id;
  device_id = device_id;
  param = reboot;
  target_value = record { channel = none; bandwidth_mhz = none };
  previous_value = none;
  created_at = now;
  ttl_seconds = default_ttl_seconds reboot;
  status = Status.pending;
  applied_at = none;
  acked_at = none;
  reason = none;
}

module _ {F : Type 0} where
  unfoldable pub queue_reboot : ℕ → Option Device → Db F → Result (Unit {0}) × Db F
  unfolding reboot_command
  queue_reboot now none db = (raise (http 404), db)
  queue_reboot now (some d) db = (
    ok tt,
    record_server_event now d.id manual_reboot_requested (record db {
      commands = db.commands ++ reboot_command db.next_id now d.id ∷ [];
      next_id = db.next_id + 1;
    }),
  )

  unfoldable pub reboot_device : ℕ → ℕ → Db F → Result (Unit {0}) × Db F
  unfolding queue_reboot
  reboot_device now device_mac db = queue_reboot now (device_by_mac device_mac db.devices) db

  -- `set_optimizer_state`
  unfoldable pub set_optimizer_state : Bool → Db F → Db F
  set_optimizer_state enabled db = record db {
    optimizer_state = record db.optimizer_state { enabled = enabled };
  }

  -- `delete_backup`
  unfoldable pub delete_backup : ℕ → Db F → Result (Unit {0}) × Db F
  delete_backup backup_id db =
      if any (λ b. b.id == backup_id) db.backups
      then (ok tt, record db { backups = select (λ b. not (b.id == backup_id)) db.backups })
      else (raise (http 404), db)
