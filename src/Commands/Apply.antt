-- ===== src/Commands/Apply.antt =====
-- `apply_pending_commands` of app/main.py.
use heltec_wifi_optimization.Prelude.{ℕ, Option, none, some, List, [], ◌∷◌, Result, ok, raise}
use heltec_wifi_optimization.Db.{
  Db, Command, DeviceTarget, Param, halow_operating_freq, wifi24_channel, reboot, pending, applied,
  acked,
}
use heltec_wifi_optimization.DeviceClient.{DeviceClient}
use heltec_wifi_optimization.Commands.Rows.{
  Joined, join_devices, order_by_age, commands_in, target_of_role, set_command,
}

-- `DEFAULT_COMMAND_TTL_SECONDS` of app/config.py
unfoldable pub default_ttl_seconds : Param → ℕ
default_ttl_seconds halow_operating_freq = 120
default_ttl_seconds wifi24_channel = 90
default_ttl_seconds reboot = 60

abbrev pub mark_applied : ℕ → Command → Command
mark_applied now c = record c { status = applied; applied_at = some now }

abbrev pub mark_rebooted : ℕ → Command → Command
mark_rebooted now c = record c { status = acked; applied_at = some now; acked_at = some now }

module _ {F W : Type 0} (client : DeviceClient F W) where
  -- An exception of the SSH call leaves the command for the next tick.
  unfoldable pub record_sent :
      ℕ → (ℕ → Command → Command) → ℕ → Result (Unit {0}) × W → Db F → Db F × W
  record_sent now mark id (ok _, w) db = (set_command id (mark now) db, w)
  record_sent now mark id (raise e, w) db = (db, w)

  -- the call that the parameter asks for
  unfoldable pub send : ℕ → Command → DeviceTarget → Param → Db F → W → Db F × W
  unfolding record_sent default_ttl_seconds
  send now c target reboot db w = record_sent now mark_rebooted c.id (client.reboot target w) db
  send now c target param db w =
      record_sent now mark_applied c.id
        (client.apply_command target c.param c.target_value (default_ttl_seconds c.param) w) db

  unfoldable pub apply_one : ℕ → Joined → Option DeviceTarget → Db F → W → Db F × W
  unfolding send
  apply_one now row none db w = (db, w)
  apply_one now row (some target) db w = send now row.command target row.command.param db w

  unfoldable pub apply_rows : ℕ → List DeviceTarget → List Joined → Db F → W → Db F × W
  unfolding apply_one
  apply_rows now targets [] db w = (db, w)
  apply_rows now targets (row ∷ rows) db w =
      let (db', w') = apply_one now row (target_of_role row.role targets) db w in
      apply_rows now targets rows db' w'

  -- the pending commands, oldest first; the rows and the targets are read before the first call
  unfoldable pub apply_pending_commands : ℕ → Db F → W → Db F × W
  unfolding apply_rows
  apply_pending_commands now db w =
      apply_rows now db.targets
        (order_by_age (join_devices db.devices (commands_in pending db.commands))) db w
