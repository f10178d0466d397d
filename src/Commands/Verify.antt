-- ===== src/Commands/Verify.antt =====
-- `check_in_flight_commands` of app/main.py.
use heltec_wifi_optimization.Prelude.{
  ℕ, ◌+◌, Bool, true, false, Option, none, some, List, [], ◌∷◌, Result, ok, raise, type_error, ltb,
  leb, if◌then◌else◌,
}
use heltec_wifi_optimization.Db.{
  Db, Command, DeviceTarget, applied, acked, reverted, unknown, target_not_reached,
  could_not_reach_device, seconds, command_confirmed, command_reverted, command_outcome_unknown,
}
use heltec_wifi_optimization.Events.{record_server_event}
use heltec_wifi_optimization.DeviceClient.{DeviceClient}
use heltec_wifi_optimization.Commands.Rows.{
  Joined, join_devices, commands_in, target_of_role, set_command, notify_command_outcome,
}

abbrev pub mark_acked : ℕ → Command → Command
mark_acked now c = record c { status = acked; acked_at = some now }

abbrev pub mark_reverted : Command → Command
mark_reverted c = record c { status = reverted; reason = some target_not_reached }

abbrev pub mark_unknown : Command → Command
mark_unknown c = record c { status = unknown; reason = some could_not_reach_device }

-- `elapsed < command_verify_delay_seconds`
abbrev pub too_early : ℕ → ℕ → ℕ → Bool
too_early now applied_at delay = ltb now (applied_at + seconds delay)

-- `elapsed >= c["ttl_seconds"] + 15`
abbrev pub overdue : ℕ → ℕ → ℕ → Bool
overdue now applied_at ttl_seconds = leb (applied_at + seconds (ttl_seconds + 15)) now

module _ {F W : Type 0} (client : DeviceClient F W) where
  -- what the answer, or an exception, makes of the command
  unfoldable pub settle : ℕ → Command → ℕ → Result Bool → Db F → Db F
  settle now c applied_at (ok true) db =
      record_server_event now c.device_id (command_confirmed c.id)
        (set_command c.id (mark_acked now) db)
  settle now c applied_at (ok false) db =
      notify_command_outcome now c.id reverted command_reverted (some target_not_reached)
        (set_command c.id mark_reverted db)
  settle now c applied_at (raise e) db =
      if overdue now applied_at c.ttl_seconds
      then notify_command_outcome now c.id unknown command_outcome_unknown
          (some could_not_reach_device) (set_command c.id mark_unknown db)
      else db

  unfoldable pub check_target : ℕ → Command → ℕ → Option DeviceTarget → Db F → W → Db F × W
  unfolding settle
  check_target now c applied_at none db w = (db, w)
  check_target now c applied_at (some target) db w =
      let (confirmed, w') = client.verify_and_confirm target c.param c.target_value w in
      (settle now c applied_at confirmed db, w')

  unfoldable pub check_one : ℕ → ℕ → List DeviceTarget → Joined → ℕ → Db F → W → Db F × W
  unfolding check_target
  check_one now delay targets row applied_at db w =
      if too_early now applied_at delay
      then (db, w)
      else check_target now row.command applied_at (target_of_role row.role targets) db w

  -- `now - c["applied_at"]` raises a TypeError for a row without a time, and ends the job there.
  unfoldable pub check_rows :
      ℕ → ℕ → List DeviceTarget → List Joined → Db F → W → Result (Unit {0}) × Db F × W
  unfolding check_one
  check_rows now delay targets [] db w = (ok tt, db, w)
  check_rows now delay targets (row ∷ rows) db w = elim row.command.applied_at [
    | none ↦ (raise type_error, db, w)
    | some applied_at ↦
        let (db', w') = check_one now delay targets row applied_at db w in
        check_rows now delay targets rows db' w'
  ]

  unfoldable pub check_in_flight_commands : ℕ → Db F → W → Result (Unit {0}) × Db F × W
  unfolding check_rows
  check_in_flight_commands now db w =
      check_rows now db.app_settings.command_verify_delay_seconds db.targets
        (join_devices db.devices (commands_in applied db.commands)) db w
