-- ===== src/Examples/CommandRuns.antt =====
-- The command jobs at concrete inputs.
use heltec_wifi_optimization.Prelude.{◌≡◌, refl, [], ◌∷◌, arith, ok}
use heltec_wifi_optimization.Db.{seconds}
use heltec_wifi_optimization.Commands.Rows.{
  join_devices, order_by_age, commands_in, target_of_role, set_command,
}
use heltec_wifi_optimization.Commands.Apply.{apply_pending_commands, mark_rebooted}
use heltec_wifi_optimization.Commands.Verify.{check_in_flight_commands}
use heltec_wifi_optimization.Commands.Steps.{Continues}
use heltec_wifi_optimization.Commands.Updates.{IsTimed}
use heltec_wifi_optimization.Commands.History.{IsSound}
use heltec_wifi_optimization.Commands.Jobs.{
  apply_pending_commands-IsSound, check_in_flight_commands-IsSound,
}
use heltec_wifi_optimization.Commands.Deadline.{IsEnded, check_in_flight_commands-IsEnded}
use heltec_wifi_optimization.Examples.Data.{
  busy_db, applied_command, pending_reboot, unreachable, obedient,
}

applied-IsTimed : IsTimed applied_command
applied-IsTimed = record {
  applied_time = λ _. (0, refl);
  acked_time = λ h. cc;
  reverted_reason = λ h. cc;
  unknown_reason = λ h. cc;
}

pending-IsTimed : IsTimed pending_reboot
pending-IsTimed = record {
  applied_time = λ h. cc;
  acked_time = λ h. cc;
  reverted_reason = λ h. cc;
  unknown_reason = λ h. cc;
}

pub busy-IsSound : IsSound 3 busy_db.commands
busy-IsSound = record {
  distinct = omega arith;
  bounded = omega arith;
  timed = (applied-IsTimed, (pending-IsTimed, tt));
}

-- Reachable devices get the reboot, and it is acked at once.
apply_reboot :
    (apply_pending_commands obedient 5 busy_db 0).0.commands
    ≡ applied_command ∷ mark_rebooted 5 pending_reboot ∷ []
unfolding apply_pending_commands commands_in join_devices order_by_age target_of_role set_command
apply_reboot = refl

apply_pending_commands-IsSound_example :
    let db' = (apply_pending_commands obedient 5 busy_db 0).0 in
    Continues busy_db.commands db'.commands × IsSound 3 db'.commands
apply_pending_commands-IsSound_example =
    apply_pending_commands-IsSound obedient 5 3 busy_db 0 busy-IsSound

check_in_flight_commands-IsSound_example :
    let (r, db', w') = check_in_flight_commands unreachable (seconds 200) busy_db tt in
    (r ≡ ok tt) × Continues busy_db.commands db'.commands × IsSound 3 db'.commands
check_in_flight_commands-IsSound_example =
    check_in_flight_commands-IsSound unreachable (seconds 200) 3 busy_db tt busy-IsSound

check_in_flight_commands-IsEnded_example :
    IsEnded 1 (check_in_flight_commands unreachable (seconds 200) busy_db tt).1.commands
unfolding target_of_role
check_in_flight_commands-IsEnded_example =
    check_in_flight_commands-IsEnded unreachable (seconds 200) busy_db tt applied_command
      busy-IsSound refl refl refl refl refl (omega arith) (omega arith)
