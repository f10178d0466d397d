-- ===== src/Examples/ScheduleRuns.antt =====
-- A schedule in which both command jobs and the dashboard take turns.
use heltec_wifi_optimization.Prelude.{ℕ, refl, length}
use heltec_wifi_optimization.Commands.Rows.{target_of_role, join_devices, order_by_age, commands_in}
use heltec_wifi_optimization.Commands.Apply.{apply_pending_commands}
use heltec_wifi_optimization.Commands.Verify.{check_in_flight_commands}
use heltec_wifi_optimization.Commands.Steps.{Continues}
use heltec_wifi_optimization.Schedule.{
  Applying, Checking, System, Step, Reach, here, next, apply_reads, apply_calls, apply_writes,
  check_reads, check_calls, check_writes, queues_reboot,
}
use heltec_wifi_optimization.Schedule.Keeps.{IsConsistent}
use heltec_wifi_optimization.Schedule.Reached.{Reach-IsConsistent}
use heltec_wifi_optimization.Schedule.Alone.{jobs-Reach}
use heltec_wifi_optimization.Schedule.Polls.{leaves-Step}
use heltec_wifi_optimization.Poll.{poll_telemetry}
use heltec_wifi_optimization.Backups.{poll_backups}
use heltec_wifi_optimization.Devices.Liveness.{check_device_liveness}
use heltec_wifi_optimization.Examples.Data.{busy_db, obedient, target, thousandths}
use heltec_wifi_optimization.Examples.CommandRuns.{busy-IsSound}

abbrev quiet : System ℕ ℕ
quiet = record {
  db = busy_db;
  network = 0;
  applying = Applying.resting;
  checking = Checking.resting;
}

-- Both jobs read their rows, both call, the dashboard queues a reboot, and both write.
abbrev Interleaved : Type 0
Interleaved = (s : System ℕ ℕ) × Reach obedient quiet s

abbrev interleaved : Interleaved
unfolding target_of_role join_devices order_by_age commands_in
interleaved = (
  _,
  next
      (next
        (next
          (next
            (next (next (next here (check_reads 60000000 refl)) (apply_reads refl))
              (apply_calls _ _ _ target refl refl))
            (check_calls 60000000 30 0 _ _ _ target refl refl refl refl))
          (queues_reboot 60000000 101))
        (apply_writes 60000000 _ _ _ _ refl))
      (check_writes 60000000 30 0 _ _ _ _ refl),
)

quiet-IsConsistent : IsConsistent quiet
quiet-IsConsistent = record { sound = busy-IsSound; pending_rows = tt; applied_rows = tt }

Reach-IsConsistent_example :
    Continues quiet.db.commands interleaved.0.db.commands × IsConsistent interleaved.0
Reach-IsConsistent_example = Reach-IsConsistent obedient quiet-IsConsistent interleaved.1

jobs-Reach_example :
    Reach obedient quiet (record {
      db = (apply_pending_commands obedient 60000000 busy_db 0).0;
      network = (apply_pending_commands obedient 60000000 busy_db 0).1;
      applying = Applying.resting;
      checking = Checking.resting;
    })
    × Reach obedient quiet (record {
      db = (check_in_flight_commands obedient 60000000 busy_db 0).1;
      network = (check_in_flight_commands obedient 60000000 busy_db 0).2;
      applying = Applying.resting;
      checking = Checking.resting;
    })
jobs-Reach_example = jobs-Reach obedient 60000000 Applying.resting Checking.resting busy_db 0

leaves-Step_example :
    let (_, polled, w') = poll_telemetry obedient 60 quiet.db quiet.network in
    let (fetched, w'') = poll_backups length obedient 60 quiet.db quiet.network in
    Step obedient quiet (record quiet { db = polled; network = w' })
    × Step obedient quiet (record quiet { db = fetched; network = w'' })
    × Step obedient quiet (record quiet { db = check_device_liveness 60 quiet.db })
leaves-Step_example = leaves-Step obedient length 60 quiet
