-- ===== src/Examples/DashboardRuns.antt =====
-- The dashboard's reboot at a concrete device that cannot be reached.
use heltec_wifi_optimization.Prelude.{◌≡◌, refl, [], ok}
use heltec_wifi_optimization.Commands.Rows.{target_of_role}
use heltec_wifi_optimization.Commands.Apply.{apply_pending_commands}
use heltec_wifi_optimization.AgentClient.{device_client}
use heltec_wifi_optimization.Dashboard.{reboot_device}
use heltec_wifi_optimization.Dashboard.Queued.{
  IsQueued, IsAcked, reboot_device-apply_pending_commands,
}
use heltec_wifi_optimization.Examples.Data.{busy_db, target, access_point}
use heltec_wifi_optimization.Examples.CommandRuns.{busy-IsSound}
use heltec_wifi_optimization.Examples.SshRuns.{dead, no_document}

reboot_device-apply_pending_commands_example :
    let (result, queued) = reboot_device 60 101 busy_db in
    let db' =
      (apply_pending_commands
        (device_client dead no_document)
        90
        queued
        (record { connections = []; network = 0 })).0 in
    (result ≡ ok tt)
    × IsQueued busy_db.next_id access_point.id queued.commands
    × IsAcked busy_db.next_id db'.commands
unfolding target_of_role
reboot_device-apply_pending_commands_example =
    reboot_device-apply_pending_commands dead no_document 60 90 101 access_point target busy_db
      (record { connections = []; network = 0 }) refl refl refl busy-IsSound
