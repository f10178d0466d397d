-- ===== src/Schedule/Reached.antt =====
-- What holds of the commands table in every state that a schedule of the jobs reaches.
use heltec_wifi_optimization.Prelude.{ℕ, refl, subst, Option, none, some}
use heltec_wifi_optimization.Float.{Float}
use heltec_wifi_optimization.Db.{Device, pending, applied, same_status→eq}
use heltec_wifi_optimization.Events.{record_server_event, record_event}
use heltec_wifi_optimization.Notify.{notify}
use heltec_wifi_optimization.DeviceClient.{DeviceClient}
use heltec_wifi_optimization.Devices.{device_by_mac}
use heltec_wifi_optimization.Commands.Steps.{Continues, Continues-refl, Continues-trans}
use heltec_wifi_optimization.Commands.Tracked.{
  IsTracked, commands_of, query-IsTracked, ordered_query-IsTracked,
}
use heltec_wifi_optimization.Commands.Updates.{IsTimed, settle-IsTurn}
use heltec_wifi_optimization.Commands.Jobs.{IsPending, IsFlying, All-Unit}
use heltec_wifi_optimization.Optimizer.Halow.{emit_halow_command}
use heltec_wifi_optimization.Optimizer.Wifi24.{emit_wifi24_command}
use heltec_wifi_optimization.Dashboard.{reboot_device, queue_reboot, reboot_command}
use heltec_wifi_optimization.Schedule.{
  Applying, sending, replied, Checking, verifying, answered, System, Step, apply_reads, apply_skips,
  apply_calls, apply_writes, apply_ends, check_reads, check_skips, check_calls, check_writes,
  check_ends, check_raises, emits_halow, emits_wifi24, queues_reboot, leaves, Reach, here, next,
}
use heltec_wifi_optimization.Schedule.Turns.{
  record_sent-mark_of, next_id-record_sent, next_id-settle,
}
use heltec_wifi_optimization.Schedule.Keeps.{
  unsent, unchecked, IsConsistent, Kept, waits, inserts, applies, checks,
}
use heltec_wifi_optimization.Schedule.Frames.{IsSound-later}

queue_reboot-Kept :
    {F W : Type 0} (now : ℕ) (d : Option Device) (s : System F W)
    → IsConsistent s
    → Kept s (record s { db = (queue_reboot now d s.db).1 })
unfolding queue_reboot record_server_event record_event reboot_command
queue_reboot-Kept now none s h = (Continues-refl s.db.commands, h)
queue_reboot-Kept now (some d) s h =
    inserts s h (reboot_command s.db.next_id now d.id) _ refl refl refl refl

module _ {F W : Type 0} ⦃fl : Float F⦄ (client : DeviceClient F W) where
  Step-Kept : {s t : System F W} → IsConsistent s → Step client s t → Kept s t
  unfolding emit_halow_command emit_wifi24_command record_server_event record_event notify
      reboot_device
  Step-Kept {s} h (apply_reads idle) =
      waits s h _ s.checking s.network
        (ordered_query-IsTracked (λ _. Unit) pending s.db.devices s.db.commands h.sound.distinct
          (All-Unit s.db.commands))
        h.applied_rows
  Step-Kept {s} h (apply_skips targets row rows at unknown_role) =
      let (_, _, _, rest) =
        subst (λ a. IsTracked IsPending (unsent a) s.db.commands) at h.pending_rows in
      waits s h (sending targets rows) s.checking s.network rest h.applied_rows
  Step-Kept {s} h (apply_calls targets row rows target at known) =
      waits s h (replied targets row rows _) s.checking _
        (subst (λ a. IsTracked IsPending (unsent a) s.db.commands) at h.pending_rows) h.applied_rows
  Step-Kept {s} h (apply_writes now targets row rows reply at) =
      let tracked = subst (λ a. IsTracked IsPending (unsent a) s.db.commands) at h.pending_rows in
      applies s h row.command (commands_of rows) _ (sending targets rows) tracked
        (record_sent-mark_of client now row.command row.command.param (reply, s.network) s.db refl
          (same_status→eq row.command.status pending tracked.1.1))
        (next_id-record_sent client now row.command.id _ (reply, s.network) s.db) refl
  Step-Kept {s} h (apply_ends targets at) =
      waits s h Applying.resting s.checking s.network tt h.applied_rows
  Step-Kept {s} h (check_reads now idle) =
      waits s h s.applying _ s.network h.pending_rows
        (query-IsTracked IsTimed applied s.db.devices s.db.commands h.sound.distinct h.sound.timed)
  Step-Kept {s} h (check_skips now delay applied_at targets row rows at time skipped) =
      let (_, _, _, rest) =
        subst (λ a. IsTracked IsFlying (unchecked a) s.db.commands) at h.applied_rows in
      waits s h s.applying (verifying now delay targets rows) s.network h.pending_rows rest
  Step-Kept {s} h (check_calls now delay applied_at targets row rows target at time due known) =
      waits s h s.applying (answered now delay targets row rows applied_at _) _ h.pending_rows
        (subst (λ a. IsTracked IsFlying (unchecked a) s.db.commands) at h.applied_rows)
  Step-Kept {s} h (check_writes now delay applied_at targets row rows reply at) =
      let tracked = subst (λ a. IsTracked IsFlying (unchecked a) s.db.commands) at h.applied_rows in
      checks s h row.command (commands_of rows) _ (verifying now delay targets rows) tracked
        (settle-IsTurn client now row.command s.db applied_at reply
          (same_status→eq row.command.status applied tracked.1.1))
        (next_id-settle client now applied_at row.command reply s.db) refl
  Step-Kept {s} h (check_ends now delay targets at) =
      waits s h s.applying Checking.resting s.network h.pending_rows tt
  Step-Kept {s} h (check_raises now delay targets row rows at no_time) =
      waits s h s.applying Checking.resting s.network h.pending_rows tt
  Step-Kept {s} h (emits_halow now d channel bw current_channel current_bw why) =
      inserts s h _ _ refl refl refl refl
  Step-Kept {s} h (emits_wifi24 now d channel current_channel avg_retries) =
      inserts s h _ _ refl refl refl refl
  Step-Kept {s} h (queues_reboot now device_mac) =
      queue_reboot-Kept now (device_by_mac device_mac s.db.devices) s h
  Step-Kept {s} h (leaves db network same later) = (
    rw same (Continues-refl s.db.commands),
    record {
      sound = rw same (IsSound-later s.db.next_id db.next_id s.db.commands later h.sound);
      pending_rows = rw same h.pending_rows;
      applied_rows = rw same h.applied_rows;
    },
  )

  -- However the two command jobs, the optimizer, the dashboard and the other jobs take turns at
  -- their waits, from a sound table on: no command is lost, each takes legal steps only, the table
  -- stays sound, and the rows that a job still has to handle are as it read them.
  pub Reach-IsConsistent :
      {s t : System F W}
      → IsConsistent s
      → Reach client s t
      → Continues s.db.commands t.db.commands × IsConsistent t
  Reach-IsConsistent {s} h here = (Continues-refl s.db.commands, h)
  Reach-IsConsistent {s} h (next {t} {u} r step) =
      let (continues, consistent) = Reach-IsConsistent h r in
      let (continues', consistent') = Step-Kept consistent step in
      (Continues-trans s.db.commands t.db.commands u.db.commands continues continues', consistent')
