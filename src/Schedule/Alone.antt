-- ===== src/Schedule/Alone.antt =====
-- A command job of app/main.py that no other job interrupts, as a schedule.
use heltec_wifi_optimization.Prelude.{
  ℕ, ◌≡◌, refl, subst, false, Option, none, some, List, [], ◌∷◌, inl, inr, Result, ok, raise,
  Bool-cases, Option-cases,
}
use heltec_wifi_optimization.Float.{Float}
use heltec_wifi_optimization.Db.{
  Db, Command, DeviceTarget, Param, reboot, halow_operating_freq, wifi24_channel,
}
use heltec_wifi_optimization.DeviceClient.{DeviceClient}
use heltec_wifi_optimization.Commands.Apply.{
  mark_applied, mark_rebooted, record_sent, send, apply_one, apply_rows, apply_pending_commands,
}
use heltec_wifi_optimization.Commands.Verify.{
  check_target, too_early, check_one, check_rows, check_in_flight_commands,
}
use heltec_wifi_optimization.Commands.Rows.{Joined, target_of_role}
use heltec_wifi_optimization.Schedule.{
  Applying, sending, Checking, verifying, System, mark_of, call_of, Step, apply_reads, apply_skips,
  apply_calls, apply_writes, apply_ends, check_reads, check_skips, check_calls, check_writes,
  check_ends, check_raises, Reach, here, next,
}

module _ {F W : Type 0} ⦃fl : Float F⦄ (client : DeviceClient F W) where
  Reach-trans : {s t u : System F W} → Reach client s t → Reach client t u → Reach client s u
  Reach-trans r here = r
  Reach-trans r (next q step) = next (Reach-trans r q) step

  Reach-Step : {s t : System F W} → Step client s t → Reach client s t
  Reach-Step step = next here step

  abbrev at_apply : Checking → Applying → Db F × W → System F W
  at_apply checking applying (db, w) = record {
    db = db;
    network = w;
    applying = applying;
    checking = checking;
  }

  abbrev at_check : Applying → Checking → Db F × W → System F W
  at_check applying checking (db, w) = record {
    db = db;
    network = w;
    applying = applying;
    checking = checking;
  }

  record_sent-network :
      (now id : ℕ) (mark : ℕ → Command → Command) (reply : Result (Unit {0}) × W) (db : Db F)
      → ◌≡◌ {A = Db F × W}
          ((record_sent client now mark id reply db).0, reply.1)
          (record_sent client now mark id reply db)
  unfolding record_sent
  record_sent-network now id mark (ok _, w) db = refl
  record_sent-network now id mark (raise e, w) db = refl

  -- a job's call and its write, in one
  send_lem :
      (now : ℕ) (c : Command) (target : DeviceTarget) (param : Param) (db : Db F) (w : W)
      → ◌≡◌ {A = Db F × W}
          (
            (record_sent client now (mark_of param) c.id (call_of client param c target w) db).0,
            (call_of client param c target w).1,
          )
          (send client now c target param db w)
  unfolding send call_of
  send_lem now c target reboot db w =
      record_sent-network now c.id mark_rebooted (client.reboot target w) db
  send_lem now c target halow_operating_freq db w =
      record_sent-network now c.id mark_applied (call_of client halow_operating_freq c target w) db
  send_lem now c target wifi24_channel db w =
      record_sent-network now c.id mark_applied (call_of client wifi24_channel c target w) db

  apply_one-Reach :
      (now : ℕ) (checking : Checking) (targets : List DeviceTarget) (row : Joined)
      (rows : List Joined) (target : Option DeviceTarget) (db : Db F) (w : W)
      → target_of_role row.role targets ≡ target
      → Reach client
          (at_apply checking (sending targets (row ∷ rows)) (db, w))
          (at_apply checking (sending targets rows) (apply_one client now row target db w))
  unfolding apply_one
  apply_one-Reach now checking targets row rows none db w known =
      Reach-Step (apply_skips targets row rows refl known)
  apply_one-Reach now checking targets row rows (some target) db w known =
      subst
        (λ r.
          Reach client (at_apply checking (sending targets (row ∷ rows)) (db, w))
            (at_apply checking (sending targets rows) r))
        (send_lem now row.command target row.command.param db w)
        (next (Reach-Step (apply_calls targets row rows target refl known))
          (apply_writes now targets row rows _ refl))

  apply_rows-Reach :
      (now : ℕ) (checking : Checking) (targets : List DeviceTarget) (rows : List Joined) (db : Db F)
      (w : W)
      → Reach client
          (at_apply checking (sending targets rows) (db, w))
          (at_apply checking (sending targets []) (apply_rows client now targets rows db w))
  unfolding apply_rows
  apply_rows-Reach now checking targets [] db w = here
  apply_rows-Reach now checking targets (row ∷ rows) db w =
      let target = target_of_role row.role targets in
      let (db', w') = apply_one client now row target db w in
      Reach-trans (apply_one-Reach now checking targets row rows target db w refl)
        (apply_rows-Reach now checking targets rows db' w')

  check_target-Reach :
      (now delay applied_at : ℕ) (applying : Applying) (targets : List DeviceTarget) (row : Joined)
      (rows : List Joined) (target : Option DeviceTarget) (db : Db F) (w : W)
      → row.command.applied_at ≡ some applied_at
      → too_early now applied_at delay ≡ false
      → target_of_role row.role targets ≡ target
      → Reach client (at_check applying (verifying now delay targets (row ∷ rows)) (db, w)) (
          at_check applying
            (verifying now delay targets rows)
            (check_target client now row.command applied_at target db w))
  unfolding check_target
  check_target-Reach now delay applied_at applying targets row rows none db w time due known =
      Reach-Step (check_skips now delay applied_at targets row rows refl time (inr known))
  check_target-Reach now delay applied_at applying targets row rows (some target) db w time due
        known =
      next
        (Reach-Step (check_calls now delay applied_at targets row rows target refl time due known))
        (check_writes now delay applied_at targets row rows _ refl)

  check_one-Reach :
      (now delay applied_at : ℕ) (applying : Applying) (targets : List DeviceTarget) (row : Joined)
      (rows : List Joined) (db : Db F) (w : W)
      → row.command.applied_at ≡ some applied_at
      → Reach client (at_check applying (verifying now delay targets (row ∷ rows)) (db, w)) (
          at_check applying
            (verifying now delay targets rows)
            (check_one client now delay targets row applied_at db w))
  unfolding check_one
  check_one-Reach now delay applied_at applying targets row rows db w time =
      elim (Bool-cases (too_early now applied_at delay)) [
        | inl early ↦
            simp early
              (Reach-Step (check_skips now delay applied_at targets row rows refl time (inl early)))
        | inr due ↦
            simp due (
              check_target-Reach now delay applied_at applying targets row rows _ db w time due
                refl)
      ]

  check_rows-Reach :
      (now delay : ℕ) (applying : Applying) (targets : List DeviceTarget) (rows : List Joined)
      (db : Db F) (w : W)
      → Reach client (at_check applying (verifying now delay targets rows) (db, w)) (
          at_check applying Checking.resting (
            (check_rows client now delay targets rows db w).1,
            (check_rows client now delay targets rows db w).2,
          ))
  unfolding check_rows
  check_rows-Reach now delay applying targets [] db w =
      Reach-Step (check_ends now delay targets refl)
  check_rows-Reach now delay applying targets (row ∷ rows) db w =
      elim (Option-cases row.command.applied_at) [
        | inl no_time ↦
            simp (no_time, check_rows)
              (Reach-Step (check_raises now delay targets row rows refl no_time))
        | inr (applied_at, time) ↦
            let (db', w') = check_one client now delay targets row applied_at db w in
            simp (time, check_rows)
              (Reach-trans
                (check_one-Reach now delay applied_at applying targets row rows db w time)
                (check_rows-Reach now delay applying targets rows db' w'))
      ]

  -- Each of the two jobs, run to its end between two steps of the others, is a schedule, whatever
  -- the table holds and however the devices answer.
  pub jobs-Reach :
      (now : ℕ) (applying : Applying) (checking : Checking) (db : Db F) (w : W)
      → Reach client
          (record { db = db; network = w; applying = Applying.resting; checking = checking })
          (record {
            db = (apply_pending_commands client now db w).0;
            network = (apply_pending_commands client now db w).1;
            applying = Applying.resting;
            checking = checking;
          })
        × Reach client
            (record { db = db; network = w; applying = applying; checking = Checking.resting })
            (record {
              db = (check_in_flight_commands client now db w).1;
              network = (check_in_flight_commands client now db w).2;
              applying = applying;
              checking = Checking.resting;
            })
  unfolding apply_pending_commands check_in_flight_commands
  jobs-Reach now applying checking db w = (
    next
        (Reach-trans (Reach-Step (apply_reads refl))
          (apply_rows-Reach now checking db.targets _ db w))
        (apply_ends db.targets refl),
    Reach-trans (Reach-Step (check_reads now refl)) (
        check_rows-Reach now db.app_settings.command_verify_delay_seconds applying db.targets _ db
          w),
  )
