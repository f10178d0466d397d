-- ===== src/Schedule/Watchdog.antt =====
-- The watchdog of app/main.py and the table of commands.
use heltec_wifi_optimization.Prelude.{
  Option-cases, not, ◌&&◌, ℕ, ◌+◌, refl, Bool-cases, inl, inr, ◌==◌, ltb, leb, arith, Result, ok,
  raise,
}
use heltec_wifi_optimization.Db.{Db, Device, DeviceTarget, Role}
use heltec_wifi_optimization.DeviceClient.{DeviceClient}
use heltec_wifi_optimization.Notify.{notify}
use heltec_wifi_optimization.Events.{record_event, record_server_event}
use heltec_wifi_optimization.Devices.{set_device, device_by_mac}
use heltec_wifi_optimization.Recovery.{
  min_consecutive_down_polls_before_reboot, max_consecutive_auto_reboots, set_down_polls, cooling,
  give_up, record_reboot, recover, maybe_auto_recover_radio,
}
use heltec_wifi_optimization.Recovery.Reset.{clear_streak, end_recovery, reset_auto_recovery}
use heltec_wifi_optimization.Schedule.Others.{Leaves, Leaves-refl, Leaves-trans}

module _ {F : Type 0} where
  give_up-Leaves :
      (now : ℕ) (role : Role) (d : Device) (db : Db F) → Leaves db (give_up now role d db)
  unfolding give_up record_server_event record_event notify set_device
  give_up-Leaves now role d db = elim (Bool-cases d.auto_recovery_exhausted_alerted) [
    | (inl told) ↦ simp (told) (Leaves-refl db)
    | (inr untold) ↦ simp (untold) (record { commands = refl; next_id = omega arith })
  ]

  record_reboot-Leaves :
      {W : Type 0} (now : ℕ) (role : Role) (d : Device) (down_polls : ℕ) (r : Result (Unit {0}) × W)
      (db : Db F)
      → Leaves db (record_reboot now role d down_polls r db).0
  unfolding record_reboot record_server_event record_event notify set_device
  record_reboot-Leaves now role d down_polls (raise e, w) db = Leaves-refl db
  record_reboot-Leaves now role d down_polls (ok tt, w) db = record {
    commands = refl;
    next_id = omega arith;
  }

  pub set_device-Leaves :
      (id : ℕ) (change : Device → Device) (db : Db F) → Leaves db (set_device id change db)
  unfolding set_device
  set_device-Leaves id change db = record { commands = refl; next_id = omega arith }

  recover-Leaves :
      {W : Type 0} (client : DeviceClient F W) (now : ℕ) (role : Role) (d : Device)
      (target : DeviceTarget) (db : Db F) (w : W)
      → Leaves db (recover client now role d target db w).0
  unfolding recover
  recover-Leaves client now role d target db w =
      let down_polls = d.consecutive_radio_down_polls + 1 in
      let seen = set_device-Leaves d.id (set_down_polls down_polls) db in
      elim (Bool-cases (ltb down_polls min_consecutive_down_polls_before_reboot)) [
        | (inl few) ↦ simp (few) seen
        | (inr many) ↦ elim (Bool-cases (cooling now d.last_auto_reboot_at)) [
          | (inl hot) ↦ simp (many, hot) seen
          | (inr cold) ↦
              elim (Bool-cases (leb max_consecutive_auto_reboots d.consecutive_auto_reboots)) [
                | (inl used) ↦
                    simp (many, cold, used) (Leaves-trans seen (give_up-Leaves now role d _))
                | (inr left) ↦
                    simp (many, cold, left)
                      (Leaves-trans seen
                        (record_reboot-Leaves now role d down_polls (client.reboot target w) _))
              ]
        ]
      ]

  pub maybe_auto_recover_radio-Leaves :
      {W : Type 0} (client : DeviceClient F W) (now : ℕ) (role : Role) (mac : ℕ)
      (target : DeviceTarget) (db : Db F) (w : W)
      → Leaves db (maybe_auto_recover_radio client now role mac target db w).0
  unfolding maybe_auto_recover_radio
  maybe_auto_recover_radio-Leaves client now role mac target db w =
      elim (Option-cases (device_by_mac mac db.devices)) [
        | (inl unknown_mac) ↦ simp (unknown_mac, maybe_auto_recover_radio) (Leaves-refl db)
        | (inr (d, known)) ↦
            simp (known, maybe_auto_recover_radio) (recover-Leaves client now role d target db w)
      ]

  clear_streak-Leaves : (d : Device) (db : Db F) → Leaves db (clear_streak d db)
  unfolding clear_streak
  clear_streak-Leaves d db = elim (Bool-cases (d.consecutive_radio_down_polls == 0)) [
    | (inl none_down) ↦ simp (none_down) (Leaves-refl db)
    | (inr some_down) ↦ simp (some_down) (set_device-Leaves d.id _ db)
  ]

  end_recovery-Leaves :
      (now : ℕ) (role : Role) (d : Device) (db : Db F) → Leaves db (end_recovery now role d db)
  unfolding end_recovery record_server_event record_event notify set_device
  end_recovery-Leaves now role d db =
      elim (Bool-cases (d.consecutive_auto_reboots == 0 && not d.auto_recovery_exhausted_alerted)) [
        | (inl calm) ↦ simp (calm) (Leaves-refl db)
        | (inr over) ↦ simp (over) (record { commands = refl; next_id = omega arith })
      ]

  pub reset_auto_recovery-Leaves :
      (now : ℕ) (role : Role) (mac : ℕ) (db : Db F)
      → Leaves db (reset_auto_recovery now role mac db)
  unfolding reset_auto_recovery
  reset_auto_recovery-Leaves now role mac db = elim (Option-cases (device_by_mac mac db.devices)) [
    | (inl unknown_mac) ↦ simp (unknown_mac, reset_auto_recovery) (Leaves-refl db)
    | (inr (d, known)) ↦
        simp (known, reset_auto_recovery)
          (Leaves-trans (clear_streak-Leaves d db)
            (end_recovery-Leaves now role d (clear_streak d db)))
  ]
