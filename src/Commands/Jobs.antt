-- ===== src/Commands/Jobs.antt =====
-- The command jobs of app/main.py and the legal steps of commands.
use heltec_wifi_optimization.Prelude.{
  All, ℕ, ◌≡◌, refl, inl, inr, true, Option, none, some, List, [], ◌∷◌, Bool-cases, Result, ok,
}
use heltec_wifi_optimization.Db.{
  Db, Command, DeviceTarget, pending, applied, same_status, same_status→eq,
}
use heltec_wifi_optimization.DeviceClient.{DeviceClient}
use heltec_wifi_optimization.Commands.Rows.{Joined, target_of_role}
use heltec_wifi_optimization.Commands.Apply.{apply_one, apply_rows, apply_pending_commands}
use heltec_wifi_optimization.Commands.Verify.{
  check_target, check_one, too_early, check_rows, check_in_flight_commands,
}
use heltec_wifi_optimization.Commands.Steps.{Continues}
use heltec_wifi_optimization.Commands.Tracked.{
  IsTracked, commands_of, query-IsTracked, ordered_query-IsTracked,
}
use heltec_wifi_optimization.Commands.History.{
  IsSound, IsKept, IsKept-refl, IsKept-turn, turn-IsTracked,
}
use heltec_wifi_optimization.Commands.Updates.{IsTimed, IsTurn, send-IsTurn, settle-IsTurn}

pub All-Unit : (cs : List Command) → All (λ _. Unit {0}) cs
All-Unit [] = tt
All-Unit (c ∷ cs) = (tt, All-Unit cs)

abbrev pub IsPending : Command → Type 0
IsPending c = Unit × (same_status c.status pending ≡ true)

abbrev pub IsFlying : Command → Type 0
IsFlying c = IsTimed c × (same_status c.status applied ≡ true)

module _ {F W : Type 0} (client : DeviceClient F W) (now next_id : ℕ) where
  apply_one-IsTurn :
      (row : Joined) (target : Option DeviceTarget) (db : Db F) (w : W)
      → IsPending row.command
      → IsTurn row.command db.commands (apply_one client now row target db w).0.commands
  unfolding apply_one
  apply_one-IsTurn row none db w ready = inl refl
  apply_one-IsTurn row (some target) db w ready =
      send-IsTurn client now row.command db target row.command.param w refl
        (same_status→eq row.command.status pending ready.1)

  apply_rows-IsKept :
      (targets : List DeviceTarget) (rows : List Joined) (db : Db F) (w : W)
      → IsTracked IsPending (commands_of rows) db.commands
      → IsKept next_id db.commands (apply_rows client now targets rows db w).0.commands
  unfolding apply_rows
  apply_rows-IsKept targets [] db w tracked = IsKept-refl next_id db.commands
  apply_rows-IsKept targets (row ∷ rows) db w tracked =
      let target = target_of_role row.role targets in
      let (db', w') = apply_one client now row target db w in
      let turn = apply_one-IsTurn row target db w tracked.1 in
      IsKept-turn next_id IsPending row.command (commands_of rows) _ _ _ turn tracked (
        apply_rows-IsKept targets rows db' w' (
          turn-IsTracked row.command db.commands db'.commands IsPending (commands_of rows) turn
            tracked))

  check_target-IsTurn :
      (c : Command) (applied_at : ℕ) (target : Option DeviceTarget) (db : Db F) (w : W)
      → c.status ≡ applied
      → IsTurn c db.commands (check_target client now c applied_at target db w).0.commands
  unfolding check_target
  check_target-IsTurn c applied_at none db w flying = inl refl
  check_target-IsTurn c applied_at (some target) db w flying =
      settle-IsTurn client now c db applied_at _ flying

  pub check_one-IsTurn :
      (delay : ℕ) (targets : List DeviceTarget) (row : Joined) (applied_at : ℕ) (db : Db F) (w : W)
      → row.command.status ≡ applied
      → IsTurn row.command db.commands
          (check_one client now delay targets row applied_at db w).0.commands
  unfolding check_one
  check_one-IsTurn delay targets row applied_at db w flying =
      elim (Bool-cases (too_early now applied_at delay)) [
        | inl early ↦ inl (simp early)
        | inr due ↦ simp due (check_target-IsTurn row.command applied_at _ db w flying)
      ]

  -- The job keeps the table, and does not raise.
  abbrev IsChecked : Db F → Result (Unit {0}) × Db F × W → Type 0
  IsChecked db (r, db', w) = (r ≡ ok tt) × IsKept next_id db.commands db'.commands

  check_rows-IsChecked :
      (delay : ℕ) (targets : List DeviceTarget) (rows : List Joined) (db : Db F) (w : W)
      → IsTracked IsFlying (commands_of rows) db.commands
      → IsChecked db (check_rows client now delay targets rows db w)
  unfolding check_rows
  check_rows-IsChecked delay targets [] db w tracked = (refl, IsKept-refl next_id db.commands)
  check_rows-IsChecked delay targets (row ∷ rows) db w tracked =
      let flying = same_status→eq row.command.status applied tracked.1.1 in
      let (t, time) = tracked.1.0.applied_time flying in
      let (db', w') = check_one client now delay targets row t db w in
      let turn = check_one-IsTurn delay targets row t db w flying in
      let (done, kept) = check_rows-IsChecked delay targets rows db' w' (
        turn-IsTracked row.command db.commands db'.commands IsFlying (commands_of rows) turn
          tracked) in
      simp (time, check_rows)
        (done, IsKept-turn next_id IsFlying row.command (commands_of rows) _ _ _ turn tracked kept)

  -- However the SSH calls end, the job leaves every command in the table, moves it by legal steps
  -- only, and keeps a sound table sound.
  pub apply_pending_commands-IsSound :
      (db : Db F) (w : W)
      → IsSound next_id db.commands
      → let db' = (apply_pending_commands client now db w).0 in
        Continues db.commands db'.commands × IsSound next_id db'.commands
  unfolding apply_pending_commands
  apply_pending_commands-IsSound db w sound =
      let kept = apply_rows-IsKept db.targets _ db w (
        ordered_query-IsTracked (λ _. Unit) pending db.devices db.commands sound.distinct
          (All-Unit db.commands)) in
      (kept.continues, kept.sound sound)

  -- On a sound table the job never raises, leaves every command in the table, moves it by legal
  -- steps only, and keeps the table sound, however the devices answer.
  pub check_in_flight_commands-IsSound :
      (db : Db F) (w : W)
      → IsSound next_id db.commands
      → let (r, db', w') = check_in_flight_commands client now db w in
        (r ≡ ok tt) × Continues db.commands db'.commands × IsSound next_id db'.commands
  unfolding check_in_flight_commands
  check_in_flight_commands-IsSound db w sound =
      let (done, kept) =
        check_rows-IsChecked db.app_settings.command_verify_delay_seconds db.targets _ db w
          (query-IsTracked IsTimed applied db.devices db.commands sound.distinct sound.timed) in
      (done, kept.continues, kept.sound sound)
