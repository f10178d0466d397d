-- ===== src/Commands/Deadline.antt =====
-- `check_in_flight_commands` of app/main.py at the deadline of a command.
use heltec_wifi_optimization.Prelude.{
  ℕ, ◌+◌, ◌≤◌, ◌≡◌, refl, sym, subst, ◌∙◌, ◌≢◌, inl, inr, Bool, true, false, some, List, [], ◌∷◌,
  arith, Result, ok, raise,
}
use heltec_wifi_optimization.Db.{
  Db, Command, Device, DeviceTarget, applied, seconds, same_status→eq,
}
use heltec_wifi_optimization.Events.{record_server_event}
use heltec_wifi_optimization.DeviceClient.{DeviceClient}
use heltec_wifi_optimization.Commands.Rows.{
  Joined, device_at, commands_in, target_of_role, set_command,
}
use heltec_wifi_optimization.Commands.Verify.{
  settle, check_target, check_one, too_early, overdue, check_rows, check_in_flight_commands,
  mark_acked, mark_reverted, mark_unknown,
}
use heltec_wifi_optimization.Commands.Steps.{
  command_at, command_at-update_self, command_at-update_ne, is_final,
}
use heltec_wifi_optimization.Commands.Occurs.{
  Occurs, command_at-Occurs, select-Occurs, row_of, join_devices-Occurs,
}
use heltec_wifi_optimization.Commands.Tracked.{IsFresh, IsTracked, commands_of, query-IsTracked}
use heltec_wifi_optimization.Commands.Updates.{IsTimed, IsTurn, commands-notify_command_outcome}
use heltec_wifi_optimization.Commands.History.{IsSound, turn-IsTracked}
use heltec_wifi_optimization.Commands.Jobs.{IsFlying, check_one-IsTurn}

Occurs-ne :
    (row : Joined) (i : ℕ) (rows : List Joined)
    → Occurs row rows
    → IsFresh i (commands_of rows)
    → row.command.id ≢ i
Occurs-ne row i [] h fresh = absurd h
Occurs-ne row i (r ∷ rows) (inl e) (ne, fresh) = rw e ne
Occurs-ne row i (r ∷ rows) (inr h) (ne, fresh) = Occurs-ne row i rows h fresh

-- A turn leaves the rows of other ids as they are.
turn_elsewhere :
    (c : Command) (cs cs' : List Command) (i : ℕ)
    → IsTurn c cs cs'
    → i ≢ c.id
    → command_at i cs' ≡ command_at i cs
turn_elsewhere c cs cs' i (inl same) ne = rw same
turn_elsewhere c cs cs' i (inr u) ne =
    rw u.result (command_at-update_ne i c.id u.change cs u.same_id ne)

abbrev pub IsEnded : ℕ → List Command → Type 0
IsEnded i cs = (c : Command) × (command_at i cs ≡ some c) × (is_final c.status ≡ true)

module _ {F W : Type 0} (client : DeviceClient F W) (now : ℕ) where
  settle-IsEnded :
      (c : Command) (t : ℕ) (reply : Result Bool) (db : Db F)
      → command_at c.id db.commands ≡ some c
      → overdue now t c.ttl_seconds ≡ true
      → IsEnded c.id (settle client now c t reply db).commands
  unfolding settle set_command record_server_event
  settle-IsEnded c t (ok true) db at late =
      (mark_acked now c, command_at-update_self c.id (mark_acked now) c _ (λ d. refl) at, refl)
  settle-IsEnded c t (ok false) db at late = (
    mark_reverted c,
    rw commands-notify_command_outcome
        (command_at-update_self c.id mark_reverted c _ (λ d. refl) at),
    refl,
  )
  settle-IsEnded c t (raise e) db at late = (
    mark_unknown c,
    simp (late, commands-notify_command_outcome)
        (command_at-update_self c.id mark_unknown c _ (λ d. refl) at),
    refl,
  )

  module _ (delay : ℕ) (targets : List DeviceTarget) where
    -- Rows that do not hold an id leave it alone.
    check_rows_elsewhere :
        (rows : List Joined) (i : ℕ) (db : Db F) (w : W)
        → IsFresh i (commands_of rows)
        → IsTracked IsFlying (commands_of rows) db.commands
        → command_at i (check_rows client now delay targets rows db w).1.commands
          ≡ command_at i db.commands
    unfolding check_rows
    check_rows_elsewhere [] i db w fresh tracked = refl
    check_rows_elsewhere (row ∷ rows) i db w (ne, fresh) tracked =
        let flying = same_status→eq row.command.status applied tracked.1.1 in
        let (t, time) = tracked.1.0.applied_time flying in
        let (db', w') = check_one client now delay targets row t db w in
        let turn = check_one-IsTurn client now 0 delay targets row t db w flying in
        let later = check_rows_elsewhere rows i db' w' fresh (
          turn-IsTracked row.command db.commands db'.commands IsFlying (commands_of rows) turn
            tracked) in
        simp (time, check_rows)
          (later ∙ turn_elsewhere row.command db.commands db'.commands i turn (λ e. ne (sym e)))

    module _ (row : Joined) {t : ℕ} {target : DeviceTarget} (time : row.command.applied_at ≡ some t)
        (known : target_of_role row.role targets ≡ some target)
        (due : too_early now t delay ≡ false)
        (late : overdue now t row.command.ttl_seconds ≡ true) where
      check_one-IsEnded :
          (db : Db F) (w : W)
          → command_at row.command.id db.commands ≡ some row.command
          → IsEnded row.command.id (check_one client now delay targets row t db w).0.commands
      unfolding check_one check_target
      check_one-IsEnded db w at = simp (due, known) (settle-IsEnded row.command t _ db at late)

      check_rows-IsEnded :
          (rows : List Joined) (db : Db F) (w : W)
          → Occurs row rows
          → command_at row.command.id db.commands ≡ some row.command
          → IsTracked IsFlying (commands_of rows) db.commands
          → IsEnded row.command.id (check_rows client now delay targets rows db w).1.commands
      unfolding check_rows
      check_rows-IsEnded [] db w h at tracked = absurd h
      check_rows-IsEnded (r ∷ rows) db w (inl e) at tracked =
          let (c', at', final) = check_one-IsEnded db w at in
          let flying = same_status→eq r.command.status applied tracked.1.1 in
          let here : r.command.applied_at ≡ some t =
            subst (λ x. x.command.applied_at ≡ some t) e time in
          let (db', w') = check_one client now delay targets r t db w in
          let turn = check_one-IsTurn client now 0 delay targets r t db w flying in
          let fresh = subst (λ x. IsFresh x.command.id (commands_of rows)) (sym e) tracked.2 in
          let same = check_rows_elsewhere rows row.command.id db' w' fresh (
            turn-IsTracked r.command db.commands db'.commands IsFlying (commands_of rows) turn
              tracked) in
          let moved =
            subst
              (λ x.
                command_at row.command.id (check_one client now delay targets x t db w).0.commands
                ≡ some c')
              e at' in
          simp (here, check_rows) (c', same ∙ moved, final)
      check_rows-IsEnded (r ∷ rows) db w (inr h) at tracked =
          let flying = same_status→eq r.command.status applied tracked.1.1 in
          let (u, time') = tracked.1.0.applied_time flying in
          let (db', w') = check_one client now delay targets r u db w in
          let turn = check_one-IsTurn client now 0 delay targets r u db w flying in
          let ne = Occurs-ne row r.command.id rows h tracked.2 in
          simp (time', check_rows)
            (check_rows-IsEnded rows db' w' h
              (turn_elsewhere r.command db.commands db'.commands row.command.id turn ne ∙ at)
              (turn-IsTracked r.command db.commands db'.commands IsFlying (commands_of rows) turn
                tracked))

  -- With a sound table, an applied command whose verification delay and whose time to live with 15
  -- seconds have passed is acked, reverted or unknown after the next check, whether or not its
  -- device can be reached, if its device and the SSH target of its role are known.
  pub check_in_flight_commands-IsEnded :
      (db : Db F) (w : W) (c : Command) {t : ℕ} {d : Device} {target : DeviceTarget} {n : ℕ}
      → IsSound n db.commands
      → command_at c.id db.commands ≡ some c
      → c.status ≡ applied
      → c.applied_at ≡ some t
      → device_at c.device_id db.devices ≡ some d
      → target_of_role d.role db.targets ≡ some target
      → t + seconds db.app_settings.command_verify_delay_seconds ≤ now
      → t + seconds (c.ttl_seconds + 15) ≤ now
      → IsEnded c.id (check_in_flight_commands client now db w).1.commands
  unfolding check_in_flight_commands commands_in
  check_in_flight_commands-IsEnded db w c {t} {d} sound at flying time device known due late =
      check_rows-IsEnded db.app_settings.command_verify_delay_seconds db.targets (row_of c d) time
        known (ground arith) (ground arith) _ db w
        (join_devices-Occurs db.devices c d _ device (
          select-Occurs _ c db.commands (rw flying refl) (command_at-Occurs c.id c db.commands at)))
        at (query-IsTracked IsTimed applied db.devices db.commands sound.distinct sound.timed)
