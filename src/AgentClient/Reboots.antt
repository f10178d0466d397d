-- ===== src/AgentClient/Reboots.antt =====
-- The job `apply_pending_commands` over app/device_client.py: pending reboots.
use heltec_wifi_optimization.Prelude.{
  ℕ, ◌≡◌, refl, sym, subst, Bool, false, ◌&&◌, Option, none, some, List, [], ◌∷◌, ◌==◌, ||→neither,
  Bool-cases, inl, inr, any, update, Result, ok, raise,
}
use heltec_wifi_optimization.Db.{
  Db, Command, Device, DeviceTarget, Param, halow_operating_freq, wifi24_channel, reboot, Status,
  same_status,
}
use heltec_wifi_optimization.Report.{RawReply}
use heltec_wifi_optimization.Ssh.{Asyncssh, SshState}
use heltec_wifi_optimization.AgentClient.{device_client}
use heltec_wifi_optimization.Commands.Rows.{
  Joined, device_at, commands_in, target_of_role, set_command,
}
use heltec_wifi_optimization.Commands.Occurs.{
  Occurs, row_of, select-Occurs, command_at-Occurs, join_devices-Occurs, order_by_age-Occurs,
}
use heltec_wifi_optimization.Commands.Steps.{command_at}
use heltec_wifi_optimization.Commands.Apply.{
  mark_applied, mark_rebooted, record_sent, send, apply_one, apply_rows, apply_pending_commands,
}

-- a row with this id is pending
abbrev pub is_pending : ℕ → Command → Bool
is_pending id c = c.id == id && same_status c.status Status.pending

-- A mark takes a row out of the pending ones.
module _ (mark : Command → Command)
    (left : (c : Command) → same_status (mark c).status Status.pending ≡ false) where
  is_pending_marked : (id : ℕ) (c : Command) → is_pending id (mark c) ≡ false
  is_pending_marked id c = elim (Bool-cases ((mark c).id == id)) [
    | inl here ↦ simp (here, left c) refl
    | inr other ↦ simp other refl
  ]

  any-update_kept :
      (id marked : ℕ) (cs : List Command)
      → any (is_pending id) cs ≡ false
      → any (is_pending id) (update (λ c. c.id == marked) mark cs) ≡ false
  any-update_kept id marked [] h = refl
  any-update_kept id marked (c ∷ cs) h =
      let (first, rest) = ||→neither (is_pending id c) _ h in
      elim (Bool-cases (c.id == marked)) [
        | inl hit ↦ simp (hit, is_pending_marked id c) (any-update_kept id marked cs rest)
        | inr miss ↦ simp (miss, first) (any-update_kept id marked cs rest)
      ]

  any-update_done :
      (id : ℕ) (cs : List Command) → any (is_pending id) (update (λ c. c.id == id) mark cs) ≡ false
  any-update_done id [] = refl
  any-update_done id (c ∷ cs) = elim (Bool-cases (c.id == id)) [
    | inl hit ↦ simp (hit, is_pending_marked id c) (any-update_done id cs)
    | inr miss ↦ simp miss (any-update_done id cs)
  ]

module _ {F C W : Type 0} (asyncssh : Asyncssh C W) (loads : List ℕ → Result (RawReply F))
    (now id : ℕ) where
  abbrev Sent : Db F → Type 0
  Sent db = any (is_pending id) db.commands ≡ false

  record_sent-applied :
      (marked : ℕ) (r : Result (Unit {0}) × SshState C W) (db : Db F)
      → Sent db
      → Sent (record_sent (device_client asyncssh loads) now mark_applied marked r db).0
  unfolding record_sent set_command
  record_sent-applied marked (raise e, s) db h = h
  record_sent-applied marked (ok _, s) db h =
      any-update_kept (mark_applied now) (λ c. refl) id marked db.commands h

  send-kept :
      (c : Command) (target : DeviceTarget) (param : Param) (db : Db F) (s : SshState C W)
      → Sent db
      → Sent (send (device_client asyncssh loads) now c target param db s).0
  unfolding send record_sent set_command heltec_wifi_optimization.AgentClient.reboot
  send-kept c target reboot db s h =
      any-update_kept (mark_rebooted now) (λ c. refl) id c.id db.commands h
  send-kept c target halow_operating_freq db s h = record_sent-applied c.id _ db h
  send-kept c target wifi24_channel db s h = record_sent-applied c.id _ db h

  apply_one-kept :
      (row : Joined) (target : Option DeviceTarget) (db : Db F) (s : SshState C W)
      → Sent db
      → Sent (apply_one (device_client asyncssh loads) now row target db s).0
  unfolding apply_one
  apply_one-kept row none db s h = h
  apply_one-kept row (some target) db s h = send-kept row.command target row.command.param db s h

  apply_rows-kept :
      (targets : List DeviceTarget) (rows : List Joined) (db : Db F) (s : SshState C W)
      → Sent db
      → Sent (apply_rows (device_client asyncssh loads) now targets rows db s).0
  unfolding apply_rows
  apply_rows-kept targets [] db s h = h
  apply_rows-kept targets (row ∷ rows) db s h =
      apply_rows-kept targets rows _ _ (apply_one-kept row (target_of_role row.role targets) db s h)

  send-Sent :
      (c : Command) (target : DeviceTarget) (param : Param) (db : Db F) (s : SshState C W)
      → c.id ≡ id
      → param ≡ reboot
      → Sent (send (device_client asyncssh loads) now c target param db s).0
  unfolding send record_sent set_command heltec_wifi_optimization.AgentClient.reboot
  send-Sent c target reboot db s is_id is_reboot =
      simp is_id (any-update_done (mark_rebooted now) (λ c. refl) id db.commands)
  send-Sent c target halow_operating_freq db s is_id is_reboot = cc
  send-Sent c target wifi24_channel db s is_id is_reboot = cc

  apply_rows-Sent :
      (row : Joined) (target : DeviceTarget) (targets : List DeviceTarget)
      → row.command.id ≡ id
      → row.command.param ≡ reboot
      → target_of_role row.role targets ≡ some target
      → (rows : List Joined) (db : Db F) (s : SshState C W) → Occurs row rows
      → Sent (apply_rows (device_client asyncssh loads) now targets rows db s).0
  unfolding apply_rows apply_one
  apply_rows-Sent row target targets is_id is_reboot known [] db s h = absurd h
  apply_rows-Sent row target targets is_id is_reboot known (r ∷ rows) db s (inr h) =
      apply_rows-Sent row target targets is_id is_reboot known rows _ _ h
  apply_rows-Sent row target targets is_id is_reboot known (r ∷ rows) db s (inl e) =
      apply_rows-kept targets rows _ _ (
        subst
          (λ x.
            Sent
              (apply_one (device_client asyncssh loads) now x (target_of_role x.role targets) db
                s).0)
          e
          (subst (λ t. Sent (apply_one (device_client asyncssh loads) now row t db s).0) (sym known)
            (send-Sent row.command target row.command.param db s is_id is_reboot)))

  -- Over app/device_client.py, whatever the network does, a pending reboot whose device and SSH
  -- target are known is not pending after the job.
  pub apply_pending_commands-Sent :
      (c : Command) (d : Device) (target : DeviceTarget) (db : Db F) (s : SshState C W)
      → command_at id db.commands ≡ some c
      → c.id ≡ id
      → c.status ≡ Status.pending
      → c.param ≡ reboot
      → device_at c.device_id db.devices ≡ some d
      → target_of_role d.role db.targets ≡ some target
      → Sent (apply_pending_commands (device_client asyncssh loads) now db s).0
  unfolding apply_pending_commands commands_in
  apply_pending_commands-Sent c d target db s at is_id waiting is_reboot device known =
      apply_rows-Sent (row_of c d) target db.targets is_id is_reboot known _ db s (
        order_by_age-Occurs (row_of c d) _ (
          join_devices-Occurs db.devices c d _ device (
            select-Occurs _ c db.commands (rw waiting refl)
              (command_at-Occurs id c db.commands at))))
