-- ===== src/Examples/SshRuns.antt =====
-- The SSH theorems at concrete networks.
use heltec_wifi_optimization.Prelude.{
  ℕ, zero, suc, ◌+◌, ◌≡◌, refl, Bool, true, false, ◌++◌, some, List, [], ◌∷◌, any, if◌then◌else◌,
  ◌==◌, ssh_error, value_error, Result, ok, raise,
}
use heltec_wifi_optimization.Db.{DeviceTarget, Role}
use heltec_wifi_optimization.Report.{RawReply}
use heltec_wifi_optimization.Ssh.{Reply, Asyncssh, SshState, agent_collect, cached, run}
use heltec_wifi_optimization.Ssh.Reuse.{LeavesCached, run-LeavesCached, run-reconnect}
use heltec_wifi_optimization.AgentClient.{device_client}
use heltec_wifi_optimization.Ssh.Files.{Sftp}
use heltec_wifi_optimization.Setup.Follows.{exited_zero}
use heltec_wifi_optimization.AgentClient.Restore.{restore_backup}
use heltec_wifi_optimization.AgentClient.Restore.Tries.{Action, wrote, set_mode, ran, IsLogged}
use heltec_wifi_optimization.AgentClient.Restore.Uploads.{Restores, restore_backup-Restores}
use heltec_wifi_optimization.AgentClient.Reboots.{is_pending, apply_pending_commands-Sent}
use heltec_wifi_optimization.Commands.Rows.{target_of_role}
use heltec_wifi_optimization.Commands.Apply.{apply_pending_commands}
use heltec_wifi_optimization.Examples.Data.{busy_db, target, pending_reboot, access_point}

abbrev fine : Reply
fine = record { exit_status = some 0; stdout = [] }

-- Connection 0 is broken, and a new connection is number 1; the network counts the calls.
abbrev flaky : Asyncssh ℕ ℕ
flaky = record {
  connect = λ target w. (ok 1, w + 1);
  is_closed = λ c w. false;
  execute = λ c command timeout w. (if c == 0 then raise ssh_error else ok fine, w + 1);
  close = λ c w. w + 1;
}

abbrev other_target : DeviceTarget
other_target = record target { role = Role.sta; ssh_host = 8 }

abbrev broken_state : SshState ℕ ℕ
broken_state = record { connections = (target, 0) ∷ (other_target, 5) ∷ []; network = 0 }

run-LeavesCached_example :
    let (reply, s') = run flaky target agent_collect 30 broken_state in
    LeavesCached flaky target agent_collect 30 reply s'
    × (cached other_target s'.connections ≡ cached other_target broken_state.connections)
run-LeavesCached_example =
    run-LeavesCached flaky target other_target refl agent_collect 30 broken_state

run-reconnect_example :
    let (answer, s') = run flaky target agent_collect 30 broken_state in
    (answer ≡ ok fine) × ((cached target s'.connections ≡ some 1) × (s'.network ≡ 4))
run-reconnect_example =
    run-reconnect flaky target agent_collect 30 broken_state 0 1 1 3 4 fine refl refl refl refl refl

-- no host answers
abbrev pub dead : Asyncssh ℕ ℕ
dead = record flaky { connect = λ target w. (raise ssh_error, w + 1) }

abbrev pub no_document : List ℕ → Result (RawReply ℕ)
no_document stdout = raise value_error

apply_pending_commands-Sent_example :
    any
      (is_pending 2)
      (apply_pending_commands
        (device_client dead no_document)
        60
        busy_db
        (record { connections = []; network = 0 })).0.commands
    ≡ false
unfolding target_of_role
apply_pending_commands-Sent_example =
    apply_pending_commands-Sent dead no_document 60 2 pending_reboot access_point target busy_db
      (record { connections = []; network = 0 }) refl refl refl refl refl refl

-- A device that takes the archive, loses the first connection and refuses the command on the
-- second one; the network is the log with the number of connections.
abbrev outcome : ℕ → Result Reply
outcome zero = raise ssh_error
outcome (suc n) = ok (record { exit_status = some 1; stdout = [] })

abbrev refusing : Asyncssh ℕ (List (Action × Bool))
refusing = record {
  connect = λ t w. (ok 1, w);
  is_closed = λ c w. false;
  execute = λ c command timeout w. (outcome c, w ++ (ran command, exited_zero (outcome c)) ∷ []);
  close = λ c w. w;
}

abbrev taking : Sftp ℕ ℕ (List (Action × Bool))
taking = record {
  start_sftp_client = λ c w. (ok 0, w);
  write = λ p bytes path w. (ok tt, w ++ (wrote bytes path, true) ∷ []);
  chmod = λ p path mode w. (ok tt, w ++ (set_mode path mode, true) ∷ []);
  exit = λ p w. w;
}

refusing-IsLogged : IsLogged refusing taking (λ w. w)
refusing-IsLogged = record {
  executed = λ c command timeout w. refl;
  written = λ p bytes path w. refl;
  chmodded = λ p path mode w. refl;
  connected = λ t w. refl;
  closed = λ c w. refl;
  started = λ c w. refl;
  left = λ p w. refl;
}

abbrev lost_state : SshState ℕ (List (Action × Bool))
lost_state = record { connections = (target, 0) ∷ []; network = [] }

restore_backup-Restores_example :
    let (result, s') = restore_backup refusing taking target (5 ∷ []) lost_state in
    (done : List (Action × Bool)) × (s'.network ≡ [] ++ done) × Restores (5 ∷ []) done result
restore_backup-Restores_example =
    restore_backup-Restores refusing taking (λ w. w) refusing-IsLogged target (5 ∷ []) lost_state
