-- ===== src/AgentClient.antt =====
-- app/device_client.py over app/ssh_client.py: the implementation of the jobs' interface.
--
-- `loads` is json.loads with what the jobs read of the document.
pub mod Reboots
pub mod Restore
use heltec_wifi_optimization.Prelude.{
  ℕ, Bool, true, false, ◌==◌, Option, none, some, List, Result, ok, raise, runtime_error,
  if◌then◌else◌,
}
use heltec_wifi_optimization.Db.{DeviceTarget, Param, Setting}
use heltec_wifi_optimization.Report.{RawReply}
use heltec_wifi_optimization.DeviceClient.{DeviceClient}
use heltec_wifi_optimization.Ssh.{
  RemoteCommand, agent_collect, agent_backup, system_reboot, agent_apply, agent_verify_confirm,
  Reply, Asyncssh, SshState, run,
}

-- `status == 0`
abbrev pub succeeded : Reply → Bool
succeeded reply = elim reply.exit_status [ none ↦ false | some status ↦ status == 0 ]

-- the standard output, or a RuntimeError for another status
abbrev pub output : Result Reply → Result (List ℕ)
output (raise e) = raise e
output (ok reply) = if succeeded reply then ok reply.stdout else raise runtime_error

abbrev pub parsed {ℓ} : {A : Type ℓ} → (List ℕ → Result A) → Result (List ℕ) → Result A
parsed loads (raise e) = raise e
parsed loads (ok stdout) = loads stdout

abbrev pub discarded : Result (List ℕ) → Result (Unit {0})
discarded (raise e) = raise e
discarded (ok _) = ok tt

abbrev pub status_is_zero : Result Reply → Result Bool
status_is_zero (raise e) = raise e
status_is_zero (ok reply) = ok (succeeded reply)

module _ {F C W : Type 0} (asyncssh : Asyncssh C W) (loads : List ℕ → Result (RawReply F)) where
  unfoldable pub collect : DeviceTarget → SshState C W → Result (RawReply F) × SshState C W
  collect target s =
      let (reply, s') = run asyncssh target agent_collect 30 s in (parsed loads (output reply), s')

  unfoldable pub apply_command :
      DeviceTarget → Param → Setting → ℕ → SshState C W → Result (Unit {0}) × SshState C W
  apply_command target param target_value ttl_seconds s =
      let (reply, s') = run asyncssh target (agent_apply param target_value ttl_seconds) 45 s in
      (discarded (output reply), s')

  unfoldable pub verify_and_confirm :
      DeviceTarget → Param → Setting → SshState C W → Result Bool × SshState C W
  verify_and_confirm target param target_value s =
      let (reply, s') = run asyncssh target (agent_verify_confirm param target_value) 15 s in
      (status_is_zero reply, s')

  unfoldable pub fetch_backup : DeviceTarget → SshState C W → Result (List ℕ) × SshState C W
  fetch_backup target s =
      let (reply, s') = run asyncssh target agent_backup 30 s in (output reply, s')

  -- Every exception is taken for the connection that the reboot drops.
  unfoldable pub reboot : DeviceTarget → SshState C W → Result (Unit {0}) × SshState C W
  reboot target s = let (_, s') = run asyncssh target system_reboot 10 s in (ok tt, s')

  abbrev pub device_client : DeviceClient F (SshState C W)
  device_client = record {
    collect = collect;
    apply_command = apply_command;
    verify_and_confirm = verify_and_confirm;
    fetch_backup = fetch_backup;
    reboot = reboot;
  }
