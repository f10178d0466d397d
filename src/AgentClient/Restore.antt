-- ===== src/AgentClient/Restore.antt =====
-- `restore_backup` of app/device_client.py over app/ssh_client.py.
pub mod Tries
pub mod Uploads
use heltec_wifi_optimization.Prelude.{ℕ, List, Result}
use heltec_wifi_optimization.Prelude.Io.{Io, ◌>>=◌}
use heltec_wifi_optimization.Db.{DeviceTarget}
use heltec_wifi_optimization.Ssh.{Asyncssh, SshState, run, extract_and_restart}
use heltec_wifi_optimization.Ssh.Files.{Sftp, put_bytes}
use heltec_wifi_optimization.AgentClient.{output, discarded}

module _ {C P W : Type 0} (asyncssh : Asyncssh C W) (sftp : Sftp C P W) where
  -- the command's exit status decides
  unfoldable pub extract : DeviceTarget → Io (SshState C W) (Unit {0})
  unfolding run
  extract target = λ s.
      let (reply, s') = run asyncssh target extract_and_restart 30 s in
      (discarded (output reply), s')

  -- The mode 0o600 is 384.
  unfoldable pub restore_backup : DeviceTarget → List ℕ → Io (SshState C W) (Unit {0})
  unfolding put_bytes extract
  restore_backup target archive = do
    _ ← put_bytes asyncssh sftp target archive "/tmp/restore.tar.gz" 384
    extract target
