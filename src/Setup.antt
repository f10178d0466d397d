-- ===== src/Setup.antt =====
-- `provision` of app/device_client.py: the first set-up of a device, over one connection that a
-- password opens.
--
-- asyncssh and the server's key file are a parameter: a type `C` of connections and a type `P` of
-- SFTP sessions over the state `W` of the network. A call that raises is a result, and `async
-- with` is `within`, which leaves the session whatever its body does.
pub mod Follows
pub mod Plan
pub mod Client
use heltec_wifi_optimization.Prelude.{
  ℕ, String, Option, none, some, List, Error, ssh_error, runtime_error, Result, ok, raise,
  if◌then◌else◌,
}
use heltec_wifi_optimization.Prelude.Io.{Io, ◌>>=◌, pure, within, ignoring}
use heltec_wifi_optimization.Db.{DeviceTarget}
use heltec_wifi_optimization.Ssh.{Reply}
use heltec_wifi_optimization.AgentClient.{succeeded}

-- the files of the container that are copied to the device
pub data LocalFile : Type 0 where
  agent_script agent_boot_init : LocalFile

-- the command lines, as what their text is formatted from
pub data SetupCommand : Type 0 where
  install_key : List ℕ → SetupCommand
  setup restore reboot : SetupCommand

pub record Bootstrap (C P W : Type 0) : Type 0 where
  -- `open(config.SSH_PUBLIC_KEY_PATH)` and what it contains
  pub read_public_key : W → Result (List ℕ) × W
  pub connect : DeviceTarget → String → W → Result C × W
  pub execute : C → SetupCommand → ℕ → W → Result Reply × W
  pub close : C → W → W
  pub start_sftp_client : C → W → Result P × W
  pub put : P → LocalFile → W → Result (Unit {0}) × W
  -- "/tmp/restore.tar.gz"
  pub write : P → List ℕ → W → Result (Unit {0}) × W
  pub exit : P → W → W

module _ {W : Type 0} where
  -- `except OSError as exc: raise RuntimeError`; OSError is an `ssh_error`, as in Ssh
  abbrev pub as_runtime_error : {A : Type 0} → Result A × W → Result A × W
  as_runtime_error (raise ssh_error, w) = (raise runtime_error, w)
  as_runtime_error (r, w) = (r, w)

-- `if result.exit_status != 0: raise RuntimeError`
abbrev pub check_status : Reply → Result (Unit {0})
check_status reply = if succeeded reply then ok tt else raise runtime_error

module _ {C P W : Type 0} (asyncssh : Bootstrap C P W) where
  abbrev pub run_checked : C → SetupCommand → ℕ → Io W (Unit {0})
  run_checked conn command timeout = do
    reply ← asyncssh.execute conn command timeout
    pure (check_status reply)

  abbrev pub write_archive : P → Option (List ℕ) → Io W (Unit {0})
  write_archive sftp none = pure (ok tt)
  write_archive sftp (some archive) = asyncssh.write sftp archive

  unfoldable pub copy_files : P → Option (List ℕ) → Io W (Unit {0})
  copy_files sftp restore_archive = do
    _ ← asyncssh.put sftp agent_script
    _ ← asyncssh.put sftp agent_boot_init
    write_archive sftp restore_archive

  abbrev pub restore_config : C → Option (List ℕ) → Io W (Unit {0})
  restore_config conn none = pure (ok tt)
  restore_config conn (some archive) = run_checked conn restore 30

  -- the body of the connection's `async with`
  unfoldable pub set_up : List ℕ → Option (List ℕ) → C → Io W (Unit {0})
  unfolding copy_files
  set_up pubkey restore_archive conn = do
    _ ← run_checked conn (install_key pubkey) 15
    sftp ← asyncssh.start_sftp_client conn
    _ ← within (asyncssh.exit sftp) (copy_files sftp restore_archive)
    _ ← run_checked conn setup 15
    _ ← restore_config conn restore_archive
    ignoring (asyncssh.execute conn reboot 5)

  unfoldable pub provision : DeviceTarget → String → Option (List ℕ) → Io W (Unit {0})
  unfolding set_up
  provision target password restore_archive = do
    pubkey ← λ w. as_runtime_error (asyncssh.read_public_key w)
    conn ← asyncssh.connect target password
    within (asyncssh.close conn) (set_up pubkey restore_archive conn)
