-- ===== src/Ssh/Files.antt =====
-- `put_bytes` of app/ssh_client.py, over the SFTP sessions of asyncssh.
use heltec_wifi_optimization.Prelude.{ℕ, String, List, Result}
use heltec_wifi_optimization.Prelude.Io.{Io, ◌>>=◌, within}
use heltec_wifi_optimization.Db.{DeviceTarget}
use heltec_wifi_optimization.Ssh.{Asyncssh, SshState, get_connection}

-- the calls of a session of type `P`; `write` opens the file, writes it and closes it
pub record Sftp (C P W : Type 0) : Type 0 where
  pub start_sftp_client : C → W → Result P × W
  pub write : P → List ℕ → String → W → Result (Unit {0}) × W
  pub chmod : P → String → ℕ → W → Result (Unit {0}) × W
  pub exit : P → W → W

module _ {C W : Type 0} where
  -- what runs over a connection leaves the table of connections alone
  abbrev pub on_network : {A : Type 0} → Io W A → Io (SshState C W) A
  on_network body = λ s. let (r, w) = body s.network in (r, record s { network = w })

module _ {C P W : Type 0} (asyncssh : Asyncssh C W) (sftp : Sftp C P W) where
  unfoldable pub upload : List ℕ → String → ℕ → C → Io W (Unit {0})
  upload bytes remote_path mode conn = do
    session ← sftp.start_sftp_client conn
    within (sftp.exit session)
        (sftp.write session bytes remote_path >>= λ _. sftp.chmod session remote_path mode)

  unfoldable pub put_bytes : DeviceTarget → List ℕ → String → ℕ → Io (SshState C W) (Unit {0})
  unfolding upload get_connection
  put_bytes target bytes remote_path mode = do
    conn ← get_connection asyncssh target
    on_network (upload bytes remote_path mode conn)
