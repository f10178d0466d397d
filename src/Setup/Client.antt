-- ===== src/Setup/Client.antt =====
-- app/device_client.py as the interface that the requests of app/main.py see.
use heltec_wifi_optimization.Ssh.{Asyncssh, SshState}
use heltec_wifi_optimization.Ssh.Files.{Sftp, on_network}
use heltec_wifi_optimization.AgentClient.Restore.{restore_backup}
use heltec_wifi_optimization.Targets.{Installer}
use heltec_wifi_optimization.Setup.{Bootstrap, provision}

-- `provision` opens a connection of its own, beside the cached ones.
abbrev pub installer :
    {C P W : Type 0} → Asyncssh C W → Sftp C P W → Bootstrap C P W → Installer (SshState C W)
installer asyncssh sftp bootstrap = record {
  provision = λ target password archive. on_network (provision bootstrap target password archive);
  restore_backup = restore_backup asyncssh sftp;
}
