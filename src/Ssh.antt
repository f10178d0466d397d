-- ===== src/Ssh.antt =====
-- app/ssh_client.py: one reused connection for each host and port.
--
-- asyncssh is a parameter: a type `C` of connections over the state `W` of the network. Its
-- exceptions, OSError and a timeout are the one value `ssh_error`, which is what `run` catches.
pub mod Reuse
pub mod Files
use heltec_wifi_optimization.Prelude.{
  ℕ, String, ◌≡◌, Bool, true, false, not, ◌&&◌, Option, none, some, List, [], ◌∷◌, ◌==◌,
  if◌then◌else◌, select, Error, ssh_error, Result, ok, raise,
}
use heltec_wifi_optimization.Db.{DeviceTarget, Param, Setting}

-- The command lines that app/device_client.py composes, as what their text is formatted from.
pub data RemoteCommand : Type 0 where
  agent_collect agent_backup system_reboot extract_and_restart : RemoteCommand
  agent_apply : Param → Setting → ℕ → RemoteCommand
  agent_verify_confirm : Param → Setting → RemoteCommand

-- `exit_status` is None when the process was ended by a signal.
pub record Reply : Type 0 where
  pub exit_status : Option ℕ
  pub stdout : List ℕ

-- the calls of asyncssh; `execute` takes the timeout in seconds
pub record Asyncssh (C W : Type 0) : Type 0 where
  pub connect : DeviceTarget → W → Result C × W
  pub is_closed : C → W → Bool
  pub execute : C → RemoteCommand → ℕ → W → Result Reply × W
  pub close : C → W → W

-- `_key`
abbrev pub same_key : DeviceTarget → DeviceTarget → Bool
same_key a b = a.ssh_host == b.ssh_host && a.ssh_port == b.ssh_port

-- `_connections.get(key)`, `_connections.pop(key, None)` and `_connections[key] = connection`
abbrev pub cached : {C : Type 0} → DeviceTarget → List (DeviceTarget × C) → Option C
cached target [] = none
cached target ((t, c) ∷ rest) = if same_key t target then some c else cached target rest

abbrev pub without : {C : Type 0} → DeviceTarget → List (DeviceTarget × C) → List (DeviceTarget × C)
without target = select (λ entry. not (same_key entry.0 target))

abbrev pub remember :
    {C : Type 0} → DeviceTarget → C → List (DeviceTarget × C) → List (DeviceTarget × C)
remember target c connections = (target, c) ∷ without target connections

-- `_connections` and the network
pub record SshState (C W : Type 0) : Type 0 where
  pub connections : List (DeviceTarget × C)
  pub network : W

module _ {C W : Type 0} (asyncssh : Asyncssh C W) where
  abbrev pub keep : DeviceTarget → List (DeviceTarget × C) → Result C × W → Result C × SshState C W
  keep target connections (ok c, w) =
      (ok c, record { connections = remember target c connections; network = w })
  keep target connections (raise e, w) =
      (raise e, record { connections = connections; network = w })

  -- `_connect`, and the entry for the new connection
  unfoldable pub reconnect : DeviceTarget → SshState C W → Result C × SshState C W
  reconnect target s = keep target s.connections (asyncssh.connect target s.network)

  abbrev pub reuse : DeviceTarget → Option C → SshState C W → Result C × SshState C W
  reuse target none s = reconnect target s
  reuse target (some c) s = if asyncssh.is_closed c s.network then reconnect target s else (ok c, s)

  -- `_get_connection`
  unfoldable pub get_connection : DeviceTarget → SshState C W → Result C × SshState C W
  unfolding reconnect
  get_connection target s = reuse target (cached target s.connections) s

  abbrev pub execute_on : RemoteCommand → ℕ → Result C × SshState C W → Result Reply × SshState C W
  execute_on command timeout (raise e, s) = (raise e, s)
  execute_on command timeout (ok c, s) =
      let (reply, w) = asyncssh.execute c command timeout s.network in
      (reply, record s { network = w })

  -- the body of the `try`
  unfoldable pub attempt :
      DeviceTarget → RemoteCommand → ℕ → SshState C W → Result Reply × SshState C W
  unfolding get_connection
  attempt target command timeout s = execute_on command timeout (get_connection target s)

  abbrev pub close_stale : Option C → W → W
  close_stale none w = w
  close_stale (some c) w = asyncssh.close c w

  -- The handler of an `ssh_error`: the entry is dropped, and its connection is closed.
  unfoldable pub drop_connection : DeviceTarget → SshState C W → SshState C W
  drop_connection target s = record {
    connections = without target s.connections;
    network = close_stale (cached target s.connections) s.network;
  }

  abbrev pub handled : DeviceTarget → Result Reply × SshState C W → Result Reply × SshState C W
  handled target (raise ssh_error, s) = (raise ssh_error, drop_connection target s)
  handled target (reply, s) = (reply, s)

  -- The first attempt failed with an `ssh_error`: there is a second one.
  abbrev pub retried :
      DeviceTarget → RemoteCommand → ℕ → Result Reply × SshState C W → Result Reply × SshState C W
  retried target command timeout (raise ssh_error, s) =
      handled target (attempt target command timeout s)
  retried target command timeout (reply, s) = (reply, s)

  -- `run`
  unfoldable pub run : DeviceTarget → RemoteCommand → ℕ → SshState C W → Result Reply × SshState C W
  unfolding attempt drop_connection
  run target command timeout s =
      retried target command timeout (handled target (attempt target command timeout s))

  abbrev pub close_each : List (DeviceTarget × C) → W → W
  close_each [] w = w
  close_each ((_, c) ∷ rest) w = close_each rest (asyncssh.close c w)

  unfoldable pub close_all : SshState C W → SshState C W
  close_all s = record { connections = []; network = close_each s.connections s.network }
