-- ===== src/AgentClient/Restore/Tries.antt =====
-- What a run of app/ssh_client.py does to a device, call by call.
use mathlib.Core.List.{append-nil, append_assoc}
use heltec_wifi_optimization.Prelude.{
  ℕ, suc, ◌≡◌, refl, sym, ap, ◌∙◌, String, Bool, false, Bool-cases, inl, inr, Option, none, some,
  List, [], ◌∷◌, ◌++◌, Error, value_error, index_error, type_error, ssh_error, runtime_error, http,
  Result, ok, raise,
}
use heltec_wifi_optimization.Db.{DeviceTarget}
use heltec_wifi_optimization.Ssh.{
  RemoteCommand, Reply, Asyncssh, SshState, cached, keep, reconnect, reuse, get_connection,
  execute_on, attempt, close_stale, drop_connection, handled, retried, run,
}
use heltec_wifi_optimization.Ssh.Files.{Sftp}
use heltec_wifi_optimization.Setup.Follows.{is_ok, exited_zero}

-- the calls that change the device
pub data Action : Type 0 where
  wrote : List ℕ → String → Action
  set_mode : String → ℕ → Action
  ran : RemoteCommand → Action

-- The runs of a command, at most `n` after the first one, and the result: a run that raises may be
-- followed by another, and so may a connection that fails.
pub data Tries (command : RemoteCommand) : ℕ → List (Action × Bool) → Result Reply → Type 0 where
  unreachable : {n : ℕ} {e : Error} → Tries command n [] (raise e)
  tried : {n : ℕ} (r : Result Reply) → Tries command n ((ran command, exited_zero r) ∷ []) r
  again :
      {n : ℕ} {done : List (Action × Bool)} {r : Result Reply}
      → Tries command n done r
      → Tries command (suc n) ((ran command, false) ∷ done) r
  reconnected :
      {n : ℕ} {done : List (Action × Bool)} {r : Result Reply}
      → Tries command n done r
      → Tries command (suc n) done r

-- A first run that raised, and a second one.
Tries-append :
    {command : RemoteCommand} {first second : List (Action × Bool)} {e : Error} {r : Result Reply}
    → Tries command 0 first (raise e)
    → Tries command 0 second r
    → Tries command 1 (first ++ second) r
Tries-append unreachable h = reconnected h
Tries-append (tried (raise e)) h = again h

Tries-suc :
    {command : RemoteCommand} {done : List (Action × Bool)} {r : Result Reply}
    → Tries command 0 done r
    → Tries command 1 done r
Tries-suc unreachable = unreachable
Tries-suc (tried r) = tried r

-- A log of the device's changes, as in the plan of the set-up.
pub record IsLogged {C P W : Type 0} (asyncssh : Asyncssh C W) (sftp : Sftp C P W)
    (log : W → List (Action × Bool)) : Type 0 where
  pub executed :
      (c : C) (command : RemoteCommand) (timeout : ℕ) (w : W)
      → let (reply, w') = asyncssh.execute c command timeout w in
        log w' ≡ log w ++ (ran command, exited_zero reply) ∷ []
  pub written :
      (p : P) (bytes : List ℕ) (path : String) (w : W)
      → let (r, w') = sftp.write p bytes path w in
        log w' ≡ log w ++ (wrote bytes path, is_ok r) ∷ []
  pub chmodded :
      (p : P) (path : String) (mode : ℕ) (w : W)
      → let (r, w') = sftp.chmod p path mode w in
        log w' ≡ log w ++ (set_mode path mode, is_ok r) ∷ []
  pub connected : (t : DeviceTarget) (w : W) → log (asyncssh.connect t w).1 ≡ log w
  pub closed : (c : C) (w : W) → log (asyncssh.close c w) ≡ log w
  pub started : (c : C) (w : W) → log (sftp.start_sftp_client c w).1 ≡ log w
  pub left : (p : P) (w : W) → log (sftp.exit p w) ≡ log w

module _ {C P W : Type 0} (asyncssh : Asyncssh C W) (sftp : Sftp C P W)
    (log : W → List (Action × Bool)) (law : IsLogged asyncssh sftp log)
    (target : DeviceTarget) where
  keep_logged :
      (s : SshState C W) (connections : List (DeviceTarget × C)) (r : Result C × W)
      → log r.1 ≡ log s.network
      → log (keep asyncssh target connections r).1.network ≡ log s.network
  keep_logged s connections (ok c, w) same = same
  keep_logged s connections (raise e, w) same = same

  reuse_logged :
      (s : SshState C W) (o : Option C) → log (reuse asyncssh target o s).1.network ≡ log s.network
  unfolding reconnect
  reuse_logged s none =
      keep_logged s s.connections (asyncssh.connect target s.network)
        (law.connected target s.network)
  reuse_logged s (some c) = elim (Bool-cases (asyncssh.is_closed c s.network)) [
    | (inl dead) ↦ simp (dead) (
        keep_logged s s.connections (asyncssh.connect target s.network)
          (law.connected target s.network))
    | (inr alive) ↦ simp (alive) refl
  ]

  pub get_connection_logged :
      (s : SshState C W) → log (get_connection asyncssh target s).1.network ≡ log s.network
  unfolding get_connection
  get_connection_logged s = reuse_logged s (cached target s.connections)

  -- Where a run that started at `w` has come to.
  abbrev pub Done : RemoteCommand → ℕ → W → Result Reply × SshState C W → Type 0
  Done command n w (reply, s') =
      (done : List (Action × Bool)) × (log s'.network ≡ log w ++ done) × Tries command n done reply

  execute_on-Done :
      (command : RemoteCommand) (timeout n : ℕ) (w : W) (r : Result C × SshState C W)
      → log r.1.network ≡ log w
      → Done command n w (execute_on asyncssh command timeout r)
  execute_on-Done command timeout n w (raise e, s) same =
      ([], same ∙ sym (append-nil (log w)), unreachable)
  execute_on-Done command timeout n w (ok c, s) same = (
    (ran command, exited_zero (asyncssh.execute c command timeout s.network).0) ∷ [],
    law.executed c command timeout s.network
        ∙ ap
            (λ l.
              l ++ (ran command, exited_zero (asyncssh.execute c command timeout s.network).0) ∷ [])
            same,
    tried _,
  )

  attempt-Done :
      (command : RemoteCommand) (timeout n : ℕ) (s : SshState C W)
      → Done command n s.network (attempt asyncssh target command timeout s)
  unfolding attempt
  attempt-Done command timeout n s =
      execute_on-Done command timeout n s.network (get_connection asyncssh target s)
        (get_connection_logged s)

  close_stale_logged : (o : Option C) (w : W) → log (close_stale asyncssh o w) ≡ log w
  close_stale_logged none w = refl
  close_stale_logged (some c) w = law.closed c w

  handled-Done :
      (command : RemoteCommand) (n : ℕ) (w : W) (r : Result Reply × SshState C W)
      → Done command n w r
      → Done command n w (handled asyncssh target r)
  unfolding drop_connection
  handled-Done command n w (raise ssh_error, s) (d, here, tries) =
      (d, close_stale_logged (cached target s.connections) s.network ∙ here, tries)
  handled-Done command n w (ok reply, s) h = h
  handled-Done command n w (raise value_error, s) h = h
  handled-Done command n w (raise index_error, s) h = h
  handled-Done command n w (raise type_error, s) h = h
  handled-Done command n w (raise runtime_error, s) h = h
  handled-Done command n w (raise (http i), s) h = h

  retried-Done :
      (command : RemoteCommand) (timeout : ℕ) (w : W) (r : Result Reply × SshState C W)
      → Done command 0 w r
      → Done command 1 w (retried asyncssh target command timeout r)
  retried-Done command timeout w (raise ssh_error, s) (d, here, tries) =
      let (e, there, tries') =
        handled-Done command 0 s.network _ (attempt-Done command timeout 0 s) in
      (d ++ e, there ∙ ap (λ l. l ++ e) here ∙ append_assoc (log w) d e, Tries-append tries tries')
  retried-Done command timeout w (ok reply, s) (d, here, tries) = (d, here, Tries-suc tries)
  retried-Done command timeout w (raise value_error, s) (d, here, tries) =
      (d, here, Tries-suc tries)
  retried-Done command timeout w (raise index_error, s) (d, here, tries) =
      (d, here, Tries-suc tries)
  retried-Done command timeout w (raise type_error, s) (d, here, tries) = (d, here, Tries-suc tries)
  retried-Done command timeout w (raise runtime_error, s) (d, here, tries) =
      (d, here, Tries-suc tries)
  retried-Done command timeout w (raise (http i), s) (d, here, tries) = (d, here, Tries-suc tries)

  pub run-Done :
      (command : RemoteCommand) (timeout : ℕ) (s : SshState C W)
      → Done command 1 s.network (run asyncssh target command timeout s)
  unfolding run
  run-Done command timeout s =
      retried-Done command timeout s.network _
        (handled-Done command 0 s.network _ (attempt-Done command timeout 0 s))
