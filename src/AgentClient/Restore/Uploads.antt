-- ===== src/AgentClient/Restore/Uploads.antt =====
-- What `restore_backup` of app/device_client.py does to a device, call by call.
use mathlib.Core.List.{append-nil, append_assoc}
use heltec_wifi_optimization.Prelude.{
  ℕ, ◌≡◌, sym, ap, ◌∙◌, String, Bool, true, false, List, [], ◌∷◌, ◌++◌, Error, Result, ok, raise,
}
use heltec_wifi_optimization.Prelude.Io.{pass_on, ◌>>=◌, within}
use heltec_wifi_optimization.Db.{DeviceTarget}
use heltec_wifi_optimization.Ssh.{extract_and_restart, Reply, Asyncssh, SshState, get_connection}
use heltec_wifi_optimization.Ssh.Files.{Sftp, on_network, upload, put_bytes}
use heltec_wifi_optimization.AgentClient.{output, discarded}
use heltec_wifi_optimization.AgentClient.Restore.Tries.{
  Action, wrote, set_mode, Tries, IsLogged, get_connection_logged, run-Done,
}
use heltec_wifi_optimization.AgentClient.Restore.{extract, restore_backup}
use heltec_wifi_optimization.Setup.Follows.{is_ok}

-- The upload: the archive is written once, and its mode is set if that succeeded.
pub data Uploads (bytes : List ℕ) (path : String) (mode : ℕ)
    : List (Action × Bool) → Result (Unit {0}) → Type 0 where
  not_begun : {e : Error} → Uploads bytes path mode [] (raise e)
  not_written : {e : Error} → Uploads bytes path mode ((wrote bytes path, false) ∷ []) (raise e)
  mode_not_set :
      {e : Error}
      → Uploads bytes path mode
          ((wrote bytes path, true) ∷ (set_mode path mode, false) ∷ [])
          (raise e)
  uploaded :
      Uploads bytes path mode ((wrote bytes path, true) ∷ (set_mode path mode, true) ∷ []) (ok tt)

-- The restoration: the command is run only after a complete upload.
pub data Restores (archive : List ℕ) : List (Action × Bool) → Result (Unit {0}) → Type 0 where
  stopped :
      {done : List (Action × Bool)} {e : Error}
      → Uploads archive "/tmp/restore.tar.gz" 384 done (raise e)
      → Restores archive done (raise e)
  went_on :
      {first second : List (Action × Bool)} (reply : Result Reply)
      → Uploads archive "/tmp/restore.tar.gz" 384 first (ok tt)
      → Tries extract_and_restart 1 second reply
      → Restores archive (first ++ second) (discarded (output reply))

module _ {C P W : Type 0} (asyncssh : Asyncssh C W) (sftp : Sftp C P W)
    (log : W → List (Action × Bool)) (law : IsLogged asyncssh sftp log)
    (target : DeviceTarget) where
  -- Where an upload that started at `w` has come to.
  abbrev Up : List ℕ → String → ℕ → W → Result (Unit {0}) × W → Type 0
  Up bytes path mode w (r, w') =
      (done : List (Action × Bool)) × (log w' ≡ log w ++ done) × Uploads bytes path mode done r

  written-Up :
      (p : P) (bytes : List ℕ) (path : String) (mode : ℕ) (w : W) (r : Result (Unit {0}) × W)
      → log r.1 ≡ log w ++ (wrote bytes path, is_ok r.0) ∷ []
      → Up bytes path mode w (pass_on (λ _. sftp.chmod p path mode) r)
  written-Up p bytes path mode w (raise e, w') here = (_, here, not_written)
  written-Up p bytes path mode w (ok tt, w') here =
      moded (sftp.chmod p path mode w') (law.chmodded p path mode w')
    where
      moded :
          (r : Result (Unit {0}) × W)
          → log r.1 ≡ log w' ++ (set_mode path mode, is_ok r.0) ∷ []
          → Up bytes path mode w r
      moded (ok tt, w'') there = (
        _,
        there ∙ ap (λ l. l ++ (set_mode path mode, true) ∷ []) here ∙ append_assoc (log w) _ _,
        uploaded,
      )
      moded (raise e, w'') there = (
        _,
        there ∙ ap (λ l. l ++ (set_mode path mode, false) ∷ []) here ∙ append_assoc (log w) _ _,
        mode_not_set,
      )

  upload-Up :
      (bytes : List ℕ) (path : String) (mode : ℕ) (c : C) (w : W)
      → Up bytes path mode w (upload asyncssh sftp bytes path mode c w)
  unfolding upload
  upload-Up bytes path mode c w = begun (sftp.start_sftp_client c w) (law.started c w)
    where
      begun :
          (r : Result P × W)
          → log r.1 ≡ log w
          → Up bytes path mode w (
              pass_on
                (λ session.
                  within
                    (sftp.exit session)
                    (sftp.write session bytes path >>= λ _. sftp.chmod session path mode))
                r)
      begun (raise e, w') same = ([], same ∙ sym (append-nil (log w)), not_begun)
      begun (ok p, w') same =
          let (d, here, up) =
            written-Up p bytes path mode w' (sftp.write p bytes path w')
              (law.written p bytes path w') in
          (d, law.left p _ ∙ here ∙ ap (λ l. l ++ d) same, up)

  put_bytes-Up :
      (bytes : List ℕ) (path : String) (mode : ℕ) (s : SshState C W)
      → let (r, s') = put_bytes asyncssh sftp target bytes path mode s in
        Up bytes path mode s.network (r, s'.network)
  unfolding put_bytes
  put_bytes-Up bytes path mode s =
      connected (get_connection asyncssh target s)
        (get_connection_logged asyncssh sftp log law target s)
    where
      connected :
          (r : Result C × SshState C W)
          → log r.1.network ≡ log s.network
          → let (r', s') =
              pass_on (λ conn. on_network (upload asyncssh sftp bytes path mode conn)) r in
            Up bytes path mode s.network (r', s'.network)
      connected (raise e, s') same = ([], same ∙ sym (append-nil (log s.network)), not_begun)
      connected (ok c, s') same =
          let (d, here, up) = upload-Up bytes path mode c s'.network in
          (d, here ∙ ap (λ l. l ++ d) same, up)

  -- Whatever the network answers, a restoration writes the archive at most once, sets its mode
  -- only if that succeeded, and runs the command only if both did, at most twice, the second
  -- time after a failure; it succeeds only if the last run exited with status 0.
  pub restore_backup-Restores :
      (archive : List ℕ) (s : SshState C W)
      → let (result, s') = restore_backup asyncssh sftp target archive s in
        (done : List (Action × Bool)) × (log s'.network ≡ log s.network ++ done)
        × Restores archive done result
  unfolding restore_backup extract
  restore_backup-Restores archive s =
      put (put_bytes asyncssh sftp target archive "/tmp/restore.tar.gz" 384 s)
        (put_bytes-Up archive "/tmp/restore.tar.gz" 384 s)
    where
      put :
          (r : Result (Unit {0}) × SshState C W)
          → Up archive "/tmp/restore.tar.gz" 384 s.network (r.0, r.1.network)
          → let (result, s') = pass_on (λ _. extract asyncssh sftp target) r in
            (done : List (Action × Bool)) × (log s'.network ≡ log s.network ++ done)
            × Restores archive done result
      put (raise e, s') (d, here, up) = (d, here, stopped up)
      put (ok tt, s') (d, here, up) =
          let (t, there, tries) = run-Done asyncssh sftp log law target extract_and_restart 30 s' in
          (
            d ++ t,
            there ∙ ap (λ l. l ++ t) here ∙ append_assoc (log s.network) d t,
            went_on _ up tries,
          )
