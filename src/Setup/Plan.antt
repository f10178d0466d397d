-- ===== src/Setup/Plan.antt =====
-- The plan of `provision` of app/device_client.py, and how far a run follows it.
use mathlib.Core.List.{append-nil}
use heltec_wifi_optimization.Prelude.{
  ℕ, ◌≡◌, refl, sym, ap, ◌∙◌, String, Bool, true, false, Bool-cases, inl, inr, Option, none, some,
  List, [], ◌∷◌, ◌++◌, ssh_error, value_error, index_error, type_error, runtime_error, http, Result,
  ok, raise,
}
use heltec_wifi_optimization.Db.{DeviceTarget}
use heltec_wifi_optimization.Ssh.{Reply}
use heltec_wifi_optimization.AgentClient.{succeeded}
use heltec_wifi_optimization.Prelude.Io.{pass_on, ◌>>=◌, pure, within, ignoring}
use heltec_wifi_optimization.Setup.{
  LocalFile, agent_script, agent_boot_init, SetupCommand, install_key, setup, restore, reboot,
  Bootstrap, as_runtime_error, check_status, run_checked, write_archive, copy_files, restore_config,
  set_up, provision,
}
use heltec_wifi_optimization.Setup.Follows.{
  Action, ran, copied, wrote, Follows, goes_on, stops_at, stops_before, reboots, finished,
  Follows-single, is_ok, exited_zero, Done, Does, >>=-Does, quiet-Done, within-Does,
}

-- A log of the device's changes: the commands and the copies are entered with how they ended, and
-- opening and closing connections and sessions changes nothing.
pub record IsLogged {C P W : Type 0} (asyncssh : Bootstrap C P W) (log : W → List (Action × Bool))
    : Type 0 where
  pub executed :
      (c : C) (command : SetupCommand) (timeout : ℕ) (w : W)
      → let (reply, w') = asyncssh.execute c command timeout w in
        log w' ≡ log w ++ (ran command, exited_zero reply) ∷ []
  pub put :
      (p : P) (file : LocalFile) (w : W)
      → let (r, w') = asyncssh.put p file w in log w' ≡ log w ++ (copied file, is_ok r) ∷ []
  pub written :
      (p : P) (archive : List ℕ) (w : W)
      → let (r, w') = asyncssh.write p archive w in log w' ≡ log w ++ (wrote archive, is_ok r) ∷ []
  pub key_read : (w : W) → log (asyncssh.read_public_key w).1 ≡ log w
  pub connected :
      (t : DeviceTarget) (password : String) (w : W) → log (asyncssh.connect t password w).1 ≡ log w
  pub closed : (c : C) (w : W) → log (asyncssh.close c w) ≡ log w
  pub started : (c : C) (w : W) → log (asyncssh.start_sftp_client c w).1 ≡ log w
  pub left : (p : P) (w : W) → log (asyncssh.exit p w) ≡ log w

-- The plan: the key, the two scripts, the archive if there is one, the set-up, the restoration of
-- the archive and the reboot.
abbrev pub write_plan : Option (List ℕ) → List Action
write_plan none = []
write_plan (some archive) = wrote archive ∷ []

abbrev pub restore_plan : Option (List ℕ) → List Action
restore_plan none = []
restore_plan (some archive) = ran restore ∷ []

abbrev pub copy_plan : Option (List ℕ) → List Action
copy_plan archive = copied agent_script ∷ copied agent_boot_init ∷ write_plan archive

abbrev pub plan : List ℕ → Option (List ℕ) → List Action
plan pubkey archive =
    ran (install_key pubkey)
    ∷ (copy_plan archive ++ (ran setup ∷ (restore_plan archive ++ ran reboot ∷ [])))

-- the key of the plan, if it is read
abbrev pub key_of : Result (List ℕ) → List ℕ
key_of (ok pubkey) = pubkey
key_of (raise e) = []

module _ {C P W : Type 0} (asyncssh : Bootstrap C P W) (log : W → List (Action × Bool))
    (law : IsLogged asyncssh log) where
  run_checked-Does :
      (c : C) (command : SetupCommand) (timeout : ℕ)
      → Does log (ran command ∷ []) (run_checked asyncssh c command timeout)
  run_checked-Does c command timeout w =
      answered (asyncssh.execute c command timeout w) (law.executed c command timeout w)
    where
      answered :
          (r : Result Reply × W)
          → log r.1 ≡ log w ++ (ran command, exited_zero r.0) ∷ []
          → Done log (ran command ∷ []) w (pass_on (λ reply. pure (check_status reply)) r)
      answered (raise e, w') here = (_, here, stops_at)
      answered (ok reply, w') here = elim (Bool-cases (succeeded reply)) [
        | (inl y) ↦ simp (y) (
          (ran command, true) ∷ [],
          here ∙ ap (λ b. log w ++ (ran command, b) ∷ []) y,
          goes_on finished,
        )
        | (inr n) ↦
            simp (n) (
              (ran command, false) ∷ [],
              here ∙ ap (λ b. log w ++ (ran command, b) ∷ []) n,
              stops_at,
            )
      ]

  write_archive-Does :
      (p : P) (archive : Option (List ℕ))
      → Does log (write_plan archive) (write_archive asyncssh p archive)
  write_archive-Does p none w = quiet-Done log w w (ok tt) refl
  write_archive-Does p (some archive) w = (_, law.written p archive w, Follows-single _ _)

  copy_files-Does :
      (p : P) (archive : Option (List ℕ))
      → Does log (copy_plan archive) (copy_files asyncssh p archive)
  unfolding copy_files
  copy_files-Does p archive =
      >>=-Does log _ _ (λ w. (_, law.put p agent_script w, Follows-single _ _))
        λ _.
          >>=-Does log _ _ (λ w. (_, law.put p agent_boot_init w, Follows-single _ _))
            λ _. write_archive-Does p archive

  restore_config-Does :
      (c : C) (archive : Option (List ℕ))
      → Does log (restore_plan archive) (restore_config asyncssh c archive)
  restore_config-Does c none w = quiet-Done log w w (ok tt) refl
  restore_config-Does c (some archive) w = run_checked-Does c restore 30 w

  reboot-Does : (c : C) → Does log (ran reboot ∷ []) (ignoring (asyncssh.execute c reboot 5))
  reboot-Does c w = (_, law.executed c reboot 5 w, reboots finished)

  set_up-Does :
      (pubkey : List ℕ) (archive : Option (List ℕ)) (c : C)
      → Does log (plan pubkey archive) (set_up asyncssh pubkey archive c)
  unfolding set_up
  set_up-Does pubkey archive c = >>=-Does log _ _ (run_checked-Does c (install_key pubkey) 15) λ _.
      >>=-Does log {plan = []} _ _ (λ w. quiet-Done log w _ _ (law.started c w))
        λ sftp.
          >>=-Does log _ _ (within-Does log _ _ (law.left sftp) (copy_files-Does sftp archive)) λ _.
            >>=-Does log _ _ (run_checked-Does c setup 15)
              λ _. >>=-Does log _ _ (restore_config-Does c archive) λ _. reboot-Does c

  connected-Does :
      (target : DeviceTarget) (password : String) (pubkey : List ℕ) (archive : Option (List ℕ))
      → Does log (plan pubkey archive) (
          asyncssh.connect target password >>= λ c.
          within (asyncssh.close c) (set_up asyncssh pubkey archive c))
  connected-Does target password pubkey archive =
      >>=-Does log {plan = []} _ _ (λ w. quiet-Done log w _ _ (law.connected target password w))
        λ c. within-Does log _ _ (law.closed c) (set_up-Does pubkey archive c)

  -- Whatever the network answers, what `provision` does to a device follows the plan: the key,
  -- the two scripts, the archive if there is one, the set-up, the restoration of the archive and
  -- the reboot. It stops at the first action that fails, or raises between two; it succeeds only
  -- if all were done and none but the reboot failed.
  pub provision-Follows :
      (target : DeviceTarget) (password : String) (archive : Option (List ℕ)) (w : W)
      → let (result, w') = provision asyncssh target password archive w in
        (done : List (Action × Bool)) × (log w' ≡ log w ++ done)
        × Follows (plan (key_of (asyncssh.read_public_key w).0) archive) done (is_ok result)
  unfolding provision
  provision-Follows target password archive w = read (asyncssh.read_public_key w) (law.key_read w)
    where
      read :
          (r : Result (List ℕ) × W)
          → log r.1 ≡ log w
          → Done log (plan (key_of r.0) archive) w (
              pass_on
                (λ pubkey. asyncssh.connect target password >>= λ c.
                  within (asyncssh.close c) (set_up asyncssh pubkey archive c))
                (as_runtime_error r))
      read (raise ssh_error, w') same = ([], same ∙ sym (append-nil (log w)), stops_before)
      read (raise value_error, w') same = ([], same ∙ sym (append-nil (log w)), stops_before)
      read (raise index_error, w') same = ([], same ∙ sym (append-nil (log w)), stops_before)
      read (raise type_error, w') same = ([], same ∙ sym (append-nil (log w)), stops_before)
      read (raise runtime_error, w') same = ([], same ∙ sym (append-nil (log w)), stops_before)
      read (raise (http n), w') same = ([], same ∙ sym (append-nil (log w)), stops_before)
      read (ok pubkey, w') same =
          let (d, here, follows) = connected-Does target password pubkey archive w' in
          (d, here ∙ ap (λ l. l ++ d) same, follows)
