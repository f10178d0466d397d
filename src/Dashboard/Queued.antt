-- ===== src/Dashboard/Queued.antt =====
-- A reboot from the dashboard, and the job that sends it.
use heltec_wifi_optimization.Prelude.{
  ℕ, ◌≡◌, refl, ap, false, some, List, [], ◌∷◌, ◌++◌, ◌==◌, ==_refl, ||→neither, Bool-cases, inl,
  inr, any, Result, All, ◌+◌, ◌<◌, ◌≢◌, ◌⊎◌, subst, ok, arith,
}
use heltec_wifi_optimization.Db.{Db, Command, Device, DeviceTarget, reboot, pending, acked}
use heltec_wifi_optimization.Events.{record_server_event, record_event}
use heltec_wifi_optimization.Report.{RawReply}
use heltec_wifi_optimization.Ssh.{Asyncssh, SshState}
use heltec_wifi_optimization.Devices.{device_by_mac}
use heltec_wifi_optimization.AgentClient.{device_client}
use heltec_wifi_optimization.AgentClient.Reboots.{is_pending, apply_pending_commands-Sent}
use heltec_wifi_optimization.Commands.Rows.{device_at, target_of_role}
use heltec_wifi_optimization.Commands.Steps.{
  command_at, Step, sent, rebooted, confirmed, failed, lost, Steps, here, next,
}
use heltec_wifi_optimization.Commands.History.{IsSound}
use heltec_wifi_optimization.Commands.Jobs.{apply_pending_commands-IsSound}
use heltec_wifi_optimization.Schedule.Frames.{append-IsSound}
use heltec_wifi_optimization.Commands.Apply.{apply_pending_commands}
use heltec_wifi_optimization.Dashboard.{reboot_command, queue_reboot, reboot_device}

command_at-append :
    (c : Command) (cs : List Command)
    → any (λ x. x.id == c.id) cs ≡ false
    → command_at c.id (cs ++ c ∷ []) ≡ some c
command_at-append c [] fresh = simp (==_refl c.id) refl
command_at-append c (x ∷ cs) fresh =
    let (first, rest) = ||→neither (x.id == c.id) _ fresh in
    elim (Bool-cases (x.id == c.id)) [
      | inl same ↦ cc
      | inr other ↦ simp other (command_at-append c cs rest)
    ]

below-fresh :
    (n : ℕ) (cs : List Command)
    → All (λ (c : Command). c.id < n) cs
    → any (λ c. c.id == n) cs ≡ false
below-fresh n [] h = refl
below-fresh n (c ∷ cs) (lt, h) = ground (arith, below-fresh n cs h)

-- A pending reboot stays as it is, or it is acked.
Steps-reboot :
    {c c' : Command}
    → c.status ≡ pending
    → c.param ≡ reboot
    → Steps c c'
    → (c' ≡ c) ⊎ (c'.status ≡ acked)
Steps-reboot waiting is_reboot here = inl refl
Steps-reboot {c = c} {c' = e} waiting is_reboot (next {d = d} r step) =
    elim (Steps-reboot waiting is_reboot r) [
      | inl same ↦ elim (subst (λ x. Step x e) same step) [
        | sent t p other eq ↦ absurd (other is_reboot)
        | rebooted t p q eq ↦ inr (ap (λ x. x.status) eq)
        | confirmed t p eq ↦ cc
        | failed p eq ↦ cc
        | lost p eq ↦ cc
      ]
      | inr done ↦ elim step [
        | sent t p other eq ↦ cc
        | rebooted t p q eq ↦ cc
        | confirmed t p eq ↦ cc
        | failed p eq ↦ cc
        | lost p eq ↦ cc
      ]
    ]

-- What is found by an id is not pending, if no row with the id is.
command_at-left :
    (id : ℕ) (c : Command) (cs : List Command)
    → command_at id cs ≡ some c
    → any (is_pending id) cs ≡ false
    → c.status ≢ pending
command_at-left id c [] at left waiting = cc
command_at-left id c (x ∷ cs) at left waiting =
    let (first, rest) = ||→neither (is_pending id x) _ left in
    elim (Bool-cases (x.id == id)) [
      | inl hit ↦
          let same : some x ≡ some c = simp hit at at in
          let x_waits : x.status ≡ pending = cc in cc (simp (hit, x_waits) at first)
      | inr miss ↦ command_at-left id c cs (simp miss at at) rest waiting
    ]

-- the row with this id is a pending reboot of the device
abbrev pub IsQueued : ℕ → ℕ → List Command → Type 0
IsQueued id device_id cs =
    (c : Command) × (command_at id cs ≡ some c)
    × (c.status ≡ pending)
    × (c.param ≡ reboot)
    × (c.device_id ≡ device_id)

-- the row with this id is acked
abbrev pub IsAcked : ℕ → List Command → Type 0
IsAcked id cs = (c : Command) × (command_at id cs ≡ some c) × (c.status ≡ acked)

-- With a sound table, a reboot from the dashboard of a known device succeeds and queues a pending
-- reboot of the device under the next id; if the device has a known SSH target, the next job acks
-- that command, whatever the network does.
pub reboot_device-apply_pending_commands :
    {F C W : Type 0} (asyncssh : Asyncssh C W) (loads : List ℕ → Result (RawReply F))
    (now later mac : ℕ) (d : Device) (target : DeviceTarget) (db : Db F) (s : SshState C W)
    → device_by_mac mac db.devices ≡ some d
    → device_at d.id db.devices ≡ some d
    → target_of_role d.role db.targets ≡ some target
    → IsSound db.next_id db.commands
    → let (result, queued) = reboot_device now mac db in
      let db' = (apply_pending_commands (device_client asyncssh loads) later queued s).0 in
      (result ≡ ok tt) × IsQueued db.next_id d.id queued.commands × IsAcked db.next_id db'.commands
unfolding reboot_device record_server_event record_event reboot_command
reboot_device-apply_pending_commands {F = F} {W = W} asyncssh loads now later mac d target db s
      found at known sound =
    let client = device_client asyncssh loads in
    let row = reboot_command db.next_id now d.id in
    let db' = (queue_reboot now (some d) db).1 in
    let there =
      command_at-append row db.commands (below-fresh db.next_id db.commands sound.bounded) in
    let left =
      apply_pending_commands-Sent asyncssh loads later db.next_id row d target db' s there refl refl
        refl at known in
    let (continues, _) =
      apply_pending_commands-IsSound client later (db.next_id + 1) db' s
        (append-IsSound row db.commands refl sound) in
    let (c', at', steps) = continues db.next_id row there in
    let acked_after : c'.status ≡ acked = elim (Steps-reboot refl refl steps) [
      | inl same ↦ absurd (command_at-left db.next_id c' _ at' left (ap (λ x. x.status) same))
      | inr done ↦ done
    ] in
    simp found (refl, (row, there, refl, refl, refl), (c', at', acked_after))
