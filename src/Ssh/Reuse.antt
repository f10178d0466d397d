-- ===== src/Ssh/Reuse.antt =====
-- `run` of app/ssh_client.py: which connections are left, and the second attempt.
use heltec_wifi_optimization.Prelude.{
  ℕ, ◌≡◌, refl, ap, ◌∙◌, true, false, Option, none, some, List, [], ◌∷◌, arith, ==_refl, Bool-cases,
  inl, inr, ssh_error, Result, ok, raise, value_error, index_error, type_error, runtime_error, http,
}
use heltec_wifi_optimization.Db.{DeviceTarget}
use heltec_wifi_optimization.Ssh.{
  RemoteCommand, Reply, Asyncssh, SshState, same_key, cached, without, remember, keep, reuse,
  reconnect, get_connection, execute_on, attempt, close_stale, drop_connection, handled, retried,
  run,
}

same_key_refl : (t : DeviceTarget) → same_key t t ≡ true
same_key_refl t = simp (==_refl t.ssh_host, ==_refl t.ssh_port) refl

same_key_apart :
    (t target other : DeviceTarget)
    → same_key t target ≡ true
    → same_key target other ≡ false
    → same_key t other ≡ false
same_key_apart t target other h apart = ground arith

module _ {C : Type 0} where
  cached-without_other :
      (target other : DeviceTarget) (connections : List (DeviceTarget × C))
      → same_key target other ≡ false
      → cached other (without target connections) ≡ cached other connections
  cached-without_other target other [] apart = refl
  cached-without_other target other ((t, c) ∷ rest) apart = elim (Bool-cases (same_key t target)) [
    | inl hit ↦
        simp (hit, same_key_apart t target other hit apart)
          (cached-without_other target other rest apart)
    | inr miss ↦ elim (Bool-cases (same_key t other)) [
      | inl found ↦ simp (miss, found) refl
      | inr passed ↦ simp (miss, passed) (cached-without_other target other rest apart)
    ]
  ]

  cached-without :
      (target : DeviceTarget) (connections : List (DeviceTarget × C))
      → cached target (without target connections) ≡ none
  cached-without target [] = refl
  cached-without target ((t, c) ∷ rest) = elim (Bool-cases (same_key t target)) [
    | inl hit ↦ simp hit (cached-without target rest)
    | inr miss ↦ simp miss (cached-without target rest)
  ]

-- The connection that is cached for the host and port gave this reply, in the last call that the
-- network got.
abbrev pub Answered :
    {C W : Type 0} → Asyncssh C W → DeviceTarget → RemoteCommand → ℕ → Reply → SshState C W → Type 0
Answered {C} {W} asyncssh target command timeout reply s =
    (c : C) × (w : W) × (cached target s.connections ≡ some c)
    × (asyncssh.execute c command timeout w ≡ (ok reply, s.network))

-- What `run` leaves for its host and port: the connection that answered, and none after an
-- exception that it catches.
abbrev pub LeavesCached :
    {C W : Type 0}
    → Asyncssh C W
    → DeviceTarget
    → RemoteCommand
    → ℕ
    → Result Reply
    → SshState C W
    → Type 0
LeavesCached asyncssh target command timeout (ok reply) s =
    Answered asyncssh target command timeout reply s
LeavesCached asyncssh target command timeout (raise ssh_error) s =
    cached target s.connections ≡ none
LeavesCached asyncssh target command timeout (raise _) s = Unit

module _ {C W : Type 0} (asyncssh : Asyncssh C W) (target other : DeviceTarget)
    (apart : same_key target other ≡ false) where
  abbrev Same : SshState C W → SshState C W → Type 0
  Same s s' = cached other s'.connections ≡ cached other s.connections

  abbrev Got : SshState C W → Result C × SshState C W → Type 0
  Got s (ok c, s') = (cached target s'.connections ≡ some c) × Same s s'
  Got s (raise e, s') = Same s s'

  abbrev Ran : RemoteCommand → ℕ → SshState C W → Result Reply × SshState C W → Type 0
  Ran command timeout s (ok reply, s') =
      Answered asyncssh target command timeout reply s' × Same s s'
  Ran command timeout s (raise e, s') = Same s s'

  abbrev Done : RemoteCommand → ℕ → SshState C W → Result Reply × SshState C W → Type 0
  Done command timeout s (reply, s') =
      LeavesCached asyncssh target command timeout reply s' × Same s s'

  keep-Got : (s : SshState C W) (r : Result C × W) → Got s (keep asyncssh target s.connections r)
  keep-Got s (ok c, w) = (
    simp (same_key_refl target) refl,
    simp apart (cached-without_other target other s.connections apart),
  )
  keep-Got s (raise e, w) = refl

  reuse-Got :
      (s : SshState C W) (o : Option C)
      → cached target s.connections ≡ o
      → Got s (reuse asyncssh target o s)
  unfolding reconnect
  reuse-Got s none known = keep-Got s (asyncssh.connect target s.network)
  reuse-Got s (some c) known = elim (Bool-cases (asyncssh.is_closed c s.network)) [
    | inl dead ↦ simp dead (keep-Got s (asyncssh.connect target s.network))
    | inr alive ↦ simp alive (known, refl)
  ]

  execute_on-Ran :
      (command : RemoteCommand) (timeout : ℕ) (s : SshState C W) (r : Result C × SshState C W)
      → Got s r
      → Ran command timeout s (execute_on asyncssh command timeout r)
  execute_on-Ran command timeout s (raise e, s') same = same
  execute_on-Ran command timeout s (ok c, s') (known, same) =
      answered (asyncssh.execute c command timeout s'.network) refl
    where
      answered :
          (r : Result Reply × W)
          → asyncssh.execute c command timeout s'.network ≡ r
          → Ran command timeout s (r.0, record s' { network = r.1 })
      answered (ok reply, w) gives = ((c, s'.network, known, gives), same)
      answered (raise e, w) gives = same

  attempt-Ran :
      (command : RemoteCommand) (timeout : ℕ) (s : SshState C W)
      → Ran command timeout s (attempt asyncssh target command timeout s)
  unfolding attempt get_connection
  attempt-Ran command timeout s =
      execute_on-Ran command timeout s _ (reuse-Got s (cached target s.connections) refl)

  handled-Done :
      (command : RemoteCommand) (timeout : ℕ) (s : SshState C W) (r : Result Reply × SshState C W)
      → Ran command timeout s r
      → Done command timeout s (handled asyncssh target r)
  unfolding drop_connection
  handled-Done command timeout s (ok reply, s') h = h
  handled-Done command timeout s (raise ssh_error, s') same = (
    cached-without target s'.connections,
    cached-without_other target other s'.connections apart ∙ same,
  )
  handled-Done command timeout s (raise value_error, s') same = (tt, same)
  handled-Done command timeout s (raise index_error, s') same = (tt, same)
  handled-Done command timeout s (raise type_error, s') same = (tt, same)
  handled-Done command timeout s (raise runtime_error, s') same = (tt, same)
  handled-Done command timeout s (raise (http n), s') same = (tt, same)

  retried-Done :
      (command : RemoteCommand) (timeout : ℕ) (s : SshState C W) (r : Result Reply × SshState C W)
      → Done command timeout s r
      → Done command timeout s (retried asyncssh target command timeout r)
  retried-Done command timeout s (raise ssh_error, s') (dropped, same) =
      let (left, same') = handled-Done command timeout s' _ (attempt-Ran command timeout s') in
      (left, same' ∙ same)
  retried-Done command timeout s (ok reply, s') h = h
  retried-Done command timeout s (raise value_error, s') h = h
  retried-Done command timeout s (raise index_error, s') h = h
  retried-Done command timeout s (raise type_error, s') h = h
  retried-Done command timeout s (raise runtime_error, s') h = h
  retried-Done command timeout s (raise (http n), s') h = h

  -- Whatever the network does, a run that returns leaves the connection whose reply it returns
  -- cached for its host and port, and one that raises an SSH error leaves none; the connections to
  -- other hosts and ports stay.
  pub run-LeavesCached :
      (command : RemoteCommand) (timeout : ℕ) (s : SshState C W)
      → let (reply, s') = run asyncssh target command timeout s in
        LeavesCached asyncssh target command timeout reply s'
        × (cached other s'.connections ≡ cached other s.connections)
  unfolding run
  run-LeavesCached command timeout s =
      retried-Done command timeout s _
        (handled-Done command timeout s _ (attempt-Ran command timeout s))

module _ {C W : Type 0} (asyncssh : Asyncssh C W) (target : DeviceTarget) (command : RemoteCommand)
    (timeout : ℕ) where
  attempt-cached :
      (s : SshState C W) (c : C) (w : W) (reply : Result Reply)
      → cached target s.connections ≡ some c
      → asyncssh.is_closed c s.network ≡ false
      → asyncssh.execute c command timeout s.network ≡ (reply, w)
      → attempt asyncssh target command timeout s ≡ (reply, record s { network = w })
  unfolding attempt get_connection
  attempt-cached s c w reply known alive answers =
      ap (λ o. execute_on asyncssh command timeout (reuse asyncssh target o s)) known
      ∙ simp alive (ap (λ r. (r.0, record s { network = r.1 })) answers)

  attempt-connect :
      (s : SshState C W) (c : C) (w w' : W) (reply : Result Reply)
      → cached target s.connections ≡ none
      → asyncssh.connect target s.network ≡ (ok c, w)
      → asyncssh.execute c command timeout w ≡ (reply, w')
      → attempt asyncssh target command timeout s
        ≡ (reply, record { connections = remember target c s.connections; network = w' })
  unfolding attempt get_connection reconnect
  attempt-connect s c w w' reply fresh connects answers =
      ap (λ o. execute_on asyncssh command timeout (reuse asyncssh target o s)) fresh
      ∙ ap (λ r. execute_on asyncssh command timeout (keep asyncssh target s.connections r))
          connects
      ∙ ap (λ r. (r.0, record { connections = remember target c s.connections; network = r.1 }))
          answers

-- A cached connection that broke without being closed costs nothing: the run closes it, connects
-- once more, and returns what the new connection answers.
pub run-reconnect :
    {C W : Type 0} (asyncssh : Asyncssh C W) (target : DeviceTarget) (command : RemoteCommand)
    (timeout : ℕ) (s : SshState C W) (broken fresh : C) (w w' w'' : W) (reply : Reply)
    → cached target s.connections ≡ some broken
    → asyncssh.is_closed broken s.network ≡ false
    → asyncssh.execute broken command timeout s.network ≡ (raise ssh_error, w)
    → asyncssh.connect target (asyncssh.close broken w) ≡ (ok fresh, w')
    → asyncssh.execute fresh command timeout w' ≡ (ok reply, w'')
    → let (answer, s') = run asyncssh target command timeout s in
      (answer ≡ ok reply) × ((cached target s'.connections ≡ some fresh) × (s'.network ≡ w''))
unfolding run drop_connection
run-reconnect asyncssh target command timeout s broken fresh w w' w'' reply known alive fails
      connects answers =
    let dropped : SshState _ _ = drop_connection asyncssh target (record s { network = w }) in
    let first =
      attempt-cached asyncssh target command timeout s broken w (raise ssh_error) known alive
        fails in
    let second =
      attempt-connect asyncssh target command timeout dropped fresh w' w'' (ok reply)
        (cached-without target s.connections)
        (ap (λ o. asyncssh.connect target (close_stale asyncssh o w)) known ∙ connects) answers in
    let both =
      ap (λ r. retried asyncssh target command timeout (handled asyncssh target r)) first
      ∙ ap (handled asyncssh target) second in
    (
      ap (λ r. r.0) both,
      (
        ap (λ r. cached target r.1.connections) both ∙ simp (same_key_refl target) refl,
        ap (λ r. r.1.network) both,
      ),
    )
