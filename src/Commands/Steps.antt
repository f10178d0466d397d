-- ===== src/Commands/Steps.antt =====
-- The legal steps of a command, and the commands table seen by id.
use heltec_wifi_optimization.Prelude.{
  ℕ, ◌≡◌, refl, sym, ap, ◌∙◌, ◌≢◌, inl, inr, Bool, true, false, Option, some, List, [], ◌∷◌, arith,
  ◌==◌, ==→eq, Bool-cases, find, update,
}
use mathlib.Core.Bool.{false≢true}
use heltec_wifi_optimization.Db.{Command, reboot, Status, pending, applied}
use heltec_wifi_optimization.Commands.Apply.{mark_applied, mark_rebooted}
use heltec_wifi_optimization.Commands.Verify.{mark_acked, mark_reverted, mark_unknown}

-- What may become of a command: a pending one is applied, a pending reboot is acked at once, and
-- an applied one is acked, reverted or given up as unknown.
pub data Step (c c' : Command) : Type 0 where
  sent : (t : ℕ) → c.status ≡ pending → c.param ≢ reboot → c' ≡ mark_applied t c → Step c c'
  rebooted : (t : ℕ) → c.status ≡ pending → c.param ≡ reboot → c' ≡ mark_rebooted t c → Step c c'
  confirmed : (t : ℕ) → c.status ≡ applied → c' ≡ mark_acked t c → Step c c'
  failed : c.status ≡ applied → c' ≡ mark_reverted c → Step c c'
  lost : c.status ≡ applied → c' ≡ mark_unknown c → Step c c'

pub data Steps (c : Command) : Command → Type 0 where
  here : Steps c c
  next : {d e : Command} → Steps c d → Step d e → Steps c e

pub Steps-trans : {c d e : Command} → Steps c d → Steps d e → Steps c e
Steps-trans h here = h
Steps-trans h (next r s) = next (Steps-trans h r) s

-- the primary key
abbrev pub command_at : ℕ → List Command → Option Command
command_at i = find (λ c. c.id == i)

-- an `UPDATE` of the row with an id
abbrev pub update_at : ℕ → (Command → Command) → List Command → List Command
update_at j = update (λ c. c.id == j)

pub command_at-update_ne :
    (i j : ℕ) (f : Command → Command) (cs : List Command)
    → ((c : Command) → (f c).id ≡ c.id)
    → i ≢ j
    → command_at i (update_at j f cs) ≡ command_at i cs
command_at-update_ne i j f [] same ne = refl
command_at-update_ne i j f (c ∷ cs) same ne =
    ground (arith, same c, command_at-update_ne i j f cs same ne)

pub command_at-update_self :
    (i : ℕ) (f : Command → Command) (c : Command) (cs : List Command)
    → ((d : Command) → (f d).id ≡ d.id)
    → command_at i cs ≡ some c
    → command_at i (update_at i f cs) ≡ some (f c)
command_at-update_self i f c [] same h = cc
command_at-update_self i f c (d ∷ cs) same h =
    ground (arith, same d, command_at-update_self i f c cs same)

-- Every command of the first table is in the second, some legal steps on.
abbrev pub Continues : List Command → List Command → Type 0
Continues cs cs' =
    (i : ℕ) (c : Command)
    → command_at i cs ≡ some c
    → (c' : Command) × (command_at i cs' ≡ some c') × Steps c c'

pub Continues-refl : (cs : List Command) → Continues cs cs
Continues-refl cs i c h = (c, h, here)

pub Continues-trans :
    (xs ys zs : List Command) → Continues xs ys → Continues ys zs → Continues xs zs
Continues-trans xs ys zs p q i c h =
    let (d, at, s) = p i c h in let (e, at', s') = q i d at in (e, at', Steps-trans s s')

-- An update of one row by one legal step.
pub Continues-update :
    (c : Command) (f : Command → Command) (cs : List Command)
    → ((d : Command) → (f d).id ≡ d.id)
    → command_at c.id cs ≡ some c
    → Step c (f c)
    → Continues cs (update_at c.id f cs)
Continues-update c f cs same at step i d h = elim (Bool-cases (i == c.id)) [
  | inl here_id ↦
      let e : i ≡ c.id = ==→eq i c.id here_id in
      let at_i : command_at i cs ≡ some c = rw e at in
      let c-eq-d : c ≡ d = cc in
      (f c, rw e (command_at-update_self c.id f c cs same at), rw (← c-eq-d) (next here step))
  | inr other ↦ (d, rw (command_at-update_ne i c.id f cs same (λ e. ground arith)) h, here)
]

-- A command that has come to an end takes no step.
abbrev pub is_final : Status → Bool
is_final pending = false
is_final applied = false
is_final _ = true

Step-final : {c c' : Command} → Step c c' → is_final c.status ≡ false
Step-final (sent t p r e) = rw p
Step-final (rebooted t p r e) = rw p
Step-final (confirmed t p e) = rw p
Step-final (failed p e) = rw p
Step-final (lost p e) = rw p

pub Steps-final : {c c' : Command} → Steps c c' → is_final c.status ≡ true → c' ≡ c
Steps-final here h = refl
Steps-final (next r s) h =
    absurd (false≢true (sym (Step-final s) ∙ ap (λ d. is_final d.status) (Steps-final r h) ∙ h))
