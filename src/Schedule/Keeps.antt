-- ===== src/Schedule/Keeps.antt =====
-- What every schedule of the jobs of app/main.py keeps of the commands table.
use heltec_wifi_optimization.Prelude.{◌+◌, ◌≡◌, sym, ap, subst, ◌∙◌, List, [], ◌∷◌, ◌++◌}
use heltec_wifi_optimization.Db.{Db, Command, pending, applied, same_status→eq}
use heltec_wifi_optimization.Commands.Steps.{Continues, Continues-refl}
use heltec_wifi_optimization.Commands.Tracked.{IsTracked, commands_of}
use heltec_wifi_optimization.Commands.Updates.{IsTurn}
use heltec_wifi_optimization.Commands.History.{
  IsSound, turn-IsSound, turn-IsTracked, turn-Continues,
}
use heltec_wifi_optimization.Commands.Jobs.{IsPending, IsFlying}
use heltec_wifi_optimization.Schedule.{
  Applying, sending, replied, Checking, verifying, answered, System,
}
use heltec_wifi_optimization.Schedule.Frames.{
  IsTracked-apart, turn-IsTracked_other, append-IsTracked, append-Continues, append-IsSound,
}

-- the rows that a job has read and not written yet
abbrev pub unsent : Applying → List Command
unsent Applying.resting = []
unsent (sending targets rows) = commands_of rows
unsent (replied targets row rows reply) = row.command ∷ commands_of rows

abbrev pub unchecked : Checking → List Command
unchecked Checking.resting = []
unchecked (verifying now delay targets rows) = commands_of rows
unchecked (answered now delay targets row rows applied_at reply) = row.command ∷ commands_of rows

-- The table is sound, and the rows that the two jobs hold still stand in it as they were read.
pub record IsConsistent {F W : Type 0} (s : System F W) : Type 0 where
  pub sound : IsSound s.db.next_id s.db.commands
  pub pending_rows : IsTracked IsPending (unsent s.applying) s.db.commands
  pub applied_rows : IsTracked IsFlying (unchecked s.checking) s.db.commands

pending_ne_applied : (c : Command) → IsPending c → IsFlying c → ⊥
pending_ne_applied c (_, p) (_, q) =
    let waiting = same_status→eq c.status pending p in
    let flying = same_status→eq c.status applied q in (cc)

applied_ne_pending : (c : Command) → IsFlying c → IsPending c → ⊥
applied_ne_pending c q p = pending_ne_applied c p q

-- The commands took legal steps only, and the state is consistent again.
abbrev pub Kept : {F W : Type 0} → System F W → System F W → Type 0
Kept s t = Continues s.db.commands t.db.commands × IsConsistent t

module _ {F W : Type 0} (s : System F W) (h : IsConsistent s) where
  -- a step that leaves the database alone
  pub waits :
      (applying : Applying) (checking : Checking) (network : W)
      → IsTracked IsPending (unsent applying) s.db.commands
      → IsTracked IsFlying (unchecked checking) s.db.commands
      → Kept s (record s { applying = applying; checking = checking; network = network })
  waits applying checking network p q =
      (Continues-refl s.db.commands, record { sound = h.sound; pending_rows = p; applied_rows = q })

  -- an insert of a pending row
  pub inserts :
      (new : Command) (db : Db F)
      → db.commands ≡ s.db.commands ++ new ∷ []
      → db.next_id ≡ s.db.next_id + 1
      → new.id ≡ s.db.next_id
      → new.status ≡ pending
      → Kept s (record s { db = db })
  inserts new db rows later is_next waiting = (
    rw rows (append-Continues new s.db.commands),
    record {
      sound = rw rows (
          subst (λ n. IsSound n (s.db.commands ++ new ∷ [])) (ap (λ n. n + 1) is_next ∙ sym later)
            (append-IsSound new s.db.commands waiting
              (subst (λ n. IsSound n s.db.commands) (sym is_next) h.sound)));
      pending_rows = rw rows (append-IsTracked IsPending new _ s.db.commands h.pending_rows);
      applied_rows = rw rows (append-IsTracked IsFlying new _ s.db.commands h.applied_rows);
    },
  )

  -- a turn of `apply_pending_commands`
  pub applies :
      (c : Command) (rest : List Command) (db : Db F) (applying : Applying)
      → IsTracked IsPending (c ∷ rest) s.db.commands
      → IsTurn c s.db.commands db.commands
      → db.next_id ≡ s.db.next_id
      → unsent applying ≡ rest
      → Kept s (record s { db = db; applying = applying })
  applies c rest db applying tracked turn same_next left = (
    turn-Continues c s.db.commands db.commands IsPending rest turn tracked,
    record {
      sound = rw same_next (turn-IsSound c s.db.commands db.commands s.db.next_id turn h.sound);
      pending_rows =
          rw left (turn-IsTracked c s.db.commands db.commands IsPending rest turn tracked);
      applied_rows =
          turn-IsTracked_other IsFlying c (unchecked s.checking) s.db.commands db.commands turn
            (IsTracked-apart IsPending IsFlying c _ s.db.commands pending_ne_applied tracked.0
              tracked.1 h.applied_rows)
            h.applied_rows;
    },
  )

  -- a turn of `check_in_flight_commands`
  pub checks :
      (c : Command) (rest : List Command) (db : Db F) (checking : Checking)
      → IsTracked IsFlying (c ∷ rest) s.db.commands
      → IsTurn c s.db.commands db.commands
      → db.next_id ≡ s.db.next_id
      → unchecked checking ≡ rest
      → Kept s (record s { db = db; checking = checking })
  checks c rest db checking tracked turn same_next left = (
    turn-Continues c s.db.commands db.commands IsFlying rest turn tracked,
    record {
      sound = rw same_next (turn-IsSound c s.db.commands db.commands s.db.next_id turn h.sound);
      applied_rows =
          rw left (turn-IsTracked c s.db.commands db.commands IsFlying rest turn tracked);
      pending_rows =
          turn-IsTracked_other IsPending c (unsent s.applying) s.db.commands db.commands turn
            (IsTracked-apart IsFlying IsPending c _ s.db.commands applied_ne_pending tracked.0
              tracked.1 h.pending_rows)
            h.pending_rows;
    },
  )
