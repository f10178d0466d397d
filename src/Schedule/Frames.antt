-- ===== src/Schedule/Frames.antt =====
-- What an insert, and a turn of the other job, leave of the rows that a job of app/main.py has read.
use heltec_wifi_optimization.Prelude.{
  All, ℕ, ◌+◌, ◌≤◌, ◌<◌, ◌≡◌, ◌≢◌, subst, some, List, [], ◌∷◌, ◌++◌, arith, inl, inr,
}
use heltec_wifi_optimization.Db.{Command, pending}
use heltec_wifi_optimization.Commands.Steps.{command_at, Continues, here}
use heltec_wifi_optimization.Commands.Tracked.{IsFresh, IsDistinct, IsTracked, IsTracked-update}
use heltec_wifi_optimization.Commands.History.{IsSound}
use heltec_wifi_optimization.Commands.Updates.{IsTimed, IsTurn}

-- Rows of two kinds that no command has at once have different ids.
pub IsTracked-apart :
    (P Q : Command → Type 0) (c : Command) (ds table : List Command)
    → ((d : Command) → P d → Q d → ⊥)
    → command_at c.id table ≡ some c
    → P c
    → IsTracked Q ds table
    → IsFresh c.id ds
IsTracked-apart P Q c [] table apart at p h = tt
IsTracked-apart P Q c (d ∷ ds) table apart at p (at', q, once, rest) = (
  (λ e.
      let here : command_at c.id table ≡ some d = subst (λ i. command_at i table ≡ some d) e at' in
      let c-eq-d : c ≡ d = cc in apart d (subst P c-eq-d p) q),
  IsTracked-apart P Q c ds table apart at p rest,
)

pub turn-IsTracked_other :
    (Q : Command → Type 0) (c : Command) (ds cs cs' : List Command)
    → IsTurn c cs cs'
    → IsFresh c.id ds
    → IsTracked Q ds cs
    → IsTracked Q ds cs'
turn-IsTracked_other Q c ds cs cs' (inl same) fresh h = rw same h
turn-IsTracked_other Q c ds cs cs' (inr u) fresh h =
    rw u.result (IsTracked-update Q c.id u.change ds cs u.same_id fresh h)

command_at-append :
    (i : ℕ) (c new : Command) (cs : List Command)
    → command_at i cs ≡ some c
    → command_at i (cs ++ new ∷ []) ≡ some c
command_at-append i c new [] h = cc
command_at-append i c new (d ∷ cs) h = ground (arith, command_at-append i c new cs)

pub append-IsTracked :
    (P : Command → Type 0) (new : Command) (ds cs : List Command)
    → IsTracked P ds cs
    → IsTracked P ds (cs ++ new ∷ [])
append-IsTracked P new [] cs h = tt
append-IsTracked P new (d ∷ ds) cs (at, p, once, rest) =
    (command_at-append d.id d new cs at, p, once, append-IsTracked P new ds cs rest)

pub append-Continues : (new : Command) (cs : List Command) → Continues cs (cs ++ new ∷ [])
append-Continues new cs i c h = (c, command_at-append i c new cs h, here)

All-append :
    (P Q : Command → Type 0) (new : Command) (cs : List Command)
    → ((c : Command) → P c → Q c)
    → Q new
    → All P cs
    → All Q (cs ++ new ∷ [])
All-append P Q new [] keep q h = (q, tt)
All-append P Q new (c ∷ cs) keep q (p, h) = (keep c p, All-append P Q new cs keep q h)

append-IsFresh :
    (i : ℕ) (new : Command) (cs : List Command)
    → new.id ≢ i
    → IsFresh i cs
    → IsFresh i (cs ++ new ∷ [])
append-IsFresh i new [] ne h = (ne, tt)
append-IsFresh i new (c ∷ cs) ne (other, h) = (other, append-IsFresh i new cs ne h)

append-IsDistinct :
    (new : Command) (cs : List Command)
    → All (λ c. c.id < new.id) cs
    → IsDistinct cs
    → IsDistinct (cs ++ new ∷ [])
append-IsDistinct new [] below h = (tt, tt)
append-IsDistinct new (c ∷ cs) (lt, below) (fresh, h) =
    (append-IsFresh c.id new cs (λ e. omega (arith, e, lt)) fresh, append-IsDistinct new cs below h)

pending-IsTimed : (c : Command) → c.status ≡ pending → IsTimed c
pending-IsTimed c waiting = record {
  applied_time = λ h. cc;
  acked_time = λ h. cc;
  reverted_reason = λ h. cc;
  unknown_reason = λ h. cc;
}

-- A new pending row with the next id keeps the table sound.
pub append-IsSound :
    (new : Command) (cs : List Command)
    → new.status ≡ pending
    → IsSound new.id cs
    → IsSound (new.id + 1) (cs ++ new ∷ [])
append-IsSound new cs waiting h = record {
  distinct = append-IsDistinct new cs h.bounded h.distinct;
  bounded =
      All-append (λ c. c.id < new.id) (λ c. c.id < new.id + 1) new cs (λ c lt. omega (arith, lt))
        (omega arith) h.bounded;
  timed = All-append IsTimed IsTimed new cs (λ c t. t) (pending-IsTimed new waiting) h.timed;
}

pub IsSound-later :
    (next_id later : ℕ) (cs : List Command)
    → next_id ≤ later
    → IsSound next_id cs
    → IsSound later cs
IsSound-later next_id later cs le h = record {
  distinct = h.distinct;
  bounded = below cs h.bounded;
  timed = h.timed;
}
  where
    below : (ds : List Command) → All (λ c. c.id < next_id) ds → All (λ c. c.id < later) ds
    below [] h = tt
    below (d ∷ ds) (lt, h) = (omega (arith, le, lt), below ds h)
