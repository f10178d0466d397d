-- ===== src/Commands/History.antt =====
-- What a legal turn keeps of the commands table.
use heltec_wifi_optimization.Prelude.{
  All, ℕ, ◌<◌, ◌≡◌, sym, ◌∙◌, inl, inr, List, [], ◌∷◌, ◌==◌, Bool-cases,
}
use heltec_wifi_optimization.Db.{Command}
use heltec_wifi_optimization.Commands.Steps.{
  update_at, Continues, Continues-refl, Continues-trans, Continues-update,
}
use heltec_wifi_optimization.Commands.Tracked.{IsFresh, IsDistinct, IsTracked, IsTracked-update}
use heltec_wifi_optimization.Commands.Updates.{IsTimed, IsTurn}

-- The commands table: ids are distinct and below the sequence's next value, and each row has the
-- time or the reason that its status calls for.
pub record IsSound (next_id : ℕ) (table : List Command) : Type 0 where
  pub distinct : IsDistinct table
  pub bounded : All (λ c. c.id < next_id) table
  pub timed : All IsTimed table

module _ (f : Command → Command) (same : (c : Command) → (f c).id ≡ c.id) (j : ℕ) where
  pub update-IsFresh : (i : ℕ) (cs : List Command) → IsFresh i cs → IsFresh i (update_at j f cs)
  update-IsFresh i [] h = tt
  update-IsFresh i (c ∷ cs) (ne, h) = elim (Bool-cases (c.id == j)) [
    | inl hit ↦ simp hit ((λ e. ne (sym (same c) ∙ e)), update-IsFresh i cs h)
    | inr miss ↦ simp miss (ne, update-IsFresh i cs h)
  ]

  update-IsDistinct : (cs : List Command) → IsDistinct cs → IsDistinct (update_at j f cs)
  update-IsDistinct [] h = tt
  update-IsDistinct (c ∷ cs) (fresh, h) = elim (Bool-cases (c.id == j)) [
    | inl hit ↦ simp (hit, same) (update-IsFresh c.id cs fresh, update-IsDistinct cs h)
    | inr miss ↦ simp miss (update-IsFresh c.id cs fresh, update-IsDistinct cs h)
  ]

  update-All :
      (P : Command → Type 0) (cs : List Command)
      → ((c : Command) → P c → P (f c))
      → All P cs
      → All P (update_at j f cs)
  update-All P [] keep h = tt
  update-All P (c ∷ cs) keep (p, h) = elim (Bool-cases (c.id == j)) [
    | inl hit ↦ simp hit (keep c p, update-All P cs keep h)
    | inr miss ↦ simp miss (p, update-All P cs keep h)
  ]

module _ (c : Command) (cs cs' : List Command) where
  pub turn-IsSound : (next_id : ℕ) → IsTurn c cs cs' → IsSound next_id cs → IsSound next_id cs'
  turn-IsSound next_id (inl same) h = rw same h
  turn-IsSound next_id (inr u) h = rw u.result (record {
    distinct = update-IsDistinct u.change u.same_id c.id cs h.distinct;
    bounded =
        update-All u.change u.same_id c.id (λ d. d.id < next_id) cs (λ d lt. rw (u.same_id d) lt)
          h.bounded;
    timed = update-All u.change u.same_id c.id IsTimed cs (λ d _. u.timed d) h.timed;
  })

  pub turn-Continues :
      (P : Command → Type 0) (rest : List Command)
      → IsTurn c cs cs'
      → IsTracked P (c ∷ rest) cs
      → Continues cs cs'
  turn-Continues P rest (inl same) h = rw same (Continues-refl cs)
  turn-Continues P rest (inr u) (at, p, once, tracked) =
      rw u.result (Continues-update c u.change cs u.same_id at u.step)

  pub turn-IsTracked :
      (P : Command → Type 0) (rest : List Command)
      → IsTurn c cs cs'
      → IsTracked P (c ∷ rest) cs
      → IsTracked P rest cs'
  turn-IsTracked P rest (inl same) (at, p, once, tracked) = rw same tracked
  turn-IsTracked P rest (inr u) (at, p, once, tracked) =
      rw u.result (IsTracked-update P c.id u.change rest cs u.same_id once tracked)

-- What a job keeps: each command takes legal steps only, and the table stays sound.
pub record IsKept (next_id : ℕ) (cs cs' : List Command) : Type 0 where
  pub continues : Continues cs cs'
  pub sound : IsSound next_id cs → IsSound next_id cs'

pub IsKept-refl : (next_id : ℕ) (cs : List Command) → IsKept next_id cs cs
IsKept-refl next_id cs = record { continues = Continues-refl cs; sound = λ h. h }

pub IsKept-turn :
    (next_id : ℕ) (P : Command → Type 0) (c : Command) (rest cs cs' cs'' : List Command)
    → IsTurn c cs cs'
    → IsTracked P (c ∷ rest) cs
    → IsKept next_id cs' cs''
    → IsKept next_id cs cs''
IsKept-turn next_id P c rest cs cs' cs'' turn tracked kept = record {
  continues =
      Continues-trans cs cs' cs'' (turn-Continues c cs cs' P rest turn tracked) kept.continues;
  sound = λ h. kept.sound (turn-IsSound c cs cs' next_id turn h);
}
