-- ===== src/Commands/Occurs.antt =====
-- The rows that the queries of the command jobs find.
use heltec_wifi_optimization.Prelude.{
  ℕ, ◌≡◌, refl, ◌⊎◌, inl, inr, Bool, true, Option, none, some, List, [], ◌∷◌, arith, ◌==◌, leb,
  Bool-cases, select,
}
use heltec_wifi_optimization.Db.{Command, Device}
use heltec_wifi_optimization.Commands.Rows.{
  Joined, device_at, join_one, join_devices, insert_by_age, order_by_age,
}
use heltec_wifi_optimization.Commands.Steps.{command_at}

abbrev pub Occurs : {A : Type 0} → A → List A → Type 0
Occurs a [] = ⊥
Occurs a (x ∷ xs) = (a ≡ x) ⊎ Occurs a xs

pub command_at-Occurs :
    (i : ℕ) (c : Command) (cs : List Command) → command_at i cs ≡ some c → Occurs c cs
command_at-Occurs i c [] h = cc
command_at-Occurs i c (x ∷ cs) h = elim (Bool-cases (x.id == i)) [
  | inl hit ↦ inl (ground arith)
  | inr miss ↦ inr (command_at-Occurs i c cs (ground arith))
]

pub select-Occurs :
    (test : Command → Bool) (c : Command) (cs : List Command)
    → test c ≡ true
    → Occurs c cs
    → Occurs c (select test cs)
select-Occurs test c [] pass h = h
select-Occurs test c (x ∷ cs) pass (inl e) = rw (← e, pass) (inl refl)
select-Occurs test c (x ∷ cs) pass (inr h) = elim (Bool-cases (test x)) [
  | inl hit ↦ rw hit (inr (select-Occurs test c cs pass h))
  | inr miss ↦ rw miss (select-Occurs test c cs pass h)
]

abbrev pub row_of : Command → Device → Joined
row_of c d = record { command = c; mac = d.mac; role = d.role }

pub join_one-Occurs :
    (row : Joined) (c : Command) (d : Option Device) (rows : List Joined)
    → Occurs row rows
    → Occurs row (join_one c d rows)
join_one-Occurs row c none rows h = h
join_one-Occurs row c (some d) rows h = inr h

pub join_devices-Occurs :
    (devices : List Device) (c : Command) (d : Device) (cs : List Command)
    → device_at c.device_id devices ≡ some d
    → Occurs c cs
    → Occurs (row_of c d) (join_devices devices cs)
unfolding join_devices
join_devices-Occurs devices c d [] at h = h
join_devices-Occurs devices c d (x ∷ cs) at (inl e) = rw (← e, at) (inl refl)
join_devices-Occurs devices c d (x ∷ cs) at (inr h) =
    join_one-Occurs (row_of c d) x (device_at x.device_id devices) _
      (join_devices-Occurs devices c d cs at h)

insert_by_age-Occurs :
    (row r : Joined) (rows : List Joined)
    → (row ≡ r) ⊎ Occurs row rows
    → Occurs row (insert_by_age r rows)
insert_by_age-Occurs row r [] h = h
insert_by_age-Occurs row r (x ∷ rows) h =
    elim (Bool-cases (leb r.command.created_at x.command.created_at)) [
      | inl first ↦ simp first h
      | inr later ↦ simp later (elim h [
        | inl here ↦ inr (insert_by_age-Occurs row r rows (inl here))
        | inr (inl next) ↦ inl next
        | inr (inr there) ↦ inr (insert_by_age-Occurs row r rows (inr there))
      ])
    ]

pub order_by_age-Occurs :
    (row : Joined) (rows : List Joined) → Occurs row rows → Occurs row (order_by_age rows)
unfolding order_by_age
order_by_age-Occurs row [] h = h
order_by_age-Occurs row (r ∷ rows) (inl here) = insert_by_age-Occurs row r _ (inl here)
order_by_age-Occurs row (r ∷ rows) (inr h) =
    insert_by_age-Occurs row r _ (inr (order_by_age-Occurs row rows h))
