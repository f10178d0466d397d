-- ===== src/Commands/Tracked.antt =====
-- The rows that a job of app/main.py has read, and the table when their turn comes.
use heltec_wifi_optimization.Prelude.{
  All, ℕ, ◌≡◌, sym, ◌≢◌, inl, inr, Bool, true, Option, none, some, List, [], ◌∷◌, leb, ==_refl,
  ne→==, Bool-cases, select,
}
use heltec_wifi_optimization.Db.{Command, Device, Status, same_status}
use heltec_wifi_optimization.Commands.Rows.{
  Joined, device_at, join_one, join_devices, insert_by_age, order_by_age, commands_in,
}
use heltec_wifi_optimization.Commands.Steps.{command_at, update_at, command_at-update_ne}

-- The id of none of the commands is `i`; `IsDistinct` is the primary key of `commands`.
abbrev pub IsFresh : ℕ → List Command → Type 0
IsFresh i [] = Unit
IsFresh i (c ∷ cs) = (c.id ≢ i) × IsFresh i cs

abbrev pub IsDistinct : List Command → Type 0
IsDistinct [] = Unit
IsDistinct (c ∷ cs) = IsFresh c.id cs × IsDistinct cs

-- the commands of the rows
abbrev pub commands_of : List Joined → List Command
commands_of [] = []
commands_of (r ∷ rows) = r.command ∷ commands_of rows

-- Each command of a list fulfils `P`, is the row of its id in the table, and is listed once.
abbrev pub IsTracked : (Command → Type 0) → List Command → List Command → Type 0
IsTracked P [] table = Unit
IsTracked P (c ∷ cs) table =
    (command_at c.id table ≡ some c) × P c × IsFresh c.id cs × IsTracked P cs table

-- An update of another row leaves them so.
pub IsTracked-update :
    (P : Command → Type 0) (j : ℕ) (f : Command → Command) (cs table : List Command)
    → ((c : Command) → (f c).id ≡ c.id)
    → IsFresh j cs
    → IsTracked P cs table
    → IsTracked P cs (update_at j f table)
IsTracked-update P j f [] table same fresh h = tt
IsTracked-update P j f (c ∷ cs) table same (ne, fresh) (at, p, once, rest) = (
  rw (command_at-update_ne c.id j f table same ne) at,
  p,
  once,
  IsTracked-update P j f cs table same fresh rest,
)

IsTracked-cons :
    (P : Command → Type 0) (d : Command) (cs table : List Command)
    → IsFresh d.id cs
    → IsTracked P cs table
    → IsTracked P cs (d ∷ table)
IsTracked-cons P d [] table fresh h = tt
IsTracked-cons P d (c ∷ cs) table (ne, fresh) (at, p, once, rest) =
    (rw (ne→== d.id c.id (λ e. ne (sym e))) at, p, once, IsTracked-cons P d cs table fresh rest)

-- A table tracks itself.
IsTracked-self :
    (P : Command → Type 0) (cs : List Command) → IsDistinct cs → All P cs → IsTracked P cs cs
IsTracked-self P [] distinct h = tt
IsTracked-self P (c ∷ cs) (fresh, distinct) (p, h) =
    (rw (==_refl c.id), p, fresh, IsTracked-cons P c cs cs fresh (IsTracked-self P cs distinct h))

select-IsFresh :
    (test : Command → Bool) (i : ℕ) (cs : List Command) → IsFresh i cs → IsFresh i (select test cs)
select-IsFresh test i [] h = tt
select-IsFresh test i (c ∷ cs) (ne, h) = elim (Bool-cases (test c)) [
  | inl pass ↦ rw pass (ne, select-IsFresh test i cs h)
  | inr fail ↦ rw fail (select-IsFresh test i cs h)
]

select-IsTracked :
    (P : Command → Type 0) (test : Command → Bool) (cs table : List Command)
    → IsTracked P cs table
    → IsTracked (λ c. P c × (test c ≡ true)) (select test cs) table
select-IsTracked P test [] table h = tt
select-IsTracked P test (c ∷ cs) table (at, p, once, rest) = elim (Bool-cases (test c)) [
  | inl pass ↦
      rw pass
        (at, (p, pass), select-IsFresh test c.id cs once, select-IsTracked P test cs table rest)
  | inr fail ↦ rw fail (select-IsTracked P test cs table rest)
]

join_devices-IsFresh :
    (devices : List Device) (i : ℕ) (cs : List Command)
    → IsFresh i cs
    → IsFresh i (commands_of (join_devices devices cs))
unfolding join_devices
join_devices-IsFresh devices i [] h = tt
join_devices-IsFresh devices i (c ∷ cs) (ne, h) =
    join (device_at c.device_id devices) (join_devices-IsFresh devices i cs h)
  where
    join :
        (d : Option Device)
        → IsFresh i (commands_of (join_devices devices cs))
        → IsFresh i (commands_of (join_one c d (join_devices devices cs)))
    join none rest = rest
    join (some d) rest = (ne, rest)

join_devices-IsTracked :
    (P : Command → Type 0) (devices : List Device) (cs table : List Command)
    → IsTracked P cs table
    → IsTracked P (commands_of (join_devices devices cs)) table
unfolding join_devices
join_devices-IsTracked P devices [] table h = tt
join_devices-IsTracked P devices (c ∷ cs) table (at, p, once, rest) =
    join (device_at c.device_id devices) (join_devices-IsTracked P devices cs table rest)
  where
    join :
        (d : Option Device)
        → IsTracked P (commands_of (join_devices devices cs)) table
        → IsTracked P (commands_of (join_one c d (join_devices devices cs))) table
    join none h = h
    join (some d) h = (at, p, join_devices-IsFresh devices c.id cs once, h)

insert_by_age-IsFresh :
    (row : Joined) (i : ℕ) (rows : List Joined)
    → row.command.id ≢ i
    → IsFresh i (commands_of rows)
    → IsFresh i (commands_of (insert_by_age row rows))
insert_by_age-IsFresh row i [] ne h = (ne, tt)
insert_by_age-IsFresh row i (r ∷ rows) ne (ne', h) =
    elim (Bool-cases (leb row.command.created_at r.command.created_at)) [
      | inl older ↦ simp older (ne, (ne', h))
      | inr newer ↦ simp newer (ne', insert_by_age-IsFresh row i rows ne h)
    ]

insert_by_age-IsTracked :
    (P : Command → Type 0) (row : Joined) (rows : List Joined) (table : List Command)
    → IsTracked P (row.command ∷ commands_of rows) table
    → IsTracked P (commands_of (insert_by_age row rows)) table
insert_by_age-IsTracked P row [] table h = h
insert_by_age-IsTracked P row (r ∷ rows) table (at, p, (ne, once), (at', p', once', rest)) =
    elim (Bool-cases (leb row.command.created_at r.command.created_at)) [
      | inl older ↦ simp older (at, p, (ne, once), (at', p', once', rest))
      | inr newer ↦ simp newer (
        at',
        p',
        insert_by_age-IsFresh row r.command.id rows (λ e. ne (sym e)) once',
        insert_by_age-IsTracked P row rows table (at, p, once, rest),
      )
    ]

order_by_age-IsFresh :
    (i : ℕ) (rows : List Joined)
    → IsFresh i (commands_of rows)
    → IsFresh i (commands_of (order_by_age rows))
unfolding order_by_age
order_by_age-IsFresh i [] h = tt
order_by_age-IsFresh i (r ∷ rows) (ne, h) =
    insert_by_age-IsFresh r i (order_by_age rows) ne (order_by_age-IsFresh i rows h)

order_by_age-IsTracked :
    (P : Command → Type 0) (rows : List Joined) (table : List Command)
    → IsTracked P (commands_of rows) table
    → IsTracked P (commands_of (order_by_age rows)) table
unfolding order_by_age
order_by_age-IsTracked P [] table h = tt
order_by_age-IsTracked P (r ∷ rows) table (at, p, once, rest) =
    insert_by_age-IsTracked P r (order_by_age rows) table
      (at, p, order_by_age-IsFresh r.command.id rows once, order_by_age-IsTracked P rows table rest)

-- What the query of `check_in_flight_commands` reads is tracked.
pub query-IsTracked :
    (P : Command → Type 0) (status : Status) (devices : List Device) (table : List Command)
    → IsDistinct table
    → All P table
    → IsTracked
        (λ c. P c × (same_status c.status status ≡ true))
        (commands_of (join_devices devices (commands_in status table)))
        table
unfolding commands_in
query-IsTracked P status devices table distinct valid =
    join_devices-IsTracked _ devices _ table
      (select-IsTracked P _ table table (IsTracked-self P table distinct valid))

-- So is what the query of `apply_pending_commands` reads, in its order.
pub ordered_query-IsTracked :
    (P : Command → Type 0) (status : Status) (devices : List Device) (table : List Command)
    → IsDistinct table
    → All P table
    → IsTracked
        (λ c. P c × (same_status c.status status ≡ true))
        (commands_of (order_by_age (join_devices devices (commands_in status table))))
        table
ordered_query-IsTracked P status devices table distinct valid =
    order_by_age-IsTracked _ _ table (query-IsTracked P status devices table distinct valid)
