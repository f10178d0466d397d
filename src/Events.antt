-- ===== src/Events.antt =====
-- app/events.py: the activity log, and its deduplication of what a device reports again.
use heltec_wifi_optimization.Prelude.{
  ℕ, Bool, false, ◌&&◌, Option, none, some, List, [], ◌∷◌, ◌++◌, ◌==◌, any, if◌then◌else◌,
}
use heltec_wifi_optimization.Db.{Db, Event, EventType, EventSource, server}

-- the partial unique index on (device_id, device_seq)
abbrev pub has_seq : {F : Type 0} → ℕ → ℕ → Event F → Bool
has_seq device_id seq e =
    e.device_id == device_id && elim e.device_seq [ none ↦ false | some n ↦ n == seq ]

-- `INSERT … ON CONFLICT (device_id, device_seq) WHERE device_seq IS NOT NULL DO NOTHING`
abbrev pub conflicts : {F : Type 0} → Event F → List (Event F) → Bool
conflicts e rows = elim e.device_seq [
  | none ↦ false
  | some seq ↦ any (has_seq e.device_id seq) rows
]

unfoldable pub insert_event : {F : Type 0} → Event F → List (Event F) → List (Event F)
insert_event e rows = if conflicts e rows then rows else rows ++ e ∷ []

-- `occurred_at or datetime.now(timezone.utc)`
abbrev pub or_now : Option ℕ → ℕ → ℕ
or_now none now = now
or_now (some t) now = t

unfoldable pub record_event :
    {F : Type 0} → ℕ → ℕ → EventSource → EventType F → Option ℕ → Option ℕ → Db F → Db F
record_event now device_id source event device_seq occurred_at db = record db {
  events =
      insert_event
        (record {
          device_id = device_id;
          occurred_at = or_now occurred_at now;
          source = source;
          event = event;
          device_seq = device_seq;
        })
        db.events;
}

-- an event that the server itself records, at the moment it happens
unfoldable pub record_server_event : {F : Type 0} → ℕ → ℕ → EventType F → Db F → Db F
unfolding record_event
record_server_event now device_id event = record_event now device_id server event none none
