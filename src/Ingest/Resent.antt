-- ===== src/Ingest/Resent.antt =====
-- `_ingest_device_events` of app/main.py for events that a device reports again.
use heltec_wifi_optimization.Prelude.{
  ℕ, ◌≡◌, refl, ap, ◌∙◌, Bool, true, some, List, [], ◌∷◌, ◌++◌, arith, ==_refl, Bool-cases, inl,
  inr, any, if◌then◌else◌,
}
use heltec_wifi_optimization.Db.{Db, Event, device, reported, seconds}
use heltec_wifi_optimization.Report.{DeviceEventRaw}
use heltec_wifi_optimization.Events.{has_seq, insert_event, record_event, conflicts}
use heltec_wifi_optimization.Ingest.Collect.{ingest_device_events}

any-here :
    {A : Type 0} (test : A → Bool) (xs : List A) (y : A)
    → test y ≡ true
    → any test (xs ++ y ∷ []) ≡ true
any-here test [] y h = rw h
any-here test (x ∷ xs) y h = ground (arith, any-here test xs y h)

any-append :
    {A : Type 0} (test : A → Bool) (xs ys : List A)
    → any test xs ≡ true
    → any test (xs ++ ys) ≡ true
any-append test [] ys h = cc
any-append test (x ∷ xs) ys h = ground (arith, any-append test xs ys)

module _ {F : Type 0} where
  -- An insertion removes no row, and after it a row has the sequence number.
  any-insert_event :
      (test : Event F → Bool) (e : Event F) (rows : List (Event F))
      → any test rows ≡ true
      → any test (insert_event e rows) ≡ true
  unfolding insert_event
  any-insert_event test e rows h = elim (Bool-cases (conflicts e rows)) [
    | inl known ↦ simp known h
    | inr new ↦ simp new (any-append test rows (e ∷ []) h)
  ]

  module _ (now device_id : ℕ) where
    -- the row that a reported event makes
    abbrev row_of : DeviceEventRaw → Event F
    row_of e = record {
      device_id = device_id;
      occurred_at = seconds e.ts;
      source = device;
      event = reported e.kind e.message e.details;
      device_seq = some e.seq;
    }

    any-row_of :
        (e : DeviceEventRaw) (rows : List (Event F))
        → any (has_seq device_id e.seq) (insert_event (row_of e) rows) ≡ true
    unfolding insert_event
    any-row_of e rows = elim (Bool-cases (any (has_seq device_id e.seq) rows)) [
      | inl known ↦ simp known refl
      | inr new ↦ simp new (
          any-here (has_seq device_id e.seq) rows (row_of e)
            (simp (==_refl device_id, ==_refl e.seq) refl))
    ]

    any-ingest_device_events :
        (test : Event F → Bool) (es : List DeviceEventRaw) (db : Db F)
        → any test db.events ≡ true
        → any test (ingest_device_events now device_id es db).events ≡ true
    unfolding ingest_device_events record_event
    any-ingest_device_events test [] db h = h
    any-ingest_device_events test (e ∷ es) db h =
        any-ingest_device_events test es _ (any-insert_event test (row_of e) db.events h)

  -- each event of the list has a row
  abbrev Stored : ℕ → List DeviceEventRaw → List (Event F) → Type 0
  Stored device_id [] rows = Unit
  Stored device_id (e ∷ es) rows =
      (any (has_seq device_id e.seq) rows ≡ true) × Stored device_id es rows

  ingest_device_events-Stored :
      (now device_id : ℕ) (es : List DeviceEventRaw) (db : Db F)
      → Stored device_id es (ingest_device_events now device_id es db).events
  unfolding ingest_device_events record_event
  ingest_device_events-Stored now device_id [] db = tt
  ingest_device_events-Stored now device_id (e ∷ es) db = (
    any-ingest_device_events now device_id (has_seq device_id e.seq) es _
        (any-row_of now device_id e db.events),
    ingest_device_events-Stored now device_id es _,
  )

  Stored-append :
      (device_id : ℕ) (xs ys : List DeviceEventRaw) (rows : List (Event F))
      → Stored device_id (xs ++ ys) rows
      → Stored device_id ys rows
  Stored-append device_id [] ys rows h = h
  Stored-append device_id (x ∷ xs) ys rows (_, h) = Stored-append device_id xs ys rows h

  ingest_device_events_known :
      (now device_id : ℕ) (ys zs : List DeviceEventRaw) (db : Db F)
      → Stored device_id ys db.events
      → ingest_device_events now device_id (ys ++ zs) db ≡ ingest_device_events now device_id zs db
  unfolding ingest_device_events record_event insert_event
  ingest_device_events_known now device_id [] zs db h = refl
  ingest_device_events_known now device_id (y ∷ ys) zs db (known, h) =
      ap
        (λ b. ingest_device_events now device_id (ys ++ zs) (record db {
          events = if b then db.events else db.events ++ row_of now device_id y ∷ [];
        }))
        known
      ∙ ingest_device_events_known now device_id ys zs db h

  -- After a report whose events end with `ys`, a report that sends `ys` again before `zs` stores
  -- what one with only `zs` would.
  pub ingest_device_events_resent :
      (now later device_id : ℕ) (xs ys zs : List DeviceEventRaw) (db : Db F)
      → let db' = ingest_device_events now device_id (xs ++ ys) db in
        ingest_device_events later device_id (ys ++ zs) db'
        ≡ ingest_device_events later device_id zs db'
  ingest_device_events_resent now later device_id xs ys zs db =
      ingest_device_events_known later device_id ys zs _
        (Stored-append device_id xs ys _ (ingest_device_events-Stored now device_id (xs ++ ys) db))
