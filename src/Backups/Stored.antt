-- ===== src/Backups/Stored.antt =====
-- The rows of `device_backups` under `poll_backups` of app/main.py: their ids and their sizes.
use heltec_wifi_optimization.Prelude.{
  All, ℕ, ◌≤◌, ◌≡◌, ◌≢◌, refl, Bool, List, [], ◌∷◌, ◌++◌, arith, ◌==◌, ltb, Bool-cases, inl, inr,
  ==_refl, length, select, count, Option, none, some, Result, ok, raise,
}
use heltec_wifi_optimization.Db.{Db, Device, DeviceTarget, Role, Backup}
use heltec_wifi_optimization.DeviceClient.{DeviceClient}
use heltec_wifi_optimization.Backups.{
  delete_old, enforce_retention, is_sha256, latest_sha256, new_backup, insert_backup, store_backup,
  store_for, handle_archive, fetch_backups, poll_backups, device_of_role,
}
use heltec_wifi_optimization.Backups.Limit.{Keyed, Keyed-append, Keyed-enforce_retention}

-- the primary key of `device_backups`
abbrev pub IsKey : List Backup → Type 0
IsKey [] = Unit
IsKey (b ∷ rows) = All (λ (c : Backup). b.id ≢ c.id) rows × IsKey rows

-- no row has the id
count-other :
    (id : ℕ) (rows : List Backup)
    → count (λ b. id == b.id) rows ≤ 0
    → All (λ (c : Backup). id ≢ c.id) rows
count-other id [] h = tt
count-other id (c ∷ rows) h = elim (Bool-cases (id == c.id)) [
  | inl same ↦ absurd (ground (arith, same))
  | inr other ↦ ((λ e. ground arith), count-other id rows (ground arith))
]

pub Keyed-IsKey : (next_id : ℕ) (rows : List Backup) → Keyed next_id rows → IsKey rows
Keyed-IsKey next_id [] keyed = tt
Keyed-IsKey next_id (b ∷ rows) keyed = (
  count-other b.id rows (ground (arith, (keyed b.id).0, ==_refl b.id)),
  Keyed-IsKey next_id rows
      (λ id. (ground (arith, (keyed id).0), (λ later. ground (arith, (keyed id).1 later)))),
)

-- the size that is stored beside an archive
abbrev pub IsSized : Backup → Type 0
IsSized b = length b.archive ≡ b.size_bytes

module _ {A : Type 0} (P : A → Type 0) where
  All-select : (test : A → Bool) (xs : List A) → All P xs → All P (select test xs)
  All-select test [] h = tt
  All-select test (x ∷ xs) (p, h) = elim (Bool-cases (test x)) [
    | inl taken ↦ simp taken (p, All-select test xs h)
    | inr left ↦ simp left (All-select test xs h)
  ]

  All-append : (xs : List A) (x : A) → All P xs → P x → All P (xs ++ x ∷ [])
  All-append [] x h p = (p, tt)
  All-append (y ∷ xs) x (q, h) p = (q, All-append xs x h p)

abbrev pub IsStored : {F : Type 0} → Db F → Type 0
IsStored db = Keyed db.next_id db.backups × All IsSized db.backups

enforce_retention-Sized :
    (device_id retention : ℕ) (rows : List Backup)
    → All IsSized rows
    → All IsSized (enforce_retention device_id retention rows)
unfolding enforce_retention delete_old
enforce_retention-Sized device_id retention rows h = elim (Bool-cases (ltb 0 retention)) [
  | inl trims ↦ simp trims (All-select IsSized _ rows h)
  | inr keeps ↦ simp keeps h
]

module _ {F : Type 0} (sha256 : List ℕ → ℕ) (now retention : ℕ) where
  store_backup-IsStored :
      (device_id : ℕ) (archive : List ℕ) (db : Db F)
      → IsStored db
      → IsStored (store_backup sha256 now retention device_id archive db)
  unfolding store_backup insert_backup
  store_backup-IsStored device_id archive db (keyed, sized) =
      let row = new_backup sha256 db.next_id now device_id archive in
      elim (Bool-cases (is_sha256 (latest_sha256 device_id db.backups) (sha256 archive))) [
        | inl known ↦ simp known (keyed, sized)
        | inr new ↦ simp new (
          Keyed-enforce_retention device_id retention _ _ (Keyed-append db.backups row keyed),
          enforce_retention-Sized device_id retention _
              (All-append IsSized db.backups row sized refl),
        )
      ]

  store_for-IsStored :
      (d : Option Device) (archive : List ℕ) (db : Db F)
      → IsStored db
      → IsStored (store_for sha256 now retention d archive db)
  store_for-IsStored none archive db h = h
  store_for-IsStored (some d) archive db h = store_backup-IsStored d.id archive db h

  handle_archive-IsStored :
      (role : Role) (reply : Result (List ℕ)) (db : Db F)
      → IsStored db
      → IsStored (handle_archive sha256 now retention role reply db)
  unfolding handle_archive
  handle_archive-IsStored role (raise e) db h = h
  handle_archive-IsStored role (ok []) db h = h
  handle_archive-IsStored role (ok (byte ∷ bytes)) db h =
      store_for-IsStored (device_of_role role db.devices) (byte ∷ bytes) db h

  fetch_backups-IsStored :
      {W : Type 0} (client : DeviceClient F W) (targets : List DeviceTarget) (db : Db F) (w : W)
      → IsStored db
      → IsStored (fetch_backups sha256 client now retention targets db w).0
  unfolding fetch_backups
  fetch_backups-IsStored client [] db w h = h
  fetch_backups-IsStored client (target ∷ targets) db w h =
      let (reply, w') = client.fetch_backup target w in
      fetch_backups-IsStored client targets _ w' (handle_archive-IsStored target.role reply db h)

-- A backup job keeps the ids of the rows unique and their sizes those of their archives.
pub poll_backups-IsStored :
    {F W : Type 0} (sha256 : List ℕ → ℕ) (client : DeviceClient F W) (now : ℕ) (db : Db F) (w : W)
    → IsStored db
    → IsStored (poll_backups sha256 client now db w).0
unfolding poll_backups
poll_backups-IsStored sha256 client now db w h =
    fetch_backups-IsStored sha256 now _ client db.targets db w h
