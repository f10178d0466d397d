-- ===== src/Backups/Limit.antt =====
-- `poll_backups` of app/main.py: the archives of a device and the retention limit.
use heltec_wifi_optimization.Prelude.{
  ℕ, zero, suc, ◌+◌, ◌≤◌, ◌<◌, ◌≡◌, refl, subst, Bool, true, not, ◌&&◌, List, [], ◌∷◌, ◌++◌, map,
  arith, ◌==◌, ltb, Bool-cases, inl, inr, ==→eq, length, select, contains, count, count-either,
  count-select, count-subset, count_none, count_hit, count_miss, count-append, Option, none, some,
  Result, ok, raise,
}
use heltec_wifi_optimization.Db.{Db, Device, DeviceTarget, Role, Backup}
use heltec_wifi_optimization.DeviceClient.{DeviceClient}
use heltec_wifi_optimization.Backups.{
  of_device, take, newest_first, newest_ids, delete_old, enforce_retention, is_sha256,
  latest_sha256, new_backup, insert_backup, store_backup, store_for, handle_archive, fetch_backups,
  poll_backups, device_of_role,
}

module _ {A : Type 0} where
  length-take : (n : ℕ) (xs : List A) → length (take n xs) ≤ n
  length-take zero xs = omega arith
  length-take (suc n) [] = omega arith
  length-take (suc n) (x ∷ xs) = omega (arith, length-take n xs)

  length-map : (f : A → ℕ) (xs : List A) → length (map f xs) ≡ length xs
  length-map f [] = refl
  length-map f (x ∷ xs) = omega (arith, length-map f xs)

-- The primary key is unique, and no row has an id that is still to come.
abbrev pub Keyed : ℕ → List Backup → Type 0
Keyed next_id rows =
    (id : ℕ)
    → (count (λ b. id == b.id) rows ≤ 1) × (next_id ≤ id → count (λ b. id == b.id) rows ≤ 0)

count-contains :
    (ids : List ℕ) (next_id : ℕ) (rows : List Backup)
    → Keyed next_id rows
    → count (λ b. contains ids b.id) rows ≤ length ids
count-contains [] next_id rows keyed = count_none rows
count-contains (id ∷ ids) next_id rows keyed = omega (
  arith,
  count-either (λ b. id == b.id) (λ b. contains ids b.id) rows,
  count-contains ids next_id rows keyed,
  (keyed id).0,
)

Keyed-select :
    (test : Backup → Bool) (next_id : ℕ) (rows : List Backup)
    → Keyed next_id rows
    → Keyed next_id (select test rows)
Keyed-select test next_id rows keyed id =
    let fewer = count-subset (λ b. id == b.id) test rows in
    (omega (arith, fewer, (keyed id).0), (λ later. omega (arith, fewer, (keyed id).1 later)))

pub Keyed-append :
    (rows : List Backup) (b : Backup) → Keyed b.id rows → Keyed (b.id + 1) (rows ++ b ∷ [])
Keyed-append rows b keyed id =
    let both = count-append (λ c. id == c.id) rows (b ∷ []) in
    let (once, fresh) = keyed id in
    elim (Bool-cases (id == b.id)) [
      | inl same ↦
          let eq = ==→eq id b.id same in
          let none_yet = fresh (omega (arith, eq)) in
          let one = count_hit (λ (c : Backup). id == c.id) b same in
          (omega (arith, both, none_yet, one), (λ later. absurd (omega (arith, eq, later))))
      | inr other ↦
          let zero_more = count_miss (λ (c : Backup). id == c.id) b other in
          (
            omega (arith, both, once, zero_more),
            (λ later. omega (arith, both, zero_more, fresh (omega (arith, later)))),
          )
    ]

-- A device has no more rows than are kept.
count-delete_old :
    (device_id n next_id : ℕ) (rows : List Backup)
    → Keyed next_id rows
    → count (of_device device_id) (delete_old device_id n rows) ≤ n
unfolding delete_old
count-delete_old device_id n next_id rows keyed =
    let kept = newest_ids device_id n rows in
    let newest = newest_first (select (of_device device_id) rows) in
    omega (
      arith,
      count-select (of_device device_id) (λ b. contains kept b.id) rows,
      count-contains kept next_id rows keyed,
      length-map (λ (b : Backup). b.id) (take n newest),
      length-take n newest,
    )

count-delete_old_le :
    (device_id n other : ℕ) (rows : List Backup)
    → count (of_device other) (delete_old device_id n rows) ≤ count (of_device other) rows
unfolding delete_old
count-delete_old_le device_id n other rows =
    count-subset (of_device other)
      (λ b. not (of_device device_id b && not (contains (newest_ids device_id n rows) b.id))) rows

pub Keyed-enforce_retention :
    (device_id retention next_id : ℕ) (rows : List Backup)
    → Keyed next_id rows
    → Keyed next_id (enforce_retention device_id retention rows)
unfolding enforce_retention delete_old
Keyed-enforce_retention device_id retention next_id rows keyed =
    elim (Bool-cases (ltb 0 retention)) [
      | inl trims ↦ simp trims (Keyed-select _ next_id rows keyed)
      | inr keeps ↦ simp keeps keyed
    ]

-- Each device has at most `retention` rows.
abbrev pub Within : ℕ → List Backup → Type 0
Within retention rows = (device_id : ℕ) → count (of_device device_id) rows ≤ retention

Within-insert :
    (retention : ℕ) (rows : List Backup) (b : Backup)
    → 0 < retention
    → Keyed b.id rows
    → Within retention rows
    → Within retention (enforce_retention b.device_id retention (rows ++ b ∷ []))
unfolding enforce_retention
Within-insert retention rows b positive keyed within device_id =
    let table = rows ++ b ∷ [] in
    let trims : ltb 0 retention ≡ true = ground (arith, positive) in
    simp trims (elim (Bool-cases (b.device_id == device_id)) [
      | inl same ↦
          subst (λ id. count (of_device id) (delete_old b.device_id retention table) ≤ retention)
            (==→eq b.device_id device_id same)
            (count-delete_old b.device_id retention (b.id + 1) table (Keyed-append rows b keyed))
      | inr other ↦ omega (
        arith,
        count-delete_old_le b.device_id retention device_id table,
        count-append (of_device device_id) rows (b ∷ []),
        count_miss (of_device device_id) b other,
        within device_id,
      )
    ])

abbrev pub Limited : {F : Type 0} → ℕ → Db F → Type 0
Limited retention db = Keyed db.next_id db.backups × Within retention db.backups

module _ {F : Type 0} (sha256 : List ℕ → ℕ) (retention : ℕ) where
  store_backup-Limited :
      (now device_id : ℕ) (archive : List ℕ) (db : Db F)
      → 0 < retention
      → Limited retention db
      → Limited retention (store_backup sha256 now retention device_id archive db)
  unfolding store_backup insert_backup
  store_backup-Limited now device_id archive db positive (keyed, within) =
      let row = new_backup sha256 db.next_id now device_id archive in
      elim (Bool-cases (is_sha256 (latest_sha256 device_id db.backups) (sha256 archive))) [
        | inl known ↦ simp known (keyed, within)
        | inr new ↦ simp new (
          Keyed-enforce_retention device_id retention _ _ (Keyed-append db.backups row keyed),
          Within-insert retention db.backups row positive keyed within,
        )
      ]

  store_for-Limited :
      (now : ℕ) (d : Option Device) (archive : List ℕ) (db : Db F)
      → 0 < retention
      → Limited retention db
      → Limited retention (store_for sha256 now retention d archive db)
  store_for-Limited now none archive db positive limited = limited
  store_for-Limited now (some d) archive db positive limited =
      store_backup-Limited now d.id archive db positive limited

  handle_archive-Limited :
      (now : ℕ) (role : Role) (reply : Result (List ℕ)) (db : Db F)
      → 0 < retention
      → Limited retention db
      → Limited retention (handle_archive sha256 now retention role reply db)
  unfolding handle_archive
  handle_archive-Limited now role (raise e) db positive limited = limited
  handle_archive-Limited now role (ok []) db positive limited = limited
  handle_archive-Limited now role (ok (byte ∷ bytes)) db positive limited =
      store_for-Limited now (device_of_role role db.devices) (byte ∷ bytes) db positive limited

  fetch_backups-Limited :
      {W : Type 0} (client : DeviceClient F W) (now : ℕ) (targets : List DeviceTarget) (db : Db F)
      (w : W)
      → 0 < retention
      → Limited retention db
      → Limited retention (fetch_backups sha256 client now retention targets db w).0
  unfolding fetch_backups
  fetch_backups-Limited client now [] db w positive limited = limited
  fetch_backups-Limited client now (target ∷ targets) db w positive limited =
      let (reply, w') = client.fetch_backup target w in
      fetch_backups-Limited client now targets _ w' positive
        (handle_archive-Limited now target.role reply db positive limited)

-- A backup job that starts with no more archives of any device than the retention limit, ends so.
pub poll_backups-Limited :
    {F W : Type 0} (sha256 : List ℕ → ℕ) (client : DeviceClient F W) (now : ℕ) (db : Db F) (w : W)
    → 0 < db.app_settings.backup_retention_count
    → Limited db.app_settings.backup_retention_count db
    → Limited db.app_settings.backup_retention_count (poll_backups sha256 client now db w).0
unfolding poll_backups
poll_backups-Limited sha256 client now db w positive limited =
    fetch_backups-Limited sha256 _ client now db.targets db w positive limited
