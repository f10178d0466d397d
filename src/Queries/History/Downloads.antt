-- ===== src/Queries/History/Downloads.antt =====
-- The archives that the list of backups offers, and their downloads (app/main.py).
use heltec_wifi_optimization.Prelude.{
  All, ℕ, zero, suc, ◌≡◌, ◌≢◌, refl, ◌<◌, ◌≤◌, inl, inr, true, some, Option-cases, List, [], ◌∷◌,
  ==_refl, ne→==, leb, arith, length, ok,
}
use heltec_wifi_optimization.Db.{Db, pos, Backup}
use heltec_wifi_optimization.Settings.{positive}
use heltec_wifi_optimization.Targets.{at_most, backup_by_id}
use heltec_wifi_optimization.Backups.{take}
use heltec_wifi_optimization.OrderBy.{IsOrder, All-Permᴰ}
use heltec_wifi_optimization.DeviceClient.{DeviceClient}
use heltec_wifi_optimization.Backups.{poll_backups}
use heltec_wifi_optimization.Backups.Stored.{
  IsKey, Keyed-IsKey, IsSized, IsStored, poll_backups-IsStored,
}
use mathlib.Core.List.Permᴰ as Permᴰ
use heltec_wifi_optimization.Queries.History.{
  device_by_id, BackupHistoryEntry, join_backups, get_backup_history, Download, download_backup,
}

module _ {A : Type 0} (P : A → Type 0) where
  All-take : (n : ℕ) (xs : List A) → All P xs → All P (take n xs)
  All-take zero xs h = tt
  All-take (suc n) [] h = tt
  All-take (suc n) (x ∷ xs) (p, h) = (p, All-take n xs h)

-- A row that is not the first one is found behind it.
found_behind :
    (b : Backup) (rows xs : List Backup)
    → All (λ (c : Backup). b.id ≢ c.id) xs
    → All (λ (c : Backup). backup_by_id c.id rows ≡ some c) xs
    → All (λ (c : Backup). backup_by_id c.id (b ∷ rows) ≡ some c) xs
found_behind b rows [] apart h = tt
found_behind b rows (x ∷ xs) (ne, apart) (p, h) =
    (simp (ne→== b.id x.id ne) p, found_behind b rows xs apart h)

-- Each row is the one that its id finds.
found_by_id :
    (rows : List Backup) → IsKey rows → All (λ (b : Backup). backup_by_id b.id rows ≡ some b) rows
found_by_id [] key = tt
found_by_id (b ∷ rows) (apart, key) =
    (simp (==_refl b.id) refl, found_behind b rows rows apart (found_by_id rows key))

module _ {F : Type 0} (db : Db F) where
  -- The download of an entry is the file that the entry describes.
  abbrev pub IsOffered : BackupHistoryEntry → Type 0
  IsOffered e =
      (file : Download) × (download_backup e.id db ≡ ok file)
      × (length file.archive ≡ e.size_bytes)
      × (file.created_at ≡ e.created_at)
      × (file.mac ≡ e.device_mac)
      × (file.role ≡ e.device_role)

  join_backups-Offered :
      (rows : List Backup)
      → All (λ (b : Backup). backup_by_id b.id db.backups ≡ some b) rows
      → All IsSized rows
      → All IsOffered (join_backups db.devices rows)
  unfolding join_backups download_backup
  join_backups-Offered [] h sized = tt
  join_backups-Offered (b ∷ rows) (found, h) (size, sized) =
      let rest = join_backups-Offered rows h sized in
      elim (Option-cases (device_by_id b.device_id db.devices)) [
        | (inl gone) ↦ simp (gone) rest
        | (inr (d, known)) ↦
            simp (known) ((_, simp (found, known) refl, size, refl, refl, refl), rest)
      ]

  get_backup_history-Offered :
      (order : List BackupHistoryEntry → List BackupHistoryEntry) (n : ℕ)
      → IsOrder (λ e. e.created_at) order
      → IsKey db.backups
      → All IsSized db.backups
      → 0 < n
      → n ≤ 1000
      → (entries : List BackupHistoryEntry) × (get_backup_history order (pos n) db ≡ ok entries)
        × All IsOffered entries
  unfolding get_backup_history positive at_most
  get_backup_history-Offered order zero law key sized positive_n bound = absurd (omega arith)
  get_backup_history-Offered order (suc n) law key sized positive_n bound =
      let below : leb (suc n) 1000 ≡ true = ground arith in
      let rows = join_backups db.devices db.backups in
      let offered = join_backups-Offered db.backups (found_by_id db.backups key) sized in
      simp (below) (
        take (suc n) (order rows),
        refl,
        All-take IsOffered (suc n) (order rows)
            (All-Permᴰ IsOffered (Permᴰ.symm (law.same_rows rows)) offered),
      )

-- After a backup job, if the ids and the sizes of the stored backups were right before it, a list
-- of 1 to 1000 backups is given, and each entry of it can be downloaded: the file has the size,
-- the time, the address and the role of the entry. The job stores the size beside the archive.
pub poll_backups-Offered :
    {F W : Type 0} (sha256 : List ℕ → ℕ) (client : DeviceClient F W) (now : ℕ) (db : Db F) (w : W)
    (order : List BackupHistoryEntry → List BackupHistoryEntry) (n : ℕ)
    → IsOrder (λ e. e.created_at) order
    → IsStored db
    → 0 < n
    → n ≤ 1000
    → let db' = (poll_backups sha256 client now db w).0 in
      (entries : List BackupHistoryEntry) × (get_backup_history order (pos n) db' ≡ ok entries)
      × All (IsOffered db') entries
poll_backups-Offered sha256 client now db w order n law stored positive_n bound =
    let (keyed, sized) = poll_backups-IsStored sha256 client now db w stored in
    get_backup_history-Offered (poll_backups sha256 client now db w).0 order n law
      (Keyed-IsKey _ _ keyed) sized positive_n bound
