-- ===== src/Backups/Newest.antt =====
-- `poll_backups` of app/main.py: the newest archive of a device.
use heltec_wifi_optimization.Prelude.{
  ℕ, zero, suc, ◌≤◌, ◌≡◌, refl, ap, ◌∙◌, Bool, true, not, ◌&&◌, Option, none, some, List, [], ◌∷◌,
  ◌++◌, map, arith, ==_refl, ==→eq, leb, ltb, if◌then◌else◌, Bool-cases, inl, inr, select,
  select-append, contains, latest,
}
use heltec_wifi_optimization.Db.{Db, Backup}
use heltec_wifi_optimization.Backups.{
  of_device, take, newest_first, newest_ids, delete_old, enforce_retention, sha256_of,
  latest_sha256, is_sha256, new_backup, insert_backup, store_backup,
}

-- No row is newer than `now`.
abbrev pub Until : ℕ → List Backup → Type 0
Until now [] = Unit
Until now (b ∷ rows) = (b.created_at ≤ now) × Until now rows

Until-select :
    (test : Backup → Bool) (now : ℕ) (rows : List Backup)
    → Until now rows
    → Until now (select test rows)
Until-select test now [] h = tt
Until-select test now (b ∷ rows) (first, rest) = elim (Bool-cases (test b)) [
  | inl kept ↦ simp kept (first, Until-select test now rows rest)
  | inr gone ↦ simp gone (Until-select test now rows rest)
]

leb_le : (a b : ℕ) → a ≤ b → leb a b ≡ true
leb_le a b h = ground (arith, h)

-- A row inserted last, and not older than any other, is the latest and comes first.
latest-append :
    (b : Backup) (rows : List Backup)
    → Until b.created_at rows
    → latest (λ r. r.created_at) (rows ++ b ∷ []) ≡ some b
latest-append b [] h = refl
latest-append b (r ∷ rows) (first, rest) =
    simp (latest-append b rows rest, leb_le r.created_at b.created_at first) refl

newest_first-append :
    (b : Backup) (rows : List Backup)
    → Until b.created_at rows
    → newest_first (rows ++ b ∷ []) ≡ b ∷ newest_first rows
newest_first-append b [] h = refl
newest_first-append b (r ∷ rows) (first, rest) =
    simp (newest_first-append b rows rest, leb_le r.created_at b.created_at first) refl

select_last :
    (test : Backup → Bool) (rows : List Backup) (b : Backup)
    → test b ≡ true
    → select test (rows ++ b ∷ []) ≡ select test rows ++ b ∷ []
select_last test rows b h = select-append test rows (b ∷ []) ∙ simp h refl

-- The newest row stays.
delete_old-append :
    (n : ℕ) (rows : List Backup) (b : Backup)
    → Until b.created_at rows
    → (left : List Backup) × ((delete_old b.device_id (suc n) (rows ++ b ∷ []) ≡ left ++ b ∷ [])
        × Until b.created_at left)
unfolding delete_old
delete_old-append n rows b until =
    let mine = of_device b.device_id in
    let table = rows ++ b ∷ [] in
    let ids : newest_ids b.device_id (suc n) table
        ≡ b.id ∷ map (λ r. r.id) (take n (newest_first (select mine rows))) =
      ap (λ rs. map (λ r. r.id) (take (suc n) (newest_first rs)))
        (select_last mine rows b (==_refl b.device_id))
      ∙ ap (λ rs. map (λ r. r.id) (take (suc n) rs))
          (newest_first-append b (select mine rows) (Until-select mine b.created_at rows until)) in
    let stays =
      λ (r : Backup). not (mine r && not (contains (newest_ids b.device_id (suc n) table) r.id)) in
    let stays_b : stays b ≡ true = simp (ids, ==_refl b.device_id, ==_refl b.id) refl in
    (
      select stays rows,
      (select_last stays rows b stays_b, Until-select stays b.created_at rows until),
    )

latest_sha256-append :
    (rows : List Backup) (b : Backup)
    → Until b.created_at rows
    → latest_sha256 b.device_id (rows ++ b ∷ []) ≡ some b.sha256
latest_sha256-append rows b until =
    let mine = of_device b.device_id in
    ap (λ rs. sha256_of (latest (λ r. r.created_at) rs))
      (select_last mine rows b (==_refl b.device_id))
    ∙ ap sha256_of (latest-append b (select mine rows) (Until-select mine b.created_at rows until))

latest_sha256-enforce_retention :
    (retention : ℕ) (rows : List Backup) (b : Backup)
    → Until b.created_at rows
    → latest_sha256 b.device_id (enforce_retention b.device_id retention (rows ++ b ∷ []))
      ≡ some b.sha256
unfolding enforce_retention
latest_sha256-enforce_retention zero rows b until = latest_sha256-append rows b until
latest_sha256-enforce_retention (suc n) rows b until =
    let trims : ltb 0 (suc n) ≡ true = ground arith in
    let (left, (same, older)) = delete_old-append n rows b until in
    simp trims (ap (latest_sha256 b.device_id) same ∙ latest_sha256-append left b older)

is_sha256→eq : (o : Option ℕ) (n : ℕ) → is_sha256 o n ≡ true → o ≡ some n
is_sha256→eq none n h = cc
is_sha256→eq (some m) n h = ap some (==→eq m n h)

module _ {F : Type 0} (sha256 : List ℕ → ℕ) where
  store_backup_known :
      (now retention device_id : ℕ) (archive : List ℕ) (db : Db F)
      → latest_sha256 device_id db.backups ≡ some (sha256 archive)
      → store_backup sha256 now retention device_id archive db ≡ db
  unfolding store_backup
  store_backup_known now retention device_id archive db newest =
      ap
        (λ o.
          if is_sha256 o (sha256 archive)
          then db
          else insert_backup sha256 now retention device_id archive db)
        newest
      ∙ simp (==_refl (sha256 archive)) refl

  -- When no stored archive is from the future, then after an archive was offered for a device its
  -- newest stored one has the checksum of the archive, whatever the retention limit; offering the
  -- archive again, then or later, changes nothing.
  pub store_backup-latest_sha256 :
      (now later retention device_id : ℕ) (archive : List ℕ) (db : Db F)
      → Until now db.backups
      → let db' = store_backup sha256 now retention device_id archive db in
        (latest_sha256 device_id db'.backups ≡ some (sha256 archive))
        × (store_backup sha256 later retention device_id archive db' ≡ db')
  unfolding store_backup insert_backup
  store_backup-latest_sha256 now later retention device_id archive db until =
      let db' = store_backup sha256 now retention device_id archive db in
      let row = new_backup sha256 db.next_id now device_id archive in
      let newest : latest_sha256 device_id db'.backups ≡ some (sha256 archive) =
        elim (Bool-cases (is_sha256 (latest_sha256 device_id db.backups) (sha256 archive))) [
          | inl known ↦ simp (known, store_backup) (is_sha256→eq _ (sha256 archive) known)
          | inr new ↦
              simp (new, store_backup)
                (latest_sha256-enforce_retention retention db.backups row until)
        ] in
      (newest, store_backup_known later retention device_id archive db' newest)
