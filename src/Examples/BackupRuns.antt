-- ===== src/Examples/BackupRuns.antt =====
-- The backup job's theorems at concrete archives, and a test of the job.
use heltec_wifi_optimization.Prelude.{ℕ, ◌+◌, ◌≡◌, refl, some, List, [], ◌∷◌, map, foldl, arith}
use heltec_wifi_optimization.Db.{Db, Backup}
use heltec_wifi_optimization.Backups.{
  latest_sha256, delete_old, insert_backup, handle_archive, store_backup, poll_backups,
}
use heltec_wifi_optimization.Backups.Newest.{store_backup-latest_sha256}
use heltec_wifi_optimization.Backups.Limit.{Keyed, Within, Limited, poll_backups-Limited}
use heltec_wifi_optimization.Examples.Data.{empty, obedient}

-- a stand-in for the checksum
abbrev pub total : List ℕ → ℕ
total = foldl (λ m n. m + n) 0

abbrev old_backup : ℕ → Backup
old_backup id = record {
  id = id;
  device_id = 1;
  created_at = id;
  sha256 = id;
  size_bytes = 0;
  archive = [];
}

abbrev stored : Db ℕ
stored = record empty { backups = old_backup 7 ∷ old_backup 8 ∷ []; next_id = 9 }

store_backup-latest_sha256_example :
    let db' = store_backup total 30 2 1 (1 ∷ 2 ∷ []) stored in
    (latest_sha256 1 db'.backups ≡ some (total (1 ∷ 2 ∷ [])))
    × (store_backup total 60 2 1 (1 ∷ 2 ∷ []) db' ≡ db')
store_backup-latest_sha256_example =
    store_backup-latest_sha256 total 30 60 2 1 (1 ∷ 2 ∷ []) stored (omega arith, (omega arith, tt))

stored-Keyed : Keyed 9 stored.backups
stored-Keyed id = (ground arith, (λ later. ground (arith, later)))

stored-Within : Within 2 stored.backups
stored-Within device_id = ground arith

poll_backups-Limited_example : Limited 2 (poll_backups total obedient 30 stored 0).0
poll_backups-Limited_example =
    poll_backups-Limited total obedient 30 stored 0 (omega arith) (stored-Keyed, stored-Within)

-- The limit is 2: the oldest archive is deleted.
poll_backups_test : map (λ b. b.id) (poll_backups total obedient 30 stored 0).0.backups ≡ 8 ∷ 9 ∷ []
unfolding poll_backups store_backup delete_old insert_backup handle_archive
poll_backups_test = refl
