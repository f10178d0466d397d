-- ===== src/Ingest/Rates.antt =====
-- `_upsert_radio_counters` of app/main.py over two polls.
use heltec_wifi_optimization.Prelude.{
  ℕ, ◌+◌, ◌≡◌, refl, ap, sym, ◌∙◌, Option, Result, raise, Bool, true, some, List, [], ◌∷◌, arith,
  ==_refl, Bool-cases, inl, inr, find, ok, ◌>>=◌,
}
use heltec_wifi_optimization.Float.{Float}
use heltec_wifi_optimization.Db.{Db, Radio, RadioCounters, same_radio}
use heltec_wifi_optimization.Ingest.Counters.{
  radio_key, upsert, store_radio_counters, rates_since, upsert_radio_counters, retry_rate,
  throughput,
}

module _ {A : Type 0} (key : A → Bool) where
  -- The row that was put in is the one that its key finds.
  pub find-upsert :
      (row : A) (rows : List A) → key row ≡ true → find key (upsert key row rows) ≡ some row
  find-upsert row [] h = rw h
  find-upsert row (r ∷ rows) h = elim (Bool-cases (key r)) [
    | inl hit ↦ simp (hit, h) refl
    | inr miss ↦ simp miss (find-upsert row rows h)
  ]

  -- The last of two rows for one key stays.
  pub upsert-upsert :
      (row row' : A) (rows : List A)
      → key row ≡ true
      → upsert key row' (upsert key row rows) ≡ upsert key row' rows
  upsert-upsert row row' [] h = rw h
  upsert-upsert row row' (r ∷ rows) h = elim (Bool-cases (key r)) [
    | inl hit ↦ simp (hit, h) refl
    | inr miss ↦ simp miss (ap (λ rest. r ∷ rest) (upsert-upsert row row' rows h))
  ]

pub same_radio_refl : (a : Radio) → same_radio a a ≡ true
same_radio_refl a = ground arith

-- the counters of a poll, all there
abbrev pub full_row : ℕ → Radio → ℕ → ℕ → ℕ → ℕ → ℕ → RadioCounters
full_row device_id radio retries packets tx rx time = record {
  device_id = device_id;
  radio = radio;
  retries_cum = some retries;
  packets_cum = some packets;
  tx_bytes_cum = some tx;
  rx_bytes_cum = some rx;
  updated_at = time;
}

radio_key-full_row :
    (device_id : ℕ) (radio : Radio) (retries packets tx rx time : ℕ)
    → radio_key device_id radio (full_row device_id radio retries packets tx rx time) ≡ true
radio_key-full_row device_id radio retries packets tx rx time =
    simp (==_refl device_id, same_radio_refl radio) refl

module _ {F : Type 0} ⦃fl : Float F⦄ where
  upsert_radio_counters-store_radio_counters :
      (device_id : ℕ) (radio : Radio) (retries packets tx rx time : ℕ)
      (retries' packets' tx' rx' time' : ℕ) (db : Db F)
      → let first = full_row device_id radio retries packets tx rx time in
        let second = full_row device_id radio retries' packets' tx' rx' time' in
        upsert_radio_counters second (store_radio_counters first db)
        ≡ ok (
          (
            some (retry_rate retries' packets' retries packets),
            some (throughput (tx' + rx') time' (tx + rx) time),
          ),
          store_radio_counters second db,
        )
  unfolding upsert_radio_counters
  upsert_radio_counters-store_radio_counters device_id radio retries packets tx rx time retries'
        packets' tx' rx' time' db =
      let key = radio_key device_id radio in
      let first = full_row device_id radio retries packets tx rx time in
      let second = full_row device_id radio retries' packets' tx' rx' time' in
      let is_key = radio_key-full_row device_id radio retries packets tx rx time in
      ap
        (λ prev.
          rates_since prev second
          >>= (λ rates. ok (rates, store_radio_counters second (store_radio_counters first db))))
        (find-upsert key first db.radio_counters is_key)
      ∙ ap
          (λ rows. ok (
            (
              some (retry_rate retries' packets' retries packets),
              some (throughput (tx' + rx') time' (tx + rx) time),
            ),
            record db { radio_counters = rows },
          ))
          (upsert-upsert key first second db.radio_counters is_key)

  stored_by :
      {A : Type 0} (m : Result A) (after db' : Db F) (r : A)
      → (◌>>=◌ {B = A × Db F} m (λ a. ok (a, after))) ≡ ok (r, db')
      → after ≡ db'
  stored_by (ok a) after db' r h = cc
  stored_by (raise e) after db' r h = cc

  -- If one poll of a radio succeeds and reports all counters, the next one that does report all of
  -- them succeeds, its rates are those between the two polls, and of the two it is the second's
  -- counters that are stored for the radio.
  pub upsert_radio_counters_twice :
      (device_id : ℕ) (radio : Radio) (retries packets tx rx time : ℕ)
      (retries' packets' tx' rx' time' : ℕ) (db db' : Db F) (rates : Option F × Option F)
      → let first = full_row device_id radio retries packets tx rx time in
        let second = full_row device_id radio retries' packets' tx' rx' time' in
        upsert_radio_counters first db ≡ ok (rates, db')
        → upsert_radio_counters second db'
          ≡ ok (
            (
              some (retry_rate retries' packets' retries packets),
              some (throughput (tx' + rx') time' (tx + rx) time),
            ),
            store_radio_counters second db,
          )
  unfolding upsert_radio_counters
  upsert_radio_counters_twice device_id radio retries packets tx rx time retries' packets' tx' rx'
        time' db db' rates succeeds =
      let first = full_row device_id radio retries packets tx rx time in
      let second = full_row device_id radio retries' packets' tx' rx' time' in
      let same = stored_by _ (store_radio_counters first db) db' rates succeeds in
      ap (upsert_radio_counters second) (sym same)
      ∙ upsert_radio_counters-store_radio_counters device_id radio retries packets tx rx time
          retries' packets' tx' rx' time' db
