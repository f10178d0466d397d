-- ===== src/Ingest/Counters.antt =====
-- `_upsert_radio_counters` and `_upsert_client_counters` of app/main.py: rates from the counters of
-- two polls.
use heltec_wifi_optimization.Prelude.{
  ℕ, ◌+◌, ◌-◌, ◌*◌, Bool, ◌&&◌, Option, none, some, List, [], ◌∷◌, ◌==◌, ltb, leb, find,
  if◌then◌else◌, Result, ok, raise, type_error, ◌>>=◌,
}
use heltec_wifi_optimization.Float.{Float}
use heltec_wifi_optimization.Db.{Db, Radio, same_radio, RadioCounters, ClientCounters}

abbrev pub radio_key : ℕ → Radio → RadioCounters → Bool
radio_key device_id radio r = r.device_id == device_id && same_radio r.radio radio

abbrev pub client_key : ℕ → Radio → ℕ → ClientCounters → Bool
client_key device_id radio client_mac r =
    r.device_id == device_id && (same_radio r.radio radio && r.client_mac == client_mac)

-- `INSERT … ON CONFLICT (key) DO UPDATE`
abbrev pub upsert {ℓ} : {A : Type ℓ} → (A → Bool) → A → List A → List A
upsert key row [] = row ∷ []
upsert key row (r ∷ rows) = if key r then row ∷ rows else r ∷ upsert key row rows

-- `a - b` where `b` is None
abbrev pub present : Option ℕ → Result ℕ
present none = raise type_error
present (some n) = ok n

module _ {F : Type 0} ⦃fl : Float F⦄ where
  -- `(d_retries / d_packets) if (d_retries >= 0 and d_packets > 0) else 0.0`
  unfoldable pub retry_rate : ℕ → ℕ → ℕ → ℕ → F
  retry_rate retries packets prev_retries prev_packets =
      if leb prev_retries retries && ltb prev_packets packets
      then fl.div_ℕ (retries - prev_retries) (packets - prev_packets)
      else fl.of_ℕ 0

  -- The four counters, as they were read and as they were stored; the guard does not look at the
  -- stored retries.
  unfoldable pub retries_rate : Option ℕ → Option ℕ → Option ℕ → Option ℕ → Result (Option F)
  retries_rate (some retries) (some packets) prev_retries (some prev_packets) = do
    was ← present prev_retries
    ok (some (retry_rate retries packets was prev_packets))
  retries_rate _ _ _ _ = ok none

  -- `(d_bytes * 8) / (d_secs * 1_000_000)`
  unfoldable pub throughput : ℕ → ℕ → ℕ → ℕ → F
  throughput bytes now prev_bytes prev_time =
      if leb prev_bytes bytes && ltb prev_time now
      then fl.div (fl.of_ℕ ((bytes - prev_bytes) * 8))
          (fl.mul (fl.div_ℕ (now - prev_time) 1000000) (fl.of_ℕ 1000000))
      else fl.of_ℕ 0

  unfoldable pub throughput_mbps :
      Option ℕ → Option ℕ → ℕ → Option ℕ → Option ℕ → ℕ → Result (Option F)
  throughput_mbps (some tx) (some rx) now (some prev_tx) prev_rx prev_time = do
    was ← present prev_rx
    ok (some (throughput (tx + rx) now (prev_tx + was) prev_time))
  throughput_mbps _ _ _ _ _ _ = ok none

  -- both rates, against the row of the previous poll
  unfoldable pub rates_since : Option RadioCounters → RadioCounters → Result (Option F × Option F)
  unfolding retries_rate throughput_mbps
  rates_since none row = ok (none, none)
  rates_since (some prev) row = do
    rate ← retries_rate row.retries_cum row.packets_cum prev.retries_cum prev.packets_cum
    mbps ←
        throughput_mbps row.tx_bytes_cum row.rx_bytes_cum row.updated_at prev.tx_bytes_cum
          prev.rx_bytes_cum prev.updated_at
    ok (rate, mbps)

  abbrev pub store_radio_counters : RadioCounters → Db F → Db F
  store_radio_counters row db = record db {
    radio_counters = upsert (radio_key row.device_id row.radio) row db.radio_counters;
  }

  -- `_upsert_radio_counters`: the row is stored before the rates are computed; a raise undoes that
  -- with the transaction.
  unfoldable pub upsert_radio_counters :
      RadioCounters → Db F → Result ((Option F × Option F) × Db F)
  unfolding rates_since
  upsert_radio_counters row db = do
    rates ← rates_since (find (radio_key row.device_id row.radio) db.radio_counters) row
    ok (rates, store_radio_counters row db)

  unfoldable pub client_rate_since : Option ClientCounters → ClientCounters → Result (Option F)
  unfolding retries_rate
  client_rate_since none row = ok none
  client_rate_since (some prev) row =
      retries_rate row.retries_cum row.packets_cum prev.retries_cum prev.packets_cum

  -- `_upsert_client_counters`
  unfoldable pub upsert_client_counters : ClientCounters → Db F → Result (Option F × Db F)
  unfolding client_rate_since
  upsert_client_counters row db =
      let key = client_key row.device_id row.radio row.client_mac in
      do
        rate ← client_rate_since (find key db.client_counters) row
        ok (rate, record db { client_counters = upsert key row db.client_counters })
