-- ===== src/Server/Retention.antt =====
-- The retention policies that `ensure_retention_policies` of app/db.py leaves.
use heltec_wifi_optimization.Prelude.{
  ℕ, zero, suc, ◌≡◌, refl, sym, subst, ◌⊎◌, inl, inr, Option, none, some, Option-cases, Error,
  Result, ok, raise,
}
use heltec_wifi_optimization.Server.{
  Hypertable, telemetry, radio_clients, Timescale, policy_statement, ensure_policy,
  ensure_retention_policies,
}

-- What is to hold for a table afterwards: an existing policy stays as it is.
abbrev pub wanted : ℕ → Option ℕ → Option ℕ
wanted zero old = none
wanted (suc days) none = some (suc days)
wanted (suc days) (some old) = some old

-- The documented behaviour of the functions: `add_retention_policy` with `if_not_exists` keeps the
-- policy of a table that has one, a statement that fails changes nothing, and one for a table
-- leaves the other tables alone.
pub record IsTimescale {T : Type 0} (ts : Timescale T) (policy : Hypertable → T → Option ℕ)
    : Type 0 where
  pub added_new :
      (table : Hypertable) (days : ℕ) (t : T)
      → (ts.add_retention_policy table days t).0 ≡ ok tt
      → policy table t ≡ none
      → policy table (ts.add_retention_policy table days t).1 ≡ some days
  pub added_old :
      (table : Hypertable) (days : ℕ) (t : T) (old : ℕ)
      → (ts.add_retention_policy table days t).0 ≡ ok tt
      → policy table t ≡ some old
      → policy table (ts.add_retention_policy table days t).1 ≡ some old
  pub removed :
      (table : Hypertable) (t : T)
      → (ts.remove_retention_policy table t).0 ≡ ok tt
      → policy table (ts.remove_retention_policy table t).1 ≡ none
  pub add_failed :
      (table : Hypertable) (days : ℕ) (t : T) (e : Error)
      → (ts.add_retention_policy table days t).0 ≡ raise e
      → policy table (ts.add_retention_policy table days t).1 ≡ policy table t
  pub remove_failed :
      (table : Hypertable) (t : T) (e : Error)
      → (ts.remove_retention_policy table t).0 ≡ raise e
      → policy table (ts.remove_retention_policy table t).1 ≡ policy table t
  pub others_alone :
      (days : ℕ) (t : T)
      → (policy radio_clients (policy_statement ts days telemetry t).1 ≡ policy radio_clients t)
        × (policy telemetry (policy_statement ts days radio_clients t).1 ≡ policy telemetry t)

pub Result-cases : (r : Result (Unit {0})) → (r ≡ ok tt) ⊎ ((e : Error) × (r ≡ raise e))
Result-cases (ok tt) = inl refl
Result-cases (raise e) = inr (e, refl)

module _ {T : Type 0} (ts : Timescale T) (policy : Hypertable → T → Option ℕ) where
  -- A table that had the policy `old` has the one that is wanted, or its statement failed and it
  -- still has the old one.
  abbrev pub IsEnsured : ℕ → Hypertable → Option ℕ → Option ℕ → Type 0
  IsEnsured days table old new =
      (new ≡ wanted days old)
      ⊎ ((new ≡ old)
          × (at : T) × (policy table at ≡ old)
          × (e : Error) × ((policy_statement ts days table at).0 ≡ raise e))

  ensure_policy-IsEnsured :
      IsTimescale ts policy
      → (days : ℕ) (table : Hypertable) (t : T)
      → IsEnsured days table (policy table t) (policy table (ensure_policy ts days table t))
  unfolding ensure_policy policy_statement
  ensure_policy-IsEnsured law zero table t =
      elim (Result-cases (ts.remove_retention_policy table t).0) [
        | (inl done) ↦ inl (law.removed table t done)
        | (inr (e, fails)) ↦ inr (law.remove_failed table t e fails, t, refl, e, fails)
      ]
  ensure_policy-IsEnsured law (suc days) table t =
      elim (Result-cases (ts.add_retention_policy table (suc days) t).0) [
        | (inl done) ↦ inl (elim (Option-cases (policy table t)) [
          | (inl absent) ↦ simp (absent) (law.added_new table (suc days) t done absent)
          | (inr (old, there)) ↦ simp (there) (law.added_old table (suc days) t old done there)
        ])
        | (inr (e, fails)) ↦ inr (law.add_failed table (suc days) t e fails, t, refl, e, fails)
      ]

  -- If TimescaleDB behaves as documented, then after a call each of the two tables has the policy
  -- that is wanted: none for 0 days, otherwise its old one, or one of this many days if it had
  -- none; or its statement raised, and the table has the policy it had.
  pub ensure_retention_policies-IsEnsured :
      IsTimescale ts policy
      → (days : ℕ) (t : T)
      → let t' = ensure_retention_policies ts days t in
        IsEnsured days telemetry (policy telemetry t) (policy telemetry t')
        × IsEnsured days radio_clients (policy radio_clients t) (policy radio_clients t')
  unfolding ensure_retention_policies ensure_policy
  ensure_retention_policies-IsEnsured law days t =
      let mid = ensure_policy ts days telemetry t in
      (
        subst (IsEnsured days telemetry (policy telemetry t)) (sym (law.others_alone days mid).1)
            (ensure_policy-IsEnsured law days telemetry t),
        subst
            (λ old.
              IsEnsured days radio_clients old
                (policy radio_clients (ensure_policy ts days radio_clients mid)))
            (law.others_alone days t).0 (ensure_policy-IsEnsured law days radio_clients mid),
      )
