-- ===== src/Keys/Access.antt =====
-- `Issue` and then `Verify` of internal/keys/keys.go.
use slim_m_relay.Prelude.{
  ℕ, suc, ◌≡◌, refl, sym, ◌∙◌, Option, none, some, List, [], ◌∷◌, ◌++◌, Bool-cases, inl, inr, arith,
}
use slim_m_relay.Prelude.Int.{ℤ}
use slim_m_relay.Text.{Str, str_eq, str_eq_refl}
use slim_m_relay.Keys.Tables.{KeyRow, key_by_hash, insert_key}
use slim_m_relay.Keys.Sql.{Result, ok, err, Store}
use slim_m_relay.Keys.Secret.{plaintext}
use slim_m_relay.Keys.Store.{Key, scan_key, issue, issue_plain, verify, unix}
use slim_m_relay.Keys.Atomic.{Ends, IsIssued, issue_plain-Ends}
use slim_m_relay.Keys.Rows.{insert_key-eq-some, new_key, add_key}

key_by_hash-append :
    (h : Str) (rows : List KeyRow) (row : KeyRow)
    → key_by_hash h rows ≡ none
    → row.key_hash ≡ h
    → key_by_hash h (rows ++ row ∷ []) ≡ some row
unfolding key_by_hash
key_by_hash-append h [] row e own = rw (own, str_eq_refl h) refl
key_by_hash-append h (r ∷ rows) row e own = elim (Bool-cases (str_eq r.key_hash h)) [
  | inl taken ↦ absurd (let q = rw taken at e in cc)
  | inr other ↦ rw other (key_by_hash-append h rows row (rw other at e) own)
]

-- the key that `Issue` makes, as `Verify` first returns it
abbrev pub issued : Str → ℕ → ℕ → ℕ → Key
issued label now later id = record {
  id = id;
  label = label;
  created_at = unix now;
  last_used_at = some (unix later);
  revoked_at = none;
}

module _ (hash_key : Str → Str) where
  -- After an `Issue` the table has one row with the hash of the plaintext, the last.
  pub issue-row :
      (raw : Option (List ℕ)) (label plain : Str) (max : ℤ) (now : ℕ) (s s' : Store)
      → issue hash_key raw label max now s ≡ (ok plain, s')
      → (key_by_hash (hash_key plain) s.db.keys ≡ none)
        × (s'.db ≡ add_key (new_key (hash_key plain) label (unix now) s.db) s.db)
  unfolding issue
  issue-row none label plain max now s s' e = absurd (cc)
  issue-row (some raw) label plain max now s s' e =
      go (issue_plain hash_key (plaintext raw) label max now s)
        (issue_plain-Ends hash_key (plaintext raw) label max now s) e
    where
      go :
          (r : Result Str × Store)
          → Ends s.db (IsIssued hash_key (plaintext raw) label max now s) r
          → r ≡ (ok plain, s')
          → (key_by_hash (hash_key plain) s.db.keys ≡ none)
            × (s'.db ≡ add_key (new_key (hash_key plain) label (unix now) s.db) s.db)
      go (err x, t) h q = absurd (cc)
      go (ok key, t) h q =
          let same : key ≡ plain = ground arith in
          let left : t ≡ s' = ground arith in
          let own : plaintext raw ≡ plain = sym h.0 ∙ same in
          let stored : insert_key (hash_key (plaintext raw)) label (unix now) s.db ≡ some t.db =
            h.1 in
          insert_key-eq-some (hash_key plain) label (unix now) s.db s'.db (rw (own, left) at stored)

  verify-row :
      (plain : Str) (later : ℕ) (s : Store) (row : KeyRow)
      → key_by_hash (hash_key plain) s.db.keys ≡ some row
      → row.revoked_at ≡ none
      → s.faults ≡ []
      → (verify hash_key plain later s).0
        ≡ ok (record (scan_key row) { last_used_at = some (unix later) })
  unfolding verify
  verify-row plain later s row found live runs = rw runs (rw found (rw live refl))

  -- A key that `Issue` returns is one that `Verify` accepts: as long as the database refuses nothing,
  -- it gives the key's record, with the label and the time of the issue, the next free id, no
  -- revocation, and the time of the verification as its last use.
  pub issue-verify :
      (raw : Option (List ℕ)) (label plain : Str) (max : ℤ) (now later : ℕ) (s s' : Store)
      → issue hash_key raw label max now s ≡ (ok plain, s')
      → s'.faults ≡ []
      → (verify hash_key plain later s').0 ≡ ok (issued label now later (suc s.db.key_seq))
  unfolding scan_key
  issue-verify raw label plain max now later s s' e runs =
      let (unknown, stored) = issue-row raw label plain max now s s' e in
      let found : key_by_hash (hash_key plain) s'.db.keys
          ≡ some (new_key (hash_key plain) label (unix now) s.db) =
        rw stored (
          key_by_hash-append (hash_key plain) s.db.keys
            (new_key (hash_key plain) label (unix now) s.db) unknown refl) in
      verify-row plain later s' (new_key (hash_key plain) label (unix now) s.db) found refl runs
