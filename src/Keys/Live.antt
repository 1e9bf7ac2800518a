-- ===== src/Keys/Live.antt =====
-- A key of internal/keys/keys.go that nobody revokes, from its `Issue` to any later `Verify`.
use slim_m_relay.Prelude.{
  ℕ, suc, ◌≡◌, ◌≢◌, refl, ap, false, Option, none, some, List, [], ◌∷◌, ◌++◌, All, arith, ◌==◌,
  Bool-cases, inl, inr, ◌⊎◌,
}
use slim_m_relay.Prelude.Int.{ℤ, pos, negsuc}
use slim_m_relay.Text.{Str, str_eq, str_eq_refl}
use slim_m_relay.Keys.Tables.{Db, KeyRow, key_by_hash, stamp_key, revoke_key, is_revocable, has_id}
use slim_m_relay.Keys.Sql.{Result, ok, err, sql_error, Store, statement_cases, bind_result, exec}
use slim_m_relay.Keys.Store.{
  Key, issue, verify, unix, check_row, check_revoked, stamp_used, scan_key,
}
use slim_m_relay.Keys.Changes.{
  Change, none_made, key_inserted, key_stamped, key_revoked, tokens_bound, tokens_swept,
}
use slim_m_relay.Keys.Run.{Call, issues, verifies, revokes, lists, binds, Cuts, run, run_induction}
use slim_m_relay.Keys.Rows.{insert_key-eq-some, new_key}
use slim_m_relay.Keys.Ceiling.{bound-keys}
use slim_m_relay.Keys.Access.{issue-row}
use slim_m_relay.Keys.Holding.{Either}

-- the row with hash `h` is key `n`'s, and it is not revoked
abbrev pub IsLive : Str → ℕ → List KeyRow → Type 0
IsLive h n [] = ⊥
IsLive h n (row ∷ rows) =
    Either (str_eq row.key_hash h) ((row.id ≡ n) × (row.revoked_at ≡ none)) (IsLive h n rows)

module _ (h : Str) (n : ℕ) where
  key_by_hash-IsLive :
      (rows : List KeyRow)
      → IsLive h n rows
      → (row : KeyRow) × (key_by_hash h rows ≡ some row) × (row.id ≡ n) × (row.revoked_at ≡ none)
  unfolding key_by_hash
  key_by_hash-IsLive [] live = absurd live
  key_by_hash-IsLive (row ∷ rows) live = elim (Bool-cases (str_eq row.key_hash h)) [
    | inl this ↦
        let own : (row.id ≡ n) × (row.revoked_at ≡ none) = rw this at live in
        (row, rw this refl, own.0, own.1)
    | inr other ↦
        let (found, at, id, valid) = key_by_hash-IsLive rows (rw other at live) in
        (found, rw other at, id, valid)
  ]

  append-IsLive : (rows new : List KeyRow) → IsLive h n rows → IsLive h n (rows ++ new)
  append-IsLive [] new live = absurd live
  append-IsLive (row ∷ rows) new live = elim (Bool-cases (str_eq row.key_hash h)) [
    | inl this ↦ rw this (rw this at live)
    | inr other ↦ rw other (append-IsLive rows new (rw other at live))
  ]

  stamp_key-IsLive :
      (now id : ℕ) (rows : List KeyRow) → IsLive h n rows → IsLive h n (stamp_key now id rows)
  unfolding stamp_key
  stamp_key-IsLive now id [] live = absurd live
  stamp_key-IsLive now id (row ∷ rows) live = elim (Bool-cases (row.id == id)) [
    | inl same ↦ rw same (elim (Bool-cases (str_eq row.key_hash h)) [
      | inl this ↦ rw this (rw this at live)
      | inr other ↦ rw other (stamp_key-IsLive now id rows (rw other at live))
    ])
    | inr apart ↦ rw apart (elim (Bool-cases (str_eq row.key_hash h)) [
      | inl this ↦ rw this (rw this at live)
      | inr other ↦ rw other (stamp_key-IsLive now id rows (rw other at live))
    ])
  ]

  has_id-other : (id : ℤ) (row : KeyRow) → id ≢ pos n → row.id ≡ n → has_id id row ≡ false
  has_id-other (pos m) row differ own = elim (Bool-cases (row.id == m)) [
    | inl same ↦ absurd (differ (ap pos (let e : m ≡ n = ground arith in e)))
    | inr apart ↦ apart
  ]
  has_id-other (negsuc m) row differ own = refl

  revoke_key-IsLive :
      (now : ℕ) (id : ℤ) (rows : List KeyRow)
      → id ≢ pos n
      → IsLive h n rows
      → IsLive h n (revoke_key now id rows)
  unfolding revoke_key
  revoke_key-IsLive now id [] differ live = absurd live
  revoke_key-IsLive now id (row ∷ rows) differ live = elim (Bool-cases (str_eq row.key_hash h)) [
    | inl this ↦
        let own : (row.id ≡ n) × (row.revoked_at ≡ none) = rw this at live in
        rw (has_id-other id row differ own.0) (rw this own)
    | inr other ↦ elim (Bool-cases (is_revocable id row)) [
      | inl hit ↦ rw hit (rw other (revoke_key-IsLive now id rows differ (rw other at live)))
      | inr spared ↦ rw spared (rw other (revoke_key-IsLive now id rows differ (rw other at live)))
    ]
  ]

  pub Change-IsLive :
      {max : ℤ} {C : ℤ → Type 0} {S : ℕ → Type 0} {R : ℤ → Type 0} (db db' : Db)
      → ((id : ℤ) → R id → id ≢ pos n)
      → Change max C S R db db'
      → IsLive h n db.keys
      → IsLive h n db'.keys
  Change-IsLive db db' spares (none_made e) live = rw e live
  Change-IsLive db db' spares (key_inserted x label now room e) live =
      rw (insert_key-eq-some x label now db db' e).1
        (append-IsLive db.keys (new_key x label now db ∷ []) live)
  Change-IsLive db db' spares (key_stamped id now e) live =
      rw e (stamp_key-IsLive now id db.keys live)
  Change-IsLive db db' spares (key_revoked id now cut e) live =
      rw e (revoke_key-IsLive now id db.keys (spares id cut) live)
  Change-IsLive db db' spares (tokens_bound k p t now seen e) live = rw e (rw bound-keys live)
  Change-IsLive db db' spares (tokens_swept cutoff c e) live = rw e live

  fresh_row-IsLive :
      (rows : List KeyRow) (row : KeyRow)
      → key_by_hash h rows ≡ none
      → row.key_hash ≡ h
      → row.id ≡ n
      → row.revoked_at ≡ none
      → IsLive h n (rows ++ row ∷ [])
  unfolding key_by_hash
  fresh_row-IsLive [] row e own id valid = rw (own, str_eq_refl h) (id, valid)
  fresh_row-IsLive (r ∷ rows) row e own id valid = elim (Bool-cases (str_eq r.key_hash h)) [
    | inl taken ↦ absurd (let q = rw taken at e in cc)
    | inr other ↦ rw other (fresh_row-IsLive rows row (rw other at e) own id valid)
  ]

-- a call that revokes another key, or none
abbrev pub Spares : ℕ → Call → Type 0
Spares n (revokes id now) = id ≢ pos n
Spares n _ = Unit

-- `r` is key `n`, or the database's refusal
abbrev pub IsKeyOrFault : ℕ → Result Key → Type 0
IsKeyOrFault n r = ((k : Key) × (r ≡ ok k) × (k.id ≡ n)) ⊎ (r ≡ err sql_error)

module _ (hash_key : Str → Str) (max retention : ℤ) (n : ℕ) where
  spared : (c : Call) (id : ℤ) → Spares n c → Cuts hash_key max retention c id → id ≢ pos n
  spared (revokes i now) id other e = rw e other
  spared (issues raw label now) id other e = absurd e
  spared (verifies plain now) id other e = absurd e
  spared lists id other e = absurd e
  spared (binds k p t now r) id other e = absurd e

  stamp_used-id :
      (k : Key) (used : ℕ) (r : Result (Unit {0}) × Store)
      → k.id ≡ n
      → IsKeyOrFault n (stamp_used k used r).0
  stamp_used-id k used (ok _, s) e = inl (record k { last_used_at = some used }, refl, e)
  stamp_used-id k used (err x, s) e = inl (k, refl, e)

  check_revoked-live :
      (o : Option ℕ) (k : Key) (used : ℕ) (s : Store)
      → o ≡ none
      → k.id ≡ n
      → IsKeyOrFault n (check_revoked o k used s).0
  check_revoked-live (some at) k used s e id = absurd (cc)
  check_revoked-live none k used s e id =
      stamp_used-id k used (exec (λ db. some (record db { keys = stamp_key used k.id db.keys })) s)
        id

  pub verify-IsLive :
      (plain : Str) (later : ℕ) (s : Store)
      → IsLive (hash_key plain) n s.db.keys
      → IsKeyOrFault n (verify hash_key plain later s).0
  unfolding verify scan_key
  verify-IsLive plain later s live =
      let (row, found, id, valid) = key_by_hash-IsLive (hash_key plain) n s.db.keys live in
      statement_cases (λ x. IsKeyOrFault n (bind_result (λ row. check_row row (unix later)) x).0)
        (λ s'. (ok (key_by_hash (hash_key plain) s'.db.keys), s')) s
        (λ f. rw found (
          check_revoked-live row.revoked_at (scan_key row) (unix later) (record s { faults = f })
            valid id))
        (λ f. inr refl)

pub issue-IsLive :
    (hash_key : Str → Str) (raw : Option (List ℕ)) (label plain : Str) (max : ℤ) (now : ℕ)
    (s s' : Store)
    → issue hash_key raw label max now s ≡ (ok plain, s')
    → IsLive (hash_key plain) (suc s.db.key_seq) s'.db.keys
issue-IsLive hash_key raw label plain max now s s' issued =
    let n = suc s.db.key_seq in
    let (unknown, stored) = issue-row hash_key raw label plain max now s s' issued in
    rw stored (
      fresh_row-IsLive (hash_key plain) n s.db.keys (new_key (hash_key plain) label (unix now) s.db)
        unknown refl refl refl)

-- Once `Issue` has returned a key, `Verify` gives that key's record, or an error of the database, but
-- never that it is unknown or revoked: through any calls in between, failed ones among them, that do
-- not revoke it.
pub verify-run :
    (hash_key : Str → Str) (max retention : ℤ) (raw : Option (List ℕ)) (label plain : Str)
    (now later : ℕ) (s s' : Store) (calls : List Call)
    → issue hash_key raw label max now s ≡ (ok plain, s')
    → All (Spares (suc s.db.key_seq)) calls
    → IsKeyOrFault
        (suc s.db.key_seq)
        (verify hash_key plain later (run hash_key max retention s' calls)).0
verify-run hash_key max retention raw label plain now later s s' calls issued others =
    let n = suc s.db.key_seq in
    let start = issue-IsLive hash_key raw label plain max now s s' issued in
    verify-IsLive hash_key max retention n plain later (run hash_key max retention s' calls) (
      run_induction hash_key max retention (λ db. IsLive (hash_key plain) n db.keys) (Spares n)
        (λ c db db' w ch.
          Change-IsLive (hash_key plain) n db db'
            (λ id cut. spared hash_key max retention n c id w cut) ch)
        s' calls others start)
