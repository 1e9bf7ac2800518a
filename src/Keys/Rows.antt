-- ===== src/Keys/Rows.antt =====
-- What the changes of the tables of internal/keys/keys.go do to properties of their rows.
use slim_m_relay.Prelude.{
  ℕ, suc, ◌≡◌, refl, ap, true, none, some, List, [], ◌∷◌, ◌++◌, length, All, arith, ◌==◌,
  Bool-cases, inl, inr, subst, Option-cases,
}
use slim_m_relay.Prelude.Int.{ℤ, pos}
use slim_m_relay.Text.{Str, str_eq}
use slim_m_relay.Keys.Tables.{
  KeyRow, Db, key_by_hash, insert_key, stamp_key, revoke_key, is_revoked, is_revocable,
}

abbrev pub new_key : Str → Str → ℕ → Db → KeyRow
new_key h label now db = record {
  id = suc db.key_seq;
  key_hash = h;
  label = label;
  created_at = now;
  last_used_at = none;
  revoked_at = none;
}

abbrev pub add_key : KeyRow → Db → Db
add_key row db = record db { keys = db.keys ++ row ∷ []; key_seq = suc db.key_seq }

pub insert_key-eq-some :
    (h label : Str) (now : ℕ) (db db' : Db)
    → insert_key h label now db ≡ some db'
    → (key_by_hash h db.keys ≡ none) × (db' ≡ add_key (new_key h label now db) db)
unfolding insert_key
insert_key-eq-some h label now db db' e = ground (arith, Option-cases (key_by_hash h db.keys))

pub length-stamp_key :
    (now id : ℕ) (rows : List KeyRow) → length (stamp_key now id rows) ≡ length rows
unfolding stamp_key
length-stamp_key now id [] = refl
length-stamp_key now id (row ∷ rows) = ap suc (length-stamp_key now id rows)

pub length-revoke_key :
    (now : ℕ) (id : ℤ) (rows : List KeyRow) → length (revoke_key now id rows) ≡ length rows
unfolding revoke_key
length-revoke_key now id [] = refl
length-revoke_key now id (row ∷ rows) = ap suc (length-revoke_key now id rows)

module _ (P : KeyRow → Type 0) where
  pub All-stamp_key :
      (now id : ℕ)
      → ((row : KeyRow) → P row → P (record row { last_used_at = some now }))
      → (rows : List KeyRow) → All P rows
      → All P (stamp_key now id rows)
  unfolding stamp_key
  All-stamp_key now id f [] h = tt
  All-stamp_key now id f (row ∷ rows) h = elim (Bool-cases (row.id == id)) [
    | inl same ↦ (rw same (f row h.0), All-stamp_key now id f rows h.1)
    | inr other ↦ (rw other h.0, All-stamp_key now id f rows h.1)
  ]

  pub All-revoke_key :
      (now : ℕ) (id : ℤ)
      → ((row : KeyRow) → P row → P (record row { revoked_at = some now }))
      → (rows : List KeyRow) → All P rows
      → All P (revoke_key now id rows)
  unfolding revoke_key
  All-revoke_key now id f [] h = tt
  All-revoke_key now id f (row ∷ rows) h = elim (Bool-cases (is_revocable id row)) [
    | inl same ↦ (rw same (f row h.0), All-revoke_key now id f rows h.1)
    | inr other ↦ (rw other h.0, All-revoke_key now id f rows h.1)
  ]

  pub All-key_by_hash :
      (h : Str) (rows : List KeyRow) (row : KeyRow)
      → All P rows
      → key_by_hash h rows ≡ some row
      → P row
  unfolding key_by_hash
  All-key_by_hash h [] row a e = cc
  All-key_by_hash h (r ∷ rows) row a e = elim (Bool-cases (str_eq r.key_hash h)) [
    | inl same ↦ let found : r ≡ row = ground arith in subst P found a.0
    | inr other ↦ All-key_by_hash h rows row a.1 (rw other at e)
  ]

-- After a revocation every row with that id is revoked.
abbrev pub IsRevoked : ℕ → KeyRow → Type 0
IsRevoked n row = row.id ≡ n → is_revoked row ≡ true

pub revoke_key-IsRevoked :
    (now n : ℕ) (rows : List KeyRow) → All (IsRevoked n) (revoke_key now (pos n) rows)
unfolding revoke_key
revoke_key-IsRevoked now n [] = tt
revoke_key-IsRevoked now n (row ∷ rows) = (λ e. ground arith, revoke_key-IsRevoked now n rows)
