-- ===== src/Keys/Holding.antt =====
-- The row that says who owns a device token in internal/keys/keys.go, through the statements on it.
use slim_m_relay.Prelude.{
  ℕ, ap, ◌∙◌, ◌≤◌, ◌≡◌, refl, Bool, true, false, Option, none, some, List, [], ◌∷◌, ◌++◌, arith,
  ◌==◌, Bool-cases, inl, inr,
}
use slim_m_relay.Prelude.Int.{ℤ, pos, ltb_ℤ}
use slim_m_relay.Text.{Str, str_eq_refl}
use slim_m_relay.Keys.Tables.{
  Db, TokenRow, is_binding, owner_of, touch_token, delete_stale, is_fresh,
}
use slim_m_relay.Keys.Atomic.{bound, new_binding, owner_after}

abbrev pub Either {ℓ} : Bool → Type ℓ → Type ℓ → Type ℓ
Either true A B = A
Either false A B = B

-- the first row for the token names key `k` and was last seen at `floor` or later
abbrev pub IsHeld : ℕ → Str → Str → ℕ → List TokenRow → Type 0
IsHeld k platform token floor [] = ⊥
IsHeld k platform token floor (row ∷ rows) =
    Either (is_binding platform token row) ((row.key_id ≡ k) × (floor ≤ row.last_seen_at))
      (IsHeld k platform token floor rows)

module _ (k : ℕ) (platform token : Str) (floor : ℕ) where
  pub owner_of-IsHeld :
      (rows : List TokenRow)
      → IsHeld k platform token floor rows
      → owner_of platform token rows ≡ some k
  unfolding owner_of
  owner_of-IsHeld [] h = absurd h
  owner_of-IsHeld (row ∷ rows) h = elim (Bool-cases (is_binding platform token row)) [
    | inl this ↦ let (own, _) = rw this at h in rw this (ap some own)
    | inr other ↦ rw other (owner_of-IsHeld rows (rw other at h))
  ]

  pub append-IsHeld :
      (rows new : List TokenRow)
      → IsHeld k platform token floor rows
      → IsHeld k platform token floor (rows ++ new)
  append-IsHeld [] new h = absurd h
  append-IsHeld (row ∷ rows) new h = elim (Bool-cases (is_binding platform token row)) [
    | inl this ↦ rw this (rw this at h)
    | inr other ↦ rw other (append-IsHeld rows new (rw other at h))
  ]

  pub touch_token-IsHeld :
      (now : ℕ) (p t : Str) (rows : List TokenRow)
      → floor ≤ now
      → IsHeld k platform token floor rows
      → IsHeld k platform token floor (touch_token now p t rows)
  unfolding touch_token
  touch_token-IsHeld now p t [] le h = absurd h
  touch_token-IsHeld now p t (row ∷ rows) le h = elim (Bool-cases (is_binding p t row)) [
    | inl touched ↦ rw touched (elim (Bool-cases (is_binding platform token row)) [
      | inl this ↦ let (own, _) = rw this at h in rw this (own, le)
      | inr other ↦ rw other (touch_token-IsHeld now p t rows le (rw other at h))
    ])
    | inr left ↦ rw left (elim (Bool-cases (is_binding platform token row)) [
      | inl this ↦ rw this (rw this at h)
      | inr other ↦ rw other (touch_token-IsHeld now p t rows le (rw other at h))
    ])
  ]

  pub delete_stale-IsHeld :
      (cutoff : ℤ) (rows : List TokenRow)
      → ltb_ℤ (pos floor) cutoff ≡ false
      → IsHeld k platform token floor rows
      → IsHeld k platform token floor (delete_stale cutoff rows)
  unfolding delete_stale
  delete_stale-IsHeld cutoff [] le h = absurd h
  delete_stale-IsHeld cutoff (row ∷ rows) le h = elim (Bool-cases (is_binding platform token row)) [
    | inl this ↦
        let (own, seen) = rw this at h in
        let fresh : is_fresh cutoff row ≡ true = ground arith in rw fresh (rw this (own, seen))
    | inr other ↦ elim (Bool-cases (is_fresh cutoff row)) [
      | inl fresh ↦ rw fresh (rw other (delete_stale-IsHeld cutoff rows le (rw other at h)))
      | inr stale ↦ rw stale (delete_stale-IsHeld cutoff rows le (rw other at h))
    ]
  ]

  pub bound-IsHeld :
      (j now : ℕ) (p t : Str) (db : Db) (o : Option ℕ)
      → floor ≤ now
      → IsHeld k platform token floor db.tokens
      → IsHeld k platform token floor (bound j p t now db o).tokens
  bound-IsHeld j now p t db none le h = append-IsHeld db.tokens (new_binding db p t j now ∷ []) h
  bound-IsHeld j now p t db (some owner) le h = elim (Bool-cases (owner == j)) [
    | inl own ↦ rw own (touch_token-IsHeld now p t db.tokens le h)
    | inr other ↦ rw other h
  ]

  pub fresh_binding-IsHeld :
      (row : TokenRow) (rows : List TokenRow)
      → is_binding platform token row ≡ true
      → row.key_id ≡ k
      → floor ≤ row.last_seen_at
      → owner_of platform token rows ≡ none
      → IsHeld k platform token floor (rows ++ row ∷ [])
  unfolding owner_of
  fresh_binding-IsHeld row [] this own seen e = rw this (own, seen)
  fresh_binding-IsHeld row (r ∷ rows) this own seen e =
      elim (Bool-cases (is_binding platform token r)) [
        | inl taken ↦ absurd (let no_row = rw taken at e in ground arith)
        | inr other ↦ rw other (fresh_binding-IsHeld row rows this own seen (rw other at e))
      ]

  pub touched-IsHeld :
      (rows : List TokenRow)
      → owner_of platform token rows ≡ some k
      → IsHeld k platform token floor (touch_token floor platform token rows)
  unfolding owner_of touch_token
  touched-IsHeld [] e = ground arith
  touched-IsHeld (row ∷ rows) e = elim (Bool-cases (is_binding platform token row)) [
    | inl this ↦ let own : row.key_id ≡ k = ground arith in rw this (rw this (own, omega arith))
    | inr other ↦ rw other (rw other (touched-IsHeld rows (rw other at e)))
  ]

  -- After the owner's own call the token is held, seen at that call's time.
  pub bind-IsHeld :
      (db : Db) (old : Option ℕ)
      → owner_of platform token db.tokens ≡ old
      → owner_after k old ≡ k
      → IsHeld k platform token floor (bound k platform token floor db old).tokens
  bind-IsHeld db none e own =
      fresh_binding-IsHeld (new_binding db platform token k floor) db.tokens
        (rw (str_eq_refl platform, str_eq_refl token)) refl (omega arith) e
  bind-IsHeld db (some owner) e own =
      rw (let same : (owner == k) ≡ true = ground arith in same)
        (touched-IsHeld db.tokens (e ∙ ap some own))
