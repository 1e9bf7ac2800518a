-- ===== src/Keys/Sound.antt =====
-- The constraints of the two tables of internal/keys/keys.go, through every operation: AUTOINCREMENT
-- ids, and UNIQUE(platform, token).
use slim_m_relay.Prelude.{
  ℕ, suc, ◌<◌, ◌≤◌, ◌≡◌, refl, false, Option, none, some, List, [], ◌∷◌, ◌++◌, arith, ◌==◌,
  Bool-cases, inl, inr,
}
use slim_m_relay.Prelude.Int.{ℤ}
use slim_m_relay.Text.{Str, str_eq_comm}
use slim_m_relay.Keys.Tables.{
  Db, KeyRow, TokenRow, stamp_key, revoke_key, is_revocable, is_binding, owner_of, touch_token,
  delete_stale, is_fresh,
}
use slim_m_relay.Keys.Sql.{Store}
use slim_m_relay.Keys.Atomic.{bound, new_binding}
use slim_m_relay.Keys.Changes.{
  Change, none_made, key_inserted, key_stamped, key_revoked, tokens_bound, tokens_swept,
}
use slim_m_relay.Keys.Run.{Call, run, run_induction}
use slim_m_relay.Keys.Rows.{insert_key-eq-some, new_key}
use slim_m_relay.Keys.Ceiling.{AnyCall, any_calls, bound-keys, bound-key_seq}

-- the ids go up, from above `low` to at most `high`
abbrev pub Ascends : ℕ → List KeyRow → ℕ → Type 0
Ascends low [] high = low ≤ high
Ascends low (row ∷ rows) high = (low < row.id) × Ascends row.id rows high

-- no two rows are for one token of one platform
abbrev pub OneEach : List TokenRow → Type 0
OneEach [] = Unit
OneEach (row ∷ rows) = (owner_of row.platform row.token rows ≡ none) × OneEach rows

pub record IsSound (db : Db) : Type 0 where
  pub ids : Ascends 0 db.keys db.key_seq
  pub tokens : OneEach db.tokens

Ascends-append :
    (low high : ℕ) (rows : List KeyRow) (row : KeyRow)
    → row.id ≡ suc high
    → Ascends low rows high
    → Ascends low (rows ++ row ∷ []) (suc high)
Ascends-append low high [] row e h = (omega arith, omega arith)
Ascends-append low high (r ∷ rows) row e h = (h.0, Ascends-append r.id high rows row e h.1)

Ascends-stamp_key :
    (low high now id : ℕ) (rows : List KeyRow)
    → Ascends low rows high
    → Ascends low (stamp_key now id rows) high
unfolding stamp_key
Ascends-stamp_key low high now id [] h = h
Ascends-stamp_key low high now id (row ∷ rows) h = elim (Bool-cases (row.id == id)) [
  | inl same ↦ rw same (h.0, Ascends-stamp_key row.id high now id rows h.1)
  | inr other ↦ rw other (h.0, Ascends-stamp_key row.id high now id rows h.1)
]

Ascends-revoke_key :
    (low high now : ℕ) (id : ℤ) (rows : List KeyRow)
    → Ascends low rows high
    → Ascends low (revoke_key now id rows) high
unfolding revoke_key
Ascends-revoke_key low high now id [] h = h
Ascends-revoke_key low high now id (row ∷ rows) h = elim (Bool-cases (is_revocable id row)) [
  | inl same ↦ rw same (h.0, Ascends-revoke_key row.id high now id rows h.1)
  | inr other ↦ rw other (h.0, Ascends-revoke_key row.id high now id rows h.1)
]

owner_of-append :
    (p t : Str) (rows : List TokenRow) (row : TokenRow)
    → is_binding p t row ≡ false
    → owner_of p t rows ≡ none
    → owner_of p t (rows ++ row ∷ []) ≡ none
unfolding owner_of
owner_of-append p t [] row other e = rw other refl
owner_of-append p t (r ∷ rows) row other e = elim (Bool-cases (is_binding p t r)) [
  | inl this ↦ absurd (let q = rw this at e in cc)
  | inr apart ↦ rw apart (owner_of-append p t rows row other (rw apart at e))
]

is_binding_comm :
    (row r : TokenRow) → is_binding row.platform row.token r ≡ is_binding r.platform r.token row
is_binding_comm row r = rw (str_eq_comm r.platform row.platform, str_eq_comm r.token row.token) refl

OneEach-append :
    (rows : List TokenRow) (row : TokenRow)
    → owner_of row.platform row.token rows ≡ none
    → OneEach rows
    → OneEach (rows ++ row ∷ [])
unfolding owner_of
OneEach-append [] row e h = (refl, tt)
OneEach-append (r ∷ rows) row e h = elim (Bool-cases (is_binding row.platform row.token r)) [
  | inl taken ↦ absurd (let q = rw taken at e in cc)
  | inr apart ↦ (
    owner_of-append r.platform r.token rows row (rw is_binding_comm apart) h.0,
    OneEach-append rows row (rw apart at e) h.1,
  )
]

owner_of-touch_token :
    (p t p' t' : Str) (now : ℕ) (rows : List TokenRow)
    → owner_of p t (touch_token now p' t' rows) ≡ owner_of p t rows
unfolding owner_of touch_token
owner_of-touch_token p t p' t' now [] = refl
owner_of-touch_token p t p' t' now (row ∷ rows) = elim (Bool-cases (is_binding p' t' row)) [
  | inl touched ↦ rw (touched, owner_of-touch_token p t p' t' now rows) refl
  | inr left ↦ rw (left, owner_of-touch_token p t p' t' now rows) refl
]

OneEach-touch_token :
    (now : ℕ) (p t : Str) (rows : List TokenRow) → OneEach rows → OneEach (touch_token now p t rows)
unfolding touch_token
OneEach-touch_token now p t [] h = tt
OneEach-touch_token now p t (row ∷ rows) h = elim (Bool-cases (is_binding p t row)) [
  | inl touched ↦ rw touched (
    rw (owner_of-touch_token row.platform row.token p t now rows) h.0,
    OneEach-touch_token now p t rows h.1,
  )
  | inr left ↦ rw left (
    rw (owner_of-touch_token row.platform row.token p t now rows) h.0,
    OneEach-touch_token now p t rows h.1,
  )
]

owner_of-delete_stale :
    (p t : Str) (cutoff : ℤ) (rows : List TokenRow)
    → owner_of p t rows ≡ none
    → owner_of p t (delete_stale cutoff rows) ≡ none
unfolding owner_of delete_stale
owner_of-delete_stale p t cutoff [] e = refl
owner_of-delete_stale p t cutoff (row ∷ rows) e = elim (Bool-cases (is_binding p t row)) [
  | inl this ↦ absurd (let q = rw this at e in cc)
  | inr apart ↦ elim (Bool-cases (is_fresh cutoff row)) [
    | inl fresh ↦ rw fresh (rw apart (owner_of-delete_stale p t cutoff rows (rw apart at e)))
    | inr stale ↦ rw stale (owner_of-delete_stale p t cutoff rows (rw apart at e))
  ]
]

OneEach-delete_stale :
    (cutoff : ℤ) (rows : List TokenRow) → OneEach rows → OneEach (delete_stale cutoff rows)
unfolding delete_stale
OneEach-delete_stale cutoff [] h = tt
OneEach-delete_stale cutoff (row ∷ rows) h = elim (Bool-cases (is_fresh cutoff row)) [
  | inl fresh ↦ rw fresh (
    owner_of-delete_stale row.platform row.token cutoff rows h.0,
    OneEach-delete_stale cutoff rows h.1,
  )
  | inr stale ↦ rw stale (OneEach-delete_stale cutoff rows h.1)
]

bound-OneEach :
    (k : ℕ) (p t : Str) (now : ℕ) (db : Db) (o : Option ℕ)
    → owner_of p t db.tokens ≡ o
    → OneEach db.tokens
    → OneEach (bound k p t now db o).tokens
bound-OneEach k p t now db none e h = OneEach-append db.tokens (new_binding db p t k now) e h
bound-OneEach k p t now db (some owner) e h = elim (Bool-cases (owner == k)) [
  | inl own ↦ rw own (OneEach-touch_token now p t db.tokens h)
  | inr other ↦ rw other h
]

pub Change-IsSound :
    {max : ℤ} {C : ℤ → Type 0} {S : ℕ → Type 0} {R : ℤ → Type 0} (db db' : Db)
    → Change max C S R db db'
    → IsSound db
    → IsSound db'
Change-IsSound db db' (none_made e) h = rw e h
Change-IsSound db db' (key_inserted x label now room e) h =
    rw (insert_key-eq-some x label now db db' e).1 (record {
      ids = Ascends-append 0 db.key_seq db.keys (new_key x label now db) refl h.ids;
      tokens = h.tokens;
    })
Change-IsSound db db' (key_stamped id now e) h =
    rw e (record { ids = Ascends-stamp_key 0 db.key_seq now id db.keys h.ids; tokens = h.tokens })
Change-IsSound db db' (key_revoked id now cut e) h =
    rw e (record { ids = Ascends-revoke_key 0 db.key_seq now id db.keys h.ids; tokens = h.tokens })
Change-IsSound db db' (tokens_bound k p t now seen e) h = rw e (record {
  ids = rw (bound-keys, bound-key_seq) h.ids;
  tokens = bound-OneEach k p t now db (owner_of p t db.tokens) refl h.tokens;
})
Change-IsSound db db' (tokens_swept cutoff c e) h =
    rw e (record { ids = h.ids; tokens = OneEach-delete_stale cutoff db.tokens h.tokens })

-- In every history of calls, failed ones among them, the ids of the keys stay distinct, in the order
-- of their issue and within those given out, and no device token has two rows.
pub run-IsSound :
    (hash_key : Str → Str) (max retention : ℤ) (s : Store) (calls : List Call)
    → IsSound s.db
    → IsSound (run hash_key max retention s calls).db
run-IsSound hash_key max retention s calls h =
    run_induction hash_key max retention IsSound AnyCall (λ c db db' _ ch. Change-IsSound db db' ch)
      s calls (any_calls calls) h
