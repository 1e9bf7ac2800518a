-- ===== src/Keys/Atomic.antt =====
-- What one call of `Issue` or `BindToken` of internal/keys/keys.go does, whichever statement the
-- database refuses.
use slim_m_relay.Prelude.{
  ℕ, suc, ◌≡◌, refl, Bool, true, false, ◌&&◌, Option, none, some, List, [], ◌∷◌, ◌++◌, length,
  arith, ◌==◌, if◌then◌else◌, Bool-cases, inl, inr, ◌⊎◌,
}
use slim_m_relay.Prelude.Int.{ℤ, pos, ltb_ℤ, leb_ℤ}
use slim_m_relay.Text.{Str}
use slim_m_relay.Keys.Tables.{Db, TokenRow, insert_key, owner_of, insert_token, touch_token}
use slim_m_relay.Keys.Sql.{
  registration_ceiling, Result, ok, err, Store, M, query, exec, written, pure, fail, ◌>>=◌, ◌>>◌,
  rolled_back, transaction, commit, bind_result, statement_cases,
}
use slim_m_relay.Keys.Store.{bind_row, bind_in_transaction, issue_plain, unix, check_ceiling}

-- Of a success, what it returned and the tables and sweep time that it left; the script of faults
-- is no part of it.
abbrev pub Post : Type 0 → Type 1
Post A = A → Db → ℕ → Type 0

abbrev pub Succeeds : {A : Type 0} → Post A → Result A × Store → Type 0
Succeeds P (ok a, s) = P a s.db s.last_prune
Succeeds P (err e, s) = Unit

-- A success meets `P`, and an error has left the tables at `before`.
abbrev pub Ends : {A : Type 0} → Db → Post A → Result A × Store → Type 0
Ends before P (ok a, s) = P a s.db s.last_prune
Ends before P (err e, s) = s.db ≡ before

commit-Ends :
    {A : Type 0} (before : Db) (P : Post A) (r : Result A × Store)
    → Succeeds P r
    → Ends before P (rolled_back before (bind_result (λ a. do commit; pure a) r))
commit-Ends before P (ok a, s) h =
    statement_cases (λ x. Ends before P (rolled_back before (bind_result (λ _. pure a) x)))
      (pure tt) s (λ f. h) (λ f. refl)
commit-Ends before P (err e, s) h = refl

-- A transaction is atomic, whichever of its statements is refused.
pub transaction-Ends :
    {A : Type 0} (P : Post A) (body : M A) (s : Store)
    → ((faults : List Bool) → Succeeds P (body (record s { faults = faults })))
    → Ends s.db P (transaction body s)
transaction-Ends P body s h =
    statement_cases
      (λ x. Ends s.db P (rolled_back s.db (bind_result (λ _. do a ← body; commit; pure a) x)))
      (pure tt) s (λ f. commit-Ends s.db P (body (record s { faults = f })) (h f)) (λ f. refl)

-- the rules for a statement that reads and for one that writes, inside a transaction
pub query-Succeeds :
    {A B : Type 0} (P : Post B) (g : Db → A) (f : A → M B) (s : Store)
    → ((faults : List Bool) → Succeeds P (f (g s.db) (record s { faults = faults })))
    → Succeeds P ((query g >>= f) s)
query-Succeeds P g f s h =
    statement_cases (λ x. Succeeds P (bind_result f x)) (λ s'. (ok (g s'.db), s')) s h (λ _. tt)

pub exec-Succeeds :
    {B : Type 0} (P : Post B) (g : Db → Option Db) (k : M B) (s : Store)
    → ((db : Db) (faults : List Bool)
        → g s.db ≡ some db
        → Succeeds P (k (record s { db = db; faults = faults })))
    → Succeeds P ((exec g >> k) s)
exec-Succeeds P g k s h =
    statement_cases (λ x. Succeeds P (bind_result (λ _. k) x)) (λ s'. written (g s'.db) s') s
      (λ f. go f (g s.db) refl) (λ _. tt)
  where
    go :
        (f : List Bool) (o : Option Db)
        → g s.db ≡ o
        → Succeeds P (bind_result (λ _. k) (written o (record s { faults = f })))
    go f none e = tt
    go f (some db) e = h db f e

-- the owner that `BindToken` returns, and the tokens after it, by the owner before
abbrev pub owner_after : ℕ → Option ℕ → ℕ
owner_after key_id none = key_id
owner_after key_id (some owner) = owner

abbrev pub new_binding : Db → Str → Str → ℕ → ℕ → TokenRow
new_binding db platform token key_id now = record {
  id = suc db.token_seq;
  platform = platform;
  token = token;
  key_id = key_id;
  created_at = now;
  last_seen_at = now;
}

module _ (key_id : ℕ) (platform token : Str) (now : ℕ) where
  -- the tables after `BindToken`'s transaction on `db`
  abbrev pub bound : Db → Option ℕ → Db
  bound db none = record db {
    tokens = db.tokens ++ new_binding db platform token key_id now ∷ [];
    token_seq = suc db.token_seq;
  }
  bound db (some owner) =
      if owner == key_id
      then record db { tokens = touch_token now platform token db.tokens }
      else db

  abbrev pub IsBound : Store → Post ℕ
  IsBound s owner db swept =
      let old = owner_of platform token s.db.tokens in
      (owner ≡ owner_after key_id old) × (db ≡ bound s.db old) × (swept ≡ s.last_prune)

  bind_row-Succeeds :
      (s : Store) (f : List Bool) (old : Option ℕ)
      → owner_of platform token s.db.tokens ≡ old
      → Succeeds (IsBound s) (bind_row key_id platform token now old (record s { faults = f }))
  unfolding insert_token
  bind_row-Succeeds s f none e =
      exec-Succeeds (IsBound s) (insert_token platform token key_id now) (pure key_id)
        (record s { faults = f }) (λ db g h. rw e (ground arith))
  bind_row-Succeeds s f (some owner) e = elim (Bool-cases (owner == key_id)) [
    | inl mine ↦ rw mine (
        exec-Succeeds (IsBound s)
          (λ db. some (record db { tokens = touch_token now platform token db.tokens }))
          (pure owner) (record s { faults = f })
          (λ db g h. rw e (rw mine (refl, ground arith, refl))))
    | inr other ↦ rw other (rw e (rw other (refl, refl, refl)))
  ]

  -- The transaction of `BindToken` is all or nothing: if any of its statements fails, the commit among
  -- them, the tables are as before; else it answers the key that the token had before it, or the
  -- caller's if it had none, and has added the caller's row, stamped it, or changed nothing.
  pub bind_in_transaction-Ends :
      (s : Store) → Ends s.db (IsBound s) (bind_in_transaction key_id platform token now s)
  unfolding bind_in_transaction
  bind_in_transaction-Ends s =
      transaction-Ends (IsBound s)
        (do
          owner ← query (λ db. owner_of platform token db.tokens)
          bind_row key_id platform token now owner)
        s
        (λ f.
          query-Succeeds (IsBound s) (λ db. owner_of platform token db.tokens)
            (bind_row key_id platform token now) (record s { faults = f })
            (λ g. bind_row-Succeeds s g (owner_of platform token s.db.tokens) refl))

module _ (hash_key : Str → Str) (plain label : Str) (max : ℤ) (now : ℕ) where
  -- Of an `Issue` that succeeds: the key that it returns is stored, by its hash, as the newest row.
  abbrev pub IsIssued : Store → Post Str
  IsIssued s key db swept =
      (key ≡ plain)
      × (insert_key (hash_key plain) label (unix now) s.db ≡ some db)
      × ((ltb_ℤ (pos 0) max && leb_ℤ max (pos (length s.db.keys))) ≡ false)
      × (swept ≡ s.last_prune)

  pub issue_plain-Ends :
      (s : Store) → Ends s.db (IsIssued s) (issue_plain hash_key plain label max now s)
  issue_plain-Ends s =
      transaction-Ends (IsIssued s)
        (do check_ceiling max; exec (insert_key (hash_key plain) label (unix now)); pure plain) s
        (λ f. go f (Bool-cases (ltb_ℤ (pos 0) max)))
    where
      store_key : M Str
      store_key = do exec (insert_key (hash_key plain) label (unix now)); pure plain

      after_count : ℕ → M (Unit {0})
      after_count count = if leb_ℤ max (pos count) then fail registration_ceiling else pure tt

      insert :
          (f : List Bool)
          → (ltb_ℤ (pos 0) max && leb_ℤ max (pos (length s.db.keys))) ≡ false
          → Succeeds (IsIssued s) (store_key (record s { faults = f }))
      insert f room =
          exec-Succeeds (IsIssued s) (insert_key (hash_key plain) label (unix now)) (pure plain)
            (record s { faults = f }) (λ db g h. (refl, h, room, refl))

      counted :
          (f : List Bool)
          → ltb_ℤ (pos 0) max ≡ true
          → (leb_ℤ max (pos (length s.db.keys)) ≡ true)
            ⊎ (leb_ℤ max (pos (length s.db.keys)) ≡ false)
          → Succeeds
              (IsIssued s)
              ((do after_count (length s.db.keys); store_key) (record s { faults = f }))
      counted f on (inl full) = rw full tt
      counted f on (inr room) = rw room (insert f (rw (on, room) refl))

      go :
          (f : List Bool)
          → (ltb_ℤ (pos 0) max ≡ true) ⊎ (ltb_ℤ (pos 0) max ≡ false)
          → Succeeds (IsIssued s) ((do check_ceiling max; store_key) (record s { faults = f }))
      go f (inr off) = rw off (insert f (rw off refl))
      go f (inl on) = rw on (
          statement_cases
            (λ x. Succeeds (IsIssued s) (bind_result (λ _. store_key) (bind_result after_count x)))
            (λ s'. (ok (length s'.db.keys), s')) (record s { faults = f })
            (λ g. counted g on (Bool-cases (leb_ℤ max (pos (length s.db.keys))))) (λ g. tt))
