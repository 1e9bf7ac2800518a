-- ===== src/Keys/Ceiling.antt =====
-- The ceiling on the keys of internal/keys/keys.go (RELAY_MAX_REGISTRATIONS).
use slim_m_relay.Prelude.{
  ℕ, suc, ◌<◌, ◌≤◌, ◌≡◌, refl, Option, none, some, List, [], ◌∷◌, length, length-append, All, arith,
}
use slim_m_relay.Prelude.Int.{ℤ, pos}
use slim_m_relay.Text.{Str}
use slim_m_relay.Keys.Tables.{Db, insert_key}
use slim_m_relay.Keys.Sql.{Store}
use slim_m_relay.Keys.Atomic.{bound}
use slim_m_relay.Keys.Changes.{
  Change, none_made, key_inserted, key_stamped, key_revoked, tokens_bound, tokens_swept,
}
use slim_m_relay.Keys.Run.{Call, run, run_induction}
use slim_m_relay.Keys.Rows.{new_key, insert_key-eq-some, length-stamp_key, length-revoke_key}

abbrev pub AnyCall : Call → Type 0
AnyCall c = Unit

pub any_calls : (calls : List Call) → All AnyCall calls
any_calls [] = tt
any_calls (c ∷ calls) = (tt, any_calls calls)

length-insert_key :
    (h label : Str) (now : ℕ) (db db' : Db)
    → insert_key h label now db ≡ some db'
    → length db'.keys ≡ suc (length db.keys)
length-insert_key h label now db db' e =
    rw (insert_key-eq-some h label now db db' e).1
      (omega (arith, length-append db.keys (new_key h label now db ∷ [])))

pub bound-keys :
    (key_id : ℕ) (platform token : Str) (now : ℕ) (db : Db) (o : Option ℕ)
    → (bound key_id platform token now db o).keys ≡ db.keys
bound-keys key_id platform token now db none = refl
bound-keys key_id platform token now db (some owner) = ground arith

pub bound-key_seq :
    (key_id : ℕ) (platform token : Str) (now : ℕ) (db : Db) (o : Option ℕ)
    → (bound key_id platform token now db o).key_seq ≡ db.key_seq
bound-key_seq key_id platform token now db none = refl
bound-key_seq key_id platform token now db (some owner) = ground arith

pub Change-ceiling :
    {C : ℤ → Type 0} {S : ℕ → Type 0} {R : ℤ → Type 0} (n : ℕ) (db db' : Db)
    → 0 < n
    → Change (pos n) C S R db db'
    → length db.keys ≤ n
    → length db'.keys ≤ n
Change-ceiling n db db' p (none_made e) h = rw e h
Change-ceiling n db db' p (key_inserted k label now room e) h =
    let grown : length db'.keys ≡ suc (length db.keys) = length-insert_key k label now db db' e in
    ground arith
Change-ceiling n db db' p (key_stamped id now e) h = rw e (rw (length-stamp_key now id db.keys) h)
Change-ceiling n db db' p (key_revoked id now cut e) h =
    rw e (rw (length-revoke_key now id db.keys) h)
Change-ceiling n db db' p (tokens_bound k platform token now seen e) h = rw e (rw bound-keys h)
Change-ceiling n db db' p (tokens_swept cutoff c e) h = rw e h

-- Under a positive ceiling, from a table within it, no history of calls, failed ones among them, ever
-- has more keys than it.
pub keys-le-ceiling :
    (hash_key : Str → Str) (n : ℕ) (retention : ℤ) (s : Store) (calls : List Call)
    → 0 < n
    → length s.db.keys ≤ n
    → length (run hash_key (pos n) retention s calls).db.keys ≤ n
keys-le-ceiling hash_key n retention s calls p h =
    run_induction hash_key (pos n) retention (λ db. length db.keys ≤ n) AnyCall
      (λ c db db' _ ch. Change-ceiling n db db' p ch) s calls (any_calls calls) h
