-- ===== src/Api/Threads/Effects.antt =====
-- What each act of a thread of internal/api does to the tables: one change of internal/keys.
use slim_m_relay.Prelude.{ℕ, ◌-◌, ◌≡◌, refl, Bool, true, false, none, some, leb, if◌then◌else◌}
use slim_m_relay.Prelude.Int.{ℤ}
use slim_m_relay.Text.{Str}
use slim_m_relay.Keys.Tables.{Db, key_by_hash, stamp_key, delete_stale}
use slim_m_relay.Keys.Sql.{Result, ok, err, Store, written, statement_cases}
use slim_m_relay.Keys.Secret.{plaintext}
use slim_m_relay.Keys.Store.{unix, issue, issue_plain, prune_interval, bind_in_transaction}
use slim_m_relay.Keys.Atomic.{Ends, issue_plain-Ends, IsBound, bind_in_transaction-Ends}
use slim_m_relay.Keys.Changes.{
  Change, none_made, key_stamped, tokens_bound, tokens_swept, issue-Change, revoke-Change,
}
use slim_m_relay.Keys.Run.{list_keys-db}
use slim_m_relay.Api.Server.{Wiring, Server}
use slim_m_relay.Api.Send.{retention_of}
use slim_m_relay.Api.Threads.{
  Act, allow_register, allow_send, allow_call, return_call, find_key, stamp, issue_key, list_all,
  revoke_id, bind, prune_due, sweep_tokens, perform, test_and_mark,
}

-- the cutoff that an act sweeps by, and the Unix time at which it binds or touches a token
abbrev pub SweepsBy : Act → ℤ → Type 0
SweepsBy (sweep_tokens cutoff) c = c ≡ cutoff
SweepsBy _ c = ⊥

abbrev pub TouchesAt : Act → ℕ → Type 0
TouchesAt (bind key_id platform token now) seen = seen ≡ unix now
TouchesAt _ seen = ⊥

-- the id that it revokes
abbrev pub CutsOff : Act → ℤ → Type 0
CutsOff (revoke_id id now) i = i ≡ id
CutsOff _ i = ⊥

test_and_mark-db : (since mark : ℕ) (s : Store) → (test_and_mark since mark s).1.db ≡ s.db
test_and_mark-db since mark s = go (leb prune_interval (since - s.last_prune))
  where
    go :
        (due : Bool)
        → (let r : Bool × Store =
              if due then (true, record s { last_prune = mark }) else (false, s) in
            r.1.db)
          ≡ s.db
    go true = refl
    go false = refl

module _ (hash_key : Str → Str) (w : Wiring) where
  pub bound-Change :
      (C : ℤ → Type 0) (R : ℤ → Type 0) (key_id : ℕ) (platform token : Str) (now : ℕ) (s : Store)
      (r : Result ℕ × Store)
      → Ends s.db (IsBound key_id platform token (unix now) s) r
      → Change w.config.max_registrations C (λ seen. seen ≡ unix now) R s.db r.1.db
  bound-Change C R key_id platform token now s (ok owner, s') h =
      tokens_bound key_id platform token (unix now) refl h.1
  bound-Change C R key_id platform token now s (err e, s') h = none_made h

  abbrev pub Effect : Act → Db → Db → Type 0
  Effect a db db' = Change w.config.max_registrations (SweepsBy a) (TouchesAt a) (CutsOff a) db db'

  -- Every act, refused or not, is one change of the tables.
  pub perform-Change :
      (a : Act) (s : Server) → Effect a s.store.db (perform hash_key w a s).0.store.db
  unfolding perform issue
  perform-Change (allow_register key now) s = none_made refl
  perform-Change (allow_send key_id now) s = none_made refl
  perform-Change (allow_call key_id now) s = none_made refl
  perform-Change (return_call key_id) s = none_made refl
  perform-Change (find_key hash) s =
      statement_cases (λ x. Effect (find_key hash) s.store.db x.1.db)
        (λ s'. (ok (key_by_hash hash s'.db.keys), s')) s.store (λ f. none_made refl)
        (λ f. none_made refl)
  perform-Change (stamp id now) s =
      statement_cases (λ x. Effect (stamp id now) s.store.db x.1.db)
        (λ s'. written (some (record s'.db { keys = stamp_key now id s'.db.keys })) s') s.store
        (λ f. key_stamped id now refl) (λ f. none_made refl)
  perform-Change (issue_key none label now) s = none_made refl
  perform-Change (issue_key (some raw) label now) s =
      issue-Change hash_key w.config.max_registrations (retention_of w.config) _ _ _ (plaintext raw)
        label now s.store
        (issue_plain hash_key (plaintext raw) label w.config.max_registrations now s.store)
        (issue_plain-Ends hash_key (plaintext raw) label w.config.max_registrations now s.store)
  perform-Change list_all s =
      none_made (list_keys-db hash_key w.config.max_registrations (retention_of w.config) s.store)
  perform-Change (revoke_id id now) s =
      revoke-Change hash_key w.config.max_registrations (retention_of w.config) _ _ id now s.store
  perform-Change (bind key_id platform token now) s =
      bound-Change _ _ key_id platform token now s.store
        (bind_in_transaction key_id platform token (unix now) s.store)
        (bind_in_transaction-Ends key_id platform token (unix now) s.store)
  perform-Change (prune_due since mark) s = none_made (test_and_mark-db since mark s.store)
  perform-Change (sweep_tokens cutoff) s =
      statement_cases (λ x. Effect (sweep_tokens cutoff) s.store.db x.1.db)
        (λ s'. written (some (record s'.db { tokens = delete_stale cutoff s'.db.tokens })) s')
        s.store (λ f. tokens_swept cutoff refl refl) (λ f. none_made refl)
