-- ===== src/Keys/Run.antt =====
-- Histories of calls on the store of internal/keys/keys.go. The connection is shared, so the calls
-- come one after another; each may fail at any statement.
use slim_m_relay.Prelude.{ℕ, map, ◌++◌, ◌≡◌, refl, true, Option, none, some, List, [], ◌∷◌, All}
use slim_m_relay.Prelude.Int.{ℤ, pos, ltb_ℤ}
use slim_m_relay.Text.{Str}
use slim_m_relay.Keys.Tables.{Db, order_desc}
use slim_m_relay.Keys.Sql.{Result, ok, err, Store, pure, statement_cases, bind_result}
use slim_m_relay.Keys.Secret.{plaintext}
use slim_m_relay.Keys.Store.{
  Readings, unix, issue, issue_plain, verify, scan_key, revoke, list_keys, bind_in_transaction,
  prune_after, bind_token,
}
use slim_m_relay.Keys.Atomic.{Ends, issue_plain-Ends, IsBound, bind_in_transaction-Ends}
use slim_m_relay.Keys.Changes.{
  Change, none_made, tokens_bound, cutoff_at, issue-Change, verify-Change, revoke-Change,
  maybe_prune-Change,
}

pub data Call : Type 0 where
  issues : Option (List ℕ) → Str → ℕ → Call
  verifies : Str → ℕ → Call
  revokes : ℤ → ℕ → Call
  lists : Call
  binds : ℕ → Str → Str → ℕ → Readings → Call

module _ (hash_key : Str → Str) (max retention : ℤ) where
  unfoldable pub step : Store → Call → Store
  unfolding issue verify revoke list_keys bind_token
  step s (issues raw label now) = (issue hash_key raw label max now s).1
  step s (verifies plain now) = (verify hash_key plain now s).1
  step s (revokes id now) = (revoke id now s).1
  step s lists = (list_keys s).1
  step s (binds key_id platform token now t) =
      (bind_token key_id platform token retention now t s).1

  unfoldable pub run : Store → List Call → Store
  unfolding step
  run s [] = s
  run s (c ∷ calls) = run (step s c) calls

  -- the cutoffs that a call may sweep by
  abbrev pub Sweeps : Call → ℤ → Type 0
  Sweeps (binds key_id platform token now t) cutoff =
      (cutoff ≡ cutoff_at retention t.cutoff) × (ltb_ℤ (pos 0) retention ≡ true)
  Sweeps _ cutoff = ⊥

  -- the Unix times at which it binds or touches a token
  abbrev pub Touches : Call → ℕ → Type 0
  Touches (binds key_id platform token now t) seen = seen ≡ unix now
  Touches _ seen = ⊥

  -- the ids that it may revoke
  abbrev pub Cuts : Call → ℤ → Type 0
  Cuts (revokes id now) i = i ≡ id
  Cuts _ i = ⊥

  bind-Changes :
      (key_id : ℕ) (platform token : Str) (now : ℕ) (t : Readings) (s : Store)
      (r : Result ℕ × Store)
      → Ends s.db (IsBound key_id platform token (unix now) s) r
      → (mid : Db) × Change max
          (Sweeps (binds key_id platform token now t))
          (Touches (binds key_id platform token now t))
          (Cuts (binds key_id platform token now t))
          s.db
          mid
        × Change max
            (Sweeps (binds key_id platform token now t))
            (Touches (binds key_id platform token now t))
            (Cuts (binds key_id platform token now t))
            mid
            (prune_after retention t r).1.db
  bind-Changes key_id platform token now t s (ok owner, s') h = (
    s'.db,
    tokens_bound key_id platform token (unix now) refl h.1,
    maybe_prune-Change hash_key max retention (Touches (binds key_id platform token now t))
        (Cuts (binds key_id platform token now t)) t s',
  )
  bind-Changes key_id platform token now t s (err e, s') h = (s.db, none_made refl, none_made h)

  pub list_keys-db : (s : Store) → (list_keys s).1.db ≡ s.db
  unfolding list_keys
  list_keys-db s =
      statement_cases (λ x. (bind_result (λ rows. pure (map scan_key rows)) x).1.db ≡ s.db)
        (λ t. (ok (order_desc t.db.keys), t)) s (λ f. refl) (λ f. refl)

  -- Every call, whatever fails in it, is at most two changes of the tables.
  pub step-Change :
      (s : Store) (c : Call)
      → (mid : Db) × Change max (Sweeps c) (Touches c) (Cuts c) s.db mid
        × Change max (Sweeps c) (Touches c) (Cuts c) mid (step s c).db
  unfolding step issue bind_token
  step-Change s (issues none label now) = (s.db, none_made refl, none_made refl)
  step-Change s (issues (some raw) label now) = (
    s.db,
    none_made refl,
    issue-Change hash_key max retention _ _ _ (plaintext raw) label now s
        (issue_plain hash_key (plaintext raw) label max now s)
        (issue_plain-Ends hash_key (plaintext raw) label max now s),
  )
  step-Change s (verifies plain now) =
      (s.db, none_made refl, verify-Change hash_key max retention _ _ _ plain now s)
  step-Change s (revokes id now) =
      (s.db, none_made refl, revoke-Change hash_key max retention _ _ id now s)
  step-Change s lists = (s.db, none_made refl, none_made (list_keys-db s))
  step-Change s (binds key_id platform token now t) =
      bind-Changes key_id platform token now t s
        (bind_in_transaction key_id platform token (unix now) s)
        (bind_in_transaction-Ends key_id platform token (unix now) s)

  -- Two histories, one after the other.
  pub run-append :
      (s : Store) (calls more : List Call) → run s (calls ++ more) ≡ run (run s calls) more
  unfolding run
  run-append s [] more = refl
  run-append s (c ∷ calls) more = run-append (step s c) calls more

  -- What every change by the calls that meet `W` keeps, every history of such calls keeps.
  pub run_induction :
      (P : Db → Type 0) (W : Call → Type 0)
      → ((c : Call) (db db' : Db)
          → W c
          → Change max (Sweeps c) (Touches c) (Cuts c) db db'
          → P db
          → P db')
      → (s : Store) (calls : List Call) → All W calls
      → P s.db
      → P (run s calls).db
  unfolding run
  run_induction P W keep s [] w h = h
  run_induction P W keep s (c ∷ calls) w h =
      let (mid, first, second) = step-Change s c in
      run_induction P W keep (step s c) calls w.1
        (keep c mid (step s c).db w.0 second (keep c s.db mid w.0 first h))
