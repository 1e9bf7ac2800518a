-- ===== src/Keys/Upgrade.antt =====
-- What `Open` of internal/keys/keys.go makes of the token bindings of an older database.
use slim_m_relay.Prelude.{
  ℕ, ◌+◌, ◌-◌, ◌≤◌, ◌<◌, ◌≡◌, refl, Bool, true, false, Option, none, some, List, [], ◌∷◌, map, leb,
  arith, ap, sym, ◌≢◌, inl, inr, ◌==◌, ==_iff, Bool-cases, some-injective,
}
use slim_m_relay.Text.{Str}
use slim_m_relay.Prelude.Int.{ℤ, pos, pos_part, sub_ℕ, ltb_ℤ, leb_ℤ}
use slim_m_relay.Keys.Tables.{owner_of, KeyRow, TokenRow, Db, delete_stale}
use slim_m_relay.Keys.Sql.{Store, ok}
use slim_m_relay.Keys.Store.{
  bind_token, bind_in_transaction, Readings, unix, unix_ℤ, maybe_prune, prune_interval,
}
use slim_m_relay.Keys.Rows.{insert_key-eq-some}
use slim_m_relay.Keys.Changes.{
  Change, none_made, key_inserted, key_stamped, key_revoked, tokens_bound, tokens_swept, cutoff_at,
  cutoff_at-le, maybe_prune-Change,
}
use slim_m_relay.Keys.Migrate.{
  OldToken, TokenTable, old_table, table, File, Answer, done, duplicate_column, refused, seen_at,
  fill_row, run_statement, create_keys, create_tokens, and_then, add_last_seen_at,
  fill_last_seen_at, after_alter, alter_after, opened, store_on, migrate, open_store,
}

fill_row-seen_at :
    (now : ℕ) (rows : List OldToken)
    → map (fill_row now) (map (seen_at 0) rows) ≡ map (seen_at now) rows
fill_row-seen_at now [] = refl
fill_row-seen_at now (row ∷ rows) =
    ap (λ (r : List TokenRow). seen_at now row ∷ r) (fill_row-seen_at now rows)

run_statement-cases {ℓ} :
    (P : Answer × File → Type ℓ) (m : File → Answer × File) (faults : List Bool) (f : File)
    → ((rest : List Bool) → P (m (record f { faults = rest })))
    → ((rest : List Bool) → P (refused, record f { faults = rest }))
    → P (m f)
    → P (run_statement m faults f)
run_statement-cases P m [] f runs is_refused plain = plain
run_statement-cases P m (true ∷ rest) f runs is_refused plain = is_refused rest
run_statement-cases P m (false ∷ rest) f runs is_refused plain = runs rest

-- the tokens of the file, if the last statement went well
abbrev IsAt : TokenTable → Answer × File → Type 0
IsAt t (done, f) = f.token_table ≡ t
IsAt t (duplicate_column, f) = Unit
IsAt t (refused, f) = Unit

module _ (rows : List OldToken) (seq now : ℕ) where
  create_keys-IsAt :
      (f : File) → f.token_table ≡ old_table rows seq → IsAt (old_table rows seq) (create_keys f)
  create_keys-IsAt f e = go f.key_table
    where
      go :
          (o : Option (List KeyRow × ℕ))
          → IsAt
              (old_table rows seq)
              (elim o [ none ↦ (done, record f { key_table = some ([], 0) }) | some r ↦ (done, f) ])
      go none = e
      go (some r) = e

  create_tokens-IsAt :
      (f : File) → f.token_table ≡ old_table rows seq → IsAt (old_table rows seq) (create_tokens f)
  create_tokens-IsAt f e = rw e refl

  and_then-IsAt :
      (x : Answer × File)
      → IsAt (old_table rows seq) x
      → IsAt (old_table rows seq) (and_then create_tokens x)
  and_then-IsAt (done, f) e =
      run_statement-cases (IsAt (old_table rows seq)) create_tokens f.faults f
        (λ rest. create_tokens-IsAt (record f { faults = rest }) e) (λ rest. tt)
        (create_tokens-IsAt f e)
  and_then-IsAt (duplicate_column, f) e = tt
  and_then-IsAt (refused, f) e = tt

  fill-IsAt :
      (f : File)
      → f.token_table ≡ table (map (seen_at 0) rows) seq
      → IsAt (table (map (seen_at now) rows) seq) (fill_last_seen_at now f)
  fill-IsAt f e = rw e (rw (fill_row-seen_at now rows) refl)

  after_alter-IsAt :
      (f : File)
      → f.token_table ≡ old_table rows seq
      → IsAt (table (map (seen_at now) rows) seq) (after_alter now (add_last_seen_at f))
  after_alter-IsAt f e = rw e (
      run_statement-cases (IsAt (table (map (seen_at now) rows) seq)) (fill_last_seen_at now)
        f.faults (record f { token_table = table (map (seen_at 0) rows) seq })
        (λ rest.
          fill-IsAt (record f { token_table = table (map (seen_at 0) rows) seq; faults = rest })
            refl)
        (λ rest. tt) (fill-IsAt (record f { token_table = table (map (seen_at 0) rows) seq }) refl))

  alter_after-IsAt :
      (x : Answer × File)
      → IsAt (old_table rows seq) x
      → IsAt (table (map (seen_at now) rows) seq) (alter_after now x)
  alter_after-IsAt (done, f) e =
      run_statement-cases (λ x. IsAt (table (map (seen_at now) rows) seq) (after_alter now x))
        add_last_seen_at f.faults f (λ rest. after_alter-IsAt (record f { faults = rest }) e)
        (λ rest. tt) (after_alter-IsAt f e)
  alter_after-IsAt (duplicate_column, f) e = tt
  alter_after-IsAt (refused, f) e = tt

  migrate-IsAt :
      (f : File)
      → f.token_table ≡ old_table rows seq
      → IsAt (table (map (seen_at now) rows) seq) (migrate now f)
  unfolding migrate
  migrate-IsAt f e = alter_after-IsAt _ (
      and_then-IsAt _ (
        run_statement-cases (IsAt (old_table rows seq)) create_keys f.faults f
          (λ rest. create_keys-IsAt (record f { faults = rest }) e) (λ rest. tt)
          (create_keys-IsAt f e)))

store_on-eq :
    (started : ℕ) (f : File) (tokens : List TokenRow) (seq : ℕ) (s : Store)
    (o : Option (List KeyRow × ℕ))
    → store_on started f o (table tokens seq) ≡ some s
    → s.db.tokens ≡ tokens
store_on-eq started f tokens seq s none q = absurd (cc)
store_on-eq started f tokens seq s (some (keys, key_seq)) q =
    ap (λ x. x.db.tokens) (sym (some-injective _ _ q))

opened-IsAt :
    (started : ℕ) (tokens : List TokenRow) (seq : ℕ) (x : Answer × File) (f' : File) (s : Store)
    → IsAt (table tokens seq) x
    → opened started x ≡ (some s, f')
    → s.db.tokens ≡ tokens
opened-IsAt started tokens seq (done, f) f' s e q =
    let made : store_on started f f.key_table f.token_table ≡ some s =
      ap {A = Option Store × File} {B = Option Store} (λ x. x.0) q in
    store_on-eq started f tokens seq s f.key_table (rw e at made)
opened-IsAt started tokens seq (duplicate_column, f) f' s e q = absurd (cc)
opened-IsAt started tokens seq (refused, f) f' s e q = absurd (cc)

-- the rows of an older table, all seen at one time, in a sweep
sweep_kept :
    (cutoff : ℤ) (now : ℕ) (rows : List OldToken)
    → ltb_ℤ (pos now) cutoff ≡ false
    → delete_stale cutoff (map (seen_at now) rows) ≡ map (seen_at now) rows
unfolding delete_stale
sweep_kept cutoff now [] h = refl
sweep_kept cutoff now (row ∷ rows) h =
    rw h (ap (λ (r : List TokenRow). seen_at now row ∷ r) (sweep_kept cutoff now rows h))

sweep_emptied :
    (cutoff : ℤ) (now : ℕ) (rows : List OldToken)
    → ltb_ℤ (pos now) cutoff ≡ true
    → delete_stale cutoff (map (seen_at now) rows) ≡ []
unfolding delete_stale
sweep_emptied cutoff now [] h = refl
sweep_emptied cutoff now (row ∷ rows) h = rw h (sweep_emptied cutoff now rows h)

Change-seen_at :
    (max : ℤ) (now : ℕ) (rows : List OldToken) (C : ℤ → Type 0) (db db' : Db)
    → ((cutoff : ℤ) → C cutoff → ltb_ℤ (pos now) cutoff ≡ false)
    → db.tokens ≡ map (seen_at now) rows
    → Change max C (λ _. ⊥) (λ _. ⊥) db db'
    → db'.tokens ≡ map (seen_at now) rows
Change-seen_at max now rows C db db' fresh e (none_made q) = rw q e
Change-seen_at max now rows C db db' fresh e (key_inserted h label at room q) =
    rw (insert_key-eq-some h label at db db' q).1 e
Change-seen_at max now rows C db db' fresh e (key_stamped id at q) = rw q e
Change-seen_at max now rows C db db' fresh e (key_revoked id at cut q) = rw q e
Change-seen_at max now rows C db db' fresh e (tokens_bound k p t at seen q) = absurd seen
Change-seen_at max now rows C db db' fresh e (tokens_swept cutoff c q) =
    rw q (rw e (sweep_kept cutoff now rows (fresh cutoff c)))

-- An upgrade keeps the owners of device tokens: when `Open` accepts a file from before `last_seen_at`,
-- a sweep within the retention after it deletes no binding, so the rows are those of the file, each
-- with the upgrade as the time at which it was seen.
pub open_store-old_table :
    (started filled : ℕ) (rows : List OldToken) (seq : ℕ) (f f' : File) (s : Store) (retention : ℤ)
    (r : Readings)
    → f.token_table ≡ old_table rows seq
    → open_store started filled f ≡ (some s, f')
    → r.cutoff ≤ filled + pos_part retention
    → (maybe_prune retention r s).db.tokens ≡ map (seen_at (unix filled)) rows
unfolding open_store
open_store-old_table started filled rows seq f f' s retention r e q h =
    let tokens : s.db.tokens ≡ map (seen_at (unix filled)) rows =
      opened-IsAt started (map (seen_at (unix filled)) rows) seq (migrate (unix filled) f) f' s
        (migrate-IsAt rows seq (unix filled) f e) q in
    Change-seen_at (pos 0) (unix filled) rows _ s.db (maybe_prune retention r s).db
      (λ cutoff c.
        let same : cutoff ≡ cutoff_at retention r.cutoff = c.0 in
        rw same (cutoff_at-le retention filled r.cutoff h))
      tokens (maybe_prune-Change (λ x. x) (pos 0) retention (λ _. ⊥) (λ _. ⊥) r s)

-- the interrupted upgrade's tables, as the second `Open` leaves them
abbrev reopened : ℕ → List OldToken → ℕ → List KeyRow × ℕ → Store
reopened started rows seq keys = record {
  db = record { keys = keys.0; key_seq = keys.1; tokens = map (seen_at 0) rows; token_seq = seq };
  last_prune = started;
  faults = [];
}

foreign_bind :
    (started : ℕ) (rows : List OldToken) (seq : ℕ) (keys : List KeyRow × ℕ) (j k now : ℕ)
    (platform token : Str)
    → owner_of platform token (map (seen_at 0) rows) ≡ some k
    → k ≢ j
    → bind_in_transaction j platform token now (reopened started rows seq keys)
      ≡ (ok k, reopened started rows seq keys)
unfolding bind_in_transaction
foreign_bind started rows seq keys j k now platform token own other = elim (Bool-cases (k == j)) [
  | inl same ↦ absurd (other ((==_iff k j).0 same))
  | inr differ ↦ rw (own, differ) refl
]

-- An upgrade cut short loses bindings: where the backfill is refused, `Open` fails; the next `Open` then
-- accepts the file, since the column is there; and if the first `BindToken` after that is for a token of
-- another key and a sweep is due, it deletes all bindings, however fresh. The retention is positive, the
-- sweep's clock reads more than it after 1970, and the database refuses nothing further.
pub interrupted_upgrade :
    (started filled started' filled' span : ℕ) (rows : List OldToken) (seq : ℕ)
    (keys : List KeyRow × ℕ) (j k now : ℕ) (platform token : Str) (r : Readings)
    → 0 < span
    → prune_interval ≤ r.since - started'
    → span + 1000000000 ≤ r.cutoff
    → owner_of platform token (map (seen_at 0) rows) ≡ some k
    → k ≢ j
    → let first = open_store started filled (record {
      key_table = some keys;
      token_table = old_table rows seq;
      faults = false ∷ false ∷ false ∷ true ∷ [];
    }) in
      (first.0 ≡ none)
      × ((s : Store) × ((open_store started' filled' first.1).0 ≡ some s)
          × ((bind_token j platform token (pos span) now r s).0 ≡ ok k)
          × ((bind_token j platform token (pos span) now r s).1.db.tokens ≡ []))
unfolding open_store migrate maybe_prune bind_token
interrupted_upgrade started filled started' filled' span rows seq keys j k now platform token r
      some_retention due late own other =
    let on : leb_ℤ (pos span) (pos 0) ≡ false = ground arith in
    let is_due : leb prune_interval (r.since - started') ≡ true = ground arith in
    let stale : ltb_ℤ (pos 0) (unix_ℤ (sub_ℕ r.cutoff span)) ≡ true = ground arith in
    let bound = foreign_bind started' rows seq keys j k (unix now) platform token own other in
    (
      refl,
      (
        reopened started' rows seq keys,
        refl,
        rw bound refl,
        rw (bound, on, is_due) (sweep_emptied (unix_ℤ (sub_ℕ r.cutoff span)) 0 rows stale),
      ),
    )
