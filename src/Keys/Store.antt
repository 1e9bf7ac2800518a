-- ===== src/Keys/Store.antt =====
-- The operations of internal/keys/keys.go. Each takes the readings of `time.Now()` that it makes, in
-- nanoseconds, and `hash_key`, SHA-256 in hexadecimal, is a parameter.
use slim_m_relay.Prelude.{
  ℕ, ◌-◌, ◌/◌, Option, none, some, List, length, leb, ◌==◌, if◌then◌else◌, map,
}
use slim_m_relay.Prelude.Int.{ℤ, pos, negsuc, sub_ℕ, pos_part, ltb_ℤ, leb_ℤ}
use slim_m_relay.Text.{Str}
use slim_m_relay.Keys.Tables.{
  KeyRow, key_by_hash, insert_key, stamp_key, revoke_key, rows_affected, order_desc, owner_of,
  insert_token, touch_token, delete_stale,
}
use slim_m_relay.Keys.Sql.{
  not_found, registration_ceiling, rand_error, Result, ok, err, Store, M, pure, fail, ◌>>=◌, ◌>>◌,
  statement, query, exec, transaction,
}
use slim_m_relay.Keys.Secret.{plaintext}

-- `t.Unix()` of a time in nanoseconds, which rounds down, also before 1970
abbrev pub unix : ℕ → ℕ
unix t = t / 1000000000

abbrev pub unix_ℤ : ℤ → ℤ
unix_ℤ (pos n) = pos (n / 1000000000)
unix_ℤ (negsuc n) = negsuc (n / 1000000000)

-- one hour
abbrev pub prune_interval : ℕ
prune_interval = 3600000000000

-- Key: a row without its hash
pub record Key : Type 0 where
  pub id : ℕ
  pub label : Str
  pub created_at : ℕ
  pub last_used_at : Option ℕ
  pub revoked_at : Option ℕ

unfoldable pub scan_key : KeyRow → Key
scan_key row = record {
  id = row.id;
  label = row.label;
  created_at = row.created_at;
  last_used_at = row.last_used_at;
  revoked_at = row.revoked_at;
}

-- `if count >= max { return "", ErrRegistrationCeiling }`, with the count read in between
abbrev pub check_ceiling : ℤ → M (Unit {0})
check_ceiling max =
    if ltb_ℤ (pos 0) max
    then (do
      count ← query (λ db. length db.keys)
      if leb_ℤ max (pos count) then fail registration_ceiling else pure tt)
    else pure tt

-- what `Verify` does with the row that it found; a refused stamp is ignored
abbrev pub stamp_used : Key → ℕ → Result (Unit {0}) × Store → Result Key × Store
stamp_used k used (ok _, s) = (ok (record k { last_used_at = some used }), s)
stamp_used k used (err e, s) = (ok k, s)

abbrev pub check_revoked : Option ℕ → Key → ℕ → M Key
check_revoked (some _) k used s = (err not_found, s)
check_revoked none k used s =
    stamp_used k used (exec (λ db. some (record db { keys = stamp_key used k.id db.keys })) s)

abbrev pub check_row : Option KeyRow → ℕ → M Key
check_row none used s = (err not_found, s)
check_row (some row) used s = check_revoked row.revoked_at (scan_key row) used s

module _ (hash_key : Str → Str) where
  -- `raw` is what `rand.Read` gives, if it does not fail
  abbrev pub issue_plain : Str → Str → ℤ → ℕ → M Str
  issue_plain plain label max now =
      transaction
        (do check_ceiling max; exec (insert_key (hash_key plain) label (unix now)); pure plain)

  unfoldable pub issue : Option (List ℕ) → Str → ℤ → ℕ → M Str
  unfolding plaintext insert_key
  issue none label max now = fail rand_error
  issue (some raw) label max now = issue_plain (plaintext raw) label max now

  unfoldable pub verify : Str → ℕ → M Key
  unfolding key_by_hash scan_key
  verify plain now = do
    row ← query (λ db. key_by_hash (hash_key plain) db.keys)
    check_row row (unix now)

unfoldable pub list_keys : M (List Key)
unfolding order_desc scan_key
list_keys = do rows ← query (λ db. order_desc db.keys); pure (map scan_key rows)

unfoldable pub revoke : ℤ → ℕ → M (Unit {0})
revoke id now = do
  n ← statement (λ s. (
    ok (rows_affected id s.db.keys),
    record s { db = record s.db { keys = revoke_key (unix now) id s.db.keys } },
  ))
  if n == 0 then fail not_found else pure tt

-- the three readings of the clock in `maybePruneStaleTokens`
pub record Readings : Type 0 where
  pub since : ℕ
  pub stamp : ℕ
  pub cutoff : ℕ

-- a refused DELETE is logged
abbrev pub delete_or_log : Result (Unit {0}) × Store → Store
delete_or_log (_, s) = s

unfoldable pub maybe_prune : ℤ → Readings → Store → Store
unfolding delete_stale
maybe_prune retention t s =
    if leb_ℤ retention (pos 0)
    then s
    else if leb prune_interval (t.since - s.last_prune)
    then delete_or_log (
        exec
          (λ db. some (record db {
            tokens = delete_stale (unix_ℤ (sub_ℕ t.cutoff (pos_part retention))) db.tokens;
          }))
          (record s { last_prune = t.stamp }))
    else s

abbrev pub bind_row : ℕ → Str → Str → ℕ → Option ℕ → M ℕ
bind_row key_id platform token now none = do
  exec (insert_token platform token key_id now)
  pure key_id
bind_row key_id platform token now (some owner) =
    if owner == key_id
    then (do
      exec (λ db. some (record db { tokens = touch_token now platform token db.tokens }))
      pure owner)
    else pure owner

unfoldable pub bind_in_transaction : ℕ → Str → Str → ℕ → M ℕ
unfolding owner_of insert_token
bind_in_transaction key_id platform token now = transaction (do
  owner ← query (λ db. owner_of platform token db.tokens)
  bind_row key_id platform token now owner)

-- an error returns before the pruning
abbrev pub prune_after : ℤ → Readings → Result ℕ × Store → Result ℕ × Store
prune_after retention t (ok owner, s) = (ok owner, maybe_prune retention t s)
prune_after retention t (err e, s) = (err e, s)

unfoldable pub bind_token : ℕ → Str → Str → ℤ → ℕ → Readings → M ℕ
unfolding bind_in_transaction maybe_prune
bind_token key_id platform token retention now t s =
    prune_after retention t (bind_in_transaction key_id platform token (unix now) s)
