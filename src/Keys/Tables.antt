-- ===== src/Keys/Tables.antt =====
-- The two SQLite tables of internal/keys/keys.go and the statements that it runs on them.
-- Times are Unix seconds. AUTOINCREMENT is a counter beside each table.
use slim_m_relay.Prelude.{
  ℕ, suc, Bool, true, false, not, ◌&&◌, Option, none, some, List, [], ◌∷◌, ◌++◌, keep, length, ltb,
  ◌==◌, if◌then◌else◌,
}
use slim_m_relay.Prelude.Int.{ℤ, pos, negsuc, ltb_ℤ}
use slim_m_relay.Text.{Str, str_eq}

pub record KeyRow : Type 0 where
  pub id : ℕ
  pub key_hash : Str
  pub label : Str
  pub created_at : ℕ
  pub last_used_at : Option ℕ
  pub revoked_at : Option ℕ

pub record TokenRow : Type 0 where
  pub id : ℕ
  pub platform : Str
  pub token : Str
  pub key_id : ℕ
  pub created_at : ℕ
  pub last_seen_at : ℕ

pub record Db : Type 0 where
  pub keys : List KeyRow
  pub key_seq : ℕ
  pub tokens : List TokenRow
  pub token_seq : ℕ

abbrev pub is_some {ℓ} : {A : Type ℓ} → Option A → Bool
is_some none = false
is_some (some a) = true

abbrev pub is_revoked : KeyRow → Bool
is_revoked row = is_some row.revoked_at

-- SELECT … FROM keys WHERE key_hash = ?
unfoldable pub key_by_hash : Str → List KeyRow → Option KeyRow
key_by_hash h [] = none
key_by_hash h (row ∷ rows) = if str_eq row.key_hash h then some row else key_by_hash h rows

-- INSERT INTO keys (key_hash, label, created_at) VALUES (?, ?, ?); `none` is the UNIQUE violation
unfoldable pub insert_key : Str → Str → ℕ → Db → Option Db
unfolding key_by_hash
insert_key h label now db =
    if is_some (key_by_hash h db.keys)
    then none
    else some (record db {
      keys =
          db.keys
          ++ (record {
            id = suc db.key_seq;
            key_hash = h;
            label = label;
            created_at = now;
            last_used_at = none;
            revoked_at = none;
          })
            ∷ [];
      key_seq = suc db.key_seq;
    })

-- UPDATE keys SET last_used_at = ? WHERE id = ?
unfoldable pub stamp_key : ℕ → ℕ → List KeyRow → List KeyRow
stamp_key now id [] = []
stamp_key now id (row ∷ rows) =
    (if row.id == id then record row { last_used_at = some now } else row) ∷ stamp_key now id rows

abbrev pub has_id : ℤ → KeyRow → Bool
has_id (pos n) row = row.id == n
has_id (negsuc n) row = false

-- WHERE id = ? AND revoked_at IS NULL
abbrev pub is_revocable : ℤ → KeyRow → Bool
is_revocable id row = has_id id row && not (is_revoked row)

-- UPDATE keys SET revoked_at = ? WHERE id = ? AND revoked_at IS NULL
unfoldable pub revoke_key : ℕ → ℤ → List KeyRow → List KeyRow
revoke_key now id [] = []
revoke_key now id (row ∷ rows) =
    (if is_revocable id row then record row { revoked_at = some now } else row)
    ∷ revoke_key now id rows

-- the rows that the last statement changes
unfoldable pub rows_affected : ℤ → List KeyRow → ℕ
rows_affected id rows = length (keep (is_revocable id) rows)

-- SELECT … FROM keys ORDER BY id DESC: each row goes before the first with a smaller id
unfoldable pub insert_desc : KeyRow → List KeyRow → List KeyRow
insert_desc row [] = row ∷ []
insert_desc row (r ∷ rows) = if ltb r.id row.id then row ∷ r ∷ rows else r ∷ insert_desc row rows

unfoldable pub order_desc : List KeyRow → List KeyRow
unfolding insert_desc
order_desc [] = []
order_desc (row ∷ rows) = insert_desc row (order_desc rows)

abbrev pub is_binding : Str → Str → TokenRow → Bool
is_binding platform token row = str_eq row.platform platform && str_eq row.token token

-- SELECT key_id FROM tokens WHERE platform = ? AND token = ?
unfoldable pub owner_of : Str → Str → List TokenRow → Option ℕ
owner_of platform token [] = none
owner_of platform token (row ∷ rows) =
    if is_binding platform token row then some row.key_id else owner_of platform token rows

-- INSERT INTO tokens (platform, token, key_id, created_at, last_seen_at) VALUES (?, ?, ?, ?, ?)
unfoldable pub insert_token : Str → Str → ℕ → ℕ → Db → Option Db
unfolding owner_of
insert_token platform token key_id now db =
    if is_some (owner_of platform token db.tokens)
    then none
    else some (record db {
      tokens =
          db.tokens
          ++ (record {
            id = suc db.token_seq;
            platform = platform;
            token = token;
            key_id = key_id;
            created_at = now;
            last_seen_at = now;
          })
            ∷ [];
      token_seq = suc db.token_seq;
    })

-- UPDATE tokens SET last_seen_at = ? WHERE platform = ? AND token = ?
unfoldable pub touch_token : ℕ → Str → Str → List TokenRow → List TokenRow
touch_token now platform token [] = []
touch_token now platform token (row ∷ rows) =
    (if is_binding platform token row then record row { last_seen_at = now } else row)
    ∷ touch_token now platform token rows

-- `last_seen_at >= cutoff`
abbrev pub is_fresh : ℤ → TokenRow → Bool
is_fresh cutoff row = not (ltb_ℤ (pos row.last_seen_at) cutoff)

-- DELETE FROM tokens WHERE last_seen_at < ?
unfoldable pub delete_stale : ℤ → List TokenRow → List TokenRow
delete_stale cutoff = keep (is_fresh cutoff)
