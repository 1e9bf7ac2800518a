-- ===== src/Keys/Migrate.antt =====
-- `Open` and `migrate` of internal/keys/keys.go, on a database file of any age. The two CREATE
-- statements, the ALTER and the UPDATE run outside a transaction, so each may be the last to succeed.
use slim_m_relay.Prelude.{
  ℕ, Bool, true, false, Option, none, some, List, [], ◌∷◌, map, ◌==◌, if◌then◌else◌,
}
use slim_m_relay.Text.{Str}
use slim_m_relay.Keys.Tables.{KeyRow, TokenRow}
use slim_m_relay.Keys.Sql.{Store}
use slim_m_relay.Keys.Store.{unix}

-- a row of `tokens` from before `last_seen_at`
pub record OldToken : Type 0 where
  pub id : ℕ
  pub platform : Str
  pub token : Str
  pub key_id : ℕ
  pub created_at : ℕ

-- `tokens` in the file, with its AUTOINCREMENT counter
pub data TokenTable : Type 0 where
  no_table : TokenTable
  old_table : List OldToken → ℕ → TokenTable
  table : List TokenRow → ℕ → TokenTable

pub record File : Type 0 where
  pub key_table : Option (List KeyRow × ℕ)
  pub token_table : TokenTable
  pub faults : List Bool

pub data Answer : Type 0 where
  done duplicate_column refused : Answer

-- a statement on the file, which the database may refuse
abbrev pub run_statement : (File → Answer × File) → List Bool → File → Answer × File
run_statement m [] f = m f
run_statement m (true ∷ rest) f = (refused, record f { faults = rest })
run_statement m (false ∷ rest) f = m (record f { faults = rest })

-- CREATE TABLE IF NOT EXISTS
abbrev pub create_keys : File → Answer × File
create_keys f = elim f.key_table [
  | none ↦ (done, record f { key_table = some ([], 0) })
  | some rows ↦ (done, f)
]

abbrev pub create_tokens : File → Answer × File
create_tokens f = elim f.token_table [
  | no_table ↦ (done, record f { token_table = table [] 0 })
  | _ ↦ (done, f)
]

abbrev pub seen_at : ℕ → OldToken → TokenRow
seen_at now row = record {
  id = row.id;
  platform = row.platform;
  token = row.token;
  key_id = row.key_id;
  created_at = row.created_at;
  last_seen_at = now;
}

-- ALTER TABLE tokens ADD COLUMN last_seen_at INTEGER NOT NULL DEFAULT 0
abbrev pub add_last_seen_at : File → Answer × File
add_last_seen_at f = elim f.token_table [
  | no_table ↦ (refused, f)
  | old_table rows seq ↦ (done, record f { token_table = table (map (seen_at 0) rows) seq })
  | table rows seq ↦ (duplicate_column, f)
]

-- UPDATE tokens SET last_seen_at = ? WHERE last_seen_at = 0
abbrev pub fill_row : ℕ → TokenRow → TokenRow
fill_row now row = if row.last_seen_at == 0 then record row { last_seen_at = now } else row

abbrev pub fill_last_seen_at : ℕ → File → Answer × File
fill_last_seen_at now f = elim f.token_table [
  | table rows seq ↦ (done, record f { token_table = table (map (fill_row now) rows) seq })
  | _ ↦ (refused, f)
]

-- behind the ALTER: the backfill, or a column that was there, or an error
abbrev pub after_alter : ℕ → Answer × File → Answer × File
after_alter now (done, f) = run_statement (fill_last_seen_at now) f.faults f
after_alter now (duplicate_column, f) = (done, f)
after_alter now (refused, f) = (refused, f)

-- the next statement, unless one has failed
abbrev pub and_then : (File → Answer × File) → Answer × File → Answer × File
and_then m (done, f) = run_statement m f.faults f
and_then m (a, f) = (a, f)

abbrev pub alter_after : ℕ → Answer × File → Answer × File
alter_after now (done, f) = after_alter now (run_statement add_last_seen_at f.faults f)
alter_after now (a, f) = (a, f)

unfoldable pub migrate : ℕ → File → Answer × File
migrate now f = alter_after now (and_then create_tokens (run_statement create_keys f.faults f))

-- the store on a file that is up to date
abbrev pub store_on : ℕ → File → Option (List KeyRow × ℕ) → TokenTable → Option Store
store_on started f (some (keys, key_seq)) (table tokens token_seq) = some (record {
  db = record { keys = keys; key_seq = key_seq; tokens = tokens; token_seq = token_seq };
  last_prune = started;
  faults = f.faults;
})
store_on started f _ _ = none

abbrev pub opened : ℕ → Answer × File → Option Store × File
opened started (done, f) = (store_on started f f.key_table f.token_table, f)
opened started (a, f) = (none, f)

-- `Open`, with its two readings of the clock; `none` is an error, with the file as far as it came
unfoldable pub open_store : ℕ → ℕ → File → Option Store × File
unfolding migrate
open_store started filled f = opened started (migrate (unix filled) f)
