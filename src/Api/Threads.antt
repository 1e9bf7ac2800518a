-- ===== src/Api/Threads.antt =====
-- Requests of internal/api that run at the same time: a handler as a program of acts on the shared
-- state, each of which is atomic. An act is a call of a limiter, which holds its mutex, one statement
-- or transaction on the only connection of internal/keys, or the test under `pruneMu`.
pub mod Programs
pub mod Alone
pub mod Serial
pub mod Steps
pub mod Promises
pub mod Effects
pub mod Sending
pub mod Replying
pub mod Handling
pub mod Safety
pub mod Owner
pub mod Cutoff
pub mod Takes
pub mod Bounds
pub mod Drain
pub mod Foreign
mod Tests
use slim_m_relay.Prelude.{ℕ, ◌-◌, Bool, true, false, Option, some, List, leb, if◌then◌else◌}
use slim_m_relay.Prelude.Int.{ℤ}
use slim_m_relay.Text.{Str, format_int}
use slim_m_relay.RateLimit.{Limiter, allow, give_back}
use slim_m_relay.Keys.Tables.{KeyRow, key_by_hash, stamp_key, delete_stale}
use slim_m_relay.Keys.Sql.{Result, Store, M, query, exec}
use slim_m_relay.Keys.Store.{
  Key, unix, prune_interval, issue, list_keys, revoke, bind_in_transaction,
}
use slim_m_relay.Api.Server.{Wiring, Server}

pub data Act : Type 0 where
  -- `Allow` and `Return`
  allow_register : Str → ℕ → Act
  allow_send : ℕ → ℕ → Act
  allow_call : ℕ → ℕ → Act
  return_call : ℕ → Act
  -- the two statements of `Verify`
  find_key : Str → Act
  stamp : ℕ → ℕ → Act
  -- `Issue`, `List` and `Revoke`
  issue_key : Option (List ℕ) → Str → ℕ → Act
  list_all : Act
  revoke_id : ℤ → ℕ → Act
  -- the transaction of `BindToken`, and the two halves of the sweep behind it
  bind : ℕ → Str → Str → ℕ → Act
  prune_due : ℕ → ℕ → Act
  sweep_tokens : ℤ → Act

-- what an act gives to its thread
abbrev pub Answer : Act → Type 0
Answer (allow_register key now) = Bool
Answer (allow_send key_id now) = Bool
Answer (allow_call key_id now) = Bool
Answer (return_call key_id) = Unit
Answer (find_key hash) = Result (Option KeyRow)
Answer (stamp id now) = Result (Unit {0})
Answer (issue_key raw label now) = Result Str
Answer list_all = Result (List Key)
Answer (revoke_id id now) = Result (Unit {0})
Answer (bind key_id platform token now) = Result ℕ
Answer (prune_due since mark) = Bool
Answer (sweep_tokens cutoff) = Result (Unit {0})

pub data Program (A : Type 0) : Type 0 where
  finish : A → Program A
  act : (a : Act) → (Answer a → Program A) → Program A

infixl 5 ◌>>=◌
abbrev pub ◌>>=◌ : {A B : Type 0} → Program A → (A → Program B) → Program B
finish a >>= f = f a
act a k >>= f = act a (λ x. k x >>= f)

abbrev pub perform_act : (a : Act) → Program (Answer a)
perform_act a = act a (λ x. finish x)

abbrev pub swap : {A : Type 0} → Server → A × Store → Server × A
swap s (a, store) = (record s { store = store }, a)

-- an operation on the store
abbrev pub on_store : {A : Type 0} → (Store → A × Store) → Server → Server × A
on_store m s = swap s (m s.store)

-- the test of `maybePruneStaleTokens` under its mutex
abbrev pub test_and_mark : ℕ → ℕ → Store → Bool × Store
test_and_mark since mark s =
    if leb prune_interval (since - s.last_prune)
    then (true, record s { last_prune = mark })
    else (false, s)

abbrev pub with_register_lim : Server → Limiter × Bool → Server × Bool
with_register_lim s (lim, granted) = (record s { register_lim = lim }, granted)

abbrev pub with_send_lim : Server → Limiter × Bool → Server × Bool
with_send_lim s (lim, granted) = (record s { send_lim = lim }, granted)

abbrev pub with_call_lim : Server → Limiter × Bool → Server × Bool
with_call_lim s (lim, granted) = (record s { call_lim = lim }, granted)

module _ (hash_key : Str → Str) (w : Wiring) where
  unfoldable pub perform : (a : Act) → Server → Server × Answer a
  unfolding allow give_back format_int issue list_keys revoke bind_in_transaction key_by_hash
  perform (allow_register key now) s = with_register_lim s (allow s.register_lim key now)
  perform (allow_send key_id now) s = with_send_lim s (allow s.send_lim (format_int key_id) now)
  perform (allow_call key_id now) s = with_call_lim s (allow s.call_lim (format_int key_id) now)
  perform (return_call key_id) s =
      (record s { call_lim = give_back s.call_lim (format_int key_id) }, tt)
  perform (find_key hash) s = on_store (query (λ db. key_by_hash hash db.keys)) s
  perform (stamp id now) s =
      on_store (exec (λ db. some (record db { keys = stamp_key now id db.keys }))) s
  perform (issue_key raw label now) s =
      on_store (issue hash_key raw label w.config.max_registrations now) s
  perform list_all s = on_store list_keys s
  perform (revoke_id id now) s = on_store (revoke id now) s
  perform (bind key_id platform token now) s =
      on_store (bind_in_transaction key_id platform token (unix now)) s
  perform (prune_due since mark) s = on_store (test_and_mark since mark) s
  perform (sweep_tokens cutoff) s =
      on_store (exec (λ db. some (record db { tokens = delete_stale cutoff db.tokens }))) s

  -- a program with the server to itself
  unfoldable pub run_alone : {A : Type 0} → Program A → Server → Server × A
  unfolding perform
  run_alone (finish x) s = (s, x)
  run_alone (act a k) s = let (s', x) = perform a s in run_alone (k x) s'
