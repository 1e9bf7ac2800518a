-- ===== src/Api/Threads/Cutoff.antt =====
-- Requests to internal/api side by side: a key that is revoked while they run.
use slim_m_relay.Prelude.{
  ℕ, ◌≤◌, ◌≡◌, ◌≢◌, refl, ap, true, Option, none, some, some-injective, length, get_elem?,
  get_elem?-lt, ◌<◌, All, subst, arith,
}
use slim_m_relay.Prelude.Int.{pos}
use slim_m_relay.Text.{Str}
use slim_m_relay.Keys.Tables.{KeyRow, key_by_hash, is_some, is_revoked}
use slim_m_relay.Keys.Sql.{Result, ok, err, Store, query, statement_cases}
use slim_m_relay.Keys.Store.{revoke}
use slim_m_relay.Keys.Rows.{IsRevoked, All-key_by_hash}
use slim_m_relay.Keys.Revocation.{IsCut, Change-IsCut, revoke-IsCut}
use slim_m_relay.Api.Http.{Response}
use slim_m_relay.Api.Server.{Wiring, Server}
use slim_m_relay.Api.Router.{Endpoint, Request}
use slim_m_relay.Api.Threads.{
  Act, Answer, Program, act, perform, swap, allow_register, allow_send, allow_call, return_call,
  find_key, stamp, issue_key, list_all, revoke_id, bind, prune_due, sweep_tokens,
}
use slim_m_relay.Api.Threads.Programs.{program}
use slim_m_relay.Api.Threads.Promises.{Promises}
use slim_m_relay.Api.Threads.Effects.{perform-Change}
use slim_m_relay.Api.Threads.Handling.{IsReply, program-IsReply, recovered-IsReply}
use slim_m_relay.Api.Threads.Steps.{Thread, System, Reach}
use slim_m_relay.Api.Threads.Steps.Kept.{IsKept, Reach-Holds}

-- the key in whose name an act is done
abbrev pub key_of : Act → Option ℕ
key_of (stamp id now) = some id
key_of (allow_send id now) = some id
key_of (allow_call id now) = some id
key_of (return_call id) = some id
key_of (bind id platform token now) = some id
key_of _ = none

abbrev NotFor : ℕ → Act → Type 0
NotFor n a = key_of a ≢ some n

-- a row that is found, and is not revoked, is another key's
abbrev FindsOther : ℕ → (a : Act) → Answer a → Type 0
FindsOther n (find_key hash) (ok (some row)) = row.revoked_at ≡ none → row.id ≢ n
FindsOther n a x = Unit

module _ (hash_key : Str → Str) (w : Wiring) (n : ℕ) where
  query-FindsOther :
      (hash : Str) (s : Store)
      → All (IsRevoked n) s.db.keys
      → FindsOther n (find_key hash) (query (λ db. key_by_hash hash db.keys) s).0
  query-FindsOther hash s cut =
      statement_cases (λ x. FindsOther n (find_key hash) x.0)
        (λ s'. (ok (key_by_hash hash s'.db.keys), s')) s
        (λ f. found (key_by_hash hash s.db.keys) refl) (λ f. tt)
    where
      found :
          (o : Option KeyRow) → key_by_hash hash s.db.keys ≡ o → FindsOther n (find_key hash) (ok o)
      found none e = tt
      found (some row) e = λ live same.
          let revoked : is_revoked row ≡ true =
            All-key_by_hash (IsRevoked n) hash s.db.keys row cut e same in
          cc (ap is_some live)

  perform-FindsOther :
      (a : Act) (s : Server)
      → All (IsRevoked n) s.store.db.keys
      → FindsOther n a (perform hash_key w a s).1
  unfolding perform
  perform-FindsOther (find_key hash) s cut = query-FindsOther hash s.store cut
  perform-FindsOther (allow_register key now) s cut = tt
  perform-FindsOther (allow_send id now) s cut = tt
  perform-FindsOther (allow_call id now) s cut = tt
  perform-FindsOther (return_call id) s cut = tt
  perform-FindsOther (stamp id now) s cut = tt
  perform-FindsOther (issue_key raw label now) s cut = tt
  perform-FindsOther list_all s cut = tt
  perform-FindsOther (revoke_id id now) s cut = tt
  perform-FindsOther (bind id p t now) s cut = tt
  perform-FindsOther (prune_due since mark) s cut = tt
  perform-FindsOther (sweep_tokens cutoff) s cut = tt

  other_key : (id : ℕ) → id ≢ n → some id ≢ some n
  other_key id differ e = differ (some-injective _ _ e)

  comes-NotFor :
      (r : Request) (endpoint : Endpoint)
      → Promises
          (NotFor n)
          (FindsOther n)
          (IsReply r.exchange endpoint)
          (program hash_key w r.exchange endpoint)
  comes-NotFor r endpoint =
      program-IsReply hash_key w r.exchange (NotFor n) (FindsOther n) (λ id. id ≢ n)
        (record {
          sends = record {
            finds = λ hash e. cc;
            known = λ hash row g live. g live;
            stamps = λ id now. other_key id;
            pays = λ id now. other_key id;
            calls = λ id now. other_key id;
            returns = λ id. other_key id;
            binds = λ id platform token i. other_key id;
            tests = λ since mark e. cc;
            sweeps = λ i on e. cc;
          };
          registers = λ key now e. cc;
          issues = λ raw label now e. cc;
          lists = λ e. cc;
          revokes = λ id now e. cc;
        })
        endpoint

  module _ (base : ℕ) where
    -- the threads from number `base` on
    IsOther : ℕ → Thread → Type 0
    IsOther i t =
        base ≤ i → Promises (NotFor n) (FindsOther n) (IsReply t.request.exchange t.endpoint) t.rest

    IsOther-IsKept :
        (Comes : Request → Type 0) → IsKept hash_key w Comes base (λ s. IsCut n s.store.db) IsOther
    unfolding IsOther
    IsOther-IsKept Comes = record {
      comes_in = λ i r endpoint le c _. comes-NotFor r endpoint;
      advances = λ i t a k s e other cut. (
        Change-IsCut n s.store.db (perform hash_key w a s).0.store.db
            (perform-Change hash_key w a s) cut,
        λ le.
            next t a k s
              (subst (Promises (NotFor n) (FindsOther n) (IsReply t.request.exchange t.endpoint)) e
                (other le))
              cut,
      );
      panics = λ i t other le. recovered-IsReply t.request.exchange t.endpoint;
    }
      where
        next :
            (t : Thread) (a : Act) (k : Answer a → Program Response) (s : Server)
            → Promises (NotFor n) (FindsOther n) (IsReply t.request.exchange t.endpoint) (act a k)
            → IsCut n s.store.db
            → Promises
                (NotFor n)
                (FindsOther n)
                (IsReply t.request.exchange t.endpoint)
                (k (perform hash_key w a s).1)
        next t a k s h cut = h.1 (perform hash_key w a s).1 (perform-FindsOther a s cut.cut)

-- Once a revocation of key `n` has succeeded, no request that comes in after it ever does an act for
-- that key: it stamps no row, binds no token and spends nothing of its budgets, however the requests
-- interleave, those in flight at the time among them. The ids in the table are those given out.
pub Reach-NotFor :
    (hash_key : Str → Str) (w : Wiring) (Comes : Request → Type 0) (n now i : ℕ) (s : Server)
    (p q : System) (t : Thread) (a : Act) (k : Answer a → Program Response)
    → All (λ row. row.id ≤ s.store.db.key_seq) s.store.db.keys
    → perform hash_key w (revoke_id (pos n) now) s ≡ (p.server, ok tt)
    → Reach hash_key w Comes p q
    → length p.threads ≤ i
    → get_elem? q.threads i ≡ some t
    → t.rest ≡ act a k
    → key_of a ≢ some n
unfolding perform IsOther
Reach-NotFor hash_key w Comes n now i s p q t a k ids first reach new at next =
    let base = length p.threads in
    let kept =
      Reach-Holds hash_key w Comes base (λ s. IsCut n s.store.db) (IsOther hash_key w n base) p q
        (IsOther-IsKept hash_key w n base Comes) reach
        (record {
          older = omega arith;
          server = cut (revoke (pos n) now s.store) refl first;
          each = λ j u e le.
              absurd (let small : j < base = get_elem?-lt j p.threads u e in omega arith);
        }) in
    (subst (Promises (NotFor n) (FindsOther n) (IsReply t.request.exchange t.endpoint)) next
      (kept.each i t at new)).0
  where
    cut :
        (r : Result (Unit {0}) × Store)
        → revoke (pos n) now s.store ≡ r
        → swap s r ≡ (p.server, ok tt)
        → IsCut n p.server.store.db
    cut (err e, m) done z = absurd (cc)
    cut (ok _, m) done z =
        let same : record s { store = m } ≡ p.server =
          ap (λ (y : Server × Result (Unit {0})). y.0) z in
        subst (λ (y : Server). IsCut n y.store.db) same (revoke-IsCut n now s.store m ids done)
