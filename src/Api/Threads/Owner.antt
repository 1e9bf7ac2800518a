-- ===== src/Api/Threads/Owner.antt =====
-- Requests to internal/api side by side: who owns a device token in internal/keys.
use slim_m_relay.Prelude.{
  true, ℕ, ◌+◌, ◌≤◌, ◌≡◌, ap, sym, ◌∙◌, false, some, get_elem?, subst, arith,
}
use slim_m_relay.Prelude.Int.{ℤ, pos, pos_part, ltb_ℤ}
use slim_m_relay.Text.{Str}
use slim_m_relay.Keys.Sql.{Result, ok, err, Store}
use slim_m_relay.Keys.Store.{unix, bind_in_transaction}
use slim_m_relay.Keys.Atomic.{Ends, IsBound, bind_in_transaction-Ends}
use slim_m_relay.Keys.Changes.{cutoff_at-le}
use slim_m_relay.Keys.Holding.{Either, IsHeld}
use slim_m_relay.Keys.Ownership.{Change-keeps, own_bind-IsHeld, later_bind-owner}
use slim_m_relay.Api.Http.{Response}
use slim_m_relay.Api.Server.{Wiring, Server}
use slim_m_relay.Api.Send.{retention_of}
use slim_m_relay.Api.Router.{Endpoint, Request}
use slim_m_relay.Api.Threads.Programs.{program}
use slim_m_relay.Api.Threads.{
  swap, Act, Answer, Program, act, perform, allow_register, allow_send, allow_call, return_call,
  find_key, stamp, issue_key, list_all, revoke_id, bind, prune_due, sweep_tokens,
}
use slim_m_relay.Api.Threads.Promises.{Promises}
use slim_m_relay.Api.Threads.Effects.{SweepsBy, TouchesAt, perform-Change}
use slim_m_relay.Api.Threads.Handling.{IsReply, program-IsReply, recovered-IsReply}
use slim_m_relay.Api.Threads.Steps.{Thread, System, Reach}
use slim_m_relay.Api.Threads.Steps.Kept.{IsKept, Reach-Holds}

-- From `start` on an act reads the clock no earlier, and sweeps nothing that was seen then.
abbrev pub IsTimelyAct : ℕ → Act → Type 0
IsTimelyAct start (bind key_id platform token now) = start ≤ now
IsTimelyAct start (sweep_tokens cutoff) = ltb_ℤ (pos (unix start)) cutoff ≡ false
IsTimelyAct start _ = Unit

abbrev AnyAnswer : (a : Act) → Answer a → Type 0
AnyAnswer a x = Unit

-- all acts that are left to a thread
abbrev pub IsTimely : ℕ → Thread → Type 0
IsTimely start t =
    Promises (IsTimelyAct start) AnyAnswer (IsReply t.request.exchange t.endpoint) t.rest

-- A request that comes in reads the clock from `start` on, and sweeps, if at all, no later than
-- `retention` after it.
abbrev pub ComesInTime : ℤ → ℕ → Request → Type 0
ComesInTime retention start r =
    (n : ℕ)
    → (start ≤ (r.exchange.send_times.clock n).bind_at)
      × Either (ltb_ℤ (pos 0) retention)
          ((r.exchange.send_times.clock n).prune_at.cutoff ≤ start + pos_part retention) (Unit {0})

module _ (hash_key : Str → Str) (w : Wiring) (start : ℕ) where
  pub comes-IsTimely :
      (r : Request) (endpoint : Endpoint)
      → ComesInTime (retention_of w.config) start r
      → Promises
          (IsTimelyAct start)
          AnyAnswer
          (IsReply r.exchange endpoint)
          (program hash_key w r.exchange endpoint)
  comes-IsTimely r endpoint c =
      program-IsReply hash_key w r.exchange (IsTimelyAct start) AnyAnswer (λ id. Unit)
        (record {
          sends = record {
            finds = λ _. tt;
            known = λ _ _ _ _. tt;
            stamps = λ _ _ _. tt;
            pays = λ _ _ _. tt;
            calls = λ _ _ _. tt;
            returns = λ _ _. tt;
            binds = λ id platform token n _. (c n).0;
            tests = λ _ _. tt;
            sweeps = λ n on.
                cutoff_at-le (retention_of w.config) start
                  (r.exchange.send_times.clock n).prune_at.cutoff
                  (let active : ltb_ℤ (pos 0) (retention_of w.config) ≡ true = ground arith in
                    rw active at (c n).1);
          };
          registers = λ _ _. tt;
          issues = λ _ _ _. tt;
          lists = tt;
          revokes = λ _ _. tt;
        })
        endpoint

  act_sweeps :
      (a : Act) (cutoff : ℤ)
      → IsTimelyAct start a
      → SweepsBy a cutoff
      → ltb_ℤ (pos (unix start)) cutoff ≡ false
  act_sweeps (sweep_tokens c) cutoff timely e = rw e timely
  act_sweeps (allow_register key now) cutoff timely e = absurd e
  act_sweeps (allow_send id now) cutoff timely e = absurd e
  act_sweeps (allow_call id now) cutoff timely e = absurd e
  act_sweeps (return_call id) cutoff timely e = absurd e
  act_sweeps (find_key hash) cutoff timely e = absurd e
  act_sweeps (stamp id now) cutoff timely e = absurd e
  act_sweeps (issue_key raw label now) cutoff timely e = absurd e
  act_sweeps list_all cutoff timely e = absurd e
  act_sweeps (revoke_id id now) cutoff timely e = absurd e
  act_sweeps (bind id p t now) cutoff timely e = absurd e
  act_sweeps (prune_due since mark) cutoff timely e = absurd e

  act_times : (a : Act) (seen : ℕ) → IsTimelyAct start a → TouchesAt a seen → unix start ≤ seen
  act_times (bind id p t now) seen timely e = let later : start ≤ now = timely in omega arith
  act_times (sweep_tokens c) seen timely e = absurd e
  act_times (allow_register key now) seen timely e = absurd e
  act_times (allow_send id now) seen timely e = absurd e
  act_times (allow_call id now) seen timely e = absurd e
  act_times (return_call id) seen timely e = absurd e
  act_times (find_key hash) seen timely e = absurd e
  act_times (stamp id now) seen timely e = absurd e
  act_times (issue_key raw label now) seen timely e = absurd e
  act_times list_all seen timely e = absurd e
  act_times (revoke_id id now) seen timely e = absurd e
  act_times (prune_due since mark) seen timely e = absurd e

  module _ (k : ℕ) (platform token : Str) where
    unfoldable pub Held : Server → Type 0
    Held s = IsHeld k platform token (unix start) s.store.db.tokens

    pub Held-IsKept :
        IsKept hash_key w (ComesInTime (retention_of w.config) start) 0 Held (λ i. IsTimely start)
    unfolding Held
    Held-IsKept = record {
      comes_in = λ i r endpoint le c. comes-IsTimely r endpoint c;
      advances = λ i t a k s e timely held. next t a k s (rw e at timely) held;
      panics = λ i t timely. recovered-IsReply t.request.exchange t.endpoint;
    }
      where
        next :
            (t : Thread) (a : Act) (f : Answer a → Program Response) (s : Server)
            → Promises
                (IsTimelyAct start)
                AnyAnswer
                (IsReply t.request.exchange t.endpoint)
                (act a f)
            → Held s
            → Held (perform hash_key w a s).0
              × IsTimely start (record t { rest = f (perform hash_key w a s).1 })
        next t a f s timely held = (
          Change-keeps k platform token start s.store.db (perform hash_key w a s).0.store.db
              (λ cutoff e. act_sweeps a cutoff timely.0 e) (λ seen e. act_times a seen timely.0 e)
              (perform-Change hash_key w a s) held,
          timely.1 (perform hash_key w a s).1 tt,
        )

    -- the token is held once a bind of `k` has come back with `k`
    pub bound-Held :
        (s s' : Server) → perform hash_key w (bind k platform token start) s ≡ (s', ok k) → Held s'
    unfolding perform Held
    bound-Held s s' =
        taken (bind_in_transaction k platform token (unix start) s.store)
          (bind_in_transaction-Ends k platform token (unix start) s.store)
      where
        taken :
            (r : Result ℕ × Store)
            → Ends s.store.db (IsBound k platform token (unix start) s.store) r
            → swap s r ≡ (s', ok k)
            → IsHeld k platform token (unix start) s'.store.db.tokens
        taken (err e, m) h q = absurd (cc)
        taken (ok owner, m) h e =
            let own : owner ≡ k = ground arith in
            let same : record s { store = m } ≡ s' = ap (λ (z : Server × Result ℕ). z.0) e in
            subst (λ (z : Server). IsHeld k platform token (unix start) z.store.db.tokens) same
              (own_bind-IsHeld k platform token start s.store m owner own h)

    -- and then every bind of it does
    pub Held-owner :
        (j o later : ℕ) (s : Server)
        → Held s
        → (perform hash_key w (bind j platform token later) s).1 ≡ ok o
        → o ≡ k
    unfolding perform Held
    Held-owner j o later s held =
        found (bind_in_transaction j platform token (unix later) s.store)
          (bind_in_transaction-Ends j platform token (unix later) s.store)
      where
        found :
            (r : Result ℕ × Store)
            → Ends s.store.db (IsBound j platform token (unix later) s.store) r
            → (swap s r).1 ≡ ok o
            → o ≡ k
        found (err e, m) h z = absurd (cc)
        found (ok owner, m) h z =
            let same : owner ≡ o = ground arith in
            sym same ∙ later_bind-owner k platform token start s.store m j owner (unix later) held h

-- Once a transaction of `BindToken` for key `k` has come back with `k`, every later one for the token
-- that succeeds, by whatever key, comes back with `k`: however the acts of the requests in flight and
-- of those that come in interleave, fail or panic, as long as they read the clock from then on, and
-- sweep, if at all, by a cutoff within the retention.
pub Reach-owner :
    (hash_key : Str → Str) (w : Wiring) (start k j o later : ℕ) (platform token : Str)
    (s s' : Server) (p q : System)
    → perform hash_key w (bind k platform token start) s ≡ (p.server, ok k)
    → ((i : ℕ) (t : Thread) → get_elem? p.threads i ≡ some t → IsTimely start t)
    → Reach hash_key w (ComesInTime (retention_of w.config) start) p q
    → perform hash_key w (bind j platform token later) q.server ≡ (s', ok o)
    → o ≡ k
Reach-owner hash_key w start k j o later platform token s s' p q first timely reach last =
    let kept =
      Reach-Holds hash_key w (ComesInTime (retention_of w.config) start) 0
        (Held hash_key w start k platform token) (λ i. IsTimely start) p q
        (Held-IsKept hash_key w start k platform token) reach
        (record {
          older = omega arith;
          server = bound-Held hash_key w start k platform token s p.server first;
          each = timely;
        }) in
    Held-owner hash_key w start k platform token j o later q.server kept.server
      (ap (λ (z : Server × Result ℕ). z.1) last)
