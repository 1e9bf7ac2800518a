-- ===== src/Api/Threads/Safety.antt =====
-- Requests to internal/api side by side: their replies, and the ceiling on the keys.
use slim_m_relay.Prelude.{ℕ, ◌<◌, ◌≤◌, ◌≡◌, refl, some, List, length, get_elem?, subst, arith}
use slim_m_relay.Prelude.Int.{pos}
use slim_m_relay.Text.{Str}
use slim_m_relay.Push.{Outcome}
use slim_m_relay.Keys.Ceiling.{Change-ceiling}
use slim_m_relay.Keys.Changes.{Change}
use slim_m_relay.Api.Http.{Response, value}
use slim_m_relay.Api.Server.{Wiring, Server}
use slim_m_relay.Api.Send.{SendMessage}
use slim_m_relay.Api.Send.Results.{Answers}
use slim_m_relay.Api.Send.Replies.{success}
use slim_m_relay.Api.Router.{send, Request}
use slim_m_relay.Api.Threads.{Act, Answer, Program, finish, act, perform}
use slim_m_relay.Api.Threads.Promises.{Promises}
use slim_m_relay.Api.Threads.Effects.{SweepsBy, TouchesAt, CutsOff, perform-Change}
use slim_m_relay.Api.Threads.Handling.{IsReply, program-IsReply, recovered-IsReply}
use slim_m_relay.Api.Threads.Steps.{Thread, System, started, Reach}
use slim_m_relay.Api.Threads.Steps.Kept.{IsKept, Reach-Holds}

abbrev AnyAct : Act → Type 0
AnyAct a = Unit

abbrev AnyAnswer : (a : Act) → Answer a → Type 0
AnyAnswer a x = Unit

abbrev AnyKey : ℕ → Type 0
AnyKey id = Unit

abbrev AnyServer : Server → Type 0
AnyServer s = Unit

-- what a thread is to reply
abbrev WillReply : ℕ → Thread → Type 0
WillReply i t = Promises AnyAct AnyAnswer (IsReply t.request.exchange t.endpoint) t.rest

module _ (hash_key : Str → Str) (w : Wiring) (Comes : Request → Type 0) where
  WillReply-IsKept : IsKept hash_key w Comes 0 AnyServer WillReply
  WillReply-IsKept = record {
    comes_in = λ i r endpoint le c.
        program-IsReply hash_key w r.exchange AnyAct AnyAnswer AnyKey
          (record {
            sends = record {
              finds = λ _. tt;
              known = λ _ _ _ _. tt;
              stamps = λ _ _ _. tt;
              pays = λ _ _ _. tt;
              calls = λ _ _ _. tt;
              returns = λ _ _. tt;
              binds = λ _ _ _ _ _. tt;
              tests = λ _ _. tt;
              sweeps = λ _ _. tt;
            };
            registers = λ _ _. tt;
            issues = λ _ _ _. tt;
            lists = tt;
            revokes = λ _ _. tt;
          })
          endpoint;
    advances = λ i t a k s e h _. (tt, next t a k s e h);
    panics = λ i t h. recovered-IsReply t.request.exchange t.endpoint;
  }
    where
      next :
          (t : Thread) (a : Act) (k : Answer a → Program Response) (s : Server)
          → t.rest ≡ act a k
          → WillReply 0 t
          → WillReply 0 (record t { rest = k (perform hash_key w a s).1 })
      next t a k s e h =
          let both : Promises AnyAct AnyAnswer (IsReply t.request.exchange t.endpoint) (act a k) =
            subst (Promises AnyAct AnyAnswer (IsReply t.request.exchange t.endpoint)) e h in
          both.1 (perform hash_key w a s).1 tt

-- Whatever other requests run beside it, and however their acts interleave, fail or panic: a send
-- that is answered with 200 has one result for each message whose token is not empty, in their order,
-- each with a status.
pub Reach-Answers :
    (hash_key : Str → Str) (w : Wiring) (Comes : Request → Type 0) (s : Server) (q : System) (i : ℕ)
    (t : Thread) (messages : List SendMessage) (results : List Outcome)
    → Reach hash_key w Comes (started s) q
    → get_elem? q.threads i ≡ some t
    → t.endpoint ≡ send
    → t.request.exchange.messages.parsed ≡ value messages
    → t.rest ≡ finish (success results)
    → Answers messages results
Reach-Answers hash_key w Comes s q i t messages results reach at sends p replied =
    let kept =
      Reach-Holds hash_key w Comes 0 AnyServer WillReply (started s) q
        (WillReply-IsKept hash_key w Comes) reach
        (record { older = omega arith; server = tt; each = λ j u e. absurd (cc) }) in
    let h : WillReply i t = kept.each i t at in
    let here : IsReply t.request.exchange t.endpoint (success results) =
      subst (Promises AnyAct AnyAnswer (IsReply t.request.exchange t.endpoint)) replied h in
    let reply : IsReply t.request.exchange send (success results) =
      subst (λ z. IsReply t.request.exchange z (success results)) sends here in
    reply messages results p refl

abbrev AnyThread : ℕ → Thread → Type 0
AnyThread i t = Unit

-- However the requests interleave, the keys never get more than a positive ceiling, if they were
-- within it.
pub Reach-le-ceiling :
    (hash_key : Str → Str) (w : Wiring) (Comes : Request → Type 0) (n : ℕ) (p q : System)
    → w.config.max_registrations ≡ pos n
    → 0 < n
    → length p.server.store.db.keys ≤ n
    → Reach hash_key w Comes p q
    → length q.server.store.db.keys ≤ n
Reach-le-ceiling hash_key w Comes n p q m positive h reach =
    (Reach-Holds hash_key w Comes 0 Within AnyThread p q
      (record {
        comes_in = λ i r endpoint le c. tt;
        advances = λ i t a k s e _ le. (within a s le, tt);
        panics = λ i t _. tt;
      })
      reach (record { older = omega arith; server = h; each = λ j u e. tt })).server
  where
    Within : Server → Type 0
    Within s = length s.store.db.keys ≤ n

    within :
        (a : Act) (s : Server)
        → length s.store.db.keys ≤ n
        → length (perform hash_key w a s).0.store.db.keys ≤ n
    within a s le =
        Change-ceiling n s.store.db (perform hash_key w a s).0.store.db positive
          (subst
            (λ z.
              Change z (SweepsBy a) (TouchesAt a) (CutsOff a) s.store.db
                (perform hash_key w a s).0.store.db)
            m (perform-Change hash_key w a s))
          le
