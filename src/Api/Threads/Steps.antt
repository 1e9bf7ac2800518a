-- ===== src/Api/Threads/Steps.antt =====
-- The relay while it serves: net/http runs a goroutine for each request, under `recoverer` of
-- internal/api/helpers.go, until `main` of cmd/relay/main.go has a signal and shuts it down.
pub mod Kept
pub mod Schedule
use slim_m_relay.Prelude.{ℕ, ◌≡◌, Bool, true, false, some, List, [], ◌∷◌, ◌++◌, get_elem?, set}
use slim_m_relay.Text.{Str, codes}
use slim_m_relay.Api.Http.{Response, write_err}
use slim_m_relay.Api.Server.{Wiring, Server}
use slim_m_relay.Api.Router.{Endpoint, Request, match}
use slim_m_relay.Api.Threads.{Act, Answer, Program, finish, act, perform}
use slim_m_relay.Api.Threads.Programs.{program}

-- a request, and what is left of its handler: finished where the reply is written
pub record Thread : Type 0 where
  pub request : Request
  pub endpoint : Endpoint
  pub rest : Program Response

-- the requests that came in, in their order
pub record System : Type 0 where
  pub server : Server
  pub threads : List Thread
  pub listening : Bool
  pub running : Bool

abbrev pub started : Server → System
started s = record { server = s; threads = []; listening = true; running = true }

abbrev pub thread_of : (Str → Str) → Wiring → Request → Endpoint → Thread
thread_of hash_key w r endpoint = record {
  request = r;
  endpoint = endpoint;
  rest = program hash_key w r.exchange endpoint;
}

-- `recoverer`: the reply to a request whose handler panics
abbrev pub recovered : Thread → Thread
recovered t = record t { rest = finish (write_err 500 (codes "server error")) }

-- `Comes` are the requests that may come in.
module _ (hash_key : Str → Str) (w : Wiring) (Comes : Request → Type 0) where
  pub data Step (p q : System) : Type 0 where
    -- a request comes in, and the mux passes it to a handler
    come_in :
        (r : Request) (endpoint : Endpoint)
        → Comes r
        → p.listening ≡ true
        → match w.config.admin_token r.method r.path ≡ some endpoint
        → q ≡ record p { threads = p.threads ++ thread_of hash_key w r endpoint ∷ [] }
        → Step p q
    -- thread `n` does its next act
    advance :
        (n : ℕ) (t : Thread) (a : Act) (k : Answer a → Program Response)
        → p.running ≡ true
        → get_elem? p.threads n ≡ some t
        → t.rest ≡ act a k
        → q ≡ record p {
          server = (perform hash_key w a p.server).0;
          threads = set p.threads n (record t { rest = k (perform hash_key w a p.server).1 });
        }
        → Step p q
    -- or it panics before that
    panic :
        (n : ℕ) (t : Thread) (a : Act) (k : Answer a → Program Response)
        → p.running ≡ true
        → get_elem? p.threads n ≡ some t
        → t.rest ≡ act a k
        → q ≡ record p { threads = set p.threads n (recovered t) }
        → Step p q
    -- SIGINT or SIGTERM: `Shutdown` closes the listener, and waits for the threads
    signal : p.listening ≡ true → q ≡ record p { listening = false } → Step p q
    -- `Shutdown` returns, ten seconds later at the latest, and so does `main`: the process ends, with
    -- whatever threads are left
    exit : p.listening ≡ false → p.running ≡ true → q ≡ record p { running = false } → Step p q
    -- the process ends at once: `log.Fatalf` where the listener fails, or a panic in a goroutine of
    -- the fan-out, which `recoverer` does not reach
    crash : p.running ≡ true → q ≡ record p { listening = false; running = false } → Step p q

  pub data Reach (p : System) : System → Type 0 where
    here : Reach p p
    later : {q r : System} → Reach p q → Step q r → Reach p r
