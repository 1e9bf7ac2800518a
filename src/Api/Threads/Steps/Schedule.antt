-- ===== src/Api/Threads/Steps/Schedule.antt =====
-- Reachable states of the relay's threads by evaluation: the requests that come in, and the threads
-- that take a turn, in a given order.
use slim_m_relay.Prelude.{
  ℕ, ◌≡◌, refl, true, Option, none, some, List, [], ◌∷◌, ◌++◌, get_elem?, set,
}
use slim_m_relay.Text.{Str}
use slim_m_relay.Api.Http.{Response}
use slim_m_relay.Api.Server.{Wiring}
use slim_m_relay.Api.Router.{Endpoint, Request}
use slim_m_relay.Api.Threads.{Program, finish, act, perform}
use slim_m_relay.Api.Threads.Steps.{Thread, System, thread_of, Reach, later, advance}

module _ (hash_key : Str → Str) (w : Wiring) where
  abbrev moved : System → ℕ → Thread → Program Response → System
  moved p i t (finish reply) = p
  moved p i t (act a k) = record p {
    server = (perform hash_key w a p.server).0;
    threads = set p.threads i (record t { rest = k (perform hash_key w a p.server).1 });
  }

  abbrev moved_if : System → ℕ → Option Thread → System
  moved_if p i none = p
  moved_if p i (some t) = moved p i t t.rest

  -- a turn of thread `i`, if it is there and has an act left
  abbrev pub turn : System → ℕ → System
  turn p i = moved_if p i (get_elem? p.threads i)

  unfoldable pub turns : System → List ℕ → System
  unfolding perform
  turns p [] = p
  turns p (i ∷ is) = turns (turn p i) is

  -- a request that comes in
  abbrev pub arrived : System → Request → Endpoint → System
  arrived p r endpoint = record p { threads = p.threads ++ thread_of hash_key w r endpoint ∷ [] }

  module _ (Comes : Request → Type 0) where
    -- a state on the way, while the process runs
    abbrev Runs : System → System → Type 0
    Runs p q = Reach hash_key w Comes p q × (q.running ≡ true)

    unfoldable turn-Runs : (p q : System) (i : ℕ) → Runs p q → Runs p (turn q i)
    turn-Runs p q i (h, runs) = picked (get_elem? q.threads i) refl
      where
        picked : (o : Option Thread) → get_elem? q.threads i ≡ o → Runs p (moved_if q i o)
        picked none at = (h, runs)
        picked (some t) at = go t.rest refl
          where
            go : (rest : Program Response) → t.rest ≡ rest → Runs p (moved q i t rest)
            go (finish reply) e = (h, runs)
            go (act a k) e = (later h (advance i t a k runs at e refl), runs)

    unfoldable pub turns-Runs : (p q : System) (is : List ℕ) → Runs p q → Runs p (turns q is)
    unfolding turns turn-Runs
    turns-Runs p q [] h = h
    turns-Runs p q (i ∷ is) h = turns-Runs p (turn q i) is (turn-Runs p q i h)

    abbrev pub turns-Reach :
        (p q : System) (is : List ℕ)
        → Reach hash_key w Comes p q
        → q.running ≡ true
        → Reach hash_key w Comes p (turns q is)
    turns-Reach p q is h runs = (turns-Runs p q is (h, runs)).0
