-- ===== src/Api/Threads/Steps/Kept.antt =====
-- What every step of the relay's threads keeps: a promise of each thread, and an invariant of the
-- server that the acts within the promise keep.
use slim_m_relay.Prelude.{
  ℕ, ◌≤◌, ◌≡◌, some, List, [], ◌∷◌, ◌++◌, length, length-append, length-set, get_elem?, set,
  get_elem?-append_cases, get_elem?-set_cases, inl, inr, arith,
}
use slim_m_relay.Text.{Str}
use slim_m_relay.Api.Http.{Response}
use slim_m_relay.Api.Server.{Wiring, Server}
use slim_m_relay.Api.Router.{Endpoint, Request}
use slim_m_relay.Api.Threads.{Act, Answer, Program, act, perform}
use slim_m_relay.Api.Threads.Steps.{
  Thread, System, thread_of, recovered, Step, come_in, advance, panic, signal, exit, crash, Reach,
  here, later,
}

-- `T i` is what thread `i` promises, and those from number `base` on come in later.
module _ (hash_key : Str → Str) (w : Wiring) (Comes : Request → Type 0) (base : ℕ)
    (I : Server → Type 0) (T : ℕ → Thread → Type 0) where
  pub record IsKept : Type 0 where
    pub comes_in :
        (i : ℕ) (r : Request) (endpoint : Endpoint)
        → base ≤ i
        → Comes r
        → T i (thread_of hash_key w r endpoint)
    pub advances :
        (i : ℕ) (t : Thread) (a : Act) (k : Answer a → Program Response) (s : Server)
        → t.rest ≡ act a k
        → T i t
        → I s
        → I (perform hash_key w a s).0 × T i (record t { rest = k (perform hash_key w a s).1 })
    pub panics : (i : ℕ) (t : Thread) → T i t → T i (recovered t)

  pub record Holds (p : System) : Type 0 where
    pub older : base ≤ length p.threads
    pub server : I p.server
    pub each : (i : ℕ) (t : Thread) → get_elem? p.threads i ≡ some t → T i t

  added :
      (threads : List Thread) (new : Thread)
      → base ≤ length threads
      → ((i : ℕ) (t : Thread) → get_elem? threads i ≡ some t → T i t)
      → T (length threads) new
      → (i : ℕ) (t : Thread) → get_elem? (threads ++ new ∷ []) i ≡ some t
      → T i t
  added threads new le each h i t e = elim (get_elem?-append_cases threads new t i e) [
    | inl old ↦ each i t old
    | inr (last, same) ↦ rw (last, same) h
  ]

  replaced :
      (threads : List Thread) (n : ℕ) (new : Thread)
      → ((i : ℕ) (t : Thread) → get_elem? threads i ≡ some t → T i t)
      → T n new
      → (i : ℕ) (t : Thread) → get_elem? (set threads n new) i ≡ some t
      → T i t
  replaced threads n new each h i t e = elim (get_elem?-set_cases threads n new t i e) [
    | inl old ↦ each i t old
    | inr (last, same) ↦ rw (last, same) h
  ]

  Step-Holds : (p q : System) → IsKept → Step hash_key w Comes p q → Holds p → Holds q
  Step-Holds p q kept (come_in r endpoint may on m e) h = rw e (record {
    older =
        let le : base ≤ length p.threads = h.older in
        omega (arith, length-append p.threads (thread_of hash_key w r endpoint ∷ []));
    server = h.server;
    each =
        added p.threads (thread_of hash_key w r endpoint) h.older h.each
          (kept.comes_in (length p.threads) r endpoint h.older may);
  })
  Step-Holds p q kept (advance n t a k runs at next e) h =
      let both = kept.advances n t a k p.server next (h.each n t at) h.server in
      rw e (record {
        older = rw length-set h.older;
        server = both.0;
        each = replaced p.threads n _ h.each both.1;
      })
  Step-Holds p q kept (panic n t a k runs at next e) h = rw e (record {
    older = rw length-set h.older;
    server = h.server;
    each = replaced p.threads n (recovered t) h.each (kept.panics n t (h.each n t at));
  })
  Step-Holds p q kept (signal on e) h =
      rw e (record { older = h.older; server = h.server; each = h.each })
  Step-Holds p q kept (exit off runs e) h =
      rw e (record { older = h.older; server = h.server; each = h.each })
  Step-Holds p q kept (crash runs e) h =
      rw e (record { older = h.older; server = h.server; each = h.each })

  pub Reach-Holds : (p q : System) → IsKept → Reach hash_key w Comes p q → Holds p → Holds q
  Reach-Holds p q kept here h = h
  Reach-Holds p q kept (later {q = mid} before step) h =
      Step-Holds mid q kept step (Reach-Holds p mid kept before h)
