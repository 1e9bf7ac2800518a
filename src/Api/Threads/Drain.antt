-- ===== src/Api/Threads/Drain.antt =====
-- The shutdown of cmd/relay/main.go: after the signal no request comes in, and those in flight end.
pub mod Acts
use slim_m_relay.Prelude.{
  ℕ, zero, suc, ◌+◌, ◌*◌, ◌≤◌, ◌<◌, ◌≡◌, refl, ◌∙◌, Bool, true, false, if◌then◌else◌, All, some,
  some-injective, List, [], ◌∷◌, ◌++◌, length, length-set, get_elem?, set, arith, inl, inr, ◌⊎◌,
  subst, ap,
}
use native.Mathlib.Nat.{mul-suc}
use slim_m_relay.Text.{Str}
use slim_m_relay.Api.Http.{Response}
use slim_m_relay.Api.Server.{Wiring, Server}
use slim_m_relay.Api.Router.{Request}
use slim_m_relay.Api.Threads.{Act, Answer, Program, finish, act, perform}
use slim_m_relay.Api.Threads.Takes.{Takes, Anything, Takes-le}
use slim_m_relay.Api.Threads.Bounds.{request_acts, program-Takes}
use slim_m_relay.Api.Threads.Steps.{
  Thread, System, started, recovered, Step, come_in, advance, panic, signal, exit, crash, Reach,
  here, later,
}
use slim_m_relay.Api.Threads.Steps.Kept.{IsKept, Reach-Holds}
use slim_m_relay.Api.Threads.Drain.Acts.{
  IsReplied, Left, Left-set, Left-all, Pending, Pending-cases,
}

-- the number of steps on the way
unfoldable pub steps :
    {hash_key : Str → Str} {w : Wiring} {Comes : Request → Type 0} {p q : System}
    → Reach hash_key w Comes p q
    → ℕ
steps here = 0
steps (later before step) = suc (steps before)

-- the steps that end the process: one, while it runs
abbrev exits : Bool → ℕ
exits runs = if runs then 1 else 0

exits-le : (runs : Bool) → exits runs ≤ 1
exits-le true = omega arith
exits-le false = omega arith

last_exit :
    (m taken n : ℕ) (runs : Bool)
    → taken + (m + exits runs) ≤ n
    → runs ≡ true
    → suc taken + (m + 0) ≤ n
last_exit m taken n true le e = omega arith
last_exit m taken n false le e = absurd (cc)

Reach-append :
    {hash_key : Str → Str} {w : Wiring} {Comes : Request → Type 0} {p q r : System}
    → Reach hash_key w Comes p q
    → Reach hash_key w Comes q r
    → Reach hash_key w Comes p r
Reach-append h here = h
Reach-append h (later before step) = later (Reach-append h before) step

module _ (hash_key : Str → Str) (w : Wiring) (Comes : Request → Type 0) where
  abbrev TakesFew : ℕ → Thread → Type 0
  TakesFew i t = Takes (request_acts hash_key w) Anything t.rest

  TakesFew-IsKept : IsKept hash_key w Comes 0 (λ s. Unit) TakesFew
  TakesFew-IsKept = record {
    comes_in = λ i r endpoint le c. program-Takes hash_key w r.exchange endpoint;
    advances = λ i t a k s e h _. (
      tt,
      next (request_acts hash_key w) a k (perform hash_key w a s).1
          (subst (Takes (request_acts hash_key w) Anything) e h),
    );
    panics = λ i t h. tt;
  }
    where
      next :
          (n : ℕ) (a : Act) (k : Answer a → Program Response) (x : Answer a)
          → Takes n Anything (act a k)
          → Takes n Anything (k x)
      next zero a k x h = absurd h
      next (suc n) a k x h = Takes-le Anything n (suc n) (k x) (omega arith) (h x)

  -- thread `i` does its next act
  abbrev acted : System → ℕ → Thread → (a : Act) → (Answer a → Program Response) → System
  acted q i t a k = record q {
    server = (perform hash_key w a q.server).0;
    threads = set q.threads i (record t { rest = k (perform hash_key w a q.server).1 });
  }

  acted-Left :
      (m : ℕ) (q : System) (i : ℕ) (t : Thread) (a : Act) (k : Answer a → Program Response)
      → Left m q.threads
      → get_elem? q.threads i ≡ some t
      → t.rest ≡ act a k
      → (fewer : ℕ) × (fewer < m) × Left fewer (acted q i t a k).threads
  acted-Left m q i t a k left at e =
      Left-set m i q.threads t (record t { rest = k (perform hash_key w a q.server).1 }) a k left at
        e (λ j h. h (perform hash_key w a q.server).1)

  -- after the signal: what is left, and the same threads
  record Draining (p q : System) (n taken : ℕ) : Type 0 where
    closed : q.listening ≡ false
    same : length q.threads ≡ length p.threads
    left : (m : ℕ) × Left m q.threads × (taken + (m + exits q.running) ≤ n)

  Step-Draining :
      (p q r : System) (n taken : ℕ)
      → Draining p q n taken
      → Step hash_key w Comes q r
      → Draining p r n (suc taken)
  Step-Draining p q r n taken d (come_in request endpoint may on m e) =
      absurd (let no : q.listening ≡ false = d.closed in cc)
  Step-Draining p q r n taken d (signal on e) =
      absurd (let no : q.listening ≡ false = d.closed in cc)
  Step-Draining p q r n taken d (advance i t a k runs at next e) =
      let (m, left, le) = d.left in
      let (fewer, less, after) = acted-Left m q i t a k left at next in
      rw e (record {
        closed = d.closed;
        same = rw length-set d.same;
        left = (fewer, after, omega arith);
      })
  Step-Draining p q r n taken d (panic i t a k runs at next e) =
      let (m, left, le) = d.left in
      let (fewer, less, after) =
        Left-set m i q.threads t (recovered t) a k left at next (λ j h. tt) in
      rw e (record {
        closed = d.closed;
        same = rw length-set d.same;
        left = (fewer, after, omega arith);
      })
  Step-Draining p q r n taken d (exit off runs e) =
      let (m, left, le) = d.left in
      rw e (record {
        closed = d.closed;
        same = d.same;
        left = (m, left, last_exit m taken n q.running le runs);
      })
  Step-Draining p q r n taken d (crash runs e) =
      let (m, left, le) = d.left in
      rw e (record {
        closed = refl;
        same = d.same;
        left = (m, left, last_exit m taken n q.running le runs);
      })

  Reach-Draining :
      (p q : System) (n : ℕ) (path : Reach hash_key w Comes p q)
      → p.listening ≡ false
      → Left n p.threads
      → Draining p q (suc n) (steps path)
  unfolding steps
  Reach-Draining p q n here off left = record {
    closed = off;
    same = refl;
    left = (n, left, let h = exits-le p.running in omega arith);
  }
  Reach-Draining p q n (later {q = mid} before step) off left =
      Step-Draining p mid q (suc n) (steps before) (Reach-Draining p mid n before off left) step

  -- a path on which the threads that are left write their replies
  record Drained (q : System) : Type 0 where
    end : System
    path : Reach hash_key w Comes q end
    same : length end.threads ≡ length q.threads
    replied : All IsReplied end.threads

  drained : (n m : ℕ) (q : System) → Left m q.threads → m ≤ n → q.running ≡ true → Drained q
  drained zero m q left le runs = elim (Pending-cases q.threads) [
    | inl all ↦ record { end = q; path = here; same = refl; replied = all }
    | inr (i, t, a, k, at, e) ↦
        let (fewer, less, after) = acted-Left m q i t a k left at e in absurd (omega arith)
  ]
  drained (suc n) m q left le runs = elim (Pending-cases q.threads) [
    | inl all ↦ record { end = q; path = here; same = refl; replied = all }
    | inr (i, t, a, k, at, e) ↦
        let (fewer, less, after) = acted-Left m q i t a k left at e in
        let d = drained n fewer (acted q i t a k) after (omega arith) runs in
        record {
          end = d.end;
          path = Reach-append (later here (advance i t a k runs at e refl)) d.path;
          same = d.same ∙ length-set q.threads i _;
          replied = d.replied;
        }
  ]

-- After the signal no request comes in, and the relay takes at most `3 + 5 * RELAY_MAX_MESSAGES` steps
-- for each one that did and one more for the end of the process, however they interleave, fail or
-- panic; and until that end there is always a way on which each of them gets its reply, so that
-- `Shutdown` waits for no thread forever.
pub shutdown_bound :
    (hash_key : Str → Str) (w : Wiring) (Comes : Request → Type 0) (s : Server) (p q : System)
    → Reach hash_key w Comes (started s) p
    → p.listening ≡ false
    → (path : Reach hash_key w Comes p q)
    → (length q.threads ≡ length p.threads)
      × (steps path ≤ 1 + request_acts hash_key w * length p.threads)
      × (q.running ≡ true
          → (r : System) × Reach hash_key w Comes q r
            × (length r.threads ≡ length p.threads)
            × All IsReplied r.threads)
shutdown_bound hash_key w Comes s p q before off path =
    let kept =
      Reach-Holds hash_key w Comes 0 (λ s. Unit) (TakesFew hash_key w Comes) (started s) p
        (TakesFew-IsKept hash_key w Comes) before
        (record { older = omega arith; server = tt; each = λ j u e. absurd (cc) }) in
    let d =
      Reach-Draining hash_key w Comes p q (request_acts hash_key w * length p.threads) path off
        (Left-all (request_acts hash_key w) p.threads kept.each) in
    let (m, left, le) = d.left in
    (
      d.same,
      omega arith,
      λ runs.
          let all = drained hash_key w Comes m m q left (omega arith) runs in
          (all.end, all.path, all.same ∙ d.same, all.replied),
    )
