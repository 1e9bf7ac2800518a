-- ===== src/Dispatch/Progress.antt =====
-- The pool of internal/api/send.go ends, and stays within its bound on the requests in flight.
use slim_m_relay.Prelude.{
  ℕ, zero, suc, ◌+◌, ◌*◌, ◌-◌, ◌<◌, ◌≤◌, ◌≡◌, ◌≢◌, refl, ◌∙◌, ◌⊎◌, inl, inr, true, false, List,
  length, get_elem?-lt, get_elem?-some, arith, if◌then◌else◌, Bool-cases, ltb, ltb→lt, ◌==◌, ==_iff,
  ap,
}
use slim_m_relay.Prelude.Int.{ℤ, pos, pos_part, ltb_ℤ}
use slim_m_relay.Push.{Outcome}
use slim_m_relay.Dispatch.{Item, worker_count}
use slim_m_relay.Dispatch.Pool.{
  Phase, waiting, sending, sent, Pool, start, Step, hand, expire, stop, close, finish, Reach, here,
  later, IsDone,
}
use slim_m_relay.Dispatch.Invariant.{
  in_flight, in_flight_pos, weight, IsLayout, Inv, Step-Inv, Reach-Inv,
}
use slim_m_relay.Dispatch.Refines.{none_in_flight}

worker_count_pos : (concurrency : ℤ) (n : ℕ) → 0 < n → 0 < worker_count concurrency n
unfolding worker_count
worker_count_pos concurrency n h = ground arith

-- at most the configured number, or one where that is not positive
abbrev pub most : ℤ → ℕ
most concurrency = if ltb_ℤ (pos 0) concurrency then pos_part concurrency else 1

worker_count-le : (concurrency : ℤ) (n : ℕ) → worker_count concurrency n ≤ most concurrency
unfolding worker_count
worker_count-le concurrency n = elim (Bool-cases (ltb_ℤ (pos 0) concurrency)) [
  | inl on ↦ ground arith
  | inr off ↦ ground arith
]

-- With the goroutines that `dispatch` starts, never more than SendConcurrency items are with a provider
-- at once, or one where that is not positive. Each item has a result of its own.
pub in_flight_bound :
    (concurrency : ℤ) (items : List Item) (before : List Outcome) (p : Pool)
    → IsLayout items (length before)
    → Reach items (start (worker_count concurrency (length items)) before) p
    → in_flight (length items) p.phase ≤ most concurrency
in_flight_bound concurrency items before p layout path =
    let v = Reach-Inv (worker_count concurrency (length items)) items before layout path in
    let counted : in_flight (length items) p.phase ≡ p.active = v.counted in
    let all : p.idle + p.active ≡ worker_count concurrency (length items) = v.staffed in
    omega (arith, worker_count-le concurrency (length items))

find_sending : (m : ℕ) (f : ℕ → Phase) → 0 < in_flight m f → (n : ℕ) × (n < m) × (f n ≡ sending)
unfolding in_flight
find_sending zero f h = absurd (omega arith)
find_sending (suc m) f h = go (f m) refl (find_sending m f)
  where
    go :
        (ph : Phase)
        → f m ≡ ph
        → (0 < in_flight m f → (n : ℕ) × (n < m) × (f n ≡ sending))
        → (n : ℕ) × (n < suc m) × (f n ≡ sending)
    go sending e rec = (m, omega arith, e)
    go waiting e rec =
        let (n, lt, q) = rec (let none_here : weight (f m) ≡ 0 = ap weight e in omega arith) in
        (n, omega arith, q)
    go sent e rec =
        let (n, lt, q) = rec (let none_here : weight (f m) ≡ 0 = ap weight e in omega arith) in
        (n, omega arith, q)

-- what is left to do
abbrev pub left : List Item → Pool → ℕ
left items p =
    2 * (length items - p.handed)
    + p.active
    + (if p.feeding then 1 else 0)
    + (if p.expired then 0 else 1)

unfoldable pub steps : {items : List Item} {p q : Pool} → Reach items p q → ℕ
steps here = 0
steps (later r s) = suc (steps r)

Step-left :
    (workers : ℕ) (items : List Item) (before : List Outcome) (p q : Pool)
    → Inv workers items before p
    → Step items p q
    → left items q < left items p
Step-left workers items before p q v (hand feeding room free e) = rw e (ground arith)
Step-left workers items before p q v (expire early e) = rw e (ground arith)
Step-left workers items before p q v (stop feeding late room e) = rw e (ground arith)
Step-left workers items before p q v (close feeding all e) = rw e (ground arith)
Step-left workers items before p q v (finish n item busy at e) =
    let some_busy : 0 < p.active =
      rw (← v.counted)
        (in_flight_pos (length items) n p.phase (get_elem?-lt n items item at) busy) in
    rw e (ground arith)

-- The pool takes at most two steps for each item and two more, so it ends, where each item has a
-- result of its own.
pub steps_bound :
    {workers : ℕ} {items : List Item} {before : List Outcome} {p : Pool}
    → IsLayout items (length before)
    → (path : Reach items (start workers before) p)
    → steps path + left items p ≤ 2 * length items + 2
unfolding steps
steps_bound layout here = omega arith
steps_bound {workers} {items} {before} layout (later {q = q} {r = r} path step) = omega (
  arith,
  steps_bound layout path,
  Step-left workers items before q r (Reach-Inv workers items before layout path) step,
)

sent_phase : (ph : Phase) → ph ≢ waiting → ph ≢ sending → ph ≡ sent
sent_phase waiting a b = absurd (a refl)
sent_phase sending a b = absurd (b refl)
sent_phase sent a b = refl

module _ (workers : ℕ) (items : List Item) (before : List Outcome)
    (layout : IsLayout items (length before)) where
  -- a step of the pool itself, which is not the deadline's
  abbrev Goes : Pool → Type 0
  Goes p = (q : Pool) × Step items p q × (q.expired ≡ p.expired)

  busy-Goes : (p : Pool) → Inv workers items before p → 0 < p.active → Goes p
  busy-Goes p v h =
      let (n, lt, busy) = find_sending (length items) p.phase (rw v.counted h) in
      let (item, at) = get_elem?-some n items lt in (_, finish n item busy at refl, refl)

  next-Goes : (p : Pool) → 0 < workers → Inv workers items before p → IsDone p ⊎ Goes p
  next-Goes p w v = elim (Bool-cases p.feeding) [
    | inl feeding ↦ elim (Bool-cases (ltb p.handed (length items))) [
      | inl room ↦ elim (Bool-cases (ltb 0 p.idle)) [
        | inl free ↦ inr (_, hand feeding (ltb→lt _ _ room) (ltb→lt _ _ free) refl, refl)
        | inr full ↦
            let all : p.idle + p.active ≡ workers = v.staffed in inr (busy-Goes p v (ground arith))
      ]
      | inr all ↦ inr (
        _,
        close feeding (let few : p.handed ≤ length items = v.bounded in ground arith) refl,
        refl,
      )
    ]
    | inr ended ↦ elim (Bool-cases (p.active == 0)) [
      | inl idle ↦ inl (ended, (==_iff p.active 0).0 idle)
      | inr busy ↦ inr (busy-Goes p v (ground arith))
    ]
  ]

  -- a way to the end on which the deadline does not fire
  record Drained (o p : Pool) : Type 0 where
    end : Pool
    path : Reach items o end
    done : IsDone end
    same : end.expired ≡ p.expired
    inv : Inv workers items before end

  drained :
      (n : ℕ) (o p : Pool)
      → left items p ≤ n
      → 0 < workers
      → Inv workers items before p
      → Reach items o p
      → Drained o p
  drained zero o p few w v path = elim (next-Goes p w v) [
    | inl done ↦ record { end = p; path = path; done = done; same = refl; inv = v }
    | inr (q, step, same) ↦ absurd (omega (arith, Step-left workers items before p q v step))
  ]
  drained (suc n) o p few w v path = elim (next-Goes p w v) [
    | inl done ↦ record { end = p; path = path; done = done; same = refl; inv = v }
    | inr (q, step, same) ↦
        let rest =
          drained n o q (omega (arith, Step-left workers items before p q v step)) w
            (Step-Inv workers items before layout p q step v) (later path step) in
        record {
          end = rest.end;
          path = rest.path;
          done = rest.done;
          same = rest.same ∙ same;
          inv = rest.inv;
        }
  ]

  all_sent :
      (p : Pool)
      → Inv workers items before p
      → IsDone p
      → (p.expired ≡ true) ⊎ ((n : ℕ) → n < length items → p.phase n ≡ sent)
  all_sent p v done = elim v.ended [
    | inl on ↦ absurd (let off : p.feeding ≡ false = done.0 in cc)
    | inr (inr late) ↦ inl late
    | inr (inl all) ↦ inr (λ n h.
        sent_phase (p.phase n) (v.fed n (rw all h))
          (none_in_flight (length items) p.phase (v.counted ∙ done.1) n h))
  ]

-- No goroutine waits forever: from every state that the pool reaches there is a way to its end, on
-- which the deadline does not fire unless it has; and unless it has, every item has been sent there.
-- There is an item, and each has a result of its own.
pub pool_drains :
    (concurrency : ℤ) (items : List Item) (before : List Outcome) (p : Pool)
    → 0 < length items
    → IsLayout items (length before)
    → Reach items (start (worker_count concurrency (length items)) before) p
    → (q : Pool) × Reach items p q
      × IsDone q
      × (q.expired ≡ p.expired)
      × ((p.expired ≡ true) ⊎ ((n : ℕ) → n < length items → q.phase n ≡ sent))
pool_drains concurrency items before p some_item layout path =
    let workers = worker_count concurrency (length items) in
    let d =
      drained workers items before layout (left items p) p p (omega arith)
        (worker_count_pos concurrency (length items) some_item)
        (Reach-Inv workers items before layout path) here in
    (
      d.end,
      d.path,
      d.done,
      d.same,
      rw (← d.same) (all_sent workers items before layout d.end d.inv d.done),
    )
